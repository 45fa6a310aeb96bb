-- ===== src/Payment/Settle.antt =====
-- src/adapters/dacs/pay-dem.ts: `settlePayDemCore`, the settlement of one native transfer.
-- The hooks and the client are injected, so what each of them answers is an argument; the calls
-- that the function makes are listed beside its result, in order.
pub mod Laws
pub mod Outcome
use pathos_dacs_ref.Prelude.{
  ℕ, String, Bool, true, false, not, ◌&&◌, ◌||◌, Option, none, some, List, [], ◌∷◌, ◌++◌, Result,
  ok, throw, ◌>>=◌, ◌>>◌, require, Codes, codes, codes_eq, str_eq, leb, ltb, ◌==◌, if◌then◌else◌,
  all, any, length,
}
use pathos_dacs_ref.Platform.{Platform}
use pathos_dacs_ref.Payment.Amount.{AmountError, dem_to_os, os_to_dem}
use pathos_dacs_ref.Payment.Policy.{PolicyError, utc_date_or_throw}

-- `phase_index` is `none` for a number that is negative or no integer
pub record CoreParams : Type 0 where
  pub recipient : String
  pub amount_dem_canonical : Codes
  pub currency : String
  pub job_id : String
  pub phase_index : Option ℕ
  pub network : Option String
  pub amount_os : Option ℕ
  pub rpc_url : Option String

-- what the function reads of `DemosNativeClient`, apart from `transfer`
pub record Client : Type 0 where
  pub address : String
  pub rpc_url : Option String

pub data SettleError : Type 0 where
  bad_recipient bad_payer bad_job_id bad_phase_index bad_network unsupported_currency
        amount_mismatch :
      SettleError
  amount_error : AmountError → SettleError
  -- a rejection of an injected function, which `await` passes on
  authorize_rejected journal_rejected transfer_rejected : SettleError

-- `PayDemSettlementRecoveryContext`; `settlementKey` is built from the rail, the job and the phase
pub record Recovery : Type 0 where
  pub job_id : String
  pub phase_index : ℕ
  pub network : String
  pub payer : String
  pub payee : String
  pub amount_os : ℕ

pub record Captured : Type 0 where
  pub recovery : Recovery
  pub canonical_dem : Codes

abbrev max_safe_integer : ℕ
max_safe_integer = 9007199254740991

abbrev or_else : Option String → String → String
or_else none d = d
or_else (some s) d = s

-- `pending | included | failed`, or anything else
pub data WitnessState : Type 0 where
  pending included failed unknown : WitnessState

-- the reply of `authorizeTransfer`; `malformed` is any value of another shape
pub data Authorization : Type 0 where
  proceed : String → Authorization
  block : String → String → Authorization
  malformed rejected : Authorization

-- `DemosTransferResult`: `none` where a field is missing or of another type; a block number is one
-- that is a non-negative safe integer
pub record Transfer : Type 0 where
  pub ok : Bool
  pub hash : Option String
  pub state : Option String
  pub block_number : Option ℕ

pub data TransferReply : Type 0 where
  resolved : Transfer → TransferReply
  rejected : TransferReply

pub data Hook : Type 0 where
  absent works fails : Hook

pub record World : Type 0 where
  pub authorize : Option Authorization
  pub journal : Hook
  pub transfer : TransferReply
  pub meter : Hook
  pub observed_at : ℕ

pub data Effect : Type 0 where
  authorized : ℕ → String → Effect
  journaled : Recovery → Effect
  transferred : ℕ → String → Recovery → Effect
  metered : ℕ → String → Effect

pub record Witness : Type 0 where
  pub ok : Bool
  pub tx_hash : String
  pub state : WitnessState
  pub block_number : Option ℕ

-- What `emitSettlementEvidenceV1` is given, and the fields of the result.
pub record Settled : Type 0 where
  pub tx_hash : String
  pub block_number : ℕ
  pub recovery : Recovery
  pub payment_amount : Codes
  pub finality_observed_at : ℕ
  pub metered : Hook

pub data RefusalReason : Type 0 where
  policy_unavailable transfer_failed no_transaction_hash : RefusalReason
  policy_blocked : String → RefusalReason

pub data WitnessReason : Type 0 where
  failed_after_broadcast not_included no_block_number : WitnessReason

pub data SettleOutcome : Type 0 where
  settled : Settled → SettleOutcome
  -- refused before anything was sent, with the rule and the context to recover
  aborted : String → RefusalReason → Recovery → SettleOutcome
  refused : RefusalReason → SettleOutcome
  -- the transfer may be on the chain
  witnessed : WitnessReason → Witness → SettleOutcome

module _ (platform : Platform) where
  -- `s && s.trim() === s`
  abbrev pub exact : String → Bool
  exact s = not (str_eq s "") && str_eq (platform.trim s) s

  abbrev pub is_job_id : String → Bool
  is_job_id j =
      not (str_eq j "") && (not (any (λ c. c == b':') (codes j)) && str_eq (platform.nfc j) j)

  abbrev pub safe_phase : Option ℕ → Result SettleError ℕ
  safe_phase none = throw bad_phase_index
  safe_phase (some n) = if leb n max_safe_integer then ok n else throw bad_phase_index

  abbrev same_supplied : Option ℕ → ℕ → Bool
  same_supplied none n = true
  same_supplied (some m) n = m == n

  abbrev amount_of : Codes → Result SettleError ℕ
  amount_of dem = elim (dem_to_os dem) [ ok n ↦ ok n | throw e ↦ throw (amount_error e) ]

  unfoldable pub require_captured_inputs : CoreParams → Client → Result SettleError Captured
  require_captured_inputs params client = do
    require (exact params.recipient) bad_recipient
    require (exact client.address) bad_payer
    require (is_job_id params.job_id) bad_job_id
    phase ← safe_phase params.phase_index
    require (exact (or_else params.network "demos")) bad_network
    require (str_eq params.currency "DEM") unsupported_currency
    amount ← amount_of params.amount_dem_canonical
    require
        (codes_eq (os_to_dem amount) params.amount_dem_canonical
          && same_supplied params.amount_os amount)
        amount_mismatch
    ok (record {
      recovery = record {
        job_id = params.job_id;
        phase_index = phase;
        network = or_else params.network "demos";
        payer = client.address;
        payee = params.recipient;
        amount_os = amount;
      };
      canonical_dem = params.amount_dem_canonical;
    })

-- `normaliseWitnessState`
unfoldable pub normalise_witness_state : Option String → WitnessState
normalise_witness_state none = unknown
normalise_witness_state (some s) =
    if str_eq s "pending"
    then pending
    else if str_eq s "included"
    then included
    else if str_eq s "failed"
    then failed
    else unknown

-- `/^[\x21-\x7e]{1,130}$/`
abbrev pub is_hash_token : String → Bool
is_hash_token h =
    let s = codes h in
    leb 1 (length s) && (leb (length s) 130 && all (λ c. leb 0x21 c && leb c 0x7e) s)

unfoldable pub witness_hash : Option String → Option String
witness_hash none = none
witness_hash (some h) = if is_hash_token h then some h else none

abbrev witness : WitnessReason → Transfer → String → SettleOutcome
witness reason result hash = witnessed reason (record {
  ok = result.ok;
  tx_hash = hash;
  state = normalise_witness_state result.state;
  block_number = result.block_number;
})

abbrev is_included : Option String → Bool
is_included none = false
is_included (some s) = str_eq s "included"

abbrev Run : Type 0
Run = Result SettleError SettleOutcome × List Effect

meter_effects : Hook → Recovery → String → List Effect
meter_effects absent recovery hash = []
meter_effects works recovery hash = metered recovery.amount_os hash ∷ []
meter_effects fails recovery hash = metered recovery.amount_os hash ∷ []

-- the transfer is witnessed to inclusion in a block
conclude : Captured → World → String → ℕ → Run
unfolding meter_effects
conclude captured world hash block_number = (
  ok (
      settled (record {
        tx_hash = hash;
        block_number = block_number;
        recovery = captured.recovery;
        payment_amount = captured.canonical_dem;
        finality_observed_at = world.observed_at;
        metered = world.meter;
      })),
  meter_effects world.meter captured.recovery hash,
)

require_block : Captured → World → Transfer → String → Option ℕ → Run
unfolding conclude
require_block captured world result hash none = (ok (witness no_block_number result hash), [])
require_block captured world result hash (some n) = conclude captured world hash n

-- the transfer's result, after the broadcast
judge : Captured → World → Transfer → Option String → Run
unfolding require_block normalise_witness_state
judge captured world result none =
    (ok (refused (if result.ok then no_transaction_hash else transfer_failed)), [])
judge captured world result (some hash) =
    if not result.ok
    then (ok (witness failed_after_broadcast result hash), [])
    else if not (is_included result.state)
    then (ok (witness not_included result hash), [])
    else require_block captured world result hash result.block_number

after_transfer : Captured → World → TransferReply → Run
unfolding judge witness_hash
after_transfer captured world rejected = (throw transfer_rejected, [])
after_transfer captured world (resolved result) =
    judge captured world result (witness_hash result.hash)

abbrev prepend : List Effect → Run → Run
prepend effects (result, later) = (result, effects ++ later)

-- the injected transfer, once authorized at `now`
send : Captured → World → String → Run
unfolding after_transfer
send captured world now =
    prepend (transferred captured.recovery.amount_os now captured.recovery ∷ [])
      (after_transfer captured world world.transfer)

journal_then_send : Captured → World → String → Hook → Run
unfolding send
journal_then_send captured world now absent = send captured world now
journal_then_send captured world now works =
    prepend (journaled captured.recovery ∷ []) (send captured world now)
journal_then_send captured world now fails =
    (throw journal_rejected, journaled captured.recovery ∷ [])

abbrev unavailable : Captured → Run
unavailable captured = (ok (aborted "network" policy_unavailable captured.recovery), [])

-- the reply is used only if its time is valid
after_time : Captured → World → String → Result PolicyError String → Run
unfolding journal_then_send
after_time captured world now (throw e) = unavailable captured
after_time captured world now (ok day) = journal_then_send captured world now world.journal

after_authorization : Platform → Captured → World → Authorization → Run
unfolding after_time
after_authorization platform captured world rejected = (throw authorize_rejected, [])
after_authorization platform captured world malformed = unavailable captured
after_authorization platform captured world (block reason rule) =
    if not (str_eq reason "") && not (str_eq rule "")
    then (ok (aborted rule (policy_blocked reason) captured.recovery), [])
    else unavailable captured
after_authorization platform captured world (proceed now) =
    after_time captured world now (utc_date_or_throw platform now)

abbrev pub url_of : CoreParams → Client → String
url_of params client = or_else params.rpc_url (or_else client.rpc_url "")

authorize_then_send : Platform → CoreParams → Client → World → Captured → Option Authorization → Run
unfolding after_authorization
authorize_then_send platform params client world captured none = unavailable captured
authorize_then_send platform params client world captured (some reply) =
    prepend (authorized captured.recovery.amount_os (url_of params client) ∷ [])
      (after_authorization platform captured world reply)

with_inputs : Platform → CoreParams → Client → World → Result SettleError Captured → Run
unfolding authorize_then_send
with_inputs platform params client world (throw e) = (throw e, [])
with_inputs platform params client world (ok captured) =
    authorize_then_send platform params client world captured world.authorize

-- `settlePayDemCore`
unfoldable pub settle_pay_dem_core : Platform → CoreParams → Client → World → Run
unfolding with_inputs
settle_pay_dem_core platform params client world =
    with_inputs platform params client world (require_captured_inputs platform params client)
