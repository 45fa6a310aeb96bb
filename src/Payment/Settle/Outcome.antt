-- ===== src/Payment/Settle/Outcome.antt =====
-- What the reported outcome of a settlement says about the transfer.
use pathos_dacs_ref.Prelude.{
  String, true, Option, none, some, ◌≡◌, refl, ◌≢◌, Result, ok, throw, arith, ap, eq_iff,
}
use pathos_dacs_ref.Platform.{Platform}
use pathos_dacs_ref.Payment.Policy.{PolicyError, utc_date_or_throw}
use pathos_dacs_ref.Payment.Settle.{
  CoreParams, Client, World, Captured, Authorization, proceed, block, malformed, rejected, Transfer,
  TransferReply, resolved, Hook, absent, works, fails, SettleOutcome, settled, witnessed, Settled,
  SettleError, require_captured_inputs, witness_hash, settle_pay_dem_core, after_authorization,
  after_time, with_inputs, journal_then_send, authorize_then_send, after_transfer, send, judge,
  is_included,
}
use pathos_dacs_ref.Payment.Settle.Laws.{sent}

-- The outcome names the transaction, as settled or as a witness.
abbrev pub Reports : String → Result SettleError SettleOutcome → Type 0
Reports hash (ok (settled s)) = s.tx_hash ≡ hash
Reports hash (ok (witnessed r w)) = w.tx_hash ≡ hash
Reports hash _ = ⊥

included_state : (o : Option String) → is_included o ≡ true → o ≡ some "included"
included_state none h = cc
included_state (some s) h = ap some ((eq_iff s "included").0 h)

module _ (platform : Platform) (params : CoreParams) (client : Client) (world : World) where
  judge-Reports :
      (captured : Captured) (result : Transfer) (hash : String)
      → Reports hash (judge captured world result (some hash)).0
  unfolding judge
  judge-Reports captured result hash = ground arith

  module _ (result : Transfer) (hash : String) (reply : world.transfer ≡ resolved result)
      (usable : witness_hash result.hash ≡ some hash) where
    send-Reports : (captured : Captured) (now : String) → Reports hash (send captured world now).0
    unfolding send
    send-Reports captured now =
        rw (reply, after_transfer) (rw usable (judge-Reports captured result hash))

    journal-Reports :
        (captured : Captured) (now : String) (h : Hook)
        → sent (journal_then_send captured world now h).1 ≢ 0
        → Reports hash (journal_then_send captured world now h).0
    unfolding journal_then_send
    journal-Reports captured now absent s = send-Reports captured now
    journal-Reports captured now works s = send-Reports captured now
    journal-Reports captured now fails s = absurd (s refl)

    authorization-Reports :
        (captured : Captured) (a : Authorization)
        → sent (after_authorization platform captured world a).1 ≢ 0
        → Reports hash (after_authorization platform captured world a).0
    unfolding after_authorization
    authorization-Reports captured rejected s = absurd (s refl)
    authorization-Reports captured malformed s = absurd (s refl)
    authorization-Reports captured (block reason rule) s = absurd (s (ground arith))
    authorization-Reports captured (proceed now) s =
        time_reports captured now (utc_date_or_throw platform now) s
      where
        time_reports :
            (captured : Captured) (now : String) (r : Result PolicyError String)
            → sent (after_time captured world now r).1 ≢ 0
            → Reports hash (after_time captured world now r).0
        time_reports captured now (throw _) s = absurd (s refl)
        time_reports captured now (ok _) s = journal-Reports captured now world.journal s

    inputs_report :
        (r : Result SettleError Captured)
        → sent (with_inputs platform params client world r).1 ≢ 0
        → Reports hash (with_inputs platform params client world r).0
    unfolding with_inputs
    inputs_report (throw _) s = absurd (s refl)
    inputs_report (ok captured) s = option_reports captured world.authorize s
      where
        option_reports :
            (captured : Captured) (o : Option Authorization)
            → sent (authorize_then_send platform params client world captured o).1 ≢ 0
            → Reports hash (authorize_then_send platform params client world captured o).0
        option_reports captured none s = absurd (s refl)
        option_reports captured (some a) s = authorization-Reports captured a s

    -- Once a transfer was sent and the node answered with a usable transaction hash, the outcome
    -- names that hash, as settled or as a witness: it is never a refusal, and nothing is thrown.
    pub hash_reported :
        sent (settle_pay_dem_core platform params client world).1 ≢ 0
        → Reports hash (settle_pay_dem_core platform params client world).0
    unfolding settle_pay_dem_core
    hash_reported s = inputs_report (require_captured_inputs platform params client) s

  -- The transfer's part in a settled outcome.
  abbrev pub Included : Settled → TransferReply → Type 0
  Included s rejected = ⊥
  Included s (resolved result) =
      (result.ok ≡ true)
      × (result.hash ≡ some s.tx_hash)
      × (result.state ≡ some "included")
      × (result.block_number ≡ some s.block_number)

  after_transfer-Included :
      (captured : Captured) (r : TransferReply) (s : Settled)
      → (after_transfer captured world r).0 ≡ ok (settled s)
      → Included s r × (s.recovery ≡ captured.recovery)
  unfolding after_transfer
  after_transfer-Included captured rejected s h = cc
  after_transfer-Included captured (resolved result) s h = (
    (ground arith, ground arith, included_state result.state (ground arith), ground arith),
    ground arith,
  )

  -- A settled outcome, and what the run before the transfer must have been.
  abbrev pub Backed : Settled → Type 0
  Backed s =
      (captured : Captured) × (now : String) × (day : String) × (require_captured_inputs platform
          params client
        ≡ ok captured)
      × (world.authorize ≡ some (proceed now))
      × (utc_date_or_throw platform now ≡ ok day)
      × Included s world.transfer
      × (s.recovery ≡ captured.recovery)

  journal_settled :
      (captured : Captured) (now day : String) (h : Hook) (s : Settled)
      → require_captured_inputs platform params client ≡ ok captured
      → world.authorize ≡ some (proceed now)
      → utc_date_or_throw platform now ≡ ok day
      → (journal_then_send captured world now h).0 ≡ ok (settled s)
      → Backed s
  unfolding journal_then_send
  journal_settled captured now day absent s e a d x =
      let (i, r) = after_transfer-Included captured world.transfer s x in
      (captured, now, day, e, a, d, i, r)
  journal_settled captured now day works s e a d x =
      let (i, r) = after_transfer-Included captured world.transfer s x in
      (captured, now, day, e, a, d, i, r)
  journal_settled captured now day fails s e a d x = cc

  time_settled :
      (captured : Captured) (now : String) (r : Result PolicyError String) (s : Settled)
      → require_captured_inputs platform params client ≡ ok captured
      → world.authorize ≡ some (proceed now)
      → utc_date_or_throw platform now ≡ r
      → (after_time captured world now r).0 ≡ ok (settled s)
      → Backed s
  unfolding after_time
  time_settled captured now (throw _) s e a d x = cc
  time_settled captured now (ok day) s e a d x =
      journal_settled captured now day world.journal s e a d x

  authorization_settled :
      (captured : Captured) (o : Option Authorization) (s : Settled)
      → require_captured_inputs platform params client ≡ ok captured
      → world.authorize ≡ o
      → (authorize_then_send platform params client world captured o).0 ≡ ok (settled s)
      → Backed s
  unfolding authorize_then_send
  authorization_settled captured none s e a x = cc
  authorization_settled captured (some rejected) s e a x = cc
  authorization_settled captured (some malformed) s e a x = cc
  authorization_settled captured (some (block reason rule)) s e a x = absurd (ground arith)
  authorization_settled captured (some (proceed now)) s e a x =
      time_settled captured now (utc_date_or_throw platform now) s e a refl x

  inputs_settled :
      (r : Result SettleError Captured) (s : Settled)
      → require_captured_inputs platform params client ≡ r
      → (with_inputs platform params client world r).0 ≡ ok (settled s)
      → Backed s
  unfolding with_inputs
  inputs_settled (throw _) s e x = cc
  inputs_settled (ok captured) s e x = authorization_settled captured world.authorize s e refl x

  -- A payment is reported as settled only if its inputs were accepted, the policy said to proceed
  -- at a valid time, and the node answered that the transfer succeeded and is included in a block,
  -- whose number and transaction hash the outcome carries with the accepted payer, payee and
  -- amount.
  pub settled-Backed :
      (s : Settled)
      → (settle_pay_dem_core platform params client world).0 ≡ ok (settled s)
      → Backed s
  unfolding settle_pay_dem_core
  settled-Backed s x = inputs_settled (require_captured_inputs platform params client) s refl x
