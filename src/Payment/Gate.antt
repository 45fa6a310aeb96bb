-- ===== src/Payment/Gate.antt =====
-- src/live/pay-dem-authorization.ts: the gate between the policy and the network.
-- A gate holds at most one lease of the journal's lock from `authorize` to the outcome. The lock
-- and the journal are shared with the gates of other processes, so they stand in a record of their
-- own; what the injected functions do in one call is an argument of that call.
pub mod Effects
pub mod Guards
pub mod System
use pathos_dacs_ref.Prelude.{
  ℕ, ◌+◌, String, Bool, true, false, not, ◌&&◌, ◌||◌, Option, none, some, List, [], ◌∷◌, ◌++◌,
  Result, ok, throw, ◌>>=◌, ◌>>◌, require, Codes, str_eq, if◌then◌else◌,
}
use pathos_dacs_ref.Platform.{Platform}
use pathos_dacs_ref.Payment.Lock.{LockFile}
use pathos_dacs_ref.Payment.Policy.{
  PayPolicy, PolicyError, TransferAuthorization, TransferInput, JournalEntry, OutcomeFields,
  proceed, block, kill_switch, journal_unreadable, journal_lock, lock_unavailable, journal_not_read,
  switch_not_read, without_outcome, with_outcome, invalid_timestamp, authorize_transfer,
  spent_today, utc_date_or_throw,
}

-- The lock file and the journal's lines.
pub record Shared : Type 0 where
  pub lock : Option LockFile
  pub journal : List JournalEntry

-- `activeLease`: the time at which the transfer was authorized, while the lease is held
pub record Gate : Type 0 where
  pub active : Option String

abbrev pub is_some : Option String → Bool
is_some none = false
is_some (some _) = true

-- whether the gate holds a lease
abbrev pub is_active : Gate → Bool
is_active gate = is_some gate.active

-- An append may fail before or after its line is durable.
pub data Append : Type 0 where
  written failed_unwritten failed_written : Append

-- What the injected functions answer during one call. `acquireLock` says whether it returns a
-- lease, and leaves a lock file or none.
pub record Env : Type 0 where
  pub acquire : Option LockFile → Bool × Option LockFile
  pub journal_readable : Bool
  pub switch : Option Bool
  pub release_works : Bool
  pub append : Append
  pub now : String

pub data Outcome : Type 0 where
  -- `PayDemResolution`, by its `timestamp`
  resolution : String → Outcome
  -- `PayDemOutcome`, by `timestamp`, `amountOs` and `outcome`
  outcome : String → Codes → String → Outcome

pub data GateError : Type 0 where
  policy_error : PolicyError → GateError
  lock_before_broadcast day_expired kill_switch_on switch_unreadable append_failed release_failed :
      GateError

abbrev pub free : Env → Shared → Shared
free env shared = if env.release_works then record shared { lock = none } else shared

-- `releasePending(lease) ?? authorization`
abbrev refuse : Env → Shared → TransferAuthorization → TransferAuthorization × Shared
refuse env shared authorization = (
  if env.release_works then authorization else block journal_lock lock_unavailable,
  free env shared,
)

abbrev read_spend : Platform → Env → Shared → Result PolicyError ℕ
read_spend platform env shared =
    if env.journal_readable
    then spent_today platform shared.journal env.now
    else throw invalid_timestamp

abbrev pub Reply : Type 0
Reply = Result GateError TransferAuthorization × Gate × Shared

-- what `authorize` makes of the policy's decision, with the lease held
settle_lease : Env → Gate → Shared → Result PolicyError TransferAuthorization → Reply
settle_lease env gate shared (throw e) = (throw (policy_error e), gate, shared)
settle_lease env gate shared (ok (proceed now)) =
    (ok (proceed now), record { active = some now }, shared)
settle_lease env gate shared (ok (block rule reason)) =
    let (reply, shared') = refuse env shared (block rule reason) in (ok reply, gate, shared')

-- the kill switch, then the policy
check_switch :
    Platform → PayPolicy → Env → Gate → Shared → (amount : ℕ) → String → ℕ → Option Bool → Reply
unfolding settle_lease
check_switch platform policy env gate shared amount url spent none =
    let (reply, shared') = refuse env shared (block kill_switch switch_not_read) in
    (ok reply, gate, shared')
check_switch platform policy env gate shared amount url spent (some present) =
    settle_lease env gate shared (
      authorize_transfer platform policy (record {
        amount_os = amount;
        rpc_url = url;
        spent_today_os = spent;
        kill_switch_present = present;
        now_iso = env.now;
      }))

with_spend :
    Platform
    → PayPolicy
    → Env
    → Gate
    → Shared
    → (amount : ℕ) → String
    → Result PolicyError ℕ
    → Reply
unfolding check_switch
with_spend platform policy env gate shared amount url (throw e) =
    let (reply, shared') = refuse env shared (block journal_unreadable (journal_not_read e)) in
    (ok reply, gate, shared')
with_spend platform policy env gate shared amount url (ok spent) =
    check_switch platform policy env gate shared amount url spent env.switch

lock_blocked : Gate → Shared → Reply
lock_blocked gate shared = (ok (block journal_lock lock_unavailable), gate, shared)

authorize_idle : Platform → PayPolicy → Env → Gate → Shared → (amount : ℕ) → String → Reply
unfolding with_spend lock_blocked
authorize_idle platform policy env gate shared amount url =
    let (granted, lock') = env.acquire shared.lock in
    let shared' : Shared = record shared { lock = lock' } in
    if granted
    then with_spend platform policy env gate shared' amount url (read_spend platform env shared')
    else lock_blocked gate shared'

authorize_from :
    Platform → PayPolicy → Env → Gate → Shared → (amount : ℕ) → String → Option String → Reply
unfolding authorize_idle
authorize_from platform policy env gate shared amount url none =
    authorize_idle platform policy env gate shared amount url
authorize_from platform policy env gate shared amount url (some _) = lock_blocked gate shared

-- `authorize`
unfoldable pub authorize :
    Platform → PayPolicy → Env → Gate → Shared → (amount : ℕ) → String → Reply
unfolding authorize_from
authorize platform policy env gate shared amount url =
    authorize_from platform policy env gate shared amount url gate.active

abbrev Done : Type 0
Done = Result GateError (Unit {0}) × Shared

-- the line that `JSON.stringify` writes, as the journal's reader sees it
abbrev pub line_of : Outcome → JournalEntry
line_of (resolution timestamp) = without_outcome
line_of (outcome timestamp amount label) =
    with_outcome
      (record { outcome = some label; timestamp = some timestamp; amount_os = some amount })

abbrev timestamp_of : Outcome → String
timestamp_of (resolution timestamp) = timestamp
timestamp_of (outcome timestamp amount label) = timestamp

append_line : Append → Shared → JournalEntry → Done
append_line written shared line = (ok tt, record shared { journal = shared.journal ++ line ∷ [] })
append_line failed_unwritten shared line = (throw append_failed, shared)
append_line failed_written shared line =
    (throw append_failed, record shared { journal = shared.journal ++ line ∷ [] })

-- `durableOutcomeJournal`: `createPayDemOutcomeJournal` of src/live/pay-dem-journal.ts
durable : Platform → Env → Shared → Outcome → Done
unfolding append_line
durable platform env shared row = elim (utc_date_or_throw platform (timestamp_of row)) [
  | throw e ↦ (throw (policy_error e), shared)
  | ok day ↦ append_line env.append shared (line_of row)
]

lift_policy {ℓ} : {A : Type ℓ} → Result PolicyError A → Result GateError A
lift_policy (ok a) = ok a
lift_policy (throw e) = throw (policy_error e)

-- one reading of the kill switch, which must be absent
switch_clear : Option Bool → Result GateError (Unit {0})
switch_clear none = throw switch_unreadable
switch_clear (some true) = throw kill_switch_on
switch_clear (some false) = ok tt

-- the same UTC date now as when the transfer was authorized
same_day : Platform → String → String → Result GateError (Unit {0})
unfolding lift_policy
same_day platform now authorized = do
  today ← lift_policy (utc_date_or_throw platform now)
  day ← lift_policy (utc_date_or_throw platform authorized)
  require (str_eq today day) day_expired

-- the guards of a broadcast outcome
may_record : Platform → Env → String → String → Result GateError (Unit {0})
unfolding same_day switch_clear
may_record platform env authorized timestamp = do
  require (str_eq timestamp authorized) day_expired
  same_day platform env.now authorized
  switch_clear env.switch

abbrev is_aborted : Outcome → Bool
is_aborted (resolution timestamp) = false
is_aborted (outcome timestamp amount label) = str_eq label "aborted-before-broadcast"

-- `finally { release(active) }`: what `release` throws replaces the result
finish : Env → Done → Result GateError (Unit {0}) × Gate × Shared
finish env (result, shared) = (
  if env.release_works then result else throw release_failed,
  record { active = none },
  free env shared,
)

try_record : Platform → Env → Shared → Outcome → String → Result GateError (Unit {0}) → Done
unfolding durable
try_record platform env shared row authorized (throw e) = (throw e, shared)
try_record platform env shared row authorized (ok _) = durable platform env shared row

guards : Platform → Env → Outcome → String → Result GateError (Unit {0})
unfolding may_record
guards platform env row authorized =
    if is_aborted row then ok tt else may_record platform env authorized (timestamp_of row)

-- A call of `journalOutcome` after its `await`: what it returns or throws, and whether it is in
-- the `try` whose `finally` gives the lease up.
pub data Progress : Type 0 where
  finished releasing : Result GateError (Unit {0}) → Progress

abbrev pub is_finished : Progress → Bool
is_finished (finished _) = true
is_finished (releasing _) = false

abbrev finished_with : Done → Progress × Shared
finished_with (result, shared) = (finished result, shared)

abbrev releasing_with : Done → Progress × Shared
releasing_with (result, shared) = (releasing result, shared)

record_spend : Platform → Env → Shared → Outcome → Option String → Progress × Shared
unfolding durable try_record guards
record_spend platform env shared row none =
    if is_aborted row
    then finished_with (durable platform env shared row)
    else (finished (throw lock_before_broadcast), shared)
record_spend platform env shared row (some authorized) =
    releasing_with
      (try_record platform env shared row authorized (guards platform env row authorized))

-- `journalOutcome`, up to the end of its `await`
unfoldable pub begin_outcome : Platform → Env → Gate → Shared → Outcome → Progress × Shared
unfolding record_spend
begin_outcome platform env gate shared (resolution timestamp) =
    finished_with (durable platform env shared (resolution timestamp))
begin_outcome platform env gate shared (outcome timestamp amount label) =
    record_spend platform env shared (outcome timestamp amount label) gate.active

-- the rest of `journalOutcome`
unfoldable pub end_outcome :
    Env → Gate → Shared → Progress → Result GateError (Unit {0}) × Gate × Shared
unfolding finish
end_outcome env gate shared (finished result) = (result, gate, shared)
end_outcome env gate shared (releasing result) = finish env (result, shared)

-- `journalOutcome`, when no other call of the gate comes between
unfoldable pub journal_outcome :
    Platform → Env → Gate → Shared → Outcome → Result GateError (Unit {0}) × Gate × Shared
unfolding begin_outcome end_outcome
journal_outcome platform env gate shared row =
    let (progress, shared') = begin_outcome platform env gate shared row in
    end_outcome env gate shared' progress

-- `beforeBroadcast`
unfoldable pub before_broadcast : Platform → Env → String → Result GateError (Unit {0})
unfolding same_day switch_clear
before_broadcast platform env authorized = do
  same_day platform env.now authorized
  switch_clear env.switch
