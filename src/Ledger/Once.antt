-- ===== src/Ledger/Once.antt =====
-- src/live/run-ledger.ts: `createIdempotencyStore` over the files of `createFsSettlementLog`, for
-- one settlement key (each key has its own files). Each `await` is a point at which the process
-- may die or another may run, so a call is a walk through phases.
pub mod Sequential
pub mod Race
use pathos_dacs_ref.Prelude.{
  ℕ, suc, String, Bool, true, false, not, ◌&&◌, Option, none, some, List, [], ◌∷◌, str_eq,
  if◌then◌else◌,
}
use pathos_dacs_ref.Platform.{Platform}

-- of `SettleResult`, what the store reads
pub record SettleResult : Type 0 where
  pub ok : Bool
  pub tx_hash : String

-- One call of `submit`: whether the payment landed, and what was returned (`none` if it threw).
pub record Submission : Type 0 where
  pub landed : Bool
  pub reply : Option SettleResult

-- The outcome file, the intent file, and every submission made so far, the last one first.
pub record World : Type 0 where
  pub outcome : Option SettleResult
  pub intent : Bool
  pub submissions : List Submission

-- What the injected functions answer: `submit`, and `reconcileFn` if there is one. `can_put` says
-- whether `putOutcome` accepts its result and writes it.
pub record Env : Type 0 where
  pub submit : Submission
  pub reconcile : Option (Option SettleResult)
  pub can_put : Bool

pub data Phase : Type 0 where
  start claiming held reconciling submitting : Phase
  putting unlinking releasing : SettleResult → Phase
  returned : SettleResult → Phase
  -- an exception, or the death of the process
  failed : Phase

module _ (platform : Platform) where
  abbrev pub is_blank : String → Bool
  is_blank s = str_eq (platform.trim s) ""

  -- `isDefinitive`
  abbrev pub is_definitive : SettleResult → Bool
  is_definitive r = r.ok && not (is_blank r.tx_hash)

  abbrev on_recorded : World → Phase → World × Phase
  on_recorded w next = elim w.outcome [ none ↦ (w, next) | some r ↦ (w, returned r) ]

  -- the case of `found && isDefinitive(found)`
  abbrev on_found : World → Option SettleResult → World × Phase
  on_found w none = (w, submitting)
  on_found w (some r) = if is_definitive r then (w, putting r) else (w, submitting)

  abbrev on_reconcile : World → Option (Option SettleResult) → World × Phase
  on_reconcile w none = (w, failed)
  on_reconcile w (some found) = on_found w found

  -- what is done with the result of `submit`
  abbrev on_result : World → Option SettleResult → World × Phase
  on_result w none = (w, failed)
  on_result w (some r) =
      if is_definitive r
      then (w, putting r)
      else if is_blank r.tx_hash
      then (w, releasing r)
      else (w, returned r)

  -- One step of `once`, from one `await` to the next.
  unfoldable pub step : Env → World → Phase → World × Phase
  step env w start = on_recorded w claiming
  step env w claiming = if w.intent then (w, held) else (record w { intent = true }, submitting)
  step env w held = on_recorded w reconciling
  step env w reconciling = on_reconcile w env.reconcile
  step env w submitting =
      on_result (record w { submissions = env.submit ∷ w.submissions }) env.submit.reply
  step env w (putting r) =
      if env.can_put then (record w { outcome = some r }, unlinking r) else (w, failed)
  step env w (unlinking r) = (record w { intent = false }, returned r)
  step env w (releasing r) = (record w { intent = false }, returned r)
  step env w (returned r) = (w, returned r)
  step env w failed = (w, failed)

abbrev pub landed : List Submission → ℕ
landed [] = 0
landed (s ∷ ss) = let rest = landed ss in if s.landed then suc rest else rest
