-- ===== src/Payment/Gate/System.antt =====
-- Several gates over one lock and one journal: interleavings of their calls. The lock is the one of
-- src/live/pay-dem-journal.ts. A call of `journalOutcome` takes two steps, so that the calls of
-- other gates may come between the writing of its row and the release of its lease.
mod Lines
mod Invariant
pub mod DailyCap
use pathos_dacs_ref.Prelude.{
  ℕ, Bool, Option, none, some, ◌≡◌, String, Codes, Result, ok, str_eq, true, false, ◌==◌, ◌≤◌,
  if◌then◌else◌, List,
}
use pathos_dacs_ref.Platform.{Platform}
use pathos_dacs_ref.Payment.Policy.{PayPolicy, JournalEntry, amount_spend}
use pathos_dacs_ref.Payment.Lock.{View, acquire_pay_dem_journal_lock, release_lease, OwnerRuns}
use pathos_dacs_ref.Payment.Gate.{
  Gate, Shared, Env, Outcome, resolution, outcome, authorize, Progress, finished, is_finished,
  begin_outcome, end_outcome,
}

-- For each gate: the amount that it last asked for, the token of its last lease, and its call of
-- `journalOutcome`.
pub record System : Type 0 where
  pub shared : Shared
  pub gate : ℕ → Gate
  pub pending : ℕ → ℕ
  pub token : ℕ → String
  pub progress : ℕ → Progress

abbrev pub update : {A : Type 0} → (ℕ → A) → ℕ → A → ℕ → A
update f p a q = if p == q then a else f q

-- no lock file, no lease, and the journal as it was before
abbrev pub init : List JournalEntry → System
init journal = record {
  shared = record { lock = none; journal = journal };
  gate = λ _. record { active = none };
  pending = λ _. 0;
  token = λ _. "";
  progress = λ _. finished (ok tt);
}

-- what a call of `authorize` by a gate without a lease replaces
abbrev pub if_idle : {A : Type 0} → Gate → A → A → A
if_idle gate new old = elim gate.active [ none ↦ new | some _ ↦ old ]

-- The injected `acquireLock` is that of the journal, and `release` that of its lease.
abbrev pub locking : View → Env → Env
locking view env = record env { acquire = acquire_pay_dem_journal_lock view }

abbrev pub unlocking : System → ℕ → Env → Env
unlocking s p env = record env {
  release_works = release_lease (s.token p) env.release_works s.shared.lock;
}

module _ (platform : Platform) (policy : PayPolicy) where
  abbrev pub after_authorize : System → ℕ → View → Env → ℕ → String → System
  after_authorize s p view env amount url =
      let (_, gate, shared) =
        authorize platform policy (locking view env) (s.gate p) s.shared amount url in
      record s {
        shared = shared;
        gate = update s.gate p gate;
        pending = update s.pending p (if_idle (s.gate p) amount (s.pending p));
        token = update s.token p (if_idle (s.gate p) view.me.token (s.token p));
      }

  abbrev pub after_begin : System → ℕ → Env → Outcome → System
  after_begin s p env row =
      let (progress, shared) = begin_outcome platform env (s.gate p) s.shared row in
      record s { shared = shared; progress = update s.progress p progress }

  abbrev pub after_end : System → ℕ → Env → System
  after_end s p env =
      let (result, gate, shared) =
        end_outcome (unlocking s p env) (s.gate p) s.shared (s.progress p) in
      record s {
        shared = shared;
        gate = update s.gate p gate;
        progress = update s.progress p (finished result);
      }

  module _ (host : String) where
    -- One step of the gate `p`, in a process on `host`. The process that wrote the lock file, if
    -- there is one, is running when a lock is asked for; the calls of `journalOutcome` of one gate
    -- do not overlap; and an outcome is recorded with the amount that the gate asked for.
    pub data Step (s : System) : System → Type 0 where
      call_authorize :
          (p : ℕ) (view : View) (env : Env) (amount : ℕ) (url : String)
          → view.me.hostname ≡ host
          → OwnerRuns view s.shared.lock
          → Step s (after_authorize s p view env amount url)
      call_resolve :
          (p : ℕ) (env : Env) (timestamp : String)
          → is_finished (s.progress p) ≡ true
          → Step s (after_begin s p env (resolution timestamp))
      call_outcome :
          (p : ℕ) (env : Env) (timestamp : String) (amount : Codes) (label : String)
          → is_finished (s.progress p) ≡ true
          → amount_spend (some amount) ≡ ok (s.pending p)
          → Step s (after_begin s p env (outcome timestamp amount label))
      end_call : (p : ℕ) (env : Env) → Step s (after_end s p env)

    pub data Reach (s : System) : System → Type 0 where
      here : Reach s s
      next : {t u : System} → Reach s t → Step t u → Reach s u
