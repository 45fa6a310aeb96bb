-- ===== src/Payment/Gate/System/DailyCap.antt =====
-- No interleaving of gates spends more than the daily cap on any UTC date.
use pathos_dacs_ref.Prelude.{
  ℕ, ◌≤◌, String, true, false, Option, List, none, some, ◌≡◌, refl, ap, ◌∙◌, inl, inr, ok, arith,
  Codes,
}
use pathos_dacs_ref.Platform.{Platform}
use pathos_dacs_ref.Payment.Amount.{dem_to_os}
use pathos_dacs_ref.Payment.Policy.{PayPolicy, JournalEntry, amount_spend}
use pathos_dacs_ref.Payment.Policy.Total.{day_total, spent_today_iff}
use pathos_dacs_ref.Payment.Lock.{
  View, LockFile, acquire_pay_dem_journal_lock, OwnerRuns, acquired-IsLocal, granted_free,
  granted_held, refused_same,
}
use pathos_dacs_ref.Payment.Gate.{Env, Gate, Shared, resolution, outcome, is_finished}
use pathos_dacs_ref.Payment.Gate.Effects.{
  Leased, Blocked, authorize_effect, resolution_effect, outcome_effect, end_effect,
}
use pathos_dacs_ref.Payment.Gate.System.Lines.{counted-resolution, counted-aborted, counted-outcome}
use pathos_dacs_ref.Payment.Gate.System.{
  System, Step, call_authorize, call_resolve, call_outcome, end_call, Reach, here, next, init,
  locking, unlocking, after_authorize, after_begin, after_end,
}
use pathos_dacs_ref.Payment.Gate.System.Invariant.{
  Inv, init-Inv, kept-Inv, leased-Inv, begun-Inv, free_row-Inv, spent_row-Inv, idle_end-Inv,
  released-Inv, authorized,
}

module _ (platform : Platform) (policy : PayPolicy) (host : String) (limit : ℕ) where
  module _ (s : System) (p : ℕ) (h : Inv platform host limit s) where
    module _ (view : View) (here : view.me.hostname ≡ host) (runs : OwnerRuns view s.shared.lock)
        (k : ℕ) (token : String) (gate' : Gate) (shared' : Shared) where
      abbrev lock' : Option LockFile
      lock' = (acquire_pay_dem_journal_lock view s.shared.lock).1

      -- a lease that the policy's decision makes use of
      given-Inv :
          (amount : ℕ)
          → k ≡ amount
          → (acquire_pay_dem_journal_lock view s.shared.lock).0 ≡ true
          → Leased platform policy limit amount lock' s.shared.journal gate' shared'
          → Inv platform host limit (authorized platform host limit s p gate' shared' k token)
      given-Inv amount asked granted (now, spent, g, l, j, e, fits) =
          let (today, dated, _, sum) = (spent_today_iff platform s.shared.journal now spent).0 e in
          leased-Inv platform host limit s p k token now today gate' shared' h g
            (granted_free host view here s.shared.lock h.local runs granted)
            (rw l (granted_held host view here s.shared.lock granted))
            (rw l (acquired-IsLocal host view here s.shared.lock h.local)) j dated
            (omega (arith, asked, sum, fits))

      -- one that is given back at once
      given_back-Inv :
          (s.gate p).active ≡ none
          → (acquire_pay_dem_journal_lock view s.shared.lock).0 ≡ true
          → Blocked platform policy lock' (s.gate p) s.shared.journal gate' shared'
          → Inv platform host limit (authorized platform host limit s p gate' shared' k token)
      given_back-Inv a granted (g, j, l) =
          let free = granted_free host view here s.shared.lock h.local runs granted in
          let local = acquired-IsLocal host view here s.shared.lock h.local in
          kept-Inv platform host limit s p k token gate' shared' h g j
            (elim l [ inl same ↦ rw same local | inr gone ↦ rw gone tt ]) (inr free) (λ t e. cc)

      refused-Inv :
          (s.gate p).active ≡ none
          → (acquire_pay_dem_journal_lock view s.shared.lock).0 ≡ false
          → gate' ≡ s.gate p
          → shared'.journal ≡ s.shared.journal
          → shared'.lock ≡ lock'
          → Inv platform host limit (authorized platform host limit s p gate' shared' k token)
      refused-Inv a refused g j l =
          let same = refused_same host view here s.shared.lock h.local runs refused in
          kept-Inv platform host limit s p k token gate' shared' h g j (rw (l, same) h.local)
            (inl (l ∙ same)) (λ t e. cc)

    authorize-Inv :
        (view : View) (env : Env) (amount : ℕ) (url : String)
        → dem_to_os policy.daily_cap_dem ≡ ok limit
        → view.me.hostname ≡ host
        → OwnerRuns view s.shared.lock
        → Inv platform host limit (after_authorize platform policy s p view env amount url)
    authorize-Inv view env amount url daily at runs =
        elim (authorize_effect platform policy limit amount url (locking view env) (s.gate p)
          s.shared daily) [
            | inl (g, same) ↦
                kept-Inv platform host limit s p _ _ _ _ h g (ap (λ x. x.journal) same)
                  (rw same h.local) (inl (ap (λ x. x.lock) same)) (λ t a. rw a refl)
            | inr (a, inl (refused, g, j, l)) ↦ refused-Inv view at runs _ _ _ _ a refused g j l
            | inr (a, inr (granted, inl b)) ↦ given_back-Inv view at runs _ _ _ _ a granted b
            | inr (a, inr (granted, inr b)) ↦
                given-Inv view at runs _ _ _ _ amount (rw a refl) granted b
          ]

    resolve-Inv :
        (env : Env) (timestamp : String)
        → is_finished (s.progress p) ≡ true
        → Inv platform host limit (after_begin platform policy s p env (resolution timestamp))
    resolve-Inv env timestamp f =
        let (f', j, l) = resolution_effect platform env (s.gate p) s.shared timestamp in
        elim j [
          | inl same ↦ begun-Inv platform host limit s p _ _ h f (inl f') l same
          | inr grown ↦
              free_row-Inv platform host limit s p _ _ _ h f (inl f') l grown
                (λ day. counted-resolution platform day timestamp)
        ]

    outcome-Inv :
        (env : Env) (timestamp : String) (amount : Codes) (label : String)
        → is_finished (s.progress p) ≡ true
        → amount_spend (some amount) ≡ ok (s.pending p)
        → Inv platform host limit
            (after_begin platform policy s p env (outcome timestamp amount label))
    outcome-Inv env timestamp amount label f exact =
        let (f', l, j) = outcome_effect platform env (s.gate p) s.shared timestamp amount label in
        elim j [
          | inl same ↦ begun-Inv platform host limit s p _ _ h f f' l same
          | inr (grown, inl aborted) ↦
              free_row-Inv platform host limit s p _ _ _ h f f' l grown
                (λ day. counted-aborted platform day timestamp amount label aborted)
          | inr (grown, inr (active, going)) ↦
              spent_row-Inv platform host limit s p timestamp _ _ _ h f going active l grown
                (λ day. counted-outcome platform day timestamp amount label exact)
        ]

    end-Inv : (env : Env) → Inv platform host limit (after_end platform policy s p env)
    end-Inv env =
        let (j, e) = end_effect platform (unlocking s p env) (s.gate p) s.shared (s.progress p) in
        elim e [
          | inl (f, g, same) ↦ idle_end-Inv platform host limit s p _ _ _ h f refl g same
          | inr (f, g, l) ↦ released-Inv platform host limit s p _ _ _ h f refl g l j
        ]

  module _ (daily : dem_to_os policy.daily_cap_dem ≡ ok limit) (journal : List JournalEntry)
      (fits : (day : String) → day_total platform day journal ≤ limit) where
    Step-Inv :
        {s t : System}
        → Step platform policy host s t
        → Inv platform host limit s
        → Inv platform host limit t
    Step-Inv {s} (call_authorize p view env amount url at runs) h =
        authorize-Inv s p h view env amount url daily at runs
    Step-Inv {s} (call_resolve p env timestamp f) h = resolve-Inv s p h env timestamp f
    Step-Inv {s} (call_outcome p env timestamp amount label f exact) h =
        outcome-Inv s p h env timestamp amount label f exact
    Step-Inv {s} (end_call p env) h = end-Inv s p h env

    Reach-Inv :
        {s : System} → Reach platform policy host (init journal) s → Inv platform host limit s
    Reach-Inv here = init-Inv platform host limit journal fits
    Reach-Inv (next r st) = Step-Inv st (Reach-Inv r)

    -- For a policy whose daily cap is well-formed, gates of processes on one host, and a journal
    -- that is within the cap on every date at the start, when no lock file is there: in every
    -- interleaving of the calls of the gates, failures and refusals included, in which the process
    -- that wrote the lock file is running whenever a gate asks for the lock, the calls of
    -- `journalOutcome` of one gate do not overlap, and each outcome is recorded with the amount
    -- that its gate asked for, the amounts of the journal's rows of any UTC date whose outcome came
    -- after the broadcast add up to at most the daily cap.
    pub daily_cap_kept :
        (s : System) (day : String)
        → Reach platform policy host (init journal) s
        → day_total platform day s.shared.journal ≤ limit
    daily_cap_kept s day r = (Reach-Inv r).within day

    -- For a policy whose daily cap is well-formed, gates of processes on one host, and a journal
    -- that is within the cap on every date at the start, when no lock file is there: in every
    -- interleaving of the calls of the gates in which the process that wrote the lock file is
    -- running whenever a gate asks for the lock, the calls of `journalOutcome` of one gate do not
    -- overlap, and each outcome is recorded with the amount that its gate asked for, at most one
    -- gate at a time is between its authorization and the end of its outcome.
    pub one_active :
        (s : System) (p q : ℕ) (t u : String)
        → Reach platform policy host (init journal) s
        → (s.gate p).active ≡ some t
        → (s.gate q).active ≡ some u
        → p ≡ q
    one_active s p q t u r a b =
        ground (arith, (Reach-Inv r).exclusive p, (Reach-Inv r).exclusive q)
