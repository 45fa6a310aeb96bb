-- ===== src/Payment/Gate/Effects.antt =====
-- What one call of a gate does to its lease, to the lock and to the journal.
use pathos_dacs_ref.Prelude.{
  ℕ, ◌+◌, ◌≤◌, String, Bool, true, false, Option, none, some, List, [], ◌∷◌, ◌++◌, ◌≡◌, refl, ◌⊎◌,
  inl, inr, Result, ok, throw, arith, Codes, eq_iff, Bool-cases, Option-cases,
}
use pathos_dacs_ref.Platform.{Platform}
use pathos_dacs_ref.Payment.Amount.{dem_to_os}
use pathos_dacs_ref.Payment.Policy.{
  PayPolicy, TransferInput, proceed, block, TransferAuthorization, PolicyError, JournalEntry,
  authorize_transfer, spent_today,
}
use pathos_dacs_ref.Payment.Lock.{LockFile}
use pathos_dacs_ref.Payment.Gate.{
  Gate, Shared, Env, Outcome, resolution, outcome, authorize, authorize_from, line_of, durable,
  authorize_idle, Progress, finished, releasing, is_finished, is_active, begin_outcome, end_outcome,
  Reply, with_spend, check_switch, settle_lease, read_spend,
}

module _ (platform : Platform) (policy : PayPolicy) where
  proceed_daily :
      (input : TransferInput) {now : String} (cap : ℕ)
      → dem_to_os policy.daily_cap_dem ≡ ok cap
      → authorize_transfer platform policy input ≡ ok (proceed now)
      → (now ≡ input.now_iso) × (input.spent_today_os + input.amount_os ≤ cap)
  unfolding authorize_transfer
  proceed_daily input cap e h = ground arith

  -- With a lock that was granted: a call that takes no lease, and one that leaves the gate active.
  abbrev pub Blocked : Option LockFile → Gate → List JournalEntry → Gate → Shared → Type 0
  Blocked lock gate journal gate' shared' =
      (gate' ≡ gate) × (shared'.journal ≡ journal) × ((shared'.lock ≡ lock) ⊎ (shared'.lock ≡ none))

  abbrev pub Leased : ℕ → ℕ → Option LockFile → List JournalEntry → Gate → Shared → Type 0
  Leased limit amount lock journal gate' shared' =
      (now : String) × (spent : ℕ) × (gate'.active ≡ some now)
      × (shared'.lock ≡ lock)
      × (shared'.journal ≡ journal)
      × (spent_today platform journal now ≡ ok spent)
      × (spent + amount ≤ limit)

  module _ (cap amount : ℕ) (url : String) (env : Env) (gate : Gate) (leased : Shared)
      (daily : dem_to_os policy.daily_cap_dem ≡ ok cap) where
    abbrev Effect : Reply → Type 0
    Effect (_, gate', shared') =
        Blocked leased.lock gate leased.journal gate' shared'
        ⊎ Leased cap amount leased.lock leased.journal gate' shared'

    settle_lease_effect :
        (spent : ℕ) (present : Bool) (r : Result PolicyError TransferAuthorization)
        → spent_today platform leased.journal env.now ≡ ok spent
        → authorize_transfer platform policy (record {
          amount_os = amount;
          rpc_url = url;
          spent_today_os = spent;
          kill_switch_present = present;
          now_iso = env.now;
        })
          ≡ r
        → Effect (settle_lease env gate leased r)
    unfolding settle_lease
    settle_lease_effect spent present (throw e) _ h = inl (refl, refl, inl refl)
    settle_lease_effect spent present (ok (block rule reason)) _ h =
        inl (refl, ground arith, ground arith)
    settle_lease_effect spent present (ok (proceed now)) s h =
        let (same, fits) = proceed_daily _ cap daily h in
        inr (now, spent, refl, refl, refl, rw same s, fits)

    check_switch_effect :
        (spent : ℕ) (switch : Option Bool)
        → spent_today platform leased.journal env.now ≡ ok spent
        → Effect (check_switch platform policy env gate leased amount url spent switch)
    unfolding check_switch
    check_switch_effect spent none s = inl (refl, ground arith, ground arith)
    check_switch_effect spent (some present) s = settle_lease_effect spent present _ s refl

    with_spend_effect :
        (r : Result PolicyError ℕ)
        → read_spend platform env leased ≡ r
        → Effect (with_spend platform policy env gate leased amount url r)
    unfolding with_spend
    with_spend_effect (throw e) h = inl (refl, ground arith, ground arith)
    with_spend_effect (ok spent) h = check_switch_effect spent env.switch (ground arith)

  -- A gate with a lease changes nothing; another one asks for the lock first.
  abbrev pub ResultOf : ℕ → ℕ → Env → Gate → Shared → Reply → Type 0
  ResultOf limit amount env gate shared (_, gate', shared') =
      ((gate' ≡ gate) × (shared' ≡ shared))
      ⊎ ((gate.active ≡ none)
          × ((((env.acquire shared.lock).0 ≡ false)
                × (gate' ≡ gate)
                × (shared'.journal ≡ shared.journal)
                × (shared'.lock ≡ (env.acquire shared.lock).1))
              ⊎ (((env.acquire shared.lock).0 ≡ true)
                  × (Blocked (env.acquire shared.lock).1 gate shared.journal gate' shared'
                      ⊎ Leased limit amount (env.acquire shared.lock).1 shared.journal gate'
                          shared'))))

  authorize_idle_effect :
      (limit amount : ℕ) (url : String) (env : Env) (gate : Gate) (shared : Shared)
      → dem_to_os policy.daily_cap_dem ≡ ok limit
      → gate.active ≡ none
      → ResultOf limit amount env gate shared
          (authorize_idle platform policy env gate shared amount url)
  unfolding authorize_idle
  authorize_idle_effect limit amount url env gate shared e a =
      let leased : Shared = record shared { lock = (env.acquire shared.lock).1 } in
      elim (Bool-cases (env.acquire shared.lock).0) [
        | inl t ↦
            rw t (inr (a, inr (refl, with_spend_effect limit amount url env gate leased e _ refl)))
        | inr f ↦ rw f (inr (a, inl (refl, refl, refl, refl)))
      ]

  authorize_from_effect :
      (limit amount : ℕ) (url : String) (env : Env) (gate : Gate) (shared : Shared)
      (o : Option String)
      → dem_to_os policy.daily_cap_dem ≡ ok limit
      → gate.active ≡ o
      → ResultOf limit amount env gate shared
          (authorize_from platform policy env gate shared amount url o)
  unfolding authorize_from
  authorize_from_effect limit amount url env gate shared none e a =
      authorize_idle_effect limit amount url env gate shared e a
  authorize_from_effect limit amount url env gate shared (some now) e a = inl (refl, refl)

  pub authorize_effect :
      (limit amount : ℕ) (url : String) (env : Env) (gate : Gate) (shared : Shared)
      → dem_to_os policy.daily_cap_dem ≡ ok limit
      → ResultOf limit amount env gate shared (authorize platform policy env gate shared amount url)
  unfolding authorize
  authorize_effect limit amount url env gate shared e =
      authorize_from_effect limit amount url env gate shared gate.active e refl

-- Recording an outcome: up to the end of its `await` the row is appended or not, and the gate and
-- the lock stay as they are.
module _ (platform : Platform) where
  abbrev pub Appended : List JournalEntry → Outcome → Shared → Type 0
  Appended journal row shared' =
      (shared'.journal ≡ journal) ⊎ (shared'.journal ≡ journal ++ line_of row ∷ [])

  durable_effect :
      (env : Env) (shared : Shared) (row : Outcome)
      → let (_, shared') = durable platform env shared row in
        Appended shared.journal row shared' × (shared'.lock ≡ shared.lock)
  unfolding durable
  durable_effect env shared row = ground arith

  pub resolution_effect :
      (env : Env) (gate : Gate) (shared : Shared) (timestamp : String)
      → let (progress, shared') = begin_outcome platform env gate shared (resolution timestamp) in
        (is_finished progress ≡ true)
        × Appended shared.journal (resolution timestamp) shared'
        × (shared'.lock ≡ shared.lock)
  unfolding begin_outcome
  resolution_effect env gate shared timestamp =
      let (a, l) = durable_effect env shared (resolution timestamp) in (refl, a, l)

  -- Without a lease only an aborted transfer is recorded; with one, taken at the time `now`, a row
  -- of a broadcast carries that time.
  abbrev pub RowOf : Gate → (timestamp label : String) → Progress → Type 0
  RowOf gate timestamp label progress =
      (label ≡ "aborted-before-broadcast")
      ⊎ ((gate.active ≡ some timestamp) × (is_finished progress ≡ false))

  pub outcome_effect :
      (env : Env) (gate : Gate) (shared : Shared) (timestamp : String) (amount : Codes)
      (label : String)
      → let row = outcome timestamp amount label in
        let (progress, shared') = begin_outcome platform env gate shared row in
        ((is_finished progress ≡ true) ⊎ (is_active gate ≡ true))
        × (shared'.lock ≡ shared.lock)
        × ((shared'.journal ≡ shared.journal)
            ⊎ ((shared'.journal ≡ shared.journal ++ line_of row ∷ [])
                × RowOf gate timestamp label progress))
  unfolding begin_outcome
  outcome_effect env gate shared timestamp amount label = elim (Option-cases gate.active) [
    | inl a ↦ (ground arith, ground arith, ground (arith, eq_iff label "aborted-before-broadcast"))
    | inr (now, a) ↦ (
      ground arith,
      ground arith,
      ground (arith, eq_iff label "aborted-before-broadcast", eq_iff timestamp now),
    )
  ]

  -- The rest of the call keeps the journal; it gives a lease up, if the call had one.
  pub end_effect :
      (env : Env) (gate : Gate) (shared : Shared) (progress : Progress)
      → let (_, gate', shared') = end_outcome env gate shared progress in
        (shared'.journal ≡ shared.journal)
        × (((is_finished progress ≡ true) × (gate' ≡ gate) × (shared' ≡ shared))
            ⊎ ((is_finished progress ≡ false)
                × (gate'.active ≡ none)
                × ((shared'.lock ≡ shared.lock) ⊎ (shared'.lock ≡ none))))
  unfolding end_outcome
  end_effect env gate shared (finished r) = (refl, inl (refl, refl, refl))
  end_effect env gate shared (releasing r) = (ground arith, ground arith)
