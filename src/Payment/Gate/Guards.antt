-- ===== src/Payment/Gate/Guards.antt =====
-- What a gate refuses, and that it never keeps a lease it has no use for.
use pathos_dacs_ref.Prelude.{
  String, false, none, some, ◌≡◌, ◌≢◌, ◌↔◌, inl, inr, ok, arith, Codes, eq_iff, if◌then◌else◌,
  Result-cases, Option-cases,
}
use pathos_dacs_ref.Platform.{Platform}
use pathos_dacs_ref.Payment.Policy.{utc_date_or_throw}
use pathos_dacs_ref.Payment.Gate.{Gate, Shared, Env, outcome, journal_outcome, before_broadcast}

module _ (platform : Platform) where
  abbrev pub SameDay : String → String → Type 0
  SameDay s t =
      (day : String) × (utc_date_or_throw platform s ≡ ok day)
      × (utc_date_or_throw platform t ≡ ok day)

  sound_of_before_broadcast :
      (env : Env) (authorized : String)
      → before_broadcast platform env authorized ≡ ok tt
      → SameDay env.now authorized × (env.switch ≡ some false)
  unfolding before_broadcast
  sound_of_before_broadcast env authorized h =
      elim (Result-cases (utc_date_or_throw platform env.now)) [
        | inl (today, e) ↦ elim (Result-cases (utc_date_or_throw platform authorized)) [
          | inl (day, f) ↦ ((today, e, ground (arith, eq_iff today day)), ground arith)
          | inr (_, bad) ↦ absurd (ground arith)
        ]
        | inr (_, bad) ↦ absurd (ground arith)
      ]

  before_broadcast_of_sound :
      (env : Env) (authorized : String)
      → SameDay env.now authorized × (env.switch ≡ some false)
      → before_broadcast platform env authorized ≡ ok tt
  unfolding before_broadcast
  before_broadcast_of_sound env authorized ((day, e, f), s) = ground (arith, eq_iff day day)

  -- The last check before the broadcast passes exactly when the UTC date is still the one of the
  -- authorization and the kill switch is read and absent.
  pub before_broadcast_iff :
      (env : Env) (authorized : String)
      → (before_broadcast platform env authorized ≡ ok tt)
        ↔ (SameDay env.now authorized × (env.switch ≡ some false))
  before_broadcast_iff env authorized =
      (sound_of_before_broadcast env authorized, before_broadcast_of_sound env authorized)

  -- An outcome of a broadcast (any label but the aborted one) is recorded without an error only by
  -- a gate with a lease, under the time of its authorization, on that UTC date, with the kill
  -- switch absent.
  pub recorded_guarded :
      (env : Env) (gate : Gate) (shared : Shared) (timestamp label : String) (amount : Codes)
      → label ≢ "aborted-before-broadcast"
      → (journal_outcome platform env gate shared (outcome timestamp amount label)).0 ≡ ok tt
      → (gate.active ≡ some timestamp) × SameDay env.now timestamp × (env.switch ≡ some false)
  unfolding journal_outcome
  recorded_guarded env gate shared timestamp label amount l h = elim (Option-cases gate.active) [
    | inl none_active ↦ absurd (ground (arith, eq_iff label "aborted-before-broadcast"))
    | inr (now, a) ↦
        let t : timestamp ≡ now =
          ground (arith, eq_iff timestamp now, eq_iff label "aborted-before-broadcast") in
        elim (Result-cases (utc_date_or_throw platform env.now)) [
          | inl (today, e) ↦ elim (Result-cases (utc_date_or_throw platform now)) [
            | inl (day, f) ↦ (
              ground arith,
              (today, e, ground (arith, eq_iff today day, eq_iff label "aborted-before-broadcast")),
              ground (arith, eq_iff label "aborted-before-broadcast"),
            )
            | inr (_, bad) ↦ absurd (ground (arith, eq_iff label "aborted-before-broadcast"))
          ]
          | inr (_, bad) ↦ absurd (ground (arith, eq_iff label "aborted-before-broadcast"))
        ]
  ]

  -- Recording an outcome, whether it succeeds or throws, ends the lease of the gate, and frees the
  -- lock if the release works.
  pub outcome_releases :
      (env : Env) (gate : Gate) (shared : Shared) (timestamp label now : String) (amount : Codes)
      → gate.active ≡ some now
      → let (_, gate', shared') =
          journal_outcome platform env gate shared (outcome timestamp amount label) in
        (gate'.active ≡ none) × (shared'.lock ≡ (if env.release_works then none else shared.lock))
  unfolding journal_outcome
  outcome_releases env gate shared timestamp label now amount a = (ground arith, ground arith)
