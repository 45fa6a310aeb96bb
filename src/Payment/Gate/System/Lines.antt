-- ===== src/Payment/Gate/System/Lines.antt =====
-- What the row of one outcome adds to the total of a UTC date.
use pathos_dacs_ref.Prelude.{
  ℕ, String, some, ◌≡◌, ◌⊎◌, inl, inr, ok, arith, Codes, eq_iff, Result-cases, refl, Bool-cases,
}
use pathos_dacs_ref.Platform.{Platform}
use pathos_dacs_ref.Payment.Policy.{utc_date_or_throw, amount_spend, is_pre_broadcast}
use pathos_dacs_ref.Payment.Policy.Total.{counted}
use pathos_dacs_ref.Payment.Gate.{resolution, outcome, line_of}

module _ (platform : Platform) (day timestamp : String) where
  pub counted-resolution : counted platform day (line_of (resolution timestamp)) ≡ 0
  counted-resolution = refl

  pub counted-aborted :
      (amount : Codes) (label : String)
      → label ≡ "aborted-before-broadcast"
      → counted platform day (line_of (outcome timestamp amount label)) ≡ 0
  counted-aborted amount label e = ground (arith, eq_iff label "aborted-before-broadcast")

  pub counted-outcome :
      (amount : Codes) (label : String) {k : ℕ}
      → amount_spend (some amount) ≡ ok k
      → (counted platform day (line_of (outcome timestamp amount label)) ≡ 0)
        ⊎ ((counted platform day (line_of (outcome timestamp amount label)) ≡ k)
            × (utc_date_or_throw platform timestamp ≡ ok day))
  unfolding amount_spend
  counted-outcome amount label e = elim (Bool-cases (is_pre_broadcast label)) [
    | inl aborted ↦ ground arith
    | inr spent ↦ elim (Result-cases (utc_date_or_throw platform timestamp)) [
      | inl (date, dated) ↦ ground (arith, eq_iff date day)
      | inr (_, bad) ↦ ground arith
    ]
  ]
