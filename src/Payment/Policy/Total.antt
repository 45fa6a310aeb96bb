-- ===== src/Payment/Policy/Total.antt =====
-- The spend of a UTC date, against a sum over the journal's rows that is defined on its own.
use pathos_dacs_ref.Prelude.{
  ℕ, ◌+◌, String, Bool, true, false, not, ◌&&◌, Option, none, some, ◌≡◌, ◌≢◌, ◌↔◌, ◌⊎◌, inl, inr,
  refl, List, [], ◌∷◌, ◌++◌, ok, throw, Codes, arith, eq_iff, str_eq, if◌then◌else◌, Option-cases,
  Bool-cases, All, >>=-eq-ok,
}
use pathos_dacs_ref.Platform.{Platform}
use pathos_dacs_ref.Payment.Amount.{decimal, is_integer}
use pathos_dacs_ref.Payment.Policy.{
  JournalEntry, not_an_object, without_outcome, with_outcome, OutcomeFields, utc_date_or_throw,
  entry_spend, spent_from, spent_today, is_pre_broadcast, amount_spend, dated_spend, outcome_spend,
}

-- the number that a text of digits stands for
abbrev amount_of : Option Codes → ℕ
amount_of none = 0
amount_of (some s) = decimal 0 s

-- an outcome of a transfer that may have reached the network
abbrev is_spend : Option String → Bool
is_spend none = false
is_spend (some label) = not (is_pre_broadcast label)

module _ (platform : Platform) (day : String) where
  abbrev is_on_day : Option String → Bool
  is_on_day none = false
  is_on_day (some timestamp) = elim (utc_date_or_throw platform timestamp) [
    | ok date ↦ str_eq date day
    | throw _ ↦ false
  ]

  -- A row counts if it is an outcome after the broadcast and is dated `day`.
  abbrev pub counted : JournalEntry → ℕ
  counted not_an_object = 0
  counted without_outcome = 0
  counted (with_outcome fields) =
      if is_spend fields.outcome && is_on_day fields.timestamp
      then amount_of fields.amount_os
      else 0

  unfoldable pub day_total : List JournalEntry → ℕ
  day_total [] = 0
  day_total (e ∷ es) = counted e + day_total es

  pub day_total-append :
      (xs : List JournalEntry) (e : JournalEntry)
      → day_total (xs ++ e ∷ []) ≡ day_total xs + counted e
  unfolding day_total
  day_total-append [] e = ground arith
  day_total-append (x ∷ xs) e = omega (arith, day_total-append xs e)

  -- A row of that date has an amount, in decimal digits.
  abbrev pub HasAmount : OutcomeFields → String → Type 0
  HasAmount fields date =
      (date ≢ day) ⊎ ((s : Codes) × (fields.amount_os ≡ some s) × (is_integer s ≡ true))

  -- A row after the broadcast is dated.
  abbrev pub Dated : OutcomeFields → Option String → Type 0
  Dated fields o =
      (t : String) × (date : String) × (o ≡ some t)
      × (utc_date_or_throw platform t ≡ ok date)
      × HasAmount fields date

  -- A row has a non-empty label and, unless it says that the transfer never reached the network,
  -- a date.
  abbrev pub Labelled : OutcomeFields → Option String → Type 0
  Labelled fields o =
      (label : String) × (o ≡ some label)
      × (label ≢ "")
      × ((is_pre_broadcast label ≡ true) ⊎ Dated fields fields.timestamp)

  abbrev pub WellFormed : JournalEntry → Type 0
  WellFormed not_an_object = Unit
  WellFormed without_outcome = Unit
  WellFormed (with_outcome fields) = Labelled fields fields.outcome

  HasAmount-of_spend :
      (fields : OutcomeFields) (date : String) {n : ℕ}
      → (if not (str_eq date day) then ok 0 else amount_spend fields.amount_os) ≡ ok n
      → HasAmount fields date × (n ≡ (if str_eq date day then amount_of fields.amount_os else 0))
  unfolding amount_spend
  HasAmount-of_spend fields date h = elim (Bool-cases (str_eq date day)) [
    | inr other ↦ (inl (ground (arith, eq_iff date day)), ground arith)
    | inl same ↦ elim (Option-cases fields.amount_os) [
      | inl missing ↦ absurd (ground arith)
      | inr (s, e) ↦ (inr (s, e, ground arith), ground arith)
    ]
  ]

  spend-of_HasAmount :
      (fields : OutcomeFields) (date : String)
      → HasAmount fields date
      → (if not (str_eq date day) then ok 0 else amount_spend fields.amount_os)
        ≡ ok (if str_eq date day then amount_of fields.amount_os else 0)
  unfolding amount_spend
  spend-of_HasAmount fields date (inl other) = ground (arith, eq_iff date day)
  spend-of_HasAmount fields date (inr (s, e, digits)) = rw (e, digits) (ground arith)

  is_on_day_lem :
      (t date : String)
      → utc_date_or_throw platform t ≡ ok date
      → is_on_day (some t) ≡ str_eq date day
  is_on_day_lem t date e = rw (is_on_day, e) refl

  Dated-of_spend :
      (fields : OutcomeFields) (o : Option String) {n : ℕ}
      → dated_spend platform day fields o ≡ ok n
      → Dated fields o × (n ≡ (if is_on_day o then amount_of fields.amount_os else 0))
  unfolding dated_spend
  Dated-of_spend fields none h = absurd (ground arith)
  Dated-of_spend fields (some t) h =
      let (date, dated, h₁) = >>=-eq-ok (utc_date_or_throw platform t) _ h in
      let (has, sum) = HasAmount-of_spend fields date h₁ in
      ((t, date, refl, dated, has), rw (is_on_day_lem t date dated) sum)

  spend-of_Dated :
      (fields : OutcomeFields) (o : Option String)
      → Dated fields o
      → dated_spend platform day fields o
        ≡ ok (if is_on_day o then amount_of fields.amount_os else 0)
  unfolding dated_spend
  spend-of_Dated fields o (t, date, e, dated, has) =
      rw e (rw (is_on_day_lem t date dated) (rw dated (spend-of_HasAmount fields date has)))

  Labelled-of_spend :
      (fields : OutcomeFields) (o : Option String) {n : ℕ}
      → outcome_spend platform day fields o ≡ ok n
      → Labelled fields o
        × (n ≡ (if is_spend o && is_on_day fields.timestamp then amount_of fields.amount_os else 0))
  unfolding outcome_spend
  Labelled-of_spend fields none h = absurd (ground arith)
  Labelled-of_spend fields (some label) {n} h = elim (Bool-cases (is_pre_broadcast label)) [
    | inl pre ↦ ((label, refl, ground (arith, eq_iff label ""), inl pre), ground arith)
    | inr spent ↦
        let h' : dated_spend platform day fields fields.timestamp ≡ ok n = ground arith in
        let (dated, sum) = Dated-of_spend fields fields.timestamp h' in
        ((label, refl, ground (arith, eq_iff label ""), inr dated), rw spent sum)
  ]

  spend-of_Labelled :
      (fields : OutcomeFields) (o : Option String)
      → Labelled fields o
      → outcome_spend platform day fields o
        ≡ ok (if is_spend o && is_on_day fields.timestamp then amount_of fields.amount_os else 0)
  unfolding outcome_spend
  spend-of_Labelled fields o (label, e, l, inl pre) = rw e (ground (arith, eq_iff label ""))
  spend-of_Labelled fields o (label, e, l, inr dated) = elim (Bool-cases (is_pre_broadcast label)) [
    | inl pre ↦ rw e (ground (arith, eq_iff label ""))
    | inr spent ↦
        rw e (ground (arith, eq_iff label "", spend-of_Dated fields fields.timestamp dated))
  ]

  WellFormed-of_spend :
      (e : JournalEntry) {n : ℕ}
      → entry_spend platform day e ≡ ok n
      → WellFormed e × (n ≡ counted e)
  unfolding entry_spend
  WellFormed-of_spend not_an_object h = (tt, ground arith)
  WellFormed-of_spend without_outcome h = (tt, ground arith)
  WellFormed-of_spend (with_outcome fields) h = Labelled-of_spend fields fields.outcome h

  spend-of_WellFormed :
      (e : JournalEntry) → WellFormed e → entry_spend platform day e ≡ ok (counted e)
  unfolding entry_spend
  spend-of_WellFormed not_an_object w = refl
  spend-of_WellFormed without_outcome w = refl
  spend-of_WellFormed (with_outcome fields) w = spend-of_Labelled fields fields.outcome w

  spent_from_sound :
      (entries : List JournalEntry) (k n : ℕ)
      → spent_from platform day k entries ≡ ok n
      → All WellFormed entries × (n ≡ k + day_total entries)
  unfolding spent_from day_total
  spent_from_sound [] k n h = (tt, ground arith)
  spent_from_sound (e ∷ es) k n h =
      let (v, spend, h₁) = >>=-eq-ok (entry_spend platform day e) _ h in
      let (w, same) = WellFormed-of_spend e spend in
      let (ws, sum) = spent_from_sound es (k + v) n h₁ in ((w, ws), omega (arith, same, sum))

  spent_from_complete :
      (entries : List JournalEntry) (k : ℕ)
      → All WellFormed entries
      → spent_from platform day k entries ≡ ok (k + day_total entries)
  unfolding spent_from day_total
  spent_from_complete [] k w = ground arith
  spent_from_complete (e ∷ es) k (w, ws) =
      rw (spend-of_WellFormed e w) (ground (arith, spent_from_complete es (k + counted e) ws))

module _ (platform : Platform) where
  -- The spend of a journal is read exactly when the current time has a UTC date and every line of
  -- the journal is well-formed: no outcome, or a non-empty label and, unless that label says that
  -- the transfer never reached the network, a valid timestamp and, on that date, an amount in
  -- decimal digits without leading zeros. It is then the sum of the amounts of the rows of that date whose outcome came
  -- after the broadcast. So one malformed line makes the whole spend unreadable.
  pub spent_today_iff :
      (entries : List JournalEntry) (now : String) (n : ℕ)
      → (spent_today platform entries now ≡ ok n) ↔ (
          (day : String) × (utc_date_or_throw platform now ≡ ok day)
          × All (WellFormed platform day) entries
          × (n ≡ day_total platform day entries))
  unfolding spent_today
  spent_today_iff entries now n = (
    λ h.
        let (day, today, h₁) = >>=-eq-ok (utc_date_or_throw platform now) _ h in
        let (w, sum) = spent_from_sound platform day entries 0 n h₁ in
        (day, today, w, omega (arith, sum)),
    λ h.
        let (day, today, w, sum) = h in
        rw today (ground (arith, sum, spent_from_complete platform day entries 0 w)),
  )
