-- ===== src/Payment/Policy.antt =====
-- src/live/pay-policy.ts: the spending policy, its decision and the spend of a day.
pub mod Decision
pub mod Total
pub mod Parse
use pathos_dacs_ref.Prelude.{
  ℕ, zero, suc, ◌+◌, String, Bool, true, false, not, ◌&&◌, ◌||◌, Option, none, some, List, [], ◌∷◌,
  Result, ok, throw, ◌>>=◌, ◌>>◌, require, Codes, codes, is_digit, ltb, ◌==◌, str_eq, if◌then◌else◌,
  all, any, length,
}
use pathos_dacs_ref.Platform.{Platform}
use pathos_dacs_ref.Payment.Amount.{dem_to_os, decimal, is_integer}

-- `network` is always 'testnet' in a parsed policy; the caps are texts, checked when they are read
pub record PayPolicy : Type 0 where
  pub rpc_hosts : List String
  pub per_transaction_cap_dem : Codes
  pub daily_cap_dem : Codes
  pub kill_switch_file : String

pub data PolicyError : Type 0 where
  no_timezone invalid_timestamp invalid_cap invalid_outcome invalid_entry_timestamp
        invalid_amount_os :
      PolicyError

pub data Rule : Type 0 where
  kill_switch network per_transaction_cap daily_cap journal_unreadable journal_lock : Rule

-- The texts of the reasons, by what they are built from.
pub data Reason : Type 0 where
  switch_present : String → Reason
  host_not_allowed : Option String → Reason
  amount_exceeds_cap : ℕ → ℕ → Reason
  daily_total_exceeds_cap : ℕ → ℕ → Reason
  journal_not_read : PolicyError → Reason
  switch_not_read : Reason
  lock_unavailable : Reason

pub data TransferAuthorization : Type 0 where
  proceed : String → TransferAuthorization
  block : Rule → Reason → TransferAuthorization

pub record TransferInput : Type 0 where
  pub amount_os : ℕ
  pub rpc_url : String
  pub spent_today_os : ℕ
  pub kill_switch_present : Bool
  pub now_iso : String

abbrev has_digits : ℕ → Codes → Option Codes
has_digits zero s = some s
has_digits (suc n) [] = none
has_digits (suc n) (c ∷ s) = if is_digit c then has_digits n s else none

abbrev has_code : ℕ → Option Codes → Option Codes
has_code c none = none
has_code c (some []) = none
has_code c (some (d ∷ s)) = if c == d then some s else none

abbrev then_digits : ℕ → Option Codes → Option Codes
then_digits n none = none
then_digits n (some s) = has_digits n s

-- `T` under the flag i
abbrev has_t : Option Codes → Option Codes
has_t none = none
has_t (some []) = none
has_t (some (d ∷ s)) = if (d == b'T') || (d == b't') then some s else none

abbrev is_end : Option Codes → Bool
is_end (some []) = true
is_end _ = false

-- `Z|[+-]\d{2}:\d{2}`, up to the end of the text
is_zone : Codes → Bool
is_zone [] = false
is_zone (c ∷ []) = (c == b'Z') || (c == b'z')
is_zone (c ∷ s) =
    ((c == b'+') || (c == b'-')) && is_end (then_digits 2 (has_code b':' (has_digits 2 s)))

-- what `.` does not match
abbrev is_line_end : ℕ → Bool
is_line_end c = (c == 10) || (c == 13) || (c == 0x2028) || (c == 0x2029)

-- `.*(?:Z|[+-]\d{2}:\d{2})$`
ends_in_zone : Codes → Bool
ends_in_zone [] = false
ends_in_zone (c ∷ s) = is_zone (c ∷ s) || (not (is_line_end c) && ends_in_zone s)

-- the regular expression of `utcDateOrThrow`
is_zoned_timestamp : Codes → Bool
unfolding is_zone ends_in_zone
is_zoned_timestamp s =
    elim (has_t (then_digits 2 (has_code b'-' (then_digits 2 (has_code b'-' (has_digits 4 s)))))) [
      | none ↦ false
      | some rest ↦ ends_in_zone rest
    ]

-- a field of a parsed JSON line: `none` if it is missing or is no string
pub record OutcomeFields : Type 0 where
  pub outcome : Option String
  pub timestamp : Option String
  pub amount_os : Option Codes

pub data JournalEntry : Type 0 where
  not_an_object : JournalEntry
  without_outcome : JournalEntry
  with_outcome : OutcomeFields → JournalEntry

-- the outcomes of a transfer that never reached the network
abbrev pub is_pre_broadcast : String → Bool
is_pre_broadcast o = str_eq o "aborted-before-broadcast" || str_eq o "pre-broadcast-abort"

-- a string that `/^(?:0|[1-9]\d*)$/` matches, as a bigint
unfoldable pub amount_spend : Option Codes → Result PolicyError ℕ
amount_spend none = throw invalid_amount_os
amount_spend (some s) = if is_integer s then ok (decimal 0 s) else throw invalid_amount_os

module _ (platform : Platform) where
  unfoldable pub utc_date_or_throw : String → Result PolicyError String
  unfolding is_zoned_timestamp
  utc_date_or_throw iso =
      if is_zoned_timestamp (codes iso)
      then elim (platform.utc_day iso) [ none ↦ throw invalid_timestamp | some day ↦ ok day ]
      else throw no_timezone

  abbrev cap_of : Codes → Result PolicyError ℕ
  cap_of dem = elim (dem_to_os dem) [ ok os ↦ ok os | throw e ↦ throw invalid_cap ]

  abbrev host_allowed : PayPolicy → Option String → Bool
  host_allowed policy none = any (λ h. str_eq h "") policy.rpc_hosts
  host_allowed policy (some host) = any (λ h. str_eq h host) policy.rpc_hosts

  unfoldable pub authorize_transfer :
      PayPolicy → TransferInput → Result PolicyError TransferAuthorization
  unfolding utc_date_or_throw
  authorize_transfer policy input = do
    today ← utc_date_or_throw input.now_iso
    if input.kill_switch_present
        then ok (block kill_switch (switch_present policy.kill_switch_file))
        else if not (host_allowed policy (platform.url_host input.rpc_url))
        then ok (block network (host_not_allowed (platform.url_host input.rpc_url)))
        else do
          per_transaction ← cap_of policy.per_transaction_cap_dem
          if ltb per_transaction input.amount_os
              then ok
                  (block per_transaction_cap (amount_exceeds_cap input.amount_os per_transaction))
              else do
                daily ← cap_of policy.daily_cap_dem
                if ltb daily (input.spent_today_os + input.amount_os)
                    then ok (
                        block daily_cap
                          (daily_total_exceeds_cap (input.spent_today_os + input.amount_os) daily))
                    else ok (proceed input.now_iso)

  dated_spend : String → OutcomeFields → Option String → Result PolicyError ℕ
  dated_spend day fields none = throw invalid_entry_timestamp
  dated_spend day fields (some timestamp) = do
    date ← utc_date_or_throw timestamp
    if not (str_eq date day) then ok 0 else amount_spend fields.amount_os

  outcome_spend : String → OutcomeFields → Option String → Result PolicyError ℕ
  outcome_spend day fields none = throw invalid_outcome
  outcome_spend day fields (some outcome) =
      if str_eq outcome ""
      then throw invalid_outcome
      else if is_pre_broadcast outcome
      then ok 0
      else dated_spend day fields fields.timestamp

  -- What one entry adds to the spend of the UTC date `day`.
  pub entry_spend : String → JournalEntry → Result PolicyError ℕ
  entry_spend day not_an_object = ok 0
  entry_spend day without_outcome = ok 0
  entry_spend day (with_outcome fields) = outcome_spend day fields fields.outcome

  -- The loop of `spentTodayFromJournal`, which throws at the first malformed entry.
  pub spent_from : String → ℕ → List JournalEntry → Result PolicyError ℕ
  spent_from day total [] = ok total
  spent_from day total (entry ∷ entries) =
      entry_spend day entry >>= λ spend. spent_from day (total + spend) entries

  unfoldable pub spent_today : List JournalEntry → String → Result PolicyError ℕ
  unfolding spent_from entry_spend outcome_spend dated_spend amount_spend
  spent_today entries now_iso = do day ← utc_date_or_throw now_iso; spent_from day 0 entries
