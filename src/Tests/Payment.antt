-- ===== src/Tests/Payment.antt =====
-- src/live/pay-policy.ts and src/live/pay-dem-authorization.ts at concrete inputs.
use pathos_dacs_ref.Prelude.{
  ℕ, ◌≤◌, String, true, false, none, some, [], ◌∷◌, ◌≡◌, refl, ◌↔◌, ok, codes, arith, eq_iff, All,
}
use pathos_dacs_ref.Tests.Concrete.{plain, two_dem_a_day}
use pathos_dacs_ref.Payment.Amount.{dem_to_os}
use pathos_dacs_ref.Payment.Policy.{
  TransferInput, proceed, with_outcome, JournalEntry, authorize_transfer, spent_today,
  utc_date_or_throw, amount_spend,
}
use pathos_dacs_ref.Payment.Policy.Decision.{Allowed, authorize_iff}
use pathos_dacs_ref.Payment.Policy.Total.{WellFormed, day_total, spent_today_iff}
use pathos_dacs_ref.Payment.Lock.{
  Owner, View, release_lease, acquire_pay_dem_journal_lock, process_is_alive,
}
use pathos_dacs_ref.Payment.Gate.{
  Env, Gate, Shared, written, outcome, authorize, journal_outcome, before_broadcast, begin_outcome,
  end_outcome,
}
use pathos_dacs_ref.Payment.Gate.Guards.{
  SameDay, before_broadcast_iff, recorded_guarded, outcome_releases,
}
use pathos_dacs_ref.Payment.Gate.System.{
  System, init, after_authorize, after_begin, after_end, Reach, here, next, call_authorize,
  call_outcome, end_call,
}
use pathos_dacs_ref.Payment.Gate.System.DailyCap.{daily_cap_kept, one_active}

abbrev noon : String
noon = "2026-01-01T12:00:00Z"

abbrev one_dem : TransferInput
one_dem = record {
  amount_os = 1000000000;
  rpc_url = "node";
  spent_today_os = 1000000000;
  kill_switch_present = false;
  now_iso = noon;
}

authorize_iff_example :
    (authorize_transfer plain two_dem_a_day one_dem ≡ ok (proceed noon))
    ↔ Allowed plain two_dem_a_day one_dem
authorize_iff_example =
    authorize_iff plain two_dem_a_day one_dem ((λ e. ground (arith, e, eq_iff "node" "")), tt)

abbrev line : JournalEntry
line =
    with_outcome
      (record { outcome = some "settled"; timestamp = some noon; amount_os = some (codes "7") })

spent_today_iff_example : (spent_today plain (line ∷ line ∷ []) noon ≡ ok 14) ↔ (
    (day : String) × (utc_date_or_throw plain noon ≡ ok day)
    × All (WellFormed plain day) (line ∷ line ∷ [])
    × (14 ≡ day_total plain day (line ∷ line ∷ [])))
spent_today_iff_example = spent_today_iff plain (line ∷ line ∷ []) noon 14

abbrev owner : Owner
owner = record { token = "lease"; pid = 7; hostname = "host"; created_at = 0 }

abbrev view : View
view = record {
  me = owner;
  now = 0;
  finds = λ _. true;
  can_stat = true;
  can_rename = true;
  can_create = true;
}

-- an environment in which everything works
abbrev fine : Env
fine = record {
  acquire = λ lock. (true, lock);
  journal_readable = true;
  switch = some false;
  release_works = true;
  append = written;
  now = noon;
}

abbrev leased : Gate
leased = record { active = some noon }

abbrev held_lock : Shared
held_lock = record { lock = some (record { owner = some owner; modified = 0 }); journal = [] }

abbrev idle : Gate
idle = record { active = none }

before_broadcast_iff_example :
    (before_broadcast plain fine noon ≡ ok tt)
    ↔ (SameDay plain noon noon × (some false ≡ some false))
before_broadcast_iff_example = before_broadcast_iff plain fine noon

recorded_guarded_example :
    (some noon ≡ some noon) × SameDay plain noon noon × (some false ≡ some false)
unfolding journal_outcome utc_date_or_throw
recorded_guarded_example =
    recorded_guarded plain fine leased held_lock noon "settled" (codes "5")
      (λ e. ground (arith, e, eq_iff "settled" "aborted-before-broadcast")) refl

outcome_releases_example :
    let (_, gate, shared) =
      journal_outcome plain fine leased held_lock (outcome noon (codes "5") "settled") in
    (gate.active ≡ none) × (shared.lock ≡ none)
outcome_releases_example =
    outcome_releases plain fine leased held_lock noon "settled" noon (codes "5") refl

-- one gate asks for one DEM, and then records it
abbrev asked : System
asked = after_authorize plain two_dem_a_day (init []) 3 view fine 1000000000 "node"

-- another gate asks for the lock in vain, from another process
abbrev rival : View
rival = record view { me = record owner { token = "other"; pid = 8 } }

abbrev contested : System
contested = after_authorize plain two_dem_a_day asked 4 rival fine 1000000000 "node"

abbrev charged : System
charged =
    after_begin plain two_dem_a_day contested 3 fine (outcome noon (codes "1000000000") "settled")

abbrev closed : System
closed = after_end plain two_dem_a_day charged 3 fine

asked-Reach : Reach plain two_dem_a_day "host" (init []) asked
asked-Reach = next here (call_authorize 3 view fine 1000000000 "node" refl tt)

owner_alive : (o : Owner) → some owner ≡ some o → process_is_alive rival o.pid ≡ true
unfolding process_is_alive
owner_alive o e = ground arith

contested-Reach : Reach plain two_dem_a_day "host" (init []) contested
unfolding authorize authorize_transfer spent_today utc_date_or_throw dem_to_os
    acquire_pay_dem_journal_lock
contested-Reach = next asked-Reach (call_authorize 4 rival fine 1000000000 "node" refl owner_alive)

charged-Reach : Reach plain two_dem_a_day "host" (init []) charged
unfolding amount_spend authorize authorize_transfer spent_today utc_date_or_throw dem_to_os
    acquire_pay_dem_journal_lock
charged-Reach =
    next contested-Reach (call_outcome 3 fine noon (codes "1000000000") "settled" refl refl)

closed-Reach : Reach plain two_dem_a_day "host" (init []) closed
closed-Reach = next charged-Reach (end_call 3 fine)

empty-fits : (day : String) → day_total plain day [] ≤ 2000000000
unfolding day_total
empty-fits day = ground arith

daily_cap_kept_example : 1000000000 ≤ 2000000000
unfolding release_lease spent_today authorize begin_outcome end_outcome utc_date_or_throw dem_to_os
    authorize_transfer amount_spend acquire_pay_dem_journal_lock day_total
daily_cap_kept_example =
    daily_cap_kept plain two_dem_a_day "host" 2000000000 refl [] empty-fits closed "2026-01-01"
      closed-Reach

one_active_example : ◌≡◌ {A = ℕ} 3 3
unfolding authorize authorize_transfer spent_today utc_date_or_throw dem_to_os
    acquire_pay_dem_journal_lock
one_active_example =
    one_active plain two_dem_a_day "host" 2000000000 refl [] empty-fits contested 3 3 noon noon
      contested-Reach refl refl
