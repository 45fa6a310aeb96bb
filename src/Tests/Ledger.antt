-- ===== src/Tests/Ledger.antt =====
-- `createIdempotencyStore` at concrete results.
use pathos_dacs_ref.Prelude.{◌≤◌, true, false, none, some, [], ◌∷◌, ◌≡◌, refl, arith}
use pathos_dacs_ref.Tests.Concrete.{plain}
use pathos_dacs_ref.Ledger.Once.{SettleResult, World, Phase, start, returned, step, landed}
use pathos_dacs_ref.Ledger.Once.Sequential.{
  Reach, IsHonest, begin, progress, lands_once, recorded_returned,
}
use pathos_dacs_ref.Ledger.Once.Race.{landing, overlapped, overlap_pays_twice}

abbrev first : SettleResult
first = record { ok = true; tx_hash = "0x01" }

abbrev second : SettleResult
second = record { ok = true; tx_hash = "0x02" }

landing-IsHonest : (w : World) → IsHonest plain (landing first) w
landing-IsHonest w = record { submit = (λ _. refl, λ e. absurd (ground arith)); reconcile = tt }

abbrev claimed : World
claimed = record { outcome = none; intent = true; submissions = (landing first).submit ∷ [] }

three_steps : (p : Phase) × Reach plain claimed p
unfolding step
three_steps = (
  _,
  progress (landing first)
      (progress (landing first) (progress (landing first) begin (landing-IsHonest _))
        (landing-IsHonest _))
      (landing-IsHonest _),
)

lands_once_example : landed claimed.submissions ≤ 1
lands_once_example = lands_once plain {w = claimed} {p = three_steps.0} three_steps.1

abbrev pub interrupted : World
interrupted = record { outcome = none; intent = true; submissions = [] }

abbrev done : World
done = record { outcome = some first; intent = false; submissions = (landing first).submit ∷ [] }

recorded_returned_example : step plain (landing second) done start ≡ (done, returned first)
recorded_returned_example = recorded_returned plain (landing second) done {r = first} refl

overlap_pays_twice_example :
    let (w, p) =
      overlapped plain
        (landing second)
        (landing first)
        (record { outcome = none; intent = false; submissions = [] }) in
    (landed w.submissions ≡ 2) × (p ≡ returned second)
overlap_pays_twice_example = overlap_pays_twice plain first second refl refl
