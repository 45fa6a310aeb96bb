-- ===== src/Ledger/Once/Sequential.antt =====
-- One process at a time, which may die at any point and start again.
use pathos_dacs_ref.Prelude.{
  ◌≤◌, Bool, true, false, Option, none, some, [], ◌≡◌, ◌⊎◌, arith, refl, inl,
}
use pathos_dacs_ref.Platform.{Platform}
use pathos_dacs_ref.Ledger.Once.{
  SettleResult, World, Env, Phase, start, claiming, held, reconciling, submitting, releasing,
  putting, unlinking, returned, failed, is_blank, is_definitive, step, landed,
}

abbrev has : Option SettleResult → Bool
has none = false
has (some _) = true

module _ (platform : Platform) where
  -- The node's replies are true: a definitive reply landed, and a reply without a hash did not.
  abbrev pub Reply-IsTrue : Bool → Option SettleResult → Type 0
  Reply-IsTrue l none = Unit
  Reply-IsTrue l (some r) =
      (is_definitive platform r ≡ true → l ≡ true)
      × (is_blank platform r.tx_hash ≡ true → l ≡ false)

  -- A reconciliation finds the payment if one landed.
  abbrev pub Reconcile-IsTrue : World → Option (Option SettleResult) → Type 0
  Reconcile-IsTrue w none = Unit
  Reconcile-IsTrue w (some none) = landed w.submissions ≡ 0
  Reconcile-IsTrue w (some (some r)) =
      (is_definitive platform r ≡ true) ⊎ (landed w.submissions ≡ 0)

  pub record IsHonest (env : Env) (w : World) : Type 0 where
    pub submit : Reply-IsTrue env.submit.landed env.submit.reply
    pub reconcile : Reconcile-IsTrue w env.reconcile

  abbrev pub initial : World
  initial = record { outcome = none; intent = false; submissions = [] }

  pub data Reach : World → Phase → Type 0 where
    begin : Reach initial start
    progress :
        {w : World} {p : Phase} (env : Env)
        → Reach w p
        → IsHonest env w
        → Reach (step platform env w p).0 (step platform env w p).1
    -- the process dies, or a call has ended, and the next call begins
    again : {w : World} {p : Phase} → Reach w p → Reach w start

  -- What the files and the submissions say at each phase.
  abbrev Settled : World → Type 0
  Settled w = (landed w.submissions ≡ 0) ⊎ ((w.intent ≡ true) ⊎ (has w.outcome ≡ true))

  abbrev pub At : Phase → World → Type 0
  At claiming w = (landed w.submissions ≡ 0) ⊎ (w.intent ≡ true)
  At submitting w = (landed w.submissions ≡ 0) × (w.intent ≡ true)
  At (putting r) w = w.intent ≡ true
  At (unlinking r) w = has w.outcome ≡ true
  At (releasing r) w = landed w.submissions ≡ 0
  At held w = w.intent ≡ true
  At reconciling w = w.intent ≡ true
  At _ w = Unit

  abbrev Inv : World → Phase → Type 0
  Inv w p = (landed w.submissions ≤ 1) × Settled w × At p w

  step-Inv :
      (env : Env) (w : World) (p : Phase)
      → IsHonest env w
      → Inv w p
      → Inv (step platform env w p).0 (step platform env w p).1
  unfolding step
  step-Inv env w start h i = ground arith
  step-Inv env w claiming h i = ground arith
  step-Inv env w held h i = ground arith
  step-Inv env w reconciling h i = ground arith
  step-Inv env w submitting h i = ground arith
  step-Inv env w (putting r) h i = ground arith
  step-Inv env w (unlinking r) h i = ground arith
  step-Inv env w (releasing r) h i = ground arith
  step-Inv env w (returned r) h i = i
  step-Inv env w failed h i = i

  Reach-Inv : {w : World} {p : Phase} → Reach w p → Inv w p
  Reach-Inv begin = (omega arith, inl refl, tt)
  Reach-Inv (progress {w} {p} env r h) = step-Inv env w p h (Reach-Inv r)
  Reach-Inv (again r) = let (one, safe, _) = Reach-Inv r in (one, safe, tt)

  -- With one process at a time, which may die at any `await` and begin a new call, and an honest
  -- node and reconciliation, at most one payment of a settlement key lands.
  pub lands_once : {w : World} {p : Phase} → Reach w p → landed w.submissions ≤ 1
  lands_once r = (Reach-Inv r).0

  -- Without a reconciliation, a call that finds an unresolved intent never submits.
  pub held_refuses :
      (env : Env) (w : World)
      → env.reconcile ≡ none
      → w.intent ≡ true
      → w.outcome ≡ none
      → let (w₁, p₁) = step platform env w start in
        let (w₂, p₂) = step platform env w₁ p₁ in
        let (w₃, p₃) = step platform env w₂ p₂ in step platform env w₃ p₃ ≡ (w, failed)
  unfolding step
  held_refuses env w r i o = ground arith

  -- A call that finds a recorded outcome returns it, and changes nothing.
  pub recorded_returned :
      (env : Env) (w : World) {r : SettleResult}
      → w.outcome ≡ some r
      → step platform env w start ≡ (w, returned r)
  unfolding step
  recorded_returned env w o = ground arith
