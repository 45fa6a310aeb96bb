-- ===== src/Ledger/Once/Race.antt =====
-- Two processes at once.
use pathos_dacs_ref.Prelude.{ℕ, zero, suc, true, false, none, some, [], ◌≡◌, arith}
use pathos_dacs_ref.Platform.{Platform}
use pathos_dacs_ref.Ledger.Once.{
  SettleResult, World, Env, Phase, start, returned, is_definitive, step, landed,
}

-- An environment whose submission lands, and is reported and recorded so.
abbrev pub landing : SettleResult → Env
landing r = record {
  submit = record { landed = true; reply = some r };
  reconcile = none;
  can_put = true;
}

module _ (platform : Platform) where
  -- `n` steps of one process
  unfoldable pub run : ℕ → Env → World → Phase → World × Phase
  unfolding step
  run zero env w p = (w, p)
  run (suc n) env w p = let (w', p') = step platform env w p in run n env w' p'

  -- Process A looks up the outcome, and finds none. Process B then makes a whole call. Process A
  -- goes on.
  unfoldable pub overlapped : Env → Env → World → World × Phase
  unfolding run
  overlapped a b w = let (w₁, p) = run 1 a w start in let (w₂, _) = run 5 b w₁ start in run 4 a w₂ p

  -- For any two definitive results: if a process looks up the outcome before another process's call
  -- and claims the intent after that call, both payments land; the second is returned as settled.
  pub overlap_pays_twice :
      (r s : SettleResult)
      → is_definitive platform r ≡ true
      → is_definitive platform s ≡ true
      → let (w, p) =
          overlapped
            (landing s)
            (landing r)
            (record { outcome = none; intent = false; submissions = [] }) in
        (landed w.submissions ≡ 2) × (p ≡ returned s)
  unfolding overlapped
  overlap_pays_twice r s d e = (ground arith, ground arith)
