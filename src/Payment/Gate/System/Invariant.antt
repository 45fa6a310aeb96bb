-- ===== src/Payment/Gate/System/Invariant.antt =====
-- What every interleaving keeps: one lease at a time, and room for it under the daily cap.
use pathos_dacs_ref.Prelude.{
  ℕ, ◌+◌, ◌≤◌, String, true, false, none, some, List, [], ◌∷◌, ◌++◌, ◌≡◌, ◌⊎◌, inl, inr, ok, arith,
}
use pathos_dacs_ref.Platform.{Platform}
use pathos_dacs_ref.Payment.Policy.{JournalEntry, utc_date_or_throw}
use pathos_dacs_ref.Payment.Policy.Total.{counted, day_total, day_total-append}
use pathos_dacs_ref.Payment.Lock.{IsLocal, is_held}
use pathos_dacs_ref.Payment.Gate.{Gate, Shared, Progress, is_active, is_finished}
use pathos_dacs_ref.Payment.Gate.System.{System, init, update}

module _ (platform : Platform) (host : String) (limit : ℕ) where
  -- `lessee` is the gate that was given the last lease.
  pub record Inv (s : System) : Type 0 where
    pub lessee : ℕ
    pub exclusive :
        (p : ℕ) → is_active (s.gate p) ≡ true → (p ≡ lessee) × (is_held s.shared.lock ≡ true)
    pub ending : (p : ℕ) → is_finished (s.progress p) ≡ false → is_active (s.gate p) ≡ true
    pub local : IsLocal host s.shared.lock
    pub within : (day : String) → day_total platform day s.shared.journal ≤ limit
    pub room :
        (p : ℕ) (t day : String)
        → (s.gate p).active ≡ some t
        → is_finished (s.progress p) ≡ true
        → utc_date_or_throw platform t ≡ ok day
        → day_total platform day s.shared.journal + s.pending p ≤ limit

  pub init-Inv :
      (journal : List JournalEntry)
      → ((day : String) → day_total platform day journal ≤ limit)
      → Inv (init journal)
  init-Inv journal fits = record {
    lessee = 0;
    exclusive = λ p h. cc;
    ending = λ p h. cc;
    local = tt;
    within = fits;
    room = λ p t day h. cc;
  }

  abbrev pub authorized : System → ℕ → Gate → Shared → ℕ → String → System
  authorized s p gate' shared' k token = record s {
    shared = shared';
    gate = update s.gate p gate';
    pending = update s.pending p k;
    token = update s.token p token;
  }

  -- A call that takes no lease touches the lock only where nobody holds it.
  pub kept-Inv :
      (s : System) (p k : ℕ) (token : String) (gate' : Gate) (shared' : Shared)
      → Inv s
      → gate' ≡ s.gate p
      → shared'.journal ≡ s.shared.journal
      → IsLocal host shared'.lock
      → (shared'.lock ≡ s.shared.lock) ⊎ (is_held s.shared.lock ≡ false)
      → ((t : String) → (s.gate p).active ≡ some t → k ≡ s.pending p)
      → Inv (authorized s p gate' shared' k token)
  kept-Inv s p k token gate' shared' h g j l held same = record {
    lessee = h.lessee;
    exclusive = λ q a. ground (arith, h.exclusive q, h.exclusive p);
    ending = λ q e. ground (arith, h.ending q, h.ending p);
    local = l;
    within = λ day. ground (arith, h.within day);
    room = λ q t day a e d. ground (arith, h.room q t day, h.room p t day, same t);
  }

  -- A lease goes to a gate that asked for an amount that fits.
  pub leased-Inv :
      (s : System) (p k : ℕ) (token now today : String) (gate' : Gate) (shared' : Shared)
      → Inv s
      → gate'.active ≡ some now
      → is_held s.shared.lock ≡ false
      → is_held shared'.lock ≡ true
      → IsLocal host shared'.lock
      → shared'.journal ≡ s.shared.journal
      → utc_date_or_throw platform now ≡ ok today
      → day_total platform today s.shared.journal + k ≤ limit
      → Inv (authorized s p gate' shared' k token)
  leased-Inv s p k token now today gate' shared' h g free held l j d fits = record {
    lessee = p;
    exclusive = λ q a. ground (arith, h.exclusive q);
    ending = λ q e. ground (arith, h.ending q);
    local = l;
    within = λ day. ground (arith, h.within day);
    room = λ q t day a e d'. ground (arith, h.exclusive q, h.room q t day);
  }

  abbrev pub begun : System → ℕ → Shared → Progress → System
  begun s p shared' progress' = record s {
    shared = shared';
    progress = update s.progress p progress';
  }

  -- A call that records an outcome, up to the end of its `await`.
  pub begun-Inv :
      (s : System) (p : ℕ) (shared' : Shared) (progress' : Progress)
      → Inv s
      → is_finished (s.progress p) ≡ true
      → (is_finished progress' ≡ true) ⊎ (is_active (s.gate p) ≡ true)
      → shared'.lock ≡ s.shared.lock
      → shared'.journal ≡ s.shared.journal
      → Inv (begun s p shared' progress')
  begun-Inv s p shared' progress' h f e l j = record {
    lessee = h.lessee;
    exclusive = λ q a. ground (arith, h.exclusive q);
    ending = λ q x. ground (arith, h.ending q, h.ending p);
    local = rw l h.local;
    within = λ day. ground (arith, h.within day);
    room = λ q t day a x d. ground (arith, h.room q t day, h.room p t day);
  }

  -- One that appends a row without spend.
  pub free_row-Inv :
      (s : System) (p : ℕ) (shared' : Shared) (progress' : Progress) (e : JournalEntry)
      → Inv s
      → is_finished (s.progress p) ≡ true
      → (is_finished progress' ≡ true) ⊎ (is_active (s.gate p) ≡ true)
      → shared'.lock ≡ s.shared.lock
      → shared'.journal ≡ s.shared.journal ++ e ∷ []
      → ((day : String) → counted platform day e ≡ 0)
      → Inv (begun s p shared' progress')
  free_row-Inv s p shared' progress' e h f x l j free = record {
    lessee = h.lessee;
    exclusive = λ q a. ground (arith, h.exclusive q);
    ending = λ q y. ground (arith, h.ending q, h.ending p);
    local = rw l h.local;
    within = λ day.
        rw j
          (omega (arith, day_total-append platform day s.shared.journal e, free day, h.within day));
    room = λ q t day a y d. rw j (
        rw (day_total-append platform day s.shared.journal e, free day)
          (ground (arith, h.room q t day, h.room p t day)));
  }

  -- One that appends the row of a broadcast, under the lease of the gate.
  pub spent_row-Inv :
      (s : System) (p : ℕ) (now : String) (shared' : Shared) (progress' : Progress)
      (e : JournalEntry)
      → Inv s
      → is_finished (s.progress p) ≡ true
      → is_finished progress' ≡ false
      → (s.gate p).active ≡ some now
      → shared'.lock ≡ s.shared.lock
      → shared'.journal ≡ s.shared.journal ++ e ∷ []
      → ((day : String)
          → (counted platform day e ≡ 0)
            ⊎ ((counted platform day e ≡ s.pending p) × (utc_date_or_throw platform now ≡ ok day)))
      → Inv (begun s p shared' progress')
  spent_row-Inv s p now shared' progress' e h f x active l j spends = record {
    lessee = h.lessee;
    exclusive = λ q a. ground (arith, h.exclusive q);
    ending = λ q y. ground (arith, h.ending q);
    local = rw l h.local;
    within = λ day. rw j (
        rw (day_total-append platform day s.shared.journal e) (elim (spends day) [
          | inl free ↦ omega (arith, free, h.within day)
          | inr (amount, d) ↦ omega (arith, amount, h.room p now day active f d)
        ]));
    room = λ q t day a y d. absurd (ground (arith, h.exclusive q, h.exclusive p));
  }

  abbrev pub ended : System → ℕ → Gate → Shared → Progress → System
  ended s p gate' shared' progress' = record s {
    shared = shared';
    gate = update s.gate p gate';
    progress = update s.progress p progress';
  }

  -- The end of a call that had no lease.
  pub idle_end-Inv :
      (s : System) (p : ℕ) (gate' : Gate) (shared' : Shared) (progress' : Progress)
      → Inv s
      → is_finished (s.progress p) ≡ true
      → is_finished progress' ≡ true
      → gate' ≡ s.gate p
      → shared' ≡ s.shared
      → Inv (ended s p gate' shared' progress')
  idle_end-Inv s p gate' shared' progress' h f f' g e = record {
    lessee = h.lessee;
    exclusive = λ q a. ground (arith, h.exclusive q, h.exclusive p);
    ending = λ q x. ground (arith, h.ending q, h.ending p);
    local = rw e h.local;
    within = λ day. ground (arith, h.within day);
    room = λ q t day a x d. ground (arith, h.room q t day, h.room p t day);
  }

  -- The end of a call that gives its lease up.
  pub released-Inv :
      (s : System) (p : ℕ) (gate' : Gate) (shared' : Shared) (progress' : Progress)
      → Inv s
      → is_finished (s.progress p) ≡ false
      → is_finished progress' ≡ true
      → gate'.active ≡ none
      → (shared'.lock ≡ s.shared.lock) ⊎ (shared'.lock ≡ none)
      → shared'.journal ≡ s.shared.journal
      → Inv (ended s p gate' shared' progress')
  released-Inv s p gate' shared' progress' h f f' g l j = record {
    lessee = h.lessee;
    exclusive = λ q a. ground (arith, h.exclusive q, h.exclusive p, h.ending p);
    ending = λ q x. ground (arith, h.ending q);
    local = elim l [ inl same ↦ rw same h.local | inr gone ↦ rw gone tt ];
    within = λ day. ground (arith, h.within day);
    room = λ q t day a x d. ground (arith, h.exclusive q, h.exclusive p, h.ending p);
  }
