-- ===== src/Ledger/Journal/Fence.antt =====
-- A lease writes only while its fence is current, and keeps the snapshot well-formed.
use pathos_dacs_ref.Prelude.{
  ℕ, String, true, false, Option, none, some, List, [], ◌∷◌, ◌++◌, ◌≡◌, refl, ap, All, eq_iff,
  ==_iff, arith, ok, ◌>>=◌, require, ◌&&◌, inl, inr, Bool-cases, ◌==◌,
}
use pathos_dacs_ref.Platform.{Platform}
use pathos_dacs_ref.Ledger.Journal.{
  Field, missing, malformed, present, JournalRecord, Stored, no_snapshot, unreadable, stored, Disk,
  Lease, not_current, holds, disk_generation, assert_fence, lift_record, without, put_records, put,
  same_text, validate_journal_record,
}

-- The generation that a disk is at; without a snapshot it is 0.
abbrev pub IsAt : ℕ → Stored → Type 0
IsAt generation no_snapshot = 0 ≡ generation
IsAt generation unreadable = ⊥
IsAt generation (stored s) = s.generation ≡ generation

-- The generation and the token of a lease are those on disk.
abbrev pub Fenced : Lease → Disk → Type 0
Fenced lease disk = IsAt lease.generation disk.snapshot × (disk.lock ≡ some lease.token)

abbrev pub Fresh : Field String → List JournalRecord → Type 0
Fresh id rs = All (λ r. same_text r.write_id id ≡ false) rs

-- No two records are of one write.
abbrev pub Distinct : List JournalRecord → Type 0
Distinct [] = Unit
Distinct (r ∷ rs) = Fresh r.write_id rs × Distinct rs

same_text_comm : (a b : Field String) → same_text a b ≡ false → same_text b a ≡ false
same_text_comm missing missing h = h
same_text_comm missing malformed h = refl
same_text_comm missing (present s) h = refl
same_text_comm malformed missing h = refl
same_text_comm malformed malformed h = refl
same_text_comm malformed (present s) h = refl
same_text_comm (present s) missing h = refl
same_text_comm (present s) malformed h = refl
same_text_comm (present s) (present t) h = ground (arith, eq_iff s t, eq_iff t s)

without-Fresh : (id : Field String) (rs : List JournalRecord) → Fresh id (without id rs)
unfolding without
without-Fresh id [] = tt
without-Fresh id (r ∷ rs) = elim (Bool-cases (same_text r.write_id id)) [
  | inl e ↦ rw e (without-Fresh id rs)
  | inr e ↦ rw e (e, without-Fresh id rs)
]

without-All :
    (P : JournalRecord → Type 0) (id : Field String) (rs : List JournalRecord)
    → All P rs
    → All P (without id rs)
unfolding without
without-All P id [] h = tt
without-All P id (r ∷ rs) (p, ps) = elim (Bool-cases (same_text r.write_id id)) [
  | inl e ↦ rw e (without-All P id rs ps)
  | inr e ↦ rw e (p, without-All P id rs ps)
]

without-Distinct :
    (id : Field String) (rs : List JournalRecord) → Distinct rs → Distinct (without id rs)
unfolding without
without-Distinct id [] h = tt
without-Distinct id (r ∷ rs) (f, d) = elim (Bool-cases (same_text r.write_id id)) [
  | inl e ↦ rw e (without-Distinct id rs d)
  | inr e ↦ rw e (without-All _ id rs f, without-Distinct id rs d)
]

All-append :
    (P : JournalRecord → Type 0) (xs : List JournalRecord) (r : JournalRecord)
    → All P xs
    → P r
    → All P (xs ++ r ∷ [])
All-append P [] r h p = (p, tt)
All-append P (x ∷ xs) r (q, qs) p = (q, All-append P xs r qs p)

append-Distinct :
    (xs : List JournalRecord) (r : JournalRecord)
    → Distinct xs
    → Fresh r.write_id xs
    → Distinct (xs ++ r ∷ [])
append-Distinct [] r d f = (tt, tt)
append-Distinct (x ∷ xs) r (fx, d) (e, f) =
    (All-append _ xs r fx (same_text_comm x.write_id r.write_id e), append-Distinct xs r d f)

holds_token : (token : ℕ) (o : Option ℕ) → holds token o ≡ true → o ≡ some token
holds_token token none h = absurd cc
holds_token token (some t) h = ap some ((==_iff t token).0 h)

module _ (platform : Platform) (lease : Lease) (disk later : Disk) (r : JournalRecord) where
  -- Each record passes its validation under the lease, and no write has two.
  abbrev pub WellFormed : List JournalRecord → Type 0
  WellFormed rs =
      All (λ x. validate_journal_record platform x lease.generation lease.wallet ≡ ok tt) rs
      × Distinct rs

  stored_fence :
      (s : Stored) (lock : Option ℕ)
      → (disk_generation s >>= λ found.
          require (found == lease.generation && holds lease.token lock) not_current)
        ≡ ok tt
      → IsAt lease.generation s × (lock ≡ some lease.token)
  unfolding disk_generation
  stored_fence no_snapshot lock h =
      ((==_iff 0 lease.generation).0 (ground arith), holds_token lease.token lock (ground arith))
  stored_fence unreadable lock h = absurd cc
  stored_fence (stored s) lock h = (
    (==_iff s.generation lease.generation).0 (ground arith),
    holds_token lease.token lock (ground arith),
  )

  fence_sound : (d : Disk) → assert_fence lease.generation lease.token d ≡ ok tt → Fenced lease d
  unfolding assert_fence
  fence_sound d h = stored_fence d.snapshot d.lock h

  put_parts :
      (lease' : Lease) (disk' : Disk)
      → put platform lease disk later r ≡ ok (lease', disk')
      → (assert_fence lease.generation lease.token later ≡ ok tt)
        × (validate_journal_record platform r lease.generation lease.wallet ≡ ok tt)
        × (lease'.current.records ≡ put_records platform r lease.current.records)
        × (disk'.snapshot ≡ stored lease'.current)
  unfolding put lift_record
  put_parts lease' disk' h = (ground arith, ground arith, ground arith, ground arith)

  -- A put succeeds only if the lease is still the one on disk, by its generation and its token, just
  -- before the new snapshot replaces the old one; the disk then holds the snapshot of the lease.
  pub put-Fenced :
      (lease' : Lease) (disk' : Disk)
      → put platform lease disk later r ≡ ok (lease', disk')
      → Fenced lease later × (disk'.snapshot ≡ stored lease'.current)
  put-Fenced lease' disk' h = let w = put_parts lease' disk' h in (fence_sound later w.0, w.3)

  -- If the records of a lease are all valid and of distinct writes, then so are those after a put
  -- that succeeds.
  pub put-WellFormed :
      (lease' : Lease) (disk' : Disk)
      → WellFormed lease.current.records
      → put platform lease disk later r ≡ ok (lease', disk')
      → WellFormed lease'.current.records
  put-WellFormed lease' disk' (valid, distinct) h =
      let w = put_parts lease' disk' h in
      let rest = without r.write_id lease.current.records in
      rw w.2 (
        All-append _ rest r (without-All _ r.write_id lease.current.records valid) w.1,
        append-Distinct rest r (without-Distinct r.write_id lease.current.records distinct)
            (without-Fresh r.write_id lease.current.records),
      )
