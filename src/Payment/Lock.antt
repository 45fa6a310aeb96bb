-- ===== src/Payment/Lock.antt =====
-- src/live/pay-dem-journal.ts: the lock file beside the payment journal.
-- A call of `acquirePayDemJournalLock` is one step: of two processes that both find a stale lock,
-- one may take away the fresh file of the other in the source, and that race is not modelled. What
-- the file system and the operating system answer stands in a `View`; the sync of the directory and
-- the removal of a stale file that was renamed are taken to work.
use pathos_dacs_ref.Prelude.{
  ℕ, ◌-◌, ◌*◌, String, Bool, true, false, not, ◌&&◌, Option, none, some, ltb, leb, str_eq, ◌≡◌,
  refl, if◌then◌else◌, arith, eq_iff, Bool-cases, ap, inl, inr,
}

-- `PayDemLockOwner`
pub record Owner : Type 0 where
  pub token : String
  pub pid : ℕ
  pub hostname : String
  pub created_at : ℕ

-- The owner, `none` if `readLockOwner` cannot read one, and the time of the last change.
pub record LockFile : Type 0 where
  pub owner : Option Owner
  pub modified : ℕ

-- One caller, by the owner it would write, and what it meets: the time at the test of staleness,
-- the processes that `process.kill(pid, 0)` finds, and which file operations work.
pub record View : Type 0 where
  pub me : Owner
  pub now : ℕ
  pub finds : ℕ → Bool
  pub can_stat : Bool
  pub can_rename : Bool
  pub can_create : Bool

-- `LOCK_STALE_MS`
abbrev stale_ms : ℕ
stale_ms = 60 * 60 * 1000

-- `processIsAlive`, for a safe positive integer
unfoldable pub process_is_alive : View → ℕ → Bool
process_is_alive view pid = ltb 0 pid && leb pid 9007199254740991 && view.finds pid

-- the test of the owner, or of the file's age if there is none
is_stale : View → Option Owner → ℕ → Bool
unfolding process_is_alive
is_stale view none modified = view.can_stat && leb stale_ms (view.now - modified)
is_stale view (some owner) modified =
    if str_eq owner.hostname view.me.hostname
    then not (process_is_alive view owner.pid)
    else leb stale_ms (view.now - owner.created_at)

-- `tryCreateLock` where there is no file: a failed write takes the file away again
create_lock : View → Bool × Option LockFile
create_lock view = (
  view.can_create,
  if view.can_create then some (record { owner = some view.me; modified = view.now }) else none,
)

-- `acquirePayDemJournalLock`: whether it returns a lease, and the lock file afterwards.
unfoldable pub acquire_pay_dem_journal_lock : View → Option LockFile → Bool × Option LockFile
unfolding is_stale create_lock
acquire_pay_dem_journal_lock view none = create_lock view
acquire_pay_dem_journal_lock view (some file) =
    if is_stale view file.owner file.modified && view.can_rename
    then create_lock view
    else (false, some file)

-- whether the file is one that the owner of this token wrote
abbrev owned_by : String → Option Owner → Bool
owned_by token none = false
owned_by token (some owner) = str_eq owner.token token

-- The `release` of a lease that was not released before: whether it returns.
unfoldable pub release_lease : String → (can_unlink : Bool) → Option LockFile → Bool
release_lease token can_unlink none = false
release_lease token can_unlink (some file) = owned_by token file.owner && can_unlink

-- Every lock file was written by a process on `host`, and its owner can be read.
abbrev pub IsLocal : String → Option LockFile → Type 0
IsLocal host none = Unit
IsLocal host (some file) = (owner : Owner) × (file.owner ≡ some owner) × (owner.hostname ≡ host)

-- The process that wrote the lock file, if there is one, is running.
abbrev pub OwnerRuns : View → Option LockFile → Type 0
OwnerRuns view none = Unit
OwnerRuns view (some file) =
    (owner : Owner) → file.owner ≡ some owner → process_is_alive view owner.pid ≡ true

abbrev pub is_held : Option LockFile → Bool
is_held none = false
is_held (some _) = true

module _ (host : String) (view : View) (here : view.me.hostname ≡ host) where
  -- A lock file of a running process of this host is left alone.
  held_refused :
      (file : LockFile)
      → IsLocal host (some file)
      → OwnerRuns view (some file)
      → acquire_pay_dem_journal_lock view (some file) ≡ (false, some file)
  unfolding acquire_pay_dem_journal_lock process_is_alive
  held_refused file (owner, e, at) runs =
      rw e (ground (arith, here, at, runs owner e, eq_iff owner.hostname view.me.hostname))

  pub granted_free :
      (lock : Option LockFile)
      → IsLocal host lock
      → OwnerRuns view lock
      → (acquire_pay_dem_journal_lock view lock).0 ≡ true
      → is_held lock ≡ false
  granted_free none l r granted = refl
  granted_free (some file) l r granted =
      let refused = held_refused file l r in absurd (ground (arith, refused))

  pub granted_held :
      (lock : Option LockFile)
      → (acquire_pay_dem_journal_lock view lock).0 ≡ true
      → is_held (acquire_pay_dem_journal_lock view lock).1 ≡ true
  unfolding acquire_pay_dem_journal_lock
  granted_held none granted = ground arith
  granted_held (some file) granted = ground arith

  pub refused_same :
      (lock : Option LockFile)
      → IsLocal host lock
      → OwnerRuns view lock
      → (acquire_pay_dem_journal_lock view lock).0 ≡ false
      → (acquire_pay_dem_journal_lock view lock).1 ≡ lock
  unfolding acquire_pay_dem_journal_lock
  refused_same none l r refused = ground arith
  refused_same (some file) l r refused = ap (λ x. x.1) (held_refused file l r)

  created-IsLocal : IsLocal host (create_lock view).1
  unfolding create_lock
  created-IsLocal = elim (Bool-cases view.can_create) [
    | inl t ↦ rw t (view.me, refl, here)
    | inr f ↦ rw f tt
  ]

  pub acquired-IsLocal :
      (lock : Option LockFile)
      → IsLocal host lock
      → IsLocal host (acquire_pay_dem_journal_lock view lock).1
  unfolding acquire_pay_dem_journal_lock
  acquired-IsLocal none l = created-IsLocal
  acquired-IsLocal (some file) l =
      elim (Bool-cases (is_stale view file.owner file.modified && view.can_rename)) [
        | inl t ↦ rw t created-IsLocal
        | inr f ↦ rw f l
      ]
