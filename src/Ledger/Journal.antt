-- ===== src/Ledger/Journal.antt =====
-- src/live/run-ledger.ts: the records of `createFsDemosWriteJournal` and how a lease puts one.
pub mod Fence
use pathos_dacs_ref.Prelude.{
  ℕ, String, Bool, true, false, not, ◌&&◌, ◌||◌, Option, none, some, List, [], ◌∷◌, ◌++◌, str_eq,
  leb, ◌==◌, any, if◌then◌else◌, Result, ok, throw, ◌>>=◌, ◌>>◌, require,
}
use pathos_dacs_ref.Platform.{Platform}

-- A field of a JSON object. A number counts as malformed unless it is a non-negative safe integer.
pub data Field (A : Type 0) : Type 0 where
  missing malformed : Field A
  present : A → Field A

pub record NativeRead : Type 0 where
  pub owner : Field String
  pub program_name : Field String
  pub value_hash : Field String
  pub metadata_hash : Field String
  pub observed_at : Field ℕ

pub record IndexRead : Type 0 where
  pub address : Field String
  pub observed_at : Field ℕ

-- `kind` and `operation` are what `String` makes of these fields.
pub record JournalRecord : Type 0 where
  pub write_id : Field String
  pub generation : Field ℕ
  pub kind : String
  pub operation : String
  pub stage : Field String
  pub logical_name : Field String
  pub program_name : Field String
  pub owner : Field String
  pub native_address : Field String
  pub value_hash : Field String
  pub metadata_hash : Field String
  pub nonce : Field ℕ
  pub updated_at : Field ℕ
  pub tx_ref : Field String
  pub signed_transaction : Field String
  pub signed_transaction_hash : Field String
  pub block_number : Field ℕ
  pub block_hash : Field String
  pub block_timestamp : Field ℕ
  pub finality_proof : Field String
  pub finality_proof_hash : Field String
  pub native_read : Field NativeRead
  pub index_read : Field IndexRead

pub data RecordError : Type 0 where
  invalid_fields lacks_signed_transaction lacks_block_evidence invalid_native_read
        unbound_native_read lacks_native_read invalid_index_read unbound_index_read
        lacks_index_read :
      RecordError

abbrev pub is_present : {A : Type 0} → Field A → Bool
is_present (present _) = true
is_present _ = false

abbrev pub is_missing : {A : Type 0} → Field A → Bool
is_missing missing = true
is_missing _ = false

-- `a === b` of two fields that are texts or missing; objects are never the same
abbrev pub same_text : Field String → Field String → Bool
same_text missing missing = true
same_text (present s) (present t) = str_eq s t
same_text _ _ = false

-- `nonNegativeInteger`
abbrev pub is_number : Field ℕ → Bool
is_number f = is_present f

abbrev optional_number : Field ℕ → Bool
optional_number f = is_missing f || is_present f

abbrev in_generations : Field ℕ → ℕ → Bool
in_generations (present g) last = not (g == 0) && leb g last
in_generations _ last = false

abbrev pub among : List String → Field String → Bool
among names (present s) = any (λ n. str_eq n s) names
among names _ = false

abbrev stages : List String
stages =
    "prepared" ∷ "signed" ∷ "broadcast-intent" ∷ "canonical-confirmed" ∷ "canonical-failed"
    ∷ "native-visible" ∷ "index-visible" ∷ []

abbrev pub confirmed_stages : List String
confirmed_stages = "canonical-confirmed" ∷ "native-visible" ∷ "index-visible" ∷ []

abbrev pub visible_stages : List String
visible_stages = "native-visible" ∷ "index-visible" ∷ []

module _ (platform : Platform) where
  -- `nonEmpty`
  abbrev pub non_empty : Field String → Bool
  non_empty (present s) = not (str_eq s "") && str_eq (platform.trim s) s
  non_empty _ = false

  -- `validOptionalString`
  abbrev optional_text : Field String → Bool
  optional_text f = is_missing f || non_empty f

  -- `a.toLowerCase() === b.toLowerCase()` of a non-empty text
  abbrev pub same_owner : Field String → Field String → Bool
  same_owner (present a) (present b) = str_eq (platform.to_lower a) (platform.to_lower b)
  same_owner _ _ = false

  valid_fields : JournalRecord → ℕ → String → Bool
  valid_fields r last wallet =
      non_empty r.write_id
      && (in_generations r.generation last
          && ((str_eq r.kind "mutable" || str_eq r.kind "immutable")
              && ((str_eq r.operation "create" || str_eq r.operation "update")
                  && (among stages r.stage
                      && (non_empty r.logical_name
                          && (non_empty r.program_name
                              && (non_empty r.owner
                                  && (same_owner r.owner (present wallet)
                                      && (non_empty r.native_address
                                          && (non_empty r.value_hash
                                              && (optional_text r.metadata_hash
                                                  && (is_number r.nonce
                                                      && (is_number r.updated_at
                                                          && (optional_text r.tx_ref
                                                            && (optional_text r.signed_transaction
                                                            && (optional_text
                                                            r.signed_transaction_hash
                                                            && (optional_number r.block_number
                                                            && (optional_text r.block_hash
                                                            && (optional_number r.block_timestamp
                                                            && (optional_text r.finality_proof
                                                            && optional_text
                                                            r.finality_proof_hash))))))))))))))))))))

  abbrev pub signed : JournalRecord → Bool
  signed r =
      non_empty r.tx_ref && (non_empty r.signed_transaction && non_empty r.signed_transaction_hash)

  abbrev pub has_block : JournalRecord → Bool
  has_block r =
      is_number r.block_number
      && (non_empty r.block_hash
          && (is_number r.block_timestamp
              && (non_empty r.finality_proof && non_empty r.finality_proof_hash)))

  abbrev pub binds_native : JournalRecord → NativeRead → Bool
  binds_native r n =
      non_empty n.owner
      && (same_owner n.owner r.owner
          && (same_text n.program_name r.program_name
              && (same_text n.value_hash r.value_hash
                  && (same_text n.metadata_hash r.metadata_hash && is_number n.observed_at))))

  abbrev pub binds_index : JournalRecord → IndexRead → Bool
  binds_index r i = same_text i.address r.native_address && is_number i.observed_at

  check_native : JournalRecord → Field NativeRead → Result RecordError (Unit {0})
  check_native r missing = require (not (among visible_stages r.stage)) lacks_native_read
  check_native r malformed = throw invalid_native_read
  check_native r (present n) = require (binds_native r n) unbound_native_read

  check_index : JournalRecord → Field IndexRead → Result RecordError (Unit {0})
  check_index r missing = require (not (among ("index-visible" ∷ []) r.stage)) lacks_index_read
  check_index r malformed = throw invalid_index_read
  check_index r (present i) = require (binds_index r i) unbound_index_read

  -- `validateJournalRecord`, of a value that is an object
  unfoldable pub validate_journal_record :
      JournalRecord → (last : ℕ) → (wallet : String) → Result RecordError (Unit {0})
  unfolding valid_fields check_native check_index
  validate_journal_record r last wallet = do
    require (valid_fields r last wallet) invalid_fields
    require (among ("prepared" ∷ []) r.stage || signed r) lacks_signed_transaction
    require (not (among confirmed_stages r.stage) || has_block r) lacks_block_evidence
    check_native r r.native_read
    check_index r r.index_read

pub record Snapshot : Type 0 where
  pub generation : ℕ
  pub records : List JournalRecord

-- what `readSnapshot` finds; an unreadable snapshot throws
pub data Stored : Type 0 where
  no_snapshot unreadable : Stored
  stored : Snapshot → Stored

-- The files of one wallet: the snapshot, and the token in the lock.
pub record Disk : Type 0 where
  pub snapshot : Stored
  pub lock : Option ℕ

pub record Lease : Type 0 where
  pub token : ℕ
  pub wallet : String
  pub generation : ℕ
  pub current : Snapshot
  pub released : Bool

pub data PutError : Type 0 where
  lease_released not_current snapshot_unreadable wrong_generation : PutError
  invalid_record : RecordError → PutError

abbrev pub holds : ℕ → Option ℕ → Bool
holds token none = false
holds token (some t) = t == token

disk_generation : Stored → Result PutError ℕ
disk_generation no_snapshot = ok 0
disk_generation unreadable = throw snapshot_unreadable
disk_generation (stored s) = ok s.generation

-- `assertFence`
assert_fence : (generation token : ℕ) → Disk → Result PutError (Unit {0})
unfolding disk_generation
assert_fence generation token disk = do
  found ← disk_generation disk.snapshot
  require (found == generation && holds token disk.lock) not_current

abbrev pub is_generation : ℕ → Field ℕ → Bool
is_generation generation (present g) = g == generation
is_generation generation _ = false

lift_record : Result RecordError (Unit {0}) → Result PutError (Unit {0})
lift_record (ok u) = ok tt
lift_record (throw e) = throw (invalid_record e)

-- the records without the one of that write, and the new one behind them
pub without : Field String → List JournalRecord → List JournalRecord
without id [] = []
without id (r ∷ rs) = let rest = without id rs in if same_text r.write_id id then rest else r ∷ rest

module _ (platform : Platform) where
  abbrev pub put_records : JournalRecord → List JournalRecord → List JournalRecord
  put_records r rs = without r.write_id rs ++ r ∷ []

  -- `put`: `disk` is the state at its first check of the fence, `later` the one at the second,
  -- just before the new snapshot replaces the old one.
  unfoldable pub put : Lease → (disk later : Disk) → JournalRecord → Result PutError (Lease × Disk)
  unfolding assert_fence lift_record without
  put lease disk later r = do
    require (not lease.released) lease_released
    assert_fence lease.generation lease.token disk
    require (is_generation lease.generation r.generation) wrong_generation
    lift_record (validate_journal_record platform r lease.generation lease.wallet)
    assert_fence lease.generation lease.token later
    let next : Snapshot = record lease.current { records = put_records r lease.current.records }
    ok (record lease { current = next }, record later { snapshot = stored next })
