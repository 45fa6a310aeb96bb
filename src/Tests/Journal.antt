-- ===== src/Tests/Journal.antt =====
-- `put` of the write journal at a prepared record.
use pathos_dacs_ref.Prelude.{false, some, [], ◌∷◌, ◌≡◌, refl, ok, throw}
use pathos_dacs_ref.Tests.Concrete.{plain}
use pathos_dacs_ref.Ledger.Journal.{
  missing, present, JournalRecord, Snapshot, stored, Disk, Lease, not_current,
  lacks_signed_transaction, validate_journal_record, put,
}
use pathos_dacs_ref.Ledger.Journal.Fence.{Fenced, WellFormed, put-Fenced, put-WellFormed}

abbrev prepared : JournalRecord
prepared = record {
  write_id = present "w1";
  generation = present 2;
  kind = "mutable";
  operation = "create";
  stage = present "prepared";
  logical_name = present "listing";
  program_name = present "program";
  owner = present "0xab";
  native_address = present "stor-1";
  value_hash = present "h";
  metadata_hash = missing;
  nonce = present 0;
  updated_at = present 1;
  tx_ref = missing;
  signed_transaction = missing;
  signed_transaction_hash = missing;
  block_number = missing;
  block_hash = missing;
  block_timestamp = missing;
  finality_proof = missing;
  finality_proof_hash = missing;
  native_read = missing;
  index_read = missing;
}

abbrev empty : Snapshot
empty = record { generation = 2; records = [] }

abbrev one : Snapshot
one = record { generation = 2; records = prepared ∷ [] }

abbrev lease : Lease
lease = record { token = 7; wallet = "0xab"; generation = 2; current = empty; released = false }

abbrev disk : Disk
disk = record { snapshot = stored empty; lock = some 7 }

-- another process has taken the wallet over
abbrev taken_over : Disk
taken_over = record { snapshot = stored (record { generation = 3; records = [] }); lock = some 8 }

abbrev lease_after : Lease
lease_after = record lease { current = one }

abbrev disk_after : Disk
disk_after = record disk { snapshot = stored one }

written : put plain lease disk disk prepared ≡ ok (lease_after, disk_after)
unfolding put validate_journal_record
written = refl

superseded : put plain lease disk taken_over prepared ≡ throw not_current
unfolding put validate_journal_record
superseded = refl

unsigned :
    validate_journal_record plain (record prepared { stage = present "signed" }) 2 "0xab"
    ≡ throw lacks_signed_transaction
unfolding validate_journal_record
unsigned = refl

put-Fenced_example : Fenced lease disk × (disk_after.snapshot ≡ stored one)
put-Fenced_example = put-Fenced plain lease disk disk prepared lease_after disk_after written

put-WellFormed_example : WellFormed plain lease disk disk prepared (prepared ∷ [])
put-WellFormed_example =
    put-WellFormed plain lease disk disk prepared lease_after disk_after (tt, tt) written
