-- ===== src/WriteBatch/RecordType.antt =====
-- write_batch.go: the record types, by the names of the Go constants less their affixes.
use grocksdb.Base.{ℕ}

abbrev pub deletion : ℕ
deletion = 0x0

abbrev pub value : ℕ
value = 0x1

abbrev pub merge : ℕ
merge = 0x2

abbrev pub log_data : ℕ
log_data = 0x3

abbrev pub cf_deletion : ℕ
cf_deletion = 0x4

abbrev pub cf_value : ℕ
cf_value = 0x5

abbrev pub cf_merge : ℕ
cf_merge = 0x6

abbrev pub single_deletion : ℕ
single_deletion = 0x7

abbrev pub cf_single_deletion : ℕ
cf_single_deletion = 0x8

abbrev pub begin_prepare_xid : ℕ
begin_prepare_xid = 0x9

abbrev pub end_prepare_xid : ℕ
end_prepare_xid = 0xA

abbrev pub commit_xid : ℕ
commit_xid = 0xB

abbrev pub rollback_xid : ℕ
rollback_xid = 0xC

abbrev pub noop : ℕ
noop = 0xD

abbrev pub cf_range_deletion : ℕ
cf_range_deletion = 0xE

abbrev pub range_deletion : ℕ
range_deletion = 0xF

abbrev pub cf_blob_index : ℕ
cf_blob_index = 0x10

abbrev pub blob_index : ℕ
blob_index = 0x11

abbrev pub begin_persisted_prepare_xid : ℕ
begin_persisted_prepare_xid = 0x12

abbrev pub not_used : ℕ
not_used = 0x7F
