-- ===== src/SstFileWriter.antt =====
-- sst_file_writer.go: the operations on an open file.
mod Tests
use grocksdb.Base.{Option, Bytes, length}
use grocksdb.Cgo.{Ptr, Cmd, World, Status, ◌>>=◌, call_status}
use grocksdb.Cgo.Returns.{IsValid}
use grocksdb.Util.{ref_go_bytes, c_view, from_c_error}
use grocksdb.Util.Strings.{c_view-ref_go_bytes}
use grocksdb.Util.Relay.{Relays, relay}
use grocksdb.Types.{SstFileWriter}

-- The C functions that are called here.
pub record SstFileWriterApi (S : Type 0) : Type 0 where
  pub rocksdb_sstfilewriter_add : Ptr → Bytes → Bytes → S → Status × S
  pub rocksdb_sstfilewriter_put : Ptr → Bytes → Bytes → S → Status × S
  pub rocksdb_sstfilewriter_put_with_ts : Ptr → Bytes → Bytes → Bytes → S → Status × S
  pub rocksdb_sstfilewriter_merge : Ptr → Bytes → Bytes → S → Status × S
  pub rocksdb_sstfilewriter_delete : Ptr → Bytes → S → Status × S
  pub rocksdb_sstfilewriter_delete_with_ts : Ptr → Bytes → Bytes → S → Status × S
  pub rocksdb_sstfilewriter_delete_range : Ptr → Bytes → Bytes → S → Status × S
  pub rocksdb_sstfilewriter_delete_range_with_ts : Ptr → Bytes → Bytes → Bytes → S → Status × S
  pub rocksdb_sstfilewriter_finish : Ptr → S → Status × S

module _ {S : Type 0} (api : SstFileWriterApi S) where
  open api use {
    rocksdb_sstfilewriter_add, rocksdb_sstfilewriter_put, rocksdb_sstfilewriter_put_with_ts,
    rocksdb_sstfilewriter_merge, rocksdb_sstfilewriter_delete, rocksdb_sstfilewriter_delete_with_ts,
    rocksdb_sstfilewriter_delete_range, rocksdb_sstfilewriter_delete_range_with_ts,
    rocksdb_sstfilewriter_finish,
  }

  unfoldable pub add : (writer : SstFileWriter) (key value : Bytes) → Cmd S (Option Bytes)
  add writer key value = do
    let c_key = ref_go_bytes key
    let c_value = ref_go_bytes value
    c_err ← call_status (
        rocksdb_sstfilewriter_add writer.c (c_view c_key (length key))
          (c_view c_value (length value)))
    from_c_error c_err

  unfoldable pub put : (writer : SstFileWriter) (key value : Bytes) → Cmd S (Option Bytes)
  put writer key value = do
    let c_key = ref_go_bytes key
    let c_value = ref_go_bytes value
    c_err ← call_status (
        rocksdb_sstfilewriter_put writer.c (c_view c_key (length key))
          (c_view c_value (length value)))
    from_c_error c_err

  unfoldable pub put_with_ts :
      (writer : SstFileWriter) (key ts value : Bytes) → Cmd S (Option Bytes)
  put_with_ts writer key ts value = do
    let c_key = ref_go_bytes key
    let c_value = ref_go_bytes value
    let c_ts = ref_go_bytes ts
    c_err ← call_status (
        rocksdb_sstfilewriter_put_with_ts writer.c (c_view c_key (length key))
          (c_view c_ts (length ts)) (c_view c_value (length value)))
    from_c_error c_err

  unfoldable pub merge : (writer : SstFileWriter) (key value : Bytes) → Cmd S (Option Bytes)
  merge writer key value = do
    let c_key = ref_go_bytes key
    let c_value = ref_go_bytes value
    c_err ← call_status (
        rocksdb_sstfilewriter_merge writer.c (c_view c_key (length key))
          (c_view c_value (length value)))
    from_c_error c_err

  unfoldable pub delete : (writer : SstFileWriter) (key : Bytes) → Cmd S (Option Bytes)
  delete writer key = do
    let c_key = ref_go_bytes key
    c_err ← call_status (rocksdb_sstfilewriter_delete writer.c (c_view c_key (length key)))
    from_c_error c_err

  unfoldable pub delete_with_ts : (writer : SstFileWriter) (key ts : Bytes) → Cmd S (Option Bytes)
  delete_with_ts writer key ts = do
    let c_key = ref_go_bytes key
    let c_ts = ref_go_bytes ts
    c_err ← call_status (
        rocksdb_sstfilewriter_delete_with_ts writer.c (c_view c_key (length key))
          (c_view c_ts (length ts)))
    from_c_error c_err

  unfoldable pub delete_range :
      (writer : SstFileWriter) (start_key end_key : Bytes) → Cmd S (Option Bytes)
  delete_range writer start_key end_key = do
    let c_start_key = ref_go_bytes start_key
    let c_end_key = ref_go_bytes end_key
    c_err ← call_status (
        rocksdb_sstfilewriter_delete_range writer.c (c_view c_start_key (length start_key))
          (c_view c_end_key (length end_key)))
    from_c_error c_err

  unfoldable pub delete_range_with_ts :
      (writer : SstFileWriter) (start_key end_key ts : Bytes) → Cmd S (Option Bytes)
  delete_range_with_ts writer start_key end_key ts = do
    let c_start_key = ref_go_bytes start_key
    let c_end_key = ref_go_bytes end_key
    let c_ts = ref_go_bytes ts
    c_err ← call_status (
        rocksdb_sstfilewriter_delete_range_with_ts writer.c (c_view c_start_key (length start_key))
          (c_view c_end_key (length end_key)) (c_view c_ts (length ts)))
    from_c_error c_err

  unfoldable pub finish : (writer : SstFileWriter) → Cmd S (Option Bytes)
  finish writer = do c_err ← call_status (rocksdb_sstfilewriter_finish writer.c); from_c_error c_err

  abbrev pub ForwardsSst :
      (writer : SstFileWriter) (key value ts start_key end_key : Bytes) (w : World S) → Type 0
  ForwardsSst writer key value ts start_key end_key w =
      Relays w (add writer key value) (rocksdb_sstfilewriter_add writer.c key value)
      × Relays w (put writer key value) (rocksdb_sstfilewriter_put writer.c key value)
      × Relays w (put_with_ts writer key ts value)
          (rocksdb_sstfilewriter_put_with_ts writer.c key ts value)
      × Relays w (merge writer key value) (rocksdb_sstfilewriter_merge writer.c key value)
      × Relays w (delete writer key) (rocksdb_sstfilewriter_delete writer.c key)
      × Relays w (delete_with_ts writer key ts)
          (rocksdb_sstfilewriter_delete_with_ts writer.c key ts)
      × Relays w (delete_range writer start_key end_key)
          (rocksdb_sstfilewriter_delete_range writer.c start_key end_key)
      × Relays w (delete_range_with_ts writer start_key end_key ts)
          (rocksdb_sstfilewriter_delete_range_with_ts writer.c start_key end_key ts)
      × Relays w (finish writer) (rocksdb_sstfilewriter_finish writer.c)

  -- Every operation on an open SST file runs without a fault, hands
  -- RocksDB exactly the bytes of the keys and values that it is given, returns RocksDB's failure as an
  -- error and nil otherwise, and leaves the C heap as it was: the message is freed.
  pub sst_file_writer-Relays :
      (writer : SstFileWriter) (key value ts start_key end_key : Bytes) (w : World S)
      → IsValid w
      → ForwardsSst writer key value ts start_key end_key w
  unfolding add put put_with_ts merge delete delete_with_ts delete_range delete_range_with_ts finish
  sst_file_writer-Relays writer key value ts start_key end_key w valid = simp c_view-ref_go_bytes (
    relay _ w valid,
    relay _ w valid,
    relay _ w valid,
    relay _ w valid,
    relay _ w valid,
    relay _ w valid,
    relay _ w valid,
    relay _ w valid,
    relay _ w valid,
  )
