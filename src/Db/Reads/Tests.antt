-- ===== src/Db/Reads/Tests.antt =====
-- The reads at a concrete RocksDB, which answers once and then fails.
use grocksdb.Base.{◌+◌, ◌==◌, if◌then◌else◌, ℕ, Option, some, Bytes, arith}
use grocksdb.Cgo.{Reply, failed, replied}
use grocksdb.Fixtures.{
  a_db, a_column_family_handle, handle_reply, a_read_options, value_reply, small, small-IsValid,
  letter_a, letters_bc,
}
use grocksdb.Db.Reads.{ReadApi, reads-Fetches, FetchesReads}
use grocksdb.Db.Reads.{get_bytes, get_bytes-Copies}
use grocksdb.Db.History.{
  HistoryApi, HistoryRead, get_full_history_ts_low, get_full_history_ts_low_faults,
}
use grocksdb.Slice.Copies.{Copies, Fits}

abbrev pair_reply : ℕ → Reply (Option Bytes × Option Bytes)
pair_reply s = if s == 0 then replied (some letters_bc, some letter_a) else failed letter_a

abbrev read_api : ReadApi ℕ
read_api = record {
  rocksdb_key_may_exist = λ a0 a1 a2 a3 s. (some letter_a, s + 1);
  rocksdb_key_may_exist_cf = λ a0 a1 a2 a3 a4 s. (some letter_a, s + 2);
  rocksdb_get = λ a0 a1 a2 s. (value_reply s, s + 3);
  rocksdb_get_with_ts = λ a0 a1 a2 s. (pair_reply s, s + 4);
  rocksdb_get_with_current_ts = λ a0 a1 s. (value_reply s, s + 5);
  rocksdb_get_with_uint64_ts = λ a0 a1 a2 s. (value_reply s, s + 6);
  rocksdb_get_with_fixed64_ts = λ a0 a1 a2 s. (value_reply s, s + 7);
  rocksdb_get_cf = λ a0 a1 a2 a3 s. (value_reply s, s + 8);
  rocksdb_get_cf_with_ts = λ a0 a1 a2 a3 s. (pair_reply s, s + 9);
  rocksdb_get_pinned = λ a0 a1 a2 s. (handle_reply s, s + 10);
  rocksdb_get_pinned_cf = λ a0 a1 a2 a3 s. (handle_reply s, s + 11);
}

reads-Fetches_example :
    FetchesReads read_api a_db a_read_options letter_a letters_bc a_column_family_handle 7
      letters_bc small
reads-Fetches_example =
    reads-Fetches read_api a_db a_read_options letter_a letters_bc a_column_family_handle 7
      letters_bc small small-IsValid

get_bytes-Copies_example :
    Copies small
      (get_bytes read_api a_db a_read_options letter_a)
      (read_api.rocksdb_get 5 5 letter_a)
unfolding Fits
get_bytes-Copies_example =
    get_bytes-Copies read_api a_db a_read_options letter_a small small-IsValid (omega arith)

abbrev history_api : HistoryApi ℕ
history_api = record { rocksdb_get_full_history_ts_low = λ a0 a1 s. (failed letter_a, s + 1) }

get_full_history_ts_low_faults_example :
    HistoryRead small
      (get_full_history_ts_low history_api a_db a_column_family_handle small)
      (failed letter_a)
get_full_history_ts_low_faults_example =
    get_full_history_ts_low_faults history_api a_db a_column_family_handle small small-IsValid
