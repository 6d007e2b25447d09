-- ===== src/Db/Opening/Tests.antt =====
-- Openings at a concrete RocksDB, which answers once and then fails.
use grocksdb.Base.{ℕ, ◌+◌, true}
use grocksdb.Base.Int.{pos}
use grocksdb.Fixtures.{
  an_options, handle_reply, small, small-IsValid, letter_a, letters_bc, failure,
}
use grocksdb.Types.{Db}
use grocksdb.Db.Opening.{OpenApi, Opening, open_db-Opens}

abbrev a_db : Db
a_db = record { c = 5; name = letter_a; opts = an_options }

abbrev open_api : OpenApi ℕ
open_api = record {
  rocksdb_open = λ a0 a1 s. (handle_reply s, s + 1);
  rocksdb_open_with_ttl = λ a0 a1 a2 s. (handle_reply s, s + 2);
  rocksdb_open_for_read_only = λ a0 a1 a2 s. (handle_reply s, s + 3);
  rocksdb_create_column_family = λ a0 a1 a2 s. (handle_reply s, s + 4);
  rocksdb_create_column_family_with_ttl = λ a0 a1 a2 a3 s. (handle_reply s, s + 5);
  rocksdb_destroy_db = λ a0 a1 s. (failure s, s + 6);
  rocksdb_repair_db = λ a0 a1 s. (failure s, s + 7);
  rocksdb_delete_file = λ a b s. s + 9;
}

open_db-Opens_example : Opening open_api a_db an_options letters_bc (pos 60) true small
open_db-Opens_example =
    open_db-Opens open_api a_db an_options letters_bc (pos 60) true small small-IsValid
