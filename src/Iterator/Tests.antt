-- ===== src/Iterator/Tests.antt =====
-- The forwarding theorems at a concrete RocksDB, which fails when its count is 0.
use grocksdb.Base.{◌+◌, ℕ}
use grocksdb.Fixtures.{small, small-IsValid, letter_a, failure}
use grocksdb.Iterator.Moves.{MoveApi, moves-Affects, ForwardsMoves}
use grocksdb.Types.{Iterator}

abbrev a_iterator : Iterator
a_iterator = record { c = 5 }

abbrev move_api : MoveApi ℕ
move_api = record {
  rocksdb_iter_next = λ a0 s. s + 1;
  rocksdb_iter_prev = λ a0 s. s + 2;
  rocksdb_iter_seek_to_first = λ a0 s. s + 3;
  rocksdb_iter_seek_to_last = λ a0 s. s + 4;
  rocksdb_iter_seek = λ a0 a1 s. s + 5;
  rocksdb_iter_seek_for_prev = λ a0 a1 s. s + 6;
  rocksdb_iter_get_error = λ a0 s. (failure s, s + 7);
}

moves-Affects_example : ForwardsMoves move_api a_iterator letter_a small
moves-Affects_example = moves-Affects move_api a_iterator letter_a small small-IsValid
