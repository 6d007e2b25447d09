-- ===== src/SstFileWriter/Tests.antt =====
-- The forwarding theorems at a concrete RocksDB, which fails when its count is 0.
use grocksdb.Base.{◌+◌, ℕ}
use grocksdb.Fixtures.{small, small-IsValid, letter_a, letters_bc, failure}
use grocksdb.SstFileWriter.{SstFileWriterApi, sst_file_writer-Relays, ForwardsSst}
use grocksdb.Types.{SstFileWriter}

abbrev a_sst_file_writer : SstFileWriter
a_sst_file_writer = record { c = 5 }

abbrev sst_file_writer_api : SstFileWriterApi ℕ
sst_file_writer_api = record {
  rocksdb_sstfilewriter_add = λ a0 a1 a2 s. (failure s, s + 1);
  rocksdb_sstfilewriter_put = λ a0 a1 a2 s. (failure s, s + 2);
  rocksdb_sstfilewriter_put_with_ts = λ a0 a1 a2 a3 s. (failure s, s + 3);
  rocksdb_sstfilewriter_merge = λ a0 a1 a2 s. (failure s, s + 4);
  rocksdb_sstfilewriter_delete = λ a0 a1 s. (failure s, s + 5);
  rocksdb_sstfilewriter_delete_with_ts = λ a0 a1 a2 s. (failure s, s + 6);
  rocksdb_sstfilewriter_delete_range = λ a0 a1 a2 s. (failure s, s + 7);
  rocksdb_sstfilewriter_delete_range_with_ts = λ a0 a1 a2 a3 s. (failure s, s + 8);
  rocksdb_sstfilewriter_finish = λ a0 s. (failure s, s + 9);
}

sst_file_writer-Relays_example :
    ForwardsSst sst_file_writer_api a_sst_file_writer letter_a letters_bc letter_a letter_a
      letters_bc small
sst_file_writer-Relays_example =
    sst_file_writer-Relays sst_file_writer_api a_sst_file_writer letter_a letters_bc letter_a
      letter_a letters_bc small small-IsValid
