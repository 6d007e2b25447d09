-- ===== src/Db/Families/Tests.antt =====
-- Column families and files at a concrete RocksDB.
use grocksdb.Base.{ℕ, ◌+◌, ◌==◌, if◌then◌else◌, true, List, [], ◌∷◌, Bytes}
use grocksdb.Cgo.{Reply, failed, replied}
use grocksdb.Util.{bool_to_char}
use grocksdb.Fixtures.{
  an_options, a_handle, handle_reply, small, small-IsValid, letter_a, letters_bc, failure,
}
use grocksdb.Types.{Db, Options, IngestExternalFileOptions}
use grocksdb.Base.Int.{pos}
use grocksdb.Cgo.{until_nul}
use grocksdb.Util.Opens.{Opens}
use grocksdb.Db.Opening.{new_db}
use grocksdb.Db.Families.Others.{
  OtherOpenApi, OpensWithTtl, open_db_column_families_with_ttl, open_db_as_secondary, others-Open,
}
use grocksdb.Db.Families.{
  Families, FamiliesApi, c_opts, open_db_column_families, open_db_for_read_only_column_families,
  open_db_and_trim_history, ingest_external_file, ingest_external_file_cf,
}
use grocksdb.Db.Families.Opens.{
  OpensFamilies, Ingests, families-Opens, ingest_external_file-Ingests,
}

abbrev a_db : Db
a_db = record { c = 5; name = letter_a; opts = an_options }

abbrev ingest_options : IngestExternalFileOptions
ingest_options = record { c = 7 }

abbrev families_reply : ℕ → Reply Families
families_reply s = if s == 0 then replied (9, 10 ∷ 11 ∷ []) else failed letter_a

abbrev families_api : FamiliesApi ℕ
families_api = record {
  rocksdb_open_column_families = λ a b c d s. (families_reply s, s + 1);
  rocksdb_open_for_read_only_column_families = λ a b c d e s. (families_reply s, s + 2);
  rocksdb_open_and_trim_history = λ a b c d e s. (families_reply s, s + 3);
  rocksdb_ingest_external_file = λ a b c s. (failure s, s + 4);
  rocksdb_ingest_external_file_cf = λ a b c d s. (failure s, s + 5);
}

abbrev two_names : List Bytes
two_names = letter_a ∷ letters_bc ∷ []

abbrev two_options : List Options
two_options = an_options ∷ an_options ∷ []

families-Opens_example :
    OpensFamilies true small
      (new_db an_options letters_bc)
      letters_bc
      two_names
      (open_db_column_families families_api an_options letters_bc two_names two_options)
      (λ t ts. families_api.rocksdb_open_column_families 5 t ts (c_opts two_options))
    × OpensFamilies true small
        (new_db an_options letters_bc)
        letters_bc
        two_names
        (open_db_for_read_only_column_families families_api an_options letters_bc two_names
          two_options true)
        (λ t ts.
          families_api.rocksdb_open_for_read_only_column_families 5 t ts
            (c_opts two_options)
            (bool_to_char true))
    × OpensFamilies true small
        (new_db an_options letters_bc)
        letters_bc
        two_names
        (open_db_and_trim_history families_api an_options letters_bc two_names two_options letter_a)
        (λ t ts. families_api.rocksdb_open_and_trim_history 5 t ts (c_opts two_options) letter_a)
families-Opens_example =
    families-Opens families_api an_options letters_bc two_names two_options true letter_a small
      small-IsValid

ingest_external_file-Ingests_example :
    Ingests small two_names
      (ingest_external_file families_api a_db two_names ingest_options)
      (λ ts. families_api.rocksdb_ingest_external_file 5 ts 7)
    × Ingests small two_names
        (ingest_external_file_cf families_api a_db a_handle two_names ingest_options)
        (λ ts. families_api.rocksdb_ingest_external_file_cf 5 6 ts 7)
ingest_external_file-Ingests_example =
    ingest_external_file-Ingests families_api a_db a_handle two_names ingest_options small
      small-IsValid

abbrev other_api : OtherOpenApi ℕ
other_api = record {
  rocksdb_open_column_families_with_ttl = λ a b c d e s. (families_reply s, s + 1);
  rocksdb_open_as_secondary = λ a b c s. (handle_reply s, s + 2);
}

others-Open_example :
    OpensWithTtl other_api true small an_options letters_bc two_names two_options
      (pos 1 ∷ pos 2 ∷ [])
      (open_db_column_families_with_ttl other_api an_options letters_bc two_names two_options
        (pos 1 ∷ pos 2 ∷ []))
    × Opens
        (new_db an_options letters_bc)
        small
        (open_db_as_secondary other_api an_options letters_bc letter_a)
        (other_api.rocksdb_open_as_secondary 5 letters_bc letter_a)
unfolding until_nul
others-Open_example =
    others-Open other_api an_options letters_bc letter_a two_names two_options (pos 1 ∷ pos 2 ∷ [])
      small small-IsValid
