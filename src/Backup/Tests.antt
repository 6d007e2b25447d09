-- ===== src/Backup/Tests.antt =====
-- Backups at a concrete RocksDB, whose calls fail when its count is 0.
use grocksdb.Base.{ℕ, ◌+◌, true, some}
use grocksdb.Fixtures.{
  an_options, handle_reply, small, small-IsValid, letter_a, letters_bc, failure,
}
use grocksdb.Types.{BackupEngine, BackupEngineOptions, Db, Env, RestoreOptions}
use grocksdb.Backup.{BackupApi}
use grocksdb.Backup.Works.{EngineOpens, EngineWorks, backups-Work}

abbrev a_db : Db
a_db = record { c = 6; name = letters_bc; opts = an_options }

abbrev engine_options : BackupEngineOptions
engine_options = record { c = 7 }

abbrev an_env : Env
an_env = record { c = 8 }

abbrev an_engine : BackupEngine
an_engine = record { c = 9; db = some a_db }

abbrev restore_options : RestoreOptions
restore_options = record { c = 10 }

abbrev backup_api : BackupApi ℕ
backup_api = record {
  rocksdb_backup_engine_open = λ a b s. (handle_reply s, s + 1);
  rocksdb_backup_engine_open_opts = λ a b s. (handle_reply s, s + 2);
  rocksdb_backup_engine_create_new_backup = λ a b s. (failure s, s + 3);
  rocksdb_backup_engine_create_new_backup_with_metadata = λ a b c s. (failure s, s + 4);
  rocksdb_backup_engine_create_new_backup_flush = λ a b c s. (failure s, s + 5);
  rocksdb_backup_engine_create_new_backup_flush_with_metadata = λ a b c d s. (failure s, s + 6);
  rocksdb_backup_engine_purge_old_backups = λ a b s. (failure s, s + 7);
  rocksdb_backup_engine_verify_backup = λ a b s. (failure s, s + 8);
  rocksdb_backup_engine_restore_db_from_latest_backup = λ a b c d s. (failure s, s + 9);
  rocksdb_backup_engine_restore_db_from_backup = λ a b c d e s. (failure s, s + 10);
}

backups-Work_example :
    EngineOpens backup_api an_options engine_options an_env a_db letter_a small
    × EngineWorks backup_api an_engine letter_a letter_a letters_bc true 2 3 restore_options small
backups-Work_example =
    backups-Work backup_api an_options engine_options an_env a_db letter_a an_engine letter_a
      letter_a letters_bc true 2 3 restore_options small small-IsValid
