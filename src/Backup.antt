-- ===== src/Backup.antt =====
-- backup.go: backup engines.
pub mod Works
mod Tests
use grocksdb.Base.{ℕ, Bool, Option, none, some, [], ◌∷◌, Bytes}
use grocksdb.Cgo.{
  Ptr, Cmd, Fault, Status, Reply, ◌>>=◌, ◌>>◌, pure, crash, call_handle, call_status,
}
use grocksdb.Cgo.{c_string_of, go_string, free}
use grocksdb.Cgo.Blocks.{free_all}
use grocksdb.Util.{bool_to_char, from_c_error, unless, c_strings_of, go_strings}
use grocksdb.Types.{BackupEngine, BackupEngineOptions, Db, Options, Env, RestoreOptions}

-- The C functions that are called here.
pub record BackupApi (S : Type 0) : Type 0 where
  pub rocksdb_backup_engine_open : Ptr → Bytes → S → Reply Ptr × S
  pub rocksdb_backup_engine_open_opts : Ptr → Ptr → S → Reply Ptr × S
  pub rocksdb_backup_engine_create_new_backup : Ptr → Ptr → S → Status × S
  pub rocksdb_backup_engine_create_new_backup_with_metadata : Ptr → Ptr → Bytes → S → Status × S
  pub rocksdb_backup_engine_create_new_backup_flush : Ptr → Ptr → ℕ → S → Status × S
  pub rocksdb_backup_engine_create_new_backup_flush_with_metadata :
      Ptr → Ptr → Bytes → ℕ → S → Status × S
  pub rocksdb_backup_engine_purge_old_backups : Ptr → ℕ → S → Status × S
  pub rocksdb_backup_engine_verify_backup : Ptr → ℕ → S → Status × S
  pub rocksdb_backup_engine_restore_db_from_latest_backup :
      Ptr → Bytes → Bytes → Ptr → S → Status × S
  pub rocksdb_backup_engine_restore_db_from_backup : Ptr → Bytes → Bytes → Ptr → ℕ → S → Status × S

abbrev pub new_engine : Option Db → Ptr → BackupEngine
new_engine db c = record { c = c; db = db }

-- `if be, err = …; err == nil { be.db = db }`
unfoldable pub attach : Db → Option BackupEngine × Option Bytes → Option BackupEngine × Option Bytes
attach db (some be, none) = (some (record be { db = some db }), none)
attach db (be, err) = (be, err)

module _ {S : Type 0} where
  -- `b.db.c`, which panics when the database is nil.
  unfoldable pub engine_db : BackupEngine → Cmd S Db
  engine_db b = elim (b.db) [ none ↦ crash Fault.panic | some db ↦ pure db ]

module _ {S : Type 0} (api : BackupApi S) where
  open api use {
    rocksdb_backup_engine_open, rocksdb_backup_engine_open_opts,
    rocksdb_backup_engine_create_new_backup, rocksdb_backup_engine_create_new_backup_with_metadata,
    rocksdb_backup_engine_create_new_backup_flush,
    rocksdb_backup_engine_create_new_backup_flush_with_metadata,
    rocksdb_backup_engine_purge_old_backups, rocksdb_backup_engine_verify_backup,
    rocksdb_backup_engine_restore_db_from_latest_backup,
    rocksdb_backup_engine_restore_db_from_backup,
  }

  unfoldable pub open_backup_engine :
      (opts : Options) (path : Bytes) → Cmd S (Option BackupEngine × Option Bytes)
  open_backup_engine opts path = do
    cpath ← c_string_of path
    t ← go_string cpath
    r ←
        (call_handle (rocksdb_backup_engine_open opts.c t) >>= λ (c, c_err).
        from_c_error c_err >>= λ err. pure (unless err (new_engine none c), err))
    free cpath
    pure r

  unfoldable pub open_backup_engine_with_opt :
      (opts : BackupEngineOptions) (env : Env) → Cmd S (Option BackupEngine × Option Bytes)
  open_backup_engine_with_opt opts env = do
    (c, c_err) ← call_handle (rocksdb_backup_engine_open_opts opts.c env.c)
    err ← from_c_error c_err
    pure (unless err (new_engine none c), err)

  unfoldable pub create_backup_engine : (db : Db) → Cmd S (Option BackupEngine × Option Bytes)
  unfolding attach
  create_backup_engine db = do r ← open_backup_engine db.opts db.name; pure (attach db r)

  unfoldable pub create_backup_engine_with_path :
      (db : Db) (path : Bytes) → Cmd S (Option BackupEngine × Option Bytes)
  unfolding attach
  create_backup_engine_with_path db path = do
    r ← open_backup_engine db.opts path
    pure (attach db r)

  unfoldable pub create_new_backup : (b : BackupEngine) → Cmd S (Option Bytes)
  unfolding engine_db
  create_new_backup b = do
    db ← engine_db b
    c_err ← call_status (rocksdb_backup_engine_create_new_backup b.c db.c)
    from_c_error c_err

  unfoldable pub create_new_backup_with_metadata :
      (b : BackupEngine) (meta : Bytes) → Cmd S (Option Bytes)
  unfolding engine_db
  create_new_backup_with_metadata b meta = do
    cmeta ← c_string_of meta
    db ← engine_db b
    t ← go_string cmeta
    c_err ← call_status (rocksdb_backup_engine_create_new_backup_with_metadata b.c db.c t)
    free cmeta
    from_c_error c_err

  unfoldable pub create_new_backup_flush :
      (b : BackupEngine) (flush_before_backup : Bool) → Cmd S (Option Bytes)
  unfolding engine_db
  create_new_backup_flush b flush_before_backup = do
    db ← engine_db b
    c_err ←
        call_status (
          rocksdb_backup_engine_create_new_backup_flush b.c db.c (bool_to_char flush_before_backup))
    from_c_error c_err

  unfoldable pub create_new_backup_flush_with_metadata :
      (b : BackupEngine) (meta : Bytes) (flush_before_backup : Bool) → Cmd S (Option Bytes)
  unfolding engine_db
  create_new_backup_flush_with_metadata b meta flush_before_backup = do
    cmeta ← c_string_of meta
    db ← engine_db b
    t ← go_string cmeta
    c_err ← call_status (
        rocksdb_backup_engine_create_new_backup_flush_with_metadata b.c db.c t
          (bool_to_char flush_before_backup))
    free cmeta
    from_c_error c_err

  -- A `uint32` is a number below `2 ^ 32`.
  unfoldable pub purge_old_backups :
      (b : BackupEngine) (num_backups_to_keep : ℕ) → Cmd S (Option Bytes)
  purge_old_backups b num_backups_to_keep = do
    c_err ← call_status (rocksdb_backup_engine_purge_old_backups b.c num_backups_to_keep)
    from_c_error c_err

  unfoldable pub verify_backup : (b : BackupEngine) (backup_id : ℕ) → Cmd S (Option Bytes)
  verify_backup b backup_id = do
    c_err ← call_status (rocksdb_backup_engine_verify_backup b.c backup_id)
    from_c_error c_err

  unfoldable pub restore_db_from_latest_backup :
      (b : BackupEngine) (db_dir wal_dir : Bytes) (ro : RestoreOptions) → Cmd S (Option Bytes)
  restore_db_from_latest_backup b db_dir wal_dir ro = do
    c_db_dir ← c_string_of db_dir
    c_wal_dir ← c_string_of wal_dir
    t ← go_string c_db_dir
    u ← go_string c_wal_dir
    err ←
        (call_status (rocksdb_backup_engine_restore_db_from_latest_backup b.c t u ro.c) >>= λ c_err.
        from_c_error c_err)
    free_all (c_db_dir ∷ c_wal_dir ∷ [])
    pure err

  unfoldable pub restore_db_from_backup :
      (b : BackupEngine) (db_dir wal_dir : Bytes) (ro : RestoreOptions) (backup_id : ℕ)
      → Cmd S (Option Bytes)
  restore_db_from_backup b db_dir wal_dir ro backup_id = do
    c_db_dir ← c_string_of db_dir
    c_wal_dir ← c_string_of wal_dir
    t ← go_string c_db_dir
    u ← go_string c_wal_dir
    err ←
        (call_status (rocksdb_backup_engine_restore_db_from_backup b.c t u ro.c backup_id)
          >>= λ c_err. from_c_error c_err)
    free_all (c_db_dir ∷ c_wal_dir ∷ [])
    pure err
