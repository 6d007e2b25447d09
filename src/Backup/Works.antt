-- ===== src/Backup/Works.antt =====
-- backup.go: what the operations promise.
use grocksdb.Base.{◌≡◌, refl, ap, ◌∙◌, Bool, ℕ, Option, none, some, [], ◌∷◌, map, Bytes}
use grocksdb.Cgo.{
  Ptr, Cmd, World, Fault, fault, Status, Reply, failed, replied, until_nul, c_string,
}
use grocksdb.Cgo.{c_string_of, malloc}
use grocksdb.Cgo.Blocks.{after_all, after_all-IsValid}
use grocksdb.Cgo.Laws.{after_malloc, after_malloc-IsValid}
use grocksdb.Cgo.Returns.{returns, bind, IsValid}
use grocksdb.Util.{bool_to_char}
use grocksdb.Util.Relay.{Relays, relay}
use grocksdb.Util.Opens.{Opens, opens, handle_of}
use grocksdb.Util.Names.{with_name, with_two_names, relay_name}
use grocksdb.Types.{BackupEngine, BackupEngineOptions, Db, Options, Env, RestoreOptions}
use grocksdb.Backup.{
  BackupApi, new_engine, attach, open_backup_engine, open_backup_engine_with_opt,
  create_backup_engine, create_backup_engine_with_path, create_new_backup,
  create_new_backup_with_metadata, create_new_backup_flush, create_new_backup_flush_with_metadata,
  purge_old_backups, verify_backup, restore_db_from_latest_backup, restore_db_from_backup,
  engine_db,
}

attach-handle_of :
    (db : Db) (r : Reply Ptr)
    → attach db (handle_of (new_engine none) r) ≡ handle_of (new_engine (some db)) r
unfolding attach handle_of
attach-handle_of db (failed m) = refl
attach-handle_of db (replied p) = refl

-- A request that needs the engine's database: it panics when the engine has none.
pub NeedsDb :
    {S : Type 0} → Option Db → World S → Cmd S (Option Bytes) → (Db → S → Status × S) → Type 0
NeedsDb none w m f = m w ≡ fault Fault.panic
NeedsDb (some db) w m f = Relays w m (f db)

module _ {S : Type 0} (api : BackupApi S) where
  open api use {
    rocksdb_backup_engine_open, rocksdb_backup_engine_open_opts,
    rocksdb_backup_engine_create_new_backup, rocksdb_backup_engine_create_new_backup_with_metadata,
    rocksdb_backup_engine_create_new_backup_flush,
    rocksdb_backup_engine_create_new_backup_flush_with_metadata,
    rocksdb_backup_engine_purge_old_backups, rocksdb_backup_engine_verify_backup,
    rocksdb_backup_engine_restore_db_from_latest_backup,
    rocksdb_backup_engine_restore_db_from_backup,
  }

  open_backup_engine-Opens :
      (opts : Options) (path : Bytes) (w : World S)
      → IsValid w
      → Opens
          (new_engine none)
          w
          (open_backup_engine api opts path)
          (rocksdb_backup_engine_open opts.c (until_nul path))
  unfolding open_backup_engine Opens
  open_backup_engine-Opens opts path w v =
      with_name w v _ _ path _
        (opens _ _ (after_malloc (c_string path) w) (after_malloc-IsValid (c_string path) w v))

  create_with_path-Opens :
      (db : Db) (path : Bytes) (w : World S)
      → IsValid w
      → Opens
          (new_engine (some db))
          w
          (create_backup_engine_with_path api db path)
          (rocksdb_backup_engine_open db.opts.c (until_nul path))
  unfolding create_backup_engine_with_path Opens
  create_with_path-Opens db path w v =
      bind (open_backup_engine-Opens db.opts path w v) (λ a u (is, rocks, clean).
        returns (ap (attach db) is ∙ attach-handle_of db _, rocks, clean))

  abbrev pub EngineOpens :
      (opts : Options) (engine_opts : BackupEngineOptions) (env : Env) (db : Db) (path : Bytes)
      (w : World S)
      → Type 0
  EngineOpens opts engine_opts env db path w =
      Opens (new_engine none) w (open_backup_engine api opts path)
        (rocksdb_backup_engine_open opts.c (until_nul path))
      × Opens (new_engine none) w (open_backup_engine_with_opt api engine_opts env)
          (rocksdb_backup_engine_open_opts engine_opts.c env.c)
      × Opens (new_engine (some db)) w (create_backup_engine_with_path api db path)
          (rocksdb_backup_engine_open db.opts.c (until_nul path))
      × Opens (new_engine (some db)) w (create_backup_engine api db)
          (rocksdb_backup_engine_open db.opts.c (until_nul db.name))

  -- Opening a backup engine runs without a fault and returns RocksDB's engine, or its failure as an
  -- error with no engine, and leaves the C heap as it was. An engine that is made from a database
  -- has this database; one that is opened by a path or by options has none.
  pub backup_engine-Opens :
      (opts : Options) (engine_opts : BackupEngineOptions) (env : Env) (db : Db) (path : Bytes)
      (w : World S)
      → IsValid w
      → EngineOpens opts engine_opts env db path w
  unfolding open_backup_engine_with_opt create_backup_engine create_backup_engine_with_path
  backup_engine-Opens opts engine_opts env db path w v = (
    open_backup_engine-Opens opts path w v,
    opens _ _ w v,
    create_with_path-Opens db path w v,
    create_with_path-Opens db db.name w v,
  )

  abbrev pub EngineWorks :
      (b : BackupEngine) (meta db_dir wal_dir : Bytes) (flush : Bool) (num backup_id : ℕ)
      (ro : RestoreOptions) (w : World S)
      → Type 0
  EngineWorks b meta db_dir wal_dir flush num backup_id ro w =
      NeedsDb b.db w (create_new_backup api b)
        (λ db. rocksdb_backup_engine_create_new_backup b.c db.c)
      × NeedsDb b.db w (create_new_backup_with_metadata api b meta)
          (λ db. rocksdb_backup_engine_create_new_backup_with_metadata b.c db.c (until_nul meta))
      × NeedsDb b.db w (create_new_backup_flush api b flush)
          (λ db. rocksdb_backup_engine_create_new_backup_flush b.c db.c (bool_to_char flush))
      × NeedsDb b.db w (create_new_backup_flush_with_metadata api b meta flush) (λ db.
        rocksdb_backup_engine_create_new_backup_flush_with_metadata b.c db.c (until_nul meta)
          (bool_to_char flush))
      × Relays w (purge_old_backups api b num) (rocksdb_backup_engine_purge_old_backups b.c num)
      × Relays w (verify_backup api b backup_id) (rocksdb_backup_engine_verify_backup b.c backup_id)
      × Relays w (restore_db_from_latest_backup api b db_dir wal_dir ro) (
          rocksdb_backup_engine_restore_db_from_latest_backup b.c (until_nul db_dir)
            (until_nul wal_dir) ro.c)
      × Relays w (restore_db_from_backup api b db_dir wal_dir ro backup_id) (
          rocksdb_backup_engine_restore_db_from_backup b.c (until_nul db_dir) (until_nul wal_dir)
            ro.c backup_id)

  backups :
      (c : Ptr) (db : Option Db) (meta : Bytes) (flush : Bool) (w : World S)
      → IsValid w
      → let b = new_engine db c in
        NeedsDb db w
          (create_new_backup api b)
          (λ db. rocksdb_backup_engine_create_new_backup c db.c)
        × NeedsDb db w
            (create_new_backup_with_metadata api b meta)
            (λ db. rocksdb_backup_engine_create_new_backup_with_metadata c db.c (until_nul meta))
        × NeedsDb db w
            (create_new_backup_flush api b flush)
            (λ db. rocksdb_backup_engine_create_new_backup_flush c db.c (bool_to_char flush))
        × NeedsDb db w (create_new_backup_flush_with_metadata api b meta flush) (λ db.
          rocksdb_backup_engine_create_new_backup_flush_with_metadata c db.c
            (until_nul meta)
            (bool_to_char flush))
  unfolding NeedsDb engine_db create_new_backup create_new_backup_with_metadata
      create_new_backup_flush create_new_backup_flush_with_metadata c_string_of malloc
  backups c none meta flush w v = (refl, refl, refl, refl)
  backups c (some db) meta flush w v =
      (relay _ w v, relay_name w v meta _, relay _ w v, relay_name w v meta _)

  -- Every request of a backup engine runs without a fault, returns RocksDB's failure as an error, nil
  -- otherwise, and leaves the C heap as it was, except that a new backup panics when the engine has
  -- no database. A text is given to RocksDB up to its first zero byte.
  pub engine-Works :
      (b : BackupEngine) (meta db_dir wal_dir : Bytes) (flush : Bool) (num backup_id : ℕ)
      (ro : RestoreOptions) (w : World S)
      → IsValid w
      → EngineWorks b meta db_dir wal_dir flush num backup_id ro w
  unfolding purge_old_backups verify_backup restore_db_from_latest_backup restore_db_from_backup
      Relays after_all
  engine-Works b meta db_dir wal_dir flush num backup_id ro w v =
      let (one, two, three, four) = backups b.c b.db meta flush w v in
      let texts = map c_string (db_dir ∷ wal_dir ∷ []) in
      let u = after_all texts w in
      let u-IsValid : IsValid u = after_all-IsValid texts w v in
      (
        one,
        two,
        three,
        four,
        relay _ w v,
        relay _ w v,
        with_two_names w v _ _ db_dir wal_dir _ (relay _ u u-IsValid),
        with_two_names w v _ _ db_dir wal_dir _ (relay _ u u-IsValid),
      )

  -- Opening a backup engine returns RocksDB's engine, or its failure as an error with no engine; an engine
  -- that is made from a database has this database, and one that is opened by a path or by options has
  -- none. Every request of an engine returns RocksDB's failure as an error, nil otherwise. All of them run
  -- without a fault and leave the C heap as it was, except that a new backup panics when the engine has no
  -- database. A text is given to RocksDB up to its first zero byte.
  pub backups-Work :
      (opts : Options) (engine_opts : BackupEngineOptions) (env : Env) (db : Db) (path : Bytes)
      (b : BackupEngine) (meta db_dir wal_dir : Bytes) (flush : Bool) (num backup_id : ℕ)
      (ro : RestoreOptions) (w : World S)
      → IsValid w
      → EngineOpens opts engine_opts env db path w
        × EngineWorks b meta db_dir wal_dir flush num backup_id ro w
  backups-Work opts engine_opts env db path b meta db_dir wal_dir flush num backup_id ro w v = (
    backup_engine-Opens opts engine_opts env db path w v,
    engine-Works b meta db_dir wal_dir flush num backup_id ro w v,
  )
