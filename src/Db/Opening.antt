-- ===== src/Db/Opening.antt =====
-- db.go: opening a database by its name, and column families by theirs.
mod Tests
use grocksdb.Base.{refl, arith, ℕ, Bool, Option, Bytes}
use grocksdb.Base.Int.{ℤ, c_int}
use grocksdb.Cgo.{
  Ptr, Cmd, World, Status, Reply, ◌>>=◌, ◌>>◌, pure, call_handle, call_status, call_void, until_nul,
  c_string, c_string_of, go_string, free,
}
use grocksdb.Cgo.Returns.{IsValid, returns, mono}
use grocksdb.Cgo.Laws.{after_malloc, after_malloc-IsValid}
use grocksdb.Util.{bool_to_char, from_c_error, unless}
use grocksdb.Util.Relay.{Affects, Relays, relay}
use grocksdb.Util.Opens.{Opens, opens}
use grocksdb.Util.Names.{with_name}
use grocksdb.Types.{Db, Options, ColumnFamilyHandle}

-- The C functions that are called here.
pub record OpenApi (S : Type 0) : Type 0 where
  pub rocksdb_open : Ptr → Bytes → S → Reply Ptr × S
  pub rocksdb_open_with_ttl : Ptr → Bytes → ℤ → S → Reply Ptr × S
  pub rocksdb_open_for_read_only : Ptr → Bytes → ℕ → S → Reply Ptr × S
  pub rocksdb_create_column_family : Ptr → Ptr → Bytes → S → Reply Ptr × S
  pub rocksdb_create_column_family_with_ttl : Ptr → Ptr → Bytes → ℤ → S → Reply Ptr × S
  pub rocksdb_destroy_db : Ptr → Bytes → S → Status × S
  pub rocksdb_repair_db : Ptr → Bytes → S → Status × S
  pub rocksdb_delete_file : Ptr → Bytes → S → S

abbrev pub new_db : (opts : Options) (name : Bytes) → Ptr → Db
new_db opts name c = record { name = name; c = c; opts = opts }

unfoldable pub new_native_column_family_handle : Ptr → ColumnFamilyHandle
new_native_column_family_handle c = record { c = c }

module _ {S : Type 0} (api : OpenApi S) where
  open api use {
    rocksdb_open, rocksdb_open_with_ttl, rocksdb_open_for_read_only, rocksdb_create_column_family,
    rocksdb_create_column_family_with_ttl, rocksdb_destroy_db, rocksdb_repair_db,
    rocksdb_delete_file,
  }

  unfoldable pub open_db : (opts : Options) (name : Bytes) → Cmd S (Option Db × Option Bytes)
  open_db opts name = do
    c_name ← c_string_of name
    t ← go_string c_name
    r ←
        (call_handle (rocksdb_open opts.c t) >>= λ (c, c_err).
        from_c_error c_err >>= λ err. pure (unless err (new_db opts name c), err))
    free c_name
    pure r

  unfoldable pub open_db_with_ttl :
      (opts : Options) (name : Bytes) (ttl : ℤ) → Cmd S (Option Db × Option Bytes)
  open_db_with_ttl opts name ttl = do
    c_name ← c_string_of name
    t ← go_string c_name
    r ←
        (call_handle (rocksdb_open_with_ttl opts.c t (c_int ttl)) >>= λ (c, c_err).
        from_c_error c_err >>= λ err. pure (unless err (new_db opts name c), err))
    free c_name
    pure r

  unfoldable pub open_db_for_read_only :
      (opts : Options) (name : Bytes) (error_if_wal_file_exists : Bool)
      → Cmd S (Option Db × Option Bytes)
  open_db_for_read_only opts name error_if_wal_file_exists = do
    c_name ← c_string_of name
    t ← go_string c_name
    r ←
        (call_handle (rocksdb_open_for_read_only opts.c t (bool_to_char error_if_wal_file_exists))
          >>= λ (c, c_err).
              from_c_error c_err >>= λ err. pure (unless err (new_db opts name c), err))
    free c_name
    pure r

  unfoldable pub create_column_family :
      (db : Db) (opts : Options) (name : Bytes) → Cmd S (Option ColumnFamilyHandle × Option Bytes)
  create_column_family db opts name = do
    c_name ← c_string_of name
    t ← go_string c_name
    r ←
        (call_handle (rocksdb_create_column_family db.c opts.c t) >>= λ (c, c_err).
        from_c_error c_err >>= λ err. pure (unless err (new_native_column_family_handle c), err))
    free c_name
    pure r

  unfoldable pub create_column_family_with_ttl :
      (db : Db) (opts : Options) (name : Bytes) (ttl : ℤ)
      → Cmd S (Option ColumnFamilyHandle × Option Bytes)
  create_column_family_with_ttl db opts name ttl = do
    c_name ← c_string_of name
    t ← go_string c_name
    r ←
        (call_handle (rocksdb_create_column_family_with_ttl db.c opts.c t (c_int ttl))
          >>= λ (c, c_err). from_c_error c_err >>= λ err.
              pure (unless err (new_native_column_family_handle c), err))
    free c_name
    pure r

  unfoldable pub destroy_db : (name : Bytes) (opts : Options) → Cmd S (Option Bytes)
  destroy_db name opts = do
    c_name ← c_string_of name
    t ← go_string c_name
    err ← (call_status (rocksdb_destroy_db opts.c t) >>= λ c_err. from_c_error c_err)
    free c_name
    pure err

  unfoldable pub repair_db : (name : Bytes) (opts : Options) → Cmd S (Option Bytes)
  repair_db name opts = do
    c_name ← c_string_of name
    t ← go_string c_name
    err ← (call_status (rocksdb_repair_db opts.c t) >>= λ c_err. from_c_error c_err)
    free c_name
    pure err

  unfoldable pub delete_file : (db : Db) (name : Bytes) → Cmd S (Unit {0})
  delete_file db name = do
    c_name ← c_string_of name
    t ← go_string c_name
    r ← call_void (rocksdb_delete_file db.c t)
    free c_name
    pure r

  delete_file-Affects :
      (db : Db) (name : Bytes) (w : World S)
      → IsValid w
      → Affects w (delete_file db name) (rocksdb_delete_file db.c (until_nul name))
  unfolding delete_file call_void Affects
  delete_file-Affects db name w v =
      mono
        (with_name w v tt _ name (λ t. call_void (rocksdb_delete_file db.c t))
          (returns (refl, refl, record { same = λ p. refl; grows = omega arith })))
        (λ a u (is, rocks, back). (rocks, back))

  abbrev pub Opening :
      (db : Db) (opts : Options) (name : Bytes) (ttl : ℤ) (error_if_wal_file_exists : Bool)
      (w : World S)
      → Type 0
  Opening db opts name ttl error_if_wal_file_exists w =
      Opens (new_db opts name) w (open_db opts name) (rocksdb_open opts.c (until_nul name))
      × Opens (new_db opts name) w (open_db_with_ttl opts name ttl)
          (rocksdb_open_with_ttl opts.c (until_nul name) (c_int ttl))
      × Opens (new_db opts name) w (open_db_for_read_only opts name error_if_wal_file_exists) (
          rocksdb_open_for_read_only opts.c (until_nul name)
            (bool_to_char error_if_wal_file_exists))
      × Opens (new_native_column_family_handle) w (create_column_family db opts name)
          (rocksdb_create_column_family db.c opts.c (until_nul name))
      × Opens (new_native_column_family_handle) w (create_column_family_with_ttl db opts name ttl)
          (rocksdb_create_column_family_with_ttl db.c opts.c (until_nul name) (c_int ttl))
      × Relays w (destroy_db name opts) (rocksdb_destroy_db opts.c (until_nul name))
      × Relays w (repair_db name opts) (rocksdb_repair_db opts.c (until_nul name))
      × Affects w (delete_file db name) (rocksdb_delete_file db.c (until_nul name))

  -- Opening, destroying and repairing a database, creating a column family, and deleting a file of a
  -- database run without a fault. RocksDB is given the name up to its first zero byte, and a number of
  -- seconds as a 32-bit C int; its failure, of all but the last, is returned as an error with no handle,
  -- and otherwise its handle with no error. The C heap is left as it was: the copy of the name and the
  -- message are freed, also on failure.
  pub open_db-Opens :
      (db : Db) (opts : Options) (name : Bytes) (ttl : ℤ) (error_if_wal_file_exists : Bool)
      (w : World S)
      → IsValid w
      → Opening db opts name ttl error_if_wal_file_exists w
  unfolding open_db open_db_with_ttl open_db_for_read_only create_column_family
      create_column_family_with_ttl destroy_db repair_db Opens Relays
  open_db-Opens db opts name ttl error_if_wal_file_exists w v =
      let u = after_malloc (c_string name) w in
      let u-IsValid : IsValid u = after_malloc-IsValid (c_string name) w v in
      (
        with_name w v _ _ name _ (opens _ _ u u-IsValid),
        with_name w v _ _ name _ (opens _ _ u u-IsValid),
        with_name w v _ _ name _ (opens _ _ u u-IsValid),
        with_name w v _ _ name _ (opens _ _ u u-IsValid),
        with_name w v _ _ name _ (opens _ _ u u-IsValid),
        with_name w v _ _ name _ (relay _ u u-IsValid),
        with_name w v _ _ name _ (relay _ u u-IsValid),
        delete_file-Affects db name w v,
      )
