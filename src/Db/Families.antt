-- ===== src/Db/Families.antt =====
-- db.go: opening a database with its column families, and taking in files.
mod Tests
pub mod Opens
pub mod Others
use grocksdb.Base.{
  ℕ, Bool, ◌≡◌, ◌≢◌, refl, Option, none, some, List, [], ◌∷◌, map, Bytes, ◌==◌, not, arith, true,
  false,
}
use grocksdb.Base.{length, if◌then◌else◌}
use grocksdb.Cgo.{
  Ptr, null, Cmd, Fault, fault, World, done, Status, Reply, ◌>>=◌, ◌>>◌, pure, crash, call_answer,
}
use grocksdb.Cgo.{call_status, c_string_of, go_string, until_nul, c_string}
use grocksdb.Cgo.Blocks.{free_all, after_all, after_all-IsValid}
use grocksdb.Cgo.Returns.{Returns, IsValid, Clean}
use grocksdb.Util.{bool_to_char, ref_go_bytes, c_view, from_c_error, c_strings_of, go_strings}
use grocksdb.Util.Strings.{c_view-ref_go_bytes}
use grocksdb.Util.Relay.{Relays, relay}
use grocksdb.Util.Answers.{answer_of, answers}
use grocksdb.Util.Names.{with_names, with_name_and_names}
use grocksdb.Types.{Db, Options, ColumnFamilyHandle, IngestExternalFileOptions}
use grocksdb.Db.Opening.{new_db, new_native_column_family_handle}

-- A database, with the handles of its column families.
abbrev pub Families : Type 0
Families = Ptr × List Ptr

-- The C functions that are called here, on the name, the names of the column families and their
-- options; and on the paths of files.
pub record FamiliesApi (S : Type 0) : Type 0 where
  pub rocksdb_open_column_families : Ptr → Bytes → List Bytes → List Ptr → S → Reply Families × S
  pub rocksdb_open_for_read_only_column_families :
      Ptr → Bytes → List Bytes → List Ptr → ℕ → S → Reply Families × S
  pub rocksdb_open_and_trim_history :
      Ptr → Bytes → List Bytes → List Ptr → Bytes → S → Reply Families × S
  pub rocksdb_ingest_external_file : Ptr → List Bytes → Ptr → S → Status × S
  pub rocksdb_ingest_external_file_cf : Ptr → Ptr → List Bytes → Ptr → S → Status × S

-- `ErrColumnFamilyMustMatch`, or a message of RocksDB.
pub data OpenError : Type 0 where
  err_column_family_must_match : OpenError
  rocksdb_error : Bytes → OpenError

abbrev pub Opened : Type 0 → Type 0
Opened H = Option H × List ColumnFamilyHandle × Option OpenError

-- `if err = fromCError(cErr); err == nil { db = …; cfHandles = … }`, where `wrap` makes the database.
unfoldable pub families_unless : {H : Type 0} → (Ptr → H) → Families → Option Bytes → Opened H
families_unless wrap (db, c_handles) none =
    (some (wrap db), map new_native_column_family_handle c_handles, none)
families_unless wrap r (some err) = (none, [], some (rocksdb_error err))

-- The pointers that `cOpts` holds.
abbrev pub c_opts : List Options → List Ptr
c_opts cf_opts = map (λ o. o.c) cf_opts

module _ {S H : Type 0} where
  -- The body that the functions share: the names become C strings, which C reads and which are freed
  -- after the call. `&cNames[0]` panics when there are no names.
  unfoldable pub open_if :
      (same_number : Bool)
      → (wrap : Ptr → H) (name : Bytes) → List Bytes
      → (Bytes → List Bytes → S → Reply Families × S)
      → Cmd S (Opened H)
  open_if false wrap name cf_names call = pure (none, [], some err_column_family_must_match)
  open_if true wrap name [] call = crash Fault.panic
  open_if true wrap name (cf_name ∷ others) call = do
    c_name ← c_string_of name
    c_names ← c_strings_of (cf_name ∷ others)
    t ← go_string c_name
    ts ← go_strings c_names
    r ←
        (call_answer (null, []) (call t ts) >>= λ (r, c_err).
        from_c_error c_err >>= λ err. pure (families_unless wrap r err))
    free_all (c_name ∷ c_names)
    pure r

  unfoldable pub open_families :
      (wrap : Ptr → H) (name : Bytes)
      → List Bytes
      → List Options
      → (Bytes → List Bytes → S → Reply Families × S)
      → Cmd S (Opened H)
  unfolding open_if
  open_families wrap name cf_names cf_opts call =
      open_if (length cf_names == length cf_opts) wrap name cf_names call

module _ {S : Type 0} where
  -- The same for the paths of files, where `&cFilePaths[0]` panics when there are none.
  unfoldable pub ingest : List Bytes → (List Bytes → S → Status × S) → Cmd S (Option Bytes)
  ingest [] call = crash Fault.panic
  ingest (path ∷ paths) call = do
    c_file_paths ← c_strings_of (path ∷ paths)
    ts ← go_strings c_file_paths
    err ← (call_status (call ts) >>= λ c_err. from_c_error c_err)
    free_all c_file_paths
    pure err

module _ {S : Type 0} (api : FamiliesApi S) where
  open api use {
    rocksdb_open_column_families, rocksdb_open_for_read_only_column_families,
    rocksdb_open_and_trim_history, rocksdb_ingest_external_file, rocksdb_ingest_external_file_cf,
  }

  unfoldable pub open_db_column_families :
      (opts : Options) (name : Bytes) (cf_names : List Bytes) (cf_opts : List Options)
      → Cmd S (Opened Db)
  unfolding open_families
  open_db_column_families opts name cf_names cf_opts =
      open_families (new_db opts name) name cf_names cf_opts
        (λ t ts. rocksdb_open_column_families opts.c t ts (c_opts cf_opts))

  unfoldable pub open_db_for_read_only_column_families :
      (opts : Options) (name : Bytes) (cf_names : List Bytes) (cf_opts : List Options)
      (error_if_wal_file_exists : Bool)
      → Cmd S (Opened Db)
  unfolding open_families
  open_db_for_read_only_column_families opts name cf_names cf_opts error_if_wal_file_exists =
      open_families (new_db opts name) name cf_names cf_opts (λ t ts.
        rocksdb_open_for_read_only_column_families opts.c t ts (c_opts cf_opts)
          (bool_to_char error_if_wal_file_exists))

  unfoldable pub open_db_and_trim_history :
      (opts : Options) (name : Bytes) (cf_names : List Bytes) (cf_opts : List Options)
      (trim_timestamp : Bytes)
      → Cmd S (Opened Db)
  unfolding open_families
  open_db_and_trim_history opts name cf_names cf_opts trim_timestamp =
      let c_ts = ref_go_bytes trim_timestamp in
      open_families (new_db opts name) name cf_names cf_opts (λ t ts.
        rocksdb_open_and_trim_history opts.c t ts (c_opts cf_opts)
          (c_view c_ts (length trim_timestamp)))

  unfoldable pub ingest_external_file :
      (db : Db) (file_paths : List Bytes) (opts : IngestExternalFileOptions) → Cmd S (Option Bytes)
  unfolding ingest
  ingest_external_file db file_paths opts =
      ingest file_paths (λ ts. rocksdb_ingest_external_file db.c ts opts.c)

  unfoldable pub ingest_external_file_cf :
      (db : Db) (handle : ColumnFamilyHandle) (file_paths : List Bytes)
      (opts : IngestExternalFileOptions)
      → Cmd S (Option Bytes)
  unfolding ingest
  ingest_external_file_cf db handle file_paths opts =
      ingest file_paths (λ ts. rocksdb_ingest_external_file_cf db.c handle.c ts opts.c)
