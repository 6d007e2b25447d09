-- ===== src/Db/Families/Opens.antt =====
-- db.go: what opening with column families and taking in files promise, on every branch.
use grocksdb.Base.{
  Bool, ◌≡◌, refl, ◌∙◌, Option, none, some, List, [], ◌∷◌, map, Bytes, ◌==◌, true, false,
}
use grocksdb.Base.{length}
use grocksdb.Cgo.{Ptr, null, Cmd, Fault, fault, World, done, Status, Reply}
use grocksdb.Cgo.{until_nul, c_string}
use grocksdb.Cgo.Blocks.{after_all, after_all-IsValid}
use grocksdb.Cgo.Returns.{Returns, IsValid, Clean}
use grocksdb.Util.{bool_to_char}
use grocksdb.Util.Strings.{c_view-ref_go_bytes}
use grocksdb.Util.Relay.{Relays, relay}
use grocksdb.Util.Answers.{answer_of, answers}
use grocksdb.Util.Names.{with_names, with_name_and_names}
use grocksdb.Types.{Db, Options, ColumnFamilyHandle, IngestExternalFileOptions}
use grocksdb.Db.Opening.{new_db}
use grocksdb.Db.Families.{
  Families, FamiliesApi, err_column_family_must_match, Opened, families_unless, c_opts, open_if,
  open_families, ingest, open_db_column_families, open_db_for_read_only_column_families,
  open_db_and_trim_history, ingest_external_file, ingest_external_file_cf,
}

-- What becomes of an opening from the world `w`, by whether there are as many options as names.
pub OpensFamilies :
    {S H : Type 0}
    → (same_number : Bool) → World S
    → (wrap : Ptr → H) (name : Bytes) → List Bytes
    → Cmd S (Opened H)
    → (Bytes → List Bytes → S → Reply Families × S)
    → Type 0
OpensFamilies false w wrap name cf_names m f =
    m w ≡ done (none, [], some err_column_family_must_match) w
OpensFamilies true w wrap name [] m f = m w ≡ fault Fault.panic
OpensFamilies true w wrap name (cf_name ∷ others) m f =
    let (r, x) = f (until_nul name) (map until_nul (cf_name ∷ others)) w.rocks in
    Returns (λ a u. (a ≡ answer_of (null, []) (families_unless wrap) r) × (u.rocks ≡ x) × Clean w u)
      (m w)

-- It depends on the command only by its run from that world.
pub OpensFamilies-cong :
    {S H : Type 0} (b : Bool) (w : World S) (wrap : Ptr → H) (name : Bytes) (cf_names : List Bytes)
    (m k : Cmd S (Opened H)) (f : Bytes → List Bytes → S → Reply Families × S)
    → m w ≡ k w
    → OpensFamilies b w wrap name cf_names k f
    → OpensFamilies b w wrap name cf_names m f
unfolding OpensFamilies
OpensFamilies-cong false w wrap name cf_names m k f e h = e ∙ h
OpensFamilies-cong true w wrap name [] m k f e h = e ∙ h
OpensFamilies-cong true w wrap name (cf_name ∷ others) m k f e h = rw e h

abbrev pub Ingests :
    {S : Type 0}
    → World S
    → List Bytes
    → Cmd S (Option Bytes)
    → (List Bytes → S → Status × S)
    → Type 0
Ingests w paths m f = elim paths [
  | [] ↦ m w ≡ fault Fault.panic
  | path ∷ others ↦ Relays w m (f (map until_nul (path ∷ others)))
]

module _ {S : Type 0} (w : World S) (v : IsValid w) where
  pub open_if-OpensFamilies :
      {H : Type 0} (b : Bool) (wrap : Ptr → H) (name : Bytes) (cf_names : List Bytes)
      (f : Bytes → List Bytes → S → Reply Families × S)
      → OpensFamilies b w wrap name cf_names (open_if b wrap name cf_names f) f
  unfolding open_if OpensFamilies after_all
  open_if-OpensFamilies false wrap name cf_names f = refl
  open_if-OpensFamilies true wrap name [] f = refl
  open_if-OpensFamilies true wrap name (cf_name ∷ others) f =
      let names = cf_name ∷ others in
      let u = after_all (map c_string (name ∷ names)) w in
      with_name_and_names w v _ _ name names _ (
        answers (null, []) (families_unless wrap) (f (until_nul name) (map until_nul names)) u
          (after_all-IsValid (map c_string (name ∷ names)) w v))

  ingest-Ingests :
      (paths : List Bytes) (f : List Bytes → S → Status × S) → Ingests w paths (ingest paths f) f
  unfolding ingest Relays after_all
  ingest-Ingests [] f = refl
  ingest-Ingests (path ∷ paths) f =
      let u = after_all (map c_string (path ∷ paths)) w in
      with_names w v _ _ (path ∷ paths) _ (
        relay (f (map until_nul (path ∷ paths))) u
          (after_all-IsValid (map c_string (path ∷ paths)) w v))

module _ {S : Type 0} (api : FamiliesApi S) where
  open api use {
    rocksdb_open_column_families, rocksdb_open_for_read_only_column_families,
    rocksdb_open_and_trim_history, rocksdb_ingest_external_file, rocksdb_ingest_external_file_cf,
  }

  -- Opening a database with its column families does nothing but return the error
  -- ErrColumnFamilyMustMatch when the numbers of names and options differ, and panics when both are 0.
  -- Otherwise it gives RocksDB the name and the names up to their first zero bytes, returns the
  -- database and the handles, or RocksDB's failure as an error with neither, and frees every C string
  -- that it made.
  pub families-Opens :
      (opts : Options) (name : Bytes) (cf_names : List Bytes) (cf_opts : List Options) (flag : Bool)
      (trim_timestamp : Bytes) (w : World S)
      → IsValid w
      → let same_number = length cf_names == length cf_opts in
        OpensFamilies same_number w
          (new_db opts name)
          name
          cf_names
          (open_db_column_families api opts name cf_names cf_opts)
          (λ t ts. rocksdb_open_column_families opts.c t ts (c_opts cf_opts))
        × OpensFamilies same_number w
            (new_db opts name)
            name
            cf_names
            (open_db_for_read_only_column_families api opts name cf_names cf_opts flag)
            (λ t ts.
              rocksdb_open_for_read_only_column_families opts.c t ts
                (c_opts cf_opts)
                (bool_to_char flag))
        × OpensFamilies same_number w
            (new_db opts name)
            name
            cf_names
            (open_db_and_trim_history api opts name cf_names cf_opts trim_timestamp)
            (λ t ts. rocksdb_open_and_trim_history opts.c t ts (c_opts cf_opts) trim_timestamp)
  unfolding open_db_column_families open_db_for_read_only_column_families open_db_and_trim_history
      open_families
  families-Opens opts name cf_names cf_opts flag trim_timestamp w v =
      let b = length cf_names == length cf_opts in
      simp c_view-ref_go_bytes (
        open_if-OpensFamilies w v b (new_db opts name) name cf_names _,
        open_if-OpensFamilies w v b (new_db opts name) name cf_names _,
        open_if-OpensFamilies w v b (new_db opts name) name cf_names _,
      )

  -- Taking in files gives RocksDB their paths up to the first zero bytes, returns its failure as an
  -- error, nil otherwise, and leaves the C heap as it was; for no files at all it panics.
  pub ingest_external_file-Ingests :
      (db : Db) (handle : ColumnFamilyHandle) (file_paths : List Bytes)
      (opts : IngestExternalFileOptions) (w : World S)
      → IsValid w
      → Ingests w file_paths
          (ingest_external_file api db file_paths opts)
          (λ ts. rocksdb_ingest_external_file db.c ts opts.c)
        × Ingests w file_paths
            (ingest_external_file_cf api db handle file_paths opts)
            (λ ts. rocksdb_ingest_external_file_cf db.c handle.c ts opts.c)
  unfolding ingest_external_file ingest_external_file_cf
  ingest_external_file-Ingests db handle file_paths opts w v =
      (ingest-Ingests w v file_paths _, ingest-Ingests w v file_paths _)
