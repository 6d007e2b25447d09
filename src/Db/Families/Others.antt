-- ===== src/Db/Families/Others.antt =====
-- db.go: opening with column families that expire, and opening as a secondary instance.
use grocksdb.Base.{
  ℕ, Bool, ◌≡◌, ◌≤◌, ◌<◌, ◌⊎◌, inl, inr, refl, Option, none, some, List, [], ◌∷◌, map, Bytes,
}
use grocksdb.Base.{length, take, ltb, ◌==◌, true, false, arith, Bool-cases}
use grocksdb.Base.Int.{ℤ, pos}
use grocksdb.Cgo.{
  Ptr, Cmd, Fault, fault, World, done, Reply, ◌>>=◌, ◌>>◌, pure, crash, call_handle, until_nul,
  c_string, c_string_of, go_string,
}
use grocksdb.Cgo.Blocks.{free_all, after_all, after_all-IsValid}
use grocksdb.Cgo.Returns.{IsValid}
use grocksdb.Util.{c_array, from_c_error, unless}
use grocksdb.Util.Opens.{Opens, opens}
use grocksdb.Util.Names.{with_two_names}
use grocksdb.Types.{Db, Options}
use grocksdb.Db.Opening.{new_db}
use grocksdb.Db.Families.{Families, Opened, c_opts, open_if, err_column_family_must_match}
use grocksdb.Db.Families.Opens.{OpensFamilies, OpensFamilies-cong, open_if-OpensFamilies}

-- The C functions that are called here.
pub record OtherOpenApi (S : Type 0) : Type 0 where
  pub rocksdb_open_column_families_with_ttl :
      Ptr → Bytes → List Bytes → List Ptr → List ℤ → S → Reply Families × S
  pub rocksdb_open_as_secondary : Ptr → Bytes → Bytes → S → Reply Ptr × S

-- `&ttls[0]`, at which C reads `n` numbers.
unfoldable pub c_ttls : {S : Type 0} → List ℤ → ℕ → Cmd S (List ℤ)
c_ttls [] n = crash Fault.panic
c_ttls (ttl ∷ ttls) n = c_array (ttl ∷ ttls) (pos n)

module _ {S : Type 0} (api : OtherOpenApi S) where
  open api use {rocksdb_open_column_families_with_ttl, rocksdb_open_as_secondary}

  -- `if numColumnFamilies != len(cfOpts) { … }` and what follows.
  unfoldable pub open_with_ttl_if :
      (same_number : Bool) (opts : Options) (name : Bytes) (cf_names : List Bytes)
      (cf_opts : List Options) (ttls : List ℤ)
      → Cmd S (Opened Db)
  unfolding c_ttls open_if
  open_with_ttl_if false opts name cf_names cf_opts ttls =
      pure (none, [], some err_column_family_must_match)
  open_with_ttl_if true opts name cf_names cf_opts ttls = do
    seconds ← c_ttls ttls (length cf_names)
    open_if true (new_db opts name) name cf_names
        (λ t ts. rocksdb_open_column_families_with_ttl opts.c t ts (c_opts cf_opts) seconds)

  unfoldable pub open_db_column_families_with_ttl :
      (opts : Options) (name : Bytes) (cf_names : List Bytes) (cf_opts : List Options)
      (ttls : List ℤ)
      → Cmd S (Opened Db)
  unfolding open_with_ttl_if
  open_db_column_families_with_ttl opts name cf_names cf_opts ttls =
      open_with_ttl_if (length cf_names == length cf_opts) opts name cf_names cf_opts ttls

  unfoldable pub open_db_as_secondary :
      (opts : Options) (name secondary_path : Bytes) → Cmd S (Option Db × Option Bytes)
  open_db_as_secondary opts name secondary_path = do
    c_name ← c_string_of name
    c_path ← c_string_of secondary_path
    t ← go_string c_name
    path ← go_string c_path
    r ←
        (call_handle (rocksdb_open_as_secondary opts.c t path) >>= λ (db, c_err).
        from_c_error c_err >>= λ err. pure (unless err (new_db opts name db), err))
    free_all (c_name ∷ c_path ∷ [])
    pure r

  -- What becomes of an opening with numbers of seconds.
  pub OpensWithTtl :
      (same_number : Bool) (w : World S) (opts : Options) (name : Bytes) (cf_names : List Bytes)
      (cf_opts : List Options) (ttls : List ℤ)
      → Cmd S (Opened Db)
      → Type 0
  OpensWithTtl false w opts name cf_names cf_opts ttls m =
      m w ≡ done (none, [], some err_column_family_must_match) w
  OpensWithTtl true w opts name cf_names cf_opts [] m = m w ≡ fault Fault.panic
  OpensWithTtl true w opts name cf_names cf_opts (ttl ∷ ttls) m =
      ((length cf_names ≤ length (ttl ∷ ttls))
        × OpensFamilies true w (new_db opts name) name cf_names m (λ t ts.
          rocksdb_open_column_families_with_ttl opts.c t ts (c_opts cf_opts)
            (take (length cf_names) (ttl ∷ ttls))))
      ⊎ ((length (ttl ∷ ttls) < length cf_names) × (m w ≡ fault Fault.bad_read))

  enough_ttls :
      (opts : Options) (name : Bytes) (cf_names : List Bytes) (cf_opts : List Options) (ttl : ℤ)
      (ttls : List ℤ) (w : World S)
      → ltb (length (ttl ∷ ttls)) (length cf_names) ≡ false
      → open_with_ttl_if true opts name cf_names cf_opts (ttl ∷ ttls) w
        ≡ open_if true
            (new_db opts name)
            name
            cf_names
            (λ t ts.
              rocksdb_open_column_families_with_ttl opts.c t ts
                (c_opts cf_opts)
                (take (length cf_names) (ttl ∷ ttls)))
            w
  unfolding open_with_ttl_if c_ttls c_array
  enough_ttls opts name cf_names cf_opts ttl ttls w long = rw long refl

  ttl-OpensWithTtl :
      (b : Bool) (opts : Options) (name : Bytes) (cf_names : List Bytes) (cf_opts : List Options)
      (ttls : List ℤ) (w : World S)
      → IsValid w
      → OpensWithTtl b w opts name cf_names cf_opts ttls
          (open_with_ttl_if b opts name cf_names cf_opts ttls)
  unfolding OpensWithTtl open_with_ttl_if c_ttls c_array
  ttl-OpensWithTtl false opts name cf_names cf_opts ttls w v = refl
  ttl-OpensWithTtl true opts name cf_names cf_opts [] w v = refl
  ttl-OpensWithTtl true opts name cf_names cf_opts (ttl ∷ ttls) w v =
      elim (Bool-cases (ltb (length (ttl ∷ ttls)) (length cf_names))) [
        | inl short ↦ inr (ground (arith, short), rw short refl)
        | inr long ↦ inl (
          ground (arith, long),
          OpensFamilies-cong true w _ name cf_names _ _ _
              (enough_ttls opts name cf_names cf_opts ttl ttls w long)
              (open_if-OpensFamilies w v true _ name cf_names _),
        )
      ]

  -- Opening with column families that expire does nothing but return the error
  -- ErrColumnFamilyMustMatch when the numbers of names and options differ; it panics when there is no
  -- number of seconds, and C reads past their end when there are fewer than column families; otherwise
  -- it opens like the other functions, with those numbers. Opening as a secondary instance gives RocksDB
  -- both paths up to their first zero bytes, returns its database, or its failure as an error with none,
  -- and frees the copies of the paths.
  pub others-Open :
      (opts : Options) (name secondary_path : Bytes) (cf_names : List Bytes)
      (cf_opts : List Options) (ttls : List ℤ) (w : World S)
      → IsValid w
      → OpensWithTtl
          (length cf_names == length cf_opts)
          w
          opts
          name
          cf_names
          cf_opts
          ttls
          (open_db_column_families_with_ttl opts name cf_names cf_opts ttls)
        × Opens
            (new_db opts name)
            w
            (open_db_as_secondary opts name secondary_path)
            (rocksdb_open_as_secondary opts.c (until_nul name) (until_nul secondary_path))
  unfolding open_db_column_families_with_ttl open_db_as_secondary Opens after_all
  others-Open opts name secondary_path cf_names cf_opts ttls w v =
      let texts = map c_string (name ∷ secondary_path ∷ []) in
      let u = after_all texts w in
      let u-IsValid : IsValid u = after_all-IsValid texts w v in
      (
        ttl-OpensWithTtl (length cf_names == length cf_opts) opts name cf_names cf_opts ttls w v,
        with_two_names w v _ _ name secondary_path _ (opens _ _ u u-IsValid),
      )
