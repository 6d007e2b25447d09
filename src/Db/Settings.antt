-- ===== src/Db/Settings.antt =====
-- db.go: SetOptions and SetOptionsCF.
mod Tests
use grocksdb.Base.{
  suc, ◌≡◌, refl, ap, ◌∙◌, false, some, none, Option, List, [], ◌∷◌, map, Bytes, arith, ◌==◌,
}
use grocksdb.Cgo.{
  Ptr, null, World, Cmd, Fault, Status, ◌>>=◌, pure, crash, and_then, done, malloc, update,
}
use grocksdb.Cgo.{c_string, c_string_of, until_nul, go_string, call_status}
use grocksdb.Cgo.Returns.{Returns, IsValid, Clean}
use grocksdb.Cgo.Laws.{after_malloc, after_malloc-IsValid, next-ne_null, go_string-done}
use grocksdb.Cgo.Blocks.{blocks_at, next_after, after_all, after_all-IsValid, head-after_all}
use grocksdb.Util.{from_c_error, go_strings}
use grocksdb.Util.Names.{go_string-at}
use grocksdb.Util.Errors.{go_error}
use grocksdb.Util.Relay.{Relays, relay}
use grocksdb.Util.Strings.{has_nul-c_string, until_nul-c_string}
use grocksdb.Types.{Db, ColumnFamilyHandle}

-- The C functions that are called here, on names and values of options.
pub record SettingsApi (S : Type 0) : Type 0 where
  pub rocksdb_set_options : Ptr → List Bytes → List Bytes → S → Status × S
  pub rocksdb_set_options_cf : Ptr → Ptr → List Bytes → List Bytes → S → Status × S

module _ {S : Type 0} where
  -- The loop over the keys; `values[i]` panics past the end.
  unfoldable pub c_pairs_of : (keys values : List Bytes) → Cmd S (List Ptr × List Ptr)
  c_pairs_of [] values = pure ([], [])
  c_pairs_of (k ∷ keys) [] = do p ← c_string_of k; crash Fault.panic
  c_pairs_of (k ∷ keys) (v ∷ values) = do
    p ← c_string_of k
    q ← c_string_of v
    (ps, qs) ← c_pairs_of keys values
    pure (p ∷ ps, q ∷ qs)

module _ {S : Type 0} (api : SettingsApi S) where
  open api use {rocksdb_set_options, rocksdb_set_options_cf}

  -- C reads the texts behind the pointers.
  unfoldable pub set_options : (db : Db) (keys values : List Bytes) → Cmd S (Option Bytes)
  unfolding c_pairs_of
  set_options db [] values = pure none
  set_options db (k ∷ keys) values = do
    (c_keys, c_values) ← c_pairs_of (k ∷ keys) values
    names ← go_strings c_keys
    settings ← go_strings c_values
    c_err ← call_status (rocksdb_set_options db.c names settings)
    from_c_error c_err

  unfoldable pub set_options_cf :
      (db : Db) (cf : ColumnFamilyHandle) (keys values : List Bytes) → Cmd S (Option Bytes)
  unfolding c_pairs_of
  set_options_cf db cf [] values = pure none
  set_options_cf db cf (k ∷ keys) values = do
    (c_keys, c_values) ← c_pairs_of (k ∷ keys) values
    names ← go_strings c_keys
    settings ← go_strings c_values
    c_err ← call_status (rocksdb_set_options_cf db.c cf.c names settings)
    from_c_error c_err

-- Options with their values, and the C strings that are made of them, in order.
abbrev pub Settings : Type 0
Settings = List (Bytes × Bytes)

pub texts : Settings → List Bytes
texts [] = []
texts ((k, v) ∷ ps) = c_string k ∷ c_string v ∷ texts ps

-- Every other address from `n` on.
evens : Settings → Ptr → List Ptr
evens [] n = []
evens (x ∷ ps) n = n ∷ evens ps (suc (suc n))

module _ {S : Type 0} where
  c_pairs_of-done :
      (ps : Settings) (w : World S)
      → c_pairs_of (map (λ p. p.0) ps) (map (λ p. p.1) ps) w
        ≡ done (evens ps w.next, evens ps (suc w.next)) (after_all (texts ps) w)
  unfolding c_pairs_of c_string_of malloc evens texts after_all blocks_at next_after
  c_pairs_of-done [] w = refl
  c_pairs_of-done ((k, v) ∷ ps) w =
      let z = after_malloc (c_string v) (after_malloc (c_string k) w) in
      ap (λ r. and_then r (λ (qs, rs). pure (w.next ∷ qs, (suc w.next) ∷ rs)))
        (c_pairs_of-done ps z)

  go_strings-evens :
      (ps : Settings) (w u : World S)
      → IsValid w
      → ((p : Ptr) → u.heap p ≡ (after_all (texts ps) w).heap p)
      → (go_strings (evens ps w.next) u ≡ done (map (λ p. until_nul p.0) ps) u)
        × (go_strings (evens ps (suc w.next)) u ≡ done (map (λ p. until_nul p.1) ps) u)
  unfolding go_strings evens texts after_all blocks_at next_after
  go_strings-evens [] w u v same = (refl, refl)
  go_strings-evens ((k, x) ∷ ps) w u v same =
      let y = after_malloc (c_string k) w in
      let y-IsValid : IsValid y = after_malloc-IsValid (c_string k) w v in
      let z = after_malloc (c_string x) y in
      let (names, settings) =
        go_strings-evens ps z u (after_malloc-IsValid (c_string x) y y-IsValid) same in
      (
        rw (go_string-at k (c_string x ∷ texts ps) w u v same, names) refl,
        rw (go_string-at x (texts ps) y u y-IsValid same, settings) refl,
      )

-- From the world `w` the command `m` runs without a fault and passes on the status of `f`; the heap is
-- then as it was once the texts of the settings were allocated, and holds them all.
unfoldable pub Leaks :
    {S : Type 0} → World S → Settings → Cmd S (Option Bytes) → (S → Status × S) → Type 0
Leaks w ps m f =
    Returns
      (λ e u.
        (e ≡ go_error (f w.rocks).0) × (u.rocks ≡ (f w.rocks).1) × Clean (after_all (texts ps) w) u)
      (m w)

abbrev pub keys_of : Settings → List Bytes
keys_of ps = map (λ p. p.0) ps

abbrev pub values_of : Settings → List Bytes
values_of ps = map (λ p. p.1) ps

-- What C reads of them.
abbrev pub names_read : Settings → List Bytes
names_read ps = map (λ p. until_nul p.0) ps

abbrev pub values_read : Settings → List Bytes
values_read ps = map (λ p. until_nul p.1) ps

module _ {S : Type 0} (api : SettingsApi S) where
  open api use {rocksdb_set_options, rocksdb_set_options_cf}

  -- For one option or more, each with a value, `SetOptions` and `SetOptionsCF` hand RocksDB every name
  -- and value up to its first zero byte, and return its failure as an error, nil otherwise. They do not
  -- free the C strings that they make: when they return, all of them are still allocated.
  pub set_options-Leaks :
      (db : Db) (cf : ColumnFamilyHandle) (p : Bytes × Bytes) (ps : Settings) (w : World S)
      → IsValid w
      → Leaks w
          (p ∷ ps)
          (set_options api db (keys_of (p ∷ ps)) (values_of (p ∷ ps)))
          (rocksdb_set_options db.c (names_read (p ∷ ps)) (values_read (p ∷ ps)))
        × Leaks w
            (p ∷ ps)
            (set_options_cf api db cf (keys_of (p ∷ ps)) (values_of (p ∷ ps)))
            (rocksdb_set_options_cf db.c cf.c (names_read (p ∷ ps)) (values_read (p ∷ ps)))
  unfolding set_options set_options_cf Leaks Relays after_all
  set_options-Leaks db cf p ps w v =
      let u = after_all (texts (p ∷ ps)) w in
      let u-IsValid : IsValid u = after_all-IsValid (texts (p ∷ ps)) w v in
      let (names, settings) = go_strings-evens (p ∷ ps) w u v (λ q. refl) in
      (
        rw (c_pairs_of-done (p ∷ ps) w, names, settings)
            (relay (rocksdb_set_options db.c (names_read (p ∷ ps)) (values_read (p ∷ ps))) u
              u-IsValid),
        rw (c_pairs_of-done (p ∷ ps) w, names, settings)
            (relay (rocksdb_set_options_cf db.c cf.c (names_read (p ∷ ps)) (values_read (p ∷ ps))) u
              u-IsValid),
      )
