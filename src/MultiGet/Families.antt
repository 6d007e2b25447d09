-- ===== src/MultiGet/Families.antt =====
-- Reads of several keys from column families.
use grocksdb.Base.{◌≡◌, refl, ap, List, [], ◌∷◌, map, Bytes, length, length-map, take}
use grocksdb.Base.{arith, ◌⊎◌, inl, inr, ◌≤◌, ◌<◌, Bool-cases, ltb, false, true}
use grocksdb.Cgo.{Ptr, World, Cmd, fault, Fault}
use grocksdb.Cgo.Returns.{IsValid}
use grocksdb.Types.{ColumnFamilyHandle}
use grocksdb.Util.{c_array}
use grocksdb.MultiGet.{Answering, Got, multi_get_by, multi_get_cf_by}
use grocksdb.MultiGet.Works.{Gets, multi_get_by-Gets}

map_same :
    (cf : ColumnFamilyHandle) (keys : List Bytes)
    → take (length keys) (map (λ cf. cf.c) (map (λ _. cf) keys)) ≡ map (λ _. cf.c) keys
map_same cf [] = refl
map_same cf (key ∷ keys) = ap (λ l. cf.c ∷ l) (map_same cf keys)

module _ {S : Type 0} where
  -- Reads with a column family for each key. C reads past the end of an array of fewer.
  unfoldable pub GetsFrom :
      World S → List ColumnFamilyHandle → List Bytes → Cmd S Got → (List Ptr → Answering S) → Type 0
  GetsFrom w cfs keys m f =
      ((length keys ≤ length cfs) × Gets w keys m (f (take (length keys) (map (λ cf. cf.c) cfs))))
      ⊎ ((length cfs < length keys) × (m w ≡ fault Fault.bad_read))

  module _ (f : List Ptr → Answering S) (cfs : List ColumnFamilyHandle) (keys : List Bytes)
      (w : World S) where
    too_few :
        ltb (length (map (λ cf. cf.c) cfs)) (length keys) ≡ true
        → multi_get_cf_by f cfs keys w ≡ fault Fault.bad_read
    unfolding multi_get_cf_by c_array
    too_few e = rw e refl

    enough :
        ltb (length (map (λ cf. cf.c) cfs)) (length keys) ≡ false
        → multi_get_cf_by f cfs keys w
          ≡ multi_get_by (f (take (length keys) (map (λ cf. cf.c) cfs))) keys w
    unfolding multi_get_cf_by c_array
    enough e = rw e refl

    enough-Gets :
        IsValid w
        → ltb (length (map (λ cf. cf.c) cfs)) (length keys) ≡ false
        → Gets w keys (multi_get_cf_by f cfs keys) (f (take (length keys) (map (λ cf. cf.c) cfs)))
    unfolding Gets
    enough-Gets v e = rw (enough e) (multi_get_by-Gets _ keys w v)

  pub multi_get_cf_by-GetsFrom :
      (f : List Ptr → Answering S) (cfs : List ColumnFamilyHandle) (keys : List Bytes) (w : World S)
      → IsValid w
      → GetsFrom w cfs keys (multi_get_cf_by f cfs keys) f
  unfolding GetsFrom
  multi_get_cf_by-GetsFrom f cfs keys w v =
      let l = length-map (λ cf. cf.c) cfs in
      elim (Bool-cases (ltb (length (map (λ cf. cf.c) cfs)) (length keys))) [
        | inl short ↦ inr (ground (arith, l), too_few f cfs keys w short)
        | inr long ↦ inl (ground (arith, l), enough-Gets f cfs keys w v long)
      ]

  -- The same column family for every key.
  pub multi_get_one_cf-Gets :
      (f : List Ptr → Answering S) (cf : ColumnFamilyHandle) (keys : List Bytes) (w : World S)
      → IsValid w
      → Gets w keys (multi_get_cf_by f (map (λ _. cf) keys) keys) (f (map (λ _. cf.c) keys))
  multi_get_one_cf-Gets f cf keys w v =
      let l = length-map (λ cf. cf.c) (map (λ _. cf) keys) in
      let k = length-map (λ _. cf) keys in
      rw (map_same cf keys) at (enough-Gets f (map (λ _. cf) keys) keys w v (ground (arith, l, k)))
