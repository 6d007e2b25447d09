-- ===== src/Callbacks/Comparator/Calls.antt =====
-- comparator.go: what RocksDB is answered when it calls a registered comparator.
use grocksdb.Base.{ℕ, ◌*◌, ◌^◌, ◌-◌, ◌≤◌, ◌<◌, ◌≡◌, arith, Bool, none, some}
use grocksdb.Base.{Bytes, length}
use grocksdb.Base.Int.{ℤ, pos, negsuc, c_int, c_int-pos, c_int-negsuc}
use grocksdb.Cgo.{Ptr, null, World, done}
use grocksdb.Cgo.Returns.{IsValid, Returns}
use grocksdb.CowList.{get}
use grocksdb.Callbacks.{registered, registered-done}
use grocksdb.Util.{ref_c_bytes, bool_to_char}
use grocksdb.Util.Strings.{char_to_bool-bool_to_char}
use grocksdb.Util.Views.{Holds, ref_c_bytes-Holds}
use grocksdb.Callbacks.Comparator.{Comparing, ComparingWithoutTimestamp, Comparators}
use grocksdb.Callbacks.Comparator.{ComparatorWrapper, ComparatorApi}
use grocksdb.Callbacks.Comparator.{gorocksdb_comparator_compare, gorocksdb_comparator_compare_ts}
use grocksdb.Callbacks.Comparator.{gorocksdb_comparator_compare_without_ts}
use grocksdb.Callbacks.Comparator.{gorocksdb_comparator_name}

-- The values that fit a C int.
abbrev pub IsInt32 : ℤ → Type 0
IsInt32 (pos n) = n < 2 ^ 31
IsInt32 (negsuc n) = n < 2 ^ 31

pub c_int-IsInt32 : (z : ℤ) → IsInt32 z → c_int z ≡ z
c_int-IsInt32 (pos n) h = c_int-pos n h
c_int-IsInt32 (negsuc n) h = c_int-negsuc n h

c_int_large : (n : ℕ) → 2 ^ 31 ≤ n → n < 2 ^ 32 → c_int (pos n) ≡ negsuc (2 ^ 32 - n - 1)
unfolding c_int
c_int_large n lo hi = ground arith

c_int_multiple : (n : ℕ) → c_int (pos (n * 2 ^ 32)) ≡ pos 0
unfolding c_int
c_int_multiple n = ground arith

module _ {S : Type 0} (w : World S) (valid : IsValid w) (registry : Comparators) (idx : ℕ)
    (wrapper : ComparatorWrapper) (found : get registry idx ≡ some wrapper) (p_a p_b : Ptr)
    (a b : Bytes) (at_a : Holds w p_a a) (at_b : Holds w p_b b) where
  read_a : ref_c_bytes p_a (length a) w ≡ done a w
  read_a = ref_c_bytes-Holds w valid p_a a at_a

  read_b : ref_c_bytes p_b (length b) w ≡ done b w
  read_b = ref_c_bytes-Holds w valid p_b b at_b

  reached : registered registry idx w ≡ done wrapper w
  reached = registered-done registry idx wrapper w found

  -- A registered comparator whose three functions are set and answer within a C int on the two keys
  -- is called with the bytes that C holds and the flags that it passes; C gets its answer unchanged,
  -- and nothing else changes.
  pub comparator_callbacks :
      (compare compare_ts : Comparing) (compare_without_ts : ComparingWithoutTimestamp)
      (a_has_ts b_has_ts : Bool)
      → wrapper.comparator.compare ≡ some compare
      → wrapper.comparator.compare_ts ≡ some compare_ts
      → wrapper.comparator.compare_without_ts ≡ some compare_without_ts
      → IsInt32 (compare a b)
      → IsInt32 (compare_ts a b)
      → IsInt32 (compare_without_ts a a_has_ts b b_has_ts)
      → (gorocksdb_comparator_compare registry idx p_a (length a) p_b (length b) w
          ≡ done (compare a b) w)
        × (gorocksdb_comparator_compare_ts registry idx p_a (length a) p_b (length b) w
            ≡ done (compare_ts a b) w)
        × (gorocksdb_comparator_compare_without_ts registry idx p_a
              (length a)
              (bool_to_char a_has_ts)
              p_b
              (length b)
              (bool_to_char b_has_ts)
              w
            ≡ done (compare_without_ts a a_has_ts b b_has_ts) w)
        × (gorocksdb_comparator_name registry idx w ≡ done wrapper.name w)
  unfolding gorocksdb_comparator_compare gorocksdb_comparator_compare_ts
      gorocksdb_comparator_compare_without_ts gorocksdb_comparator_name
  comparator_callbacks f g h x y ef eg eh if_ ig ih = (
    rw (read_a, read_b, reached, ef, c_int-IsInt32 _ if_),
    rw (read_a, read_b, reached, eg, c_int-IsInt32 _ ig),
    rw (
      read_a,
      read_b,
      char_to_bool-bool_to_char x,
      char_to_bool-bool_to_char y,
      reached,
      eh,
      c_int-IsInt32 _ ih,
    ),
    rw reached,
  )

  -- An answer outside a C int is not believed: a positive one from 2^31 to 2^32 - 1 reaches C as a
  -- negative one, and a multiple of 2^32 as 0, so that the keys count as equal.
  pub comparator_compare_wraps :
      (compare : Comparing) (n : ℕ)
      → wrapper.comparator.compare ≡ some compare
      → (compare a b ≡ pos n
          → 2 ^ 31 ≤ n
          → n < 2 ^ 32
          → gorocksdb_comparator_compare registry idx p_a (length a) p_b (length b) w
            ≡ done (negsuc (2 ^ 32 - n - 1)) w)
        × (compare a b ≡ pos (n * 2 ^ 32)
            → gorocksdb_comparator_compare registry idx p_a (length a) p_b (length b) w
              ≡ done (pos 0) w)
  unfolding gorocksdb_comparator_compare
  comparator_compare_wraps f n ef = (
    λ e lo hi. rw (read_a, read_b, reached, ef, e, c_int_large n lo hi),
    λ e. rw (read_a, read_b, reached, ef, e, c_int_multiple n),
  )

module _ {S : Type 0} (api : ComparatorApi S) (registry : Comparators) (name : Bytes)
    (compare : Comparing) (w : World S) where
  open api use {gorocksdb_comparator_create}

  abbrev pub next_idx : ℕ
  next_idx = length registry

  abbrev pub new_wrapper : ComparatorWrapper
  new_wrapper = record {
    name = w.next;
    comparator = record {
      c = null;
      name = name;
      ts_size = 0;
      compare = some compare;
      compare_ts = none;
      compare_without_ts = none;
    };
  }
