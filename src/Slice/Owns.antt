-- ===== src/Slice/Owns.antt =====
-- slice.go: what a slice that a call returns promises, and that a value of RocksDB keeps it.
use grocksdb.Base.{ℕ, ◌≡◌, refl, false, Option, none, some, Bytes, length, take-length}
use grocksdb.Base.{arith, ◌==◌}
use grocksdb.Base.Int.{go_int}
use grocksdb.Cgo
use grocksdb.Cgo.{Ptr, null, World, Block, done, update, malloc, c_bytes_of, out_block}
use grocksdb.Cgo.Returns.{Returns, returns, mono, IsValid, Clean, Clean-refl}
use grocksdb.Cgo.Laws.{load-done, free-done, after_malloc, next-ne_null}
use grocksdb.Util.{ref_c_bytes}
use grocksdb.Slice.{Slice, new_slice, exists, size, data_of, free}

abbrev pub size_of : Option Bytes → ℕ
size_of none = 0
size_of (some v) = length v

-- In the world `w'` the slice `s` gives the value `v`, nil if there is none, and its size. Freeing it
-- brings back the heap of `w` and the slice then has no data; freeing it again does nothing.
pub record Owns {S : Type 0} (w w' : World S) (s : Slice) (v : Option Bytes) : Type 0 where
  pub reads : data_of s w' ≡ done v w'
  pub measures : size s ≡ go_int (size_of v)
  pub frees :
      Returns
        (λ s' u.
          (exists s' ≡ false)
          × (u.rocks ≡ w'.rocks)
          × Clean w u
          × ((u' : World S) → free s' u' ≡ done s' u'))
        (free s w')

module _ {S : Type 0} (w : World S) (valid : IsValid w) where
  -- The slice of NULL owns nothing.
  pub no_block-Owns : Owns w w (new_slice null 0) none
  unfolding data_of exists size new_slice free Cgo.free
  no_block-Owns = record {
    reads = refl;
    measures = refl;
    frees = returns (refl, refl, Clean-refl w, λ u'. refl);
  }

  -- The slice of a new block owns it.
  pub block-Owns : (v : Bytes) → Owns w (after_malloc v w) (new_slice w.next (length v)) (some v)
  unfolding data_of exists size new_slice free ref_c_bytes
  block-Owns v =
      let u : World S = after_malloc v w in
      let n : (w.next == null) ≡ false = next-ne_null v w valid in
      let e : u.heap w.next ≡ some v = ground arith in
      record {
        reads = rw (n, load-done u w.next v n e) (ground (arith, take-length v));
        measures = refl;
        frees = rw (free-done u w.next v n e) (
            returns (
              refl,
              refl,
              record { same = λ p. ground (arith, valid.fresh p); grows = omega arith },
              λ u'. refl,
            ));
      }

-- What RocksDB does to its own state does not matter to a slice.
pub rocks-Owns :
    {S : Type 0} (w w' : World S) (r : S) (s : Slice) (v : Option Bytes)
    → Owns (record w { rocks = r }) w' s v
    → Owns w w' s v
rocks-Owns w w' r s v o = record {
  reads = o.reads;
  measures = o.measures;
  frees = mono o.frees (λ s' u (gone, rocks, clean, again).
      (gone, rocks, record { same = clean.same; grows = clean.grows }, again));
}
