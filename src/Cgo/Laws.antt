-- ===== src/Cgo/Laws.antt =====
-- One step of memory: reads and frees of a block that is there.
use grocksdb.Base.{ℕ, ◌≡◌, ◌≤◌, true, false, some, none, Bytes, arith, length, take, ◌==◌}
use grocksdb.Base.Int.{pos}
use grocksdb.Cgo.Memory.{Ptr, null, World, done, update, has_nul, until_nul, load, free, go_string}
use grocksdb.Cgo.Memory.{go_bytes}
use grocksdb.Cgo.Returns.{IsValid, Returns, returns, Clean}
use grocksdb.Base.{suc, refl}
use grocksdb.Cgo.Memory.{fault, bad_free}

module _ {S : Type 0} where
  -- An allocated address is not NULL.
  pub ne_null :
      {w : World S} {b : Bytes} (p : Ptr) → IsValid w → w.heap p ≡ some b → (p == null) ≡ false
  ne_null p v e = ground (arith, v.no_null)

module _ {S : Type 0} (w : World S) (p : Ptr) (b : Bytes) (n : (p == null) ≡ false)
    (e : w.heap p ≡ some b) where
  pub load-done : load p w ≡ done b w
  unfolding load
  load-done = rw (e, load)

  pub free-done : free p w ≡ done tt (record w { heap = update w.heap p none })
  unfolding free
  free-done = rw (n, e)

  pub go_string-done : has_nul b ≡ true → go_string p w ≡ done (until_nul b) w
  unfolding go_string
  go_string-done h = rw (n, load-done, h)

  pub go_bytes-done : (k : ℕ) → k ≤ length b → go_bytes p (pos k) w ≡ done (take k b) w
  unfolding go_bytes
  go_bytes-done k h = ground (arith, load-done)

pub free_missing :
    {S : Type 0} (w : World S) (p : Ptr)
    → (p == null) ≡ false
    → w.heap p ≡ none
    → free p w ≡ fault bad_free
unfolding free
free_missing w p n e = rw (n, e)

-- The world after `malloc` of a block `b`.
abbrev pub after_malloc : {S : Type 0} → Bytes → World S → World S
after_malloc b w = record w { heap = update w.heap w.next (some b); next = suc w.next }

module _ {S : Type 0} (b : Bytes) (w : World S) (v : IsValid w) where
  pub next-ne_null : (w.next == null) ≡ false
  next-ne_null = ground (arith, v.nonzero)

  pub after_malloc-IsValid : IsValid (after_malloc b w)
  after_malloc-IsValid = record {
    nonzero = omega arith;
    fresh = λ p h. ground (arith, v.fresh p);
    no_null = ground (arith, v.no_null, v.nonzero);
  }

  -- Freeing a new block brings the heap back.
  pub free-malloc :
      Returns (λ _ u. (u.rocks ≡ w.rocks) × Clean w u) (free w.next (after_malloc b w))
  free-malloc =
      let e : (after_malloc b w).heap w.next ≡ some b = ground arith in
      rw (free-done (after_malloc b w) w.next b next-ne_null e)
        (returns (refl, record { same = λ p. ground (arith, v.fresh p); grows = omega arith }))
