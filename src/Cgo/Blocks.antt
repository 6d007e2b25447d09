-- ===== src/Cgo/Blocks.antt =====
-- Several blocks that are allocated one after the other, and freed in the same order.
use grocksdb.Base.{
  ℕ, suc, ◌≡◌, ◌≤◌, ◌<◌, refl, ◌∙◌, none, some, List, [], ◌∷◌, Bytes, arith, ap, ◌≢◌,
}
use grocksdb.Cgo.Memory.{
  Ptr, Heap, World, Cmd, ◌>>=◌, ◌>>◌, pure, update, malloc, free, and_then, done,
}
use grocksdb.Cgo.Returns.{Returns, returns, mono, IsValid, Clean}
use grocksdb.Cgo.Laws.{after_malloc, free-done, after_malloc-IsValid}

module _ {S : Type 0} where
  unfoldable pub malloc_all : List Bytes → Cmd S (List Ptr)
  malloc_all [] = pure []
  malloc_all (b ∷ bs) = do p ← malloc b; ps ← malloc_all bs; pure (p ∷ ps)

  unfoldable pub free_all : List Ptr → Cmd S (Unit {0})
  free_all [] = pure tt
  free_all (p ∷ ps) = free p >> free_all ps

-- A heap with the blocks put at `n`, `n + 1`, and so on.
unfoldable pub blocks_at : List Bytes → ℕ → Heap → Heap
blocks_at [] n h = h
blocks_at (b ∷ bs) n h = blocks_at bs (suc n) (update h n (some b))

-- Those addresses.
unfoldable pub addresses : List Bytes → ℕ → List Ptr
addresses [] n = []
addresses (b ∷ bs) n = n ∷ addresses bs (suc n)

unfoldable pub next_after : List Bytes → ℕ → ℕ
next_after [] n = n
next_after (b ∷ bs) n = next_after bs (suc n)

blocks_at_below : (bs : List Bytes) (n : ℕ) (h : Heap) (q : Ptr) → q < n → blocks_at bs n h q ≡ h q
unfolding blocks_at
blocks_at_below [] n h q lt = refl
blocks_at_below (b ∷ bs) n h q lt =
    blocks_at_below bs (suc n) (update h n (some b)) q (omega arith) ∙ ground arith

blocks_at_cong :
    (bs : List Bytes) (n : ℕ) (g h : Heap)
    → ((p : Ptr) → g p ≡ h p)
    → (p : Ptr) → blocks_at bs n g p ≡ blocks_at bs n h p
unfolding blocks_at
blocks_at_cong [] n g h e p = e p
blocks_at_cong (b ∷ bs) n g h e p =
    blocks_at_cong bs (suc n) (update g n (some b)) (update h n (some b)) (λ q. ground (arith, e q))
      p

-- Removing a block below them.
blocks_at-update :
    (bs : List Bytes) (n : ℕ) (h : Heap) (q : Ptr)
    → q < n
    → (p : Ptr) → update (blocks_at bs n h) q none p ≡ blocks_at bs n (update h q none) p
unfolding blocks_at
blocks_at-update [] n h q lt p = refl
blocks_at-update (b ∷ bs) n h q lt p =
    blocks_at-update bs (suc n) (update h n (some b)) q (omega arith) p
    ∙ blocks_at_cong bs (suc n) (update (update h n (some b)) q none)
        (update (update h q none) n (some b)) (λ r. ground arith) p

next_after_le : (bs : List Bytes) (n : ℕ) → n ≤ next_after bs n
unfolding next_after
next_after_le [] n = omega arith
next_after_le (b ∷ bs) n = omega (arith, next_after_le bs (suc n))

module _ {S : Type 0} where
  -- The world with the blocks allocated.
  unfoldable pub after_all : List Bytes → World S → World S
  unfolding blocks_at next_after
  after_all bs w = record w { heap = blocks_at bs w.next w.heap; next = next_after bs w.next }

  pub after_all-IsValid : (bs : List Bytes) (w : World S) → IsValid w → IsValid (after_all bs w)
  unfolding after_all
  after_all-IsValid [] w v = record { nonzero = v.nonzero; fresh = v.fresh; no_null = v.no_null }
  after_all-IsValid (b ∷ bs) w v =
      after_all-IsValid bs (after_malloc b w) (after_malloc-IsValid b w v)

  pub malloc_all-done :
      (bs : List Bytes) (w : World S)
      → malloc_all bs w ≡ done (addresses bs w.next) (after_all bs w)
  unfolding malloc_all malloc addresses after_all
  malloc_all-done [] w = refl
  malloc_all-done (b ∷ bs) w =
      ap (λ r. and_then r (λ ps. pure (w.next ∷ ps))) (malloc_all-done bs (after_malloc b w))

  -- Freeing the blocks leaves the heap that they were put in.
  free_all-addresses :
      (bs : List Bytes) (n : ℕ) (h : Heap) (u : World S)
      → n ≢ 0
      → ((p : Ptr) → n ≤ p → h p ≡ none)
      → ((p : Ptr) → u.heap p ≡ blocks_at bs n h p)
      → Returns
          (λ _ u'. (u'.rocks ≡ u.rocks) × (u'.next ≡ u.next) × ((p : Ptr) → u'.heap p ≡ h p))
          (free_all (addresses bs n) u)
  unfolding free_all addresses blocks_at
  free_all-addresses [] n h u nz fresh same = returns (refl, refl, same)
  free_all-addresses (b ∷ bs) n h u nz fresh same =
      let h' = update h n (some b) in
      let e : u.heap n ≡ some b =
        same n ∙ blocks_at_below bs (suc n) h' n (omega arith) ∙ ground arith in
      let back : (p : Ptr) → update u.heap n none p ≡ blocks_at bs (suc n) h p = λ p.
        ground (arith, same p)
        ∙ blocks_at-update bs (suc n) h' n (omega arith) p
        ∙ blocks_at_cong bs (suc n) (update h' n none) h (λ r. ground (arith, fresh r)) p in
      rw (free-done u n b (ground arith) e) (
        free_all-addresses bs (suc n) h (record u { heap = update u.heap n none }) (omega arith)
          (λ p le. fresh p (omega arith)) back)

  -- Once the blocks are freed in a heap that still holds them, the heap is as it was before them.
  pub free_all-Clean :
      (bs : List Bytes) (w u : World S)
      → IsValid w
      → Clean (after_all bs w) u
      → Returns (λ _ u'. (u'.rocks ≡ u.rocks) × Clean w u') (free_all (addresses bs w.next) u)
  unfolding after_all
  free_all-Clean bs w u v clean =
      mono (free_all-addresses bs w.next w.heap u v.nonzero v.fresh clean.same)
        (λ _ u' (rocks, next, same). (
          rocks,
          record { same = same; grows = omega (arith, clean.grows, next_after_le bs w.next) },
        ))

  -- Each block is there.
  pub head-after_all :
      (b : Bytes) (bs : List Bytes) (w : World S) → (after_all (b ∷ bs) w).heap w.next ≡ some b
  unfolding after_all blocks_at
  head-after_all b bs w =
      blocks_at_below bs (suc w.next) (update w.heap w.next (some b)) w.next (omega arith)
      ∙ ground arith
