-- ===== src/Cgo/Objects.antt =====
-- Native objects that several pointers of a Go struct own: each pointer is NULL or has a block of its
-- own. An object is a block whose contents are what its creation was given.
pub mod Owners
use grocksdb.Base.{
  ℕ, ◌≡◌, ◌≢◌, refl, ◌∙◌, Option, none, some, List, [], ◌∷◌, ◌++◌, Bytes, arith, ◌==◌,
}
use grocksdb.Base.{ap, sym, if◌then◌else◌, true, false, ◌⊎◌, inl, inr, suc, ◌≤◌}
use grocksdb.Cgo.Memory.{
  Ptr, null, Heap, World, Cmd, ◌>>=◌, ◌>>◌, pure, update, malloc, free, and_then,
}
use grocksdb.Cgo.Returns.{Returns, returns, bind, mono, IsValid}
use grocksdb.Cgo.Laws.{ne_null, free-done}

abbrev pub NotIn : Ptr → List Ptr → Type 0
NotIn q [] = Unit
NotIn q (p ∷ ps) = (q ≢ p) × NotIn q ps

abbrev pub IsAllocated : Heap → Ptr → Type 0
IsAllocated h p = (b : Bytes) × (h p ≡ some b)

abbrev pub Live : Heap → List Ptr → Type 0
Live h [] = Unit
Live h (p ∷ ps) = ((p ≡ null) ⊎ (IsAllocated h p × NotIn p ps)) × Live h ps

-- The heap without the objects of `ps`.
unfoldable pub erase : List Ptr → Heap → Heap
erase [] h r = h r
erase (p ∷ ps) h r = if r == p then none else erase ps h r

-- The pointers `ps` own their objects, and the rest of the heap is `g`.
pub record Owned {S : Type 0} (g : Heap) (w : World S) (ps : List Ptr) : Type 0 where
  pub valid : IsValid w
  pub live : Live w.heap ps
  pub rest : (r : Ptr) → erase ps w.heap r ≡ g r

-- A change of the heap at `p` alone.
Frame : Ptr → Heap → Heap → Type 0
Frame p h k = (r : Ptr) → r ≢ p → k r ≡ h r

Live-Frame :
    (p : Ptr) (h k : Heap) (ps : List Ptr) → Frame p h k → NotIn p ps → Live h ps → Live k ps
unfolding Frame
Live-Frame p h k [] f n l = tt
Live-Frame p h k (q ∷ ps) f (ne, n) (inl e, l) = (inl e, Live-Frame p h k ps f n l)
Live-Frame p h k (q ∷ ps) f (ne, n) (inr ((b, a), d), l) =
    (inr ((b, f q (λ e. ne (ground arith)) ∙ a), d), Live-Frame p h k ps f n l)

Live-absent :
    (p : Ptr) (h k : Heap) (ps : List Ptr) → Frame p h k → h p ≡ none → Live h ps → Live k ps
unfolding Frame
Live-absent p h k [] f z l = tt
Live-absent p h k (q ∷ ps) f z (inl e, l) = (inl e, Live-absent p h k ps f z l)
Live-absent p h k (q ∷ ps) f z (inr ((b, a), d), l) =
    (inr ((b, f q (λ e. ground arith) ∙ a), d), Live-absent p h k ps f z l)

NotIn-null :
    (x : Ptr) (xs ys : List Ptr) (p : Ptr)
    → x ≢ null
    → NotIn x (xs ++ p ∷ ys)
    → NotIn x (xs ++ null ∷ ys)
NotIn-null x [] ys p ne (e, n) = (ne, n)
NotIn-null x (y ∷ xs) ys p ne (e, n) = (e, NotIn-null x xs ys p ne n)

NotIn-replace :
    (x : Ptr) (xs ys : List Ptr) (q : Ptr)
    → x ≢ q
    → NotIn x (xs ++ null ∷ ys)
    → NotIn x (xs ++ q ∷ ys)
NotIn-replace x [] ys q ne (e, n) = (ne, n)
NotIn-replace x (y ∷ xs) ys q ne (e, n) = (e, NotIn-replace x xs ys q ne n)

NotIn-middle : (x : Ptr) (xs ys : List Ptr) (p : Ptr) → NotIn x (xs ++ p ∷ ys) → x ≢ p
NotIn-middle x [] ys p (e, n) = e
NotIn-middle x (y ∷ xs) ys p (e, n) = NotIn-middle x xs ys p n

-- Once the object in the middle is gone, its pointer counts as NULL.
Live-null :
    (h k : Heap) (xs ys : List Ptr) (p : Ptr)
    → h null ≡ none
    → Frame p h k
    → Live h (xs ++ p ∷ ys)
    → Live k (xs ++ null ∷ ys)
unfolding Frame
Live-null h k [] ys p z f (inr (a, n), l) = (inl refl, Live-Frame p h k ys f n l)
Live-null h k [] ys p z f (inl e, l) = (inl refl, Live-absent p h k ys f (ap h e ∙ z) l)
Live-null h k (x ∷ xs) ys p z f (inl e, l) = (inl e, Live-null h k xs ys p z f l)
Live-null h k (x ∷ xs) ys p z f (inr ((b, a), n), l) =
    let ne : x ≢ null = λ e. ground arith in
    (
      inr ((b, f x (NotIn-middle x xs ys p n) ∙ a), NotIn-null x xs ys p ne n),
      Live-null h k xs ys p z f l,
    )

-- A new object takes the place of NULL.
Live-install :
    (h : Heap) (xs ys : List Ptr) (q : Ptr)
    → IsAllocated h q
    → NotIn q (xs ++ null ∷ ys)
    → Live h (xs ++ null ∷ ys)
    → Live h (xs ++ q ∷ ys)
Live-install h [] ys q a (ne, n) (d, l) = (inr (a, n), l)
Live-install h (x ∷ xs) ys q a (ne, n) (inl e, l) = (inl e, Live-install h xs ys q a n l)
Live-install h (x ∷ xs) ys q a (ne, n) (inr (b, d), l) =
    (inr (b, NotIn-replace x xs ys q (λ e. ne (sym e)) d), Live-install h xs ys q a n l)

-- A new block is none of the objects.
NotIn-fresh : (h : Heap) (q : Ptr) (ps : List Ptr) → q ≢ null → h q ≡ none → Live h ps → NotIn q ps
NotIn-fresh h q [] nz z l = tt
NotIn-fresh h q (p ∷ ps) nz z (inl e, l) = (λ d. nz (d ∙ e), NotIn-fresh h q ps nz z l)
NotIn-fresh h q (p ∷ ps) nz z (inr ((b, a), n), l) = (λ d. ground arith, NotIn-fresh h q ps nz z l)

erase-middle :
    (xs ys : List Ptr) (p : Ptr) (h : Heap) (r : Ptr)
    → erase (xs ++ p ∷ ys) h r ≡ (if r == p then none else erase (xs ++ ys) h r)
unfolding erase
erase-middle [] ys p h r = refl
erase-middle (x ∷ xs) ys p h r = ground (arith, erase-middle xs ys p h r)

erase_cong : (ps : List Ptr) (h k : Heap) (r : Ptr) → k r ≡ h r → erase ps k r ≡ erase ps h r
unfolding erase
erase_cong [] h k r e = e
erase_cong (p ∷ ps) h k r e = ground (arith, erase_cong ps h k r e)

erase-NotIn : (ps : List Ptr) (h : Heap) (r : Ptr) → NotIn r ps → erase ps h r ≡ h r
unfolding erase
erase-NotIn [] h r n = refl
erase-NotIn (p ∷ ps) h r (ne, n) = ground (arith, erase-NotIn ps h r n)

Live-middle :
    (h : Heap) (xs ys : List Ptr) (p : Ptr) → Live h (xs ++ p ∷ ys) → (p ≡ null) ⊎ IsAllocated h p
Live-middle h [] ys p (inl e, l) = inl e
Live-middle h [] ys p (inr (a, n), l) = inr a
Live-middle h (x ∷ xs) ys p (d, l) = Live-middle h xs ys p l

erase-none : (ps : List Ptr) (h : Heap) (r : Ptr) → h r ≡ none → erase ps h r ≡ none
unfolding erase
erase-none [] h r e = e
erase-none (p ∷ ps) h r e = ground (arith, erase-none ps h r e)
