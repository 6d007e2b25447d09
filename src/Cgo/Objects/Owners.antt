-- ===== src/Cgo/Objects/Owners.antt =====
-- What creating, freeing and moving a native object does to who owns it.
use grocksdb.Base.{
  subst, Bool-cases, if◌then◌else◌, ◌≡◌, refl, ◌∙◌, sym, none, some, List, ◌∷◌, ◌++◌, Bytes, arith,
  ◌==◌,
}
use grocksdb.Base.{inl, inr}
use grocksdb.Cgo.Memory.{Ptr, null, Heap, World, pure, update, free}
use grocksdb.Cgo.Returns.{Returns, returns}
use grocksdb.Cgo.Laws.{ne_null, after_malloc, after_malloc-IsValid}
use grocksdb.Cgo.Objects.{
  NotIn, Frame, erase, Owned, Live-Frame, Live-null, Live-install, NotIn-fresh, erase-middle,
  erase_cong, erase-NotIn, erase-none, Live-middle,
}

module _ {S : Type 0} (g : Heap) (w : World S) where
  pub next_absent : (ps : List Ptr) → Owned g w ps → g w.next ≡ none
  next_absent ps o =
      let z : w.heap w.next ≡ none = o.valid.fresh w.next (omega arith) in
      sym (o.rest w.next)
      ∙ erase-NotIn ps w.heap w.next (NotIn-fresh w.heap w.next ps o.valid.nonzero z o.live)
      ∙ z

  -- A new object is owned beside the others.
  pub malloc-Owned :
      (b : Bytes) (ps : List Ptr) → Owned g w ps → Owned g (after_malloc b w) (w.next ∷ ps)
  unfolding erase Frame
  malloc-Owned b ps o =
      let u = after_malloc b w in
      let z : w.heap w.next ≡ none = o.valid.fresh w.next (omega arith) in
      let n : NotIn w.next ps = NotIn-fresh w.heap w.next ps o.valid.nonzero z o.live in
      let absent : g w.next ≡ none = sym (o.rest w.next) ∙ erase-NotIn ps w.heap w.next n ∙ z in
      record {
        valid = after_malloc-IsValid b w o.valid;
        live = (
          inr ((b, ground arith), n),
          Live-Frame w.next w.heap u.heap ps (λ r ne. ground arith) n o.live,
        );
        rest = λ r. ground (arith, absent, o.rest r, erase_cong ps w.heap u.heap r);
      }

  -- A block that nobody frees belongs to the rest.
  pub malloc_rest-Owned :
      (b : Bytes) (ps : List Ptr)
      → Owned g w ps
      → Owned (update g w.next (some b)) (after_malloc b w) ps
  unfolding Frame
  malloc_rest-Owned b ps o =
      let u = after_malloc b w in
      let z : w.heap w.next ≡ none = o.valid.fresh w.next (omega arith) in
      let n : NotIn w.next ps = NotIn-fresh w.heap w.next ps o.valid.nonzero z o.live in
      record {
        valid = after_malloc-IsValid b w o.valid;
        live = Live-Frame w.next w.heap u.heap ps (λ r ne. ground arith) n o.live;
        rest = λ r.
            ground (arith, o.rest r, erase_cong ps w.heap u.heap r, erase-NotIn ps u.heap w.next n);
      }

  pub rocks-Owned : (x : S) (ps : List Ptr) → Owned g w ps → Owned g (record w { rocks = x }) ps
  rocks-Owned x ps o = record {
    valid = record { nonzero = o.valid.nonzero; fresh = o.valid.fresh; no_null = o.valid.no_null };
    live = o.live;
    rest = o.rest;
  }

  -- Freeing an object, or NULL, leaves its owner without one.
  pub free-Owned :
      (xs : List Ptr) (p : Ptr) (ys : List Ptr)
      → Owned g w (xs ++ p ∷ ys)
      → Returns (λ _ u. Owned g u (xs ++ null ∷ ys)) (free p w)
  unfolding free Frame
  free-Owned xs p ys o = elim (Live-middle w.heap xs ys p o.live) [
    | inl e ↦ rw e (returns (rw e at o))
    | inr (b, e) ↦
        let u : World S = record w { heap = update w.heap p none } in
        rw (ne_null p o.valid e, e)
          (returns (record {
            valid = record {
              nonzero = o.valid.nonzero;
              fresh = λ r le. ground (arith, o.valid.fresh r);
              no_null = ground (arith, o.valid.no_null);
            };
            live = Live-null w.heap u.heap xs ys p o.valid.no_null (λ r ne. ground arith) o.live;
            rest = λ r. ground (
              arith,
              o.rest r,
              erase-middle xs ys null u.heap r,
              erase-middle xs ys p w.heap r,
              erase_cong (xs ++ ys) w.heap u.heap r,
              erase-none (xs ++ ys) u.heap r,
              o.valid.no_null,
            );
          }))
  ]

  -- The pointer to an object moves from one owner to another, which had none.
  pub move-Owned :
      (q : Ptr) (xs ys : List Ptr) → Owned g w (q ∷ xs ++ null ∷ ys) → Owned g w (xs ++ q ∷ ys)
  unfolding erase
  move-Owned q xs ys o = record {
    valid = o.valid;
    live =
        let (d, l) = o.live in
        elim d [ inl e ↦ rw e l | inr (a, n) ↦ Live-install w.heap xs ys q a n l ];
    rest = λ r. ground (
      arith,
      o.rest r,
      erase-middle xs ys null w.heap r,
      erase-middle xs ys q w.heap r,
      erase-none (xs ++ ys) w.heap r,
      o.valid.no_null,
    );
  }

  -- A pointer that is NULL owns nothing.
  pub null-Owned : (ps : List Ptr) → Owned g w ps → Owned g w (null ∷ ps)
  unfolding erase
  null-Owned ps o = record {
    valid = o.valid;
    live = (inl refl, o.live);
    rest = λ r. ground (arith, o.rest r, erase-none ps w.heap r, o.valid.no_null);
  }

  -- `if p != nil { free(p) }`
  pub free_unless_null-Owned :
      (xs : List Ptr) (p : Ptr) (ys : List Ptr)
      → Owned g w (xs ++ p ∷ ys)
      → Returns (λ _ u. Owned g u (xs ++ null ∷ ys)) ((if p == null then pure tt else free p) w)
  free_unless_null-Owned xs p ys o = elim (Bool-cases (p == null)) [
    | inl at ↦
        let e : p ≡ null = ground arith in
        rw at (returns (subst (λ q. Owned g w (xs ++ q ∷ ys)) e o))
    | inr off ↦ rw off (free-Owned xs p ys o)
  ]
