-- ===== src/Cgo/Cells.antt =====
-- Blocks with their contents, beside a heap: which of them a command has allocated and not yet freed.
use grocksdb.Base.{◌≡◌, refl, ◌∙◌, sym, none, some, List, [], ◌∷◌, ◌++◌, Bytes, arith, ◌==◌}
use grocksdb.Base.{if◌then◌else◌}
use grocksdb.Cgo.Memory.{Ptr, Heap, World, update, free}
use grocksdb.Cgo.Returns.{Returns, returns, IsValid}
use grocksdb.Cgo.Laws.{after_malloc, after_malloc-IsValid, free-done, ne_null}

abbrev pub Cell : Type 0
Cell = Ptr × Bytes

-- The heap `g` with the cells `cs`.
unfoldable pub put : List Cell → Heap → Heap
put [] g r = g r
put ((p, b) ∷ cs) g r = if r == p then some b else put cs g r

-- The cells are at different addresses, at which `g` has nothing.
abbrev pub Apart : Heap → List Cell → Type 0
Apart g [] = Unit
Apart g ((p, b) ∷ cs) = (put cs g p ≡ none) × Apart g cs

-- The heap of `w` is `g` with the cells `cs`.
pub record Cells {S : Type 0} (g : Heap) (w : World S) (cs : List Cell) : Type 0 where
  pub valid : IsValid w
  pub same : (r : Ptr) → w.heap r ≡ put cs g r
  pub apart : Apart g cs

pub put-append : (cs ds : List Cell) (g : Heap) (r : Ptr) → put (cs ++ ds) g r ≡ put cs (put ds g) r
unfolding put
put-append [] ds g r = refl
put-append ((p, b) ∷ cs) ds g r = ground (arith, put-append cs ds g r)

put_cong : (cs : List Cell) (g h : Heap) (r : Ptr) → g r ≡ h r → put cs g r ≡ put cs h r
unfolding put
put_cong [] g h r e = e
put_cong ((p, b) ∷ cs) g h r e = ground (arith, put_cong cs g h r e)

put-middle :
    (xs : List Cell) (p : Ptr) (b : Bytes) (ys : List Cell) (g : Heap)
    → Apart g (xs ++ (p, b) ∷ ys)
    → put (xs ++ (p, b) ∷ ys) g p ≡ some b
unfolding put
put-middle [] p b ys g a = ground arith
put-middle ((q, c) ∷ xs) p b ys g (z, a) = ground (arith, put-middle xs p b ys g a)

put-remove :
    (xs : List Cell) (p : Ptr) (b : Bytes) (ys : List Cell) (g : Heap) (r : Ptr)
    → Apart g (xs ++ (p, b) ∷ ys)
    → update (put (xs ++ (p, b) ∷ ys) g) p none r ≡ put (xs ++ ys) g r
unfolding put
put-remove [] p b ys g r (z, a) = ground arith
put-remove ((q, c) ∷ xs) p b ys g r (z, a) =
    ground (arith, put-middle xs p b ys g a, put-remove xs p b ys g r a)

put-none :
    (xs : List Cell) (p : Ptr) (b : Bytes) (ys : List Cell) (g : Heap) (r : Ptr)
    → put (xs ++ (p, b) ∷ ys) g r ≡ none
    → put (xs ++ ys) g r ≡ none
unfolding put
put-none [] p b ys g r z = ground arith
put-none ((q, c) ∷ xs) p b ys g r z = ground (arith, put-none xs p b ys g r)

Apart-remove :
    (xs : List Cell) (p : Ptr) (b : Bytes) (ys : List Cell) (g : Heap)
    → Apart g (xs ++ (p, b) ∷ ys)
    → Apart g (xs ++ ys)
Apart-remove [] p b ys g (z, a) = a
Apart-remove ((q, c) ∷ xs) p b ys g (z, a) = (put-none xs p b ys g q z, Apart-remove xs p b ys g a)

Apart-append :
    (cs ds : List Cell) (g h : Heap)
    → ((r : Ptr) → h r ≡ put cs g r)
    → Apart g cs
    → Apart h ds
    → Apart g (ds ++ cs)
Apart-append cs [] g h e a d = a
Apart-append cs ((p, b) ∷ ds) g h e a (z, d) = (
  put-append ds cs g p ∙ sym (put_cong ds h (put cs g) p (e p)) ∙ z,
  Apart-append cs ds g h e a d,
)

module _ {S : Type 0} where
  pub Cells-none : (w : World S) → IsValid w → Cells w.heap w []
  unfolding put
  Cells-none w v = record { valid = v; same = λ r. refl; apart = tt }

  pub Cells-malloc :
      (b : Bytes) (w : World S) → IsValid w → Cells w.heap (after_malloc b w) ((w.next, b) ∷ [])
  unfolding put
  Cells-malloc b w v = record {
    valid = after_malloc-IsValid b w v;
    same = λ r. refl;
    apart = (v.fresh w.next (omega arith), tt);
  }

  -- What is allocated later stands before.
  pub Cells-append :
      (g : Heap) (w u : World S) (cs ds : List Cell)
      → Cells g w cs
      → Cells w.heap u ds
      → Cells g u (ds ++ cs)
  Cells-append g w u cs ds c d = record {
    valid = d.valid;
    same = λ r. d.same r ∙ put_cong ds w.heap (put cs g) r (c.same r) ∙ sym (put-append ds cs g r);
    apart = Apart-append cs ds g w.heap c.same c.apart d.apart;
  }

  pub Cells-rocks :
      (g : Heap) (w : World S) (cs : List Cell) (x : S)
      → Cells g w cs
      → Cells g (record w { rocks = x }) cs
  Cells-rocks g w cs x c = record {
    valid = record { nonzero = c.valid.nonzero; fresh = c.valid.fresh; no_null = c.valid.no_null };
    same = c.same;
    apart = c.apart;
  }

  module _ (g : Heap) (w : World S) (xs : List Cell) (p : Ptr) (b : Bytes) (ys : List Cell)
      (c : Cells g w (xs ++ (p, b) ∷ ys)) where
    pub Cells-there : w.heap p ≡ some b
    Cells-there = c.same p ∙ put-middle xs p b ys g c.apart

    pub Cells-free : Returns (λ _ u. (u.rocks ≡ w.rocks) × Cells g u (xs ++ ys)) (free p w)
    Cells-free = rw (free-done w p b (ne_null p c.valid Cells-there) Cells-there) (
        returns (
          refl,
          record {
            valid = record {
              nonzero = c.valid.nonzero;
              fresh = λ r le. ground (arith, c.valid.fresh r);
              no_null = ground (arith, c.valid.no_null);
            };
            same = λ r. ground (arith, c.same r) ∙ put-remove xs p b ys g r c.apart;
            apart = Apart-remove xs p b ys g c.apart;
          },
        ))
