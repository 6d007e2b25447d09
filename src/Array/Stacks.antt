-- ===== src/Array/Stacks.antt =====
-- Blocks that are allocated one after the other, with others on top of them.
use grocksdb.Base.{
  ◌≡◌, refl, ◌∙◌, ap, sym, subst, List, [], ◌∷◌, ◌++◌, map, Bytes, length, take-length, arith,
}
use grocksdb.Base.{append_assoc}
use grocksdb.Cgo.{Ptr, World, done, malloc, c_bytes_of}
use grocksdb.Cgo.Returns.{Returns, returns, bind, mono, IsValid}
use grocksdb.Cgo.Laws.{after_malloc, after_malloc-IsValid, load-done, ne_null}
use grocksdb.Cgo.Cells.{
  Cell, Cells, Cells-none, Cells-malloc, Cells-append, Cells-free, Cells-there,
}
use grocksdb.Util.{ref_c_bytes}
use grocksdb.Array.{c_bytes_all, destroy, c_reads}

-- The last block is the first cell.
unfoldable pub stack : List Cell → List Cell
stack [] = []
stack (c ∷ cs) = stack cs ++ c ∷ []

-- The block `c` of a stack between what lies on it and under it.
stack_focus :
    (xs cs : List Cell) (c : Cell) (ys : List Cell)
    → xs ++ (stack (c ∷ cs) ++ ys) ≡ xs ++ stack cs ++ c ∷ ys
unfolding stack
stack_focus xs cs c ys =
    ap (λ l. xs ++ l) (append_assoc (stack cs) (c ∷ []) ys)
    ∙ sym (append_assoc xs (stack cs) (c ∷ ys))

module _ {S : Type 0} where
  pub c_bytes_all-Cells :
      (bs : List Bytes) (w : World S)
      → IsValid w
      → Returns
          (λ ps u.
            (u.rocks ≡ w.rocks)
            × ((cs : List Cell) × (ps ≡ map (λ c. c.0) cs)
                × (bs ≡ map (λ c. c.1) cs)
                × Cells w.heap u (stack cs)))
          (c_bytes_all bs w)
  unfolding c_bytes_all c_bytes_of malloc stack
  c_bytes_all-Cells [] w v = returns (refl, ([], refl, refl, Cells-none w v))
  c_bytes_all-Cells (b ∷ bs) w v =
      let u = after_malloc b w in
      bind (c_bytes_all-Cells bs u (after_malloc-IsValid b w v))
        (λ ps z (rocks, (cs, are, hold, c)). returns (
          rocks,
          (
            (w.next, b) ∷ cs,
            ap (λ l. w.next ∷ l) are,
            ap (λ l. b ∷ l) hold,
            Cells-append w.heap u z ((w.next, b) ∷ []) (stack cs) (Cells-malloc b w v) c,
          ),
        ))

  pub ref_c_bytes-Cells :
      (g : _) (w : World S) (xs : List Cell) (p : Ptr) (b : Bytes) (ys : List Cell)
      → Cells g w (xs ++ (p, b) ∷ ys)
      → ref_c_bytes p (length b) w ≡ done b w
  unfolding ref_c_bytes
  ref_c_bytes-Cells g w xs p b ys c =
      let e = Cells-there g w xs p b ys c in
      let n = ne_null p c.valid e in rw (n, load-done w p b n e) (ground (arith, take-length b))

  pub c_reads-Cells :
      (g : _) (w : World S) (xs cs ys : List Cell)
      → Cells g w (xs ++ (stack cs ++ ys))
      → c_reads (map (λ c. c.0) cs) (map length (map (λ c. c.1) cs)) w ≡ done (map (λ c. c.1) cs) w
  unfolding c_reads stack
  c_reads-Cells g w xs [] ys c = refl
  c_reads-Cells g w xs ((p, b) ∷ cs) ys c =
      rw
        (
          ref_c_bytes-Cells g w (xs ++ stack cs) p b ys
              (subst (λ l. Cells g w l) (stack_focus xs cs (p, b) ys) c),
          c_reads-Cells g w xs cs ((p, b) ∷ ys) (
              subst (λ l. Cells g w l)
                (stack_focus xs cs (p, b) ys ∙ append_assoc xs (stack cs) ((p, b) ∷ ys)) c),
        )
        refl

  -- Once a stack is destroyed, what lay on it and under it is left.
  pub destroy-Cells :
      (g : _) (w : World S) (xs cs ys : List Cell)
      → Cells g w (xs ++ (stack cs ++ ys))
      → Returns (λ _ u. (u.rocks ≡ w.rocks) × Cells g u (xs ++ ys)) (destroy (map (λ c. c.0) cs) w)
  unfolding destroy stack
  destroy-Cells g w xs [] ys c = returns (refl, c)
  destroy-Cells g w xs ((p, b) ∷ cs) ys c =
      let c' = subst (λ l. Cells g w l) (stack_focus xs cs (p, b) ys) c in
      bind (Cells-free g w (xs ++ stack cs) p b ys c') (λ _ u (rocks, d).
        mono
          (destroy-Cells g u xs cs ys (subst (λ l. Cells g u l) (append_assoc xs (stack cs) ys) d))
          (λ _ z (rocks', e). (rocks' ∙ rocks, e)))
