-- ===== src/MultiGet/Works.antt =====
-- What a read of several keys promises.
use grocksdb.Base.{◌≡◌, refl, ◌∙◌, sym, Option, none, some, List, [], ◌∷◌, ◌++◌, map, Bytes, length}
use grocksdb.Base.{append-nil, arith, suc, ℕ, zero}
use grocksdb.Cgo.{Ptr, Heap, World, Block, Reply, Cmd}
use grocksdb.Cgo.Returns.{Returns, returns, bind, mono, IsValid}
use grocksdb.Cgo.Cells.{Cell, Cells, put, Cells-append, Cells-rocks}
use grocksdb.Array.{byte_slices_to_c_slices}
use grocksdb.Array.Stacks.{stack, c_bytes_all-Cells, c_reads-Cells, destroy-Cells}
use grocksdb.Slice.{Slice, destroy}
use grocksdb.MultiGet.{GetError, Answering, Got, each, call_multi, result_of, multi_get_by}
use grocksdb.MultiGet.Rows.{Rows, deliver_all-Rows}
use grocksdb.MultiGet.Errs.{failures, found, errors_of-failures, Rows-found}
use grocksdb.MultiGet.Given.{Given, slices_of-Given, destroy_slices-Cells}

-- The result in the world `u`, when C answered `rs` for the keys: each slice gives its value, and
-- destroying the slices brings back the heap `g`; or the first failure and how many there were, and
-- then the blocks of the values that were found are left in the heap with nobody to free them.
pub data Result {S : Type 0} (g : Heap) (u : World S) (keys : List Bytes)
    (rs : List (Reply (Option Bytes))) : Got → Type 0 where
  all_given :
      {slices : List Slice}
      → failures keys rs ≡ []
      → Given u slices rs
      → Returns (λ _ z. (z.rocks ≡ u.rocks) × ((r : Ptr) → z.heap r ≡ g r)) (destroy slices u)
      → Result g u keys rs (slices, none)
  some_failed :
      (err : GetError) (errs : List GetError) (leaked : List Cell)
      → failures keys rs ≡ err ∷ errs
      → map (λ c. c.1) leaked ≡ found rs
      → Cells g u leaked
      → Result g u keys rs ([], some (record { count = suc (length errs); first = err }))

-- The command runs without a fault, changes RocksDB as `f` does on exactly the keys, and has this result.
unfoldable pub Gets : {S : Type 0} → World S → List Bytes → Cmd S Got → Answering S → Type 0
Gets w keys m f =
    let (reply, s) = f keys w.rocks in
    Returns (λ got u. (u.rocks ≡ s) × Result w.heap u keys (each (length keys) reply) got) (m w)

length-each : {A : Type 0} (n : ℕ) (f : ℕ → A) → length (each n f) ≡ n
unfolding each
length-each zero f = refl
length-each (suc n) f = omega (arith, length-each n (λ i. f (suc i)))

module _ {S : Type 0} (g : Heap) (keys : List Bytes) {rs : List (Reply (Option Bytes))}
    {xs : List (Block × Ptr)} {cs ks : List Cell} (rows : Rows rs xs cs ks)
    (l : length keys ≡ length rs) (cells : List Cell) where
  -- Once the errors are collected, the keys are freed.
  result_of-Result :
      (errs : List GetError) (u : World S)
      → errs ≡ failures keys rs
      → Cells g u (ks ++ stack cells)
      → Returns
          (λ got z. (z.rocks ≡ u.rocks) × Result g z keys rs got)
          (result_of errs (map (λ c. c.0) cells) xs u)
  unfolding result_of put
  result_of-Result [] u e c =
      bind (destroy-Cells g u ks cells [] (rw (append-nil (stack cells)) c)) (λ _ z (rocks, d).
        returns (
          rocks,
          all_given (sym e) (slices_of-Given g z keys [] l (sym e) rows d)
              (mono (destroy_slices-Cells g z [] rows d) (λ _ t (rocks', f). (rocks', f.same))),
        ))
  result_of-Result (err ∷ errs) u e c =
      bind (destroy-Cells g u ks cells [] (rw (append-nil (stack cells)) c)) (λ _ z (rocks, d).
        returns
          (rocks, some_failed err errs ks (sym e) (Rows-found rows) (rw (append-nil ks) at d)))

module _ {S : Type 0} where
  keys-Cells :
      (keys : List Bytes) (w : World S)
      → IsValid w
      → Returns
          (λ a u.
            (u.rocks ≡ w.rocks)
            × ((cells : List Cell) × (keys ≡ map (λ c. c.1) cells)
                × (a ≡ (map (λ c. c.0) cells, map length (map (λ c. c.1) cells)))
                × Cells w.heap u (stack cells)))
          (byte_slices_to_c_slices keys w)
  unfolding byte_slices_to_c_slices
  keys-Cells keys w v = bind (c_bytes_all-Cells keys w v) (λ ps u (rocks, (cells, are, hold, c)).
      returns (rocks, (cells, hold, rw (are, hold) refl, c)))

  call_multi-Rows :
      (f : Answering S) (g : Heap) (cells : List Cell) (u : World S)
      → Cells g u (stack cells)
      → let keys = map (λ c. c.1) cells in
        let (reply, s) = f keys u.rocks in
        Returns
          (λ xs z.
            (z.rocks ≡ s)
            × ((cs : List Cell) × (ks : List Cell) × Rows (each (length keys) reply) xs cs ks
                × Cells g z (cs ++ stack cells)))
          (call_multi f (map (λ c. c.0) cells) (map length keys) u)
  unfolding call_multi
  call_multi-Rows f g cells u c =
      let keys = map (λ c. c.1) cells in
      let (reply, s) = f keys u.rocks in
      let u' : World S = record u { rocks = s } in
      let c' = Cells-rocks g u (stack cells) s c in
      rw (c_reads-Cells g u [] cells [] (rw (append-nil (stack cells)) c)) (
        mono (deliver_all-Rows (each (length keys) reply) u' c'.valid)
          (λ xs z (rocks, (cs, ks, rows, d)).
            (rocks, (cs, ks, rows, Cells-append g u' z (stack cells) cs c' d))))

  pub multi_get_by-Gets :
      (f : Answering S) (keys : List Bytes) (w : World S)
      → IsValid w
      → Gets w keys (multi_get_by f keys) f
  unfolding multi_get_by Gets
  multi_get_by-Gets f keys w v = bind (keys-Cells keys w v) (λ a u (rocks, (cells, hold, are, c)).
      rw (hold, are, sym rocks)
        (bind (call_multi-Rows f w.heap cells u c) (λ xs z (rocks', (cs, ks, rows, d)).
          let l = sym (length-each _ _) in
          bind (errors_of-failures w.heap z (map (λ c. c.1) cells) (stack cells) l rows d)
            (λ errs t (rocks'', is, e).
              mono (result_of-Result w.heap _ rows l cells errs t is e)
                (λ got r (rocks3, result). (rocks3 ∙ rocks'' ∙ rocks', result))))))
