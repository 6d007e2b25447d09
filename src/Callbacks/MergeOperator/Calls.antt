-- ===== src/Callbacks/MergeOperator/Calls.antt =====
-- merge_operator.go: what RocksDB is answered when it calls a registered merge operator.
use grocksdb.Base.{ℕ, ◌≡◌, refl, arith, true, false, none, some, inl, inr}
use grocksdb.Base.{Option-cases, List, [], ◌∷◌, Bytes, length, take-length, ◌==◌, if◌then◌else◌}
use grocksdb.Base.Int.{pos}
use grocksdb.Cgo.{Ptr, null, World, done, free, malloc, c_bytes_of}
use grocksdb.Cgo.Returns.{IsValid, Returns, returns, Clean, mono}
use grocksdb.Cgo.Laws.{free-malloc}
use grocksdb.CowList.{get}
use grocksdb.Callbacks.{registered, registered-done}
use grocksdb.Util.{ref_c_bytes, c_byte_slice, char_slice, size_slice, bool_to_char}
use grocksdb.Util.Views.{Holds, ref_c_bytes-Holds, c_array-length}
use grocksdb.Callbacks.MergeOperator.{Merged, MergeOperator, MergeOperatorWrapper, MergeOperators}
use grocksdb.Callbacks.MergeOperator.{MergeReply, read_operands, reply_with, partial_merge_by}
use grocksdb.Callbacks.MergeOperator.{gorocksdb_mergeoperator_full_merge, partial_loop}
use grocksdb.Callbacks.MergeOperator.{gorocksdb_mergeoperator_partial_merge_multi}
use grocksdb.Callbacks.MergeOperator.{gorocksdb_mergeoperator_delete_value}
use grocksdb.Callbacks.MergeOperator.Folds.{fold_merge, Agrees, partial_loop-Agrees}

-- At the pointers stand the operands.
abbrev pub HoldsAll : {S : Type 0} → World S → List Ptr → List Bytes → Type 0
HoldsAll w [] [] = Unit {0}
HoldsAll w (p ∷ ps) (b ∷ bs) = Holds w p b × HoldsAll w ps bs
HoldsAll w _ _ = ⊥

abbrev pub lengths : List Bytes → List ℕ
lengths [] = []
lengths (b ∷ bs) = length b ∷ lengths bs

length-lengths : (bs : List Bytes) → length (lengths bs) ≡ length bs
length-lengths [] = refl
length-lengths (b ∷ bs) = omega (arith, length-lengths bs)

module _ {S : Type 0} where
  read_operands-HoldsAll :
      (w : World S)
      → IsValid w
      → (ps : List Ptr) (bs : List Bytes) → HoldsAll w ps bs
      → read_operands ps (lengths bs) w ≡ done bs w
  unfolding read_operands
  read_operands-HoldsAll w v [] [] h = refl
  read_operands-HoldsAll w v [] (b ∷ bs) h = absurd h
  read_operands-HoldsAll w v (p ∷ ps) [] h = absurd h
  read_operands-HoldsAll w v (p ∷ ps) (b ∷ bs) (h, hs) =
      rw (ref_c_bytes-Holds w v p b h, read_operands-HoldsAll w v ps bs hs)

  -- C finds the value and the verdict in the reply, the state of RocksDB is as it was, and once C has
  -- deleted the value the heap is as it was.
  pub record Answers (m : Merged) (w : World S) (r : MergeReply) (w' : World S) : Type 0 where
    pub verdict : r.success ≡ bool_to_char m.1
    pub size : r.new_value_len ≡ length m.0
    pub value : Holds w' r.new_value m.0
    pub unchanged : w'.rocks ≡ w.rocks
    pub deleted :
        Returns
          (λ _ u. Clean w u)
          (gorocksdb_mergeoperator_delete_value r.new_value r.new_value_len w')

  reply_with-Answers :
      (m : Merged) (w : World S) → IsValid w → Returns (λ r w'. Answers m w r w') (reply_with m w)
  unfolding reply_with c_byte_slice gorocksdb_mergeoperator_delete_value c_bytes_of malloc free
  reply_with-Answers ([], s) w v = returns (record {
    verdict = refl;
    size = refl;
    value = inl (refl, refl);
    unchanged = refl;
    deleted = returns (record { same = λ p. refl; grows = omega arith });
  })
  reply_with-Answers (b ∷ bs, s) w v = returns (record {
    verdict = refl;
    size = refl;
    value = inr (b ∷ bs, ground arith, omega arith, take-length (b ∷ bs));
    unchanged = refl;
    deleted = mono (free-malloc (b ∷ bs) w v) (λ a u h. h.1);
  })

  length-HoldsAll :
      (w : World S) (ps : List Ptr) (bs : List Bytes) → HoldsAll w ps bs → length ps ≡ length bs
  length-HoldsAll w [] [] h = refl
  length-HoldsAll w [] (b ∷ bs) h = absurd h
  length-HoldsAll w (p ∷ ps) [] h = absurd h
  length-HoldsAll w (p ∷ ps) (b ∷ bs) (h, hs) = omega (arith, length-HoldsAll w ps bs hs)

  char_slice-length :
      (w : World S) (ps : List Ptr) (n : ℕ) → length ps ≡ n → char_slice ps (pos n) w ≡ done ps w
  unfolding char_slice
  char_slice-length w ps n e = rw (← e) (c_array-length w ps)

  size_slice-lengths :
      (w : World S) (bs : List Bytes)
      → size_slice (lengths bs) (pos (length bs)) w ≡ done (lengths bs) w
  unfolding size_slice
  size_slice-lengths w bs =
      let e : length (lengths bs) ≡ length bs = length-lengths bs in
      rw (← e) (c_array-length w (lengths bs))

-- What a merge operator answers to partial merges, by the methods that its type has.
abbrev pub MergedBy : MergeOperator → Bytes → Bytes → Bytes → List Bytes → Merged → Type 0
MergedBy merger key first second others m = elim (merger.partial_merge_multi) [
  | some multi ↦ m ≡ multi key (first ∷ second ∷ others)
  | none ↦ elim (merger.partial_merge) [
    | some merge ↦ Agrees (fold_merge (merge key) first (second ∷ others)) m
    | none ↦ m ≡ ([], false)
  ]
]

module _ {S : Type 0} (w : World S) (valid : IsValid w) (registry : MergeOperators) (idx : ℕ)
    (wrapper : MergeOperatorWrapper) (found : get registry idx ≡ some wrapper) (p_key : Ptr)
    (key : Bytes) (at_key : Holds w p_key key) where
  reached : registered registry idx w ≡ done wrapper w
  reached = registered-done registry idx wrapper w found

  read_key : ref_c_bytes p_key (length key) w ≡ done key w
  read_key = ref_c_bytes-Holds w valid p_key key at_key

  -- On an existing value (NULL: none) and any number of operands in C memory, a full merge runs
  -- without a fault and answers what FullMerge returns for them; the value is C's to delete.
  pub full_merge-Answers :
      (p_existing : Ptr) (existing : Bytes) (ps : List Ptr) (operands : List Bytes)
      → Holds w p_existing existing
      → HoldsAll w ps operands
      → Returns
          (λ r w'.
            Answers
              (wrapper.merge_operator.full_merge key
                (if p_existing == null then none else some existing)
                operands)
              w
              r
              w')
          (gorocksdb_mergeoperator_full_merge registry idx p_key
            (length key)
            p_existing
            (length existing)
            ps
            (lengths operands)
            (pos (length operands))
            w)
  unfolding gorocksdb_mergeoperator_full_merge
  full_merge-Answers p_existing existing ps operands at_existing at_operands =
      rw
        (
          read_key,
          char_slice-length w ps _ (length-HoldsAll w ps operands at_operands),
          size_slice-lengths w operands,
          ref_c_bytes-Holds w valid p_existing existing at_existing,
          read_operands-HoldsAll w valid ps operands at_operands,
          reached,
        )
        (reply_with-Answers _ w valid)

  partial_merge_by-MergedBy :
      (merger : MergeOperator) (first second : Bytes) (others : List Bytes)
      → (m : Merged) × (partial_merge_by merger key (first ∷ second ∷ others) w ≡ done m w)
        × MergedBy merger key first second others m
  unfolding partial_merge_by
  partial_merge_by-MergedBy merger first second others =
      elim (Option-cases merger.partial_merge_multi) [
        | inr (multi, e) ↦ (multi key (first ∷ second ∷ others), rw (e, partial_merge_by), rw e)
        | inl e ↦ elim (Option-cases merger.partial_merge) [
          | inr (merge, f) ↦ (
            partial_loop (merge key) first ([], true) (second ∷ others),
            rw (e, f, partial_merge_by),
            rw (e, f) (partial_loop-Agrees (merge key) first second others),
          )
          | inl f ↦ (([], false), rw (e, f, partial_merge_by), rw (e, f))
        ]
      ]

  -- On two operands or more in C memory, a partial merge runs without a fault, and its answer is
  -- PartialMergeMulti's where the merger has that method, else the left fold of PartialMerge, which
  -- fails as soon as one step does, else a failure; the value is C's to delete.
  pub partial_merge-Answers :
      (ps : List Ptr) (first second : Bytes) (others : List Bytes)
      → HoldsAll w ps (first ∷ second ∷ others)
      → (m : Merged) × MergedBy wrapper.merge_operator key first second others m
        × Returns
            (λ r w'. Answers m w r w')
            (gorocksdb_mergeoperator_partial_merge_multi registry idx p_key
              (length key)
              ps
              (lengths (first ∷ second ∷ others))
              (pos (length (first ∷ second ∷ others)))
              w)
  unfolding gorocksdb_mergeoperator_partial_merge_multi
  partial_merge-Answers ps first second others at_operands =
      let operands : List Bytes = first ∷ second ∷ others in
      let (m, by, right) = partial_merge_by-MergedBy wrapper.merge_operator first second others in
      (
        m,
        right,
        rw
            (
              read_key,
              char_slice-length w ps _ (length-HoldsAll w ps operands at_operands),
              size_slice-lengths w operands,
              read_operands-HoldsAll w valid ps operands at_operands,
              reached,
              by,
            )
            (reply_with-Answers m w valid),
      )
