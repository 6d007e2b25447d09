-- ===== src/Options/Ownership.antt =====
-- Who owns the native objects of options: every setter moves an object into the options and destroys the
-- one before, and `Destroy` destroys them all.
use grocksdb.Base.{◌≡◌, refl, List, [], ◌∷◌, arith}
use grocksdb.Cgo.{Ptr, null, Heap, World, malloc, call_void}
use grocksdb.Cgo.Returns.{Returns, returns, bind, IsValid}
use grocksdb.Cgo.Objects.{Owned, erase}
use grocksdb.Cgo.Objects.Owners.{
  malloc-Owned, rocks-Owned, free-Owned, move-Owned, null-Owned, free_unless_null-Owned,
}
use grocksdb.Types.{Options, Env}
use grocksdb.Callbacks.Comparator.{Comparator}
use grocksdb.Callbacks.MergeOperator.{MergeOperators}
use grocksdb.Callbacks.CompactionFilter.{CompactionFilters}
use grocksdb.Callbacks.SliceTransform.{SliceTransforms}
use grocksdb.Options.{
  OptionsApi, native, new_native_options, new_default_options, destroy, set_native_comparator,
  set_merge_operator, set_prefix_extractor, set_compaction_filter, set_env,
}

-- The pointers of the options, in the order in which `Destroy` takes them.
abbrev pub owned : Options → List Ptr
owned o = o.c ∷ o.ccmp ∷ o.cst ∷ o.ccf ∷ o.cmo ∷ o.env ∷ []

module _ {S : Type 0} (g : Heap) where
  pub new_default_options-Owned :
      (w : World S)
      → IsValid w
      → ((r : Ptr) → w.heap r ≡ g r)
      → Returns (λ o u. Owned g u (owned o)) (new_default_options w)
  unfolding new_default_options new_native_options malloc erase
  new_default_options-Owned w v e =
      let h : Owned g w [] = record { valid = v; live = tt; rest = e } in
      let n = null-Owned g w in returns (malloc-Owned g w [] _ (n _ (n _ (n _ (n _ (n _ h))))))

  owned_nothing :
      (w : World S) → Owned g w (owned (new_native_options null)) → (r : Ptr) → w.heap r ≡ g r
  unfolding new_native_options erase
  owned_nothing w h r = ground (arith, h.rest r, h.valid.no_null)

  pub destroy-Owned :
      (o : Options) (w : World S)
      → Owned g w (owned o)
      → Returns
          (λ o' u. (o' ≡ new_native_options null) × ((r : Ptr) → u.heap r ≡ g r))
          (destroy o w)
  unfolding destroy new_native_options
  destroy-Owned o w h = bind (free-Owned g w [] o.c _ h) (λ _ w1 h1.
      bind (free-Owned g w1 (null ∷ []) o.ccmp _ h1) (λ _ w2 h2.
        bind (free-Owned g w2 (null ∷ null ∷ []) o.cst _ h2) (λ _ w3 h3.
          bind (free-Owned g w3 (null ∷ null ∷ null ∷ []) o.ccf _ h3) (λ _ w4 h4.
            bind (free-Owned g w4 (null ∷ null ∷ null ∷ null ∷ []) o.cmo _ h4) (λ _ w5 h5.
              bind (free_unless_null-Owned g w5 (null ∷ null ∷ null ∷ null ∷ null ∷ []) o.env [] h5)
                (λ _ w6 h6. returns (refl, owned_nothing w6 h6)))))))

module _ {S : Type 0} (api : OptionsApi S) (g : Heap) where
  pub set_native_comparator-Owned :
      (o : Options) (q : Ptr) (w : World S)
      → Owned g w (q ∷ owned o)
      → Returns (λ o' u. Owned g u (owned o')) (set_native_comparator api o q w)
  unfolding set_native_comparator call_void
  set_native_comparator-Owned o q w h =
      bind (free-Owned g w (q ∷ o.c ∷ []) o.ccmp _ h)
        (λ _ u k. returns (rocks-Owned g u _ _ (move-Owned g u q (o.c ∷ []) _ k)))

  pub set_env-Owned :
      (o : Options) (env : Env) (w : World S)
      → Owned g w (env.c ∷ owned o)
      → Returns (λ (o', env') u. (env'.c ≡ null) × Owned g u (owned o')) (set_env api o env w)
  unfolding set_env call_void
  set_env-Owned o env w h =
      bind
        (free_unless_null-Owned g w (env.c ∷ o.c ∷ o.ccmp ∷ o.cst ∷ o.ccf ∷ o.cmo ∷ []) o.env [] h)
        (λ _ u k. returns (
          refl,
          rocks-Owned g u _ _
              (move-Owned g u env.c (o.c ∷ o.ccmp ∷ o.cst ∷ o.ccf ∷ o.cmo ∷ []) [] k),
        ))

  pub set_merge_operator-Owned :
      (ms : MergeOperators) (o : Options) (c : Ptr) (w : World S)
      → Owned g w (c ∷ owned o)
      → Returns (λ (ms', o') u. Owned g u (owned o')) (set_merge_operator api ms o (native c) w)
  unfolding set_merge_operator call_void
  set_merge_operator-Owned ms o c w h =
      bind (free-Owned g w (c ∷ o.c ∷ o.ccmp ∷ o.cst ∷ o.ccf ∷ []) o.cmo _ h) (λ _ u k.
        returns (rocks-Owned g u _ _ (move-Owned g u c (o.c ∷ o.ccmp ∷ o.cst ∷ o.ccf ∷ []) _ k)))

  pub set_prefix_extractor-Owned :
      (sts : SliceTransforms) (o : Options) (c : Ptr) (w : World S)
      → Owned g w (c ∷ owned o)
      → Returns (λ (sts', o') u. Owned g u (owned o')) (set_prefix_extractor api sts o (native c) w)
  unfolding set_prefix_extractor call_void
  set_prefix_extractor-Owned sts o c w h =
      bind (free-Owned g w (c ∷ o.c ∷ o.ccmp ∷ []) o.cst _ h)
        (λ _ u k. returns (rocks-Owned g u _ _ (move-Owned g u c (o.c ∷ o.ccmp ∷ []) _ k)))

  pub set_compaction_filter-Owned :
      (fs : CompactionFilters) (o : Options) (c : Ptr) (w : World S)
      → Owned g w (c ∷ owned o)
      → Returns (λ (fs', o') u. Owned g u (owned o')) (set_compaction_filter api fs o (native c) w)
  unfolding set_compaction_filter call_void
  set_compaction_filter-Owned fs o c w h =
      bind (free-Owned g w (c ∷ o.c ∷ o.ccmp ∷ o.cst ∷ []) o.ccf _ h)
        (λ _ u k. returns (rocks-Owned g u _ _ (move-Owned g u c (o.c ∷ o.ccmp ∷ o.cst ∷ []) _ k)))
