-- ===== src/Options/Clones.antt =====
-- A clone of options shares their objects.
use grocksdb.Base.{inl, inr, Bytes, ◌≡◌, ◌≢◌, refl, ◌∙◌, some, none, [], arith, false, ◌==◌}
use grocksdb.Cgo.{Ptr, null, Heap, World, Fault, ◌>>=◌, malloc, fault, update}
use grocksdb.Cgo.Returns.{returned}
use grocksdb.Cgo.Laws.{after_malloc, free-done, free_missing, next-ne_null}
use grocksdb.Cgo.Objects.{Owned, erase}
use grocksdb.Cgo.Objects.Owners.{malloc_rest-Owned}
use grocksdb.Types.{Options}
use grocksdb.Options.{clone, destroy}
use grocksdb.Options.Ownership.{owned, destroy-Owned}

module _ {S : Type 0} (g : Heap) (o : Options) (w : World S) (h : Owned g w (owned o)) where
  destroy-bad_free :
      (c : Ptr) (u : World S)
      → (c == null) ≡ false
      → (o.ccmp == null) ≡ false
      → u.heap c ≡ some []
      → u.heap o.ccmp ≡ none
      → destroy (record o { c = c }) u ≡ fault Fault.bad_free
  unfolding destroy
  destroy-bad_free c u n m e z =
      rw
        (
          free-done u c [] n e,
          free_missing (record u { heap = update u.heap c none }) o.ccmp m (ground arith),
        )
        refl

  freed_comparator : (b : Bytes) → o.ccmp ≢ null → update g w.next (some b) o.ccmp ≡ none
  unfolding erase
  freed_comparator b ne = elim (h.live.1.0) [
    | inl e ↦ absurd (ne e)
    | inr ((old, a), n) ↦
        let z : w.heap w.next ≡ none = h.valid.fresh w.next (omega arith) in
        ground (arith, h.rest o.ccmp, a, z)
  ]

  -- When options with a comparator are cloned, both have the same comparator: destroying both
  -- frees it twice.
  pub clone_bad_free :
      o.ccmp ≢ null → (clone o >>= λ o'. destroy o >>= λ _. destroy o') w ≡ fault Fault.bad_free
  unfolding clone malloc
  clone_bad_free ne =
      let u = after_malloc [] w in
      let (a, z, runs, (empty, kept)) =
        returned (destroy-Owned (update g w.next (some [])) o u (malloc_rest-Owned g w [] _ h)) in
      rw runs (
        destroy-bad_free w.next z (next-ne_null [] w h.valid) (ground arith)
          (kept w.next ∙ ground arith) (kept o.ccmp ∙ freed_comparator [] ne))
