-- ===== src/Callbacks/SliceTransform.antt =====
-- slice_transform.go: prefix extractors written in Go.
use grocksdb.Base.{
  ℕ, ◌≡◌, refl, arith, Bool, List, [], ◌∷◌, Bytes, length, some, inl, inr, take-length,
}
use grocksdb.Cgo.{Ptr, Cmd, World, ◌>>=◌, pure, c_string_of, c_bytes_of, malloc}
use grocksdb.Cgo.Returns.{IsValid, Returns, returns, bind}
use grocksdb.CowList.{append, get}
use grocksdb.Callbacks.{registered, registered-done}
use grocksdb.Util.{ref_c_bytes, c_byte_slice, bool_to_char, char_to_bool}
use grocksdb.Util.Strings.{char_to_bool-bool_to_char}
use grocksdb.Util.Views.{Holds, ref_c_bytes-Holds}

pub record SliceTransform : Type 0 where
  pub name : Bytes
  pub transform : Bytes → Bytes
  pub in_domain : Bytes → Bool
  pub in_range : Bytes → Bool

pub record SliceTransformWrapper : Type 0 where
  pub name : Ptr
  pub slice_transform : SliceTransform

abbrev pub SliceTransforms : Type 0
SliceTransforms = List SliceTransformWrapper

module _ {S : Type 0} where
  unfoldable pub register_slice_transform :
      SliceTransforms → SliceTransform → Cmd S (SliceTransforms × ℕ)
  unfolding append
  register_slice_transform slice_transforms st = do
    name ← c_string_of st.name
    pure (append slice_transforms (record { name = name; slice_transform = st }))

  module _ (slice_transforms : SliceTransforms) (idx : ℕ) where
    -- The result and its length.
    unfoldable pub gorocksdb_slicetransform_transform : Ptr → ℕ → Cmd S (Ptr × ℕ)
    gorocksdb_slicetransform_transform c_key c_key_len = do
      key ← ref_c_bytes c_key c_key_len
      wrapper ← registered slice_transforms idx
      let dst = wrapper.slice_transform.transform key
      p ← c_byte_slice dst
      pure (p, length dst)

    unfoldable pub gorocksdb_slicetransform_in_domain : Ptr → ℕ → Cmd S ℕ
    gorocksdb_slicetransform_in_domain c_key c_key_len = do
      key ← ref_c_bytes c_key c_key_len
      wrapper ← registered slice_transforms idx
      pure (bool_to_char (wrapper.slice_transform.in_domain key))

    unfoldable pub gorocksdb_slicetransform_in_range : Ptr → ℕ → Cmd S ℕ
    gorocksdb_slicetransform_in_range c_key c_key_len = do
      key ← ref_c_bytes c_key c_key_len
      wrapper ← registered slice_transforms idx
      pure (bool_to_char (wrapper.slice_transform.in_range key))

    unfoldable pub gorocksdb_slicetransform_name : Cmd S Ptr
    gorocksdb_slicetransform_name = do wrapper ← registered slice_transforms idx; pure wrapper.name

-- A copy of Go bytes in C memory is what C reads there.
c_byte_slice-Holds :
    {S : Type 0} (b : Bytes) (w : World S)
    → Returns (λ p w'. Holds w' p b × (w'.rocks ≡ w.rocks)) (c_byte_slice b w)
unfolding c_byte_slice c_bytes_of malloc
c_byte_slice-Holds [] w = returns (inl (refl, refl), refl)
c_byte_slice-Holds (b ∷ bs) w =
    returns (inr (b ∷ bs, ground arith, omega arith, take-length (b ∷ bs)), refl)

-- C is answered what the registered transform says of the key that it passes: the transformed key, in
-- C memory with its length, and whether the key lies in the domain and in the range; the two tests
-- change nothing.
pub transform_callbacks :
    {S : Type 0} (w : World S) (valid : IsValid w) (registry : SliceTransforms) (idx : ℕ)
    (wrapper : SliceTransformWrapper) (p_key : Ptr) (key : Bytes)
    → get registry idx ≡ some wrapper
    → Holds w p_key key
    → Returns
        (λ r w'.
          Holds w' r.0 (wrapper.slice_transform.transform key)
          × (r.1 ≡ length (wrapper.slice_transform.transform key))
          × (w'.rocks ≡ w.rocks))
        (gorocksdb_slicetransform_transform registry idx p_key (length key) w)
      × Returns
          (λ r w'. (char_to_bool r ≡ wrapper.slice_transform.in_domain key) × (w' ≡ w))
          (gorocksdb_slicetransform_in_domain registry idx p_key (length key) w)
      × Returns
          (λ r w'. (char_to_bool r ≡ wrapper.slice_transform.in_range key) × (w' ≡ w))
          (gorocksdb_slicetransform_in_range registry idx p_key (length key) w)
unfolding gorocksdb_slicetransform_transform gorocksdb_slicetransform_in_domain
    gorocksdb_slicetransform_in_range
transform_callbacks w v registry idx wrapper p_key key found at_key =
    let reached = registered-done registry idx wrapper w found in
    let read = ref_c_bytes-Holds w v p_key key at_key in
    (
      rw (read, reached)
          (bind (c_byte_slice-Holds (wrapper.slice_transform.transform key) w)
            (λ p w' h. returns (h.0, refl, h.1))),
      rw (read, reached) (returns (char_to_bool-bool_to_char _, refl)),
      rw (read, reached) (returns (char_to_bool-bool_to_char _, refl)),
    )
