-- ===== src/Slice/Finds.antt =====
-- What a look-up promises that may have a value at hand.
use grocksdb.Base.{◌≡◌, refl, Option, none, some, Bytes, length}
use grocksdb.Cgo.{World, Cmd, Block, ◌>>=◌, pure, and_then, call_found, deliver_found, out_block}
use grocksdb.Cgo.{c_bytes_of, malloc}
use grocksdb.Base.{ℕ}
use grocksdb.Cgo.Returns.{Returns, returns, mono, IsValid, Clean, Clean-refl}
use grocksdb.Util.{char_to_bool}
use grocksdb.Slice.{Slice, new_slice, slice_if}
use grocksdb.Slice.Owns.{Owns, block-Owns, rocks-Owns}

module _ {S : Type 0} where
  -- No value is the nil slice; a value is a slice that owns it.
  pub Found : World S → Option Bytes → Option Slice → World S → Type 0
  Found w none slice w' = (slice ≡ none) × Clean w w'
  Found w (some v) slice w' = (s : Slice) × (slice ≡ some s) × Owns w w' s (some v)

  -- From the world `w` the command `m` runs without a fault, changes the library's state as the C
  -- function `f` does, and returns the value that `f` has at hand.
  pub Finds : World S → Cmd S (Option Slice) → (S → Option Bytes × S) → Type 0
  unfolding Found
  Finds w m f = Returns (λ r w'. Found w (f w.rocks).0 r w' × (w'.rocks ≡ (f w.rocks).1)) (m w)

  -- The last lines of a look-up.
  abbrev pub end_find : Block × ℕ → Cmd S (Option Slice)
  end_find r = pure (slice_if r.1 r.0)

  find_reply :
      (v : Option Bytes) (w : World S)
      → IsValid w
      → Returns
          (λ a w'. Found w v a w' × (w'.rocks ≡ w.rocks))
          (and_then (deliver_found v w) end_find)
  unfolding Found deliver_found out_block c_bytes_of malloc slice_if char_to_bool
  find_reply none w h = returns ((refl, Clean-refl w), refl)
  find_reply (some v) w h = returns ((new_slice w.next (length v), refl, block-Owns w h v), refl)

  Found-rocks :
      (w : World S) (x : S) (v : Option Bytes) (a : Option Slice) (w' : World S)
      → Found (record w { rocks = x }) v a w'
      → Found w v a w'
  unfolding Found
  Found-rocks w x none a w' (slice, clean) =
      (slice, record { same = clean.same; grows = clean.grows })
  Found-rocks w x (some v) a w' (s, slice, o) = (s, slice, rocks-Owns w w' x s (some v) o)

  pub find :
      (f : S → Option Bytes × S) (w : World S) → IsValid w → Finds w (call_found f >>= end_find) f
  unfolding Finds call_found
  find f w h =
      let (v, x) = f w.rocks in
      mono
        (find_reply v (record w { rocks = x })
          (record { nonzero = h.nonzero; fresh = h.fresh; no_null = h.no_null }))
        (λ a w' (got, rocks). (Found-rocks w x v a w' got, rocks))
