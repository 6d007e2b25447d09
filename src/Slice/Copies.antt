-- ===== src/Slice/Copies.antt =====
-- What a read promises that copies the value to Go memory.
use grocksdb.Base.{◌≡◌, ◌<◌, ◌^◌, refl, ap, false, Option, none, some, Bytes, length, ◌==◌, arith}
use grocksdb.Base.{take-length}
use grocksdb.Base.Int.{c_int-pos}
use grocksdb.Cgo.{Ptr, null, World, Cmd, Block, Reply, failed, replied, ◌>>=◌, and_then}
use grocksdb.Cgo.{
  until_nul, c_string_of, call_value, deliver_value, out_block, out_error, c_bytes_of,
}
use grocksdb.Cgo.{malloc}
use grocksdb.Cgo.Returns.{Returns, returns, bind, mono, IsValid, Clean, Clean-refl}
use grocksdb.Cgo.Laws.{after_malloc, next-ne_null, go_bytes-done, free-done}
use grocksdb.Util.{from_c_error}
use grocksdb.Util.Errors.{from_c_error-out_error}
use grocksdb.Slice.{copy_unless}
use grocksdb.Slice.Owns.{size_of}

-- The Go bytes and the error that an answer of RocksDB becomes; nil stands for no value.
unfoldable pub copy_of : Reply (Option Bytes) → Option Bytes × Option Bytes
copy_of (failed m) = (none, some (until_nul m))
copy_of (replied v) = (v, none)

-- The value of an answer has less than 2 GiB.
unfoldable pub Fits : Reply (Option Bytes) → Type 0
Fits (failed m) = Unit {0}
Fits (replied v) = size_of v < 2 ^ 31

module _ {S : Type 0} where
  -- From the world `w` the command `m` runs without a fault, changes the library's state as the C
  -- function `f` does, returns what `f` answers, and leaves the heap as it was.
  pub Copies :
      World S → Cmd S (Option Bytes × Option Bytes) → (S → Reply (Option Bytes) × S) → Type 0
  unfolding copy_of
  Copies w m f =
      Returns (λ r w'. (r ≡ copy_of (f w.rocks).0) × (w'.rocks ≡ (f w.rocks).1) × Clean w w') (m w)

  -- The last lines of such a read.
  abbrev pub end_copy : Block × Ptr → Cmd S (Option Bytes × Option Bytes)
  end_copy r = do err ← from_c_error r.1; copy_unless err r.0

  copy_reply :
      (r : Reply (Option Bytes)) (w : World S)
      → IsValid w
      → Fits r
      → Returns
          (λ a w'. (a ≡ copy_of r) × (w'.rocks ≡ w.rocks) × Clean w w')
          (and_then (deliver_value r w) end_copy)
  unfolding Fits copy_of deliver_value out_block out_error c_bytes_of c_string_of malloc copy_unless
      from_c_error
  copy_reply (failed m) w v fits =
      bind (from_c_error-out_error (some m) w v)
        (λ e u (is, rocks, clean). rw is (returns (refl, rocks, clean)))
  copy_reply (replied none) w v fits = returns (refl, refl, Clean-refl w)
  copy_reply (replied (some b)) w v fits =
      let u : World S = after_malloc b w in
      let n : (w.next == null) ≡ false = next-ne_null b w v in
      let e : u.heap w.next ≡ some b = ground arith in
      rw
        (
          n,
          c_int-pos (length b) fits,
          go_bytes-done u w.next b n e (length b) (omega arith),
          free-done u w.next b n e,
        )
        (returns (
          ap (λ x. (some x, none)) (take-length b),
          refl,
          record { same = λ p. ground (arith, v.fresh p); grows = omega arith },
        ))

  pub copies :
      (f : S → Reply (Option Bytes) × S) (w : World S)
      → IsValid w
      → Fits (f w.rocks).0
      → Copies w (call_value f >>= end_copy) f
  unfolding Copies call_value
  copies f w v fits =
      let (r, x) = f w.rocks in
      mono
        (copy_reply r (record w { rocks = x })
          (record { nonzero = v.nonzero; fresh = v.fresh; no_null = v.no_null }) fits)
        (λ a w' (got, rocks, clean).
          (got, rocks, record { same = clean.same; grows = clean.grows }))
