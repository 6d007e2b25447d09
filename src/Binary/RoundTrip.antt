-- ===== src/Binary/RoundTrip.antt =====
-- `Uvarint` on what the encoder wrote, and the bytes that it takes on any input.
use grocksdb.Base.{ℕ, zero, suc, ◌+◌, ◌*◌, ◌/◌, ◌%◌, ◌^◌, ◌≤◌, ◌<◌, ◌≡◌, ◌⊎◌, ap, arith}
use grocksdb.Base.{[], ◌∷◌, ◌++◌, Bytes, length}
use grocksdb.Base.Int.{pos}
use grocksdb.Binary.{uvarint_loop, uvarint, groups, put_uvarint}
use native.Mathlib.Nat.{div-add-mod}
use native.Mathlib.Numerals.{towards_suc}

-- The lowest group and the others, shifted.
shifted : (v s : ℕ) → v * 2 ^ s ≡ v % 128 * 2 ^ s + v / 128 * 2 ^ (s + 7)
shifted v s =
    let wider : 2 ^ (s + 7) ≡ 128 * 2 ^ s = simp towards_suc (omega arith) in
    omega (arith, ap (λ (t : ℕ). t * 2 ^ s) (div-add-mod v 128), ap (λ (t : ℕ). v / 128 * t) wider)

uvarint_loop-groups :
    (k v x s i : ℕ) (rest : Bytes)
    → v < 128 ^ suc k
    → s ≡ 7 * i
    → i + k ≡ 9
    → x + v * 2 ^ s < 2 ^ 64
    → uvarint_loop (groups k v ++ rest) x s i ≡ (x + v * 2 ^ s, pos (i + length (groups k v)))
unfolding uvarint_loop groups
uvarint_loop-groups zero v x s i rest hv hs hi fits = ground arith
uvarint_loop-groups (suc k) v x s i rest hv hs hi fits = ground (
  arith,
  shifted v s,
  uvarint_loop-groups k (v / 128) (x + v % 128 * 2 ^ s) (s + 7) (i + 1) rest (omega arith),
)

pub length-groups : (k v : ℕ) → (1 ≤ length (groups k v)) × (length (groups k v) ≤ k + 1)
unfolding groups
length-groups zero v = omega arith
length-groups (suc k) v = ground (arith, length-groups k (v / 128))

-- `Uvarint` reads back a uint64 from the front of a buffer, and says how many bytes it took.
pub uvarint-put_uvarint :
    (v : ℕ) (rest : Bytes)
    → v < 2 ^ 64
    → uvarint (put_uvarint v ++ rest) ≡ (v, pos (length (put_uvarint v)))
unfolding uvarint put_uvarint
uvarint-put_uvarint v rest h = ground (arith, uvarint_loop-groups 9 v 0 0 0 rest)

uvarint_loop_bounds :
    (bs : Bytes) (x s i v n : ℕ)
    → uvarint_loop bs x s i ≡ (v, pos n)
    → (n ≤ i + length bs) × ((n ≡ 0) ⊎ (i < n))
unfolding uvarint_loop
uvarint_loop_bounds [] x s i v n e = ground arith
uvarint_loop_bounds (b ∷ bs) x s i v n e =
    ground (arith, uvarint_loop_bounds bs (x + b % 128 * 2 ^ s % 2 ^ 64) (s + 7) (i + 1) v n)

-- What `Uvarint` says that it took lies inside the buffer.
pub uvarint_takes : (bs : Bytes) (v n : ℕ) → uvarint bs ≡ (v, pos n) → n ≤ length bs
unfolding uvarint
uvarint_takes bs v n e = omega (arith, uvarint_loop_bounds bs 0 0 0 v n e)
