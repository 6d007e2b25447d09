-- ===== src/Binary.antt =====
-- encoding/binary of Go's standard library: `Uvarint`, which write_batch.go calls, and the encoding
-- that RocksDB writes (seven bits a byte, lowest group first, the top bit on all bytes but the last).
pub mod RoundTrip
use grocksdb.Base.{ℕ, zero, suc, ◌+◌, ◌*◌, ◌/◌, ◌%◌, ◌^◌, ◌&&◌, [], ◌∷◌, Bytes, ltb, ◌==◌}
use grocksdb.Base.{if◌then◌else◌}
use grocksdb.Base.Int.{ℤ, pos, negsuc}

-- The loop of `Uvarint`: `x` holds the groups so far, `s` is the shift and `i` the index of the byte.
-- The groups do not overlap, so `|` is a sum, and `b & 0x7f` is `b % 128`.
unfoldable pub uvarint_loop : Bytes → (x s i : ℕ) → ℕ × ℤ
uvarint_loop [] x s i = (0, pos 0)
uvarint_loop (b ∷ bs) x s i =
    let more = uvarint_loop bs (x + b % 128 * 2 ^ s % 2 ^ 64) (s + 7) (i + 1) in
    if i == 10
    then (0, negsuc i)
    else (if ltb b 128
        then (if i == 9 && ltb 1 b then (0, negsuc i) else (x + b * 2 ^ s % 2 ^ 64, pos (suc i)))
        else more)

-- The value and the number of bytes read: 0 where the buffer ends inside the number, negative on
-- overflow.
unfoldable pub uvarint : Bytes → ℕ × ℤ
unfolding uvarint_loop
uvarint buf = uvarint_loop buf 0 0 0

-- The encoding of a number below 128 ^ (k + 1).
unfoldable pub groups : ℕ → ℕ → Bytes
groups zero v = v ∷ []
groups (suc k) v =
    let higher = groups k (v / 128) in if ltb v 128 then v ∷ [] else (v % 128 + 128) ∷ higher

-- The encoding of a uint64: ten groups are enough.
unfoldable pub put_uvarint : ℕ → Bytes
unfolding groups
put_uvarint v = groups 9 v
