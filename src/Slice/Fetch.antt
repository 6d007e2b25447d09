-- ===== src/Slice/Fetch.antt =====
-- What a read through slices promises, and the proof that the pattern of the reads keeps it.
use grocksdb.Base.{◌≡◌, refl, ap, Option, none, some, Bytes, length}
use grocksdb.Cgo.{Ptr, null, World, Cmd, Block, Reply, failed, replied, ◌>>=◌, pure, and_then}
use grocksdb.Cgo.{
  until_nul, c_string_of, call_value, deliver_value, out_block, out_error, c_bytes_of, malloc,
}
use grocksdb.Cgo.Returns.{Returns, returns, bind, mono, IsValid, Clean}
use grocksdb.Util.{from_c_error, unless}
use grocksdb.Util.Errors.{from_c_error-out_error}
use grocksdb.Slice.{Slice, new_slice}
use grocksdb.Slice.Owns.{Owns, no_block-Owns, block-Owns, rocks-Owns}

module _ {S : Type 0} where
  -- A failure is an error and no slice; an answer is a slice that owns it.
  pub Fetched : World S → Reply (Option Bytes) → Option Slice × Option Bytes → World S → Type 0
  Fetched w (failed m) (slice, err) w' = (slice ≡ none) × (err ≡ some (until_nul m)) × Clean w w'
  Fetched w (replied v) (slice, err) w' =
      (err ≡ none) × (s : Slice) × (slice ≡ some s) × Owns w w' s v

  -- From the world `w` the command `m` runs without a fault, changes the library's state as the C
  -- function `f` does, and returns what `f` answers.
  pub Fetches :
      World S → Cmd S (Option Slice × Option Bytes) → (S → Reply (Option Bytes) × S) → Type 0
  unfolding Fetched
  Fetches w m f = Returns (λ r w'. Fetched w (f w.rocks).0 r w' × (w'.rocks ≡ (f w.rocks).1)) (m w)

  -- The last lines of a read: the error is taken, and without one the value becomes a slice.
  abbrev pub end_read : Block × Ptr → Cmd S (Option Slice × Option Bytes)
  end_read r = do err ← from_c_error r.1; pure (unless err (new_slice r.0.chars r.0.size), err)

  fetch_reply :
      (r : Reply (Option Bytes)) (w : World S)
      → IsValid w
      → Returns
          (λ a w'. Fetched w r a w' × (w'.rocks ≡ w.rocks))
          (and_then (deliver_value r w) end_read)
  unfolding Fetched deliver_value out_block out_error c_bytes_of c_string_of malloc unless
      from_c_error
  fetch_reply (failed m) w v = bind (from_c_error-out_error (some m) w v) (λ e u (is, rocks, clean).
      returns ((ap (λ x. unless x (new_slice null 0)) is, is, clean), rocks))
  fetch_reply (replied none) w v = returns ((refl, new_slice null 0, refl, no_block-Owns w v), refl)
  fetch_reply (replied (some b)) w v =
      returns ((refl, new_slice w.next (length b), refl, block-Owns w v b), refl)

  Fetched-rocks :
      (w : World S) (x : S) (r : Reply (Option Bytes)) (a : Option Slice × Option Bytes)
      (w' : World S)
      → Fetched (record w { rocks = x }) r a w'
      → Fetched w r a w'
  unfolding Fetched
  Fetched-rocks w x (failed m) a w' (slice, err, clean) =
      (slice, err, record { same = clean.same; grows = clean.grows })
  Fetched-rocks w x (replied v) a w' (err, s, slice, o) = (err, s, slice, rocks-Owns w w' x s v o)

  pub fetch :
      (f : S → Reply (Option Bytes) × S) (w : World S)
      → IsValid w
      → Fetches w (call_value f >>= end_read) f
  unfolding Fetches call_value
  fetch f w v =
      let (r, x) = f w.rocks in
      mono
        (fetch_reply r (record w { rocks = x })
          (record { nonzero = v.nonzero; fresh = v.fresh; no_null = v.no_null }))
        (λ a w' (got, rocks). (Fetched-rocks w x r a w' got, rocks))
