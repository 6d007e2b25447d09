-- ===== src/Slice/Pairs.antt =====
-- What a read promises that returns a value and its timestamp as slices.
use grocksdb.Base.{
  ◌≡◌, refl, ap, false, Option, none, some, Bytes, length, ◌==◌, arith, take-length,
}
use grocksdb.Cgo
use grocksdb.Cgo.{Ptr, null, World, Cmd, Block, Reply, failed, replied, ◌>>=◌, pure, and_then, done}
use grocksdb.Cgo.{until_nul, c_string_of, call_pair, deliver_pair, out_block, out_error, c_bytes_of}
use grocksdb.Cgo.{malloc, update}
use grocksdb.Cgo.Returns.{Returns, returns, bind, mono, IsValid, Clean, Clean-refl}
use grocksdb.Cgo.Laws.{after_malloc, next-ne_null, load-done, free-done, after_malloc-IsValid}
use grocksdb.Util.{from_c_error, unless, ref_c_bytes}
use grocksdb.Util.Errors.{from_c_error-out_error}
use grocksdb.Slice.{Slice, new_slice, exists, data_of, free}
use grocksdb.Slice.Owns.{Owns, block-Owns}

-- In the world `w'` the slices `s` and `t` give the values `v` and `x`, and freeing both brings back
-- the heap of `w`.
pub record OwnsBoth {S : Type 0} (w w' : World S) (s t : Slice) (v x : Option Bytes) : Type 0 where
  pub reads_first : data_of s w' ≡ done v w'
  pub reads_second : data_of t w' ≡ done x w'
  pub frees_both : Returns (λ _ u. (u.rocks ≡ w'.rocks) × Clean w u) ((free s >>= λ _. free t) w')

-- The slice of what `out_block` puts into the world `w`.
abbrev pub slice_at : {S : Type 0} → World S → Option Bytes → Slice
slice_at w none = new_slice null 0
slice_at w (some v) = new_slice w.next (length v)

abbrev pub after : {S : Type 0} → Option Bytes → World S → World S
after none w = w
after (some v) w = after_malloc v w

module _ {S : Type 0} (w : World S) (valid : IsValid w) where
  after_both-OwnsBoth :
      (v x : Option Bytes)
      → OwnsBoth w (after x (after v w)) (slice_at w v) (slice_at (after v w) x) v x
  unfolding data_of exists new_slice free Cgo.free ref_c_bytes
  after_both-OwnsBoth none none = record {
    reads_first = refl;
    reads_second = refl;
    frees_both = returns (refl, Clean-refl w);
  }
  after_both-OwnsBoth none (some x) =
      let o : Owns w (after_malloc x w) (new_slice w.next (length x)) (some x) =
        block-Owns w valid x in
      record {
        reads_first = refl;
        reads_second = o.reads;
        frees_both = mono o.frees (λ s u (gone, rocks, clean, again). (rocks, clean));
      }
  after_both-OwnsBoth (some v) none =
      let o : Owns w (after_malloc v w) (new_slice w.next (length v)) (some v) =
        block-Owns w valid v in
      record {
        reads_first = o.reads;
        reads_second = refl;
        frees_both = bind o.frees (λ s u (gone, rocks, clean, again). returns (rocks, clean));
      }
  after_both-OwnsBoth (some v) (some x) =
      let u : World S = after_malloc v w in
      let z : World S = after_malloc x u in
      let u-IsValid : IsValid u = after_malloc-IsValid v w valid in
      let o : Owns u z (new_slice u.next (length x)) (some x) = block-Owns u u-IsValid x in
      let n : (w.next == null) ≡ false = next-ne_null v w valid in
      let m : (u.next == null) ≡ false = next-ne_null x u u-IsValid in
      let e : z.heap w.next ≡ some v = ground arith in
      let y : World S = record z { heap = update z.heap w.next none } in
      let d : y.heap u.next ≡ some x = ground arith in
      record {
        reads_first = rw (n, load-done z w.next v n e) (ground (arith, take-length v));
        reads_second = o.reads;
        frees_both =
            rw (free-done z w.next v n e, free-done y u.next x m d)
              (returns
                (refl, record { same = λ p. ground (arith, valid.fresh p); grows = omega arith }));
      }

module _ {S : Type 0} where
  -- A failure is an error and no slices; an answer is two slices that own it.
  pub PairFetched :
      World S
      → Reply (Option Bytes × Option Bytes)
      → Option Slice × Option Slice × Option Bytes
      → World S
      → Type 0
  PairFetched w (failed m) (s, t, err) w' =
      (s ≡ none) × (t ≡ none) × (err ≡ some (until_nul m)) × Clean w w'
  PairFetched w (replied (v, x)) (s, t, err) w' =
      (err ≡ none) × (a : Slice) × (b : Slice) × (s ≡ some a) × (t ≡ some b) × OwnsBoth w w' a b v x

  -- From the world `w` the command `m` runs without a fault, changes the library's state as the C
  -- function `f` does, and returns what `f` answers.
  pub FetchesPair :
      World S
      → Cmd S (Option Slice × Option Slice × Option Bytes)
      → (S → Reply (Option Bytes × Option Bytes) × S)
      → Type 0
  unfolding PairFetched
  FetchesPair w m f =
      Returns (λ r w'. PairFetched w (f w.rocks).0 r w' × (w'.rocks ≡ (f w.rocks).1)) (m w)

  -- The last lines of such a read.
  abbrev pub end_pair : Block × Block × Ptr → Cmd S (Option Slice × Option Slice × Option Bytes)
  end_pair (b, c, c_err) = do
    err ← from_c_error c_err
    pure (unless err (new_slice b.chars b.size), unless err (new_slice c.chars c.size), err)

  answered :
      (v x : Option Bytes) (w : World S)
      → IsValid w
      → Returns
          (λ a w'. PairFetched w (replied (v, x)) a w' × (w'.rocks ≡ w.rocks))
          (and_then (deliver_pair (replied (v, x)) w) end_pair)
  unfolding PairFetched deliver_pair out_block c_bytes_of malloc unless from_c_error
  answered none none w h =
      returns ((refl, _, _, refl, refl, after_both-OwnsBoth w h none none), refl)
  answered none (some x) w h =
      returns ((refl, _, _, refl, refl, after_both-OwnsBoth w h none (some x)), refl)
  answered (some v) none w h =
      returns ((refl, _, _, refl, refl, after_both-OwnsBoth w h (some v) none), refl)
  answered (some v) (some x) w h =
      returns ((refl, _, _, refl, refl, after_both-OwnsBoth w h (some v) (some x)), refl)

  pair_reply :
      (r : Reply (Option Bytes × Option Bytes)) (w : World S)
      → IsValid w
      → Returns
          (λ a w'. PairFetched w r a w' × (w'.rocks ≡ w.rocks))
          (and_then (deliver_pair r w) end_pair)
  unfolding PairFetched deliver_pair out_error c_string_of malloc unless
  pair_reply (failed m) w h = bind (from_c_error-out_error (some m) w h) (λ e u (is, rocks, clean).
      let gone = ap (λ y. unless y (new_slice null 0)) is in
      returns ((gone, gone, is, clean), rocks))
  pair_reply (replied (v, x)) w h = answered v x w h

  PairFetched-rocks :
      (w : World S) (x : S) (r : Reply (Option Bytes × Option Bytes))
      (a : Option Slice × Option Slice × Option Bytes) (w' : World S)
      → PairFetched (record w { rocks = x }) r a w'
      → PairFetched w r a w'
  unfolding PairFetched
  PairFetched-rocks w x (failed m) a w' (s, t, err, clean) =
      (s, t, err, record { same = clean.same; grows = clean.grows })
  PairFetched-rocks w x (replied (v, y)) a w' (err, s, t, is_s, is_t, o) = (
    err,
    s,
    t,
    is_s,
    is_t,
    record {
      reads_first = o.reads_first;
      reads_second = o.reads_second;
      frees_both =
          mono o.frees_both
            (λ _ u (rocks, clean). (rocks, record { same = clean.same; grows = clean.grows }));
    },
  )

  pub fetch_pair :
      (f : S → Reply (Option Bytes × Option Bytes) × S) (w : World S)
      → IsValid w
      → FetchesPair w (call_pair f >>= end_pair) f
  unfolding FetchesPair call_pair
  fetch_pair f w v =
      let (r, x) = f w.rocks in
      mono
        (pair_reply r (record w { rocks = x })
          (record { nonzero = v.nonzero; fresh = v.fresh; no_null = v.no_null }))
        (λ a w' (got, rocks). (PairFetched-rocks w x r a w' got, rocks))
