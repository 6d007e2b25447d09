-- ===== src/Util/Names.antt =====
-- Texts that are copied to C for one call, and freed after it.
use grocksdb.Base.{◌≡◌, refl, ◌∙◌, ap, false, some, List, [], ◌∷◌, map, Bytes, arith, ◌==◌}
use grocksdb.Cgo.{
  Ptr, null, World, Cmd, ◌>>=◌, ◌>>◌, pure, and_then, done, malloc, c_string, c_string_of,
}
use grocksdb.Cgo.{until_nul, go_string, free}
use grocksdb.Cgo.Returns.{Returns, returns, bind, IsValid, Clean}
use grocksdb.Cgo.Laws.{after_malloc, next-ne_null, go_string-done, free-done, after_malloc-IsValid}
use grocksdb.Cgo.Blocks.{
  free_all, addresses, after_all, blocks_at, next_after, free_all-Clean, head-after_all,
}
use grocksdb.Util.{c_strings_of, go_strings, from_c_error}
use grocksdb.Util.Relay.{Relays}
use grocksdb.Cgo.{Status, call_status, out_error, update}
use grocksdb.Util.Errors.{go_error, from_c_error-done}
use grocksdb.Base.{none, suc}
use grocksdb.Util.Strings.{has_nul-c_string, until_nul-c_string}

module _ {S A : Type 0} (w : World S) (v : IsValid w) (x : A) (y : S) where
  -- A command that is given a text of C, up to its first zero byte, keeps its promises when the text
  -- is allocated before it and freed after it.
  pub with_name :
      (s : Bytes) (m : Bytes → Cmd S A)
      → Returns
          (λ a u. (a ≡ x) × (u.rocks ≡ y) × Clean (after_malloc (c_string s) w) u)
          (m (until_nul s) (after_malloc (c_string s) w))
      → Returns
          (λ a u. (a ≡ x) × (u.rocks ≡ y) × Clean w u)
          ((c_string_of s >>= λ p. go_string p >>= λ t. m t >>= λ a. free p >> pure a) w)
  unfolding c_string_of malloc
  with_name s m works =
      let z = after_malloc (c_string s) w in
      let n : (w.next == null) ≡ false = next-ne_null (c_string s) w v in
      let e : z.heap w.next ≡ some (c_string s) = ground arith in
      rw (go_string-done z w.next _ n e (has_nul-c_string s), until_nul-c_string s)
        (bind works (λ a u (is, rocks, clean).
          rw (free-done u w.next (c_string s) n (clean.same w.next ∙ e)) (
            returns (
              is,
              rocks,
              record {
                same = λ p. ground (arith, clean.same p, v.fresh p);
                grows = omega (arith, clean.grows);
              },
            ))))

module _ {S : Type 0} where
  c_strings_of-done :
      (ss : List Bytes) (w : World S)
      → c_strings_of ss w
        ≡ done (addresses (map c_string ss) w.next) (after_all (map c_string ss) w)
  unfolding c_strings_of c_string_of malloc addresses after_all
  c_strings_of-done [] w = refl
  c_strings_of-done (s ∷ ss) w =
      ap (λ r. and_then r (λ ps. pure (w.next ∷ ps)))
        (c_strings_of-done ss (after_malloc (c_string s) w))

  -- The text of a block is read, whatever comes after it.
  pub go_string-at :
      (s : Bytes) (bs : List Bytes) (w u : World S)
      → IsValid w
      → ((p : Ptr) → u.heap p ≡ (after_all (c_string s ∷ bs) w).heap p)
      → go_string w.next u ≡ done (until_nul s) u
  go_string-at s bs w u v same =
      let n : (w.next == null) ≡ false = next-ne_null (c_string s) w v in
      let e : u.heap w.next ≡ some (c_string s) = same w.next ∙ head-after_all (c_string s) bs w in
      go_string-done u w.next _ n e (has_nul-c_string s) ∙ ap (λ t. done t u) (until_nul-c_string s)

  -- The texts that C reads at those pointers.
  go_strings-done :
      (ss : List Bytes) (w u : World S)
      → IsValid w
      → ((p : Ptr) → u.heap p ≡ (after_all (map c_string ss) w).heap p)
      → go_strings (addresses (map c_string ss) w.next) u ≡ done (map until_nul ss) u
  unfolding go_strings addresses after_all blocks_at next_after
  go_strings-done [] w u v same = refl
  go_strings-done (s ∷ ss) w u v same =
      let z = after_malloc (c_string s) w in
      rw (go_string-at s (map c_string ss) w u v same) (
        ap (λ r. and_then r (λ ts. pure (until_nul s ∷ ts)))
          (go_strings-done ss z u (after_malloc-IsValid (c_string s) w v) same))

module _ {S A : Type 0} (w : World S) (v : IsValid w) (x : A) (y : S) where
  -- The same for several texts.
  pub with_names :
      (ss : List Bytes) (m : List Bytes → Cmd S A)
      → Returns
          (λ a u. (a ≡ x) × (u.rocks ≡ y) × Clean (after_all (map c_string ss) w) u)
          (m (map until_nul ss) (after_all (map c_string ss) w))
      → Returns
          (λ a u. (a ≡ x) × (u.rocks ≡ y) × Clean w u)
          ((c_strings_of ss >>= λ ps. go_strings ps >>= λ ts. m ts >>= λ a. free_all ps >> pure a)
            w)
  with_names ss m works =
      let u = after_all (map c_string ss) w in
      rw (c_strings_of-done ss w, go_strings-done ss w u v (λ p. refl))
        (bind works (λ a u (is, rocks, clean).
          bind (free_all-Clean (map c_string ss) w u v clean)
            (λ _ u' (kept, back). returns (is, kept ∙ rocks, back))))

  -- The same for a text and several more.
  pub with_name_and_names :
      (s : Bytes) (ss : List Bytes) (m : Bytes → List Bytes → Cmd S A)
      → Returns
          (λ a u. (a ≡ x) × (u.rocks ≡ y) × Clean (after_all (map c_string (s ∷ ss)) w) u)
          (m (until_nul s) (map until_nul ss) (after_all (map c_string (s ∷ ss)) w))
      → Returns
          (λ a u. (a ≡ x) × (u.rocks ≡ y) × Clean w u)
          ((c_string_of s >>= λ p. c_strings_of ss >>= λ ps. go_string p >>= λ t.
              go_strings ps >>= λ ts. m t ts >>= λ a. free_all (p ∷ ps) >> pure a)
            w)
  unfolding c_string_of malloc addresses after_all blocks_at next_after
  with_name_and_names s ss m works =
      let z = after_malloc (c_string s) w in
      let z-IsValid : IsValid z = after_malloc-IsValid (c_string s) w v in
      let u = after_all (map c_string (s ∷ ss)) w in
      rw
        (
          c_strings_of-done ss z,
          go_string-at s (map c_string ss) w u v (λ p. refl),
          go_strings-done ss z u z-IsValid (λ p. refl),
        )
        (bind works (λ a u (is, rocks, clean).
          bind (free_all-Clean (map c_string (s ∷ ss)) w u v clean)
            (λ _ u' (kept, back). returns (is, kept ∙ rocks, back))))

  -- The same for two texts.
  pub with_two_names :
      (s t : Bytes) (m : Bytes → Bytes → Cmd S A)
      → Returns
          (λ a u. (a ≡ x) × (u.rocks ≡ y) × Clean (after_all (map c_string (s ∷ t ∷ [])) w) u)
          (m (until_nul s) (until_nul t) (after_all (map c_string (s ∷ t ∷ [])) w))
      → Returns
          (λ a u. (a ≡ x) × (u.rocks ≡ y) × Clean w u)
          ((c_string_of s >>= λ p. c_string_of t >>= λ q. go_string p >>= λ b.
              go_string q >>= λ c. m b c >>= λ a. free_all (p ∷ q ∷ []) >> pure a)
            w)
  unfolding c_string_of malloc addresses after_all blocks_at next_after
  with_two_names s t m works =
      let z = after_malloc (c_string s) w in
      let z-IsValid : IsValid z = after_malloc-IsValid (c_string s) w v in
      let u = after_all (map c_string (s ∷ t ∷ [])) w in
      rw
        (
          go_string-at s (c_string t ∷ []) w u v (λ p. refl),
          go_string-at t [] z u z-IsValid (λ p. refl),
        )
        (bind works (λ a u' (is, rocks, clean).
          bind (free_all-Clean (map c_string (s ∷ t ∷ [])) w u' v clean)
            (λ _ u'' (kept, back). returns (is, kept ∙ rocks, back))))

module _ {S : Type 0} (w : World S) (v : IsValid w) where
  from_c_error-null :
      (u : World S)
      → Clean w u
      → Returns (λ e u'. (e ≡ none) × (u'.rocks ≡ u.rocks) × Clean w u') (from_c_error null u)
  unfolding from_c_error
  from_c_error-null u clean = returns (refl, refl, clean)

  -- A message that is put after a text, which is freed first.
  name_then_message :
      (s : Bytes) (st : Status) (x : S)
      → Returns
          (λ e u. (e ≡ go_error st) × (u.rocks ≡ x) × Clean w u)
          (and_then
            (out_error st (record (after_malloc (c_string s) w) { rocks = x }))
            (λ c_err u. and_then (free w.next u) (λ _. from_c_error c_err)))
  unfolding out_error c_string_of malloc
  name_then_message s none x =
      let z = record (after_malloc (c_string s) w) { rocks = x } in
      let n : (w.next == null) ≡ false = next-ne_null (c_string s) w v in
      rw (free-done z w.next (c_string s) n (ground arith)) (
        from_c_error-null (record z { heap = update z.heap w.next none })
          (record { same = λ p. ground (arith, v.fresh p); grows = omega arith }))
  name_then_message s (some m) x =
      let z = after_malloc (c_string m) (record (after_malloc (c_string s) w) { rocks = x }) in
      let y = record z { heap = update z.heap w.next none } in
      let n : (w.next == null) ≡ false = next-ne_null (c_string s) w v in
      let k : (suc w.next == null) ≡ false = ground arith in
      rw
        (
          free-done z w.next (c_string s) n (ground arith),
          from_c_error-done (suc w.next) m y k (ground arith),
        )
        (returns
          (refl, refl, record { same = λ p. ground (arith, v.fresh p); grows = omega arith }))

  -- A text that is freed before the error of the call is taken.
  pub relay_name :
      (s : Bytes) (f : Bytes → S → Status × S)
      → Relays w
          (c_string_of s >>= λ p.
            go_string p >>= λ t. call_status (f t) >>= λ c_err. free p >> from_c_error c_err)
          (f (until_nul s))
  unfolding c_string_of malloc Relays call_status after_all blocks_at next_after
  relay_name s f =
      let z = after_malloc (c_string s) w in
      let (st, x) = f (until_nul s) w.rocks in
      rw (go_string-at s [] w z v (λ p. refl)) (name_then_message s st x)
