-- ===== src/Util/Answers.antt =====
-- What a call promises that answers through several results, or fails.
use grocksdb.Base.{◌≡◌, refl, ap, Option, none, some, Bytes}
use grocksdb.Cgo.{Ptr, World, Cmd, Reply, failed, replied, ◌>>=◌, pure, and_then, until_nul}
use grocksdb.Cgo.{call_answer, deliver_answer, out_error, c_string_of, malloc}
use grocksdb.Cgo.Returns.{Returns, returns, bind, mono, IsValid, Clean, Clean-refl}
use grocksdb.Util.{from_c_error}
use grocksdb.Util.Errors.{from_c_error-out_error}

-- What the code makes of an answer by `k`, which is given the results and the error; `zero` stands for
-- the results of a failure.
unfoldable pub answer_of : {A B : Type 0} → A → (A → Option Bytes → B) → Reply A → B
answer_of zero k (failed m) = k zero (some (until_nul m))
answer_of zero k (replied a) = k a none

module _ {S A B : Type 0} (zero : A) (k : A → Option Bytes → B) where
  -- The last lines of such a call.
  abbrev pub end_answer : A × Ptr → Cmd S B
  end_answer r = do err ← from_c_error r.1; pure (k r.0 err)

  answer_reply :
      (r : Reply A) (w : World S)
      → IsValid w
      → Returns
          (λ b u. (b ≡ answer_of zero k r) × (u.rocks ≡ w.rocks) × Clean w u)
          (and_then (deliver_answer zero r w) end_answer)
  unfolding answer_of deliver_answer out_error c_string_of malloc from_c_error
  answer_reply (failed m) w v =
      bind (from_c_error-out_error (some m) w v)
        (λ e u (is, rocks, clean). returns (ap (λ x. k zero x) is, rocks, clean))
  answer_reply (replied a) w v = returns (refl, refl, Clean-refl w)

  -- The call runs without a fault, changes the library's state as `f` does, gives what is made of the
  -- answer, and leaves the heap as it was.
  pub answers :
      (f : S → Reply A × S) (w : World S)
      → IsValid w
      → Returns
          (λ b u. (b ≡ answer_of zero k (f w.rocks).0) × (u.rocks ≡ (f w.rocks).1) × Clean w u)
          ((call_answer zero f >>= end_answer) w)
  unfolding call_answer
  answers f w v =
      let (r, x) = f w.rocks in
      mono
        (answer_reply r (record w { rocks = x })
          (record { nonzero = v.nonzero; fresh = v.fresh; no_null = v.no_null }))
        (λ b u (is, rocks, clean). (is, rocks, record { same = clean.same; grows = clean.grows }))
