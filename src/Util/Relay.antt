-- ===== src/Util/Relay.antt =====
-- What a wrapper of a call with `errptr` promises, and the proof that the pattern keeps it.
use grocksdb.Base.{◌≡◌, refl, Option, none, List, [], ◌∷◌, Bytes}
use grocksdb.Cgo.{World, Cmd, done, Status, ◌>>=◌, call_status, call_void}
use grocksdb.Cgo.Returns.{Returns, returns, mono, IsValid, Clean, Clean-refl}
use grocksdb.Util.{from_c_error}
use grocksdb.Util.Errors.{go_error, from_c_error-out_error}

module _ {S : Type 0} where
  -- From the world `w` the command `m` runs without a fault, changes the library's state as the
  -- C function `f` does, returns its failure as an error and nil otherwise, and leaves the heap as
  -- it was: the message is freed, once.
  unfoldable pub Relays : World S → Cmd S (Option Bytes) → (S → Status × S) → Type 0
  Relays w m f =
      Returns (λ e w'. (e ≡ go_error (f w.rocks).0) × (w'.rocks ≡ (f w.rocks).1) × Clean w w') (m w)

  pub relay :
      (f : S → Status × S) (w : World S) → IsValid w → Relays w (call_status f >>= from_c_error) f
  unfolding Relays call_status
  relay f w v =
      let w' : World S = record w { rocks = (f w.rocks).1 } in
      mono
        (from_c_error-out_error (f w.rocks).0 w'
          (record { nonzero = v.nonzero; fresh = v.fresh; no_null = v.no_null }))
        (λ e u h. (h.0, h.1, record { same = h.2.same; grows = h.2.grows }))

  -- The same for a C function with no result.
  unfoldable pub Affects : World S → Cmd S (Unit {0}) → (S → S) → Type 0
  Affects w m f = Returns (λ _ w'. (w'.rocks ≡ f w.rocks) × Clean w w') (m w)

  pub affect : (f : S → S) (w : World S) → IsValid w → Affects w (call_void f) f
  unfolding Affects call_void
  affect f w v = returns (refl, record { same = λ p. refl; grows = (Clean-refl w).grows })

-- The same for a call that is made only when there is something in a list.
unfoldable pub RelaysSome :
    {S A : Type 0} → List A → World S → Cmd S (Option Bytes) → (S → Status × S) → Type 0
RelaysSome [] w m f = m w ≡ done none w
RelaysSome (x ∷ xs) w m f = Relays w m f
