-- ===== src/Util/Opens.antt =====
-- What a call promises that returns an opaque pointer, or a failure.
use grocksdb.Base.{◌≡◌, refl, ap, Option, none, some, Bytes}
use grocksdb.Cgo.{Ptr, null, World, Cmd, Reply, failed, replied, ◌>>=◌, pure, and_then, until_nul}
use grocksdb.Cgo.{call_handle, deliver_handle, out_error, c_string_of, malloc}
use grocksdb.Cgo.Returns.{Returns, returns, bind, mono, IsValid, Clean, Clean-refl}
use grocksdb.Util.{from_c_error, unless}
use grocksdb.Util.Errors.{from_c_error-out_error}

-- The handle and the error that an answer of RocksDB becomes.
unfoldable pub handle_of : {H : Type 0} → (Ptr → H) → Reply Ptr → Option H × Option Bytes
handle_of wrap (failed m) = (none, some (until_nul m))
handle_of wrap (replied p) = (some (wrap p), none)

module _ {S H : Type 0} where
  -- From the world `w` the command `m` runs without a fault, changes the library's state as the C
  -- function `f` does, returns what `f` answers, wrapped by `wrap`, or its failure as an error, and
  -- leaves the heap as it was.
  unfoldable pub Opens :
      (wrap : Ptr → H) → World S → Cmd S (Option H × Option Bytes) → (S → Reply Ptr × S) → Type 0
  Opens wrap w m f =
      Returns (λ r w'. (r ≡ handle_of wrap (f w.rocks).0) × (w'.rocks ≡ (f w.rocks).1) × Clean w w')
        (m w)

  -- The last lines of such a call.
  abbrev pub end_open : (Ptr → H) → Ptr × Ptr → Cmd S (Option H × Option Bytes)
  end_open wrap r = do err ← from_c_error r.1; pure (unless err (wrap r.0), err)

  open_reply :
      (wrap : Ptr → H) (r : Reply Ptr) (w : World S)
      → IsValid w
      → Returns
          (λ a w'. (a ≡ handle_of wrap r) × (w'.rocks ≡ w.rocks) × Clean w w')
          (and_then (deliver_handle r w) (end_open wrap))
  unfolding handle_of deliver_handle out_error c_string_of malloc unless from_c_error
  open_reply wrap (failed m) w v =
      bind (from_c_error-out_error (some m) w v)
        (λ e u (is, rocks, clean). returns (ap (λ x. (unless x (wrap null), x)) is, rocks, clean))
  open_reply wrap (replied p) w v = returns (refl, refl, Clean-refl w)

  pub opens :
      (wrap : Ptr → H) (f : S → Reply Ptr × S) (w : World S)
      → IsValid w
      → Opens wrap w (call_handle f >>= end_open wrap) f
  unfolding Opens call_handle
  opens wrap f w v =
      let (r, x) = f w.rocks in
      mono
        (open_reply wrap r (record w { rocks = x })
          (record { nonzero = v.nonzero; fresh = v.fresh; no_null = v.no_null }))
        (λ a w' (is, rocks, clean). (is, rocks, record { same = clean.same; grows = clean.grows }))
