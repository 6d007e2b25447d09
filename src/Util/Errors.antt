-- ===== src/Util/Errors.antt =====
-- `fromCError` after a call: the error is passed on, and its message is freed.
use grocksdb.Base.{suc, ◌≡◌, refl, Option, none, some, arith, Bytes, ◌==◌}
use grocksdb.Base.{false}
use grocksdb.Cgo.{
  done, Ptr, null, c_string_of, malloc, World, and_then, update, c_string, until_nul,
}
use grocksdb.Cgo.{Status, out_error}
use grocksdb.Cgo.Returns.{Returns, returns, IsValid, Clean}
use grocksdb.Cgo.Laws.{go_string-done, free-done}
use grocksdb.Util.{from_c_error}
use grocksdb.Util.Strings.{has_nul-c_string, until_nul-c_string}

-- The Go error that a status becomes.
abbrev pub go_error : Status → Option Bytes
go_error none = none
go_error (some m) = some (until_nul m)

module _ {S : Type 0} where
  -- The message that a call has just put behind `errptr` is read and freed.
  pub from_c_error-out_error :
      (st : Status) (w : World S)
      → IsValid w
      → Returns
          (λ e w'. (e ≡ go_error st) × (w'.rocks ≡ w.rocks) × Clean w w')
          (and_then (out_error st w) from_c_error)
  unfolding from_c_error out_error c_string_of malloc
  from_c_error-out_error none w v =
      returns (refl, refl, record { same = λ p. refl; grows = omega arith })
  from_c_error-out_error (some m) w v =
      let w' : World S = record w {
        heap = update w.heap w.next (some (c_string m));
        next = suc w.next;
      } in
      let n : (w.next == null) ≡ false = ground arith in
      let e : w'.heap w.next ≡ some (c_string m) = ground arith in
      rw (n, go_string-done w' w.next _ n e (has_nul-c_string m), free-done w' w.next _ n e)
        (returns (
          rw (until_nul-c_string m),
          refl,
          record { same = λ q. ground (arith, v.fresh q); grows = omega arith },
        ))

  -- A message that is there is read and freed.
  pub from_c_error-done :
      (p : Ptr) (m : Bytes) (w : World S)
      → (p == null) ≡ false
      → w.heap p ≡ some (c_string m)
      → from_c_error p w ≡ done (some (until_nul m)) (record w { heap = update w.heap p none })
  unfolding from_c_error
  from_c_error-done p m w n e =
      rw
        (
          n,
          go_string-done w p _ n e (has_nul-c_string m),
          free-done w p _ n e,
          until_nul-c_string m,
        )
        refl
