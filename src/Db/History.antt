-- ===== src/Db/History.antt =====
-- db.go: GetFullHistoryTsLow.
use grocksdb.Base.{◌∙◌, ◌≡◌, refl, ap, false, Option, none, some, Bytes, length, ◌==◌, arith}
use grocksdb.Cgo.{
  Block, Ptr, null, World, Cmd, Run, done, fault, bad_read, Reply, failed, replied, ◌>>=◌, pure,
}
use grocksdb.Cgo.{
  and_then, call_value, deliver_value, out_error, out_block, c_string_of, c_bytes_of,
}
use grocksdb.Cgo.{malloc, until_nul, update, c_string, go_string, load}
use grocksdb.Cgo.Returns.{Returns, returns, mono, IsValid}
use grocksdb.Cgo.Laws.{after_malloc, next-ne_null}
use grocksdb.Util.Errors.{from_c_error-done}
use grocksdb.Util.{from_c_error, unless}
use grocksdb.Slice.{Slice, new_slice}
use grocksdb.Slice.Owns.{Owns, no_block-Owns, block-Owns, rocks-Owns}
use grocksdb.Types.{Db, ColumnFamilyHandle}

-- The C function that is called here.
pub record HistoryApi (S : Type 0) : Type 0 where
  pub rocksdb_get_full_history_ts_low : Ptr → Ptr → S → Reply (Option Bytes) × S

-- A message that is not there cannot be read.
module _ {S : Type 0} (p : Ptr) (w : World S) (n : (p == null) ≡ false) (e : w.heap p ≡ none) where
  load_missing : load p w ≡ fault bad_read
  unfolding load
  load_missing = rw (e, load)

  go_string_missing : go_string p w ≡ fault bad_read
  unfolding go_string
  go_string_missing = rw (n, load_missing)

  from_c_error_missing : from_c_error p w ≡ fault bad_read
  unfolding from_c_error
  from_c_error_missing = rw (n, go_string_missing)

-- A message that has been read and freed cannot be read again.
from_c_error_twice :
    {S B : Type 0} (m : Bytes) (w : World S) (k : Option Bytes → Option Bytes → Cmd S B)
    → IsValid w
    → (from_c_error w.next >>= λ e. from_c_error w.next >>= k e) (after_malloc (c_string m) w)
      ≡ fault bad_read
from_c_error_twice m w k v =
    let u = after_malloc (c_string m) w in
    let z = record u { heap = update u.heap w.next none } in
    let n : (w.next == null) ≡ false = next-ne_null (c_string m) w v in
    let e : u.heap w.next ≡ some (c_string m) = ground arith in
    let first : from_c_error w.next u ≡ done (some (until_nul m)) z =
      from_c_error-done w.next m u n e in
    let second : from_c_error w.next z ≡ fault bad_read =
      from_c_error_missing w.next z n (ground arith) in
    ap (λ r. and_then r (λ e. from_c_error w.next >>= k e)) first
    ∙ ap (λ r. and_then r (k (some (until_nul m)))) second

module _ {S : Type 0} where
  -- What the code does with an answer: a value becomes a slice that owns it; a failure is a fault.
  pub HistoryRead : World S → Run S (Option Slice × Option Bytes) → Reply (Option Bytes) → Type 0
  HistoryRead w run (failed m) = run ≡ fault bad_read
  HistoryRead w run (replied v) =
      Returns (λ (slice, err) w'. (err ≡ none) × (s : Slice) × (slice ≡ some s) × Owns w w' s v) run

  abbrev end_history : Block × Ptr → Cmd S (Option Slice × Option Bytes)
  end_history (b, c_err) = do
    err ← from_c_error c_err
    let slice = unless err (new_slice b.chars b.size)
    err ← from_c_error c_err
    pure (slice, err)

  history_reply :
      (r : Reply (Option Bytes)) (w : World S)
      → IsValid w
      → HistoryRead w (and_then (deliver_value r w) end_history) r
  unfolding HistoryRead deliver_value out_error out_block c_string_of c_bytes_of malloc unless
      from_c_error
  history_reply (failed m) w v =
      from_c_error_twice m w (λ e f. pure (unless e (new_slice null 0), f)) v
  history_reply (replied none) w v = returns (refl, new_slice null 0, refl, no_block-Owns w v)
  history_reply (replied (some b)) w v =
      returns (refl, new_slice w.next (length b), refl, block-Owns w v b)

  HistoryRead-rocks :
      (r : Reply (Option Bytes)) (w : World S) (x : S) (run : Run S (Option Slice × Option Bytes))
      → HistoryRead (record w { rocks = x }) run r
      → HistoryRead w run r
  unfolding HistoryRead
  HistoryRead-rocks (failed m) w x run h = h
  HistoryRead-rocks (replied v) w x run h =
      mono h (λ a w' (err, s, slice, o). (err, s, slice, rocks-Owns w w' x s v o))

module _ {S : Type 0} (api : HistoryApi S) where
  open api use {rocksdb_get_full_history_ts_low}

  unfoldable pub get_full_history_ts_low :
      (db : Db) (handle : ColumnFamilyHandle) → Cmd S (Option Slice × Option Bytes)
  get_full_history_ts_low db handle = do
    (c_ts, c_err) ← call_value (rocksdb_get_full_history_ts_low db.c handle.c)
    err ← from_c_error c_err
    let slice = unless err (new_slice c_ts.chars c_ts.size)
    err ← from_c_error c_err
    pure (slice, err)

  -- `GetFullHistoryTsLow` returns the timestamp of RocksDB as a slice that owns it. When RocksDB
  -- fails, the code takes the error twice, and reads the message after it has freed it.
  pub get_full_history_ts_low_faults :
      (db : Db) (handle : ColumnFamilyHandle) (w : World S)
      → IsValid w
      → HistoryRead w
          (get_full_history_ts_low db handle w)
          (rocksdb_get_full_history_ts_low db.c handle.c w.rocks).0
  unfolding get_full_history_ts_low call_value
  get_full_history_ts_low_faults db handle w v =
      let (r, x) = rocksdb_get_full_history_ts_low db.c handle.c w.rocks in
      HistoryRead-rocks r w x _ (
        history_reply r (record w { rocks = x })
          (record { nonzero = v.nonzero; fresh = v.fresh; no_null = v.no_null }))
