-- ===== src/Iterator/Moves.antt =====
-- iterator.go: the moves of an iterator, and its error.
use grocksdb.Base.{Option, Bytes, length}
use grocksdb.Cgo.{Ptr, Cmd, Status, ◌>>=◌, call_status, call_void}
use grocksdb.Util.{ref_go_bytes, c_view, from_c_error}
use grocksdb.Util.Strings.{c_view-ref_go_bytes}
use grocksdb.Util.Relay.{Relays, relay, Affects, affect}
use grocksdb.Cgo.{World}
use grocksdb.Cgo.Returns.{IsValid}
use grocksdb.Types.{Iterator}

-- The C functions that are called here.
pub record MoveApi (S : Type 0) : Type 0 where
  pub rocksdb_iter_next : Ptr → S → S
  pub rocksdb_iter_prev : Ptr → S → S
  pub rocksdb_iter_seek_to_first : Ptr → S → S
  pub rocksdb_iter_seek_to_last : Ptr → S → S
  pub rocksdb_iter_seek : Ptr → Bytes → S → S
  pub rocksdb_iter_seek_for_prev : Ptr → Bytes → S → S
  pub rocksdb_iter_get_error : Ptr → S → Status × S

module _ {S : Type 0} (api : MoveApi S) where
  open api use {
    rocksdb_iter_next, rocksdb_iter_prev, rocksdb_iter_seek_to_first, rocksdb_iter_seek_to_last,
    rocksdb_iter_seek, rocksdb_iter_seek_for_prev, rocksdb_iter_get_error,
  }

  unfoldable pub next : (iter : Iterator) → Cmd S (Unit {0})
  next iter = call_void (rocksdb_iter_next iter.c)

  unfoldable pub prev : (iter : Iterator) → Cmd S (Unit {0})
  prev iter = call_void (rocksdb_iter_prev iter.c)

  unfoldable pub seek_to_first : (iter : Iterator) → Cmd S (Unit {0})
  seek_to_first iter = call_void (rocksdb_iter_seek_to_first iter.c)

  unfoldable pub seek_to_last : (iter : Iterator) → Cmd S (Unit {0})
  seek_to_last iter = call_void (rocksdb_iter_seek_to_last iter.c)

  unfoldable pub seek : (iter : Iterator) (key : Bytes) → Cmd S (Unit {0})
  seek iter key = do
    let c_key = ref_go_bytes key
    call_void (rocksdb_iter_seek iter.c (c_view c_key (length key)))

  unfoldable pub seek_for_prev : (iter : Iterator) (key : Bytes) → Cmd S (Unit {0})
  seek_for_prev iter key = do
    let c_key = ref_go_bytes key
    call_void (rocksdb_iter_seek_for_prev iter.c (c_view c_key (length key)))

  unfoldable pub err : (iter : Iterator) → Cmd S (Option Bytes)
  err iter = do c_err ← call_status (rocksdb_iter_get_error iter.c); from_c_error c_err

  abbrev pub ForwardsMoves : (iter : Iterator) (key : Bytes) (w : World S) → Type 0
  ForwardsMoves iter key w =
      Affects w (next iter) (rocksdb_iter_next iter.c)
      × Affects w (prev iter) (rocksdb_iter_prev iter.c)
      × Affects w (seek_to_first iter) (rocksdb_iter_seek_to_first iter.c)
      × Affects w (seek_to_last iter) (rocksdb_iter_seek_to_last iter.c)
      × Affects w (seek iter key) (rocksdb_iter_seek iter.c key)
      × Affects w (seek_for_prev iter key) (rocksdb_iter_seek_for_prev iter.c key)
      × Relays w (err iter) (rocksdb_iter_get_error iter.c)

  -- Every move of an iterator runs without a fault and changes RocksDB as its C function does on exactly
  -- the bytes of the key; `Err` returns RocksDB's failure as an error and nil otherwise; the C heap is
  -- left as it was.
  pub moves-Affects :
      (iter : Iterator) (key : Bytes) (w : World S) → IsValid w → ForwardsMoves iter key w
  unfolding next prev seek_to_first seek_to_last seek seek_for_prev err
  moves-Affects iter key w valid = simp c_view-ref_go_bytes (
    affect _ w valid,
    affect _ w valid,
    affect _ w valid,
    affect _ w valid,
    affect _ w valid,
    affect _ w valid,
    relay _ w valid,
  )
