-- ===== src/Callbacks/CompactionFilter.antt =====
-- compaction_filter.go: compaction filters written in Go.
use grocksdb.Base.{ℕ, ◌≡◌, refl, Bool, true, false, Option, none, some, List, Bytes, length}
use grocksdb.Base.{if◌then◌else◌, ◌==◌}
use grocksdb.Base.Int.{ℤ, pos}
use grocksdb.Cgo.{Ptr, Cmd, World, done, ◌>>=◌, pure, c_string_of}
use grocksdb.Cgo.Returns.{IsValid}
use grocksdb.CowList.{append, get}
use grocksdb.Callbacks.{registered, registered-done}
use grocksdb.Util.{ref_c_bytes, ref_go_bytes, c_view, GoPtr}
use grocksdb.Util.Strings.{c_view-ref_go_bytes}
use grocksdb.Util.Views.{Holds, ref_c_bytes-Holds}

-- A value of the interface CompactionFilter; a nil new value is `none`.
pub record CompactionFilter : Type 0 where
  pub name : Bytes
  pub filter : (level : ℤ) (key val : Bytes) → Bool × Option Bytes

pub record CompactionFilterWrapper : Type 0 where
  pub name : Ptr
  pub filter : CompactionFilter

abbrev pub CompactionFilters : Type 0
CompactionFilters = List CompactionFilterWrapper

-- The out parameters; the caller sets them before the call.
pub record FilterOut : Type 0 where
  pub new_val : GoPtr
  pub new_val_len : ℕ
  pub val_changed : ℕ

-- The answer to what `Filter` returned, and the out parameters as it leaves them.
unfoldable pub filter_reply : Bool × Option Bytes → FilterOut → ℤ × FilterOut
filter_reply (true, new_val) out = (pos 1, out)
filter_reply (false, none) out = (pos 0, out)
filter_reply (false, some new_val) out = (
  pos 0,
  record { new_val = ref_go_bytes new_val; new_val_len = length new_val; val_changed = 1 },
)

module _ {S : Type 0} where
  unfoldable pub register_compaction_filter :
      CompactionFilters → CompactionFilter → Cmd S (CompactionFilters × ℕ)
  unfolding append
  register_compaction_filter compaction_filters filter = do
    name ← c_string_of filter.name
    pure (append compaction_filters (record { name = name; filter = filter }))

  unfoldable pub gorocksdb_compactionfilter_filter :
      CompactionFilters → ℕ → ℤ → Ptr → ℕ → Ptr → ℕ → FilterOut → Cmd S (ℤ × FilterOut)
  unfolding filter_reply
  gorocksdb_compactionfilter_filter compaction_filters idx c_level c_key c_key_len c_val c_val_len
        out =
      do
        key ← ref_c_bytes c_key c_key_len
        val ← ref_c_bytes c_val c_val_len
        wrapper ← registered compaction_filters idx
        pure (filter_reply (wrapper.filter.filter c_level key val) out)

  unfoldable pub gorocksdb_compactionfilter_name : CompactionFilters → ℕ → Cmd S Ptr
  gorocksdb_compactionfilter_name compaction_filters idx = do
    wrapper ← registered compaction_filters idx
    pure wrapper.name

-- What RocksDB does with a key: a nonzero answer removes it; else a changed value replaces its own.
pub data Decision : Type 0 where
  keep remove : Decision
  change : Bytes → Decision

unfoldable pub decision_of : ℤ × FilterOut → Decision
decision_of (pos n, out) =
    if n == 0
    then (if out.val_changed == 0 then keep else change (c_view out.new_val out.new_val_len))
    else remove
decision_of (_, out) = remove

-- What the documentation of the interface says of the results of `Filter`.
unfoldable pub intended : Bool × Option Bytes → Decision
intended (true, _) = remove
intended (false, none) = keep
intended (false, some new_val) = change new_val

decision_of-filter_reply :
    (r : Bool × Option Bytes) (out : FilterOut)
    → out.val_changed ≡ 0
    → decision_of (filter_reply r out) ≡ intended r
unfolding decision_of filter_reply intended
decision_of-filter_reply (true, v) out h = refl
decision_of-filter_reply (false, none) out h = rw h
decision_of-filter_reply (false, some v) out h = rw c_view-ref_go_bytes

-- RocksDB, which clears the changed flag before the call, does with a key what the registered filter
-- decides for its level, key and value: it removes it, keeps its value, or takes the new one, also an
-- empty one. The callback changes nothing else.
pub filter_decision :
    {S : Type 0} (w : World S) (valid : IsValid w) (registry : CompactionFilters) (idx : ℕ)
    (wrapper : CompactionFilterWrapper) (level : ℤ) (p_key p_val : Ptr) (key val : Bytes)
    (out : FilterOut)
    → get registry idx ≡ some wrapper
    → Holds w p_key key
    → Holds w p_val val
    → out.val_changed ≡ 0
    → (r : ℤ × FilterOut) × (gorocksdb_compactionfilter_filter registry idx level p_key
          (length key)
          p_val
          (length val)
          out
          w
        ≡ done r w)
      × (decision_of r ≡ intended (wrapper.filter.filter level key val))
unfolding gorocksdb_compactionfilter_filter
filter_decision w v registry idx wrapper level p_key p_val key val out found at_key at_val h = (
  filter_reply (wrapper.filter.filter level key val) out,
  rw (
    ref_c_bytes-Holds w v p_key key at_key,
    ref_c_bytes-Holds w v p_val val at_val,
    registered-done registry idx wrapper w found,
  ),
  decision_of-filter_reply _ out h,
)
