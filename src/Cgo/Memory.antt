-- ===== src/Cgo/Memory.antt =====
-- Blocks at addresses, and commands over the blocks and the state of the foreign library.
use grocksdb.Base.{ℕ, suc, Bool, false, Option, none, some, [], ◌∷◌, ◌++◌}
use grocksdb.Base.{Bytes, length, take, ltb, ◌==◌, ◌||◌, if◌then◌else◌}
use grocksdb.Base.Int.{ℤ, pos, negsuc}

abbrev pub Ptr : Type 0
Ptr = ℕ

abbrev pub null : Ptr
null = 0

-- `none` at an address: nothing is allocated there.
abbrev pub Heap : Type 0
Heap = Ptr → Option Bytes

-- The C heap, the next unused address, and the state of RocksDB, of which nothing is known.
pub record World (S : Type 0) : Type 0 where
  pub heap : Heap
  pub next : ℕ
  pub rocks : S

-- What ends a program: undefined behaviour in C, or a Go panic.
pub data Fault : Type 0 where
  bad_free bad_read panic : Fault

pub data Run (S A : Type 0) : Type 0 where
  done : A → World S → Run S A
  fault : Fault → Run S A

abbrev pub Cmd : Type 0 → Type 0 → Type 0
Cmd S A = World S → Run S A

abbrev pub update : Heap → Ptr → Option Bytes → Heap
update h p c q = if q == p then c else h q

module _ {S : Type 0} where
  abbrev pub and_then : {A B : Type 0} → Run S A → (A → Cmd S B) → Run S B
  and_then (done a w) k = k a w
  and_then (fault e) k = fault e

  infixl 5 ◌>>=◌ ◌>>◌
  abbrev pub ◌>>=◌ : {A B : Type 0} → Cmd S A → (A → Cmd S B) → Cmd S B
  m >>= k = λ w. and_then (m w) k

  abbrev pub ◌>>◌ : {B : Type 0} → Cmd S (Unit {0}) → Cmd S B → Cmd S B
  m >> n = m >>= λ _. n

  abbrev pub pure : {A : Type 0} → A → Cmd S A
  pure a w = done a w

  abbrev pub crash : {A : Type 0} → Fault → Cmd S A
  crash e w = fault e

  -- A call that only changes the state of the library.
  abbrev pub invoke : {A : Type 0} → (S → A × S) → Cmd S A
  invoke f w = let (a, s) = f w.rocks in done a (record w { rocks = s })

  -- A C function with no result.
  unfoldable pub call_void : (S → S) → Cmd S (Unit {0})
  call_void f w = done tt (record w { rocks = f w.rocks })

  -- A C function that only reads the state of the library.
  unfoldable pub call_read : {A : Type 0} → (S → A) → Cmd S A
  call_read f w = done (f w.rocks) w

  unfoldable pub malloc : Bytes → Cmd S Ptr
  malloc b w = done w.next (record w { heap = update w.heap w.next (some b); next = suc w.next })

  -- `C.free` and `rocksdb_free`: nothing at NULL, a fault at an address that holds no block.
  unfoldable pub free : Ptr → Cmd S (Unit {0})
  free p w = if p == null then done tt w else elim (w.heap p) [
    | none ↦ fault bad_free
    | some _ ↦ done tt (record w { heap = update w.heap p none })
  ]

  -- The block at an address.
  unfoldable pub load : Ptr → Cmd S Bytes
  load p w = elim (w.heap p) [ none ↦ fault bad_read | some b ↦ done b w ]

-- A C string ends with a zero byte; `until_nul` is what lies before the first.
abbrev pub c_string : Bytes → Bytes
c_string s = s ++ (0 ∷ [])

unfoldable pub until_nul : Bytes → Bytes
until_nul [] = []
until_nul (b ∷ bs) = if b == 0 then [] else b ∷ until_nul bs

unfoldable pub has_nul : Bytes → Bool
has_nul [] = false
has_nul (b ∷ bs) = b == 0 || has_nul bs

module _ {S : Type 0} where
  -- `C.GoString`: the empty string at NULL, else the text up to the first zero byte.
  unfoldable pub go_string : Ptr → Cmd S Bytes
  go_string p =
      if p == null
      then pure []
      else do b ← load p; if has_nul b then pure (until_nul b) else crash bad_read

  -- `C.GoBytes`: a copy of `n` bytes; a negative length panics.
  go_bytes_at : Ptr → ℕ → Cmd S Bytes
  go_bytes_at p n =
      if n == 0
      then pure []
      else do b ← load p; if ltb (length b) n then crash bad_read else pure (take n b)

  unfoldable pub go_bytes : Ptr → ℤ → Cmd S Bytes
  unfolding go_bytes_at
  go_bytes p (pos n) = go_bytes_at p n
  go_bytes p (negsuc n) = crash panic

  -- `C.CString` and `C.CBytes` copy into a new block.
  unfoldable pub c_string_of : Bytes → Cmd S Ptr
  c_string_of s = malloc (c_string s)

  unfoldable pub c_bytes_of : Bytes → Cmd S Ptr
  c_bytes_of b = malloc b
