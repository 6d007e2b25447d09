-- ===== src/Fixtures.antt =====
-- Values that the tests share: a small world with three blocks in the C heap, a RocksDB that counts its
-- calls, its answers, and handles.
use grocksdb.Base.{ℕ, refl, arith, some, none, [], ◌∷◌, ◌==◌, if◌then◌else◌, Bytes}
use grocksdb.Base.{inr, Option}
use grocksdb.Cgo.{World, Status, Ptr, Reply, failed, replied}
use grocksdb.Cgo.Returns.{IsValid}
use grocksdb.Util.Views.{Holds}
use grocksdb.Types.{
  ColumnFamilyHandle, Db, FlushOptions, Options, ReadOptions, Transaction, TransactionDb,
  WriteBatch, WriteBatchWi, WriteOptions,
}

abbrev pub letter_a : Bytes
letter_a = 97 ∷ []

abbrev pub letters_bc : Bytes
letters_bc = 98 ∷ 99 ∷ []

abbrev pub small : World ℕ
small = record {
  heap = λ p. if p == 1 then some letter_a else if p == 2 then some letters_bc else none;
  next = 10;
  rocks = 0;
}

pub small-IsValid : IsValid small
small-IsValid = record { nonzero = omega arith; fresh = λ p h. ground arith; no_null = refl }

pub holds_a : Holds small 1 letter_a
holds_a = inr (letter_a, refl, omega arith, refl)

pub holds_bc : Holds small 2 letters_bc
holds_bc = inr (letters_bc, refl, omega arith, refl)

-- A failure on the first call, with the message "a".
abbrev pub failure : ℕ → Status
failure s = if s == 0 then some letter_a else none

abbrev pub an_options : Options
an_options = record { c = 5; env = 0; ccmp = 0; cmo = 0; cst = 0; ccf = 0 }

abbrev pub a_db : Db
a_db = record { c = 5; name = letter_a; opts = an_options }

abbrev pub a_write_options : WriteOptions
a_write_options = record { c = 5 }

abbrev pub a_column_family_handle : ColumnFamilyHandle
a_column_family_handle = record { c = 5 }

abbrev pub a_write_batch : WriteBatch
a_write_batch = record { c = 5 }

abbrev pub a_write_batch_wi : WriteBatchWi
a_write_batch_wi = record { c = 5 }

abbrev pub a_flush_options : FlushOptions
a_flush_options = record { c = 5 }

abbrev pub handle_reply : ℕ → Reply Ptr
handle_reply s = if s == 0 then replied 9 else failed letter_a

abbrev pub a_handle : ColumnFamilyHandle
a_handle = record { c = 6 }

abbrev pub a_read_options : ReadOptions
a_read_options = record { c = 5 }

abbrev pub value_reply : ℕ → Reply (Option Bytes)
value_reply s = if s == 0 then replied (some letters_bc) else failed letter_a

abbrev pub a_transaction : Transaction
a_transaction = record { c = 5 }

abbrev pub a_transaction_db : TransactionDb
a_transaction_db = record { c = 5 }
