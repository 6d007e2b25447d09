-- ===== src/Options/Settings/Tests.antt =====
-- Options that hold one value, at a RocksDB that keeps what is set.
use grocksdb.Base.{ℕ, none}
use grocksdb.Base.Int.{ℤ, pos}
use grocksdb.Cgo.{World}
use grocksdb.Options.Settings.{Flag, Word, Number, OptionApi}
use grocksdb.Options.Settings.Laws.{Kept}

Flag-discrete : Discrete Flag
Flag-discrete = hlevel

Word-discrete : Discrete Word
Word-discrete = hlevel

Number-discrete : Discrete Number
Number-discrete = hlevel

-- `c` at `x`, and elsewhere what `f` has.
chosen : {A C : Type 0} → Dec A → C → C → C
chosen (yes e) c d = c
chosen (no n) c d = d

-- The values of the three kinds of options, for the one options object.
abbrev Values : Type 0
Values = (Flag → ℕ) × (Word → ℕ) × (Number → ℤ)

abbrev flags : OptionApi Flag ℕ Values
flags = record {
  rocksdb_options_set = λ x p c (f, n, z). (λ y. chosen (Flag-discrete y x) c (f y), n, z);
  rocksdb_options_get = λ x p (f, n, z). f x;
}

abbrev words : OptionApi Word ℕ Values
words = record {
  rocksdb_options_set = λ x p c (f, n, z). (f, λ y. chosen (Word-discrete y x) c (n y), z);
  rocksdb_options_get = λ x p (f, n, z). n x;
}

abbrev numbers : OptionApi Number ℤ Values
numbers = record {
  rocksdb_options_set = λ x p c (f, n, z). (f, n, λ y. chosen (Number-discrete y x) c (z y));
  rocksdb_options_get = λ x p (f, n, z). z x;
}

abbrev zeros : World Values
zeros = record { heap = λ p. none; next = 1; rocks = (λ x. 0, λ x. 0, λ x. pos 0) }
