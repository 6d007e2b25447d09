-- ===== src/Options/Settings/Laws.antt =====
-- What RocksDB does with the value of an option, and what setters and getters in Go then promise.
use grocksdb.Base.{◌≡◌, ◌≢◌, refl, ◌∙◌, ap, Option, some, none}
use grocksdb.Cgo.{Ptr, World, Run, Cmd, done, fault, call_void, call_read}
use grocksdb.Cgo.Returns.{Returns, returns}
use grocksdb.Types.{Options}
use grocksdb.Options.Settings.{OptionApi}

-- The C functions of the options keep a value that fits their type, and leave the other options of the
-- kind as they are.
pub record Stores {X C S : Type 0} (api : OptionApi X C S) (Fits : C → Type 0) : Type 0 where
  pub reads :
      (x : X) (p : Ptr) (c : C) (s : S)
      → Fits c
      → api.rocksdb_options_get x p (api.rocksdb_options_set x p c s) ≡ c
  pub others :
      (x y : X) (p : Ptr) (c : C) (s : S)
      → Fits c
      → y ≢ x
      → api.rocksdb_options_get y p (api.rocksdb_options_set x p c s)
        ≡ api.rocksdb_options_get y p s

abbrev pub value_of : {S A : Type 0} → Run S A → Option A
value_of (done a w) = some a
value_of (fault e) = none

module _ {X V S : Type 0} (setter : X → (opts : Options) → V → Cmd S (Unit {0}))
    (getter : X → (opts : Options) → Cmd S V) where
  -- After `x` is set to `v`, `x` reads `r`, `y` reads as before, and the C heap is as it was.
  unfoldable pub Kept : (x y : X) (opts : Options) (v r : V) (w : World S) → Type 0
  Kept x y opts v r w =
      Returns
        (λ _ u.
          (getter x opts u ≡ done r u)
          × (value_of (getter y opts u) ≡ value_of (getter y opts w))
          × ((p : Ptr) → u.heap p ≡ w.heap p))
        (setter x opts v w)

pub kept :
    {X C V S : Type 0} (api : OptionApi X C S) (Fits : C → Type 0)
    → Stores api Fits
    → (setter : X → (opts : Options) → V → Cmd S (Unit {0}))
      (getter : X → (opts : Options) → Cmd S V) (to : V → C) (from : C → V)
    → ((x : X) (opts : Options) (v : V)
        → setter x opts v ≡ call_void (api.rocksdb_options_set x opts.c (to v)))
    → ((x : X) (opts : Options)
        → getter x opts ≡ call_read (λ s. from (api.rocksdb_options_get x opts.c s)))
    → (x y : X) (opts : Options) (v r : V) (w : World S) → y ≢ x
    → Fits (to v)
    → from (to v) ≡ r
    → Kept setter getter x y opts v r w
unfolding Kept call_void call_read
kept api Fits laws setter getter to from is_set is_get x y opts v r w ne fits back =
    rw (is_set x opts v, is_get x opts, is_get y opts)
      (returns (
        ap (λ a. done a (record w { rocks = api.rocksdb_options_set x opts.c (to v) w.rocks }))
            (ap from (laws.reads x opts.c (to v) w.rocks fits) ∙ back),
        ap (λ c. some (from c)) (laws.others x y opts.c (to v) w.rocks fits ne),
        λ p. refl,
      ))
