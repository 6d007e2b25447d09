-- ===== src/CowList/Invariant.antt =====
-- What holds while goroutines append and read.
use grocksdb.Base.{ℕ, suc, ◌≤◌, ◌<◌, ◌≡◌, ◌≢◌, refl, arith, Bool-cases, inl, inr}
use grocksdb.Base.{Option, none, some, List, [], ◌∷◌, ◌++◌, length, get_elem?, ◌==◌}
use grocksdb.Base.{sym, length-append, get_elem?-append, get_elem?-append_last}
use grocksdb.CowList.Steps.{Pc, Shared, Step, Reach, at, initial}
use grocksdb.CowList.Steps.{idle, locked, loaded, stored, reading, lock, load, store, unlock}
use grocksdb.CowList.Steps.{get_load, get_return, here, later}

-- An item that was appended stands at the index that its `Append` returned.
abbrev pub Registered : {A : Type 0} → List A → List (ℕ × A) → Type 0
Registered v [] = Unit {0}
Registered v ((k, i) ∷ log) = (get_elem? v k ≡ some i) × Registered v log

-- The indices fall along the list, so no two are the same.
abbrev pub Descending : {A : Type 0} → ℕ → List (ℕ × A) → Type 0
Descending n [] = Unit {0}
Descending n ((k, i) ∷ log) = (k < n) × Descending k log

-- What the locals of goroutine `t` say about the shared variables `v` and `mu` and the log.
abbrev Local : {A : Type 0} → List A → Option ℕ → List (ℕ × A) → ℕ → Pc A → Type 0
Local v mu log t idle = Unit {0}
Local v mu log t (reading index list) = Unit {0}
Local v mu log t (locked i) = (mu ≡ some t) × Descending (length v) log
Local v mu log t (loaded i list) = (mu ≡ some t) × (list ≡ v) × Descending (length v) log
Local v mu log t (stored i index) =
    (mu ≡ some t) × (get_elem? v index ≡ some i) × (suc index ≡ length v) × Descending index log

pub record Inv {A : Type 0} (s : Shared A) : Type 0 where
  pub registered : Registered s.v s.appended
  pub descending : Descending (length s.v) s.appended
  pub local : (t : ℕ) → Local s.v s.mu s.appended t (s.pc t)

module _ {A : Type 0} where
  -- A goroutine that does not hold the mutex keeps nothing that others can change.
  Local-other :
      (v v' : List A) (mu mu' : Option ℕ) (log log' : List (ℕ × A)) (u : ℕ) (p : Pc A)
      → mu ≢ some u
      → Local v mu log u p
      → Local v' mu' log' u p
  Local-other v v' mu mu' log log' u idle n h = tt
  Local-other v v' mu mu' log log' u (reading index list) n h = tt
  Local-other v v' mu mu' log log' u (locked i) n h = absurd (n h.0)
  Local-other v v' mu mu' log log' u (loaded i list) n h = absurd (n h.0)
  Local-other v v' mu mu' log log' u (stored i index) n h = absurd (n h.0)

  -- Goroutine `t` goes to `p`, and what the others know still holds.
  Local-at :
      (v : List A) (mu : Option ℕ) (log : List (ℕ × A)) (pc : ℕ → Pc A) (t : ℕ) (p : Pc A)
      → Local v mu log t p
      → ((u : ℕ) → u ≢ t → Local v mu log u (pc u))
      → (u : ℕ) → Local v mu log u (at pc t p u)
  Local-at v mu log pc t p own others u = elim (Bool-cases (u == t)) [
    | inl e ↦ let same : u ≡ t = ground arith in rw (e, same) own
    | inr e ↦ rw e (others u (λ same. ground arith))
  ]

  Registered-append :
      (v ys : List A) (log : List (ℕ × A)) → Registered v log → Registered (v ++ ys) log
  Registered-append v ys [] h = tt
  Registered-append v ys ((k, i) ∷ log) (h, hs) =
      (get_elem?-append v ys k i h, Registered-append v ys log hs)

  Descending-mono : (m n : ℕ) (log : List (ℕ × A)) → m ≤ n → Descending m log → Descending n log
  Descending-mono m n [] le h = tt
  Descending-mono m n ((k, i) ∷ log) le (h, hs) = (omega arith, hs)

  -- Every step keeps the invariant.
  pub Step-Inv : {s s' : Shared A} → Step s s' → Inv s → Inv s'
  Step-Inv {s = s} (lock t i e unlocked) inv = record {
    registered = inv.registered;
    descending = inv.descending;
    local =
        Local-at s.v (some t) s.appended s.pc t (locked i) (refl, inv.descending)
          (λ u ne.
            Local-other s.v s.v s.mu (some t) s.appended s.appended u (s.pc u) (λ h. cc)
              (inv.local u));
  }
  Step-Inv {s = s} (load t i e) inv =
      let own = rw e at (inv.local t) in
      record {
        registered = inv.registered;
        descending = inv.descending;
        local =
            Local-at s.v s.mu s.appended s.pc t (loaded i s.v) (own.0, refl, own.1)
              (λ u ne. inv.local u);
      }
  Step-Inv {s = s} (store t i list e) inv =
      let own = rw e at (inv.local t) in
      let (held, fresh, falling) = own in
      let v' = list ++ (i ∷ []) in
      let grown : length v' ≡ suc (length list) = ground (arith, length-append list (i ∷ [])) in
      record {
        registered = rw fresh (Registered-append s.v (i ∷ []) s.appended inv.registered);
        descending =
            Descending-mono (length s.v) (length v') s.appended (ground arith) inv.descending;
        local =
            Local-at v' s.mu s.appended s.pc t (stored i (length list))
              (held, get_elem?-append_last list [] i, sym grown, rw fresh falling)
              (λ u ne.
                Local-other s.v v' s.mu s.mu s.appended s.appended u (s.pc u) (λ h. ground arith)
                  (inv.local u));
      }
  Step-Inv {s = s} (unlock t i index e) inv =
      let own = rw e at (inv.local t) in
      let (held, found, last, falling) = own in
      let log' = (index, i) ∷ s.appended in
      record {
        registered = (found, inv.registered);
        descending = (omega arith, falling);
        local = Local-at s.v none log' s.pc t idle tt (λ u ne.
            Local-other s.v s.v s.mu none s.appended log' u (s.pc u) (λ h. ground arith)
              (inv.local u));
      }
  Step-Inv {s = s} (get_load t index e) inv = record {
    registered = inv.registered;
    descending = inv.descending;
    local = Local-at s.v s.mu s.appended s.pc t (reading index s.v) tt (λ u ne. inv.local u);
  }
  Step-Inv {s = s} (get_return t index list e) inv = record {
    registered = inv.registered;
    descending = inv.descending;
    local = Local-at s.v s.mu s.appended s.pc t idle tt (λ u ne. inv.local u);
  }

  pub Inv-initial : Inv {A = A} initial
  Inv-initial = record { registered = tt; descending = tt; local = λ t. tt }

  pub Reach-Inv : {s s' : Shared A} → Reach s s' → Inv s → Inv s'
  Reach-Inv here inv = inv
  Reach-Inv (later r st) inv = Step-Inv st (Reach-Inv r inv)
