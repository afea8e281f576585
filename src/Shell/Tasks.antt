-- ===== src/Shell/Tasks.antt =====
-- The lists of tasks of a session: what is told to stop, what ends, what is new.
use fips_nostr_bootstrap.Base.{
  ℕ, suc, ◌<◌, ◌≡◌, inl, inr, refl, ap, ◌==◌, nat_eq, text_eq, ℕ_discrete, ==_refl, true, false,
  Bool-cases, Option, none, some, List, [], ◌∷◌, map, contains, Distinct, All, arith,
}
use fips_nostr_bootstrap.Shell.{Task, cancel, without}

abbrev pub indices : List Task → List ℕ
indices = map λ t. t.index

abbrev pub AllCancelled : List Task → Type 0
AllCancelled = All λ t. t.cancelled ≡ true

cancel-cancelled :
    (r : Option ℕ) (t : Task)
    → (t.cancelled ≡ false → r ≡ some t.index)
    → (cancel r t).cancelled ≡ true
cancel-cancelled none t h = elim (Bool-cases t.cancelled) [
  | inl dead ↦ dead
  | inr alive ↦ cc (h alive)
]
cancel-cancelled (some i) t h = elim (Bool-cases (t.index == i)) [
  | inl hit ↦ simp hit refl
  | inr miss ↦ elim (Bool-cases t.cancelled) [
    | inl dead ↦ simp miss dead
    | inr alive ↦
        let same : i ≡ t.index = cc (h alive) in
        cc (miss, ap (λ j. t.index == j) same, ==_refl t.index)
  ]
]

cancel-index : (r : Option ℕ) (t : Task) → (cancel r t).index ≡ t.index
cancel-index none t = refl
cancel-index (some i) t = elim (Bool-cases (t.index == i)) [
  | inl hit ↦ simp hit refl
  | inr miss ↦ simp miss refl
]

pub map-cancelled :
    (r : Option ℕ) (tasks : List Task)
    → All (λ t. t.cancelled ≡ false → r ≡ some t.index) tasks
    → AllCancelled (map (cancel r) tasks)
map-cancelled r [] h = tt
map-cancelled r (t ∷ tasks) h = (cancel-cancelled r t h.0, map-cancelled r tasks h.1)

pub map-indices :
    (r : Option ℕ) (tasks : List Task) → indices (map (cancel r) tasks) ≡ indices tasks
map-indices r [] = refl
map-indices r (t ∷ tasks) = rw (cancel-index r t, map-indices r tasks) refl

pub map-numbered :
    (r : Option ℕ) (n : ℕ) (tasks : List Task)
    → All (λ t. t.index < n) tasks
    → All (λ t. t.index < n) (map (cancel r) tasks)
map-numbered r n [] h = tt
map-numbered r n (t ∷ tasks) h = (omega (arith, cancel-index r t, h.0), map-numbered r n tasks h.1)

pub vacuous :
    (r : Option ℕ) (tasks : List Task)
    → AllCancelled tasks
    → All (λ t. t.cancelled ≡ false → r ≡ some t.index) tasks
vacuous r [] h = tt
vacuous r (t ∷ tasks) h = ((λ alive. cc (h.0, alive)), vacuous r tasks h.1)

pub All-without :
    (P : Task → Type 0) (i : ℕ) (tasks : List Task) → All P tasks → All P (without i tasks)
All-without P i [] h = tt
All-without P i (t ∷ tasks) h = elim (Bool-cases (t.index == i)) [
  | inl hit ↦ simp hit (All-without P i tasks h.1)
  | inr miss ↦ simp miss (h.0, All-without P i tasks h.1)
]

contains-without :
    (i j : ℕ) (tasks : List Task)
    → contains (indices tasks) j ≡ false
    → contains (indices (without i tasks)) j ≡ false
contains-without i j [] h = h
contains-without i j (t ∷ tasks) h = elim (Bool-cases (t.index == i)) [
  | inl hit ↦ simp hit (contains-without i j tasks (ground arith))
  | inr miss ↦ simp miss (ground (arith, contains-without i j tasks (ground arith)))
]

pub without-Distinct :
    (i : ℕ) (tasks : List Task) → Distinct (indices tasks) → Distinct (indices (without i tasks))
without-Distinct i [] d = tt
without-Distinct i (t ∷ tasks) d = elim (Bool-cases (t.index == i)) [
  | inl hit ↦ simp hit (without-Distinct i tasks d.1)
  | inr miss ↦ simp miss (contains-without i t.index tasks d.0, without-Distinct i tasks d.1)
]

pub new_index :
    (n : ℕ) (tasks : List Task) → All (λ t. t.index < n) tasks → contains (indices tasks) n ≡ false
unfolding ℕ_discrete
new_index n [] h = refl
new_index n (t ∷ tasks) h = ground (arith, new_index n tasks h.1)

pub none_alive :
    (n : ℕ) (tasks : List Task) (r : Option ℕ)
    → r ≡ none
    → All (λ t. t.cancelled ≡ false → r ≡ some t.index) tasks
    → All (λ t. t.cancelled ≡ false → some n ≡ some t.index) tasks
none_alive n [] r e h = tt
none_alive n (t ∷ tasks) r e h = ((λ alive. absurd (cc (h.0 alive, e))), none_alive n tasks r e h.1)

pub later_numbered :
    (n : ℕ) (tasks : List Task) → All (λ t. t.index < n) tasks → All (λ t. t.index < suc n) tasks
later_numbered n [] h = tt
later_numbered n (t ∷ tasks) h = (omega (arith, h.0), later_numbered n tasks h.1)
