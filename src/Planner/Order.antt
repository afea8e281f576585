-- ===== src/Planner/Order.antt =====
-- A plan has no target twice, and its strategies come in the order of preference.
use mathlib.Core.List.{append_assoc, append-nil}
use fips_nostr_bootstrap.Base.{
  ℕ, ◌≤◌, ◌≡◌, refl, inl, inr, Bool-cases, Option, none, some, List, [], ◌∷◌, ◌++◌, contains,
  Distinct, All, All-append, push_unique, push_all, push_all-Distinct, flat_map, arith,
}
use fips_nostr_bootstrap.Schema.{TraversalAddress}
use fips_nostr_bootstrap.Planner.{
  PunchStrategy, PlannedPunchTarget, planned_punch_target_eq, plan_punch_targets, same_subnet_24,
  to_reflexive_target, from_reflexive_target, local_target,
}
use fips_nostr_bootstrap.Planner.Candidates.{
  candidates, lan_candidates, reflexive_candidates, to_reflexive_candidates,
  from_reflexive_candidates, local_candidates, plan-push_all, lan_row,
}

-- No target is punched twice.
pub plan_punch_targets-Distinct :
    (ls : List TraversalAddress) (lr : Option TraversalAddress) (rs : List TraversalAddress)
    (rr : Option TraversalAddress)
    → Distinct (plan_punch_targets ls lr rs rr)
plan_punch_targets-Distinct ls lr rs rr =
    rw (plan-push_all ls lr rs rr) (push_all-Distinct [] (candidates ls lr rs rr) tt)

-- LAN first, then reflexive, then mixed, then any pair of local addresses.
abbrev pub rank : PunchStrategy → ℕ
rank PunchStrategy.lan = 0
rank PunchStrategy.reflexive = 1
rank PunchStrategy.mixed = 2
rank PunchStrategy.local = 3

abbrev pub AtLeast : ℕ → List PlannedPunchTarget → Type 0
AtLeast n = All (λ t. n ≤ rank t.strategy)

abbrev pub AtMost : ℕ → List PlannedPunchTarget → Type 0
AtMost n = All (λ t. rank t.strategy ≤ n)

abbrev pub Preferred : List PlannedPunchTarget → Type 0
Preferred [] = Unit {0}
Preferred (t ∷ ts) = AtLeast (rank t.strategy) ts × Preferred ts

AtLeast-mono : (m n : ℕ) (ts : List PlannedPunchTarget) → m ≤ n → AtLeast n ts → AtLeast m ts
AtLeast-mono m n [] h k = tt
AtLeast-mono m n (t ∷ ts) h k = (omega arith, AtLeast-mono m n ts h k.1)

Preferred-append :
    (n : ℕ) (xs ys : List PlannedPunchTarget)
    → AtMost n xs
    → Preferred xs
    → AtLeast n ys
    → Preferred ys
    → Preferred (xs ++ ys)
Preferred-append n [] ys m p l q = q
Preferred-append n (x ∷ xs) ys m p l q = (
  All-append _ xs ys p.0 (AtLeast-mono (rank x.strategy) n ys m.0 l),
  Preferred-append n xs ys m.1 p.1 l q,
)

AtLeast-drop :
    (n : ℕ) (xs : List PlannedPunchTarget) (y : PlannedPunchTarget) (ys : List PlannedPunchTarget)
    → AtLeast n (xs ++ (y ∷ ys))
    → AtLeast n (xs ++ ys)
AtLeast-drop n [] y ys h = h.1
AtLeast-drop n (x ∷ xs) y ys h = (h.0, AtLeast-drop n xs y ys h.1)

Preferred-drop :
    (xs : List PlannedPunchTarget) (y : PlannedPunchTarget) (ys : List PlannedPunchTarget)
    → Preferred (xs ++ (y ∷ ys))
    → Preferred (xs ++ ys)
Preferred-drop [] y ys h = h.1
Preferred-drop (x ∷ xs) y ys h =
    (AtLeast-drop (rank x.strategy) xs y ys h.0, Preferred-drop xs y ys h.1)

Preferred-prefix :
    (xs ys : List PlannedPunchTarget) → Preferred (xs ++ ys) → Preferred (push_all xs ys)
unfolding push_all push_unique
Preferred-prefix xs [] h = rw (append-nil xs) at h
Preferred-prefix xs (y ∷ ys) h = elim (Bool-cases (contains xs y)) [
  | inl old ↦ rw old (Preferred-prefix xs ys (Preferred-drop xs y ys h))
  | inr new ↦ rw new (Preferred-prefix (xs ++ (y ∷ [])) ys (rw (append_assoc xs (y ∷ []) ys) h))
]

-- A block whose targets all have one rank.
abbrev Level : ℕ → List PlannedPunchTarget → Type 0
Level n = All (λ t. rank t.strategy ≡ n)

Level-Preferred :
    (n : ℕ) (ts : List PlannedPunchTarget) → Level n ts → AtLeast n ts × AtMost n ts × Preferred ts
Level-Preferred n [] h = (tt, tt, tt)
Level-Preferred n (t ∷ ts) h =
    let (lo, hi, p) = Level-Preferred n ts h.1 in
    ((omega arith, lo), (omega arith, hi), (AtLeast-mono _ n ts (omega arith) lo, p))

Level-flat_map {ℓ} :
    {A : Type ℓ} (n : ℕ) (f : A → List PlannedPunchTarget) (xs : List A)
    → ((a : A) → Level n (f a))
    → Level n (flat_map f xs)
Level-flat_map n f [] h = tt
Level-flat_map n f (x ∷ xs) h = All-append _ (f x) (flat_map f xs) (h x) (Level-flat_map n f xs h)

Level-lan_row : (l r : TraversalAddress) → Level 0 (lan_row l r)
Level-lan_row l r = elim (Bool-cases (same_subnet_24 l r)) [
  | inl e ↦ rw e (refl, tt)
  | inr e ↦ rw e tt
]

Level-lan : (ls rs : List TraversalAddress) → Level 0 (lan_candidates ls rs)
Level-lan ls rs =
    Level-flat_map 0 (λ l. flat_map (λ r. lan_row l r) rs) ls
      (λ l. Level-flat_map 0 (λ r. lan_row l r) rs (λ r. Level-lan_row l r))

Level-local : (ls rs : List TraversalAddress) → Level 3 (local_candidates ls rs)
Level-local ls rs =
    Level-flat_map 3 (λ l. flat_map (λ r. local_target l r ∷ []) rs) ls
      (λ l. Level-flat_map 3 (λ r. local_target l r ∷ []) rs (λ r. (refl, tt)))

Level-reflexive : (lr rr : Option TraversalAddress) → Level 1 (reflexive_candidates lr rr)
Level-reflexive (some l) (some r) = (refl, tt)
Level-reflexive (some l) none = tt
Level-reflexive none rr = tt

Level-to_reflexive :
    (ls : List TraversalAddress) (rr : Option TraversalAddress)
    → Level 2 (to_reflexive_candidates ls rr)
Level-to_reflexive ls none = tt
Level-to_reflexive ls (some r) =
    Level-flat_map 2 (λ l. to_reflexive_target l r ∷ []) ls (λ l. (refl, tt))

Level-from_reflexive :
    (lr : Option TraversalAddress) (rs : List TraversalAddress)
    → Level 2 (from_reflexive_candidates lr rs)
Level-from_reflexive none rs = tt
Level-from_reflexive (some l) rs =
    Level-flat_map 2 (λ r. from_reflexive_target l r ∷ []) rs (λ r. (refl, tt))

-- One block in front of what is ranked at least as high.
Level-in_front :
    (n : ℕ) (xs ys : List PlannedPunchTarget)
    → Level n xs
    → AtLeast n ys
    → Preferred ys
    → AtLeast n (xs ++ ys) × Preferred (xs ++ ys)
Level-in_front n xs ys h l p =
    let (lo, hi, q) = Level-Preferred n xs h in
    (All-append _ xs ys lo l, Preferred-append n xs ys hi q l p)

candidates-Preferred :
    (ls : List TraversalAddress) (lr : Option TraversalAddress) (rs : List TraversalAddress)
    (rr : Option TraversalAddress)
    → Preferred (candidates ls lr rs rr)
candidates-Preferred ls lr rs rr =
    let (a, b, c) = Level-Preferred 3 (local_candidates ls rs) (Level-local ls rs) in
    let (d, e) =
      Level-in_front 2 (from_reflexive_candidates lr rs) _ (Level-from_reflexive lr rs)
        (AtLeast-mono 2 3 _ (omega arith) a) c in
    let (f, g) =
      Level-in_front 2 (to_reflexive_candidates ls rr) _ (Level-to_reflexive ls rr) d e in
    let (h, i) =
      Level-in_front 1 (reflexive_candidates lr rr) _ (Level-reflexive lr rr)
        (AtLeast-mono 1 2 _ (omega arith) f) g in
    (Level-in_front 0 (lan_candidates ls rs) _ (Level-lan ls rs)
      (AtLeast-mono 0 1 _ (omega arith) h) i).1

-- A plan never goes back to a better strategy: LAN, then reflexive, then mixed, then local pairs.
pub plan_punch_targets-Preferred :
    (ls : List TraversalAddress) (lr : Option TraversalAddress) (rs : List TraversalAddress)
    (rr : Option TraversalAddress)
    → Preferred (plan_punch_targets ls lr rs rr)
plan_punch_targets-Preferred ls lr rs rr =
    rw (plan-push_all ls lr rs rr)
      (Preferred-prefix [] (candidates ls lr rs rr) (candidates-Preferred ls lr rs rr))
