-- ===== src/Base/Unique.antt =====
-- Vectors that a loop fills with `if !seen.contains(&x) { seen.push(x) }`.
use mathlib.Core.Path.{◌≡◌, refl, sym, subst, ◌∙◌}
use mathlib.Core.Logic.{inl, inr}
use mathlib.Core.Bool.{Bool, true, false, ◌||◌}
use mathlib.Core.List.{List, [], ◌∷◌, ◌++◌, map, append-nil, append_assoc}
use native.Mathlib.Omega.{arith}
use fips_nostr_bootstrap.Base.Tests.{Eq, ◌==◌, if◌then◌else◌, Bool-cases, ==_refl, ==_iff}

module _ {ℓ} {A : Type ℓ} where
  -- `iter().any(p)`
  abbrev pub any : (A → Bool) → List A → Bool
  any p [] = false
  any p (x ∷ xs) = p x || any p xs

  abbrev pub All {κ} : (A → Type κ) → List A → Type κ
  All P [] = Unit {κ}
  All P (x ∷ xs) = P x × All P xs

  pub All-append {κ} : (P : A → Type κ) (xs ys : List A) → All P xs → All P ys → All P (xs ++ ys)
  All-append P [] ys h k = k
  All-append P (x ∷ xs) ys h k = (h.0, All-append P xs ys h.1 k)

-- `for x in xs { state = body(state, x) }`
abbrev pub for_each {ℓ κ} : {S : Type ℓ} {A : Type κ} → (S → A → S) → S → List A → S
for_each body s [] = s
for_each body s (x ∷ xs) = for_each body (body s x) xs

abbrev pub flat_map {ℓ κ} : {A : Type ℓ} {B : Type κ} → (A → List B) → List A → List B
flat_map f [] = []
flat_map f (x ∷ xs) = f x ++ flat_map f xs

module _ {ℓ} {A : Type ℓ} ⦃e : Eq A⦄ where
  abbrev pub contains : List A → A → Bool
  contains [] a = false
  contains (x ∷ xs) a = x == a || contains xs a

  -- No element stands twice.
  abbrev pub Distinct : List A → Type 0
  Distinct [] = Unit {0}
  Distinct (x ∷ xs) = (contains xs x ≡ false) × Distinct xs

  unfoldable pub push_unique : List A → A → List A
  push_unique xs a = if contains xs a then xs else xs ++ (a ∷ [])

  unfoldable pub push_all : List A → List A → List A
  push_all xs [] = xs
  push_all xs (y ∷ ys) = push_all (push_unique xs y) ys

  pub contains-append :
      (xs ys : List A) (a : A) → contains (xs ++ ys) a ≡ (contains xs a || contains ys a)
  contains-append [] ys a = refl
  contains-append (x ∷ xs) ys a = ground (arith, contains-append xs ys a)

  Distinct-snoc :
      (xs : List A) (a : A) → Distinct xs → contains xs a ≡ false → Distinct (xs ++ (a ∷ []))
  Distinct-snoc [] a d h = (refl, tt)
  Distinct-snoc (x ∷ xs) a d h =
      ground (arith, contains-append xs (a ∷ []) x, Distinct-snoc xs a d.1)

  pub push_unique-Distinct : (xs : List A) (a : A) → Distinct xs → Distinct (push_unique xs a)
  unfolding push_unique
  push_unique-Distinct xs a d = elim (Bool-cases (contains xs a)) [
    | inl old ↦ rw old d
    | inr new ↦ rw new (Distinct-snoc xs a d new)
  ]

  pub contains-push_unique :
      (xs : List A) (a b : A) → contains (push_unique xs a) b ≡ (contains xs b || (a == b))
  unfolding push_unique
  contains-push_unique xs a b = ground (arith, contains-append xs (a ∷ []) b)

  pub push_all-Distinct : (xs ys : List A) → Distinct xs → Distinct (push_all xs ys)
  unfolding push_all
  push_all-Distinct xs [] d = d
  push_all-Distinct xs (y ∷ ys) d =
      push_all-Distinct (push_unique xs y) ys (push_unique-Distinct xs y d)

  pub contains-push_all :
      (xs ys : List A) (b : A) → contains (push_all xs ys) b ≡ (contains xs b || contains ys b)
  unfolding push_all
  contains-push_all xs [] b = ground arith
  contains-push_all xs (y ∷ ys) b =
      ground (arith, contains-push_all (push_unique xs y) ys b, contains-push_unique xs y b)

  pub push_all-append : (xs ys zs : List A) → push_all xs (ys ++ zs) ≡ push_all (push_all xs ys) zs
  unfolding push_all
  push_all-append xs [] zs = refl
  push_all-append xs (y ∷ ys) zs = push_all-append (push_unique xs y) ys zs

  -- What was there stays in front.
  pub push_all-prefix : (xs ys : List A) → (rest : List A) × (push_all xs ys ≡ xs ++ rest)
  unfolding push_all push_unique
  push_all-prefix xs [] = ([], sym (append-nil xs))
  push_all-prefix xs (y ∷ ys) = elim (Bool-cases (contains xs y)) [
    | inl old ↦ rw old (push_all-prefix xs ys)
    | inr new ↦
        let (rest, e) = push_all-prefix (xs ++ (y ∷ [])) ys in
        rw new (y ∷ rest, e ∙ append_assoc xs (y ∷ []) rest)
  ]

-- A loop whose body pushes `f x` pushes all of them.
pub for_each-push_all {ℓ κ} :
    {A : Type ℓ} {B : Type κ} ⦃e : Eq B⦄ (body : List B → A → List B) (f : A → List B)
    → ((p : List B) (a : A) → body p a ≡ push_all p (f a))
    → (p : List B) (xs : List A) → for_each body p xs ≡ push_all p (flat_map f xs)
for_each-push_all body f h p [] = unfold push_all in refl
for_each-push_all body f h p (x ∷ xs) = rw (h p x) (
    for_each-push_all body f h (push_all p (f x)) xs
    ∙ sym (push_all-append p (f x) (flat_map f xs)))

or_true : (b : Bool) → (b || true) ≡ true
or_true true = refl
or_true false = refl

module _ {ℓ κ} {A : Type ℓ} {B : Type κ} ⦃e : Eq A⦄ ⦃d : Eq B⦄ where
  pub contains-map :
      (f : A → B) (xs : List A) (a : A) → contains xs a ≡ true → contains (map f xs) (f a) ≡ true
  contains-map f [] a h = cc
  contains-map f (x ∷ xs) a h = ground (arith, contains-map f xs a)

module _ {ℓ} {A : Type ℓ} ⦃e : Eq A⦄ where
  pub All-of_contains {κ} :
      (P : A → Type κ) (xs : List A) → ((a : A) → contains xs a ≡ true → P a) → All P xs
  All-of_contains P [] h = tt
  All-of_contains P (x ∷ xs) h =
      (h x (rw (==_refl x) refl), All-of_contains P xs (λ a m. h a (rw m (or_true (x == a)))))

  pub All-contains {κ} :
      (P : A → Type κ) (xs : List A) (a : A) → All P xs → contains xs a ≡ true → P a
  All-contains P [] a h m = cc
  All-contains P (x ∷ xs) a h m = elim (Bool-cases (x == a)) [
    | inl hit ↦ subst P ((==_iff x a).0 hit) h.0
    | inr miss ↦ All-contains P xs a h.1 (rw miss at m)
  ]
