-- ===== src/Base/HashMap.antt =====
-- Rust's `HashMap` as an association list. The order of iteration is not specified by Rust; where
-- the code iterates, the order of this list stands for any.
use mathlib.Core.Path.{◌≡◌, subst₂}
use mathlib.Core.Logic.{inl, inr}
use mathlib.Core.List.{List, [], ◌∷◌, map}
use mathlib.Core.Option.{Option, none, some}
use native.Mathlib.Omega.{arith}
use fips_nostr_bootstrap.Base.Tests.{Eq, ◌==◌, if◌then◌else◌, ==_iff, Bool-cases}
use fips_nostr_bootstrap.Base.Unique.{All}

abbrev pub HashMap {ℓ κ} : Type ℓ → Type κ → Type (ℓ ⊔ κ)
HashMap K V = List (K × V)

module _ {ℓ κ} {K : Type ℓ} {V : Type κ} ⦃e : Eq K⦄ where
  unfoldable pub get : HashMap K V → K → Option V
  get [] k = none
  get ((j, v) ∷ m) k = if j == k then some v else get m k

  unfoldable pub remove : HashMap K V → K → HashMap K V
  remove [] k = []
  remove ((j, v) ∷ m) k = let rest = remove m k in if j == k then rest else (j, v) ∷ rest

  unfoldable pub insert : HashMap K V → K → V → HashMap K V
  unfolding remove
  insert m k v = (k, v) ∷ remove m k

  pub get-remove :
      (m : HashMap K V) (k j : K) → get (remove m k) j ≡ (if k == j then none else get m j)
  unfolding get remove
  get-remove [] k j = ground arith
  get-remove ((i, v) ∷ m) k j = ground (arith, get-remove m k j)

  pub get-insert :
      (m : HashMap K V) (k : K) (v : V) (j : K)
      → get (insert m k v) j ≡ (if k == j then some v else get m j)
  unfolding get insert
  get-insert m k v j = ground (arith, get-remove m k j)

  pub get-insert_self : (m : HashMap K V) (k : K) (v : V) → get (insert m k v) k ≡ some v
  get-insert_self m k v = ground (arith, get-insert m k v k)

  pub get-remove_self : (m : HashMap K V) (k : K) → get (remove m k) k ≡ none
  get-remove_self m k = ground (arith, get-remove m k k)

  -- What holds of every entry.
  abbrev pub AllEntries {ι} : (K → V → Type ι) → HashMap K V → Type ι
  AllEntries P = All λ (p : K × V). P p.0 p.1

  pub AllEntries-get {ι} :
      (P : K → V → Type ι) (m : HashMap K V) (k : K) (v : V)
      → AllEntries P m
      → get m k ≡ some v
      → P k v
  unfolding get
  AllEntries-get P [] k v h g = cc
  AllEntries-get P ((j, w) ∷ m) k v h g = elim (Bool-cases (j == k)) [
    | inl hit ↦ let same : w ≡ v = cc (rw hit at g) in subst₂ P ((==_iff j k).0 hit) same h.0
    | inr miss ↦ AllEntries-get P m k v h.1 (rw miss at g)
  ]

  pub AllEntries-remove {ι} :
      (P : K → V → Type ι) (m : HashMap K V) (k : K) → AllEntries P m → AllEntries P (remove m k)
  unfolding remove
  AllEntries-remove P [] k h = h
  AllEntries-remove P ((j, w) ∷ m) k h = elim (Bool-cases (j == k)) [
    | inl hit ↦ rw hit (AllEntries-remove P m k h.1)
    | inr miss ↦ rw miss (h.0, AllEntries-remove P m k h.1)
  ]

  pub AllEntries-insert {ι} :
      (P : K → V → Type ι) (m : HashMap K V) (k : K) (v : V)
      → AllEntries P m
      → P k v
      → AllEntries P (insert m k v)
  unfolding insert
  AllEntries-insert P m k v h p = (p, AllEntries-remove P m k h)

abbrev pub values {ℓ κ} : {K : Type ℓ} {V : Type κ} → HashMap K V → List V
values = map λ p. p.1

pub ruleset map_laws = (get-remove, get-insert)
