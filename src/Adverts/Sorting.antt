-- ===== src/Adverts/Sorting.antt =====
-- The list of peers before it is cut: sorted, with the adverts that pass the filter.
use mathlib.Core.List.{Memᴰ}
use fips_nostr_bootstrap.Base.{
  ℕ, zero, suc, ◌≡◌, ◌↔◌, ◌∙◌, inl, inr, ap, sym, nat_eq, ℕ_discrete, Bool, true, false, Bool-cases,
  List, [], ◌∷◌, take, All, arith,
}
use fips_nostr_bootstrap.Schema.{TraversalAdvert}
use fips_nostr_bootstrap.Adverts.{sorts_after, insert_sorted, sort_adverts, filter}
use fips_nostr_bootstrap.Adverts.Merge.{NoNewer, NoNewer-trans}

-- The newest first.
abbrev pub Sorted : List TraversalAdvert → Type 0
Sorted [] = Unit {0}
Sorted (a ∷ adverts) = All (λ b. NoNewer b a) adverts × Sorted adverts

All-NoNewer :
    (a b : TraversalAdvert) (xs : List TraversalAdvert)
    → NoNewer a b
    → All (λ x. NoNewer x a) xs
    → All (λ x. NoNewer x b) xs
All-NoNewer a b [] h k = tt
All-NoNewer a b (x ∷ xs) h k = (NoNewer-trans x a b k.0 h, All-NoNewer a b xs h k.1)

insert_sorted-All :
    (b a : TraversalAdvert) (xs : List TraversalAdvert)
    → NoNewer a b
    → All (λ x. NoNewer x b) xs
    → All (λ x. NoNewer x b) (insert_sorted a xs)
unfolding insert_sorted
insert_sorted-All b a [] h k = (h, tt)
insert_sorted-All b a (x ∷ xs) h k = elim (Bool-cases (sorts_after a x)) [
  | inl after ↦ rw after (k.0, insert_sorted-All b a xs h k.1)
  | inr before ↦ rw before (h, k)
]

after-NoNewer : (a b : TraversalAdvert) → sorts_after a b ≡ true → NoNewer a b
unfolding ℕ_discrete
after-NoNewer a b h = ground arith

before-NoNewer : (a b : TraversalAdvert) → sorts_after a b ≡ false → NoNewer b a
unfolding ℕ_discrete
before-NoNewer a b h = ground arith

insert_sorted-Sorted :
    (a : TraversalAdvert) (xs : List TraversalAdvert) → Sorted xs → Sorted (insert_sorted a xs)
unfolding insert_sorted
insert_sorted-Sorted a [] s = (tt, tt)
insert_sorted-Sorted a (x ∷ xs) s = elim (Bool-cases (sorts_after a x)) [
  | inl after ↦
      rw after
        (insert_sorted-All x a xs (after-NoNewer a x after) s.0, insert_sorted-Sorted a xs s.1)
  | inr before ↦
      let newer = before-NoNewer a x before in rw before ((newer, All-NoNewer x a xs newer s.0), s)
]

pub sort_adverts-Sorted : (xs : List TraversalAdvert) → Sorted (sort_adverts xs)
unfolding sort_adverts
sort_adverts-Sorted [] = tt
sort_adverts-Sorted (x ∷ xs) = insert_sorted-Sorted x (sort_adverts xs) (sort_adverts-Sorted xs)

-- Membership in an insertion, both ways.
Mem-insert_sorted :
    (a x : TraversalAdvert) (xs : List TraversalAdvert)
    → Memᴰ a (x ∷ xs) ↔ Memᴰ a (insert_sorted x xs)
unfolding insert_sorted
Mem-insert_sorted a x [] = (λ d. d, λ d. d)
Mem-insert_sorted a x (y ∷ xs) = elim (Bool-cases (sorts_after x y)) [
  | inr before ↦ rw before (λ d. d, λ d. d)
  | inl after ↦
      let rest = Mem-insert_sorted a x xs in
      rw after (
        λ d. elim d [
          | Memᴰ.head e ↦ Memᴰ.tail (rest.0 (Memᴰ.head e))
          | Memᴰ.tail (Memᴰ.head e) ↦ Memᴰ.head e
          | Memᴰ.tail (Memᴰ.tail t) ↦ Memᴰ.tail (rest.0 (Memᴰ.tail t))
        ],
        λ d. elim d [
          | Memᴰ.head e ↦ Memᴰ.tail (Memᴰ.head e)
          | Memᴰ.tail t ↦ elim (rest.1 t) [
            | Memᴰ.head e ↦ Memᴰ.head e
            | Memᴰ.tail u ↦ Memᴰ.tail (Memᴰ.tail u)
          ]
        ],
      )
]

pub Mem-sort_adverts :
    (a : TraversalAdvert) (xs : List TraversalAdvert) → Memᴰ a xs ↔ Memᴰ a (sort_adverts xs)
unfolding sort_adverts
Mem-sort_adverts a [] = (λ d. d, λ d. d)
Mem-sort_adverts a (x ∷ xs) =
    let insertion = Mem-insert_sorted a x (sort_adverts xs) in
    let rest = Mem-sort_adverts a xs in
    (
      λ d. insertion.0 (elim d [ Memᴰ.head e ↦ Memᴰ.head e | Memᴰ.tail t ↦ Memᴰ.tail (rest.0 t) ]),
      λ d. elim (insertion.1 d) [ Memᴰ.head e ↦ Memᴰ.head e | Memᴰ.tail t ↦ Memᴰ.tail (rest.1 t) ],
    )

pub Mem-filter :
    {A : Type 0} (p : A → Bool) (a : A) (xs : List A)
    → Memᴰ a (filter p xs) ↔ (Memᴰ a xs × (p a ≡ true))
unfolding filter
Mem-filter p a [] = (λ d. elim d [ ], λ d. d.0)
Mem-filter p a (x ∷ xs) =
    let rest = Mem-filter p a xs in
    elim (Bool-cases (p x)) [
      | inl kept ↦ rw kept (
        λ d. elim d [
          | Memᴰ.head e ↦ (Memᴰ.head e, ap p e ∙ kept)
          | Memᴰ.tail t ↦ (Memᴰ.tail (rest.0 t).0, (rest.0 t).1)
        ],
        λ (d, h). elim d [ Memᴰ.head e ↦ Memᴰ.head e | Memᴰ.tail t ↦ Memᴰ.tail (rest.1 (t, h)) ],
      )
      | inr dropped ↦ rw dropped (
        λ t. (Memᴰ.tail (rest.0 t).0, (rest.0 t).1),
        λ (d, h). elim d [
          | Memᴰ.head e ↦ let clash : p x ≡ true = sym (ap p e) ∙ h in absurd (cc)
          | Memᴰ.tail t ↦ rest.1 (t, h)
        ],
      )
    ]

pub Mem-take : {A : Type 0} (n : ℕ) (a : A) (xs : List A) → Memᴰ a (take n xs) → Memᴰ a xs
Mem-take zero a xs d = elim d [ ]
Mem-take (suc n) a [] d = d
Mem-take (suc n) a (x ∷ xs) (Memᴰ.head e) = Memᴰ.head e
Mem-take (suc n) a (x ∷ xs) (Memᴰ.tail d) = Memᴰ.tail (Mem-take n a xs d)
