-- ===== src/Adverts/Merge.antt =====
-- One event against the cache.
use fips_nostr_bootstrap.Base.{
  ℕ, ◌≤◌, ◌<◌, ◌≡◌, ◌⊎◌, inl, inr, refl, sym, ap, ◌∙◌, leb, ◌==◌, nat_eq, text_eq, ==_iff, ==_refl,
  true, false, Bool-cases, Option-cases, Option, none, some, Text, ℕ_discrete, arith,
}
use fips_nostr_bootstrap.Base.HashMap.{get, insert, get-insert, AllEntries, AllEntries-insert}
use fips_nostr_bootstrap.Schema.{TraversalAdvert}
use fips_nostr_bootstrap.Adverts.{AdvertCache, replaces, merge_advert}

-- `a` is no newer than `b`: it was published earlier, or at the same time with no larger sequence.
abbrev pub NoNewer : TraversalAdvert → TraversalAdvert → Type 0
NoNewer a b =
    (a.published_at < b.published_at)
    ⊎ ((a.published_at ≡ b.published_at) × (a.sequence ≤ b.sequence))

pub NoNewer-refl : (a : TraversalAdvert) → NoNewer a a
NoNewer-refl a = inr (refl, omega arith)

pub NoNewer-trans : (a b c : TraversalAdvert) → NoNewer a b → NoNewer b c → NoNewer a c
NoNewer-trans a b c h k = ground arith

-- The cache has an advert for `k` that is at least as new as `a`.
abbrev pub Covers : AdvertCache → Text → TraversalAdvert → Type 0
Covers cache k a = (b : TraversalAdvert) × (get cache k ≡ some b) × NoNewer a b

-- Every advert stands under its publisher.
abbrev pub IsKeyed : AdvertCache → Type 0
IsKeyed = AllEntries λ k a. a.publisher_npub ≡ k

pub merge_advert-IsKeyed :
    (now : ℕ) (cache : AdvertCache) (o : Option TraversalAdvert)
    → IsKeyed cache
    → IsKeyed (merge_advert now cache o)
unfolding merge_advert
merge_advert-IsKeyed now cache none v = v
merge_advert-IsKeyed now cache (some a) v = elim (Bool-cases (leb a.expires_at now)) [
  | inl dead ↦ rw dead v
  | inr live ↦ elim (Bool-cases (replaces a (get cache a.publisher_npub))) [
    | inl new ↦
        rw (live, new)
          (AllEntries-insert (λ k b. b.publisher_npub ≡ k) cache a.publisher_npub a v refl)
    | inr old ↦ rw (live, old) v
  ]
]

replaced-NoNewer : (a b : TraversalAdvert) → replaces a (some b) ≡ true → NoNewer b a
unfolding ℕ_discrete
replaced-NoNewer a b h = ground arith

kept-NoNewer : (a b : TraversalAdvert) → replaces a (some b) ≡ false → NoNewer a b
unfolding ℕ_discrete
kept-NoNewer a b h = ground arith

-- What the cache covers stays covered.
pub merge_advert-Covers :
    (now : ℕ) (cache : AdvertCache) (o : Option TraversalAdvert) (k : Text) (a : TraversalAdvert)
    → Covers cache k a
    → Covers (merge_advert now cache o) k a
unfolding merge_advert
merge_advert-Covers now cache none k a c = c
merge_advert-Covers now cache (some x) k a (b, found, older) =
    elim (Bool-cases (leb x.expires_at now)) [
      | inl dead ↦ rw dead (b, found, older)
      | inr live ↦ elim (Bool-cases (replaces x (get cache x.publisher_npub))) [
        | inr old ↦ rw (live, old) (b, found, older)
        | inl new ↦ elim (Bool-cases (x.publisher_npub == k)) [
          | inr other ↦
              rw (live, new) (b, rw (get-insert cache x.publisher_npub x k, other) found, older)
          | inl same ↦
              let key : x.publisher_npub ≡ k = (==_iff x.publisher_npub k).0 same in
              let beaten : replaces x (some b) ≡ true = rw (key, found) at new in
              rw (live, new)
                (
                  x,
                  rw (get-insert cache x.publisher_npub x k, same) refl,
                  NoNewer-trans a b x older (replaced-NoNewer x b beaten),
                )
        ]
      ]
    ]

-- An advert that is live when it arrives is covered from then on.
pub merge_advert-arrived :
    (now : ℕ) (cache : AdvertCache) (a : TraversalAdvert)
    → now < a.expires_at
    → Covers (merge_advert now cache (some a)) a.publisher_npub a
unfolding merge_advert
merge_advert-arrived now cache a live =
    let alive : leb a.expires_at now ≡ false = ground arith in
    elim (Bool-cases (replaces a (get cache a.publisher_npub))) [
      | inl new ↦
          rw (alive, new)
            (
              a,
              rw (get-insert cache a.publisher_npub a a.publisher_npub, ==_refl a.publisher_npub)
                  refl,
              NoNewer-refl a,
            )
      | inr old ↦ elim (Option-cases (get cache a.publisher_npub)) [
        | inl absent ↦ absurd (cc (rw absent at old))
        | inr (b, found) ↦ rw (alive, old) (b, found, kept-NoNewer a b (rw found at old))
      ]
    ]

-- What the cache holds afterwards it held before, or it is the advert that came, live.
pub merge_advert-origin :
    (now : ℕ) (cache : AdvertCache) (o : Option TraversalAdvert) (k : Text) (b : TraversalAdvert)
    → get (merge_advert now cache o) k ≡ some b
    → (get cache k ≡ some b) ⊎ ((o ≡ some b) × (b.publisher_npub ≡ k) × (now < b.expires_at))
unfolding merge_advert
merge_advert-origin now cache none k b h = inl h
merge_advert-origin now cache (some x) k b h = elim (Bool-cases (leb x.expires_at now)) [
  | inl dead ↦ inl (rw dead at h)
  | inr live ↦ elim (Bool-cases (replaces x (get cache x.publisher_npub))) [
    | inr old ↦ inl (rw (live, old) at h)
    | inl new ↦
        let stored : get (insert cache x.publisher_npub x) k ≡ some b = rw (live, new) at h in
        elim (Bool-cases (x.publisher_npub == k)) [
          | inr other ↦ inl (rw (get-insert cache x.publisher_npub x k, other) at stored)
          | inl same ↦
              let hit : some x ≡ some b =
                rw (get-insert cache x.publisher_npub x k, same) at stored in
              let is : x ≡ b = cc in
              inr (
                hit,
                ap (λ y. y.publisher_npub) (sym is) ∙ (==_iff x.publisher_npub k).0 same,
                ground (arith, ap (λ y. y.expires_at) is),
              )
        ]
  ]
]
