-- ===== src/Adverts/Listing.antt =====
-- The list of peers that `list_advertised_peers` gives.
use mathlib.Core.List.{Memᴰ}
use fips_nostr_bootstrap.Base.{
  ℕ, zero, suc, ◌≤◌, ◌<◌, ◌≡◌, ◌≢◌, ◌⊎◌, ◌↔◌, subst, inl, inr, refl, ap, sym, text_eq, Bool, true,
  Option, List, [], ◌∷◌, Text, Text-discrete, length, take, length-take, All, arith,
}
use fips_nostr_bootstrap.Base.HashMap.{values}
use fips_nostr_bootstrap.Schema.{TraversalAdvert}
use fips_nostr_bootstrap.Adverts.{
  AdvertCache, Fetched, filter, shown, sort_adverts, list_advertised_peers,
}
use fips_nostr_bootstrap.Adverts.Merge.{NoNewer}
use fips_nostr_bootstrap.Adverts.Sorting.{
  Sorted, sort_adverts-Sorted, Mem-sort_adverts, Mem-filter, Mem-take,
}

-- An advert that may be listed: of another peer, and live.
abbrev pub Shows : Text → ℕ → TraversalAdvert → Type 0
Shows npub now a = (a.publisher_npub ≢ npub) × (now < a.expires_at)

-- The list of a cache: no longer than the limit, newest first, of live adverts of other peers that
-- are cached; and such an advert is left out only if the list is full of adverts that are as new.
pub record Lists (npub : Text) (now max_peers : ℕ) (cache : AdvertCache)
    (peers : List TraversalAdvert) : Type 0 where
  pub most : length peers ≤ max_peers
  pub newest_first : Sorted peers
  pub sound : (a : TraversalAdvert) → Memᴰ a peers → Memᴰ a (values cache) × Shows npub now a
  pub complete :
      (a : TraversalAdvert)
      → Memᴰ a (values cache)
      → Shows npub now a
      → Memᴰ a peers ⊎ ((length peers ≡ max_peers) × All (λ b. NoNewer a b) peers)

shown-Shows :
    (npub : Text) (now : ℕ) (a : TraversalAdvert) → (shown npub now a ≡ true) ↔ Shows npub now a
unfolding Text-discrete
shown-Shows npub now a = (λ h. ground arith, λ h. ground arith)

All-take :
    (P : TraversalAdvert → Type 0) (n : ℕ) (xs : List TraversalAdvert)
    → All P xs
    → All P (take n xs)
All-take P zero xs h = tt
All-take P (suc n) [] h = tt
All-take P (suc n) (x ∷ xs) h = (h.0, All-take P n xs h.1)

Sorted-take : (n : ℕ) (xs : List TraversalAdvert) → Sorted xs → Sorted (take n xs)
Sorted-take zero xs s = tt
Sorted-take (suc n) [] s = tt
Sorted-take (suc n) (x ∷ xs) s = (All-take (λ b. NoNewer b x) n xs s.0, Sorted-take n xs s.1)

All-Mem :
    (P : TraversalAdvert → Type 0) (a : TraversalAdvert) (xs : List TraversalAdvert)
    → All P xs
    → Memᴰ a xs
    → P a
All-Mem P a [] h d = elim d [ ]
All-Mem P a (x ∷ xs) h (Memᴰ.head e) = subst P (sym e) h.0
All-Mem P a (x ∷ xs) h (Memᴰ.tail d) = All-Mem P a xs h.1 d

-- What is cut off is no newer than what stays.
take-Sorted :
    (n : ℕ) (a : TraversalAdvert) (xs : List TraversalAdvert)
    → Sorted xs
    → Memᴰ a xs
    → Memᴰ a (take n xs) ⊎ ((length (take n xs) ≡ n) × All (λ b. NoNewer a b) (take n xs))
take-Sorted zero a xs s d = inr (refl, tt)
take-Sorted (suc n) a [] s d = elim d [ ]
take-Sorted (suc n) a (x ∷ xs) s (Memᴰ.head e) = inl (Memᴰ.head e)
take-Sorted (suc n) a (x ∷ xs) s (Memᴰ.tail d) = elim (take-Sorted n a xs s.1 d) [
  | inl there ↦ inl (Memᴰ.tail there)
  | inr (full, newer) ↦ inr (ap suc full, (All-Mem (λ b. NoNewer b x) a xs s.0 d, newer))
]

-- The peers of a call list the cache as the call leaves it.
pub list_advertised_peers-Lists :
    (from_str : Text → Option TraversalAdvert) (discovery_enabled : Bool) (npub : Text)
    (cache : AdvertCache) (fetched : Option (List Fetched)) (now max_peers : ℕ)
    → let (after, peers) =
        list_advertised_peers from_str discovery_enabled npub cache fetched now max_peers in
      Lists npub now max_peers after peers
unfolding list_advertised_peers
list_advertised_peers-Lists from_str discovery npub cache fetched now most =
    let after : AdvertCache =
      (list_advertised_peers from_str discovery npub cache fetched now most).0 in
    let wanted : List TraversalAdvert = filter (shown npub now) (values after) in
    record {
      most = omega (arith, length-take most (sort_adverts wanted));
      newest_first = Sorted-take most (sort_adverts wanted) (sort_adverts-Sorted wanted);
      sound = λ a d.
          let (there, passes) =
            (Mem-filter (shown npub now) a (values after)).0
              ((Mem-sort_adverts a wanted).1 (Mem-take most a (sort_adverts wanted) d)) in
          (there, (shown-Shows npub now a).0 passes);
      complete = λ a d shows.
          take-Sorted most a (sort_adverts wanted) (sort_adverts-Sorted wanted) (
            (Mem-sort_adverts a wanted).0 (
              (Mem-filter (shown npub now) a (values after)).1
                (d, (shown-Shows npub now a).1 shows)));
    }
