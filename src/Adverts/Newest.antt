-- ===== src/Adverts/Newest.antt =====
-- What a refresh leaves in the cache: the newest live advert of every publisher.
use mathlib.Core.List.{Memᴰ}
use fips_nostr_bootstrap.Base.{
  ℕ, ◌<◌, ◌≡◌, ◌⊎◌, inl, inr, refl, ltb, Bool-cases, Option, none, some, List, [], ◌∷◌, Text,
  text_eq, for_each, arith,
}
use fips_nostr_bootstrap.Base.HashMap.{get, AllEntries-get}
use fips_nostr_bootstrap.Schema.{TraversalAdvert}
use fips_nostr_bootstrap.Adverts.{
  AdvertCache, Fetched, merge_event, merge_advert, refresh_advert_cache, unexpired,
  find_advertised_peer,
}
use fips_nostr_bootstrap.Adverts.Merge.{
  NoNewer, NoNewer-refl, Covers, IsKeyed, merge_advert-IsKeyed, merge_advert-Covers,
  merge_advert-arrived, merge_advert-origin,
}

module _ (from_str : Text → Option TraversalAdvert) where
  -- An event of the list holds the advert, which was live when the loop came to it.
  abbrev pub LiveIn : List Fetched → TraversalAdvert → Type 0
  LiveIn events a =
      (e : Fetched) × Memᴰ e events × (from_str e.content ≡ some a) × (e.seen_at < a.expires_at)

  -- `after` is `before` brought up to date by the events: it covers every live advert that came and
  -- every advert that was there, and holds nothing else.
  pub record UpToDate (before : AdvertCache) (events : List Fetched) (after : AdvertCache)
      : Type 0 where
    pub covers : (a : TraversalAdvert) → LiveIn events a → Covers after a.publisher_npub a
    pub keeps : (k : Text) (a : TraversalAdvert) → get before k ≡ some a → Covers after k a
    pub origin :
        (k : Text) (b : TraversalAdvert)
        → get after k ≡ some b
        → (get before k ≡ some b) ⊎ (LiveIn events b × (b.publisher_npub ≡ k))

  for_each-Covers :
      (cache : AdvertCache) (events : List Fetched) (k : Text) (a : TraversalAdvert)
      → Covers cache k a
      → Covers (for_each (merge_event from_str) cache events) k a
  for_each-Covers cache [] k a c = c
  for_each-Covers cache (e ∷ events) k a c =
      for_each-Covers (merge_event from_str cache e) events k a
        (merge_advert-Covers e.seen_at cache (from_str e.content) k a c)

  for_each-arrived :
      (cache : AdvertCache) (events : List Fetched) (a : TraversalAdvert)
      → LiveIn events a
      → Covers (for_each (merge_event from_str) cache events) a.publisher_npub a
  for_each-arrived cache [] a (e, d, parsed, live) = elim d [ ]
  for_each-arrived cache (f ∷ events) a (e, Memᴰ.tail d, parsed, live) =
      for_each-arrived (merge_event from_str cache f) events a (e, d, parsed, live)
  for_each-arrived cache (f ∷ events) a (e, Memᴰ.head same, parsed, live) =
      let here : merge_event from_str cache f ≡ merge_advert e.seen_at cache (some a) = cc in
      for_each-Covers (merge_event from_str cache f) events a.publisher_npub a
        (rw here (merge_advert-arrived e.seen_at cache a live))

  for_each-origin :
      (cache : AdvertCache) (events : List Fetched) (k : Text) (b : TraversalAdvert)
      → get (for_each (merge_event from_str) cache events) k ≡ some b
      → (get cache k ≡ some b) ⊎ (LiveIn events b × (b.publisher_npub ≡ k))
  for_each-origin cache [] k b h = inl h
  for_each-origin cache (e ∷ events) k b h =
      elim (for_each-origin (merge_event from_str cache e) events k b h) [
        | inr ((f, d, parsed, live), key) ↦ inr ((f, Memᴰ.tail d, parsed, live), key)
        | inl now ↦ elim (merge_advert-origin e.seen_at cache (from_str e.content) k b now) [
          | inl before ↦ inl before
          | inr (parsed, key, live) ↦ inr ((e, Memᴰ.head refl, parsed, live), key)
        ]
      ]

  -- A refresh brings the cache up to date: for each publisher it then holds an advert that was cached
  -- or came live with an event, and none of those is newer.
  pub refresh_advert_cache-UpToDate :
      (cache : AdvertCache) (events : List Fetched)
      → UpToDate cache events (refresh_advert_cache from_str cache (some events))
  unfolding refresh_advert_cache
  refresh_advert_cache-UpToDate cache events = record {
    covers = for_each-arrived cache events;
    keeps = λ k a h. for_each-Covers cache events k a (a, h, NoNewer-refl a);
    origin = for_each-origin cache events;
  }

  -- Adverts stay under their publishers, whether the fetch succeeds or not.
  pub refresh_advert_cache-IsKeyed :
      (cache : AdvertCache) (fetched : Option (List Fetched))
      → IsKeyed cache
      → IsKeyed (refresh_advert_cache from_str cache fetched)
  unfolding refresh_advert_cache
  refresh_advert_cache-IsKeyed cache none v = v
  refresh_advert_cache-IsKeyed cache (some []) v = v
  refresh_advert_cache-IsKeyed cache (some (e ∷ events)) v =
      refresh_advert_cache-IsKeyed (merge_event from_str cache e) (some events)
        (merge_advert-IsKeyed e.seen_at cache (from_str e.content) v)

  unexpired-some :
      (now : ℕ) (o : Option TraversalAdvert) (a : TraversalAdvert)
      → unexpired from_str now o ≡ some a
      → (o ≡ some a) × (now < a.expires_at)
  unexpired-some now none a h = cc
  unexpired-some now (some b) a h = elim (Bool-cases (ltb now b.expires_at)) [
    | inr dead ↦ absurd (cc (rw dead at h))
    | inl live ↦
        let same : b ≡ a = cc (rw live at h) in
        let alive : now < b.expires_at = ground arith in (cc, rw same at alive)
  ]

  -- The peer that is found is the one that was looked for, is live, and no live advert of its that
  -- the relays gave is newer.
  find_advertised_peer-newest :
      (cache : AdvertCache) (events : List Fetched) (now : ℕ) (target_npub : Text)
      (a : TraversalAdvert)
      → IsKeyed cache
      → (find_advertised_peer from_str cache (some events) now target_npub).1 ≡ some a
      → (a.publisher_npub ≡ target_npub)
        × (now < a.expires_at)
        × ((b : TraversalAdvert) → LiveIn events b → b.publisher_npub ≡ target_npub → NoNewer b a)
  unfolding find_advertised_peer
  find_advertised_peer-newest cache events now target a v h =
      let after : AdvertCache = refresh_advert_cache from_str cache (some events) in
      let (found, live) = unexpired-some now (get after target) a h in
      (
        AllEntries-get (λ k b. b.publisher_npub ≡ k) after target a
            (refresh_advert_cache-IsKeyed cache (some events) v) found,
        live,
        λ b came key.
            let (c, there, newer) = (refresh_advert_cache-UpToDate cache events).covers b came in
            let same : c ≡ a = cc (rw key at there) in rw same at newer,
      )
