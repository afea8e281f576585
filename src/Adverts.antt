-- ===== src/Adverts.antt =====
-- The advert cache: `refresh_advert_cache`, `list_advertised_peers`, `find_advertised_peer` of
-- rust/fips-nostr-rendezvous/src/bin/fips-video-daemon.rs, and `publish_advert` of
-- bin/fips-console-server.rs. The relays' answer and the clock are arguments.
pub mod Merge
pub mod Newest
pub mod Sorting
pub mod Listing
use fips_nostr_bootstrap.Base.{
  ℕ, ◌+◌, ltb, leb, ◌==◌, nat_eq, text_eq, not, ◌&&◌, ◌||◌, if◌then◌else◌, Bool, true, false,
  Option, none, some, List, [], ◌∷◌, Text, text, take, for_each, add64, map,
}
use fips_nostr_bootstrap.Base.HashMap.{HashMap, get, insert, values}
use fips_nostr_bootstrap.Schema.{
  TraversalAdvert, EndpointHint, LegacyEndpoint, advert_kind, traversal_signal_app,
}

abbrev pub AdvertCache : Type 0
AdvertCache = HashMap Text TraversalAdvert

-- Whether an advert takes the place of the cached one: it is newer, or as new with a sequence that
-- is not smaller.
abbrev pub replaces : TraversalAdvert → Option TraversalAdvert → Bool
replaces advert none = true
replaces advert (some existing) =
    ltb existing.published_at advert.published_at
    || (advert.published_at == existing.published_at && leb existing.sequence advert.sequence)

-- The body of the loop on an event whose content parses to an advert, or does not.
unfoldable pub merge_advert : ℕ → AdvertCache → Option TraversalAdvert → AdvertCache
merge_advert now cache none = cache
merge_advert now cache (some advert) =
    if leb advert.expires_at now
    then cache
    else if replaces advert (get cache advert.publisher_npub)
    then insert cache advert.publisher_npub advert
    else cache

-- An event that was fetched, with the clock when the loop comes to it.
pub record Fetched : Type 0 where
  pub content : Text
  pub seen_at : ℕ

module _ (from_str : Text → Option TraversalAdvert) where
  abbrev pub merge_event : AdvertCache → Fetched → AdvertCache
  merge_event cache event = merge_advert event.seen_at cache (from_str event.content)

  -- `none` is a fetch that failed, which the callers ignore: the cache stays.
  unfoldable pub refresh_advert_cache : AdvertCache → Option (List Fetched) → AdvertCache
  refresh_advert_cache cache none = cache
  refresh_advert_cache cache (some events) = for_each merge_event cache events

-- The order of `sort_by`: the later `published_at` first, then the larger sequence.
abbrev pub sorts_after : TraversalAdvert → TraversalAdvert → Bool
sorts_after a b =
    ltb a.published_at b.published_at
    || (a.published_at == b.published_at && ltb a.sequence b.sequence)

-- `sort_by` is stable: an advert stays behind those before it that it does not precede.
unfoldable pub insert_sorted : TraversalAdvert → List TraversalAdvert → List TraversalAdvert
insert_sorted a [] = a ∷ []
insert_sorted a (b ∷ bs) =
    let rest = insert_sorted a bs in if sorts_after a b then b ∷ rest else a ∷ b ∷ bs

unfoldable pub sort_adverts : List TraversalAdvert → List TraversalAdvert
sort_adverts [] = []
sort_adverts (a ∷ adverts) = insert_sorted a (sort_adverts adverts)

unfoldable pub filter {ℓ} : {A : Type ℓ} → (A → Bool) → List A → List A
filter p [] = []
filter p (x ∷ xs) = let rest = filter p xs in if p x then x ∷ rest else rest

abbrev pub shown : Text → ℕ → TraversalAdvert → Bool
shown npub now advert = not (advert.publisher_npub == npub) && ltb now advert.expires_at

module _ (from_str : Text → Option TraversalAdvert) where
  abbrev pub refreshed_if : Bool → AdvertCache → Option (List Fetched) → AdvertCache
  refreshed_if discovery_enabled cache fetched =
      if discovery_enabled then refresh_advert_cache from_str cache fetched else cache

  -- The cache after the call, and the peers. One reading of the clock stands for those of the filter.
  unfoldable pub list_advertised_peers :
      Bool → Text → AdvertCache → Option (List Fetched) → ℕ → ℕ → AdvertCache × List TraversalAdvert
  list_advertised_peers discovery_enabled npub cache fetched now max_peers =
      let cache = refreshed_if discovery_enabled cache fetched in
      (cache, take max_peers (sort_adverts (filter (shown npub now) (values cache))))

  abbrev pub unexpired : ℕ → Option TraversalAdvert → Option TraversalAdvert
  unexpired now none = none
  unexpired now (some advert) = if ltb now advert.expires_at then some advert else none

  unfoldable pub find_advertised_peer :
      AdvertCache → Option (List Fetched) → ℕ → Text → AdvertCache × Option TraversalAdvert
  find_advertised_peer cache fetched now target_npub =
      let cache = refresh_advert_cache from_str cache fetched in
      (cache, unexpired now (get cache target_npub))

-- The advert of `publish_advert`.
unfoldable pub published_advert :
    Text → ℕ → ℕ → List Text → List Text → LegacyEndpoint → TraversalAdvert
published_advert npub now advertise_ttl_ms dm_relays stun_servers endpoint = record {
  app = text "fips.nat.traversal.v1";
  event_kind = advert_kind;
  protocol = text "fips.nat.traversal.v1";
  publisher_npub = npub;
  published_at = now;
  expires_at = add64 now advertise_ttl_ms;
  sequence = now;
  relays = dm_relays;
  stun_servers = stun_servers;
  transports = text "udp" ∷ [];
  endpoint_hint = some (record { host = endpoint.host; port = endpoint.port });
}
