-- ===== src/Tests/Peers.antt =====
-- The advert cache at concrete inputs.
use fips_nostr_bootstrap.Base.{
  ℕ, ◌≡◌, refl, true, none, some, Option, List, [], ◌∷◌, Text, text, ℕ_discrete, Text-discrete, map,
  text_eq, ◌==◌, if◌then◌else◌,
}
use fips_nostr_bootstrap.Base.HashMap.{get, insert, remove}
use fips_nostr_bootstrap.Schema.{TraversalAdvert}
use fips_nostr_bootstrap.Adverts.{
  AdvertCache, Fetched, published_advert, refresh_advert_cache, merge_advert, list_advertised_peers,
  find_advertised_peer, insert_sorted, sort_adverts, filter,
}
use fips_nostr_bootstrap.Adverts.Newest.{UpToDate, refresh_advert_cache-UpToDate}
use fips_nostr_bootstrap.Adverts.Listing.{Lists, list_advertised_peers-Lists}

abbrev advert_of : Text → ℕ → TraversalAdvert
advert_of npub at =
    published_advert npub at 1000 (text "wss://nip17.com" ∷ []) []
      (record { host = text "192.0.2.7"; port = 4100 })

abbrev alice : Text
alice = text "npub1alice"

abbrev bob : Text
bob = text "npub1bob"

abbrev me : Text
me = text "npub1me"

-- A stand-in for the parser of JSON: the contents of three events.
abbrev from_str : Text → Option TraversalAdvert
from_str content =
    if content == (0 ∷ [])
    then some (advert_of alice 500)
    else if content == (1 ∷ [])
    then some (advert_of bob 600)
    else if content == (2 ∷ [])
    then some (advert_of alice 700)
    else none

abbrev event_of : ℕ → Fetched
event_of n = record { content = n ∷ []; seen_at = 900 }

abbrev events : List Fetched
events = map event_of (2 ∷ 1 ∷ 9 ∷ 0 ∷ [])

abbrev after : AdvertCache
after = refresh_advert_cache from_str [] (some events)

abbrev stamps : List TraversalAdvert → List ℕ
stamps = map λ a. a.published_at

peers_listed :
    stamps (list_advertised_peers from_str true me [] (some events) 950 10).1 ≡ 700 ∷ 600 ∷ []
unfolding text published_advert refresh_advert_cache merge_advert list_advertised_peers get insert
    remove insert_sorted sort_adverts filter ℕ_discrete Text-discrete
peers_listed = refl

peers_cut : stamps (list_advertised_peers from_str true me [] (some events) 950 1).1 ≡ 700 ∷ []
unfolding text published_advert refresh_advert_cache merge_advert list_advertised_peers get insert
    remove insert_sorted sort_adverts filter ℕ_discrete Text-discrete
peers_cut = refl

alice_found :
    (find_advertised_peer from_str [] (some events) 950 alice).1 ≡ some (advert_of alice 700)
unfolding text published_advert refresh_advert_cache merge_advert find_advertised_peer get insert
    remove ℕ_discrete Text-discrete
alice_found = refl

refresh_advert_cache-UpToDate_example : UpToDate from_str [] events after
refresh_advert_cache-UpToDate_example = refresh_advert_cache-UpToDate from_str [] events

list_advertised_peers-Lists_example :
    let (left, peers) = list_advertised_peers from_str true me [] (some events) 950 10 in
    Lists me 950 10 left peers
list_advertised_peers-Lists_example =
    list_advertised_peers-Lists from_str true me [] (some events) 950 10
