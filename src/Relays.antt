-- ===== src/Relays.antt =====
-- The relays for a message to a peer: `find_recipient_inbox_relays` and `preferred_dm_relays` of
-- rust/fips-nostr-rendezvous/src/bin/fips-video-daemon.rs, and `parse_csv_env_list`, which reads lists
-- of relays from the environment.
pub mod Preference
use fips_nostr_bootstrap.Base.{
  ℕ, leb, if◌then◌else◌, Option, none, some, List, [], ◌∷◌, Text, text_eq, push_all, for_each, map,
  not,
}
use fips_nostr_bootstrap.Schema.{TraversalAdvert}
use fips_nostr_bootstrap.Planner.{split}
use fips_nostr_bootstrap.Adverts.{filter}
use fips_nostr_bootstrap.Traversal.{is_empty}
use fips_nostr_bootstrap.Trim.{trim}

abbrev some_if_any : List Text → Option (List Text)
some_if_any [] = none
some_if_any (value ∷ values) = some (value ∷ values)

-- The argument is the variable of the environment, if it is set.
unfoldable pub parse_csv_env_list : Option Text → Option (List Text)
parse_csv_env_list none = none
parse_csv_env_list (some raw) =
    some_if_any (filter (λ value. not (is_empty value)) (map trim (split b',' raw)))

-- An inbox event: when it was made, and the relays that `extract_relay_list` of the nostr crate
-- finds in its tags.
pub record InboxEvent : Type 0 where
  pub created_at : ℕ
  pub relay_list : List Text

-- The loop keeps the later event, and of two of the same time the one that comes last.
abbrev pub newer_event : Option InboxEvent → InboxEvent → Option InboxEvent
newer_event none event = some event
newer_event (some current) event =
    if leb current.created_at event.created_at then some event else some current

abbrev pub or_relays : List Text → List Text → List Text
or_relays dm_relays [] = dm_relays
or_relays dm_relays (relay ∷ relays) = relay ∷ relays

abbrev pub relays_of : List Text → Option InboxEvent → List Text
relays_of dm_relays none = dm_relays
relays_of dm_relays (some event) = or_relays dm_relays event.relay_list

-- `none` is a fetch that failed.
unfoldable pub find_recipient_inbox_relays : List Text → Option (List InboxEvent) → List Text
find_recipient_inbox_relays dm_relays none = dm_relays
find_recipient_inbox_relays dm_relays (some events) =
    relays_of dm_relays (for_each newer_event none events)

abbrev pub advert_relays : Option TraversalAdvert → List Text
advert_relays none = []
advert_relays (some advert) = advert.relays

unfoldable pub preferred_dm_relays :
    List Text → Option (List InboxEvent) → Option TraversalAdvert → List Text
preferred_dm_relays dm_relays fetched advert =
    let inbox = push_all [] (find_recipient_inbox_relays dm_relays fetched) in
    push_all (push_all inbox (advert_relays advert)) dm_relays
