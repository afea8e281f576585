-- ===== src/Tests/Rendezvous.antt =====
-- The server's side of the rendezvous at concrete inputs.
use fips_nostr_bootstrap.Base.{
  ◌≡◌, inr, refl, true, false, none, some, List, [], ◌∷◌, Text, text, text_eq, ℕ_discrete,
  Text-discrete, Texts-discrete, arith, push_unique,
}
use fips_nostr_bootstrap.Base.HashMap.{get, insert, remove}
use fips_nostr_bootstrap.Schema.{TraversalAddress-discrete, LegacyEndpoint-discrete, ok}
use fips_nostr_bootstrap.Traversal.{
  create_traversal_offer, create_traversal_answer, validate_traversal_answer_for_offer,
}
use fips_nostr_bootstrap.Planner.{plan_punch_targets, same_subnet_24, PlannedPunchTarget-discrete}
use fips_nostr_bootstrap.Planner.Endpoints.{
  server_planned_remote_endpoints, endpoint_from_traversal_address,
  select_remote_endpoint_from_offer,
}
use fips_nostr_bootstrap.Server.{
  Serving, Moment, Effect, Ending, answer_to, handle_offer, handle_message, start_punch_plan,
  answered, rejected, punches,
}
use fips_nostr_bootstrap.Server.Offers.{
  offer_for, handle_message-validate_traversal_answer_for_offer,
}
use fips_nostr_bootstrap.Server.Handoffs.{HandoffOf, handle_message-HandoffOf}
use fips_nostr_bootstrap.Server.Punches.{PunchesFor, handle_offer-PunchesFor}
use fips_nostr_bootstrap.Tests.Signals.{offer, lan_client, lan_server, wan_client, wan_server}

abbrev pub client : Text
client = text "npub1client"

abbrev pub serving : Serving
serving = record {
  npub = text "npub1server";
  trusted_npubs = client ∷ [];
  stun_servers = [];
  punch_interval_ms = 300;
  punch_duration_ms = 30000;
  punch_start_delay_ms = 800;
}

abbrev pub moment : Moment
moment = record {
  tested_at = 1_700_000_000_400;
  now = 1_700_000_000_500;
  reflexive_address = some wan_server;
  local_addresses = lan_server ∷ [];
  endpoint = record { host = text "198.51.100.20"; port = 63000 };
  observed_server = none;
  sends = true;
  is_ip = λ host. true;
}

stranger_rejected :
    (handle_message serving moment [] (text "npub1other") (some offer) none).effects
    ≡ rejected (text "npub1other") ∷ []
unfolding handle_message text ℕ_discrete Text-discrete
stranger_rejected = refl

handoff_left :
    get (handle_message serving moment [] client (some offer) none).pending_handoffs (text "sess-1")
    ≡ some client
unfolding handle_message handle_offer start_punch_plan create_traversal_offer get insert remove text
    ℕ_discrete Text-discrete answer_to create_traversal_answer server_planned_remote_endpoints
    plan_punch_targets same_subnet_24 push_unique endpoint_from_traversal_address
    select_remote_endpoint_from_offer Texts-discrete PlannedPunchTarget-discrete
    TraversalAddress-discrete LegacyEndpoint-discrete
handoff_left = refl

-- An offer with a host that is no address ends the task.
bad_host_ends_task :
    (handle_message serving
      (record moment { is_ip = λ host. false })
      []
      client
      (some offer)
      none).ending
    ≡ Ending.fails
unfolding handle_message handle_offer start_punch_plan create_traversal_offer get insert remove text
    ℕ_discrete Text-discrete answer_to create_traversal_answer server_planned_remote_endpoints
    plan_punch_targets same_subnet_24 push_unique endpoint_from_traversal_address
    select_remote_endpoint_from_offer Texts-discrete PlannedPunchTarget-discrete
    TraversalAddress-discrete LegacyEndpoint-discrete
bad_host_ends_task = refl

handle_message-validate_traversal_answer_for_offer_example :
    let made =
      offer_for serving
        (text "sess-1")
        (text "offer-1")
        client
        1_700_000_000_000
        60_000
        (some wan_client)
        (lan_client ∷ []) in
    (rest : List Effect) × ((handle_message serving moment [] client (some made) none).effects
      ≡ answered (answer_to serving moment made) ∷ rest)
    × (validate_traversal_answer_for_offer made (answer_to serving moment made) 1_700_000_000_900
        ≡ ok tt)
unfolding text Text-discrete ℕ_discrete answer_to create_traversal_answer create_traversal_offer
handle_message-validate_traversal_answer_for_offer_example =
    handle_message-validate_traversal_answer_for_offer serving moment [] (text "sess-1")
      (text "offer-1") client 1_700_000_000_000 60_000 (some wan_client) (lan_client ∷ []) client
      none 1_700_000_000_900 (inr refl) refl (omega arith) (omega arith) (omega arith) (omega arith)

handle_message-HandoffOf_example :
    HandoffOf serving moment [] client (some offer) none (text "sess-1") client
handle_message-HandoffOf_example =
    handle_message-HandoffOf serving moment [] client (some offer) none (text "sess-1") client
      handoff_left

-- The two WAN and LAN addresses of the offer.
abbrev punched : Effect
punched =
    punches (text "sess-1")
      (record { host = text "192.168.1.10"; port = 62000 }
        ∷ record { host = text "203.0.113.10"; port = 62000 }
        ∷ [])
      (record { start_at_ms = 1_700_000_001_300; interval_ms = 300; duration_ms = 30000 })

answer_and_punch :
    (handle_offer serving moment [] offer).effects
    ≡ answered (answer_to serving moment offer) ∷ punched ∷ []
unfolding handle_offer start_punch_plan create_traversal_offer text ℕ_discrete Text-discrete
    answer_to create_traversal_answer server_planned_remote_endpoints plan_punch_targets
    same_subnet_24 push_unique endpoint_from_traversal_address select_remote_endpoint_from_offer
    Texts-discrete PlannedPunchTarget-discrete TraversalAddress-discrete LegacyEndpoint-discrete
answer_and_punch = refl

handle_offer-PunchesFor_example :
    PunchesFor serving moment offer (handle_offer serving moment [] offer).effects
handle_offer-PunchesFor_example = handle_offer-PunchesFor serving moment [] offer
