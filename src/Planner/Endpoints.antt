-- ===== src/Planner/Endpoints.antt =====
-- The endpoints that a side punches: `planned_remote_endpoints_from_offer_answer` of the daemons
-- (client side, here of fips-video-daemon.rs) and of the servers (fips-console-server.rs).
pub mod Coverage
use fips_nostr_bootstrap.Base.{
  ℕ, ◌≡◌, ◌≢◌, refl, ◌==◌, if◌then◌else◌, Bool, true, false, ◌||◌, ◌&&◌, Option, none, some, List,
  [], ◌∷◌, ◌++◌, Text, contains, Distinct, push_unique, push_all, for_each, push_all-Distinct,
  contains-push_all, push_unique-Distinct, push_all-prefix, Bool-cases, inl, inr, any, text_eq,
  nat_eq, arith, map,
}
use fips_nostr_bootstrap.Schema.{
  TraversalAddress, TraversalOffer, TraversalAnswer, LegacyEndpoint, legacy_endpoint_eq,
}
use fips_nostr_bootstrap.Planner.{PlannedPunchTarget, plan_punch_targets}

unfoldable pub endpoint_from_traversal_address : TraversalAddress → LegacyEndpoint
endpoint_from_traversal_address address = record { host = address.ip; port = address.port }

abbrev first : List TraversalAddress → Option LegacyEndpoint
first [] = none
first (a ∷ rest) = some (endpoint_from_traversal_address a)

abbrev or_first : Option TraversalAddress → List TraversalAddress → Option LegacyEndpoint
or_first (some a) locals = some (endpoint_from_traversal_address a)
or_first none locals = first locals

unfoldable pub select_remote_endpoint_from_answer : TraversalAnswer → Option LegacyEndpoint
select_remote_endpoint_from_answer answer = or_first answer.reflexive_address answer.local_addresses

unfoldable pub select_remote_endpoint_from_offer : TraversalOffer → Option LegacyEndpoint
select_remote_endpoint_from_offer offer = or_first offer.reflexive_address offer.local_addresses

-- `existing.host == endpoint.host && existing.port == endpoint.port`
abbrev has_endpoint : List LegacyEndpoint → LegacyEndpoint → Bool
has_endpoint remotes endpoint =
    any (λ existing. existing.host == endpoint.host && existing.port == endpoint.port) remotes

push_endpoint : List LegacyEndpoint → PlannedPunchTarget → List LegacyEndpoint
push_endpoint remotes target =
    let endpoint = endpoint_from_traversal_address target.remote in
    if has_endpoint remotes endpoint then remotes else remotes ++ (endpoint ∷ [])

abbrev or_selected : List LegacyEndpoint → Option LegacyEndpoint → List LegacyEndpoint
or_selected [] none = []
or_selected [] (some endpoint) = endpoint ∷ []
or_selected (r ∷ rs) selected = r ∷ rs

-- The client punches what the answer names.
unfoldable pub client_planned_remote_endpoints :
    TraversalOffer → TraversalAnswer → List LegacyEndpoint
unfolding push_endpoint
client_planned_remote_endpoints offer answer =
    let targets =
      plan_punch_targets offer.local_addresses offer.reflexive_address answer.local_addresses
        answer.reflexive_address in
    or_selected (for_each push_endpoint [] targets) (select_remote_endpoint_from_answer answer)

-- The server punches what the offer names.
unfoldable pub server_planned_remote_endpoints :
    TraversalOffer → Option TraversalAddress → List TraversalAddress → List LegacyEndpoint
unfolding push_endpoint
server_planned_remote_endpoints offer answer_reflexive_address answer_local_addresses =
    let targets =
      plan_punch_targets answer_local_addresses answer_reflexive_address offer.local_addresses
        offer.reflexive_address in
    or_selected (for_each push_endpoint [] targets) (select_remote_endpoint_from_offer offer)
