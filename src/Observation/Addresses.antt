-- ===== src/Observation/Addresses.antt =====
-- The endpoint of a hello against the addresses of an offer.
use fips_nostr_bootstrap.Base.{
  ℕ, ◌≡◌, ◌⊎◌, inl, inr, refl, true, false, Option, none, some, List, [], ◌∷◌, Text, contains,
  ==_refl, arith,
}
use fips_nostr_bootstrap.Schema.{LegacyEndpoint, TraversalAddress, legacy_endpoint_eq}
use fips_nostr_bootstrap.Planner.Endpoints.{endpoint_from_traversal_address}
use fips_nostr_bootstrap.Planner.Endpoints.Coverage.{named}
use fips_nostr_bootstrap.Observation.{
  StunObservation, Local, Observed, Probing, refresh_traversal_observation, interface_addresses,
  or_loopback, public_or_hint, first_interface, endpoint_of_reflexive, endpoint_of, public_address,
  or_public, reflexive_of, udp_addresses, locals_of, local_client_endpoint,
  local_traversal_addresses,
}

-- An endpoint is named by the addresses, or there are none and it is the last resort.
abbrev pub NamedOrNone :
    ℕ → Option Text → Option TraversalAddress → List TraversalAddress → LegacyEndpoint → Type 0
NamedOrNone port hint reflexive locals endpoint =
    (contains (named reflexive locals) endpoint ≡ true)
    ⊎ ((reflexive ≡ none)
        × (locals ≡ [])
        × (endpoint ≡ record { host = or_loopback hint; port = port }))

first_named : (e : LegacyEndpoint) (es : List LegacyEndpoint) → contains (e ∷ es) e ≡ true
first_named e es = rw (==_refl e) refl

second_named : (d e : LegacyEndpoint) (es : List LegacyEndpoint) → contains (d ∷ e ∷ es) e ≡ true
second_named d e es = ground (arith, ==_refl e)

-- Without an observation.
unobserved-NamedOrNone :
    (port : ℕ) (hint public : Option Text)
    → NamedOrNone port hint
        (public_address port public)
        (udp_addresses port (interface_addresses hint))
        (public_or_hint port hint public)
unfolding endpoint_from_traversal_address
unobserved-NamedOrNone port hint (some host) = inl (first_named _ _)
unobserved-NamedOrNone port (some ip) none = inl (first_named _ [])
unobserved-NamedOrNone port none none = inr (refl, refl, refl)

-- With one that saw no reflexive address.
local-NamedOrNone :
    (port : ℕ) (hint public : Option Text) (at : ℕ) (hosts : List Text)
    → NamedOrNone port hint
        (public_address port public)
        (udp_addresses at hosts)
        (first_interface (public_or_hint port hint public) at hosts)
unfolding endpoint_from_traversal_address
local-NamedOrNone port hint (some host) at (ip ∷ hosts) = inl (second_named _ _ _)
local-NamedOrNone port hint (some host) at [] = inl (first_named _ [])
local-NamedOrNone port hint none at (ip ∷ hosts) = inl (first_named _ _)
local-NamedOrNone port hint none at [] = inr (refl, refl, refl)

reflexive-NamedOrNone :
    (port : ℕ) (hint public : Option Text) (at : ℕ) (hosts : List Text)
    (seen : Option LegacyEndpoint)
    → NamedOrNone port hint
        (or_public (public_address port public) seen)
        (udp_addresses at hosts)
        (endpoint_of_reflexive (public_or_hint port hint public) at hosts seen)
unfolding endpoint_from_traversal_address
reflexive-NamedOrNone port hint public at hosts (some e) = inl (first_named _ _)
reflexive-NamedOrNone port hint public at hosts none = local-NamedOrNone port hint public at hosts

observed-NamedOrNone :
    (port : ℕ) (hint public : Option Text) (o : Option StunObservation)
    → NamedOrNone port hint
        (reflexive_of (public_address port public) o)
        (locals_of (udp_addresses port (interface_addresses hint)) o)
        (endpoint_of (public_or_hint port hint public) o)
observed-NamedOrNone port hint public none = unobserved-NamedOrNone port hint public
observed-NamedOrNone port hint public (some o) =
    reflexive-NamedOrNone port hint public o.local_port o.local_interface_addresses
      o.reflexive_address

-- From the same state, the endpoint of a hello is one that an offer names, or the offer names no
-- address and the endpoint is the host's address or 127.0.0.1 at the socket's port. Both calls leave
-- the same state.
pub local_client_endpoint-local_traversal_addresses :
    (env : Local) (p : Probing) (s : Observed)
    → let (after, (reflexive, locals)) = local_traversal_addresses env p s in
      let (left, endpoint) = local_client_endpoint env p s in
      NamedOrNone env.local_port env.ipv4_hint reflexive locals endpoint × (left ≡ after)
unfolding local_client_endpoint local_traversal_addresses
local_client_endpoint-local_traversal_addresses env p s = (
  observed-NamedOrNone env.local_port env.ipv4_hint env.public_host
      (refresh_traversal_observation env p false s).1,
  refl,
)
