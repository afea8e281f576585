-- ===== src/Observation.antt =====
-- What a client knows of its own addresses: `refresh_traversal_observation`, `local_client_endpoint`
-- and `local_traversal_addresses` of rust/fips-nostr-rendezvous/src/bin/fips-video-daemon.rs.
pub mod Refresh
pub mod Addresses
use fips_nostr_bootstrap.Base.{
  ℕ, ◌-◌, ltb, ◌&&◌, not, if◌then◌else◌, Bool, true, false, Option, none, some, List, [], ◌∷◌, Text,
  text, map,
}
use fips_nostr_bootstrap.Schema.{LegacyEndpoint, TraversalAddress}

pub record StunObservation : Type 0 where
  pub server : Text
  pub reflexive_address : Option LegacyEndpoint
  pub local_port : ℕ
  pub local_interface_addresses : List Text

-- The settings that are read, with the port of the socket and the address that `local_ipv4_hint`
-- finds in the call.
pub record Local : Type 0 where
  pub stun_servers : List Text
  pub stun_refresh_ms : ℕ
  pub public_host : Option Text
  pub local_port : ℕ
  pub ipv4_hint : Option Text

pub record Observed : Type 0 where
  pub stun_observation : Option StunObservation
  pub stun_observed_at : Option ℕ

-- The moments of a call, in milliseconds of the monotonic clock, and what `probe_stun_server` gives
-- for a server: its answer, or none on an error.
pub record Probing : Type 0 where
  pub started_at : ℕ
  pub ended_at : ℕ
  pub probe_stun_server : Text → Option LegacyEndpoint

abbrev pub interface_addresses : Option Text → List Text
interface_addresses none = []
interface_addresses (some ip) = ip ∷ []

abbrev pub observe : Local → Text → Option LegacyEndpoint → StunObservation
observe env server answer = record {
  server = server;
  reflexive_address = answer;
  local_port = env.local_port;
  local_interface_addresses = interface_addresses env.ipv4_hint;
}

abbrev pub or_rest : Local → Text → StunObservation → Option LegacyEndpoint → StunObservation
or_rest env server rest (some address) = observe env server (some address)
or_rest env server rest none = rest

-- The loop over the servers: the first that answers, and `first` without an address if none does.
unfoldable pub probe_all :
    Local → (Text → Option LegacyEndpoint) → Text → List Text → StunObservation
probe_all env probe first [] = observe env first none
probe_all env probe first (server ∷ servers) =
    or_rest env server (probe_all env probe first servers) (probe server)

-- Whether the last observation is young enough.
abbrev pub still_fresh : Local → Probing → Option ℕ → Bool
still_fresh env p none = false
still_fresh env p (some observed_at) = ltb (p.started_at - observed_at) env.stun_refresh_ms

abbrev refresh_from :
    Local → Probing → Bool → Observed → List Text → Observed × Option StunObservation
refresh_from env p force s [] = (s, s.stun_observation)
refresh_from env p force s (first ∷ servers) =
    if not force && still_fresh env p s.stun_observed_at then (s, s.stun_observation) else (
      record {
        stun_observation = some (probe_all env p.probe_stun_server first (first ∷ servers));
        stun_observed_at = some p.ended_at;
      },
      some (probe_all env p.probe_stun_server first (first ∷ servers)),
    )

-- The state after the call, and the observation that it returns.
unfoldable pub refresh_traversal_observation :
    Local → Probing → Bool → Observed → Observed × Option StunObservation
refresh_traversal_observation env p force s = refresh_from env p force s env.stun_servers

abbrev pub or_loopback : Option Text → Text
or_loopback none = text "127.0.0.1"
or_loopback (some ip) = ip

abbrev public_or_hint : ℕ → Option Text → Option Text → LegacyEndpoint
public_or_hint port hint (some host) = record { host = host; port = port }
public_or_hint port hint none = record { host = or_loopback hint; port = port }

abbrev pub first_interface : LegacyEndpoint → ℕ → List Text → LegacyEndpoint
first_interface fallback port (host ∷ hosts) = record { host = host; port = port }
first_interface fallback port [] = fallback

abbrev pub endpoint_of_reflexive :
    LegacyEndpoint → ℕ → List Text → Option LegacyEndpoint → LegacyEndpoint
endpoint_of_reflexive fallback port hosts (some reflexive) = reflexive
endpoint_of_reflexive fallback port hosts none = first_interface fallback port hosts

abbrev pub endpoint_of : LegacyEndpoint → Option StunObservation → LegacyEndpoint
endpoint_of fallback none = fallback
endpoint_of fallback (some obs) =
    endpoint_of_reflexive fallback obs.local_port obs.local_interface_addresses
      obs.reflexive_address

unfoldable pub local_client_endpoint : Local → Probing → Observed → Observed × LegacyEndpoint
local_client_endpoint env p s =
    let (after, observation) = refresh_traversal_observation env p false s in
    (after, endpoint_of (public_or_hint env.local_port env.ipv4_hint env.public_host) observation)

abbrev pub udp_address : Text → ℕ → TraversalAddress
udp_address ip port = record { protocol = text "udp"; ip = ip; port = port }

abbrev public_address : ℕ → Option Text → Option TraversalAddress
public_address port none = none
public_address port (some host) = some (udp_address host port)

abbrev pub or_public : Option TraversalAddress → Option LegacyEndpoint → Option TraversalAddress
or_public fallback (some endpoint) = some (udp_address endpoint.host endpoint.port)
or_public fallback none = fallback

abbrev pub reflexive_of : Option TraversalAddress → Option StunObservation → Option TraversalAddress
reflexive_of fallback none = fallback
reflexive_of fallback (some obs) = or_public fallback obs.reflexive_address

abbrev pub udp_addresses : ℕ → List Text → List TraversalAddress
udp_addresses port = map λ ip. udp_address ip port

abbrev pub locals_of : List TraversalAddress → Option StunObservation → List TraversalAddress
locals_of fallback none = fallback
locals_of fallback (some obs) = udp_addresses obs.local_port obs.local_interface_addresses

unfoldable pub local_traversal_addresses :
    Local → Probing → Observed → Observed × (Option TraversalAddress × List TraversalAddress)
local_traversal_addresses env p s =
    let (after, observation) = refresh_traversal_observation env p false s in
    (
      after,
      (
        reflexive_of (public_address env.local_port env.public_host) observation,
        locals_of (udp_addresses env.local_port (interface_addresses env.ipv4_hint)) observation,
      ),
    )
