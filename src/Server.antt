-- ===== src/Server.antt =====
-- The server's side of the rendezvous: the body of the notification task of
-- rust/fips-nostr-rendezvous/src/bin/fips-console-server.rs on a private message that was unwrapped,
-- with `start_punch` and `start_punch_plan`. Unwrapping, sending and the tasks that send probes belong
-- to nostr-sdk and tokio; what the body does with them is a list of effects.
pub mod Offers
pub mod Handoffs
pub mod Punches
pub mod Udp
use fips_nostr_bootstrap.Base.{
  ℕ, ◌+◌, ltb, leb, ◌==◌, nat_eq, text_eq, not, ◌&&◌, ◌||◌, if◌then◌else◌, Bool, true, false,
  Option, none, some, List, [], ◌∷◌, ◌++◌, Text, text, add64, contains,
}
use fips_nostr_bootstrap.Base.HashMap.{HashMap, insert}
use fips_nostr_bootstrap.Schema.{
  TraversalAddress, PunchHint, TraversalOffer, TraversalAnswer, LegacyEndpoint, LegacyPunch,
  LegacyStunInfo, LegacyWants, LegacyHelloMessage, LegacyServerInfoMessage,
}
use fips_nostr_bootstrap.Traversal.{offer_type, create_traversal_answer, is_none, is_empty}
use fips_nostr_bootstrap.Planner.Endpoints.{server_planned_remote_endpoints}

-- The settings that the body reads.
pub record Serving : Type 0 where
  pub npub : Text
  pub trusted_npubs : List Text
  pub stun_servers : List Text
  pub punch_interval_ms : ℕ
  pub punch_duration_ms : ℕ
  pub punch_start_delay_ms : ℕ

-- What the calls of one run of the body give: the clock at the test of the offer and after it, the
-- server's addresses, the server of its last STUN observation, whether all calls succeed up to the
-- sending of the reply, and whether a host parses as an IP address.
pub record Moment : Type 0 where
  pub tested_at : ℕ
  pub now : ℕ
  pub reflexive_address : Option TraversalAddress
  pub local_addresses : List TraversalAddress
  pub endpoint : LegacyEndpoint
  pub observed_server : Option Text
  pub sends : Bool
  pub is_ip : Text → Bool

pub data Effect : Type 0 where
  rejected : Text → Effect
  answered : TraversalAnswer → Effect
  informed : LegacyServerInfoMessage → Effect
  punches : Text → List LegacyEndpoint → LegacyPunch → Effect

-- How the body ends: the loop goes on, or an error ends the task.
pub data Ending : Type 0 where
  continues fails : Ending

pub record Served : Type 0 where
  pub pending_handoffs : HashMap Text Text
  pub effects : List Effect
  pub ending : Ending

abbrev pub punch_hint : Serving → ℕ → PunchHint
punch_hint env now = record {
  start_at_ms = add64 now env.punch_start_delay_ms;
  interval_ms = env.punch_interval_ms;
  duration_ms = env.punch_duration_ms;
}

abbrev pub legacy_punch : Serving → ℕ → LegacyPunch
legacy_punch env now = record {
  start_at_ms = add64 now env.punch_start_delay_ms;
  interval_ms = env.punch_interval_ms;
  duration_ms = env.punch_duration_ms;
}

abbrev pub accepts : Moment → Bool
accepts m = not (is_none m.reflexive_address) || not (is_empty m.local_addresses)

abbrev pub then_some {ℓ} : {A : Type ℓ} → Bool → A → Option A
then_some true a = some a
then_some false a = none

unfoldable pub answer_to : Serving → Moment → TraversalOffer → TraversalAnswer
answer_to env m offer =
    create_traversal_answer offer.session_id m.now 60000 (offer.session_id ++ text "-answer")
      env.npub offer.sender_npub offer.nonce (accepts m) m.reflexive_address m.local_addresses
      (then_some (accepts m) (punch_hint env m.now))
      (then_some (not (accepts m)) (text "no-usable-addresses"))

abbrev pub all_ip : (Text → Bool) → List LegacyEndpoint → Bool
all_ip is_ip [] = true
all_ip is_ip (remote ∷ remotes) = is_ip remote.host && all_ip is_ip remotes

-- `start_punch_plan`, behind what was done before: no remote is no error, a host that is not an
-- address is one.
unfoldable pub start_punch_plan :
    Moment → HashMap Text Text → List Effect → Text → List LegacyEndpoint → LegacyPunch → Served
start_punch_plan m handoffs effects session_id remotes punch =
    if is_empty remotes
    then record { pending_handoffs = handoffs; effects = effects; ending = continues }
    else if all_ip m.is_ip remotes
    then record {
      pending_handoffs = handoffs;
      effects = effects ++ (punches session_id remotes punch ∷ []);
      ending = continues;
    }
    else record { pending_handoffs = handoffs; effects = effects; ending = fails }

-- `start_punch`
unfoldable pub start_punch :
    Moment → HashMap Text Text → List Effect → Text → LegacyEndpoint → LegacyPunch → Served
start_punch m handoffs effects session_id remote punch =
    if m.is_ip remote.host
    then record {
      pending_handoffs = handoffs;
      effects = effects ++ (punches session_id (remote ∷ []) punch ∷ []);
      ending = continues;
    }
    else record { pending_handoffs = handoffs; effects = effects; ending = fails }

-- An offer that is meant for this server and lives.
unfoldable pub handle_offer : Serving → Moment → HashMap Text Text → TraversalOffer → Served
handle_offer env m handoffs offer =
    if not m.sends
    then record { pending_handoffs = handoffs; effects = []; ending = fails }
    else let answer = answer_to env m offer in
      let handoffs = insert handoffs offer.session_id offer.sender_npub in
      if accepts m
      then start_punch_plan m handoffs (answered answer ∷ []) offer.session_id
          (server_planned_remote_endpoints offer answer.reflexive_address answer.local_addresses)
          (legacy_punch env m.now)
      else record {
        pending_handoffs = handoffs;
        effects = answered answer ∷ [];
        ending = continues;
      }

abbrev pub first_or : Text → List Text → Text
first_or default [] = default
first_or default (x ∷ xs) = x

abbrev pub stun_uri : Serving → Option Text → Text
stun_uri env none = first_or (text "stun:fips.tomdwyer.uk:3478") env.stun_servers
stun_uri env (some server) = server

unfoldable pub info_for : Serving → Moment → LegacyHelloMessage → LegacyServerInfoMessage
info_for env m hello = record {
  message_type = text "fips.rendezvous.server-info";
  version = text "1.0";
  session_id = hello.session_id;
  nonce = hello.nonce;
  issued_at = m.now;
  endpoint = m.endpoint;
  punch = then_some hello.wants.fips_connect (legacy_punch env m.now);
  stun =
      then_some hello.wants.stun_info
        (record { uri = stun_uri env m.observed_server; metadata_tag = some (text "stun") });
}

-- What follows the reply to a hello that wants to connect.
abbrev pub connect :
    Serving
    → Moment
    → HashMap Text Text
    → Text
    → LegacyHelloMessage
    → Bool
    → Option LegacyEndpoint
    → Served
connect env m handoffs from_npub hello true (some client_endpoint) =
    start_punch m (insert handoffs hello.nonce from_npub) (informed (info_for env m hello) ∷ [])
      hello.nonce client_endpoint (legacy_punch env m.now)
connect env m handoffs from_npub hello _ _ = record {
  pending_handoffs = handoffs;
  effects = informed (info_for env m hello) ∷ [];
  ending = continues;
}

abbrev pub ignored : HashMap Text Text → Served
ignored handoffs = record { pending_handoffs = handoffs; effects = []; ending = continues }

unfoldable pub handle_hello :
    Serving → Moment → HashMap Text Text → Text → Option LegacyHelloMessage → Served
handle_hello env m handoffs from_npub none = ignored handoffs
handle_hello env m handoffs from_npub (some hello) =
    if not (hello.message_type == text "fips.rendezvous.hello") || is_empty hello.nonce
    then ignored handoffs
    else if not m.sends
    then record { pending_handoffs = handoffs; effects = []; ending = fails }
    else connect env m handoffs from_npub hello hello.wants.fips_connect hello.client_endpoint

abbrev pub concerns : Serving → ℕ → TraversalOffer → Bool
concerns env now offer =
    offer.message_type == offer_type && offer.recipient_npub == env.npub && ltb now offer.expires_at

abbrev pub offer_or_hello :
    Serving
    → Moment
    → HashMap Text Text
    → Text
    → Option TraversalOffer
    → Option LegacyHelloMessage
    → Served
offer_or_hello env m handoffs from_npub none as_hello =
    handle_hello env m handoffs from_npub as_hello
offer_or_hello env m handoffs from_npub (some offer) as_hello =
    if concerns env m.tested_at offer
    then handle_offer env m handoffs offer
    else handle_hello env m handoffs from_npub as_hello

-- A message from `from_npub`, with its content as serde_json reads it as an offer and as a hello.
unfoldable pub handle_message :
    Serving
    → Moment
    → HashMap Text Text
    → Text
    → Option TraversalOffer
    → Option LegacyHelloMessage
    → Served
handle_message env m handoffs from_npub as_offer as_hello =
    if not (is_empty env.trusted_npubs) && not (contains env.trusted_npubs from_npub)
    then record {
      pending_handoffs = handoffs;
      effects = rejected from_npub ∷ [];
      ending = continues;
    }
    else offer_or_hello env m handoffs from_npub as_offer as_hello
