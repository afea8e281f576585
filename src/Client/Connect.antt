-- ===== src/Client/Connect.antt =====
-- `api_connect` of rust/fips-nostr-rendezvous/src/bin/fips-video-daemon.rs with `send_offer` and
-- `send_hello`. What other tasks do while it waits is a parameter.
pub mod Outcome
pub mod Run
pub mod Connects
use fips_nostr_bootstrap.Base.{
  ℕ, ◌==◌, ◌&&◌, text_eq, add64, if◌then◌else◌, Bool, true, false, Option, none, some, List, [],
  ◌∷◌, Text, text,
}
use fips_nostr_bootstrap.Schema.{
  TraversalAdvert, TraversalAddress, PunchHint, TraversalOffer, TraversalAnswer, LegacyEndpoint,
  LegacyPunch, LegacyServerInfoMessage, Result, ok, err,
}
use fips_nostr_bootstrap.Trim.{trim}
use fips_nostr_bootstrap.Traversal.{create_traversal_offer, is_empty}
use fips_nostr_bootstrap.Planner.Endpoints.{client_planned_remote_endpoints}
use fips_nostr_bootstrap.Adverts.{Fetched, list_advertised_peers, find_advertised_peer}
use fips_nostr_bootstrap.PunchPacket.{Digest}
use fips_nostr_bootstrap.Client.{ClientState}
use fips_nostr_bootstrap.Client.Calls.{
  PunchTask, register_offer, register_hello, start_punch_plan_and_wait, start_punch_and_wait,
  set_active_session,
}
use fips_nostr_bootstrap.Client.Attempts.{
  Round, Unanswered, await_answer, await_server_info, finish_offer, finish_hello,
}

-- The settings that the handler reads.
pub record Connecting : Type 0 where
  pub npub : Text
  pub discovery_enabled : Bool
  pub handoff_fips : Bool
  pub punch_interval_ms : ℕ
  pub punch_duration_ms : ℕ
  pub punch_start_delay_ms : ℕ

-- What the calls of one run of the handler give. The two messages are sent under fresh session ids;
-- `decodes` says whether a text is the npub of a key, and `is_ip` whether a host is an address.
pub record Events : Type 0 where
  pub from_str : Text → Option TraversalAdvert
  pub fetched : Option (List Fetched)
  pub searched_at : ℕ
  pub decodes : Text → Bool
  pub is_ip : Text → Bool
  -- `send_offer`: whether it comes to its loop, with what it puts into the offer, and its rounds.
  pub offers : Bool
  pub offer_id : Text
  pub issued_at : ℕ
  pub reflexive_address : Option TraversalAddress
  pub local_addresses : List TraversalAddress
  pub offer_rounds : ℕ → Round TraversalAnswer
  pub answered_at : ℕ
  -- `send_hello`, likewise.
  pub greets : Bool
  pub hello_id : Text
  pub hello_rounds : ℕ → Round LegacyServerInfoMessage
  -- The punch: the clock when it is planned, and what the receiver finds before the timeout.
  pub punch_at : ℕ
  pub punched : PunchTask → Option LegacyEndpoint
  -- `take_handoff_socket` and `handoff_established_app_runtime`
  pub handoff_succeeds : Text → Text → LegacyEndpoint → Bool
  -- What is done to the state before the offer and the hello are registered, by `find_advertised_peer`,
  -- by the observation of the addresses and by the other tasks, and by these while the offer, the
  -- hello and the punch are waited for.
  pub before_offer : ClientState → ClientState
  pub while_offered : ClientState → ClientState
  pub before_hello : ClientState → ClientState
  pub while_greeting : ClientState → ClientState
  pub while_punching : ClientState → ClientState

pub data ConnectError : Type 0 where
  no_advert to_self no_npub : ConnectError
  rejected : Text → ConnectError
  no_server_info : Unanswered → ConnectError
  no_punch handoff_failed : ConnectError

pub record Connection : Type 0 where
  pub target_npub : Text
  pub session_id : Text
  pub remote : LegacyEndpoint

-- The state when the handler ends, whether it has told the UDP task to stop, and its response.
pub record Connect : Type 0 where
  pub state : ClientState
  pub udp_shutdown : Bool
  pub result : Result Connection ConnectError

abbrev pub refuse : ClientState → ConnectError → Connect
refuse s e = record { state = s; udp_shutdown = false; result = err e }

abbrev pub or_empty : Option Text → Text
or_empty none = []
or_empty (some npub) = npub

module _ (sha256 : Digest) (env : Connecting) (ev : Events) where
  abbrev pub first_publisher : List TraversalAdvert → Option Text
  first_publisher [] = none
  first_publisher (advert ∷ adverts) = some advert.publisher_npub

  -- Whom to connect to: the peer that is asked for, or the first that is listed; and the cache after it.
  abbrev pub target_of : ClientState → Text → ClientState × Option Text
  target_of s npub =
      if is_empty npub
      then (let (cache, peers) =
            list_advertised_peers ev.from_str env.discovery_enabled env.npub s.advert_cache
              ev.fetched ev.searched_at 1 in
          (record s { advert_cache = cache }, first_publisher peers))
      else if env.discovery_enabled
      then (
        record s {
          advert_cache =
              (find_advertised_peer ev.from_str s.advert_cache ev.fetched ev.searched_at npub).0;
        },
        some npub,
      )
      else (s, some npub)

  abbrev pub offer_to : Text → TraversalOffer
  offer_to target_npub =
      create_traversal_offer ev.offer_id ev.issued_at 60000 ev.offer_id env.npub target_npub
        ev.reflexive_address ev.local_addresses

  unfoldable pub send_offer : ClientState → Text → ClientState × Result TraversalAnswer Unanswered
  send_offer s target_npub =
      if ev.offers
      then finish_offer (ev.while_offered (register_offer (ev.before_offer s) ev.offer_id))
          ev.answered_at (offer_to target_npub) (await_answer ev.offer_rounds).outcome
      else (ev.before_offer s, err Unanswered.not_sent)

  unfoldable pub send_hello : ClientState → ClientState × Result LegacyServerInfoMessage Unanswered
  send_hello s =
      if ev.greets
      then finish_hello (ev.while_greeting (register_hello (ev.before_hello s) ev.hello_id))
          ev.hello_id (await_server_info ev.hello_rounds).outcome
      else (ev.before_hello s, err Unanswered.not_sent)

  -- `LegacyPunch { start_at_ms: now_ms() + state.punch_start_delay_ms, … }`
  abbrev pub default_punch : LegacyPunch
  default_punch = record {
    start_at_ms = add64 ev.punch_at env.punch_start_delay_ms;
    interval_ms = env.punch_interval_ms;
    duration_ms = env.punch_duration_ms;
  }

  abbrev pub punch_of_hint : Option PunchHint → LegacyPunch
  punch_of_hint none = default_punch
  punch_of_hint (some punch) = record {
    start_at_ms = punch.start_at_ms;
    interval_ms = punch.interval_ms;
    duration_ms = punch.duration_ms;
  }

  abbrev pub punch_or_default : Option LegacyPunch → LegacyPunch
  punch_or_default none = default_punch
  punch_or_default (some punch) = punch

  -- The handler's end, with a remote that was punched; that its status can be put into JSON is taken for
  -- granted.
  abbrev pub handed_off : ClientState → Text → Text → LegacyEndpoint → Connect
  handed_off s target_npub session_id remote =
      if env.handoff_fips
      then if ev.handoff_succeeds target_npub session_id remote && ev.is_ip remote.host
        then record {
          state = set_active_session s session_id remote;
          udp_shutdown = true;
          result =
              ok (record { target_npub = target_npub; session_id = session_id; remote = remote });
        }
        else record { state = s; udp_shutdown = true; result = err ConnectError.handoff_failed }
      else record {
        state = set_active_session s session_id remote;
        udp_shutdown = false;
        result =
            ok (record { target_npub = target_npub; session_id = session_id; remote = remote });
      }

  abbrev pub found : ClientState → Text → Text → Option LegacyEndpoint → Connect
  found s target_npub session_id none = refuse s ConnectError.no_punch
  found s target_npub session_id (some remote) = handed_off s target_npub session_id remote

  abbrev pub after_punch : Text → Text → ClientState × Option PunchTask → Connect
  after_punch target_npub session_id (s, none) = refuse s ConnectError.no_punch
  after_punch target_npub session_id (s, some task) =
      found (ev.while_punching s) target_npub session_id (ev.punched task)

  abbrev pub after_hello : Text → ClientState × Result LegacyServerInfoMessage Unanswered → Connect
  after_hello target_npub (s, err e) = refuse s (ConnectError.no_server_info e)
  after_hello target_npub (s, ok reply) = after_punch target_npub reply.nonce (
      start_punch_and_wait sha256 ev.is_ip s ev.punch_at reply.nonce reply.endpoint
        (punch_or_default reply.punch))

  abbrev pub reason_or_default : Option Text → Text
  reason_or_default none = text "traversal answer rejected"
  reason_or_default (some reason) = reason

  -- An offer without an answer falls back to the hello.
  abbrev pub after_offer : Text → ClientState × Result TraversalAnswer Unanswered → Connect
  after_offer target_npub (s, err e) = after_hello target_npub (send_hello s)
  after_offer target_npub (s, ok answer) =
      if answer.accepted
      then after_punch target_npub ev.offer_id (
          start_punch_plan_and_wait sha256 ev.is_ip s ev.punch_at ev.offer_id
            (client_planned_remote_endpoints (offer_to target_npub) answer)
            (punch_of_hint answer.punch))
      else refuse s (ConnectError.rejected (reason_or_default answer.reason))

  abbrev pub after_target : ClientState × Option Text → Connect
  after_target (s, none) = refuse s ConnectError.no_advert
  after_target (s, some target_npub) =
      if target_npub == env.npub
      then refuse s ConnectError.to_self
      else if ev.decodes target_npub
      then after_offer target_npub (send_offer s target_npub)
      else refuse s ConnectError.no_npub

  unfoldable pub api_connect : ClientState → Option Text → Connect
  api_connect s npub = after_target (target_of s (trim (or_empty npub)))
