-- ===== src/Tests/Clients.antt =====
-- The client's state, its tasks and its handler at concrete inputs.
use fips_nostr_bootstrap.Base.{
  ℕ, zero, suc, ◌*◌, ◌<◌, ◌≤◌, true, false, ◌≡◌, inr, refl, text_eq, nat_eq, none, some, List, [],
  ◌∷◌, All, Text, text, done, ℕ_discrete, Text-discrete, Texts-discrete, push_unique, arith,
}
use fips_nostr_bootstrap.Base.HashMap.{get, insert}
use fips_nostr_bootstrap.Schema.{
  TraversalOffer, TraversalAnswer, LegacyEndpoint, LegacyServerInfoMessage, ok,
  TraversalAddress-discrete, LegacyEndpoint-discrete,
}
use fips_nostr_bootstrap.PunchPacket.{PunchPacketKind, session_hash, build_punch_packet}
use fips_nostr_bootstrap.Trim.{trim, trim_start, trim_end, strip_all, strip_one}
use fips_nostr_bootstrap.StunUrl.{strip_prefix}
use fips_nostr_bootstrap.Traversal.{
  create_traversal_offer, create_traversal_answer, validate_traversal_answer_for_offer,
  check_content,
}
use fips_nostr_bootstrap.Planner.{plan_punch_targets, same_subnet_24, PlannedPunchTarget-discrete}
use fips_nostr_bootstrap.Planner.Endpoints.{
  client_planned_remote_endpoints, endpoint_from_traversal_address,
  select_remote_endpoint_from_answer,
}
use fips_nostr_bootstrap.Server.{Effect, answered, answer_to, handle_message}
use fips_nostr_bootstrap.Server.Offers.{offer_for}
use fips_nostr_bootstrap.Waiters.{Poll, poll}
use fips_nostr_bootstrap.Client.{
  ClientState, ClientEffect, new_client, handle_datagram, handle_message_in,
}
use fips_nostr_bootstrap.Client.Calls.{
  forget_offer, forget_hello, PunchTask, register_offer, register_punch, start_punch_plan_and_wait,
}
use fips_nostr_bootstrap.Client.Punches.{
  Probe, punch_loop, goals, times, IsProbe, RunsFor, punch_loop-RunsFor,
}
use fips_nostr_bootstrap.Client.Attempts.{Round, got, await_answer, finish_offer, offer_wait_ms}
use fips_nostr_bootstrap.Client.Attempts.Bounded.{DecidedAt, await_answer-DecidedAt}
use fips_nostr_bootstrap.Client.Datagrams.{Handles, handle_datagram-Handles}
use fips_nostr_bootstrap.Client.Steps.{Step, Steps, Reachable}
use fips_nostr_bootstrap.Client.Sound.{IsSound}
use fips_nostr_bootstrap.Client.Sound.Reached.{Reachable-IsSound}
use fips_nostr_bootstrap.Client.Replies.{SparingSteps}
use fips_nostr_bootstrap.Client.Replies.Delivered.{register_offer-answered}
use fips_nostr_bootstrap.Client.Connect.{Connecting, Events, api_connect, send_offer}
use fips_nostr_bootstrap.Client.Connect.Outcome.{IsQuiet, EndsWith}
use fips_nostr_bootstrap.Client.Connect.Run.{api_connect-EndsWith}
use fips_nostr_bootstrap.Tests.Signals.{answer, lan_client, wan_client}
use fips_nostr_bootstrap.Tests.Rendezvous.{client, serving, moment}
use fips_nostr_bootstrap.Tests.Wire.{flat_digest, one_frame}

abbrev pub peer : LegacyEndpoint
peer = record { host = text "198.51.100.20"; port = 63000 }

abbrev punching : ClientState
punching = register_punch flat_digest new_client (text "sess-1")

punching_known :
    get punching.punch_hashes (session_hash flat_digest (text "sess-1")) ≡ some (text "sess-1")
unfolding get session_hash text ℕ_discrete Text-discrete insert
punching_known = refl

abbrev probe : List ℕ
probe = build_punch_packet flat_digest PunchPacketKind.probe (text "sess-1")

abbrev probing : PunchTask
probing = record {
  session_id = text "sess-1";
  remotes = peer ∷ [];
  delay_ms = 0;
  interval_ms = 200;
  duration_ms = 500;
  wait_ms = 5500;
  channel = 0;
}

-- Each round takes 210 ms.
abbrev at_round : ℕ → ℕ
at_round n = n * 210

at_round_on_time : (n : ℕ) → n * 200 ≤ at_round n
at_round_on_time n = omega arith

punch_loop-RunsFor_example :
    (probes : List Probe) × (rounds : ℕ) × (punch_loop flat_digest probing at_round 501 0
      ≡ done probes)
    × All (IsProbe flat_digest probing at_round) probes
    × (goals probes ≡ times rounds (peer ∷ []))
    × RunsFor flat_digest probing at_round 0 rounds
    × (rounds * 200 < 700)
punch_loop-RunsFor_example =
    punch_loop-RunsFor flat_digest probing at_round (omega arith) at_round_on_time

three_rounds :
    punch_loop flat_digest probing at_round 501 0
    ≡ done ((peer, probe) ∷ (peer, probe) ∷ (peer, probe) ∷ [])
unfolding punch_loop
three_rounds = refl

handle_datagram-Handles_example :
    (t : ClientState) × (effects : List (ClientEffect ℕ)) × (handle_datagram one_frame flat_digest
        punching peer probe
      ≡ done (t, effects))
    × Handles one_frame flat_digest punching peer probe t effects
handle_datagram-Handles_example = handle_datagram-Handles one_frame flat_digest punching peer probe

punching_reached : Reachable one_frame flat_digest punching
punching_reached =
    Steps.then_step new_client new_client punching (Steps.none_more new_client)
      (Step.punches new_client (text "sess-1"))

Reachable-IsSound_example :
    IsSound flat_digest punching
    × ((nonce : Text) (channel : ℕ)
        → get punching.pending_answer.pending nonce ≡ some channel
        → poll (forget_offer punching nonce).pending_answer channel ≡ Poll.closed)
    × ((session_id : Text) (channel : ℕ)
        → get punching.pending_server_info.pending session_id ≡ some channel
        → poll (forget_hello punching session_id).pending_server_info channel ≡ Poll.closed)
Reachable-IsSound_example = Reachable-IsSound flat_digest one_frame punching punching_reached

abbrev silence : ℕ → Round TraversalAnswer
silence n = Round.elapsed (suc n * 3000)

silence_on_time : (n time : ℕ) → silence n ≡ Round.elapsed time → suc n * 3000 ≤ time
silence_on_time n time e = ground arith

await_answer-DecidedAt_example :
    (k : ℕ) × ((k < 5) × DecidedAt offer_wait_ms silence k (await_answer silence))
await_answer-DecidedAt_example = await_answer-DecidedAt silence silence_on_time

five_offers : (await_answer silence).sends ≡ 5
unfolding await_answer
five_offers = refl

abbrev pub no_info : ℕ → Round LegacyServerInfoMessage
no_info n = Round.elapsed (suc n * 5000)

no_info_on_time : (n time : ℕ) → no_info n ≡ Round.elapsed time → suc n * 5000 ≤ time
no_info_on_time n time e = ground arith

abbrev offering : ClientState
offering = register_offer new_client (text "sess-1")

abbrev offered : TraversalOffer
offered =
    offer_for serving (text "sess-1") (text "sess-1") client 1_700_000_000_000 60_000
      (some wan_client) (lan_client ∷ [])

register_offer-answered_example :
    let a = answer_to serving moment offered in
    let u = handle_message_in offering (some a) none in
    (rest : List Effect) × ((handle_message serving moment [] client (some offered) none).effects
      ≡ answered a ∷ rest)
    × (poll u.pending_answer 0 ≡ Poll.ready a)
    × (finish_offer u 1_700_000_000_900 offered (got a) ≡ (u, ok a))
unfolding text Text-discrete ℕ_discrete answer_to create_traversal_answer create_traversal_offer
register_offer-answered_example =
    register_offer-answered one_frame flat_digest serving moment [] (text "sess-1") (text "sess-1")
      client 1_700_000_000_000 60_000 (some wan_client) (lan_client ∷ []) new_client offering
      (handle_message_in offering (some (answer_to serving moment offered)) none) client none none
      1_700_000_000_900 (Steps.none_more new_client) (SparingSteps.none_more offering)
      (Steps.none_more (handle_message_in offering (some (answer_to serving moment offered)) none))
      (inr refl) refl (omega arith) (omega arith) (omega arith) (omega arith)

abbrev pub connecting : Connecting
connecting = record {
  npub = client;
  discovery_enabled = false;
  handoff_fips = false;
  punch_interval_ms = 300;
  punch_duration_ms = 30000;
  punch_start_delay_ms = 800;
}

abbrev pub replies : ℕ → Round TraversalAnswer
replies zero = Round.elapsed 3000
replies (suc n) = Round.replied (record answer { in_reply_to = text "sess-1" })

-- The answer comes in the second round, and the peer's probe from its WAN address.
abbrev pub events : Events
events = record {
  from_str = λ t. none;
  fetched = none;
  searched_at = 1_700_000_000_000;
  decodes = λ npub. true;
  is_ip = λ host. true;
  offers = true;
  offer_id = text "sess-1";
  issued_at = 1_700_000_000_000;
  reflexive_address = some wan_client;
  local_addresses = lan_client ∷ [];
  offer_rounds = replies;
  answered_at = 1_700_000_004_000;
  greets = true;
  hello_id = text "hello-1";
  hello_rounds = no_info;
  punch_at = 1_700_000_004_000;
  punched = λ task. some peer;
  handoff_succeeds = λ npub session_id remote. true;
  before_offer = λ s. s;
  while_offered = λ s. s;
  before_hello = λ s. s;
  while_greeting = λ s. s;
  while_punching = λ s. s;
}

quiet : IsQuiet events
quiet = record {
  before_offer = λ s. refl;
  while_offered = λ s. refl;
  before_hello = λ s. refl;
  while_greeting = λ s. refl;
  while_punching = λ s. refl;
}

api_connect-EndsWith_example :
    EndsWith flat_digest connecting events none
      (api_connect flat_digest connecting events new_client (some (text "npub1server")))
api_connect-EndsWith_example =
    api_connect-EndsWith flat_digest connecting events quiet new_client (some (text "npub1server"))

connects :
    (api_connect flat_digest connecting events new_client (some (text "npub1server"))).result
    ≡ ok (record { target_npub = text "npub1server"; session_id = text "sess-1"; remote = peer })
unfolding api_connect text trim trim_start trim_end strip_all strip_one strip_prefix ℕ_discrete
    Text-discrete send_offer await_answer finish_offer create_traversal_offer
    create_traversal_answer validate_traversal_answer_for_offer check_content
    start_punch_plan_and_wait client_planned_remote_endpoints plan_punch_targets same_subnet_24
    push_unique endpoint_from_traversal_address select_remote_endpoint_from_answer Texts-discrete
    PlannedPunchTarget-discrete TraversalAddress-discrete LegacyEndpoint-discrete
connects = refl
