-- ===== src/Tests/Servers.antt =====
-- The server's UDP task at concrete inputs, with a client.
use fips_nostr_bootstrap.Base.{
  ℕ, saturating_sub, add64, ◌≡◌, ◌≤◌, refl, ◌==◌, text_eq, is_yes, if◌then◌else◌, true, false,
  Option, none, some, List, [], ◌∷◌, ◌++◌, Text, text, done, ℕ_discrete, Text-discrete, arith,
}
use fips_nostr_bootstrap.Schema.{LegacyEndpoint, LegacyPunch, SessionFrame}
use fips_nostr_bootstrap.Trim.{trim}
use fips_nostr_bootstrap.PunchPacket.{PunchPacketKind, build_punch_packet}
use fips_nostr_bootstrap.SessionFrames.{FrameJson, frame_magic, encode_session_frame}
use fips_nostr_bootstrap.Shell.{ShellResult}
use fips_nostr_bootstrap.Waiters.{Poll, poll, no_waiters}
use fips_nostr_bootstrap.Client.{
  ClientState, ActiveSession, new_client, emitted_result, handle_datagram,
}
use fips_nostr_bootstrap.Client.Calls.{
  PunchTask, register_punch, start_punch_plan_and_wait, set_active_session,
}
use fips_nostr_bootstrap.Client.Shells.{Outgoing, api_cmd, send_shell_frame}
use fips_nostr_bootstrap.Server.Udp.{
  UdpState, UdpRun, UdpMoment, Next, ShellPayload, Arrival, sent, commanded, ensure_session,
  register_session_hash, serve_datagram, send_shell_result, udp_loop,
}
use fips_nostr_bootstrap.Server.Udp.Meeting.{due, start_punch_plan_and_wait-serve_datagram}
use fips_nostr_bootstrap.Server.Udp.Relayed.{
  api_cmd-serve_datagram, send_shell_result-handle_datagram,
}
use fips_nostr_bootstrap.Server.Udp.Sessions.{IsServed, handovers}
use fips_nostr_bootstrap.Server.Udp.Once.{serve_datagram-IsServed, udp_loop-once}
use fips_nostr_bootstrap.Tests.Rendezvous.{client}
use fips_nostr_bootstrap.Tests.Wire.{flat_digest}

-- A JSON value with the members `id` and `cmd`.
abbrev pub Pair : Type 0
Pair = Text × Text

abbrev pub pair_payload : ShellPayload Pair
unfolding text ℕ_discrete Text-discrete
pair_payload = record {
  get_str =
      λ v key. if key == text "id" then some v.0 else if key == text "cmd" then some v.1 else none;
  request = λ id cmd. (id, cmd);
  stamp = λ now. ([], []);
  result = λ r now. (r.stdout, r.stderr);
  get_str-request_id = λ id cmd. refl;
  get_str-request_cmd = λ id cmd. refl;
}

frame_discrete : Discrete (SessionFrame Pair)
unfolding ℕ_discrete Text-discrete
frame_discrete = hlevel (ℕ_discrete, Text-discrete)

-- A JSON that knows one frame.
pub write_only : SessionFrame Pair → SessionFrame Pair → Option (List ℕ)
write_only known f = if is_yes (frame_discrete f known) then some (b'{' ∷ b'}' ∷ []) else none

pub read_only : SessionFrame Pair → List ℕ → Option (SessionFrame Pair)
read_only known bytes = if bytes == (b'{' ∷ b'}' ∷ []) then some known else none

pub read_only-write_only :
    (known f : SessionFrame Pair) (bytes : List ℕ)
    → write_only known f ≡ some bytes
    → read_only known bytes ≡ some f
unfolding write_only read_only
read_only-write_only known f bytes e = ground arith

abbrev pub only : SessionFrame Pair → FrameJson Pair
only known = record {
  to_vec = write_only known;
  from_slice = read_only known;
  from_slice-to_vec = read_only-write_only known;
}

abbrev pub client_at : LegacyEndpoint
client_at = record { host = text "203.0.113.10"; port = 62000 }

abbrev server_at : LegacyEndpoint
server_at = record { host = text "198.51.100.20"; port = 63000 }

abbrev session : Text
session = text "sess-1"

abbrev active : ActiveSession
active = record { session_id = session; remote = server_at }

abbrev pub asked : SessionFrame Pair
asked = record {
  session_id = session;
  frame_type = text "request";
  channel = some (text "shell");
  payload = (text "1", text " ls ");
  at = 42;
}

abbrev out : Outgoing
out = record { to = server_at; bytes = frame_magic ++ (b'{' ∷ b'}' ∷ []) }

abbrev pub here : UdpMoment
here = record {
  handoff_fips = true;
  current_dir = text "/srv";
  interrupt_id = text "interrupt-5";
  handoff_succeeds = true;
}

abbrev pub listening : UdpState
listening = record {
  pending_stun = no_waiters;
  sessions = [];
  session_hashes = [];
  pending_handoffs = (session, client) ∷ [];
  handoff_socket = true;
}

command_sent :
    api_cmd (only asked) pair_payload (λ host. true) (some active) 42 false (text "1") (text " ls ")
    ≡ some out
unfolding api_cmd send_shell_frame encode_session_frame write_only frame_discrete text
command_sent = refl

api_cmd-serve_datagram_example :
    (server_at ≡ server_at)
    × (serve_datagram (only asked) pair_payload flat_digest here listening client_at out.bytes
        ≡ done (record {
          state = (ensure_session here listening session client_at).0;
          effects = commanded session (some (text "1")) (trim (text " ls ")) ∷ [];
          next = Next.goes_on;
        }))
api_cmd-serve_datagram_example =
    api_cmd-serve_datagram (only asked) pair_payload flat_digest here (λ host. true) active 42
      (text "1") (text " ls ") out listening client_at command_sent

abbrev listed : ShellResult
listed = record {
  id = some (text "1");
  command = text "ls";
  ok = true;
  code = 0;
  stdout = text "www";
  stderr = [];
  cwd = text "/srv";
}

abbrev shown : SessionFrame Pair
shown = record {
  session_id = session;
  frame_type = text "response";
  channel = some (text "shell_result");
  payload = (text "www", []);
  at = 43;
}

result_written :
    send_shell_result (only shown) pair_payload session listed 43
    ≡ some (frame_magic ++ (b'{' ∷ b'}' ∷ []))
unfolding send_shell_result encode_session_frame write_only frame_discrete text
result_written = refl

send_shell_result-handle_datagram_example :
    handle_datagram
      (only shown)
      flat_digest
      (set_active_session new_client session server_at)
      server_at
      (frame_magic ++ (b'{' ∷ b'}' ∷ []))
    ≡ done (
      set_active_session new_client session server_at,
      emitted_result (pair_payload.result listed 43) ∷ [],
    )
send_shell_result-handle_datagram_example =
    send_shell_result-handle_datagram (only shown) pair_payload flat_digest here session listed 43
      (frame_magic ++ (b'{' ∷ b'}' ∷ [])) (set_active_session new_client session server_at) active
      result_written refl refl

abbrev soon : LegacyPunch
soon = record { start_at_ms = 100; interval_ms = 300; duration_ms = 30000 }

abbrev task : PunchTask
task = record {
  session_id = session;
  remotes = server_at ∷ [];
  delay_ms = saturating_sub soon.start_at_ms 40;
  interval_ms = 300;
  duration_ms = 30000;
  wait_ms = add64 30000 5000;
  channel = 0;
}

punch_begun :
    start_punch_plan_and_wait flat_digest (λ host. true) new_client 40 session (server_at ∷ []) soon
    ≡ (register_punch flat_digest new_client session, some task)
unfolding start_punch_plan_and_wait
punch_begun = refl

start_punch_plan_and_wait-serve_datagram_example :
    let known = register_session_hash flat_digest listening session in
    let ack = build_punch_packet flat_digest PunchPacketKind.ack session in
    (run : UdpRun) × (c' : ClientState) × (serve_datagram
        (only asked)
        pair_payload
        flat_digest
        here
        known
        client_at
        (build_punch_packet flat_digest PunchPacketKind.probe session)
      ≡ done run)
    × (run.effects ≡ sent client_at ack ∷ due here listening session client_at)
    × (handle_datagram
          (only asked)
          flat_digest
          (register_punch flat_digest new_client session)
          server_at
          ack
        ≡ done (c', []))
    × (poll c'.pending_punch 0 ≡ Poll.ready server_at)
start_punch_plan_and_wait-serve_datagram_example =
    start_punch_plan_and_wait-serve_datagram (only asked) pair_payload flat_digest here listening
      new_client (register_punch flat_digest new_client session) (λ host. true) 40 session
      (server_at ∷ []) soon task client_at server_at punch_begun

serve_datagram-IsServed_example :
    (run : UdpRun) × (serve_datagram
        (only asked)
        pair_payload
        flat_digest
        here
        listening
        client_at
        out.bytes
      ≡ done run)
    × IsServed here listening client_at run
serve_datagram-IsServed_example =
    serve_datagram-IsServed (only asked) pair_payload flat_digest here listening client_at out.bytes

-- Two probes.
abbrev arrivals : List Arrival
arrivals =
    record {
      since = λ s. register_session_hash flat_digest s session;
      moment = here;
      remote = client_at;
      packet = build_punch_packet flat_digest PunchPacketKind.probe session;
    }
    ∷ record {
      since = λ s. s;
      moment = here;
      remote = client_at;
      packet = build_punch_packet flat_digest PunchPacketKind.probe session;
    }
    ∷ []

udp_loop-once_example :
    (run : UdpRun) × (udp_loop (only asked) pair_payload flat_digest arrivals listening ≡ done run)
    × (handovers run.effects ≤ 1)
udp_loop-once_example = udp_loop-once (only asked) pair_payload flat_digest arrivals listening
