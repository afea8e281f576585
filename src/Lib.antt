-- ===== src/Lib.antt =====
-- FIPS nostr bootstrap: two peers find each other over Nostr relays, exchange an offer and an
-- answer with their addresses, punch their NATs with UDP packets at an agreed time, and hand the
-- socket over to FIPS. The files translate the Rust code of the repository.
--
-- Base.antt: the shared layer. Native numbers, Boolean tests, `Run` (code that may panic on an
--   index or a slice, or run out of fuel), vectors without duplicates, machine words, decimal
--   numbers, a `HashMap` as an association list.
-- Schema.antt: the constants and the messages of rust/fips-nostr-rendezvous/src/lib.rs, the
--   serde records with the fields of the structs, the errors of `RendezvousError`.
-- StunUrl.antt: `parse_stun_url`, with what it accepts and refuses.
-- PunchPacket.antt: `session_hash`, `build_punch_packet`, `parse_punch_packet`. SHA-256 is a
--   parameter, a function from bytes to 32 bytes.
-- SessionFrames.antt: `encode_session_frame`, `decode_session_frame`. serde_json is a parameter:
--   a printer, a parser, and the law that the parser reads what the printer wrote.
-- Traversal.antt: `create_traversal_offer`, `create_traversal_answer`,
--   `validate_traversal_answer_for_offer`, guard by guard in the order of the code.
-- Planner.antt: `plan_punch_targets`, five loops that push a target unless it is there; the
--   children compare it with an independent description. Planner/Endpoints.antt is what the
--   daemons make of a plan: `planned_remote_endpoints_from_offer_answer` of
--   rust/fips-nostr-rendezvous/src/bin/fips-video-daemon.rs and of bin/fips-console-server.rs.
-- PunchWindow.antt: `negotiate_punch_window`, `build_punch_attempt_schedule`. The loop's fuel is
--   the number of attempts and one more, which is enough since each turn pushes one attempt.
-- Stun.antt: the STUN client of bin/fips-video-daemon.rs, its slices and indices checked. The
--   fuel of the attribute loop is the packet's length and one more: each turn moves the offset on.
-- Video.antt: frames cut into datagrams by `send_video_frame` and put together by
--   `accept_video_datagram` of bin/fips-video-daemon.rs.
-- Adverts.antt: the advert cache of bin/fips-video-daemon.rs (`refresh_advert_cache`,
--   `list_advertised_peers`, `find_advertised_peer`) and the advert of `publish_advert` of
--   bin/fips-console-server.rs. The events that the relays give, the parser of their contents and the
--   clock are arguments; a `HashMap` is listed in the order of the model.
-- Relays.antt: `parse_csv_env_list`, `find_recipient_inbox_relays` and `preferred_dm_relays` of
--   bin/fips-video-daemon.rs. An inbox event is its time and the relays that the nostr crate finds in it.
-- Observation.antt: `refresh_traversal_observation`, `local_client_endpoint` and
--   `local_traversal_addresses` of bin/fips-video-daemon.rs. The socket's port, the host's address,
--   the monotonic clock and the servers' answers are arguments of a call.
-- Waiters.antt: the maps of `oneshot` senders (`pending_stun`, `pending_answer` and others), with the
--   values that were sent and what a receiver finds.
-- Client.antt: the shared state of bin/fips-video-daemon.rs (`AppState`) and its two tasks in `main`:
--   `handle_datagram` is the body of the UDP task, `handle_message_in` and `handle_advert` that of the
--   notification task. Client/Calls.antt is what `probe_stun_server`, `send_offer`, `send_hello`,
--   `start_punch_and_wait` and `start_punch_plan_and_wait` do to the state, Client/Attempts.antt the
--   loops that send an offer or a hello again, Client/Connect.antt `api_connect`,
--   Client/Punches.antt the task that sends the probes, on fuel of a round for each millisecond. Client/Steps.antt
--   puts the tasks and the calls into one relation, a step for each hold of a lock. The fuel of
--   the loops is the time to wait over the time of a round, 5 and 12 rounds. In `api_connect` what
--   other tasks do during a wait is a function on the state.
-- Console.antt: `connect_cli` and `run_console_runtime` of bin/fips-console-client.rs. The methods of its
--   `AppState` repeat those of fips-video-daemon.rs and are taken from Client.antt and its children.
-- Server.antt: the notification task of bin/fips-console-server.rs on a private message (in `main`),
--   with `start_punch` and `start_punch_plan`: `handle_message` is its body, `handle_offer` and
--   `handle_hello` its two parts. What it sends and spawns is a list of effects.
--   Server/Udp.antt is the UDP task of the same program: `serve_datagram` is the body of its loop,
--   `ensure_session` and `send_shell_result` the functions of those names; its children let it meet
--   the client, whose `send_shell_frame`, `api_cmd` and `api_ctrlc` (bin/fips-web-daemon.rs) stand in
--   Client/Shells.antt.
-- Shell.antt: the shell sessions of bin/fips-console-server.rs: `handle_shell_command`,
--   `handle_shell_interrupt` and the end of a spawned task (`end_task`). Shell/Steps.antt is what can
--   happen to a session, in any order. Trim.antt is `str::trim`.
-- Bootstrap.antt: the client of rust/bootstrap-client/src: the messages and checks of schema.rs, the
--   hello and the waiting loop of main.rs. Bootstrap/Replies.antt lets it meet the console server.
--   Bootstrap/Probing.antt is its mode connect, the probes and the handoff (handoff.rs); the fuel of the
--   probe loop is a round that begins after the window, and one more.
-- Mobile.antt: mobile/flutter_fips_client/rust/src/api.rs, the wait of `run_bootstrap` and `run_echo`.
-- Tests.antt: runs at concrete inputs.
--
-- How they meet: a message of Schema is built and checked by Traversal, its addresses go through
-- Planner into endpoints, the window of the answer into a schedule of PunchWindow, and the
-- datagrams sent then are those of PunchPacket; Stun gives the reflexive addresses, and a socket
-- that sees both punch packets and session frames tells them apart by their magic.
--
-- Machine words keep their wrap-around, as release builds do; an index or slice out of range panics in
-- `Run`. `Instant` and random values are arguments. Text is the list of its bytes.
--
-- Not here: Nostr's events, encryption and relays (the nostr-sdk crate), sockets and tasks, the
-- HTTP handlers, the FIPS node itself, logging, and the code in TypeScript, Dart, Kotlin and Go.
pub mod Adverts
pub mod Base
pub mod Bootstrap
pub mod Client
pub mod Console
pub mod Mobile
pub mod Observation
pub mod Planner
pub mod PunchPacket
pub mod PunchWindow
pub mod Relays
pub mod Schema
pub mod Server
pub mod SessionFrames
pub mod Shell
pub mod Stun
pub mod StunUrl
pub mod Tests
pub mod Traversal
pub mod Trim
pub mod Video
pub mod Waiters
