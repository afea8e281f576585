-- ===== src/Console.antt =====
-- The console program: `connect_cli` and `run_console_runtime` of
-- rust/fips-nostr-rendezvous/src/bin/fips-console-client.rs. Its calls `send_offer`, `send_hello` and the
-- others repeat those of fips-video-daemon.rs line by line, and are taken from there.
pub mod Agrees
pub mod Delivers
use fips_nostr_bootstrap.Base.{
  ℕ, suc, ◌==◌, ◌&&◌, text_eq, if◌then◌else◌, Bool, true, false, Option, none, some, List, [], ◌∷◌,
  Text,
}
use fips_nostr_bootstrap.Schema.{
  TraversalAnswer, LegacyEndpoint, LegacyServerInfoMessage, Result, ok, err,
}
use fips_nostr_bootstrap.Trim.{trim, trim_end}
use fips_nostr_bootstrap.Traversal.{is_empty}
use fips_nostr_bootstrap.Planner.Endpoints.{client_planned_remote_endpoints}
use fips_nostr_bootstrap.PunchPacket.{Digest}
use fips_nostr_bootstrap.Client.{ClientState}
use fips_nostr_bootstrap.Client.Calls.{PunchTask, start_punch_plan_and_wait, start_punch_and_wait}
use fips_nostr_bootstrap.Client.Attempts.{Unanswered}
use fips_nostr_bootstrap.Client.Connect.{
  Connecting, Events, ConnectError, Connection, Connect, refuse, or_empty, target_of, offer_to,
  send_offer, send_hello, punch_of_hint, punch_or_default, reason_or_default,
}

-- What comes of a datagram: it is taken by the runtime, the runtime is gone before it takes it or
-- before it responds, or it responds with an error.
pub data Delivery : Type 0 where
  delivered command_channel_closed response_dropped refused : Delivery

pub data ConsoleEffect : Type 0 where
  -- A command `SendDatagram` that the runtime's channel took.
  send_datagram : Text → Text → ConsoleEffect
  -- `[me] …` on the screen.
  shown : Text → ConsoleEffect

pub record ConsoleRun : Type 0 where
  pub effects : List ConsoleEffect
  pub result : Result (Unit {0}) Delivery

module _ (peer_npub : Text) (responses : ℕ → Delivery) where
  abbrev pub sent_with : Text → ConsoleRun → Delivery → ConsoleRun
  sent_with line rest Delivery.delivered = record {
    effects = ConsoleEffect.send_datagram peer_npub line ∷ ConsoleEffect.shown line ∷ rest.effects;
    result = rest.result;
  }
  sent_with line rest Delivery.command_channel_closed = record {
    effects = [];
    result = err Delivery.command_channel_closed;
  }
  sent_with line rest Delivery.response_dropped = record {
    effects = ConsoleEffect.send_datagram peer_npub line ∷ [];
    result = err Delivery.response_dropped;
  }
  sent_with line rest Delivery.refused = record {
    effects = ConsoleEffect.send_datagram peer_npub line ∷ [];
    result = err Delivery.refused;
  }

  -- The loop over the lines of the input, up to its end; `n` datagrams were sent before.
  unfoldable pub run_console_runtime : ℕ → List Text → ConsoleRun
  run_console_runtime n [] = record { effects = []; result = ok tt }
  run_console_runtime n (line ∷ lines) =
      let skipped = run_console_runtime n lines in
      let rest = run_console_runtime (suc n) lines in
      if is_empty (trim_end line) then skipped else sent_with (trim_end line) rest (responses n)

-- As `Events` for `api_connect`; the program hands its session over in any case.
module _ (sha256 : Digest) (env : Connecting) (ev : Events) where
  abbrev pub cli_handed_off : ClientState → Text → Text → LegacyEndpoint → Connect
  cli_handed_off s target_npub session_id remote =
      if ev.handoff_succeeds target_npub session_id remote && ev.is_ip remote.host
      then record {
        state = s;
        udp_shutdown = true;
        result =
            ok (record { target_npub = target_npub; session_id = session_id; remote = remote });
      }
      else record { state = s; udp_shutdown = true; result = err ConnectError.handoff_failed }

  abbrev pub cli_found : ClientState → Text → Text → Option LegacyEndpoint → Connect
  cli_found s target_npub session_id none = refuse s ConnectError.no_punch
  cli_found s target_npub session_id (some established_remote) =
      cli_handed_off s target_npub session_id established_remote

  abbrev pub cli_after_punch : Text → Text → ClientState × Option PunchTask → Connect
  cli_after_punch target_npub session_id (s, none) = refuse s ConnectError.no_punch
  cli_after_punch target_npub session_id (s, some task) =
      cli_found (ev.while_punching s) target_npub session_id (ev.punched task)

  abbrev pub cli_after_hello :
      Text → ClientState × Result LegacyServerInfoMessage Unanswered → Connect
  cli_after_hello target_npub (s, err e) = refuse s (ConnectError.no_server_info e)
  cli_after_hello target_npub (s, ok reply) = cli_after_punch target_npub reply.nonce (
      start_punch_and_wait sha256 ev.is_ip s ev.punch_at reply.nonce reply.endpoint
        (punch_or_default sha256 env ev reply.punch))

  abbrev pub cli_after_offer : Text → ClientState × Result TraversalAnswer Unanswered → Connect
  cli_after_offer target_npub (s, err e) = cli_after_hello target_npub (send_hello sha256 env ev s)
  cli_after_offer target_npub (s, ok answer) =
      if answer.accepted
      then cli_after_punch target_npub ev.offer_id (
          start_punch_plan_and_wait sha256 ev.is_ip s ev.punch_at ev.offer_id
            (client_planned_remote_endpoints (offer_to sha256 env ev target_npub) answer)
            (punch_of_hint sha256 env ev answer.punch))
      else refuse s (ConnectError.rejected (reason_or_default sha256 env ev answer.reason))

  abbrev pub cli_after_target : ClientState × Option Text → Connect
  cli_after_target (s, none) = refuse s ConnectError.no_advert
  cli_after_target (s, some target_npub) =
      if target_npub == env.npub
      then refuse s ConnectError.to_self
      else if ev.decodes target_npub
      then cli_after_offer target_npub (send_offer sha256 env ev s target_npub)
      else refuse s ConnectError.no_npub

  -- `connect_cli` up to the runtime, and its run of the console.
  unfoldable pub establish_cli : ClientState → Option Text → Connect
  establish_cli s npub = cli_after_target (target_of sha256 env ev s (trim (or_empty npub)))

  -- `none` is an error before there is a runtime.
  abbrev pub console_of :
      Result Connection ConnectError → (ℕ → Delivery) → List Text → Option ConsoleRun
  console_of (err e) responses lines = none
  console_of (ok connection) responses lines =
      some (run_console_runtime connection.target_npub responses 0 lines)

  unfoldable pub connect_cli :
      ClientState → Option Text → (ℕ → Delivery) → List Text → Connect × Option ConsoleRun
  connect_cli s npub responses lines =
      let connect = establish_cli s npub in (connect, console_of connect.result responses lines)
