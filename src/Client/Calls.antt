-- ===== src/Client/Calls.antt =====
-- What the calls of the client do to the shared state before they wait, and after: `probe_stun_server`,
-- `send_offer`, `send_hello`, `start_punch_and_wait`, `start_punch_plan_and_wait` and
-- `set_active_session` of rust/fips-nostr-rendezvous/src/bin/fips-video-daemon.rs.
use fips_nostr_bootstrap.Base.{
  ℕ, saturating_sub, add64, text_eq, if◌then◌else◌, Bool, Option, none, some, List, [], ◌∷◌, Text,
}
use fips_nostr_bootstrap.Base.HashMap.{insert}
use fips_nostr_bootstrap.Schema.{
  StunEndpoint, LegacyEndpoint, LegacyPunch, RendezvousError, Result, ok, err,
}
use fips_nostr_bootstrap.StunUrl.{parse_stun_url}
use fips_nostr_bootstrap.Stun.{create_stun_binding_request}
use fips_nostr_bootstrap.Traversal.{is_empty}
use fips_nostr_bootstrap.PunchPacket.{Digest, session_hash}
use fips_nostr_bootstrap.Server.{all_ip}
use fips_nostr_bootstrap.Waiters.{Poll, register, forget}
use fips_nostr_bootstrap.Client.{ClientState}

-- A probe under way: where the request goes, the request, and the channel of its answer.
pub record StunProbe : Type 0 where
  pub endpoint : StunEndpoint
  pub request : List ℕ
  pub channel : ℕ

abbrev pub register_probe : ClientState → Text → ClientState
register_probe s txn_id = record s { pending_stun = register s.pending_stun txn_id }

abbrev pub begin_probe :
    ClientState
    → Text
    → Result StunEndpoint RendezvousError
    → ClientState × Result StunProbe RendezvousError
begin_probe s txn_id (err e) = (s, err e)
begin_probe s txn_id (ok endpoint) = (
  register_probe s txn_id,
  ok (record {
    endpoint = endpoint;
    request = create_stun_binding_request txn_id;
    channel = s.pending_stun.next;
  }),
)

-- `probe_stun_server` up to its wait.
unfoldable pub probe_stun_server :
    ClientState → Text → Text → ClientState × Result StunProbe RendezvousError
probe_stun_server s stun_url txn_id = begin_probe s txn_id (parse_stun_url stun_url)

-- Its end: what the receiver finds before the timeout. The entry of the map stays if it finds nothing.
abbrev pub finish_probe : Poll LegacyEndpoint → Option LegacyEndpoint
finish_probe (Poll.ready mapped) = some mapped
finish_probe Poll.waiting = none
finish_probe Poll.closed = none

abbrev pub register_offer : ClientState → Text → ClientState
register_offer s nonce = record s { pending_answer = register s.pending_answer nonce }

abbrev pub forget_offer : ClientState → Text → ClientState
forget_offer s nonce = record s { pending_answer = forget s.pending_answer nonce }

abbrev pub register_hello : ClientState → Text → ClientState
register_hello s session_id = record s {
  pending_server_info = register s.pending_server_info session_id;
}

abbrev pub forget_hello : ClientState → Text → ClientState
forget_hello s session_id = record s {
  pending_server_info = forget s.pending_server_info session_id;
}

-- A punch under way: the task that sends the probes, how long the call waits, and on which channel.
pub record PunchTask : Type 0 where
  pub session_id : Text
  pub remotes : List LegacyEndpoint
  pub delay_ms : ℕ
  pub interval_ms : ℕ
  pub duration_ms : ℕ
  pub wait_ms : ℕ
  pub channel : ℕ

module _ (sha256 : Digest) where
  abbrev pub register_punch : ClientState → Text → ClientState
  register_punch s session_id = record s {
    pending_punch = register s.pending_punch session_id;
    punch_hashes = insert s.punch_hashes (session_hash sha256 session_id) session_id;
  }

  abbrev pub begin_punch :
      ClientState → ℕ → Text → List LegacyEndpoint → LegacyPunch → ClientState × Option PunchTask
  begin_punch s now session_id remotes punch = (
    register_punch s session_id,
    some (record {
      session_id = session_id;
      remotes = remotes;
      delay_ms = saturating_sub punch.start_at_ms now;
      interval_ms = punch.interval_ms;
      duration_ms = punch.duration_ms;
      wait_ms = add64 punch.duration_ms 5000;
      channel = s.pending_punch.next;
    }),
  )

  -- `start_punch_plan_and_wait` up to its wait. No remote is an error, and so is a host that is no
  -- IP address.
  unfoldable pub start_punch_plan_and_wait :
      (Text → Bool)
      → ClientState
      → ℕ
      → Text
      → List LegacyEndpoint
      → LegacyPunch
      → ClientState × Option PunchTask
  start_punch_plan_and_wait is_ip s now session_id remotes punch =
      if is_empty remotes
      then (s, none)
      else if all_ip is_ip remotes
      then begin_punch s now session_id remotes punch
      else (s, none)

  -- `start_punch_and_wait` up to its wait.
  unfoldable pub start_punch_and_wait :
      (Text → Bool)
      → ClientState
      → ℕ
      → Text
      → LegacyEndpoint
      → LegacyPunch
      → ClientState × Option PunchTask
  start_punch_and_wait is_ip s now session_id remote punch =
      if is_ip remote.host then begin_punch s now session_id (remote ∷ []) punch else (s, none)

abbrev pub set_active_session : ClientState → Text → LegacyEndpoint → ClientState
set_active_session s session_id remote = record s {
  active_session = some (record { session_id = session_id; remote = remote });
}
