-- ===== src/Server/Udp.antt =====
-- The UDP task of `main` in rust/fips-nostr-rendezvous/src/bin/fips-console-server.rs, with
-- `ensure_session`. The payloads of shell frames are JSON values, a parameter. The commands of shell
-- frames run in tasks of their own: they are an effect here, and Shell.antt says what they do.
pub mod Meeting
pub mod Relayed
pub mod Sessions
pub mod Once
pub mod Ignored
use fips_nostr_bootstrap.Base.{
  ℕ, ◌≡◌, leb, ◌==◌, text_eq, if◌then◌else◌, Bool, true, false, Option, none, some, List, [], ◌∷◌,
  ◌++◌, Text, text, length, take, drop, Run, done, ◌>>=◌, slice,
}
use fips_nostr_bootstrap.Base.HashMap.{HashMap, get, insert, remove}
use fips_nostr_bootstrap.Schema.{LegacyEndpoint, SessionFrame, RendezvousError, Result, ok, err}
use fips_nostr_bootstrap.Trim.{trim}
use fips_nostr_bootstrap.PunchPacket.{
  Digest, PunchPacketKind, PunchPacket, session_hash, build_punch_packet, parse_punch_packet,
}
use fips_nostr_bootstrap.Stun.{parse_stun_binding_success}
use fips_nostr_bootstrap.SessionFrames.{FrameJson, encode_session_frame, decode_session_frame}
use fips_nostr_bootstrap.Waiters.{Waiters, reply}
use fips_nostr_bootstrap.Shell.{SessionState, ShellResult, handle_shell_interrupt}
use fips_nostr_bootstrap.Shell.Steps.{new_session}

-- A session: the address that its results are sent to, and its shell.
pub record Session : Type 0 where
  pub remote : LegacyEndpoint
  pub shell : SessionState

-- The fields of `ServerState` that the task uses; `handoff_socket` is whether it is still there.
pub record UdpState : Type 0 where
  pub pending_stun : Waiters LegacyEndpoint
  pub sessions : HashMap Text Session
  pub session_hashes : HashMap Text Text
  pub pending_handoffs : HashMap Text Text
  pub handoff_socket : Bool

pub data UdpEffect : Type 0 where
  sent : LegacyEndpoint → List ℕ → UdpEffect
  handed_over : Text → Text → LegacyEndpoint → UdpEffect
  commanded : Text → Option Text → Text → UdpEffect
  result_sent : Text → LegacyEndpoint → ShellResult → UdpEffect

-- The loop goes on, is left after a handoff that ran to its end, or the task ends with an error.
pub data Next : Type 0 where
  goes_on breaks errs : Next

pub record UdpRun : Type 0 where
  pub state : UdpState
  pub effects : List UdpEffect
  pub next : Next

-- What the datagram meets: the setting `handoff_fips`, the current directory, the id that an interrupt
-- gets, and whether the FIPS runtime starts and runs to its end.
pub record UdpMoment : Type 0 where
  pub handoff_fips : Bool
  pub current_dir : Text
  pub interrupt_id : Text
  pub handoff_succeeds : Bool

-- The JSON of the shell frames, by serde_json: `get_str value key` is `value.get(key)` with `as_str`,
-- `request` is `json!({"id": id, "cmd": cmd})`, `stamp` is `json!({"ts": now})`, and `result` the
-- payload of a result. A member that was put in as a string is found as that string.
pub record ShellPayload (Value : Type 0) : Type 0 where
  pub get_str : Value → Text → Option Text
  pub request : Text → Text → Value
  pub stamp : ℕ → Value
  pub result : ShellResult → ℕ → Value
  pub get_str-request_id : (id cmd : Text) → get_str (request id cmd) (text "id") ≡ some id
  pub get_str-request_cmd : (id cmd : Text) → get_str (request id cmd) (text "cmd") ≡ some cmd

abbrev pub session_or_new : UdpMoment → LegacyEndpoint → Option Session → Session
session_or_new m remote (some session) = session
session_or_new m remote none = record { remote = remote; shell = new_session m.current_dir }

abbrev pub with_session : UdpState → Text → Session → Option Session → UdpState
with_session s session_id new (some session) = s
with_session s session_id new none = record s { sessions = insert s.sessions session_id new }

-- `ensure_session`: the session, and the state that has it.
unfoldable pub ensure_session : UdpMoment → UdpState → Text → LegacyEndpoint → UdpState × Session
ensure_session m s session_id remote =
    let there = get s.sessions session_id in
    let session = session_or_new m remote there in
    (with_session s session_id session there, session)

-- What `start_punch` and `start_punch_plan` do to the state, with the id of the session to punch.
abbrev pub register_session_hash : Digest → UdpState → Text → UdpState
register_session_hash sha256 s session_id = record s {
  session_hashes = insert s.session_hashes (session_hash sha256 session_id) session_id;
}

module _ {Value : Type 0} (json : FrameJson Value) (payload : ShellPayload Value) (sha256 : Digest)
    (m : UdpMoment) where
  abbrev pub or_empty_text : Option Text → Text
  or_empty_text none = []
  or_empty_text (some s) = s

  -- What a frame asks for, after `ensure_session`.
  abbrev pub on_channel : UdpState × Session → SessionFrame Value → Option Text → UdpRun
  on_channel (s, session) frame none = record { state = s; effects = []; next = Next.goes_on }
  on_channel (s, session) frame (some channel) =
      if channel == text "shell"
      then record {
        state = s;
        effects =
            commanded frame.session_id (payload.get_str frame.payload (text "id"))
              (trim (or_empty_text (payload.get_str frame.payload (text "cmd"))))
            ∷ [];
        next = Next.goes_on;
      }
      else if channel == text "shell_interrupt"
      then (let (shell, result) = handle_shell_interrupt session.shell m.interrupt_id in
          record {
            state = record s {
              sessions = insert s.sessions frame.session_id (record session { shell = shell });
            };
            effects = result_sent frame.session_id session.remote result ∷ [];
            next = Next.goes_on;
          })
      else record { state = s; effects = []; next = Next.goes_on }

  abbrev pub on_session_frame :
      UdpState → LegacyEndpoint → Result (SessionFrame Value) RendezvousError → UdpRun
  on_session_frame s remote (err e) = record { state = s; effects = []; next = Next.goes_on }
  on_session_frame s remote (ok frame) =
      on_channel (ensure_session m s frame.session_id remote) frame frame.channel

  abbrev pub acks : LegacyEndpoint → Text → PunchPacketKind → List UdpEffect
  acks remote session_id PunchPacketKind.ack = []
  acks remote session_id PunchPacketKind.probe =
      sent remote (build_punch_packet sha256 PunchPacketKind.ack session_id) ∷ []

  -- The handoff of a session whose peer is pending: with the socket, once.
  abbrev pub hand_over : UdpState → List UdpEffect → Text → LegacyEndpoint → Option Text → UdpRun
  hand_over s before session_id remote none = record {
    state = (ensure_session m s session_id remote).0;
    effects = before;
    next = Next.goes_on;
  }
  hand_over s before session_id remote (some peer_npub) =
      let s = record s { pending_handoffs = remove s.pending_handoffs session_id } in
      if s.handoff_socket
      then record {
        state = record s { handoff_socket = false };
        effects = before ++ (handed_over session_id peer_npub remote ∷ []);
        next = if m.handoff_succeeds then Next.breaks else Next.errs;
      }
      else record { state = s; effects = before; next = Next.errs }

  abbrev pub on_known_punch : UdpState → LegacyEndpoint → PunchPacket → Text → UdpRun
  on_known_punch s remote punch session_id =
      if m.handoff_fips
      then hand_over s (acks remote session_id punch.kind) session_id remote
          (get s.pending_handoffs session_id)
      else hand_over s (acks remote session_id punch.kind) session_id remote none

  abbrev pub if_known : UdpState → LegacyEndpoint → List ℕ → PunchPacket → Option Text → UdpRun
  if_known s remote packet punch none = on_session_frame s remote (decode_session_frame json packet)
  if_known s remote packet punch (some session_id) = on_known_punch s remote punch session_id

  abbrev pub on_punch_packet :
      UdpState → LegacyEndpoint → List ℕ → Result PunchPacket RendezvousError → UdpRun
  on_punch_packet s remote packet (err e) =
      on_session_frame s remote (decode_session_frame json packet)
  on_punch_packet s remote packet (ok punch) =
      if_known s remote packet punch (get s.session_hashes punch.session_hash)

  abbrev pub if_pending :
      UdpState → LegacyEndpoint → List ℕ → Text → LegacyEndpoint → Option ℕ → UdpRun
  if_pending s remote packet txn_id mapped none =
      on_punch_packet s remote packet (parse_punch_packet packet)
  if_pending s remote packet txn_id mapped (some channel) = record {
    state = record s { pending_stun = reply s.pending_stun txn_id mapped };
    effects = [];
    next = Next.goes_on;
  }

  abbrev pub on_stun_answer :
      UdpState → LegacyEndpoint → List ℕ → Text → Option LegacyEndpoint → UdpRun
  on_stun_answer s remote packet txn_id none =
      on_punch_packet s remote packet (parse_punch_packet packet)
  on_stun_answer s remote packet txn_id (some mapped) =
      if_pending s remote packet txn_id mapped (get s.pending_stun.pending txn_id)

  -- The body of the loop on a datagram.
  unfoldable pub serve_datagram : UdpState → LegacyEndpoint → List ℕ → Run UdpRun
  serve_datagram s remote packet =
      if leb 20 (length packet)
      then (slice packet 8 20 >>= λ txn_id. parse_stun_binding_success packet txn_id >>= λ mapped.
          done (on_stun_answer s remote packet txn_id mapped))
      else done (on_punch_packet s remote packet (parse_punch_packet packet))

-- A datagram that the loop receives: what the other tasks have done to the state since the one before,
-- what it meets, where it comes from, and its bytes.
pub record Arrival : Type 0 where
  pub since : UdpState → UdpState
  pub moment : UdpMoment
  pub remote : LegacyEndpoint
  pub packet : List ℕ

module _ {Value : Type 0} (json : FrameJson Value) (payload : ShellPayload Value)
    (sha256 : Digest) where
  abbrev pub before_rest : List UdpEffect → UdpRun → UdpRun
  before_rest effects run = record run { effects = effects ++ run.effects }

  -- What follows a turn: the next turn, if the loop goes on.
  abbrev pub after_turn : (UdpState → Run UdpRun) → UdpState → List UdpEffect → Next → Run UdpRun
  after_turn rest s effects Next.goes_on = rest s >>= λ run. done (before_rest effects run)
  after_turn rest s effects Next.breaks =
      done (record { state = s; effects = effects; next = Next.breaks })
  after_turn rest s effects Next.errs =
      done (record { state = s; effects = effects; next = Next.errs })

  -- The loop over what arrives.
  unfoldable pub udp_loop : List Arrival → UdpState → Run UdpRun
  udp_loop [] s = done (record { state = s; effects = []; next = Next.goes_on })
  udp_loop (a ∷ arrivals) s =
      serve_datagram json payload sha256 a.moment (a.since s) a.remote a.packet >>= λ turn.
      after_turn (udp_loop arrivals) turn.state turn.effects turn.next

module _ {Value : Type 0} (json : FrameJson Value) (payload : ShellPayload Value) where
  -- One reading of the clock stands for the time in the payload and that of the frame.
  abbrev pub result_frame : Text → ShellResult → ℕ → SessionFrame Value
  result_frame session_id result now = record {
    session_id = session_id;
    frame_type = text "response";
    channel = some (text "shell_result");
    payload = payload.result result now;
    at = now;
  }

  -- `send_shell_result`: the datagram, if the frame can be written.
  unfoldable pub send_shell_result : Text → ShellResult → ℕ → Option (List ℕ)
  send_shell_result session_id result now =
      encode_session_frame json (result_frame session_id result now)
