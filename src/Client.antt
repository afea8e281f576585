-- ===== src/Client.antt =====
-- The client's shared state and the two tasks that feed it: the UDP task and the notification task of
-- `main` in rust/fips-nostr-rendezvous/src/bin/fips-video-daemon.rs.
pub mod Kinds
pub mod Calls
pub mod Punches
pub mod Replies
pub mod Datagrams
pub mod Steps
pub mod Sound
pub mod Attempts
pub mod Connect
pub mod Shells
use fips_nostr_bootstrap.Base.{
  ℕ, leb, ◌==◌, nat_eq, text_eq, not, ◌&&◌, ◌||◌, if◌then◌else◌, Bool, true, false, Option, none,
  some, List, [], ◌∷◌, Text, text, length, take, drop, Run, done, panicked, stuck, ◌>>=◌, slice,
}
use fips_nostr_bootstrap.Base.HashMap.{HashMap, get, insert}
use fips_nostr_bootstrap.Schema.{
  TraversalAdvert, TraversalAnswer, LegacyEndpoint, LegacyServerInfoMessage, SessionFrame,
  RendezvousError, Result, ok, err,
}
use fips_nostr_bootstrap.Traversal.{answer_type}
use fips_nostr_bootstrap.PunchPacket.{
  Digest, PunchPacketKind, PunchPacket, session_hash, build_punch_packet, parse_punch_packet,
}
use fips_nostr_bootstrap.SessionFrames.{FrameJson, decode_session_frame}
use fips_nostr_bootstrap.Stun.{parse_stun_binding_success}
use fips_nostr_bootstrap.Adverts.{AdvertCache, merge_advert}
use fips_nostr_bootstrap.Observation.{Observed}
use fips_nostr_bootstrap.Waiters.{Waiters, no_waiters, register, reply, forget}

pub record ActiveSession : Type 0 where
  pub session_id : Text
  pub remote : LegacyEndpoint

-- The fields of `AppState` that the rendezvous changes.
pub record ClientState : Type 0 where
  pub pending_stun : Waiters LegacyEndpoint
  pub observed : Observed
  pub advert_cache : AdvertCache
  pub pending_answer : Waiters TraversalAnswer
  pub pending_server_info : Waiters LegacyServerInfoMessage
  pub pending_punch : Waiters LegacyEndpoint
  pub punch_hashes : HashMap Text Text
  pub active_session : Option ActiveSession

abbrev pub new_client : ClientState
new_client = record {
  pending_stun = no_waiters;
  observed = record { stun_observation = none; stun_observed_at = none };
  advert_cache = [];
  pending_answer = no_waiters;
  pending_server_info = no_waiters;
  pending_punch = no_waiters;
  punch_hashes = [];
  active_session = none;
}

-- What the UDP task sends and emits.
pub data ClientEffect (Value : Type 0) : Type 0 where
  sent : LegacyEndpoint → List ℕ → ClientEffect Value
  emitted_result : Value → ClientEffect Value

-- `frame.channel.as_deref() == Some("shell_result")`
abbrev pub is_result : Option Text → Bool
is_result none = false
is_result (some channel) = channel == text "shell_result"

module _ {Value : Type 0} (json : FrameJson Value) (sha256 : Digest) where
  abbrev pub Handled : Type 0
  Handled = ClientState × List (ClientEffect Value)

  -- A frame counts if it is of the active session and comes from its remote.
  abbrev pub frame_in :
      ClientState → LegacyEndpoint → SessionFrame Value → Option ActiveSession → Handled
  frame_in s remote frame none = (s, [])
  frame_in s remote frame (some active) =
      if not (active.session_id == frame.session_id)
      then (s, [])
      else if not (remote.host == active.remote.host) || not (remote.port == active.remote.port)
      then (s, [])
      else if is_result frame.channel
      then (s, emitted_result frame.payload ∷ [])
      else (s, [])

  abbrev pub on_frame :
      ClientState → LegacyEndpoint → Result (SessionFrame Value) RendezvousError → Handled
  on_frame s remote (err e) = (s, [])
  on_frame s remote (ok frame) = frame_in s remote frame s.active_session

  abbrev pub ack_for : LegacyEndpoint → Text → PunchPacketKind → List (ClientEffect Value)
  ack_for remote session_id PunchPacketKind.ack = []
  ack_for remote session_id PunchPacketKind.probe =
      sent remote (build_punch_packet sha256 PunchPacketKind.ack session_id) ∷ []

  abbrev pub punch_in : ClientState → LegacyEndpoint → List ℕ → PunchPacket → Option Text → Handled
  punch_in s remote packet punch none = on_frame s remote (decode_session_frame json packet)
  punch_in s remote packet punch (some session_id) = (
    record s { pending_punch = reply s.pending_punch session_id remote },
    ack_for remote session_id punch.kind,
  )

  abbrev pub on_punch :
      ClientState → LegacyEndpoint → List ℕ → Result PunchPacket RendezvousError → Handled
  on_punch s remote packet (err e) = on_frame s remote (decode_session_frame json packet)
  on_punch s remote packet (ok punch) =
      punch_in s remote packet punch (get s.punch_hashes punch.session_hash)

  -- A STUN answer that nobody waits for is looked at as a punch packet.
  abbrev pub stun_in :
      ClientState → LegacyEndpoint → List ℕ → Text → LegacyEndpoint → Option ℕ → Handled
  stun_in s remote packet txn_id mapped none = on_punch s remote packet (parse_punch_packet packet)
  stun_in s remote packet txn_id mapped (some channel) =
      (record s { pending_stun = reply s.pending_stun txn_id mapped }, [])

  abbrev pub on_stun :
      ClientState → LegacyEndpoint → List ℕ → Text → Option LegacyEndpoint → Handled
  on_stun s remote packet txn_id none = on_punch s remote packet (parse_punch_packet packet)
  on_stun s remote packet txn_id (some mapped) =
      stun_in s remote packet txn_id mapped (get s.pending_stun.pending txn_id)

  -- The body of the UDP task on a datagram from `remote`.
  unfoldable pub handle_datagram : ClientState → LegacyEndpoint → List ℕ → Run Handled
  handle_datagram s remote packet =
      if leb 20 (length packet)
      then (slice packet 8 20 >>= λ txn_id. parse_stun_binding_success packet txn_id >>= λ mapped.
          done (on_stun s remote packet txn_id mapped))
      else done (on_punch s remote packet (parse_punch_packet packet))

abbrev pub server_info_type : Text
server_info_type = text "fips.rendezvous.server-info"

abbrev pub on_info : ClientState → Option LegacyServerInfoMessage → ClientState
on_info s none = s
on_info s (some info) =
    if info.message_type == server_info_type
    then record s { pending_server_info = reply s.pending_server_info info.nonce info }
    else s

abbrev pub answer_in :
    ClientState → TraversalAnswer → Option LegacyServerInfoMessage → Option ℕ → ClientState
answer_in s answer as_info none = on_info s as_info
answer_in s answer as_info (some channel) = record s {
  pending_answer = reply s.pending_answer answer.in_reply_to answer;
}

-- The body of the notification task on a private message, with its content as serde_json reads it as
-- an answer and as a server's message.
unfoldable pub handle_message_in :
    ClientState → Option TraversalAnswer → Option LegacyServerInfoMessage → ClientState
handle_message_in s none as_info = on_info s as_info
handle_message_in s (some answer) as_info =
    if answer.message_type == answer_type
    then answer_in s answer as_info (get s.pending_answer.pending answer.in_reply_to)
    else on_info s as_info

-- The same task on an advert event, at the time `now`.
abbrev pub handle_advert : ℕ → ClientState → Option TraversalAdvert → ClientState
handle_advert now s as_advert = record s {
  advert_cache = merge_advert now s.advert_cache as_advert;
}
