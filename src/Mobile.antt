-- ===== src/Mobile.antt =====
-- The client of mobile/flutter_fips_client/rust/src/api.rs: the wait of `run_bootstrap` for the server's
-- message, and `run_echo`. Its `ServerInfo` has the fields of the bootstrap client's message.
pub mod Versions
pub mod Echo
use fips_nostr_bootstrap.Base.{
  ◌==◌, text_eq, not, ◌&&◌, ◌||◌, if◌then◌else◌, Bool, true, false, Option, none, some, List, [],
  ◌∷◌, Text, text, take, drop, ℕ,
}
use fips_nostr_bootstrap.Schema.{LegacyEndpoint}
use fips_nostr_bootstrap.SessionFrames.{frame_magic}
use fips_nostr_bootstrap.Bootstrap.{
  Punch, ServerInfoMessage, Frame, Wait, server_info_type, broken, skipped, verdict, delivered,
  received, not_received, failed, hello_rejected,
}

-- The test of the loop, which does not look at the version.
abbrev pub accepts : ServerInfoMessage → Text → Text → Bool
accepts parsed session_id nonce =
    parsed.msg_type == server_info_type
    && (parsed.session_id == session_id && parsed.nonce == nonce)

-- The loop of `run_bootstrap` over the frames that come before the deadline.
unfoldable pub wait_for_info : Text → Text → Text → List Frame → Wait
wait_for_info hello_id session_id nonce [] = not_received
wait_for_info hello_id session_id nonce (broken ∷ frames) = failed
wait_for_info hello_id session_id nonce (skipped ∷ frames) =
    wait_for_info hello_id session_id nonce frames
wait_for_info hello_id session_id nonce (verdict event_id status ∷ frames) =
    let rest = wait_for_info hello_id session_id nonce frames in
    if event_id == hello_id && not status then hello_rejected else rest
wait_for_info hello_id session_id nonce (delivered none ∷ frames) =
    wait_for_info hello_id session_id nonce frames
wait_for_info hello_id session_id nonce (delivered (some parsed) ∷ frames) =
    let rest = wait_for_info hello_id session_id nonce frames in
    if accepts parsed session_id nonce then received parsed else rest

-- A turn of the loop that waits for the pong: `recv_from` fails, nothing comes in its time, or a datagram.
pub data Turn : Type 0 where
  recv_failed silence : Turn
  datagram : List ℕ → Turn

-- The texts of `detail`.
pub data Detail : Type 0 where
  timed_out not_framed : Detail
  received_channel : Text → Detail
  unexpected_channel : Option Text → Detail

-- But for its time.
pub record EchoResult : Type 0 where
  pub echo_roundtrip_ok : Bool
  pub endpoint : LegacyEndpoint
  pub detail : Detail

abbrev pub is_pong : Option Text → Bool
is_pong none = false
is_pong (some channel) = channel == text "fips_pong" || channel == text "fips_status"

abbrev pub channel_or_unknown : Option Text → Text
channel_or_unknown none = text "unknown"
channel_or_unknown (some channel) = channel

-- The member `channel` of the JSON after the magic, if there is one and it is a string.
module _ (channel_of : List ℕ → Option Text) where
  -- The turns before the deadline; none where the call ends with an error.
  unfoldable pub echo_loop : List Turn → Detail → Option (Bool × Detail)
  echo_loop [] detail = some (false, detail)
  echo_loop (recv_failed ∷ turns) detail = none
  echo_loop (silence ∷ turns) detail = echo_loop turns detail
  echo_loop (datagram payload ∷ turns) detail =
      let unframed = echo_loop turns not_framed in
      let unexpected = echo_loop turns (unexpected_channel (channel_of (drop 5 payload))) in
      if take 5 payload == frame_magic
      then if is_pong (channel_of (drop 5 payload))
        then some (true, received_channel (channel_or_unknown (channel_of (drop 5 payload))))
        else unexpected
      else unframed

  abbrev pub echoed : LegacyEndpoint → Option (Bool × Detail) → Option EchoResult
  echoed endpoint none = none
  echoed endpoint (some (ok, detail)) =
      some (record { echo_roundtrip_ok = ok; endpoint = endpoint; detail = detail })

  abbrev pub with_punch : ServerInfoMessage → List Turn → Option Punch → Option EchoResult
  with_punch info turns none = none
  with_punch info turns (some punch) = echoed info.endpoint (echo_loop turns timed_out)

  -- `run_echo` after the bootstrap, where the sends succeed. What its probes meet is not looked at again.
  unfoldable pub run_echo : Wait → List Turn → Option EchoResult
  run_echo (received info) turns = with_punch info turns info.punch
  run_echo _ turns = none
