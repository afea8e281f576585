-- ===== src/Client/Shells.antt =====
-- `send_shell_frame`, `api_cmd` and `api_ctrlc` of
-- rust/fips-nostr-rendezvous/src/bin/fips-web-daemon.rs.
use fips_nostr_bootstrap.Base.{ℕ, if◌then◌else◌, Bool, Option, none, some, List, Text, text}
use fips_nostr_bootstrap.Schema.{LegacyEndpoint}
use fips_nostr_bootstrap.SessionFrames.{FrameJson, encode_session_frame}
use fips_nostr_bootstrap.Client.{ActiveSession}
use fips_nostr_bootstrap.Server.Udp.{ShellPayload}

-- A datagram to send, and where to.
pub record Outgoing : Type 0 where
  pub to : LegacyEndpoint
  pub bytes : List ℕ

module _ {Value : Type 0} (json : FrameJson Value) where
  abbrev pub to_active : (Text → Bool) → LegacyEndpoint → Option (List ℕ) → Option Outgoing
  to_active is_ip remote none = none
  to_active is_ip remote (some bytes) =
      if is_ip remote.host then some (record { to = remote; bytes = bytes }) else none

  -- `send_shell_frame`: nothing is sent without a session, or if the frame cannot be written.
  unfoldable pub send_shell_frame :
      (Text → Bool) → Option ActiveSession → ℕ → Text → Value → Text → Option Outgoing
  send_shell_frame is_ip none now channel payload frame_type = none
  send_shell_frame is_ip (some active) now channel payload frame_type =
      to_active is_ip active.remote (
        encode_session_frame json (record {
          session_id = active.session_id;
          frame_type = frame_type;
          channel = some channel;
          payload = payload;
          at = now;
        }))

  module _ (payload : ShellPayload Value) (is_ip : Text → Bool)
      (active_session : Option ActiveSession) (now : ℕ) where
    -- `api_cmd` and `api_ctrlc`, which refuse after a handoff.
    unfoldable pub api_cmd : Bool → Text → Text → Option Outgoing
    api_cmd handoff_fips id cmd =
        if handoff_fips
        then none
        else send_shell_frame is_ip active_session now (text "shell") (payload.request id cmd)
            (text "request")

    unfoldable pub api_ctrlc : Bool → Option Outgoing
    api_ctrlc handoff_fips =
        if handoff_fips
        then none
        else send_shell_frame is_ip active_session now (text "shell_interrupt") (payload.stamp now)
            (text "request")
