-- ===== src/Bootstrap.antt =====
-- The bootstrap client of rust/bootstrap-client/src: the messages and their checks (schema.rs), the
-- hello and the loop that waits for the server's message (main.rs).
pub mod Waiting
pub mod Replies
pub mod Probing
use fips_nostr_bootstrap.Base.{
  ℕ, zero, suc, ◌+◌, ◌-◌, max, ltb, ◌==◌, text_eq, not, ◌||◌, ◌&&◌, if◌then◌else◌, Bool, true,
  false, Option, none, some, List, [], ◌∷◌, Text, text,
}
use fips_nostr_bootstrap.Schema.{LegacyWants, LegacyEndpoint, LegacyStunInfo, Result, ok, err}
use fips_nostr_bootstrap.Traversal.{is_empty, ◌!=◌}

-- An i64.
pub data ℤ : Type 0 where
  pos : ℕ → ℤ
  negsuc : ℕ → ℤ

pub record Punch : Type 0 where
  pub start_at_ms : ℤ
  pub interval_ms : ℕ
  pub duration_ms : ℕ

-- The client's hello: its endpoint is no option, and it names its capabilities.
pub record HelloMessage : Type 0 where
  pub msg_type : Text
  pub version : Text
  pub session_id : Text
  pub nonce : Text
  pub issued_at : ℤ
  pub wants : LegacyWants
  pub client_endpoint : LegacyEndpoint
  pub capabilities : List Text

pub record ServerInfoMessage : Type 0 where
  pub msg_type : Text
  pub version : Text
  pub session_id : Text
  pub nonce : Text
  pub issued_at : ℤ
  pub endpoint : LegacyEndpoint
  pub punch : Option Punch
  pub stun : Option LegacyStunInfo

pub data Invalid : Type 0 where
  invalid_hello_type invalid_server_info_type unsupported_version : Invalid
  missing_session_id_or_nonce session_or_nonce_mismatch : Invalid

abbrev pub hello_type : Text
hello_type = text "fips.rendezvous.hello"

abbrev pub server_info_type : Text
server_info_type = text "fips.rendezvous.server-info"

abbrev pub version_1_0 : Text
version_1_0 = text "1.0"

unfoldable pub validate : HelloMessage → Result (Unit {0}) Invalid
validate hello =
    if hello.msg_type != hello_type
    then err invalid_hello_type
    else if hello.version != version_1_0
    then err unsupported_version
    else if is_empty hello.session_id || is_empty hello.nonce
    then err missing_session_id_or_nonce
    else ok tt

unfoldable pub validate_for : ServerInfoMessage → Text → Text → Result (Unit {0}) Invalid
validate_for info session_id nonce =
    if info.msg_type != server_info_type
    then err invalid_server_info_type
    else if info.version != version_1_0
    then err unsupported_version
    else if info.session_id != session_id || info.nonce != nonce
    then err session_or_nonce_mismatch
    else ok tt

-- The hello that `main` makes.
unfoldable pub hello_of : Text → Text → ℤ → Bool → Bool → Bool → ℕ → HelloMessage
hello_of session_id nonce now want_stun want_fips connects local_port = record {
  msg_type = hello_type;
  version = version_1_0;
  session_id = session_id;
  nonce = nonce;
  issued_at = now;
  wants = record { stun_info = want_stun; fips_connect = want_fips || connects };
  client_endpoint = record { host = text "0.0.0.0"; port = local_port };
  capabilities = text "rust-bootstrap-client-v1" ∷ [];
}

-- What the websocket gives: an error, what the loop skips (no text, or no relay message), the relay's
-- verdict on an event, and an event with what is unwrapped and parsed of it, if it can be.
pub data Frame : Type 0 where
  broken skipped : Frame
  verdict : Text → Bool → Frame
  delivered : Option ServerInfoMessage → Frame

pub data Wait : Type 0 where
  received : ServerInfoMessage → Wait
  not_received failed hello_rejected : Wait

abbrev pub is_valid : Result (Unit {0}) Invalid → Bool
is_valid (ok u) = true
is_valid (err e) = false

-- The loop over the frames that come before the deadline, for the event `hello_id`.
unfoldable pub wait_for_server_info : Text → Text → Text → List Frame → Wait
wait_for_server_info hello_id session_id nonce [] = not_received
wait_for_server_info hello_id session_id nonce (broken ∷ frames) = failed
wait_for_server_info hello_id session_id nonce (skipped ∷ frames) =
    wait_for_server_info hello_id session_id nonce frames
wait_for_server_info hello_id session_id nonce (verdict event_id status ∷ frames) =
    let rest = wait_for_server_info hello_id session_id nonce frames in
    if event_id == hello_id && not status then hello_rejected else rest
wait_for_server_info hello_id session_id nonce (delivered none ∷ frames) =
    wait_for_server_info hello_id session_id nonce frames
wait_for_server_info hello_id session_id nonce (delivered (some parsed) ∷ frames) =
    let rest = wait_for_server_info hello_id session_id nonce frames in
    if is_valid (validate_for parsed session_id nonce) then received parsed else rest
