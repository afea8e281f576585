-- ===== src/Server/Udp/Relayed.antt =====
-- Shell commands and their results on the way between the two UDP tasks, of a client
-- and of a server.
use fips_nostr_bootstrap.Base.{
  ℕ, ◌≡◌, ◌≢◌, inl, inr, refl, sym, ap, ◌∙◌, leb, ◌==◌, text_eq, nat_eq, ==_refl, ==_iff, Bool,
  true, false, Bool-cases, Option, none, some, List, [], ◌∷◌, Text, text, length, take, drop, done,
  slice-done, ℕ_discrete, Text-discrete, arith,
}
use fips_nostr_bootstrap.Schema.{LegacyEndpoint, SessionFrame, RendezvousError, Result, ok, err}
use fips_nostr_bootstrap.Trim.{trim}
use fips_nostr_bootstrap.PunchPacket.{Digest, PunchPacket, parse_punch_packet}
use fips_nostr_bootstrap.SessionFrames.{FrameJson, decode_session_frame}
use fips_nostr_bootstrap.SessionFrames.RoundTrip.{decode_session_frame-encode}
use fips_nostr_bootstrap.SessionFrames.Disjoint.{decode_session_frame-parse_punch_packet}
use fips_nostr_bootstrap.Shell.{ShellResult}
use fips_nostr_bootstrap.Client.{
  ClientState, ActiveSession, emitted_result, is_result, frame_in, handle_datagram,
}
use fips_nostr_bootstrap.Client.Kinds.{parse_stun_binding_success-frame, handle_datagram-decoded}
use fips_nostr_bootstrap.Server.Udp.{
  UdpState, Next, UdpMoment, ShellPayload, commanded, ensure_session, on_session_frame,
  on_punch_packet, serve_datagram, result_frame, send_shell_result,
}
use fips_nostr_bootstrap.Client.Shells.{Outgoing, to_active, send_shell_frame, api_cmd}

module _ {Value : Type 0} (json : FrameJson Value) where
  to_active-some :
      (is_ip : Text → Bool) (remote : LegacyEndpoint) (o : Option (List ℕ)) (out : Outgoing)
      → to_active json is_ip remote o ≡ some out
      → (o ≡ some out.bytes) × (out.to ≡ remote)
  to_active-some is_ip remote none out e = cc
  to_active-some is_ip remote (some bytes) out e = elim (Bool-cases (is_ip remote.host)) [
    | inl good ↦
        let same : record { to = remote; bytes = bytes } ≡ out = cc (rw good at e) in
        (ap some (ap (λ (o : Outgoing). o.bytes) same), ap (λ (o : Outgoing). o.to) (sym same))
    | inr bad ↦ cc (rw bad at e)
  ]

  -- What `send_shell_frame` sends goes to the session's remote and decodes to the frame.
  send_shell_frame-decoded :
      (is_ip : Text → Bool) (active : ActiveSession) (now : ℕ) (channel : Text) (payload : Value)
      (frame_type : Text) (out : Outgoing)
      → send_shell_frame json is_ip (some active) now channel payload frame_type ≡ some out
      → (out.to ≡ active.remote)
        × (decode_session_frame json out.bytes
            ≡ ok (record {
              session_id = active.session_id;
              frame_type = frame_type;
              channel = some channel;
              payload = payload;
              at = now;
            }))
  unfolding send_shell_frame
  send_shell_frame-decoded is_ip active now channel payload frame_type out e =
      let (written, there) = to_active-some is_ip active.remote _ out e in
      (there, decode_session_frame-encode json _ out.bytes written)

  module _ (payload : ShellPayload Value) (sha256 : Digest) (m : UdpMoment) where
    frame_in-result :
        (s : ClientState) (active : ActiveSession) (frame : SessionFrame Value)
        → active.session_id ≡ frame.session_id
        → is_result frame.channel ≡ true
        → frame_in json sha256 s active.remote frame (some active)
          ≡ (s, emitted_result frame.payload ∷ [])
    frame_in-result s active frame same read =
        let its : (active.session_id == frame.session_id) ≡ true =
          (==_iff active.session_id frame.session_id).1 same in
        rw (its, ==_refl active.remote.host, ==_refl active.remote.port, read) refl

    on_punch_packet-decoded :
        (s : UdpState) (remote : LegacyEndpoint) (packet : List ℕ)
        (r : Result PunchPacket RendezvousError)
        → ((punch : PunchPacket) → r ≢ ok punch)
        → on_punch_packet json payload sha256 m s remote packet r
          ≡ on_session_frame json payload sha256 m s remote (decode_session_frame json packet)
    on_punch_packet-decoded s remote packet (err e) other = refl
    on_punch_packet-decoded s remote packet (ok punch) other = absurd (other punch refl)

    -- A datagram that decodes to a session frame is handled as one.
    serve_datagram-decoded :
        (s : UdpState) (remote : LegacyEndpoint) (packet : List ℕ) (frame : SessionFrame Value)
        → decode_session_frame json packet ≡ ok frame
        → serve_datagram json payload sha256 m s remote packet
          ≡ done (on_session_frame json payload sha256 m s remote (ok frame))
    unfolding serve_datagram
    serve_datagram-decoded s remote packet frame decoded =
        let falls : on_punch_packet json payload sha256 m s remote packet
              (parse_punch_packet packet)
            ≡ on_session_frame json payload sha256 m s remote (ok frame) =
          on_punch_packet-decoded s remote packet (parse_punch_packet packet)
            (λ punch. decode_session_frame-parse_punch_packet json packet frame punch decoded)
          ∙ ap (on_session_frame json payload sha256 m s remote) decoded in
        elim (Bool-cases (leb 20 (length packet))) [
          | inl long ↦
              rw
                (
                  long,
                  slice-done packet 8 20 (omega arith) (ground arith),
                  parse_stun_binding_success-frame json packet frame (take 12 (drop 8 packet))
                      decoded,
                )
                (ap done falls)
          | inr short ↦ rw short (ap done falls)
        ]

    -- A command that a client sends for its active session goes to the session's remote; and a server
    -- that gets it, from wherever, runs the trimmed command under its id in the session of that id,
    -- which it makes if it does not have it.
    pub api_cmd-serve_datagram :
        (is_ip : Text → Bool) (active : ActiveSession) (now : ℕ) (id cmd : Text) (out : Outgoing)
        (s : UdpState) (from : LegacyEndpoint)
        → api_cmd json payload is_ip (some active) now false id cmd ≡ some out
        → (out.to ≡ active.remote)
          × (serve_datagram json payload sha256 m s from out.bytes
              ≡ done (record {
                state = (ensure_session m s active.session_id from).0;
                effects = commanded active.session_id (some id) (trim cmd) ∷ [];
                next = Next.goes_on;
              }))
    unfolding api_cmd text ℕ_discrete Text-discrete
    api_cmd-serve_datagram is_ip active now id cmd out s from e =
        let (there, decoded) =
          send_shell_frame-decoded is_ip active now (text "shell") (payload.request id cmd)
            (text "request") out e in
        (
          there,
          serve_datagram-decoded s from out.bytes _ decoded
              ∙ rw (payload.get_str-request_id id cmd, payload.get_str-request_cmd id cmd) refl,
        )

    -- A result that a server sends for a session reaches a client whose active session it is, if it
    -- comes from the session's remote: the client emits it and nothing else.
    pub send_shell_result-handle_datagram :
        (session_id : Text) (result : ShellResult) (now : ℕ) (bytes : List ℕ) (s : ClientState)
        (active : ActiveSession)
        → send_shell_result json payload session_id result now ≡ some bytes
        → s.active_session ≡ some active
        → active.session_id ≡ session_id
        → handle_datagram json sha256 s active.remote bytes
          ≡ done (s, emitted_result (payload.result result now) ∷ [])
    unfolding send_shell_result text ℕ_discrete Text-discrete
    send_shell_result-handle_datagram session_id result now bytes s active e is same =
        let frame = result_frame json payload session_id result now in
        handle_datagram-decoded json sha256 s active.remote bytes frame
          (decode_session_frame-encode json frame bytes e)
        ∙ ap done (
            ap (frame_in json sha256 s active.remote frame) is
            ∙ frame_in-result s active frame same refl)
