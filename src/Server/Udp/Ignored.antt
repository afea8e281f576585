-- ===== src/Server/Udp/Ignored.antt =====
-- What the server's UDP task does not read: JSON objects, such as the probes `{"t":"PROBE",…}` that
-- rust/bootstrap-client/src/main.rs and `run_echo` of mobile/flutter_fips_client/rust/src/api.rs send.
use fips_nostr_bootstrap.Base.{
  ℕ, ◌≤◌, ◌≡◌, ◌≢◌, inl, inr, refl, ap, leb, nat_eq, text_eq, Bool-cases, none, some, List, [], ◌∷◌,
  length, take, drop, from_be32, done, slice-done, arith,
}
use fips_nostr_bootstrap.Schema.{LegacyEndpoint, SessionFrame, RendezvousError, Result, ok, err}
use fips_nostr_bootstrap.PunchPacket.{
  Digest, PunchPacketKind, PunchPacket, magic_of, parse_punch_packet,
}
use fips_nostr_bootstrap.PunchPacket.Errors.{parse_punch_packet-Carries}
use fips_nostr_bootstrap.Stun.{parse_stun_binding_success}
use fips_nostr_bootstrap.SessionFrames.{FrameJson, decode_session_frame}
use fips_nostr_bootstrap.SessionFrames.RoundTrip.{decode_session_frame-ok}
use fips_nostr_bootstrap.Client.Kinds.{parse_stun_binding_success-other}
use fips_nostr_bootstrap.Server.Udp.{
  UdpState, UdpRun, Next, UdpMoment, ShellPayload, on_session_frame, on_punch_packet,
  serve_datagram,
}

abbrev pub object : List ℕ → List ℕ
object rest = b'{' ∷ rest

object-magic :
    (rest : List ℕ) (kind : PunchPacketKind)
    → from_be32 (take 4 (object rest)) ≢ some (magic_of kind)
object-magic [] kind e = cc
object-magic (b ∷ []) kind e = cc
object-magic (b ∷ c ∷ []) kind e = cc
object-magic (b ∷ c ∷ d ∷ rest) PunchPacketKind.probe e = ground arith
object-magic (b ∷ c ∷ d ∷ rest) PunchPacketKind.ack e = ground arith

parse_punch_packet-object :
    (rest : List ℕ) (punch : PunchPacket) → parse_punch_packet (object rest) ≢ ok punch
parse_punch_packet-object rest punch e =
    object-magic rest punch.kind ((parse_punch_packet-Carries (object rest) punch).0 e).magic

decode_session_frame-object :
    {Value : Type 0} (json : FrameJson Value) (rest : List ℕ) (frame : SessionFrame Value)
    → decode_session_frame json (object rest) ≢ ok frame
decode_session_frame-object json rest frame e =
    let (body, framed, read) = (decode_session_frame-ok json (object rest) frame).0 e in
    ground arith

parse_stun_binding_success-object :
    (rest txn_id : List ℕ)
    → 20 ≤ length (object rest)
    → parse_stun_binding_success (object rest) txn_id ≡ done none
parse_stun_binding_success-object [] txn_id long = absurd (omega (arith, long))
parse_stun_binding_success-object (b ∷ rest) txn_id long =
    parse_stun_binding_success-other b'{' b rest txn_id (omega arith)

module _ {Value : Type 0} (json : FrameJson Value) (payload : ShellPayload Value) (sha256 : Digest)
    (m : UdpMoment) (s : UdpState) (remote : LegacyEndpoint) where
  abbrev idle : UdpRun
  idle = record { state = s; effects = []; next = Next.goes_on }

  on_session_frame-idle :
      (r : Result (SessionFrame Value) RendezvousError)
      → ((frame : SessionFrame Value) → r ≢ ok frame)
      → on_session_frame json payload sha256 m s remote r ≡ idle
  on_session_frame-idle (err e) other = refl
  on_session_frame-idle (ok frame) other = absurd (other frame refl)

  on_punch_packet-idle :
      (packet : List ℕ) (r : Result PunchPacket RendezvousError)
      → ((punch : PunchPacket) → r ≢ ok punch)
      → ((frame : SessionFrame Value) → decode_session_frame json packet ≢ ok frame)
      → on_punch_packet json payload sha256 m s remote packet r ≡ idle
  on_punch_packet-idle packet (err e) other no_frame =
      on_session_frame-idle (decode_session_frame json packet) no_frame
  on_punch_packet-idle packet (ok punch) other no_frame = absurd (other punch refl)

  -- The server does nothing on a datagram that starts as a JSON object does: it sends nothing, changes
  -- nothing and goes on. So it never acknowledges the JSON probes of the bootstrap client and of the
  -- mobile app.
  pub serve_datagram-object :
      (rest : List ℕ)
      → serve_datagram json payload sha256 m s remote (object rest)
        ≡ done (record { state = s; effects = []; next = Next.goes_on })
  unfolding serve_datagram
  serve_datagram-object rest =
      let falls : on_punch_packet json payload sha256 m s remote (object rest)
            (parse_punch_packet (object rest))
          ≡ idle =
        on_punch_packet-idle (object rest) (parse_punch_packet (object rest))
          (parse_punch_packet-object rest) (decode_session_frame-object json rest) in
      elim (Bool-cases (leb 20 (length (object rest)))) [
        | inl long ↦
            rw
              (
                long,
                slice-done (object rest) 8 20 (omega arith) (ground arith),
                parse_stun_binding_success-object rest (take 12 (drop 8 (object rest)))
                    (ground arith),
              )
              (ap done falls)
        | inr short ↦ rw short (ap done falls)
      ]
