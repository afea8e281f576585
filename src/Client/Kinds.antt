-- ===== src/Client/Kinds.antt =====
-- The datagrams of the UDP task: STUN answers, punch packets and session frames do not get in each
-- other's way.
use mathlib.Core.List.{append-nil}
use fips_nostr_bootstrap.Base.{
  ℕ, ◌+◌, ◌*◌, ◌≤◌, ◌≡◌, ◌≢◌, inl, inr, refl, sym, ap, ◌∙◌, ltb, leb, nat_eq, text_eq, ==_ne, true,
  Bool-cases, none, some, List, [], ◌∷◌, Text, length, take, drop, done, slice-done, arith,
}
use fips_nostr_bootstrap.Base.HashMap.{get}
use fips_nostr_bootstrap.Schema.{LegacyEndpoint, RendezvousError, SessionFrame, Result, ok, err}
use fips_nostr_bootstrap.PunchPacket.{
  Digest, PunchPacketKind, PunchPacket, session_hash, build_punch_packet, parse_punch_packet,
}
use fips_nostr_bootstrap.PunchPacket.RoundTrip.{
  build_punch_packet-eq, parse_punch_packet-build, length-build_punch_packet,
}
use fips_nostr_bootstrap.Stun.{parse_stun_binding_success, stun_binding_success}
use fips_nostr_bootstrap.SessionFrames.{FrameJson, decode_session_frame}
use fips_nostr_bootstrap.SessionFrames.RoundTrip.{decode_session_frame-ok}
use fips_nostr_bootstrap.SessionFrames.Disjoint.{decode_session_frame-parse_punch_packet}
use fips_nostr_bootstrap.Waiters.{reply}
use fips_nostr_bootstrap.Client.{ClientState, ack_for, on_frame, on_punch, handle_datagram}

-- A packet that starts with another type is no STUN answer.
pub parse_stun_binding_success-other :
    (a b : ℕ) (rest txn_id : List ℕ)
    → a * 256 + b ≢ stun_binding_success
    → parse_stun_binding_success (a ∷ b ∷ rest) txn_id ≡ done none
unfolding parse_stun_binding_success
parse_stun_binding_success-other a b rest txn_id other =
    elim (Bool-cases (ltb (length (a ∷ b ∷ rest)) 20)) [
      | inl short ↦ rw short refl
      | inr long ↦
          rw
            (
              long,
              slice-done (a ∷ b ∷ rest) 0 2 (omega arith) (ground arith),
              ==_ne (a * 256 + b) stun_binding_success other,
            )
            refl
    ]

pub parse_stun_binding_success-punch :
    (sha256 : Digest) (kind : PunchPacketKind) (session_id : Text) (txn_id : List ℕ)
    → parse_stun_binding_success (build_punch_packet sha256 kind session_id) txn_id ≡ done none
parse_stun_binding_success-punch sha256 PunchPacketKind.probe session_id txn_id =
    rw (build_punch_packet-eq sha256 PunchPacketKind.probe session_id)
      (parse_stun_binding_success-other 78 80 _ txn_id (omega arith))
parse_stun_binding_success-punch sha256 PunchPacketKind.ack session_id txn_id =
    rw (build_punch_packet-eq sha256 PunchPacketKind.ack session_id)
      (parse_stun_binding_success-other 78 80 _ txn_id (omega arith))

pub parse_punch_packet-built :
    (sha256 : Digest) (kind : PunchPacketKind) (session_id : Text)
    → parse_punch_packet (build_punch_packet sha256 kind session_id)
      ≡ ok (record { kind = kind; session_hash = session_hash sha256 session_id })
parse_punch_packet-built sha256 kind session_id =
    ap parse_punch_packet (sym (append-nil (build_punch_packet sha256 kind session_id)))
    ∙ parse_punch_packet-build sha256 kind session_id []

pub parse_stun_binding_success-frame :
    {Value : Type 0} (json : FrameJson Value) (packet : List ℕ) (frame : SessionFrame Value)
    (txn_id : List ℕ)
    → decode_session_frame json packet ≡ ok frame
    → parse_stun_binding_success packet txn_id ≡ done none
parse_stun_binding_success-frame json packet frame txn_id decoded =
    let (body, framed, read) = (decode_session_frame-ok json packet frame).0 decoded in
    rw framed
      (parse_stun_binding_success-other b'F' b'I' (b'P' ∷ b'S' ∷ b'1' ∷ body) txn_id (omega arith))

module _ {Value : Type 0} (json : FrameJson Value) (sha256 : Digest) where
  on_punch-built :
      (s : ClientState) (remote : LegacyEndpoint) (packet : List ℕ) (kind : PunchPacketKind)
      (hash : List ℕ) (session_id : Text) (r : Result PunchPacket RendezvousError)
      → r ≡ ok (record { kind = kind; session_hash = hash })
      → get s.punch_hashes hash ≡ some session_id
      → on_punch json sha256 s remote packet r ≡ (
        record s { pending_punch = reply s.pending_punch session_id remote },
        ack_for json sha256 remote session_id kind,
      )
  on_punch-built s remote packet kind hash session_id r parsed known = rw parsed (rw known refl)

  -- A punch packet of a session that the client punches, from anywhere: whoever waits for the punch is
  -- told where it came from, and a probe is acknowledged there.
  pub handle_datagram-build_punch_packet :
      (s : ClientState) (remote : LegacyEndpoint) (kind : PunchPacketKind) (session_id : Text)
      → get s.punch_hashes (session_hash sha256 session_id) ≡ some session_id
      → handle_datagram json sha256 s remote (build_punch_packet sha256 kind session_id)
        ≡ done (
          record s { pending_punch = reply s.pending_punch session_id remote },
          ack_for json sha256 remote session_id kind,
        )
  unfolding handle_datagram
  handle_datagram-build_punch_packet s remote kind session_id known =
      let packet : List ℕ = build_punch_packet sha256 kind session_id in
      let long : leb 20 (length packet) ≡ true =
        ground (arith, length-build_punch_packet sha256 kind session_id) in
      let room : 20 ≤ length packet =
        omega (arith, length-build_punch_packet sha256 kind session_id) in
      rw
        (
          long,
          slice-done packet 8 20 (omega arith) room,
          parse_stun_binding_success-punch sha256 kind session_id (take 12 (drop 8 packet)),
        )
        (ap done (
          on_punch-built s remote packet kind (session_hash sha256 session_id) session_id _
            (parse_punch_packet-built sha256 kind session_id) known))

  on_punch-decoded :
      (s : ClientState) (remote : LegacyEndpoint) (packet : List ℕ)
      (r : Result PunchPacket RendezvousError)
      → ((punch : PunchPacket) → r ≢ ok punch)
      → on_punch json sha256 s remote packet r
        ≡ on_frame json sha256 s remote (decode_session_frame json packet)
  on_punch-decoded s remote packet (err e) other = refl
  on_punch-decoded s remote packet (ok punch) other = absurd (other punch refl)

  -- A datagram that decodes to a session frame is handled as one.
  pub handle_datagram-decoded :
      (s : ClientState) (remote : LegacyEndpoint) (packet : List ℕ) (frame : SessionFrame Value)
      → decode_session_frame json packet ≡ ok frame
      → handle_datagram json sha256 s remote packet
        ≡ done (on_frame json sha256 s remote (ok frame))
  unfolding handle_datagram
  handle_datagram-decoded s remote packet frame decoded =
      let falls : on_punch json sha256 s remote packet (parse_punch_packet packet)
          ≡ on_frame json sha256 s remote (ok frame) =
        on_punch-decoded s remote packet (parse_punch_packet packet)
          (λ punch. decode_session_frame-parse_punch_packet json packet frame punch decoded)
        ∙ ap (on_frame json sha256 s remote) decoded in
      elim (Bool-cases (leb 20 (length packet))) [
        | inl long ↦
            rw
              (
                long,
                slice-done packet 8 20 (omega arith) (ground arith),
                parse_stun_binding_success-frame json packet frame (take 12 (drop 8 packet))
                    decoded,
              )
              (ap done falls)
        | inr short ↦ rw short (ap done falls)
      ]
