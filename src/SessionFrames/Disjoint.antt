-- ===== src/SessionFrames/Disjoint.antt =====
-- A datagram is a punch packet or a session frame, never both.
use fips_nostr_bootstrap.Base.{ℕ, ◌≡◌, ◌≢◌, sym, ap, ◌∙◌, List, take, from_be32, some, arith}
use fips_nostr_bootstrap.Schema.{SessionFrame, ok}
use fips_nostr_bootstrap.PunchPacket.{PunchPacket, PunchPacketKind, magic_of, parse_punch_packet}
use fips_nostr_bootstrap.PunchPacket.Errors.{parse_punch_packet-Carries}
use fips_nostr_bootstrap.SessionFrames.{FrameJson, decode_session_frame}
use fips_nostr_bootstrap.SessionFrames.RoundTrip.{decode_session_frame-ok}

frame_is_no_punch : (kind : PunchPacketKind) → 0x46495053 ≢ magic_of kind
frame_is_no_punch PunchPacketKind.probe = omega arith
frame_is_no_punch PunchPacketKind.ack = omega arith

-- What decodes as a session frame does not parse as a punch packet.
pub decode_session_frame-parse_punch_packet :
    {Value : Type 0} (json : FrameJson Value) (bytes : List ℕ) (frame : SessionFrame Value)
    (p : PunchPacket)
    → decode_session_frame json bytes ≡ ok frame
    → parse_punch_packet bytes ≢ ok p
decode_session_frame-parse_punch_packet json bytes frame p d q =
    let (body, framed, _) = (decode_session_frame-ok json bytes frame).0 d in
    let carried = (parse_punch_packet-Carries bytes p).0 q in
    let same : some 0x46495053 ≡ some (magic_of p.kind) =
      ap (λ b. from_be32 (take 4 b)) (sym framed) ∙ carried.magic in
    frame_is_no_punch p.kind (ground arith)
