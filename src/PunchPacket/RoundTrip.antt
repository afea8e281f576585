-- ===== src/PunchPacket/RoundTrip.antt =====
-- A packet that is built is read back.
use mathlib.Core.List.{append-nil}
use fips_nostr_bootstrap.Base.{
  ℕ, ◌≡◌, refl, List, ◌++◌, Text, length, length-take, length-append, take-append_left, arith, be32,
}
use fips_nostr_bootstrap.Schema.{ok}
use fips_nostr_bootstrap.PunchPacket.{
  PunchPacketKind, Digest, magic_of, session_hash, build_punch_packet, parse_punch_packet,
}

pub length-session_hash :
    (sha256 : Digest) (session_id : Text) → length (session_hash sha256 session_id) ≡ 16
unfolding session_hash
length-session_hash sha256 session_id =
    omega (arith, length-take 16 (sha256.digest session_id), sha256.digest_length session_id)

-- The wire format: four bytes of magic, sixteen of hash.
pub build_punch_packet-eq :
    (sha256 : Digest) (kind : PunchPacketKind) (session_id : Text)
    → build_punch_packet sha256 kind session_id
      ≡ be32 (magic_of kind) ++ session_hash sha256 session_id
unfolding build_punch_packet
build_punch_packet-eq sha256 kind session_id =
    rw (length-session_hash sha256 session_id)
      (rw (append-nil (session_hash sha256 session_id)) refl)

-- Every packet that is built, with any bytes behind it, is read back as its kind and the hash of its
-- session.
pub parse_punch_packet-build :
    (sha256 : Digest) (kind : PunchPacketKind) (session_id : Text) (rest : List ℕ)
    → parse_punch_packet (build_punch_packet sha256 kind session_id ++ rest)
      ≡ ok (record { kind = kind; session_hash = session_hash sha256 session_id })
unfolding parse_punch_packet
parse_punch_packet-build sha256 PunchPacketKind.probe session_id rest =
    rw (build_punch_packet-eq sha256 PunchPacketKind.probe session_id) (
      ground (
        arith,
        length-append (session_hash sha256 session_id) rest,
        length-session_hash sha256 session_id,
        take-append_left (session_hash sha256 session_id) rest 16,
      ))
parse_punch_packet-build sha256 PunchPacketKind.ack session_id rest =
    rw (build_punch_packet-eq sha256 PunchPacketKind.ack session_id) (
      ground (
        arith,
        length-append (session_hash sha256 session_id) rest,
        length-session_hash sha256 session_id,
        take-append_left (session_hash sha256 session_id) rest 16,
      ))

pub length-build_punch_packet :
    (sha256 : Digest) (kind : PunchPacketKind) (session_id : Text)
    → length (build_punch_packet sha256 kind session_id) ≡ 20
length-build_punch_packet sha256 kind session_id =
    rw (build_punch_packet-eq sha256 kind session_id)
      (omega (arith, length-session_hash sha256 session_id))
