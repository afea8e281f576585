-- ===== src/PunchPacket/Errors.antt =====
-- What `parse_punch_packet` accepts.
use fips_nostr_bootstrap.Base.{
  ℕ, ap, ◌↔◌, false, ◌≡◌, ◌≤◌, ◌<◌, ◌≢◌, ◌⊎◌, inl, inr, refl, List, length, take, drop, arith,
  from_be32, Option, none, some, ltb, Bool-cases,
}
use fips_nostr_bootstrap.Schema.{
  ok, err, RendezvousError, invalid_punch_packet_length, invalid_punch_packet_magic,
}
use fips_nostr_bootstrap.PunchPacket.{
  PunchPacketKind, PunchPacket, magic_of, packet_of, parse_punch_packet, read_magic,
}

-- A datagram of twenty bytes or more whose first four bytes are the magic of `kind`, and the hash.
pub record Carries (bytes : List ℕ) (p : PunchPacket) : Type 0 where
  pub long : 20 ≤ length bytes
  pub magic : from_be32 (take 4 bytes) ≡ some (magic_of p.kind)
  pub hash : take 16 (drop 4 bytes) ≡ p.session_hash

read_magic-some :
    (m : Option ℕ) (kind : PunchPacketKind) → read_magic m ≡ some kind → m ≡ some (magic_of kind)
read_magic-some none kind e = cc
read_magic-some (some m) PunchPacketKind.probe e = ground arith
read_magic-some (some m) PunchPacketKind.ack e = ground arith

kind_of_magic_of : (kind : PunchPacketKind) → read_magic (some (magic_of kind)) ≡ some kind
kind_of_magic_of PunchPacketKind.probe = ground arith
kind_of_magic_of PunchPacketKind.ack = ground arith

Carries-of_ok :
    (bytes : List ℕ) (p : PunchPacket) (m : Option PunchPacketKind)
    → read_magic (from_be32 (take 4 bytes)) ≡ m
    → 20 ≤ length bytes
    → packet_of m (take 16 (drop 4 bytes)) ≡ ok p
    → Carries bytes p
Carries-of_ok bytes p none e h k = absurd (cc)
Carries-of_ok bytes p (some kind) e h k = record {
  long = h;
  magic = ground (arith, read_magic-some (from_be32 (take 4 bytes)) kind e);
  hash = ground arith;
}

-- A datagram is accepted exactly when it carries the packet that is returned.
pub parse_punch_packet-Carries :
    (bytes : List ℕ) (p : PunchPacket) → (parse_punch_packet bytes ≡ ok p) ↔ Carries bytes p
unfolding parse_punch_packet
parse_punch_packet-Carries bytes p = (
  λ e. elim (Bool-cases (ltb (length bytes) 20)) [
    | inl short ↦ absurd (cc (rw short at e))
    | inr long ↦ Carries-of_ok bytes p _ refl (ground arith) (rw long at e)
  ],
  λ c.
      let long : ltb (length bytes) 20 ≡ false = ground (arith, c.long) in
      rw (long, c.magic, kind_of_magic_of p.kind, c.hash) refl,
)

-- A datagram that is too short is refused for its length, whatever it holds; one that is long enough
-- only for its magic.
pub parse_punch_packet-err :
    (bytes : List ℕ) (x : RendezvousError)
    → parse_punch_packet bytes ≡ err x
    → ((length bytes < 20) × (x ≡ invalid_punch_packet_length))
      ⊎ ((20 ≤ length bytes)
          × (x ≡ invalid_punch_packet_magic)
          × ((kind : PunchPacketKind) → from_be32 (take 4 bytes) ≢ some (magic_of kind)))
unfolding parse_punch_packet
parse_punch_packet-err bytes x e = elim (Bool-cases (ltb (length bytes) 20)) [
  | inl short ↦ inl (ground arith, cc (rw short at e))
  | inr long ↦ inr (wrong_magic _ refl (ground arith) (rw long at e))
]
  where
    wrong_magic :
        (m : Option PunchPacketKind)
        → read_magic (from_be32 (take 4 bytes)) ≡ m
        → 20 ≤ length bytes
        → packet_of m (take 16 (drop 4 bytes)) ≡ err x
        → (20 ≤ length bytes)
          × (x ≡ invalid_punch_packet_magic)
          × ((kind : PunchPacketKind) → from_be32 (take 4 bytes) ≢ some (magic_of kind))
    wrong_magic none q h k = (h, cc, λ kind w. cc (kind_of_magic_of kind, ap read_magic w, q))
    wrong_magic (some kind) q h k = absurd (cc)
