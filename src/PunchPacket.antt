-- ===== src/PunchPacket.antt =====
-- The punch packets of rust/fips-nostr-rendezvous/src/lib.rs. SHA-256 is a parameter.
pub mod RoundTrip
pub mod Errors
use fips_nostr_bootstrap.Base.{
  ℕ, ◌≡◌, ltb, ◌==◌, nat_eq, if◌then◌else◌, List, [], ◌∷◌, Text, Text-discrete, ℕ_discrete, length,
  take, drop, replicate, be32, from_be32, copy_at, Option, none, some, Eq,
}
use fips_nostr_bootstrap.Schema.{
  punch_magic, punch_ack_magic, RendezvousError, invalid_punch_packet_length,
  invalid_punch_packet_magic, Result, ok, err,
}

pub data PunchPacketKind : Type 0 where
  probe ack : PunchPacketKind

pub record PunchPacket : Type 0 where
  pub kind : PunchPacketKind
  pub session_hash : List ℕ

abbrev pub magic_of : PunchPacketKind → ℕ
magic_of PunchPacketKind.probe = punch_magic
magic_of PunchPacketKind.ack = punch_ack_magic

-- What the code relies on of `Sha256::digest`: 32 bytes.
pub record Digest : Type 0 where
  pub digest : Text → List ℕ
  pub digest_length : (s : Text) → length (digest s) ≡ 32

unfoldable pub session_hash : Digest → Text → List ℕ
session_hash sha256 session_id = take 16 (sha256.digest session_id)

unfoldable pub build_punch_packet : Digest → PunchPacketKind → Text → List ℕ
build_punch_packet sha256 kind session_id =
    let packet : List ℕ = replicate 20 0 in
    let with_magic : List ℕ = copy_at packet 0 (be32 (magic_of kind)) in
    copy_at with_magic 4 (session_hash sha256 session_id)

abbrev kind_of_magic : ℕ → Option PunchPacketKind
kind_of_magic magic =
    if magic == punch_magic
    then some PunchPacketKind.probe
    else if magic == punch_ack_magic
    then some PunchPacketKind.ack
    else none

-- `none` in the first place stands for the `expect` on a slice of fixed length, which is never met.
abbrev packet_of : Option PunchPacketKind → List ℕ → Result PunchPacket RendezvousError
packet_of none hash = err invalid_punch_packet_magic
packet_of (some kind) hash = ok (record { kind = kind; session_hash = hash })

abbrev read_magic : Option ℕ → Option PunchPacketKind
read_magic none = none
read_magic (some magic) = kind_of_magic magic

unfoldable pub parse_punch_packet : List ℕ → Result PunchPacket RendezvousError
parse_punch_packet bytes =
    if ltb (length bytes) 20
    then err invalid_punch_packet_length
    else packet_of (read_magic (from_be32 (take 4 bytes))) (take 16 (drop 4 bytes))
