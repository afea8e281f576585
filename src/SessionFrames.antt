-- ===== src/SessionFrames.antt =====
-- `encode_session_frame` and `decode_session_frame` of rust/fips-nostr-rendezvous/src/lib.rs. The
-- JSON of serde_json is a parameter.
pub mod RoundTrip
pub mod Disjoint
use fips_nostr_bootstrap.Base.{
  ℕ, ◌≡◌, ltb, ◌==◌, text_eq, not, if◌then◌else◌, Bool, Option, none, some, List, [], ◌∷◌, ◌++◌,
  Text, text, length, take, drop,
}
use fips_nostr_bootstrap.Schema.{
  SessionFrame, RendezvousError, invalid_punch_packet_length, invalid_punch_packet_magic, Result,
  ok, err,
}

-- serde_json on session frames: what is written is read back.
pub record FrameJson (Value : Type 0) : Type 0 where
  pub to_vec : SessionFrame Value → Option (List ℕ)
  pub from_slice : List ℕ → Option (SessionFrame Value)
  pub from_slice-to_vec :
      (frame : SessionFrame Value) (bytes : List ℕ)
      → to_vec frame ≡ some bytes
      → from_slice bytes ≡ some frame

-- `b"FIPS1"`
abbrev pub frame_magic : List ℕ
frame_magic = b'F' ∷ b'I' ∷ b'P' ∷ b'S' ∷ b'1' ∷ []

module _ {Value : Type 0} (json : FrameJson Value) where
  abbrev with_magic : Option (List ℕ) → Option (List ℕ)
  with_magic none = none
  with_magic (some bytes) = some (frame_magic ++ bytes)

  unfoldable pub encode_session_frame : SessionFrame Value → Option (List ℕ)
  encode_session_frame frame = with_magic (json.to_vec frame)

  abbrev or_magic_error : Option (SessionFrame Value) → Result (SessionFrame Value) RendezvousError
  or_magic_error none = err invalid_punch_packet_magic
  or_magic_error (some frame) = ok frame

  unfoldable pub decode_session_frame : List ℕ → Result (SessionFrame Value) RendezvousError
  decode_session_frame bytes =
      if ltb (length bytes) 5
      then err invalid_punch_packet_length
      else if not (take 5 bytes == frame_magic)
      then err invalid_punch_packet_magic
      else or_magic_error (json.from_slice (drop 5 bytes))
