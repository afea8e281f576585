-- ===== src/Tests/Wire.antt =====
-- STUN, punch packets, session frames and STUN URLs at concrete inputs.
use fips_nostr_bootstrap.Base.{
  ℕ, ◌==◌, text_eq, is_yes, if◌then◌else◌, ◌≡◌, ◌≢◌, ◌↔◌, refl, Option, none, some, List, [], ◌∷◌,
  ◌++◌, text, arith, replicate, length, length-replicate, done, ℕ_discrete, Text-discrete, slice,
}
use fips_nostr_bootstrap.Base.Decimal.{decimal, parse_u16}
use fips_nostr_bootstrap.Schema.{
  SessionFrame, StunEndpoint, LegacyEndpoint, invalid_stun_url, invalid_punch_packet_length, ok,
  err,
}
use fips_nostr_bootstrap.StunUrl.{parse_stun_url, strip_prefix, rsplit_once}
use fips_nostr_bootstrap.StunUrl.RoundTrip.{print_stun_url, parse_stun_url-print}
use fips_nostr_bootstrap.PunchPacket.{
  PunchPacket, PunchPacketKind, Digest, session_hash, parse_punch_packet,
}
use fips_nostr_bootstrap.PunchPacket.Errors.{Carries, parse_punch_packet-Carries}
use fips_nostr_bootstrap.SessionFrames.{FrameJson, frame_magic, encode_session_frame}
use fips_nostr_bootstrap.Stun.{
  parse_stun_binding_success, ipv4_text, stun_attr_xor_mapped_address, create_stun_binding_request,
}
use fips_nostr_bootstrap.Stun.Total.{parse_stun_binding_success_returns}
use fips_nostr_bootstrap.Stun.Response.{attribute, xor_mapped_value}
use fips_nostr_bootstrap.Stun.RoundTrip.{
  attributes, binding_success, parse_stun_binding_success-xor_mapped,
}

abbrev google : StunEndpoint
google = record { host = text "stun.l.google.com"; port = 19302 }

google_parses : parse_stun_url (text "stun:stun.l.google.com:19302") ≡ ok google
unfolding parse_stun_url strip_prefix rsplit_once parse_u16 text ℕ_discrete
google_parses = refl

bad_url : parse_stun_url (text "stun:bad") ≡ err (invalid_stun_url (text "stun:bad"))
unfolding parse_stun_url strip_prefix rsplit_once parse_u16 text ℕ_discrete
bad_url = refl

text-ne-nil : text "fips.tomdwyer.uk" ≢ []
unfolding text
text-ne-nil e = cc

parse_stun_url-print_example :
    parse_stun_url (print_stun_url (text "fips.tomdwyer.uk") 3478)
    ≡ ok (record { host = text "fips.tomdwyer.uk"; port = 3478 })
parse_stun_url-print_example =
    parse_stun_url-print (text "fips.tomdwyer.uk") 3478 text-ne-nil (omega arith)

-- A digest that is a byte repeated.
abbrev pub flat_digest : Digest
flat_digest = record {
  digest = λ s. replicate 32 (length s);
  digest_length = λ s. length-replicate 32 (length s);
}

abbrev punched : PunchPacket
punched = record {
  kind = PunchPacketKind.ack;
  session_hash = session_hash flat_digest (text "sess-1");
}

abbrev probe_bytes : List ℕ
probe_bytes = 0x4E ∷ 0x50 ∷ 0x54 ∷ 0x43 ∷ replicate 16 9

abbrev probed : PunchPacket
probed = record { kind = PunchPacketKind.probe; session_hash = replicate 16 9 }

parse_punch_packet-Carries_example :
    (parse_punch_packet probe_bytes ≡ ok probed) ↔ Carries probe_bytes probed
parse_punch_packet-Carries_example = parse_punch_packet-Carries probe_bytes probed

short_packet : parse_punch_packet (1 ∷ 2 ∷ []) ≡ err invalid_punch_packet_length
unfolding parse_punch_packet
short_packet = refl

abbrev pub a_frame : SessionFrame ℕ
a_frame = record {
  session_id = text "sess-1";
  frame_type = text "data";
  channel = some (text "shell");
  payload = 5;
  at = 42;
}

frame_discrete : Discrete (SessionFrame ℕ)
unfolding ℕ_discrete Text-discrete
frame_discrete = hlevel (ℕ_discrete, Text-discrete)

-- A JSON that knows one frame.
pub write_frame : SessionFrame ℕ → Option (List ℕ)
write_frame f = if is_yes (frame_discrete f a_frame) then some (b'{' ∷ b'}' ∷ []) else none

pub read_frame : List ℕ → Option (SessionFrame ℕ)
read_frame bytes = if bytes == (b'{' ∷ b'}' ∷ []) then some a_frame else none

pub read_frame-write_frame :
    (f : SessionFrame ℕ) (bytes : List ℕ) → write_frame f ≡ some bytes → read_frame bytes ≡ some f
unfolding write_frame read_frame
read_frame-write_frame f bytes e = ground arith

abbrev pub one_frame : FrameJson ℕ
one_frame = record {
  to_vec = write_frame;
  from_slice = read_frame;
  from_slice-to_vec = read_frame-write_frame;
}

abbrev pub frame_bytes : List ℕ
frame_bytes = frame_magic ++ (b'{' ∷ b'}' ∷ [])

frame_encodes : encode_session_frame one_frame a_frame ≡ some frame_bytes
unfolding encode_session_frame write_frame frame_discrete text
frame_encodes = refl

abbrev txn : List ℕ
txn = 1 ∷ 2 ∷ 3 ∷ 4 ∷ 5 ∷ 6 ∷ 7 ∷ 8 ∷ 9 ∷ 10 ∷ 11 ∷ 12 ∷ []

-- A SOFTWARE attribute in front of the address, as servers send it.
abbrev software : List (ℕ × List ℕ)
software = (0x8022, b'x' ∷ b'y' ∷ b'z' ∷ []) ∷ []

request_bytes : create_stun_binding_request txn ≡ 0 ∷ 1 ∷ 0 ∷ 0 ∷ 0x21 ∷ 0x12 ∷ 0xa4 ∷ 0x42 ∷ txn
unfolding create_stun_binding_request
request_bytes = refl

parse_stun_binding_success-xor_mapped_example :
    parse_stun_binding_success
      (binding_success txn (
        attributes software
        ++ (attribute stun_attr_xor_mapped_address (xor_mapped_value 203 0 113 10 62000) ++ [])))
      txn
    ≡ done (some (record { host = ipv4_text 203 0 113 10; port = 62000 }))
unfolding attribute
parse_stun_binding_success-xor_mapped_example =
    parse_stun_binding_success-xor_mapped txn software 203 0 113 10 62000 [] refl (omega arith)
      (omega arith) (omega arith) (omega arith) (omega arith)
      ((omega arith, omega arith, omega arith, omega arith), tt) (omega arith)

-- An attribute that claims more bytes than there are ends the search.
truncated_response :
    parse_stun_binding_success
      (1 ∷ 1 ∷ 0 ∷ 4 ∷ 0x21 ∷ 0x12 ∷ 0xa4 ∷ 0x42 ∷ (txn ++ (0 ∷ 0x20 ∷ 0 ∷ 8 ∷ [])))
      txn
    ≡ done none
unfolding parse_stun_binding_success slice Text-discrete ℕ_discrete
truncated_response = refl

parse_stun_binding_success_returns_example :
    (r : Option LegacyEndpoint) × (parse_stun_binding_success (1 ∷ 1 ∷ 0 ∷ 4 ∷ txn) txn ≡ done r)
parse_stun_binding_success_returns_example =
    parse_stun_binding_success_returns (1 ∷ 1 ∷ 0 ∷ 4 ∷ txn) txn

-- `a.b.c.d`, digit by digit.
address_text : ipv4_text 203 0 113 10 ≡ text "203.0.113.10"
unfolding ipv4_text decimal text
address_text = refl
