-- ===== src/Video/Chunks.antt =====
-- The cut of a frame into chunks, and the layout of the packets.
use fips_nostr_bootstrap.Base.{
  ℕ, zero, suc, ◌+◌, ◌*◌, ◌/◌, ◌%◌, ◌^◌, ◌≤◌, ◌<◌, ◌≡◌, refl, ap, ◌∙◌, true, none, some, List, [],
  ◌∷◌, Text, length, drop, length-drop, take-append-drop, get_elem?, arith, nat_eq, ℕ_discrete,
  u16_mod, flat_map,
}
use fips_nostr_bootstrap.Video.{
  chunks_of, jpeg_chunks, total_chunks_of, chunk_packet, packets_from, frame_packets, VideoState,
  accept_video_datagram, accept_chunk, Sent, send_packets, send_video_frame,
}

-- The bytes of a list of chunks.
abbrev pub concat : List (List ℕ) → List ℕ
concat = flat_map λ c. c

concat-chunks_of :
    (fuel n : ℕ) (bytes : List ℕ)
    → length bytes ≤ fuel
    → 0 < n
    → concat (chunks_of fuel n bytes) ≡ bytes
unfolding chunks_of
concat-chunks_of zero n [] h p = refl
concat-chunks_of zero n (b ∷ bytes) h p = elim h [ ]
concat-chunks_of (suc fuel) n [] h p = refl
concat-chunks_of (suc fuel) n (b ∷ bytes) h p =
    rw (concat-chunks_of fuel n (drop n (b ∷ bytes)) (omega (arith, length-drop n (b ∷ bytes))) p)
      (take-append-drop n (b ∷ bytes))

-- The chunks of a frame are the frame.
pub concat-jpeg_chunks : (jpeg : List ℕ) → concat (jpeg_chunks jpeg) ≡ jpeg
concat-jpeg_chunks jpeg = concat-chunks_of (length jpeg) 900 jpeg (omega arith) (omega arith)

length-chunks_of :
    (fuel : ℕ) (bytes : List ℕ)
    → length bytes ≤ fuel
    → length (chunks_of fuel 900 bytes) ≡ (length bytes + 899) / 900
unfolding chunks_of
length-chunks_of zero [] h = refl
length-chunks_of zero (b ∷ bytes) h = elim h [ ]
length-chunks_of (suc fuel) [] h = refl
length-chunks_of (suc fuel) (b ∷ bytes) h = omega (
  arith,
  length-drop 900 (b ∷ bytes),
  length-chunks_of fuel (drop 900 (b ∷ bytes)) (omega (arith, length-drop 900 (b ∷ bytes))),
)

-- The announced number is the number of chunks, up to 65535 of them.
pub length-jpeg_chunks :
    (jpeg : List ℕ)
    → length jpeg ≤ 65535 * 900
    → (length (jpeg_chunks jpeg) ≡ total_chunks_of jpeg) × (length (jpeg_chunks jpeg) < 65536)
unfolding total_chunks_of
length-jpeg_chunks jpeg h =
    let count = length-chunks_of (length jpeg) jpeg (omega arith) in
    (omega (arith, count), omega (arith, count))

pub jpeg_chunks_some : (jpeg : List ℕ) → 0 < length jpeg → 0 < length (jpeg_chunks jpeg)
jpeg_chunks_some jpeg h = omega (arith, length-chunks_of (length jpeg) jpeg (omega arith))

-- Packet `i` carries chunk `i`.
pub get_elem?-packets_from :
    (frame_id total k : ℕ) (chunks : List (List ℕ)) (i : ℕ) (c : List ℕ)
    → get_elem? chunks i ≡ some c
    → get_elem? (packets_from frame_id total k chunks) i
      ≡ some (chunk_packet frame_id total (k + i) c)
unfolding packets_from
get_elem?-packets_from frame_id total k [] i c e = cc
get_elem?-packets_from frame_id total k (d ∷ chunks) zero c e =
    let here : k ≡ k + 0 = omega arith in cc
get_elem?-packets_from frame_id total k (d ∷ chunks) (suc i) c e =
    get_elem?-packets_from frame_id total (k + 1) chunks i c e
    ∙ ap (λ j. some (chunk_packet frame_id total j c)) (omega arith)

-- The receiver reads a packet as it was laid out.
pub accept_video_datagram-chunk_packet :
    (s : VideoState) (peer_npub : Text) (frame_id total i : ℕ) (c : List ℕ) (now : ℕ)
    → frame_id < 2 ^ 32
    → total < 65536
    → i < 65536
    → accept_video_datagram s peer_npub (chunk_packet frame_id total i c) now
      ≡ accept_chunk s (peer_npub, frame_id) total i c now
unfolding accept_video_datagram chunk_packet ℕ_discrete
accept_video_datagram-chunk_packet s peer f t i c now hf ht hi =
    let id : f / 16777216 % 256 * 16777216 + f / 65536 % 256 * 65536 + f / 256 % 256 * 256 + f % 256
        ≡ f =
      omega arith in
    let count : t / 256 % 256 * 256 + t % 256 ≡ t = omega arith in
    let at : i % u16_mod / 256 % 256 * 256 + i % u16_mod % 256 ≡ i = omega arith in
    rw (id, count, at) refl

-- A connected sender whose datagrams are all taken sends the packets of the frame.
pub send_video_frame-frame_packets :
    (frame_id : ℕ) (jpeg : List ℕ)
    → send_video_frame true (λ n. true) frame_id jpeg
      ≡ record { datagrams = frame_packets frame_id jpeg; outcome = none }
unfolding send_video_frame send_packets
send_video_frame-frame_packets frame_id jpeg = all_sent 0 (frame_packets frame_id jpeg)
  where
    all_sent :
        (n : ℕ) (packets : List (List ℕ))
        → send_packets (λ n. true) n packets ≡ record { datagrams = packets; outcome = none }
    all_sent n [] = refl
    all_sent n (p ∷ packets) =
        ap (λ (r : Sent). record r { datagrams = p ∷ r.datagrams }) (all_sent (n + 1) packets)
