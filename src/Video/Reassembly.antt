-- ===== src/Video/Reassembly.antt =====
-- The packets of a frame, in any order, give the frame back.
use fips_nostr_bootstrap.Base.{
  ℕ, ◌+◌, ◌*◌, ◌^◌, ◌≤◌, ◌<◌, ◌≡◌, refl, ap, sym, ◌∙◌, true, Option, none, some, List, [], ◌∷◌,
  Text, length, get_elem?, arith, nat_eq, All, Distinct, for_each,
}
use fips_nostr_bootstrap.Base.HashMap.{get}
use fips_nostr_bootstrap.Video.{
  FrameKey, frame_key_eq, VideoState, accept_video_datagram, jpeg_chunks, total_chunks_of,
  chunk_packet, frame_packets, send_video_frame,
}
use fips_nostr_bootstrap.Video.Assembly.{count_some-replicate}
use fips_nostr_bootstrap.Video.Chunks.{
  concat-jpeg_chunks, jpeg_chunks_some, length-jpeg_chunks, get_elem?-packets_from,
  accept_video_datagram-chunk_packet, send_video_frame-frame_packets,
}
use fips_nostr_bootstrap.Video.Slots.{fill-replicate}
use fips_nostr_bootstrap.Video.Parts.{
  Received, length-get_elem?, accept_part, Awaits, none_seen, accept_parts-Received,
}

abbrev accept_some : Text → ℕ → VideoState → Option (List ℕ) → VideoState
accept_some peer_npub now s none = s
accept_some peer_npub now s (some packet) = accept_video_datagram s peer_npub packet now

-- Packet number `i` of a list arrives, if there is one.
abbrev pub accept_nth : Text → ℕ → List (List ℕ) → VideoState → ℕ → VideoState
accept_nth peer_npub now packets s i = accept_some peer_npub now s (get_elem? packets i)

get_elem?-frame_packets :
    (frame_id : ℕ) (jpeg : List ℕ) (i : ℕ) (c : List ℕ)
    → length jpeg ≤ 65535 * 900
    → get_elem? (jpeg_chunks jpeg) i ≡ some c
    → get_elem? (frame_packets frame_id jpeg) i
      ≡ some (chunk_packet frame_id (length (jpeg_chunks jpeg)) i c)
unfolding frame_packets
get_elem?-frame_packets f jpeg i c fits e =
    let at : 0 + i ≡ i = omega arith in
    get_elem?-packets_from f (total_chunks_of jpeg) 0 (jpeg_chunks jpeg) i c e
    ∙ ap (λ j. some (chunk_packet f (total_chunks_of jpeg) j c)) at
    ∙ ap (λ n. some (chunk_packet f n i c)) (sym (length-jpeg_chunks jpeg fits).0)

module _ (peer_npub : Text) (frame_id : ℕ) (jpeg : List ℕ) (now : ℕ) (small : frame_id < 2 ^ 32)
    (fits : length jpeg ≤ 65535 * 900) where
  accept_one : VideoState → ℕ → VideoState
  accept_one t i =
      accept_part (peer_npub, frame_id) (jpeg_chunks jpeg) now t (get_elem? (jpeg_chunks jpeg) i) i

  accept_nth-accept_one :
      (s : VideoState) (i : ℕ)
      → i < length (jpeg_chunks jpeg)
      → accept_nth peer_npub now (frame_packets frame_id jpeg) s i ≡ accept_one s i
  unfolding accept_one
  accept_nth-accept_one s i h =
      let (c, e) = length-get_elem? (jpeg_chunks jpeg) i h in
      let few = length-jpeg_chunks jpeg fits in
      rw (get_elem?-frame_packets frame_id jpeg i c fits e, e)
        (accept_video_datagram-chunk_packet s peer_npub frame_id (length (jpeg_chunks jpeg)) i c now
          small few.1 (omega (arith, few.1, h)))

  for_each-accept_one :
      (s : VideoState) (order : List ℕ)
      → All (λ i. i < length (jpeg_chunks jpeg)) order
      → for_each (accept_nth peer_npub now (frame_packets frame_id jpeg)) s order
        ≡ for_each accept_one s order
  for_each-accept_one s [] h = refl
  for_each-accept_one s (i ∷ order) h =
      ap (λ t. for_each (accept_nth peer_npub now (frame_packets frame_id jpeg)) t order)
        (accept_nth-accept_one s i h.0)
      ∙ for_each-accept_one (accept_one s i) order h.1

  -- The packets that a connected sender sends for a frame, each of them once and in any order, are
  -- put together by a receiver that has no assembly of that frame: the frame is the latest one, was
  -- announced once, and leaves no assembly behind, for every frame of at most 65535 chunks that has
  -- one.
  pub accept_video_datagram-send_video_frame :
      (s : VideoState) (order : List ℕ)
      → get s.pending_frames (peer_npub, frame_id) ≡ none
      → Distinct order
      → All (λ i. i < length (jpeg_chunks jpeg)) order
      → length order ≡ length (jpeg_chunks jpeg)
      → 0 < length jpeg
      → Received
          (peer_npub, frame_id)
          jpeg
          now
          s
          (for_each
            (accept_nth peer_npub now (send_video_frame true (λ n. true) frame_id jpeg).datagrams)
            s
            order)
  unfolding accept_one
  accept_video_datagram-send_video_frame s order absent d inside count some_bytes =
      let parts : List (List ℕ) = jpeg_chunks jpeg in
      let key : FrameKey = (peer_npub, frame_id) in
      let fresh : Awaits key parts now s [] = (
        rw absent (
            ap (λ xs. record { total_chunks = length parts; chunks = xs; received_chunks = 0 })
              (sym (fill-replicate 0 parts))),
        rw (fill-replicate 0 parts) (count_some-replicate (List ℕ) (length parts)),
      ) in
      let received =
        accept_parts-Received key parts now s [] order fresh d
          (none_seen key parts now order inside)
          (omega (arith, count, jpeg_chunks_some jpeg some_bytes)) (omega (arith, count)) in
      rw (send_video_frame-frame_packets frame_id jpeg, for_each-accept_one s order inside)
        (rw (concat-jpeg_chunks jpeg) at received)
