-- ===== src/Tests/Frames.antt =====
-- Video frames at concrete inputs.
use fips_nostr_bootstrap.Base.{
  ℕ, ◌≡◌, refl, true, none, some, List, [], ◌∷◌, Text, text, arith, ℕ_discrete, Text-discrete,
  replicate, length, for_each,
}
use fips_nostr_bootstrap.Base.HashMap.{get, insert, remove}
use fips_nostr_bootstrap.Video.{
  VideoState, FrameKey-discrete, frame_key_eq, accept_video_datagram, accept_chunk, store_chunk,
  send_video_frame, frame_packets, packets_from, chunks_of, chunk_packet, total_chunks_of,
  send_packets,
}
use fips_nostr_bootstrap.Video.Assembly.{IsValid, accept_video_datagram-IsValid}
use fips_nostr_bootstrap.Video.Parts.{Received}
use fips_nostr_bootstrap.Video.Reassembly.{accept_nth, accept_video_datagram-send_video_frame}

abbrev idle : VideoState
idle = record { pending_frames = []; latest_frame = none; frame_events = [] }

abbrev peer : Text
peer = text "npub1server"

abbrev second_half : List ℕ
second_half = 1 ∷ 0 ∷ 0 ∷ 0 ∷ 7 ∷ 0 ∷ 2 ∷ 0 ∷ 1 ∷ 30 ∷ []

abbrev first_half : List ℕ
first_half = 1 ∷ 0 ∷ 0 ∷ 0 ∷ 7 ∷ 0 ∷ 2 ∷ 0 ∷ 0 ∷ 10 ∷ 20 ∷ []

abbrev arrived : List (List ℕ) → VideoState
arrived = for_each (λ s p. accept_video_datagram s peer p 500) idle

-- The second half first, twice.
halves_arrive :
    (arrived (second_half ∷ second_half ∷ first_half ∷ [])).latest_frame
    ≡ some (record { frame_id = 7; jpeg = 10 ∷ 20 ∷ 30 ∷ []; received_at_ms = 500 })
unfolding text accept_video_datagram accept_chunk store_chunk get insert remove ℕ_discrete
    Text-discrete FrameKey-discrete
halves_arrive = refl

-- A datagram that announces no chunk leaves an assembly that no datagram completes.
abbrev hollow : List ℕ
hollow = 1 ∷ 0 ∷ 0 ∷ 0 ∷ 9 ∷ 0 ∷ 0 ∷ 0 ∷ 0 ∷ 5 ∷ []

hollow_stays : length (arrived (hollow ∷ hollow ∷ [])).pending_frames ≡ 1
unfolding text accept_video_datagram accept_chunk store_chunk get insert remove ℕ_discrete
    Text-discrete FrameKey-discrete
hollow_stays = refl

-- Two chunks.
abbrev picture : List ℕ
picture = replicate 901 42

two_packets : length (send_video_frame true (λ n. true) 7 picture).datagrams ≡ 2
unfolding send_video_frame send_packets frame_packets packets_from chunks_of chunk_packet
    total_chunks_of
two_packets = refl

accept_video_datagram-IsValid_example : IsValid (accept_video_datagram idle peer second_half 500)
accept_video_datagram-IsValid_example = accept_video_datagram-IsValid idle peer second_half 500 tt

accept_video_datagram-send_video_frame_example :
    Received
      (peer, 7)
      picture
      500
      idle
      (for_each
        (accept_nth peer 500 (send_video_frame true (λ n. true) 7 picture).datagrams)
        idle
        (1 ∷ 0 ∷ []))
unfolding get chunks_of ℕ_discrete
accept_video_datagram-send_video_frame_example =
    accept_video_datagram-send_video_frame peer 7 picture 500 (omega arith) (omega arith) idle
      (1 ∷ 0 ∷ []) refl (refl, (refl, tt)) (omega arith, (omega arith, tt)) refl (omega arith)
