-- ===== src/Video.antt =====
-- Video frames over FIPS datagrams: `send_video_frame` and `accept_video_datagram` of
-- rust/fips-nostr-rendezvous/src/bin/fips-video-daemon.rs. A peer that sends nothing but what the
-- daemon sends is one case; the theorems on validity range over all datagrams.
pub mod Assembly
pub mod Chunks
pub mod Slots
pub mod Parts
pub mod Reassembly
use fips_nostr_bootstrap.Base.{
  ℕ, zero, suc, ◌+◌, ◌-◌, ◌*◌, ◌/◌, ◌%◌, ◌^◌, ltb, leb, ◌==◌, nat_eq, Eq, ℕ_discrete, not,
  if◌then◌else◌, Bool, true, false, Option, none, some, List, [], ◌∷◌, ◌++◌, Text, Text-discrete,
  length, take, drop, replicate, set, get_elem?, be16, be32, u16_mod,
}
use fips_nostr_bootstrap.Base.HashMap.{HashMap, get, insert, remove}

abbrev pub video_app_port : ℕ
video_app_port = 4100

abbrev pub video_frame_chunk_size : ℕ
video_frame_chunk_size = 900

abbrev pub video_frame_kind : ℕ
video_frame_kind = 1

pub record LatestFrame : Type 0 where
  pub frame_id : ℕ
  pub jpeg : List ℕ
  pub received_at_ms : ℕ

pub record FrameAssembly : Type 0 where
  pub total_chunks : ℕ
  pub chunks : List (Option (List ℕ))
  pub received_chunks : ℕ

-- The key of an assembly: the peer and the frame's id.
abbrev pub FrameKey : Type 0
FrameKey = Text × ℕ

unfoldable pub FrameKey-discrete : Discrete FrameKey
unfolding ℕ_discrete Text-discrete
FrameKey-discrete = hlevel (ℕ_discrete, Text-discrete)

instance abbrev pub frame_key_eq : Eq FrameKey
frame_key_eq = record { discrete = FrameKey-discrete }

-- The fields of the daemon's state that frames touch, and the `frame` events that it emitted.
pub record VideoState : Type 0 where
  pub pending_frames : HashMap FrameKey FrameAssembly
  pub latest_frame : Option LatestFrame
  pub frame_events : List ℕ

abbrev pub fresh_assembly : ℕ → FrameAssembly
fresh_assembly total_chunks = record {
  total_chunks = total_chunks;
  chunks = replicate total_chunks none;
  received_chunks = 0;
}

-- `pending.entry(key).or_insert_with(…)`, and the reset when the count differs.
abbrev or_fresh : ℕ → Option FrameAssembly → FrameAssembly
or_fresh total_chunks none = fresh_assembly total_chunks
or_fresh total_chunks (some assembly) =
    if not (assembly.total_chunks == total_chunks) then fresh_assembly total_chunks else assembly

-- A chunk that is there already is kept.
abbrev put_chunk : FrameAssembly → ℕ → List ℕ → Option (Option (List ℕ)) → FrameAssembly
put_chunk assembly index chunk (some none) = record assembly {
  chunks = set assembly.chunks index (some chunk);
  received_chunks = assembly.received_chunks + 1;
}
put_chunk assembly index chunk _ = assembly

abbrev pub concat_chunks : List (Option (List ℕ)) → List ℕ
concat_chunks [] = []
concat_chunks (none ∷ chunks) = concat_chunks chunks
concat_chunks (some bytes ∷ chunks) = bytes ++ concat_chunks chunks

abbrev complete_frame : VideoState → FrameKey → FrameAssembly → ℕ → VideoState
complete_frame s key assembly now = record {
  pending_frames = remove s.pending_frames key;
  latest_frame =
      some
        (record { frame_id = key.1; jpeg = concat_chunks assembly.chunks; received_at_ms = now });
  frame_events = s.frame_events ++ (key.1 ∷ []);
}

abbrev keep_assembly : VideoState → FrameKey → FrameAssembly → VideoState
keep_assembly s key assembly = record s { pending_frames = insert s.pending_frames key assembly }

unfoldable pub store_chunk : VideoState → FrameKey → FrameAssembly → ℕ → ℕ → VideoState
store_chunk s key assembly total_chunks now =
    if assembly.received_chunks == total_chunks
    then complete_frame s key assembly now
    else keep_assembly s key assembly

unfoldable pub accept_chunk : VideoState → FrameKey → ℕ → ℕ → List ℕ → ℕ → VideoState
accept_chunk s key total_chunks index chunk now =
    let assembly = or_fresh total_chunks (get s.pending_frames key) in
    if leb (length assembly.chunks) index
    then keep_assembly s key assembly
    else store_chunk s key (put_chunk assembly index chunk (get_elem? assembly.chunks index))
        assembly.total_chunks now

-- The nine bytes of the pattern are the test on the length.
unfoldable pub accept_video_datagram : VideoState → Text → List ℕ → ℕ → VideoState
accept_video_datagram s peer_npub (kind ∷ f0 ∷ f1 ∷ f2 ∷ f3 ∷ t0 ∷ t1 ∷ i0 ∷ i1 ∷ chunk) now =
    if not (kind == video_frame_kind)
    then s
    else accept_chunk s (peer_npub, f0 * 16777216 + f1 * 65536 + f2 * 256 + f3) (t0 * 256 + t1)
        (i0 * 256 + i1) chunk now
accept_video_datagram s peer_npub _ now = s

-- `jpeg.chunks(n)`, on fuel: each chunk but the last has `n` bytes.
unfoldable pub chunks_of : ℕ → ℕ → List ℕ → List (List ℕ)
chunks_of zero n bytes = []
chunks_of (suc fuel) n [] = []
chunks_of (suc fuel) n (b ∷ bytes) = take n (b ∷ bytes) ∷ chunks_of fuel n (drop n (b ∷ bytes))

abbrev pub jpeg_chunks : List ℕ → List (List ℕ)
jpeg_chunks jpeg = chunks_of (length jpeg) video_frame_chunk_size jpeg

-- `len.div_ceil(n) as u16`
unfoldable pub total_chunks_of : List ℕ → ℕ
total_chunks_of jpeg =
    (length jpeg + (video_frame_chunk_size - 1)) / video_frame_chunk_size % u16_mod

unfoldable pub chunk_packet : ℕ → ℕ → ℕ → List ℕ → List ℕ
chunk_packet frame_id total_chunks index chunk =
    video_frame_kind ∷ (be32 frame_id ++ (be16 total_chunks ++ (be16 (index % u16_mod) ++ chunk)))

-- The `for` loop, with the index of `enumerate()`.
unfoldable pub packets_from : ℕ → ℕ → ℕ → List (List ℕ) → List (List ℕ)
packets_from frame_id total_chunks index [] = []
packets_from frame_id total_chunks index (chunk ∷ rest) =
    chunk_packet frame_id total_chunks index chunk
    ∷ packets_from frame_id total_chunks (index + 1) rest

unfoldable pub frame_packets : ℕ → List ℕ → List (List ℕ)
unfolding packets_from
frame_packets frame_id jpeg = packets_from frame_id (total_chunks_of jpeg) 0 (jpeg_chunks jpeg)

pub data SendError : Type 0 where
  not_connected send_failed : SendError

-- What was sent, and how the call ended.
pub record Sent : Type 0 where
  pub datagrams : List (List ℕ)
  pub outcome : Option SendError

-- `deliver n` is whether the runtime takes the datagram `n` of this call.
unfoldable pub send_packets : (ℕ → Bool) → ℕ → List (List ℕ) → Sent
send_packets deliver n [] = record { datagrams = []; outcome = none }
send_packets deliver n (p ∷ packets) =
    let rest = send_packets deliver (n + 1) packets in
    if deliver n
    then record { datagrams = p ∷ rest.datagrams; outcome = rest.outcome }
    else record { datagrams = []; outcome = some send_failed }

-- `frame_id` is the random u32 of the call.
unfoldable pub send_video_frame : Bool → (ℕ → Bool) → ℕ → List ℕ → Sent
unfolding send_packets
send_video_frame connected deliver frame_id jpeg =
    if connected
    then send_packets deliver 0 (frame_packets frame_id jpeg)
    else record { datagrams = []; outcome = some not_connected }
