-- ===== src/Video/Assembly.antt =====
-- Assemblies stay well formed, whatever datagrams arrive.
use fips_nostr_bootstrap.Base.{
  ℕ, zero, suc, ◌≤◌, ◌<◌, ◌≡◌, ◌⊎◌, inl, inr, refl, ap, leb, ◌==◌, nat_eq, not, Bool-cases, Option,
  none, some, List, [], ◌∷◌, Text, length, length-set, length-replicate, replicate, set, get_elem?,
  arith,
}
use fips_nostr_bootstrap.Base.HashMap.{
  get, AllEntries, AllEntries-get, AllEntries-insert, AllEntries-remove,
}
use fips_nostr_bootstrap.Video.{
  FrameAssembly, FrameKey, frame_key_eq, VideoState, fresh_assembly, or_fresh, put_chunk,
  store_chunk, accept_chunk, accept_video_datagram,
}

abbrev pub count_some {ℓ} : {A : Type ℓ} → List (Option A) → ℕ
count_some [] = 0
count_some (none ∷ xs) = count_some xs
count_some (some x ∷ xs) = suc (count_some xs)

-- As many slots as the sender announced, and the counter counts the filled ones.
pub record IsAssembly (a : FrameAssembly) : Type 0 where
  pub slots : length a.chunks ≡ a.total_chunks
  pub counted : a.received_chunks ≡ count_some a.chunks

-- An assembly that waits lacks a chunk, or was announced with none.
abbrev pub Waits : FrameAssembly → Type 0
Waits a = (a.received_chunks < a.total_chunks) ⊎ (a.total_chunks ≡ 0)

abbrev pub IsPending : FrameKey → FrameAssembly → Type 0
IsPending key a = IsAssembly a × Waits a

abbrev pub IsValid : VideoState → Type 0
IsValid s = AllEntries IsPending s.pending_frames

pub count_some-replicate {ℓ} :
    (A : Type ℓ) (n : ℕ) → count_some (replicate {A = Option A} n none) ≡ 0
count_some-replicate A zero = refl
count_some-replicate A (suc n) = count_some-replicate A n

pub count_some-set {ℓ} :
    {A : Type ℓ} (xs : List (Option A)) (i : ℕ) (c : A)
    → get_elem? xs i ≡ some none
    → count_some (set xs i (some c)) ≡ suc (count_some xs)
count_some-set [] i c e = cc
count_some-set (none ∷ xs) zero c e = refl
count_some-set (some x ∷ xs) zero c e = cc
count_some-set (none ∷ xs) (suc i) c e = count_some-set xs i c e
count_some-set (some x ∷ xs) (suc i) c e = ap suc (count_some-set xs i c e)

pub count_some-le {ℓ} : {A : Type ℓ} (xs : List (Option A)) → count_some xs ≤ length xs
count_some-le [] = omega arith
count_some-le (none ∷ xs) = omega (arith, count_some-le xs)
count_some-le (some x ∷ xs) = omega (arith, count_some-le xs)

fresh-IsAssembly : (n : ℕ) → IsAssembly (fresh_assembly n)
fresh-IsAssembly n = record {
  slots = length-replicate n none;
  counted = omega (arith, count_some-replicate (List ℕ) n);
}

-- What `or_fresh` gives is well formed, waits, and has the announced count.
or_fresh-IsPending :
    (key : FrameKey) (n : ℕ) (o : Option FrameAssembly)
    → ((a : FrameAssembly) → o ≡ some a → IsPending key a)
    → IsPending key (or_fresh n o) × ((or_fresh n o).total_chunks ≡ n)
or_fresh-IsPending key n none h = ((fresh-IsAssembly n, ground arith), refl)
or_fresh-IsPending key n (some a) h = elim (Bool-cases (not (a.total_chunks == n))) [
  | inl other ↦ rw other ((fresh-IsAssembly n, ground arith), refl)
  | inr same ↦ rw same (h a refl, ground arith)
]

put_chunk-IsAssembly :
    (a : FrameAssembly) (index : ℕ) (chunk : List ℕ) (o : Option (Option (List ℕ)))
    → get_elem? a.chunks index ≡ o
    → IsAssembly a
    → IsAssembly (put_chunk a index chunk o)
put_chunk-IsAssembly a index chunk none e v = v
put_chunk-IsAssembly a index chunk (some (some b)) e v = v
put_chunk-IsAssembly a index chunk (some none) e v = record {
  slots = omega (arith, v.slots, length-set a.chunks index (some chunk));
  counted = omega (arith, v.counted, count_some-set a.chunks index chunk e);
}

put_chunk-total :
    (a : FrameAssembly) (index : ℕ) (chunk : List ℕ) (o : Option (Option (List ℕ)))
    → (put_chunk a index chunk o).total_chunks ≡ a.total_chunks
put_chunk-total a index chunk none = refl
put_chunk-total a index chunk (some (some b)) = refl
put_chunk-total a index chunk (some none) = refl

store_chunk-IsValid :
    (s : VideoState) (key : FrameKey) (a : FrameAssembly) (now : ℕ)
    → IsValid s
    → IsAssembly a
    → IsValid (store_chunk s key a a.total_chunks now)
unfolding store_chunk
store_chunk-IsValid s key a now v w = elim (Bool-cases (a.received_chunks == a.total_chunks)) [
  | inl full ↦ rw full (AllEntries-remove IsPending s.pending_frames key v)
  | inr more ↦ rw more (
      AllEntries-insert IsPending s.pending_frames key a v
        (w, ground (arith, w.slots, w.counted, count_some-le a.chunks)))
]

pub accept_chunk-IsValid :
    (s : VideoState) (key : FrameKey) (total index : ℕ) (chunk : List ℕ) (now : ℕ)
    → IsValid s
    → IsValid (accept_chunk s key total index chunk now)
unfolding accept_chunk
accept_chunk-IsValid s key total index chunk now v =
    let a = or_fresh total (get s.pending_frames key) in
    let fresh =
      or_fresh-IsPending key total (get s.pending_frames key)
        (λ b e. AllEntries-get IsPending s.pending_frames key b v e) in
    elim (Bool-cases (leb (length a.chunks) index)) [
      | inl beyond ↦ rw beyond (AllEntries-insert IsPending s.pending_frames key a v fresh.0)
      | inr inside ↦
          let o = get_elem? a.chunks index in
          let stored =
            store_chunk-IsValid s key (put_chunk a index chunk o) now v
              (put_chunk-IsAssembly a index chunk o refl fresh.0.0) in
          rw inside (rw (put_chunk-total a index chunk o) at stored)
    ]

-- Every datagram, well formed or not, leaves a valid state: each pending assembly has the announced
-- number of slots, counts its filled ones, and waits for a chunk or was announced with none.
pub accept_video_datagram-IsValid :
    (s : VideoState) (peer_npub : Text) (payload : List ℕ) (now : ℕ)
    → IsValid s
    → IsValid (accept_video_datagram s peer_npub payload now)
unfolding accept_video_datagram
accept_video_datagram-IsValid s peer (k ∷ a ∷ b ∷ c ∷ d ∷ t ∷ u ∷ i ∷ j ∷ chunk) now v =
    elim (Bool-cases (not (k == 1))) [
      | inl other ↦ rw other v
      | inr frame ↦ rw frame (accept_chunk-IsValid s _ _ _ chunk now v)
    ]
accept_video_datagram-IsValid s peer _ now v = v
