-- ===== src/Mobile/Echo.antt =====
-- When the echo test succeeds.
use fips_nostr_bootstrap.Base.{
  ℕ, ◌≡◌, ◌↔◌, ◌⊎◌, inl, inr, refl, sym, ap, ◌∙◌, ◌==◌, text_eq, ==_iff, text, none, arith, true,
  Bool-cases, Option, some, List, [], ◌∷◌, ◌++◌, Text, All, take, drop,
}
use fips_nostr_bootstrap.SessionFrames.{frame_magic}
use fips_nostr_bootstrap.Mobile.{
  Turn, recv_failed, silence, datagram, Detail, not_framed, received_channel, unexpected_channel,
  channel_or_unknown, is_pong, echo_loop,
}

abbrev Awaited : Option Text → Type 0
Awaited o =
    (channel : Text) × (o ≡ some channel)
    × ((channel ≡ text "fips_pong") ⊎ (channel ≡ text "fips_status"))

Awaited-is_pong : (o : Option Text) → is_pong o ≡ true → Awaited o
Awaited-is_pong none h = cc
Awaited-is_pong (some channel) h = elim (Bool-cases (channel == text "fips_pong")) [
  | inl pong ↦ (channel, refl, inl ((==_iff channel (text "fips_pong")).0 pong))
  | inr other ↦ (channel, refl, inr ((==_iff channel (text "fips_status")).0 (ground arith)))
]

is_pong-Awaited : (o : Option Text) → Awaited o → is_pong o ≡ true
is_pong-Awaited o (channel, named, inl pong) =
    rw named (rw ((==_iff channel (text "fips_pong")).1 pong) refl)
is_pong-Awaited o (channel, named, inr status) =
    rw named (let is = (==_iff channel (text "fips_status")).1 status in ground arith)

module _ (channel_of : List ℕ → Option Text) where
  -- A framed datagram, with one of the two channels that the test waits for.
  abbrev pub IsPong : List ℕ → Type 0
  IsPong payload =
      (take 5 payload ≡ frame_magic)
      × ((channel : Text) × (channel_of (drop 5 payload) ≡ some channel)
          × ((channel ≡ text "fips_pong") ⊎ (channel ≡ text "fips_status")))

  -- A turn that the loop goes past.
  abbrev pub GoesPast : Turn → Type 0
  GoesPast recv_failed = ⊥
  GoesPast silence = Unit {0}
  GoesPast (datagram payload) = IsPong payload → ⊥

  -- A pong, behind turns that the loop goes past.
  pub record FirstPong (turns : List Turn) (detail : Detail) : Type 0 where
    pub before : List Turn
    pub payload : List ℕ
    pub after : List Turn
    pub order : turns ≡ before ++ (datagram payload ∷ after)
    pub passed : All GoesPast before
    pub pong : IsPong payload
    pub its : detail ≡ received_channel pong.1.0

  past :
      (turn : Turn) (turns : List Turn) (detail : Detail)
      → GoesPast turn
      → FirstPong turns detail
      → FirstPong (turn ∷ turns) detail
  past turn turns detail p v = record {
    before = turn ∷ v.before;
    payload = v.payload;
    after = v.after;
    order = ap (λ xs. turn ∷ xs) v.order;
    passed = (p, v.passed);
    pong = v.pong;
    its = v.its;
  }

  echo_loop-pong :
      (turns : List Turn) (before detail : Detail)
      → echo_loop channel_of turns before ≡ some (true, detail)
      → FirstPong turns detail
  unfolding echo_loop
  echo_loop-pong [] before detail h = cc
  echo_loop-pong (recv_failed ∷ turns) before detail h = cc
  echo_loop-pong (silence ∷ turns) before detail h =
      past silence turns detail tt (echo_loop-pong turns before detail h)
  echo_loop-pong (datagram payload ∷ turns) before detail h =
      elim (Bool-cases (take 5 payload == frame_magic)) [
        | inr unframed ↦
            past (datagram payload) turns detail
              (λ p. cc (unframed, (==_iff (take 5 payload) frame_magic).1 p.0))
              (echo_loop-pong turns not_framed detail (rw unframed at h))
        | inl framed ↦ elim (Bool-cases (is_pong (channel_of (drop 5 payload)))) [
          | inr other ↦
              past (datagram payload) turns detail
                (λ p. cc (other, is_pong-Awaited (channel_of (drop 5 payload)) p.1))
                (echo_loop-pong turns (unexpected_channel (channel_of (drop 5 payload))) detail
                  (rw (framed, other) at h))
          | inl pong ↦
              let taken : some
                    (true, received_channel (channel_or_unknown (channel_of (drop 5 payload))))
                  ≡ some (true, detail) =
                rw (framed, pong) at h in
              let (channel, named, awaited) = Awaited-is_pong (channel_of (drop 5 payload)) pong in
              record {
                before = [];
                payload = payload;
                after = turns;
                order = refl;
                passed = tt;
                pong = ((==_iff (take 5 payload) frame_magic).0 framed, (channel, named, awaited));
                its = let shown = ap channel_or_unknown named in cc (taken, shown);
              }
        ]
      ]

  pong_past :
      (before : List Turn) (payload : List ℕ) (after : List Turn) (so_far : Detail)
      → All GoesPast before
      → (v : IsPong payload)
      → echo_loop channel_of (before ++ (datagram payload ∷ after)) so_far
        ≡ some (true, received_channel v.1.0)
  unfolding echo_loop
  pong_past [] payload after so_far p v =
      rw
        (
          (==_iff (take 5 payload) frame_magic).1 v.0,
          is_pong-Awaited (channel_of (drop 5 payload)) v.1,
          v.1.1,
        )
        refl
  pong_past (recv_failed ∷ before) payload after so_far p v = elim p.0 [ ]
  pong_past (silence ∷ before) payload after so_far p v =
      pong_past before payload after so_far p.1 v
  pong_past (datagram other ∷ before) payload after so_far p v =
      elim (Bool-cases (take 5 other == frame_magic)) [
        | inr unframed ↦ rw unframed (pong_past before payload after not_framed p.1 v)
        | inl framed ↦ elim (Bool-cases (is_pong (channel_of (drop 5 other)))) [
          | inr unexpected ↦
              rw (framed, unexpected)
                (pong_past before payload after (unexpected_channel (channel_of (drop 5 other))) p.1
                  v)
          | inl pong ↦ absurd (
              p.0 (
                (==_iff (take 5 other) frame_magic).0 framed,
                Awaited-is_pong (channel_of (drop 5 other)) pong,
              ))
        ]
      ]

  -- The echo test succeeds exactly if a datagram with the magic and one of the two channels comes before
  -- the deadline and before a failure of the socket, and then it reports the channel of the first such one.
  pub echo_loop-FirstPong :
      (turns : List Turn) (so_far detail : Detail)
      → (echo_loop channel_of turns so_far ≡ some (true, detail)) ↔ FirstPong turns detail
  echo_loop-FirstPong turns so_far detail = (
    echo_loop-pong turns so_far detail,
    λ v.
        ap (λ ts. echo_loop channel_of ts so_far) v.order
        ∙ pong_past v.before v.payload v.after so_far v.passed v.pong
        ∙ ap (λ d. some (true, d)) (sym v.its),
  )
