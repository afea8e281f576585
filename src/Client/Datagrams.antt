-- ===== src/Client/Datagrams.antt =====
-- The UDP task against what it may do on a datagram.
use fips_nostr_bootstrap.Base.{
  ℕ, ◌≡◌, inl, inr, refl, sym, ap, subst, leb, ◌==◌, nat_eq, text_eq, ==_iff, not, ◌||◌, true,
  false, Bool-cases, Option, none, some, List, [], ◌∷◌, Text, text, length, take, drop, done,
  slice-done, arith,
}
use fips_nostr_bootstrap.Base.HashMap.{get}
use fips_nostr_bootstrap.Schema.{LegacyEndpoint, SessionFrame, RendezvousError, Result, ok, err}
use fips_nostr_bootstrap.PunchPacket.{Digest, PunchPacket, parse_punch_packet}
use fips_nostr_bootstrap.Stun.{parse_stun_binding_success}
use fips_nostr_bootstrap.Stun.Total.{parse_stun_binding_success_returns}
use fips_nostr_bootstrap.SessionFrames.{FrameJson, decode_session_frame}
use fips_nostr_bootstrap.Waiters.{reply}
use fips_nostr_bootstrap.Client.{
  ClientState, ActiveSession, ClientEffect, emitted_result, frame_in, on_frame, ack_for, punch_in,
  on_punch, stun_in, on_stun, handle_datagram, is_result,
}

abbrev pub txn_id_of : List ℕ → List ℕ
txn_id_of packet = take 12 (drop 8 packet)

result-channel :
    (channel : Option Text) → is_result channel ≡ true → channel ≡ some (text "shell_result")
result-channel none h = cc
result-channel (some channel) h = ap some ((==_iff channel (text "shell_result")).0 h)

from_remote :
    (remote expected : LegacyEndpoint)
    → (not (remote.host == expected.host) || not (remote.port == expected.port)) ≡ false
    → (expected.host ≡ remote.host) × (expected.port ≡ remote.port)
from_remote remote expected h = (
  elim (Bool-cases (remote.host == expected.host)) [
    | inl same ↦ sym ((==_iff remote.host expected.host).0 same)
    | inr other ↦ cc (rw other at h)
  ],
  elim (Bool-cases (remote.port == expected.port)) [
    | inl same ↦ sym ((==_iff remote.port expected.port).0 same)
    | inr other ↦ elim (Bool-cases (remote.host == expected.host)) [
      | inl same ↦ cc (rw (same, other) at h)
      | inr away ↦ cc (rw away at h)
    ]
  ],
)

module _ {Value : Type 0} (json : FrameJson Value) (sha256 : Digest) (s : ClientState)
    (remote : LegacyEndpoint) (packet : List ℕ) where
  -- What may come of a datagram: nothing; a STUN answer for a transaction under way is handed on; a
  -- punch packet of a session that is known is handed on, and a probe acknowledged; the result in a frame
  -- of the active session, from its remote, is emitted.
  pub data Handles : ClientState → List (ClientEffect Value) → Type 0 where
    ignored : Handles s []
    mapped :
        (endpoint : LegacyEndpoint) (channel : ℕ)
        → parse_stun_binding_success packet (txn_id_of packet) ≡ done (some endpoint)
        → get s.pending_stun.pending (txn_id_of packet) ≡ some channel
        → Handles (record s { pending_stun = reply s.pending_stun (txn_id_of packet) endpoint }) []
    punched :
        (punch : PunchPacket) (session_id : Text)
        → parse_punch_packet packet ≡ ok punch
        → get s.punch_hashes punch.session_hash ≡ some session_id
        → Handles
            (record s { pending_punch = reply s.pending_punch session_id remote })
            (ack_for json sha256 remote session_id punch.kind)
    results :
        (frame : SessionFrame Value) (active : ActiveSession)
        → decode_session_frame json packet ≡ ok frame
        → s.active_session ≡ some active
        → active.session_id ≡ frame.session_id
        → (active.remote.host ≡ remote.host) × (active.remote.port ≡ remote.port)
        → frame.channel ≡ some (text "shell_result")
        → Handles s (emitted_result frame.payload ∷ [])

  frame_in-Handles :
      (frame : SessionFrame Value) (o : Option ActiveSession)
      → decode_session_frame json packet ≡ ok frame
      → s.active_session ≡ o
      → let h = frame_in json sha256 s remote frame o in Handles h.0 h.1
  frame_in-Handles frame none decoded e = Handles.ignored
  frame_in-Handles frame (some active) decoded e =
      elim (Bool-cases (active.session_id == frame.session_id)) [
        | inr other ↦ rw other Handles.ignored
        | inl same ↦
            elim (Bool-cases (
              not (remote.host == active.remote.host) || not (remote.port == active.remote.port))) [
                | inl elsewhere ↦ rw (same, elsewhere) Handles.ignored
                | inr there ↦ elim (Bool-cases (is_result frame.channel)) [
                  | inr unread ↦ rw (same, there, unread) Handles.ignored
                  | inl read ↦
                      rw (same, there, read)
                        (Handles.results frame active decoded e
                          ((==_iff active.session_id frame.session_id).0 same)
                          (from_remote remote active.remote there)
                          (result-channel frame.channel read))
                ]
              ]
      ]

  on_frame-Handles :
      (r : Result (SessionFrame Value) RendezvousError)
      → decode_session_frame json packet ≡ r
      → let h = on_frame json sha256 s remote r in Handles h.0 h.1
  on_frame-Handles (err e) decoded = Handles.ignored
  on_frame-Handles (ok frame) decoded = frame_in-Handles frame s.active_session decoded refl

  punch_in-Handles :
      (punch : PunchPacket) (o : Option Text)
      → parse_punch_packet packet ≡ ok punch
      → get s.punch_hashes punch.session_hash ≡ o
      → let h = punch_in json sha256 s remote packet punch o in Handles h.0 h.1
  punch_in-Handles punch none parsed unknown =
      on_frame-Handles (decode_session_frame json packet) refl
  punch_in-Handles punch (some session_id) parsed known =
      Handles.punched punch session_id parsed known

  on_punch-Handles :
      (r : Result PunchPacket RendezvousError)
      → parse_punch_packet packet ≡ r
      → let h = on_punch json sha256 s remote packet r in Handles h.0 h.1
  on_punch-Handles (err e) parsed = on_frame-Handles (decode_session_frame json packet) refl
  on_punch-Handles (ok punch) parsed =
      punch_in-Handles punch (get s.punch_hashes punch.session_hash) parsed refl

  stun_in-Handles :
      (endpoint : LegacyEndpoint) (o : Option ℕ)
      → parse_stun_binding_success packet (txn_id_of packet) ≡ done (some endpoint)
      → get s.pending_stun.pending (txn_id_of packet) ≡ o
      → let h = stun_in json sha256 s remote packet (txn_id_of packet) endpoint o in Handles h.0 h.1
  stun_in-Handles endpoint none parsed unknown = on_punch-Handles (parse_punch_packet packet) refl
  stun_in-Handles endpoint (some channel) parsed known =
      Handles.mapped endpoint channel parsed known

  on_stun-Handles :
      (o : Option LegacyEndpoint)
      → parse_stun_binding_success packet (txn_id_of packet) ≡ done o
      → let h = on_stun json sha256 s remote packet (txn_id_of packet) o in Handles h.0 h.1
  on_stun-Handles none parsed = on_punch-Handles (parse_punch_packet packet) refl
  on_stun-Handles (some endpoint) parsed =
      stun_in-Handles endpoint (get s.pending_stun.pending (txn_id_of packet)) parsed refl

  -- No datagram ends the UDP task, and what it does is one of these.
  pub handle_datagram-Handles :
      (t : ClientState) × (effects : List (ClientEffect Value)) × (handle_datagram json sha256 s
          remote packet
        ≡ done (t, effects))
      × Handles t effects
  unfolding handle_datagram
  handle_datagram-Handles = elim (Bool-cases (leb 20 (length packet))) [
    | inl long ↦
        let (o, parsed) = parse_stun_binding_success_returns packet (txn_id_of packet) in
        let h : ClientState × List (ClientEffect Value) =
          on_stun json sha256 s remote packet (txn_id_of packet) o in
        (
          h.0,
          h.1,
          rw (long, slice-done packet 8 20 (omega arith) (ground arith), parsed) refl,
          on_stun-Handles o parsed,
        )
    | inr short ↦
        let h : ClientState × List (ClientEffect Value) =
          on_punch json sha256 s remote packet (parse_punch_packet packet) in
        (h.0, h.1, rw short refl, on_punch-Handles (parse_punch_packet packet) refl)
  ]

  pub handled-Handles :
      (t : ClientState) (effects : List (ClientEffect Value))
      → handle_datagram json sha256 s remote packet ≡ done (t, effects)
      → Handles t effects
  handled-Handles t effects e =
      let (t', effects', e', h) = handle_datagram-Handles in
      let same : (t', effects') ≡ (t, effects) = cc in
      subst (λ (p : ClientState × List (ClientEffect Value)). Handles p.0 p.1) same h
