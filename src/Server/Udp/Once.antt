-- ===== src/Server/Udp/Once.antt =====
-- The UDP task of the server turn by turn: it hands a session over only to the peer that is pending for
-- it, and at most one session.
use fips_nostr_bootstrap.Base.{
  ℕ, ◌+◌, ◌≤◌, ◌≡◌, ◌⊎◌, inl, inr, refl, leb, ◌==◌, text_eq, if◌then◌else◌, Bool, true, false,
  Bool-cases, Option, none, some, List, [], ◌∷◌, ◌++◌, Text, text, All, length, take, drop, Run,
  done, slice-done, arith,
}
use fips_nostr_bootstrap.Base.HashMap.{get, remove}
use fips_nostr_bootstrap.Schema.{LegacyEndpoint, SessionFrame, RendezvousError, Result, ok, err}
use fips_nostr_bootstrap.PunchPacket.{Digest, PunchPacketKind, PunchPacket, parse_punch_packet}
use fips_nostr_bootstrap.Stun.Total.{parse_stun_binding_success_returns}
use fips_nostr_bootstrap.SessionFrames.{FrameJson, decode_session_frame}
use fips_nostr_bootstrap.Server.Udp.{
  UdpState, UdpEffect, UdpRun, Next, UdpMoment, ShellPayload, Arrival, sent, handed_over, commanded,
  result_sent, ensure_session, acks, hand_over, on_channel, on_session_frame, on_known_punch,
  if_known, on_punch_packet, if_pending, on_stun_answer, serve_datagram, after_turn, udp_loop,
}
use fips_nostr_bootstrap.Waiters.{reply}
use fips_nostr_bootstrap.Server.Udp.Sessions.{
  handovers, MayHandOver, IsServed, same_sessions, ensure_session-KeepsSessions,
  ensure_session-remote, interrupted-KeepsSessions, quiet_turn,
}

module _ {Value : Type 0} (json : FrameJson Value) (payload : ShellPayload Value) (sha256 : Digest)
    (m : UdpMoment) (s : UdpState) (from : LegacyEndpoint) where
  on_channel-IsServed :
      (frame : SessionFrame Value) (channel : Option Text)
      → IsServed m s from (
          on_channel json payload sha256 m (ensure_session m s frame.session_id from) frame channel)
  on_channel-IsServed frame none =
      quiet_turn m s _ from [] Next.goes_on (ensure_session-KeepsSessions m s frame.session_id from)
        tt refl
  on_channel-IsServed frame (some channel) = elim (Bool-cases (channel == text "shell")) [
    | inl shell ↦ rw shell (
        quiet_turn m s _ from _ Next.goes_on
          (ensure_session-KeepsSessions m s frame.session_id from) (tt, tt) refl)
    | inr other ↦ elim (Bool-cases (channel == text "shell_interrupt")) [
      | inl stop ↦
          rw (other, stop)
            (quiet_turn m s _ from _ Next.goes_on
              (interrupted-KeepsSessions m s frame.session_id from _ refl)
              (ensure_session-remote m s frame.session_id from, tt) refl)
      | inr unread ↦
          rw (other, unread)
            (quiet_turn m s _ from [] Next.goes_on
              (ensure_session-KeepsSessions m s frame.session_id from) tt refl)
    ]
  ]

  on_session_frame-IsServed :
      (r : Result (SessionFrame Value) RendezvousError)
      → IsServed m s from (on_session_frame json payload sha256 m s from r)
  on_session_frame-IsServed (err e) =
      quiet_turn m s s from [] Next.goes_on (same_sessions s s refl) tt refl
  on_session_frame-IsServed (ok frame) = on_channel-IsServed frame frame.channel

  acks-handovers :
      (session_id : Text) (kind : PunchPacketKind)
      → handovers (acks json payload sha256 m from session_id kind) ≡ 0
  acks-handovers session_id PunchPacketKind.ack = refl
  acks-handovers session_id PunchPacketKind.probe = refl

  acks-allowed :
      (session_id : Text) (kind : PunchPacketKind)
      → All (MayHandOver m s from) (acks json payload sha256 m from session_id kind)
  acks-allowed session_id PunchPacketKind.ack = tt
  acks-allowed session_id PunchPacketKind.probe = (refl, tt)

  -- The end of a run with a handoff.
  over :
      (session_id peer_npub : Text) (kind : PunchPacketKind) (next : Next)
      → (next ≡ Next.goes_on → ⊥)
      → m.handoff_fips ≡ true
      → s.handoff_socket ≡ true
      → get s.pending_handoffs session_id ≡ some peer_npub
      → IsServed m s from (record {
        state = record s {
          pending_handoffs = remove s.pending_handoffs session_id;
          handoff_socket = false;
        };
        effects =
            acks json payload sha256 m from session_id kind
            ++ (handed_over session_id peer_npub from ∷ []);
        next = next;
      })
  over session_id peer_npub PunchPacketKind.ack next ends hands there pending = record {
    sessions =
        same_sessions s
          (record s {
            pending_handoffs = remove s.pending_handoffs session_id;
            handoff_socket = false;
          })
          refl;
    allowed = ((hands, there, pending, refl), tt);
    once = omega arith;
    last = λ e. absurd (ends e);
    spent = λ e. refl;
  }
  over session_id peer_npub PunchPacketKind.probe next ends hands there pending = record {
    sessions =
        same_sessions s
          (record s {
            pending_handoffs = remove s.pending_handoffs session_id;
            handoff_socket = false;
          })
          refl;
    allowed = (refl, ((hands, there, pending, refl), tt));
    once = omega arith;
    last = λ e. absurd (ends e);
    spent = λ e. refl;
  }

  ends_if : (b : Bool) → (if b then Next.breaks else Next.errs) ≡ Next.goes_on → ⊥
  ends_if true e = cc
  ends_if false e = cc

  hand_over-IsServed :
      (session_id : Text) (kind : PunchPacketKind) (o : Option Text)
      → (m.handoff_fips ≡ true) ⊎ (o ≡ none)
      → (o ≡ none) ⊎ (get s.pending_handoffs session_id ≡ o)
      → IsServed m s from (
          hand_over json payload sha256 m s
            (acks json payload sha256 m from session_id kind)
            session_id
            from
            o)
  hand_over-IsServed session_id kind none hands pending =
      quiet_turn m s _ from _ Next.goes_on (ensure_session-KeepsSessions m s session_id from)
        (acks-allowed session_id kind) (acks-handovers session_id kind)
  hand_over-IsServed session_id kind (some peer_npub) hands pending =
      elim (Bool-cases s.handoff_socket) [
        | inl there ↦ simp there (
            over session_id peer_npub kind _ (ends_if m.handoff_succeeds) (due hands) there
              (known pending))
        | inr gone ↦ simp gone (
            quiet_turn m s
              (record s {
                pending_handoffs = remove s.pending_handoffs session_id;
                handoff_socket = false;
              })
              from _ Next.errs
              (same_sessions s
                (record s {
                  pending_handoffs = remove s.pending_handoffs session_id;
                  handoff_socket = false;
                })
                refl)
              (acks-allowed session_id kind) (acks-handovers session_id kind))
      ]
    where
      due : (m.handoff_fips ≡ true) ⊎ (some peer_npub ≡ none) → m.handoff_fips ≡ true
      due (inl h) = h
      due (inr h) = cc

      known :
          (some peer_npub ≡ none) ⊎ (get s.pending_handoffs session_id ≡ some peer_npub)
          → get s.pending_handoffs session_id ≡ some peer_npub
      known (inl h) = cc
      known (inr h) = h

  on_known_punch-IsServed :
      (punch : PunchPacket) (session_id : Text)
      → IsServed m s from (on_known_punch json payload sha256 m s from punch session_id)
  on_known_punch-IsServed punch session_id = elim (Bool-cases m.handoff_fips) [
    | inl hands ↦ simp hands (
        hand_over-IsServed session_id punch.kind (get s.pending_handoffs session_id) (inl hands)
          (inr refl))
    | inr keeps ↦ simp keeps (hand_over-IsServed session_id punch.kind none (inr refl) (inl refl))
  ]

  if_known-IsServed :
      (packet : List ℕ) (punch : PunchPacket) (o : Option Text)
      → IsServed m s from (if_known json payload sha256 m s from packet punch o)
  if_known-IsServed packet punch none = on_session_frame-IsServed (decode_session_frame json packet)
  if_known-IsServed packet punch (some session_id) = on_known_punch-IsServed punch session_id

  on_punch_packet-IsServed :
      (packet : List ℕ) (r : Result PunchPacket RendezvousError)
      → IsServed m s from (on_punch_packet json payload sha256 m s from packet r)
  on_punch_packet-IsServed packet (err e) =
      on_session_frame-IsServed (decode_session_frame json packet)
  on_punch_packet-IsServed packet (ok punch) =
      if_known-IsServed packet punch (get s.session_hashes punch.session_hash)

  if_pending-IsServed :
      (packet : List ℕ) (txn_id : Text) (mapped : LegacyEndpoint) (o : Option ℕ)
      → IsServed m s from (if_pending json payload sha256 m s from packet txn_id mapped o)
  if_pending-IsServed packet txn_id mapped none =
      on_punch_packet-IsServed packet (parse_punch_packet packet)
  if_pending-IsServed packet txn_id mapped (some channel) =
      quiet_turn m s (record s { pending_stun = reply s.pending_stun txn_id mapped }) from []
        Next.goes_on
        (same_sessions s (record s { pending_stun = reply s.pending_stun txn_id mapped }) refl) tt
        refl

  on_stun_answer-IsServed :
      (packet : List ℕ) (txn_id : Text) (o : Option LegacyEndpoint)
      → IsServed m s from (on_stun_answer json payload sha256 m s from packet txn_id o)
  on_stun_answer-IsServed packet txn_id none =
      on_punch_packet-IsServed packet (parse_punch_packet packet)
  on_stun_answer-IsServed packet txn_id (some mapped) =
      if_pending-IsServed packet txn_id mapped (get s.pending_stun.pending txn_id)

  -- No datagram panics the server's task. Each session of before keeps its remote; an acknowledgement
  -- is sent back to where the datagram came from, and the result of an interrupt to its session's
  -- remote; and a session is handed over only if the server hands over,
  -- still has the socket, and has the peer pending, at that address; no more than one is, and then the
  -- socket is gone and the loop is left.
  pub serve_datagram-IsServed :
      (packet : List ℕ)
      → (run : UdpRun) × (serve_datagram json payload sha256 m s from packet ≡ done run)
        × IsServed m s from run
  unfolding serve_datagram
  serve_datagram-IsServed packet = elim (Bool-cases (leb 20 (length packet))) [
    | inl long ↦
        let txn_id = take 12 (drop 8 packet) in
        let (o, parsed) = parse_stun_binding_success_returns packet txn_id in
        (
          on_stun_answer json payload sha256 m s from packet txn_id o,
          rw (long, slice-done packet 8 20 (omega arith) (ground arith), parsed) refl,
          on_stun_answer-IsServed packet txn_id o,
        )
    | inr short ↦ (
      on_punch_packet json payload sha256 m s from packet (parse_punch_packet packet),
      rw short refl,
      on_punch_packet-IsServed packet (parse_punch_packet packet),
    )
  ]

module _ {Value : Type 0} (json : FrameJson Value) (payload : ShellPayload Value)
    (sha256 : Digest) where
  handovers-append : (a b : List UdpEffect) → handovers (a ++ b) ≡ handovers a + handovers b
  handovers-append [] b = omega arith
  handovers-append (handed_over session_id peer_npub remote ∷ a) b =
      omega (arith, handovers-append a b)
  handovers-append (sent remote bytes ∷ a) b = handovers-append a b
  handovers-append (commanded session_id id command ∷ a) b = handovers-append a b
  handovers-append (result_sent session_id remote result ∷ a) b = handovers-append a b

  abbrev OverAtMostOnce : Run UdpRun → Type 0
  OverAtMostOnce r = (run : UdpRun) × (r ≡ done run) × (handovers run.effects ≤ 1)

  after_turn-Once :
      (rest : UdpState → Run UdpRun) (t : UdpState) (effects : List UdpEffect) (next : Next)
      → OverAtMostOnce (rest t)
      → handovers effects ≤ 1
      → (next ≡ Next.goes_on → handovers effects ≡ 0)
      → OverAtMostOnce (after_turn json payload sha256 rest t effects next)
  after_turn-Once rest t effects Next.goes_on (run, e, less) once last = (
    record run { effects = effects ++ run.effects },
    rw e refl,
    omega (arith, handovers-append effects run.effects, last refl, less),
  )
  after_turn-Once rest t effects Next.breaks later once last =
      (record { state = t; effects = effects; next = Next.breaks }, refl, once)
  after_turn-Once rest t effects Next.errs later once last =
      (record { state = t; effects = effects; next = Next.errs }, refl, once)

  -- Whatever arrives, and whatever the other tasks do in between, the loop of the server's UDP task does
  -- not panic, and hands over at most one session.
  pub udp_loop-once :
      (arrivals : List Arrival) (s : UdpState)
      → (run : UdpRun) × (udp_loop json payload sha256 arrivals s ≡ done run)
        × (handovers run.effects ≤ 1)
  unfolding udp_loop
  udp_loop-once [] s = (record { state = s; effects = []; next = Next.goes_on }, refl, omega arith)
  udp_loop-once (a ∷ arrivals) s =
      let (turn, e, served) =
        serve_datagram-IsServed json payload sha256 a.moment (a.since s) a.remote a.packet in
      let (run, same, once) =
        after_turn-Once (udp_loop json payload sha256 arrivals) turn.state turn.effects turn.next
          (udp_loop-once arrivals turn.state) served.once served.last in
      (run, rw e same, once)
