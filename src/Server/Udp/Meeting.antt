-- ===== src/Server/Udp/Meeting.antt =====
-- The punch: a client's probe, the server's acknowledgement, and what both sides make of them.
use fips_nostr_bootstrap.Base.{
  ℕ, ◌≤◌, ◌≡◌, inl, inr, refl, ap, subst, leb, text_eq, if◌then◌else◌, Bool, true, ◌&&◌, Bool-cases,
  Option, none, some, List, [], ◌∷◌, Text, length, take, drop, done, slice-done, arith,
}
use fips_nostr_bootstrap.Base.HashMap.{get, get-insert_self}
use fips_nostr_bootstrap.Schema.{LegacyEndpoint, LegacyPunch, RendezvousError, Result, ok}
use fips_nostr_bootstrap.Traversal.{is_empty}
use fips_nostr_bootstrap.PunchPacket.{
  Digest, PunchPacketKind, PunchPacket, session_hash, build_punch_packet,
}
use fips_nostr_bootstrap.PunchPacket.RoundTrip.{length-build_punch_packet}
use fips_nostr_bootstrap.SessionFrames.{FrameJson}
use fips_nostr_bootstrap.Waiters.{Poll, register, reply, poll}
use fips_nostr_bootstrap.Waiters.Polls.{poll-reply}
use fips_nostr_bootstrap.Client.{ClientState, handle_datagram}
use fips_nostr_bootstrap.Client.Calls.{PunchTask, begin_punch, start_punch_plan_and_wait}
use fips_nostr_bootstrap.Client.Kinds.{
  parse_stun_binding_success-punch, parse_punch_packet-built, handle_datagram-build_punch_packet,
}
use fips_nostr_bootstrap.Server.{all_ip}
use fips_nostr_bootstrap.Server.Udp.{
  UdpState, UdpEffect, UdpRun, UdpMoment, ShellPayload, sent, handed_over, register_session_hash,
  hand_over, on_known_punch, on_punch_packet, serve_datagram,
}

abbrev Waits : Digest → Text → ClientState × Option PunchTask → Type 0
Waits sha256 session_id (c, none) = Unit {0}
Waits sha256 session_id (c, some task) =
    (get c.punch_hashes (session_hash sha256 session_id) ≡ some session_id)
    × (get c.pending_punch.pending session_id ≡ some task.channel)

-- A punch that was begun is registered, and its channel waits.
begun :
    (sha256 : Digest) (is_ip : Text → Bool) (s c : ClientState) (now : ℕ) (session_id : Text)
    (remotes : List LegacyEndpoint) (punch : LegacyPunch) (task : PunchTask)
    → start_punch_plan_and_wait sha256 is_ip s now session_id remotes punch ≡ (c, some task)
    → (get c.punch_hashes (session_hash sha256 session_id) ≡ some session_id)
      × (get c.pending_punch.pending session_id ≡ some task.channel)
unfolding start_punch_plan_and_wait register
begun sha256 is_ip s c now session_id remotes punch task e = elim (Bool-cases (is_empty remotes)) [
  | inl empty ↦ cc (rw empty at e)
  | inr full ↦ elim (Bool-cases (all_ip is_ip remotes)) [
    | inr bad ↦ cc (rw (full, bad) at e)
    | inl good ↦
        let same : begin_punch sha256 s now session_id remotes punch ≡ (c, some task) =
          rw (full, good) at e in
        subst (Waits sha256 session_id) same (
          get-insert_self s.punch_hashes (session_hash sha256 session_id) session_id,
          get-insert_self s.pending_punch.pending session_id s.pending_punch.next,
        )
  ]
]

-- The handoff that is due: to the peer that is pending, if the server hands over and has the socket.
abbrev pub to_peer : Text → LegacyEndpoint → Option Text → List UdpEffect
to_peer session_id remote none = []
to_peer session_id remote (some peer_npub) = handed_over session_id peer_npub remote ∷ []

abbrev pub due : UdpMoment → UdpState → Text → LegacyEndpoint → List UdpEffect
due m s session_id remote =
    if m.handoff_fips && s.handoff_socket
    then to_peer session_id remote (get s.pending_handoffs session_id)
    else []

module _ {Value : Type 0} (json : FrameJson Value) (payload : ShellPayload Value) (sha256 : Digest)
    (m : UdpMoment) where
  on_punch_packet-built :
      (s : UdpState) (remote : LegacyEndpoint) (packet : List ℕ) (kind : PunchPacketKind)
      (hash : List ℕ) (session_id : Text) (r : Result PunchPacket RendezvousError)
      → r ≡ ok (record { kind = kind; session_hash = hash })
      → get s.session_hashes hash ≡ some session_id
      → on_punch_packet json payload sha256 m s remote packet r
        ≡ on_known_punch json payload sha256 m s remote
            (record { kind = kind; session_hash = hash })
            session_id
  on_punch_packet-built s remote packet kind hash session_id r parsed known =
      rw parsed (rw known refl)

  serve_datagram-build_punch_packet :
      (s : UdpState) (remote : LegacyEndpoint) (kind : PunchPacketKind) (session_id : Text)
      → get s.session_hashes (session_hash sha256 session_id) ≡ some session_id
      → serve_datagram json payload sha256 m s remote (build_punch_packet sha256 kind session_id)
        ≡ done (
            on_known_punch json payload sha256 m s remote
              (record { kind = kind; session_hash = session_hash sha256 session_id })
              session_id)
  unfolding serve_datagram
  serve_datagram-build_punch_packet s remote kind session_id known =
      let packet : List ℕ = build_punch_packet sha256 kind session_id in
      let long : leb 20 (length packet) ≡ true =
        ground (arith, length-build_punch_packet sha256 kind session_id) in
      let room : 20 ≤ length packet =
        omega (arith, length-build_punch_packet sha256 kind session_id) in
      rw
        (
          long,
          slice-done packet 8 20 (omega arith) room,
          parse_stun_binding_success-punch sha256 kind session_id (take 12 (drop 8 packet)),
        )
        (ap done (
          on_punch_packet-built s remote packet kind (session_hash sha256 session_id) session_id _
            (parse_punch_packet-built sha256 kind session_id) known))

  hand_over-effects :
      (s : UdpState) (ack : UdpEffect) (session_id : Text) (remote : LegacyEndpoint)
      (o : Option Text)
      → (hand_over json payload sha256 m s (ack ∷ []) session_id remote o).effects
        ≡ ack ∷ (if s.handoff_socket then to_peer session_id remote o else [])
  hand_over-effects s ack session_id remote none = elim (Bool-cases s.handoff_socket) [
    | inl there ↦ rw there refl
    | inr gone ↦ rw gone refl
  ]
  hand_over-effects s ack session_id remote (some peer_npub) = elim (Bool-cases s.handoff_socket) [
    | inl there ↦ simp there refl
    | inr gone ↦ simp gone refl
  ]

  on_known_punch-effects :
      (s : UdpState) (remote : LegacyEndpoint) (hash : List ℕ) (session_id : Text)
      → (on_known_punch json payload sha256 m s remote
          (record { kind = PunchPacketKind.probe; session_hash = hash })
          session_id).effects
        ≡ sent remote (build_punch_packet sha256 PunchPacketKind.ack session_id)
          ∷ due m s session_id remote
  on_known_punch-effects s remote hash session_id = elim (Bool-cases m.handoff_fips) [
    | inl hands ↦
        simp hands (hand_over-effects s _ session_id remote (get s.pending_handoffs session_id))
    | inr keeps ↦ simp keeps refl
  ]

  -- A client has begun to punch for a session, and the server knows the session's hash, as both do
  -- after an accepted offer. When a probe of the client comes to the server, from the address that the
  -- client has there, the server acknowledges it, and then, if it hands over and still has the socket,
  -- hands the session over to the peer that is pending for it, if there is one, at that address; it does
  -- nothing else. When the acknowledgement comes to the client, the client sends nothing, and the call
  -- that waits finds the address that it came from.
  pub start_punch_plan_and_wait-serve_datagram :
      (s : UdpState) (before c : ClientState) (is_ip : Text → Bool) (now : ℕ) (session_id : Text)
      (remotes : List LegacyEndpoint) (punch : LegacyPunch) (task : PunchTask)
      (client_at server_at : LegacyEndpoint)
      → start_punch_plan_and_wait sha256 is_ip before now session_id remotes punch ≡ (c, some task)
      → let known = register_session_hash sha256 s session_id in
        let ack = build_punch_packet sha256 PunchPacketKind.ack session_id in
        (run : UdpRun) × (c' : ClientState) × (serve_datagram json payload sha256 m known client_at
            (build_punch_packet sha256 PunchPacketKind.probe session_id)
          ≡ done run)
        × (run.effects ≡ sent client_at ack ∷ due m s session_id client_at)
        × (handle_datagram json sha256 c server_at ack ≡ done (c', []))
        × (poll c'.pending_punch task.channel ≡ Poll.ready server_at)
  start_punch_plan_and_wait-serve_datagram s before c is_ip now session_id remotes punch task
        client_at server_at e =
      let known : UdpState = register_session_hash sha256 s session_id in
      let hash = session_hash sha256 session_id in
      let (hashed, waits) = begun sha256 is_ip before c now session_id remotes punch task e in
      (
        on_known_punch json payload sha256 m known client_at
            (record { kind = PunchPacketKind.probe; session_hash = hash }) session_id,
        record c { pending_punch = reply c.pending_punch session_id server_at },
        serve_datagram-build_punch_packet known client_at PunchPacketKind.probe session_id
            (get-insert_self s.session_hashes hash session_id),
        on_known_punch-effects known client_at hash session_id,
        handle_datagram-build_punch_packet json sha256 c server_at PunchPacketKind.ack session_id
            hashed,
        poll-reply c.pending_punch session_id server_at task.channel waits,
      )
