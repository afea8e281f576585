-- ===== src/Server/Udp/Sessions.antt =====
-- What a turn of the server's UDP task may do to its sessions and hand over.
use fips_nostr_bootstrap.Base.{
  ℕ, ◌+◌, ◌≤◌, ◌≡◌, inl, inr, refl, ap, ◌∙◌, ◌==◌, ==_iff, text_eq, true, false, Bool-cases, Option,
  none, some, List, [], ◌∷◌, Text, All, arith,
}
use fips_nostr_bootstrap.Base.HashMap.{get, insert, get-insert}
use fips_nostr_bootstrap.Schema.{LegacyEndpoint}
use fips_nostr_bootstrap.Server.Udp.{
  Session, UdpState, UdpEffect, UdpRun, Next, UdpMoment, sent, handed_over, commanded, result_sent,
  with_session, session_or_new, ensure_session,
}

-- The handoffs among the effects.
abbrev pub handovers : List UdpEffect → ℕ
handovers [] = 0
handovers (handed_over session_id peer_npub remote ∷ effects) = 1 + handovers effects
handovers (sent remote bytes ∷ effects) = handovers effects
handovers (commanded session_id id command ∷ effects) = handovers effects
handovers (result_sent session_id remote result ∷ effects) = handovers effects

-- The remote of a session, which is where the datagram comes from if the session is not known.
abbrev pub remote_of : LegacyEndpoint → Option Session → LegacyEndpoint
remote_of from none = from
remote_of from (some session) = session.remote

-- A handoff is of a session whose peer was pending, at the address of the datagram, with the socket; an
-- acknowledgement goes back to that address, and the result of an interrupt to the session's remote.
abbrev pub MayHandOver : UdpMoment → UdpState → LegacyEndpoint → UdpEffect → Type 0
MayHandOver m s from (handed_over session_id peer_npub remote) =
    (m.handoff_fips ≡ true)
    × (s.handoff_socket ≡ true)
    × (get s.pending_handoffs session_id ≡ some peer_npub)
    × (remote ≡ from)
MayHandOver m s from (sent remote bytes) = remote ≡ from
MayHandOver m s from (commanded session_id id command) = Unit {0}
MayHandOver m s from (result_sent session_id remote result) =
    remote ≡ remote_of from (get s.sessions session_id)

-- The session is still there, with its remote.
abbrev pub KeepsSessions : UdpState → UdpState → Type 0
KeepsSessions s t =
    (id : Text) (session : Session)
    → get s.sessions id ≡ some session
    → (session' : Session) × (get t.sessions id ≡ some session')
      × (session'.remote ≡ session.remote)

pub record IsServed (m : UdpMoment) (s : UdpState) (from : LegacyEndpoint) (run : UdpRun)
    : Type 0 where
  pub sessions : KeepsSessions s run.state
  pub allowed : All (MayHandOver m s from) run.effects
  pub once : handovers run.effects ≤ 1
  pub last : run.next ≡ Next.goes_on → handovers run.effects ≡ 0
  pub spent : handovers run.effects ≡ 1 → run.state.handoff_socket ≡ false

pub same_sessions : (s t : UdpState) → t.sessions ≡ s.sessions → KeepsSessions s t
same_sessions s t e id session h = (session, ap (λ m. get m id) e ∙ h, refl)

with_session-KeepsSessions :
    (s : UdpState) (session_id : Text) (new : Session) (o : Option Session)
    → get s.sessions session_id ≡ o
    → KeepsSessions s (with_session s session_id new o)
with_session-KeepsSessions s session_id new (some session) e id there h = (there, h, refl)
with_session-KeepsSessions s session_id new none e id there h =
    elim (Bool-cases (session_id == id)) [
      | inl same ↦ cc (e, h, ap (get s.sessions) ((==_iff session_id id).0 same))
      | inr other ↦ (there, rw (get-insert s.sessions session_id new id, other) h, refl)
    ]

pub ensure_session-KeepsSessions :
    (m : UdpMoment) (s : UdpState) (session_id : Text) (remote : LegacyEndpoint)
    → KeepsSessions s (ensure_session m s session_id remote).0
unfolding ensure_session
ensure_session-KeepsSessions m s session_id remote =
    with_session-KeepsSessions s session_id (session_or_new m remote (get s.sessions session_id))
      (get s.sessions session_id) refl

session_or_new-remote :
    (m : UdpMoment) (from : LegacyEndpoint) (o : Option Session)
    → (session_or_new m from o).remote ≡ remote_of from o
session_or_new-remote m from none = refl
session_or_new-remote m from (some session) = refl

pub ensure_session-remote :
    (m : UdpMoment) (s : UdpState) (session_id : Text) (from : LegacyEndpoint)
    → (ensure_session m s session_id from).1.remote ≡ remote_of from (get s.sessions session_id)
unfolding ensure_session
ensure_session-remote m s session_id from = session_or_new-remote m from (get s.sessions session_id)

ensured :
    (m : UdpMoment) (s : UdpState) (session_id : Text) (remote : LegacyEndpoint) (session : Session)
    → get s.sessions session_id ≡ some session
    → (ensure_session m s session_id remote).1 ≡ session
unfolding ensure_session
ensured m s session_id remote session h = rw h refl

-- An interrupt changes the session's shell alone.
pub interrupted-KeepsSessions :
    (m : UdpMoment) (s : UdpState) (session_id : Text) (remote : LegacyEndpoint) (new : Session)
    → new.remote ≡ (ensure_session m s session_id remote).1.remote
    → let t = (ensure_session m s session_id remote).0 in
      KeepsSessions s (record t { sessions = insert t.sessions session_id new })
interrupted-KeepsSessions m s session_id remote new same id session h =
    let t = (ensure_session m s session_id remote).0 in
    elim (Bool-cases (session_id == id)) [
      | inl hit ↦
          let is : get s.sessions session_id ≡ some session =
            ap (get s.sessions) ((==_iff session_id id).0 hit) ∙ h in
          (
            new,
            rw (get-insert t.sessions session_id new id, hit) refl,
            same ∙ ap (λ (x : Session). x.remote) (ensured m s session_id remote session is),
          )
      | inr miss ↦
          let (kept, there, remote_kept) =
            ensure_session-KeepsSessions m s session_id remote id session h in
          (kept, rw (get-insert t.sessions session_id new id, miss) there, remote_kept)
    ]

-- A turn without a handoff.
pub quiet_turn :
    (m : UdpMoment) (s t : UdpState) (from : LegacyEndpoint) (effects : List UdpEffect)
    (next : Next)
    → KeepsSessions s t
    → All (MayHandOver m s from) effects
    → handovers effects ≡ 0
    → IsServed m s from (record { state = t; effects = effects; next = next })
quiet_turn m s t from effects next keeps allowed none_over = record {
  sessions = keeps;
  allowed = allowed;
  once = omega (arith, none_over);
  last = λ e. none_over;
  spent = λ e. absurd (omega (arith, none_over, e));
}
