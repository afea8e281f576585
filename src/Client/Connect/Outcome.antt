-- ===== src/Client/Connect/Outcome.antt =====
-- How `api_connect` may end, and that it does once a punch is planned.
use fips_nostr_bootstrap.Base.{
  ℕ, ◌≡◌, ◌≢◌, inl, inr, refl, ◌∙◌, ◌&&◌, text_eq, true, Bool-cases, Option, none, some, List, [],
  ◌∷◌, Text,
}
use fips_nostr_bootstrap.Schema.{
  TraversalAnswer, LegacyEndpoint, LegacyPunch, LegacyServerInfoMessage, Result, ok, err,
}
use fips_nostr_bootstrap.Traversal.{is_empty, validate_traversal_answer_for_offer}
use fips_nostr_bootstrap.Planner.Endpoints.{client_planned_remote_endpoints}
use fips_nostr_bootstrap.PunchPacket.{Digest}
use fips_nostr_bootstrap.Server.{all_ip}
use fips_nostr_bootstrap.Client.{ClientState, ActiveSession}
use fips_nostr_bootstrap.Client.Calls.{
  PunchTask, set_active_session, start_punch_plan_and_wait, start_punch_and_wait,
}
use fips_nostr_bootstrap.Client.Attempts.{got, await_answer, await_server_info}
use fips_nostr_bootstrap.Client.Connect.{
  Connecting, Events, Connection, Connect, ConnectError, offer_to, handed_off, found, after_punch,
}

-- What is done besides the handler's own steps does not touch the active session.
pub record IsQuiet (ev : Events) : Type 0 where
  pub before_offer : (s : ClientState) → (ev.before_offer s).active_session ≡ s.active_session
  pub while_offered : (s : ClientState) → (ev.while_offered s).active_session ≡ s.active_session
  pub before_hello : (s : ClientState) → (ev.before_hello s).active_session ≡ s.active_session
  pub while_greeting : (s : ClientState) → (ev.while_greeting s).active_session ≡ s.active_session
  pub while_punching : (s : ClientState) → (ev.while_punching s).active_session ≡ s.active_session

module _ (sha256 : Digest) (env : Connecting) (ev : Events) where
  -- The remotes that a session may punch: those planned from an accepted answer that is valid for the
  -- offer, under the offer's id; or the endpoint that a server's message names, under its nonce.
  pub data Agreed (target_npub : Text) : Text → List LegacyEndpoint → Type 0 where
    by_answer :
        (answer : TraversalAnswer)
        → (await_answer ev.offer_rounds).outcome ≡ got answer
        → validate_traversal_answer_for_offer
            (offer_to sha256 env ev target_npub)
            answer
            ev.answered_at
          ≡ ok tt
        → answer.accepted ≡ true
        → Agreed target_npub ev.offer_id
            (client_planned_remote_endpoints (offer_to sha256 env ev target_npub) answer)
    by_info :
        (info : LegacyServerInfoMessage)
        → (await_server_info ev.hello_rounds).outcome ≡ got info
        → Agreed target_npub info.nonce (info.endpoint ∷ [])

  -- A connection: to another than the client itself, whose remote came out of a punch of the agreed
  -- remotes for the session, and which is the active session.
  pub record IsConnected (state : ClientState) (c : Connection) : Type 0 where
    pub other : c.target_npub ≢ env.npub
    pub active :
        state.active_session ≡ some (record { session_id = c.session_id; remote = c.remote })
    pub task : PunchTask
    pub for_session : task.session_id ≡ c.session_id
    pub agreed : Agreed c.target_npub c.session_id task.remotes
    pub met : ev.punched task ≡ some c.remote

  abbrev pub Ends : Option ActiveSession → ClientState → Result Connection ConnectError → Type 0
  Ends before state (err e) = state.active_session ≡ before
  Ends before state (ok connection) = IsConnected state connection

  abbrev pub EndsWith : Option ActiveSession → Connect → Type 0
  EndsWith before c = Ends before c.state c.result

  module _ (quiet : IsQuiet ev) (before : Option ActiveSession) (target_npub : Text)
      (other : target_npub ≢ env.npub) where
    handed_off-EndsWith :
        (s : ClientState) (session_id : Text) (remote : LegacyEndpoint) (task : PunchTask)
        → s.active_session ≡ before
        → task.session_id ≡ session_id
        → Agreed target_npub session_id task.remotes
        → ev.punched task ≡ some remote
        → EndsWith before (handed_off sha256 env ev s target_npub session_id remote)
    handed_off-EndsWith s session_id remote task same its agreed met =
        let connected : (state : ClientState)
            → state.active_session ≡ some (record { session_id = session_id; remote = remote })
            → IsConnected state
                (record { target_npub = target_npub; session_id = session_id; remote = remote }) =
          λ state active. record {
            other = other;
            active = active;
            task = task;
            for_session = its;
            agreed = agreed;
            met = met;
          } in
        elim (Bool-cases env.handoff_fips) [
          | inl hands ↦
              elim (Bool-cases
                (ev.handoff_succeeds target_npub session_id remote && ev.is_ip remote.host)) [
                  | inl well ↦
                      simp (hands, well) (connected (set_active_session s session_id remote) refl)
                  | inr ill ↦ simp (hands, ill) same
                ]
          | inr keeps ↦ simp keeps (connected (set_active_session s session_id remote) refl)
        ]

    found-EndsWith :
        (s : ClientState) (session_id : Text) (task : PunchTask) (o : Option LegacyEndpoint)
        → s.active_session ≡ before
        → task.session_id ≡ session_id
        → Agreed target_npub session_id task.remotes
        → ev.punched task ≡ o
        → EndsWith before (found sha256 env ev s target_npub session_id o)
    found-EndsWith s session_id task none same its agreed met = same
    found-EndsWith s session_id task (some remote) same its agreed met =
        handed_off-EndsWith s session_id remote task same its agreed met

    -- What a punch begins with.
    abbrev pub Begins : Text → List LegacyEndpoint → ClientState × Option PunchTask → Type 0
    Begins session_id remotes (s, none) = s.active_session ≡ before
    Begins session_id remotes (s, some task) =
        (s.active_session ≡ before) × (task.session_id ≡ session_id) × (task.remotes ≡ remotes)

    pub after_punch-EndsWith :
        (session_id : Text) (remotes : List LegacyEndpoint) (begun : ClientState × Option PunchTask)
        → Begins session_id remotes begun
        → Agreed target_npub session_id remotes
        → EndsWith before (after_punch sha256 env ev target_npub session_id begun)
    after_punch-EndsWith session_id remotes (s, none) same agreed = same
    after_punch-EndsWith session_id remotes (s, some task) (same, its, those) agreed =
        found-EndsWith (ev.while_punching s) session_id task (ev.punched task)
          (quiet.while_punching s ∙ same) its (rw those agreed) refl

    pub start_punch_plan_and_wait-Begins :
        (s : ClientState) (now : ℕ) (session_id : Text) (remotes : List LegacyEndpoint)
        (punch : LegacyPunch)
        → s.active_session ≡ before
        → Begins session_id remotes
            (start_punch_plan_and_wait sha256 ev.is_ip s now session_id remotes punch)
    unfolding start_punch_plan_and_wait
    start_punch_plan_and_wait-Begins s now session_id remotes punch same =
        elim (Bool-cases (is_empty remotes)) [
          | inl empty ↦ rw empty same
          | inr full ↦ elim (Bool-cases (all_ip ev.is_ip remotes)) [
            | inl good ↦ rw (full, good) (same, refl, refl)
            | inr bad ↦ rw (full, bad) same
          ]
        ]

    pub start_punch_and_wait-Begins :
        (s : ClientState) (now : ℕ) (session_id : Text) (remote : LegacyEndpoint)
        (punch : LegacyPunch)
        → s.active_session ≡ before
        → Begins session_id
            (remote ∷ [])
            (start_punch_and_wait sha256 ev.is_ip s now session_id remote punch)
    unfolding start_punch_and_wait
    start_punch_and_wait-Begins s now session_id remote punch same =
        elim (Bool-cases (ev.is_ip remote.host)) [
          | inl good ↦ simp good (same, refl, refl)
          | inr bad ↦ simp bad same
        ]
