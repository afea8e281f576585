-- ===== src/Client/Connect/Run.antt =====
-- `api_connect` ends in a connection, or leaves the active session as it was.
use fips_nostr_bootstrap.Base.{
  ◌≡◌, ◌≢◌, inl, inr, refl, ap, ◌∙◌, ◌==◌, text_eq, ==_refl, Bool-cases, Option, none, some, [],
  ◌∷◌, Text,
}
use fips_nostr_bootstrap.Schema.{TraversalAnswer, LegacyServerInfoMessage, Result, ok, err}
use fips_nostr_bootstrap.Trim.{trim}
use fips_nostr_bootstrap.Traversal.{Refusal, is_empty, validate_traversal_answer_for_offer}
use fips_nostr_bootstrap.Planner.Endpoints.{client_planned_remote_endpoints}
use fips_nostr_bootstrap.PunchPacket.{Digest}
use fips_nostr_bootstrap.Client.{ClientState, ActiveSession}
use fips_nostr_bootstrap.Client.Attempts.{
  Outcome, got, Unanswered, validated, await_answer, await_server_info, finish_offer, finish_hello,
}
use fips_nostr_bootstrap.Client.Connect.{
  Connecting, Events, target_of, offer_to, send_offer, send_hello, after_hello, after_offer,
  after_target, api_connect, or_empty,
}
use fips_nostr_bootstrap.Client.Connect.Outcome.{
  IsQuiet, Agreed, EndsWith, after_punch-EndsWith, start_punch_plan_and_wait-Begins,
  start_punch_and_wait-Begins,
}

module _ (sha256 : Digest) (env : Connecting) (ev : Events) (quiet : IsQuiet ev) where
  module _ (before : Option ActiveSession) (target_npub : Text)
      (other : target_npub ≢ env.npub) where
    -- What `send_hello` ends with, and `send_offer`.
    abbrev Informed : ClientState × Result LegacyServerInfoMessage Unanswered → Type 0
    Informed (s, err e) = s.active_session ≡ before
    Informed (s, ok info) =
        (s.active_session ≡ before) × ((await_server_info ev.hello_rounds).outcome ≡ got info)

    finish_hello-Informed :
        (s : ClientState) (o : Outcome LegacyServerInfoMessage)
        → s.active_session ≡ before
        → (await_server_info ev.hello_rounds).outcome ≡ o
        → Informed (finish_hello s ev.hello_id o)
    unfolding finish_hello
    finish_hello-Informed s (Outcome.got info) same e = (same, e)
    finish_hello-Informed s Outcome.failed same e = same
    finish_hello-Informed s Outcome.lost same e = same
    finish_hello-Informed s Outcome.timed_out same e = same
    finish_hello-Informed s Outcome.unfinished same e = same

    send_hello-Informed :
        (s : ClientState) → s.active_session ≡ before → Informed (send_hello sha256 env ev s)
    unfolding send_hello
    send_hello-Informed s same = elim (Bool-cases ev.greets) [
      | inl greets ↦ rw greets (
          finish_hello-Informed _ (await_server_info ev.hello_rounds).outcome
            (quiet.while_greeting _ ∙ quiet.before_hello s ∙ same) refl)
      | inr fails ↦ rw fails (quiet.before_hello s ∙ same)
    ]

    after_hello-EndsWith :
        (r : ClientState × Result LegacyServerInfoMessage Unanswered)
        → Informed r
        → EndsWith sha256 env ev before (after_hello sha256 env ev target_npub r)
    after_hello-EndsWith (s, err e) same = same
    after_hello-EndsWith (s, ok info) (same, e) =
        after_punch-EndsWith sha256 env ev quiet before target_npub other info.nonce
          (info.endpoint ∷ []) _
          (start_punch_and_wait-Begins sha256 env ev quiet before target_npub other s ev.punch_at
            info.nonce info.endpoint _ same)
          (Agreed.by_info info e)

    abbrev Answered : ClientState × Result TraversalAnswer Unanswered → Type 0
    Answered (s, err e) = s.active_session ≡ before
    Answered (s, ok answer) =
        (s.active_session ≡ before)
        × ((await_answer ev.offer_rounds).outcome ≡ got answer)
        × (validate_traversal_answer_for_offer (offer_to sha256 env ev target_npub) answer
              ev.answered_at
            ≡ ok tt)

    validated-Answered :
        (s : ClientState) (answer : TraversalAnswer) (r : Result (Unit {0}) Refusal)
        → s.active_session ≡ before
        → (await_answer ev.offer_rounds).outcome ≡ got answer
        → validate_traversal_answer_for_offer
            (offer_to sha256 env ev target_npub)
            answer
            ev.answered_at
          ≡ r
        → Answered (s, validated answer r)
    validated-Answered s answer (ok tt) same e valid = (same, e, valid)
    validated-Answered s answer (err reason) same e valid = same

    finish_offer-Answered :
        (s : ClientState) (o : Outcome TraversalAnswer)
        → s.active_session ≡ before
        → (await_answer ev.offer_rounds).outcome ≡ o
        → Answered (finish_offer s ev.answered_at (offer_to sha256 env ev target_npub) o)
    unfolding finish_offer
    finish_offer-Answered s (Outcome.got answer) same e =
        validated-Answered s answer
          (validate_traversal_answer_for_offer (offer_to sha256 env ev target_npub) answer
            ev.answered_at)
          same e refl
    finish_offer-Answered s Outcome.failed same e = same
    finish_offer-Answered s Outcome.lost same e = same
    finish_offer-Answered s Outcome.timed_out same e = same
    finish_offer-Answered s Outcome.unfinished same e = same

    send_offer-Answered :
        (s : ClientState)
        → s.active_session ≡ before
        → Answered (send_offer sha256 env ev s target_npub)
    unfolding send_offer
    send_offer-Answered s same = elim (Bool-cases ev.offers) [
      | inl offers ↦ rw offers (
          finish_offer-Answered _ (await_answer ev.offer_rounds).outcome
            (quiet.while_offered _ ∙ quiet.before_offer s ∙ same) refl)
      | inr fails ↦ rw fails (quiet.before_offer s ∙ same)
    ]

    after_offer-EndsWith :
        (r : ClientState × Result TraversalAnswer Unanswered)
        → Answered r
        → EndsWith sha256 env ev before (after_offer sha256 env ev target_npub r)
    after_offer-EndsWith (s, err e) same =
        after_hello-EndsWith (send_hello sha256 env ev s) (send_hello-Informed s same)
    after_offer-EndsWith (s, ok answer) (same, e, valid) = elim (Bool-cases answer.accepted) [
      | inl takes ↦ simp takes (
          after_punch-EndsWith sha256 env ev quiet before target_npub other ev.offer_id _ _
            (start_punch_plan_and_wait-Begins sha256 env ev quiet before target_npub other s
              ev.punch_at ev.offer_id
              (client_planned_remote_endpoints (offer_to sha256 env ev target_npub) answer) _ same)
            (Agreed.by_answer answer e valid takes))
      | inr declines ↦ simp declines same
    ]

  after_target-EndsWith :
      (before : Option ActiveSession) (target : ClientState × Option Text)
      → target.0.active_session ≡ before
      → EndsWith sha256 env ev before (after_target sha256 env ev target)
  after_target-EndsWith before (s, none) same = same
  after_target-EndsWith before (s, some target_npub) same =
      elim (Bool-cases (target_npub == env.npub)) [
        | inl self ↦ simp self same
        | inr differs ↦ elim (Bool-cases (ev.decodes target_npub)) [
          | inr no_key ↦ simp (differs, no_key) same
          | inl key ↦
              let other : target_npub ≢ env.npub =
                λ e. cc (differs, ap (λ t. t == env.npub) e, ==_refl env.npub) in
              simp (differs, key)
                (after_offer-EndsWith before target_npub other
                  (send_offer sha256 env ev s target_npub)
                  (send_offer-Answered before target_npub other s same))
        ]
      ]

  target_of-active_session :
      (s : ClientState) (npub : Text)
      → (target_of sha256 env ev s npub).0.active_session ≡ s.active_session
  target_of-active_session s npub = elim (Bool-cases (is_empty npub)) [
    | inl any_peer ↦ rw any_peer refl
    | inr named ↦ elim (Bool-cases env.discovery_enabled) [
      | inl looks ↦ simp (named, looks) refl
      | inr trusts ↦ simp (named, trusts) refl
    ]
  ]

  -- Where nothing else touches the active session, a run of the handler ends in one of two ways. With an
  -- error, the active session is what it was. With a connection, the peer is not the client itself; the
  -- session's remote is what the punch of the agreed remotes met, these being the ones planned from
  -- an accepted answer that is valid for the offer, or the endpoint of a server's message; and it is the
  -- active session.
  pub api_connect-EndsWith :
      (s : ClientState) (npub : Option Text)
      → EndsWith sha256 env ev s.active_session (api_connect sha256 env ev s npub)
  unfolding api_connect
  api_connect-EndsWith s npub =
      after_target-EndsWith s.active_session (target_of sha256 env ev s (trim (or_empty npub)))
        (target_of-active_session s (trim (or_empty npub)))
