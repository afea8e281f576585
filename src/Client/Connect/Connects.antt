-- ===== src/Client/Connect/Connects.antt =====
-- That `api_connect` connects.
pub mod Served
use fips_nostr_bootstrap.Base.{
  ◌≡◌, ◌⊎◌, inl, inr, refl, ◌==◌, ◌&&◌, text_eq, true, false, Bool-cases, Option, some, Text,
}
use fips_nostr_bootstrap.Schema.{TraversalAnswer, LegacyEndpoint, ok}
use fips_nostr_bootstrap.Trim.{trim}
use fips_nostr_bootstrap.Traversal.{is_empty, validate_traversal_answer_for_offer}
use fips_nostr_bootstrap.Planner.Endpoints.{client_planned_remote_endpoints}
use fips_nostr_bootstrap.PunchPacket.{Digest}
use fips_nostr_bootstrap.Server.{all_ip}
use fips_nostr_bootstrap.Adverts.{find_advertised_peer}
use fips_nostr_bootstrap.Client.{ClientState}
use fips_nostr_bootstrap.Client.Calls.{PunchTask, register_offer, start_punch_plan_and_wait}
use fips_nostr_bootstrap.Client.Attempts.{got, await_answer, finish_offer}
use fips_nostr_bootstrap.Client.Connect.{
  Connecting, Events, Connection, or_empty, target_of, offer_to, send_offer, handed_off,
  after_punch, after_offer, after_target, api_connect,
}

module _ (sha256 : Digest) (env : Connecting) (ev : Events) (target_npub : Text)
    (answer : TraversalAnswer) (remote : LegacyEndpoint) where
  -- The peer is another, and the offer is answered with a valid answer that accepts.
  pub record IsAnswered : Type 0 where
    pub other : (target_npub == env.npub) ≡ false
    pub decodes : ev.decodes target_npub ≡ true
    pub offers : ev.offers ≡ true
    pub replied : (await_answer ev.offer_rounds).outcome ≡ got answer
    pub valid :
        validate_traversal_answer_for_offer
          (offer_to sha256 env ev target_npub)
          answer
          ev.answered_at
        ≡ ok tt
    pub accepted : answer.accepted ≡ true

  -- The answer leaves remotes to punch, all of them addresses, and a punch of these for the offer's
  -- session meets the remote; with the handoff on, that succeeds.
  pub record IsMet : Type 0 where
    pub planned :
        is_empty (client_planned_remote_endpoints (offer_to sha256 env ev target_npub) answer)
        ≡ false
    pub addresses :
        all_ip ev.is_ip
          (client_planned_remote_endpoints (offer_to sha256 env ev target_npub) answer)
        ≡ true
    pub met :
        (task : PunchTask)
        → task.session_id ≡ ev.offer_id
        → task.remotes ≡ client_planned_remote_endpoints (offer_to sha256 env ev target_npub) answer
        → ev.punched task ≡ some remote
    pub handed :
        (env.handoff_fips ≡ false)
        ⊎ ((ev.handoff_succeeds target_npub ev.offer_id remote && ev.is_ip remote.host) ≡ true)

  abbrev pub connection : Connection
  connection = record { target_npub = target_npub; session_id = ev.offer_id; remote = remote }

  module _ (answered : IsAnswered) (is_met : IsMet) where
    handed_off-connects :
        (s : ClientState)
        → (handed_off sha256 env ev s target_npub ev.offer_id remote).result ≡ ok connection
    handed_off-connects s = elim is_met.handed [
      | inl keeps ↦ simp keeps refl
      | inr well ↦ elim (Bool-cases env.handoff_fips) [
        | inl hands ↦ simp (hands, well) refl
        | inr keeps ↦ simp keeps refl
      ]
    ]

    after_punch-connects :
        (s : ClientState) (task : PunchTask)
        → task.session_id ≡ ev.offer_id
        → task.remotes ≡ client_planned_remote_endpoints (offer_to sha256 env ev target_npub) answer
        → (after_punch sha256 env ev target_npub ev.offer_id (s, some task)).result ≡ ok connection
    after_punch-connects s task its those =
        rw (is_met.met task its those) (handed_off-connects (ev.while_punching s))

    send_offer-answered :
        (s : ClientState)
        → (t : ClientState) × (send_offer sha256 env ev s target_npub ≡ (t, ok answer))
    unfolding send_offer finish_offer
    send_offer-answered s = (
      ev.while_offered (register_offer (ev.before_offer s) ev.offer_id),
      rw (answered.offers, answered.replied, answered.valid) refl,
    )

    after_offer-connects :
        (s : ClientState)
        → (after_offer sha256 env ev target_npub (s, ok answer)).result ≡ ok connection
    unfolding start_punch_plan_and_wait
    after_offer-connects s =
        simp (answered.accepted, is_met.planned, is_met.addresses)
          (after_punch-connects _ _ refl refl)

    after_target-connects :
        (s : ClientState)
        → (after_target sha256 env ev (s, some target_npub)).result ≡ ok connection
    after_target-connects s =
        let (t, e) = send_offer-answered s in
        simp (answered.other, answered.decodes, e) (after_offer-connects t)

    target_of-named :
        (s : ClientState)
        → is_empty target_npub ≡ false
        → (t : ClientState) × (target_of sha256 env ev s target_npub ≡ (t, some target_npub))
    target_of-named s full = elim (Bool-cases env.discovery_enabled) [
      | inl looks ↦ (
        record s {
          advert_cache =
              (find_advertised_peer ev.from_str s.advert_cache ev.fetched ev.searched_at
                target_npub).0;
        },
        rw (full, looks) refl,
      )
      | inr trusts ↦ (s, rw (full, trusts) refl)
    ]

    -- Asked for a named peer that is another, `api_connect` connects where the offer is answered in
    -- time with a valid answer that accepts, the remotes planned from it are some and all of them
    -- addresses, and a punch of these meets one: the session has the offer's id and that remote. With
    -- the handoff on, it has to succeed.
    pub api_connect-connects :
        (s : ClientState) (npub : Option Text)
        → trim (or_empty npub) ≡ target_npub
        → is_empty target_npub ≡ false
        → (api_connect sha256 env ev s npub).result ≡ ok connection
    unfolding api_connect
    api_connect-connects s npub named full =
        let (t, e) = target_of-named s full in rw (named, e) (after_target-connects t)
