-- ===== src/Console/Agrees.antt =====
-- `connect_cli` and `api_connect` connect in the same way.
use fips_nostr_bootstrap.Base.{
  ◌≡◌, inl, inr, refl, ◌&&◌, ◌==◌, text_eq, true, Bool-cases, Option, none, some, Text,
}
use fips_nostr_bootstrap.Schema.{
  TraversalAnswer, LegacyEndpoint, LegacyServerInfoMessage, Result, ok, err,
}
use fips_nostr_bootstrap.Trim.{trim}
use fips_nostr_bootstrap.PunchPacket.{Digest}
use fips_nostr_bootstrap.Client.{ClientState}
use fips_nostr_bootstrap.Client.Calls.{PunchTask, set_active_session}
use fips_nostr_bootstrap.Client.Attempts.{Unanswered}
use fips_nostr_bootstrap.Client.Connect.{
  Connecting, Events, ConnectError, Connection, Connect, or_empty, target_of, send_offer,
  send_hello, handed_off, found, after_punch, after_hello, after_offer, after_target, api_connect,
}
use fips_nostr_bootstrap.Console.{
  cli_handed_off, cli_found, cli_after_punch, cli_after_hello, cli_after_offer, cli_after_target,
  establish_cli,
}

-- The connection becomes the active session.
abbrev pub activated : ClientState → Result Connection ConnectError → ClientState
activated s (err e) = s
activated s (ok connection) = set_active_session s connection.session_id connection.remote

abbrev pub with_session : Connect → Connect
with_session c = record {
  state = activated c.state c.result;
  udp_shutdown = c.udp_shutdown;
  result = c.result;
}

module _ (sha256 : Digest) (env : Connecting) (ev : Events) (hands : env.handoff_fips ≡ true) where
  handed_off-agrees :
      (s : ClientState) (target_npub session_id : Text) (remote : LegacyEndpoint)
      → handed_off sha256 env ev s target_npub session_id remote
        ≡ with_session (cli_handed_off sha256 env ev s target_npub session_id remote)
  handed_off-agrees s target_npub session_id remote =
      elim (Bool-cases
        (ev.handoff_succeeds target_npub session_id remote && ev.is_ip remote.host)) [
          | inl well ↦ simp (hands, well) refl
          | inr ill ↦ simp (hands, ill) refl
        ]

  found-agrees :
      (s : ClientState) (target_npub session_id : Text) (o : Option LegacyEndpoint)
      → found sha256 env ev s target_npub session_id o
        ≡ with_session (cli_found sha256 env ev s target_npub session_id o)
  found-agrees s target_npub session_id none = refl
  found-agrees s target_npub session_id (some remote) =
      handed_off-agrees s target_npub session_id remote

  after_punch-agrees :
      (target_npub session_id : Text) (begun : ClientState × Option PunchTask)
      → after_punch sha256 env ev target_npub session_id begun
        ≡ with_session (cli_after_punch sha256 env ev target_npub session_id begun)
  after_punch-agrees target_npub session_id (s, none) = refl
  after_punch-agrees target_npub session_id (s, some task) =
      found-agrees (ev.while_punching s) target_npub session_id (ev.punched task)

  after_hello-agrees :
      (target_npub : Text) (r : ClientState × Result LegacyServerInfoMessage Unanswered)
      → after_hello sha256 env ev target_npub r
        ≡ with_session (cli_after_hello sha256 env ev target_npub r)
  after_hello-agrees target_npub (s, err e) = refl
  after_hello-agrees target_npub (s, ok reply) = after_punch-agrees target_npub reply.nonce _

  after_offer-agrees :
      (target_npub : Text) (r : ClientState × Result TraversalAnswer Unanswered)
      → after_offer sha256 env ev target_npub r
        ≡ with_session (cli_after_offer sha256 env ev target_npub r)
  after_offer-agrees target_npub (s, err e) =
      after_hello-agrees target_npub (send_hello sha256 env ev s)
  after_offer-agrees target_npub (s, ok answer) = elim (Bool-cases answer.accepted) [
    | inl takes ↦ simp takes (after_punch-agrees target_npub ev.offer_id _)
    | inr declines ↦ simp declines refl
  ]

  after_target-agrees :
      (target : ClientState × Option Text)
      → after_target sha256 env ev target ≡ with_session (cli_after_target sha256 env ev target)
  after_target-agrees (s, none) = refl
  after_target-agrees (s, some target_npub) = elim (Bool-cases (target_npub == env.npub)) [
    | inl self ↦ simp self refl
    | inr differs ↦ elim (Bool-cases (ev.decodes target_npub)) [
      | inr no_key ↦ simp (differs, no_key) refl
      | inl key ↦
          simp (differs, key)
            (after_offer-agrees target_npub (send_offer sha256 env ev s target_npub))
    ]
  ]

  -- With the handoff on, `api_connect` of the video daemon ends as `connect_cli` of the console client
  -- does when it comes to its runtime, with the same state, connection or error, but that it has also
  -- made a connection the active session.
  pub api_connect-connect_cli :
      (s : ClientState) (npub : Option Text)
      → api_connect sha256 env ev s npub ≡ with_session (establish_cli sha256 env ev s npub)
  unfolding api_connect establish_cli
  api_connect-connect_cli s npub =
      after_target-agrees (target_of sha256 env ev s (trim (or_empty npub)))
