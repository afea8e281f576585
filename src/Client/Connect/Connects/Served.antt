-- ===== src/Client/Connect/Connects/Served.antt =====
-- That `api_connect` connects to a server that answers as fips-console-server.rs does.
use fips_nostr_bootstrap.Base.{
  ◌≤◌, ◌<◌, ◌≡◌, ◌≢◌, ◌⊎◌, inl, inr, refl, sym, ap, ◌∙◌, ◌==◌, ==_iff, ==_refl, ◌||◌, not, text_eq,
  true, false, Bool, Bool-cases, Option, none, some, List, [], ◌∷◌, Text, contains, arith,
}
use fips_nostr_bootstrap.Schema.{
  TraversalAddress, TraversalAnswer, LegacyEndpoint, legacy_endpoint_eq, ok,
}
use fips_nostr_bootstrap.Trim.{trim}
use fips_nostr_bootstrap.Traversal.{is_empty, is_none, create_traversal_answer}
use fips_nostr_bootstrap.Planner.Endpoints.Coverage.{named, client_planned_remote_endpoints-named}
use fips_nostr_bootstrap.PunchPacket.{Digest}
use fips_nostr_bootstrap.Server.{Serving, Moment, accepts, answer_to, all_ip}
use fips_nostr_bootstrap.Server.Offers.{answer_to-validate}
use fips_nostr_bootstrap.Client.{ClientState}
use fips_nostr_bootstrap.Client.Calls.{PunchTask}
use fips_nostr_bootstrap.Client.Attempts.{got, await_answer}
use fips_nostr_bootstrap.Client.Connect.{Connecting, Events, or_empty, offer_to, api_connect}
use fips_nostr_bootstrap.Client.Connect.Connects.{IsAnswered, IsMet, api_connect-connects}

all_ip-of_hosts :
    (is_ip : Text → Bool) (remotes : List LegacyEndpoint)
    → ((e : LegacyEndpoint) → contains remotes e ≡ true → is_ip e.host ≡ true)
    → all_ip is_ip remotes ≡ true
all_ip-of_hosts is_ip [] h = refl
all_ip-of_hosts is_ip (r ∷ rs) h =
    let here = h r (ground (arith, ==_refl r)) in
    let later = all_ip-of_hosts is_ip rs (λ e there. h e (ground (arith, there))) in
    ground (arith, here, later)

is_empty-of_ne : (remotes : List LegacyEndpoint) → remotes ≢ [] → is_empty remotes ≡ false
is_empty-of_ne [] h = absurd (h refl)
is_empty-of_ne (r ∷ rs) h = refl

module _ (sha256 : Digest) (env : Connecting) (ev : Events) (serving : Serving) (m : Moment)
    (remote : LegacyEndpoint) where
  -- The server is another peer, with an address at least and its clock not behind the client's. Its answer to the
  -- client's offer comes back, while neither has expired.
  pub record IsHeard : Type 0 where
    pub other : serving.npub ≢ env.npub
    pub named : is_empty serving.npub ≡ false
    pub decodes : ev.decodes serving.npub ≡ true
    pub offers : ev.offers ≡ true
    pub has_address : (m.reflexive_address ≢ none) ⊎ (m.local_addresses ≢ [])
    pub not_behind : ev.issued_at ≤ m.now
    pub replied :
        (await_answer ev.offer_rounds).outcome
        ≡ got (answer_to serving m (offer_to sha256 env ev serving.npub))
    pub offer_lives : ev.answered_at < (offer_to sha256 env ev serving.npub).expires_at
    pub answer_lives :
        ev.answered_at < (answer_to serving m (offer_to sha256 env ev serving.npub)).expires_at

  -- The server's hosts are IP addresses, and a punch for the session of the offer, at some of the server's
  -- addresses and at no others, meets the remote. With the handoff on, it succeeds.
  pub record IsPunched : Type 0 where
    pub hosts :
        (e : LegacyEndpoint)
        → contains (named m.reflexive_address m.local_addresses) e ≡ true
        → ev.is_ip e.host ≡ true
    pub met :
        (task : PunchTask)
        → task.session_id ≡ ev.offer_id
        → task.remotes ≢ []
        → ((e : LegacyEndpoint)
            → contains task.remotes e ≡ true
            → contains (named m.reflexive_address m.local_addresses) e ≡ true)
        → ev.punched task ≡ some remote
    pub handed :
        (env.handoff_fips ≡ false)
        ⊎ ((ev.handoff_succeeds serving.npub ev.offer_id remote ≡ true)
            × (ev.is_ip remote.host ≡ true))

  module _ (heard : IsHeard) (punched : IsPunched) where
    server_accepts : accepts m ≡ true
    server_accepts = any_address m.reflexive_address m.local_addresses heard.has_address
      where
        any_address :
            (reflexive : Option TraversalAddress) (locals : List TraversalAddress)
            → (reflexive ≢ none) ⊎ (locals ≢ [])
            → (not (is_none reflexive) || not (is_empty locals)) ≡ true
        any_address (some a) locals h = refl
        any_address none (l ∷ locals) h = refl
        any_address none [] (inl h) = absurd (h refl)
        any_address none [] (inr h) = absurd (h refl)

    something_named : named m.reflexive_address m.local_addresses ≢ []
    something_named = any_name m.reflexive_address m.local_addresses heard.has_address
      where
        any_name :
            (reflexive : Option TraversalAddress) (locals : List TraversalAddress)
            → (reflexive ≢ none) ⊎ (locals ≢ [])
            → named reflexive locals ≢ []
        any_name (some a) locals h = λ e. cc
        any_name none (l ∷ locals) h = λ e. cc
        any_name none [] (inl h) = absurd (h refl)
        any_name none [] (inr h) = absurd (h refl)

    abbrev answer : TraversalAnswer
    answer = answer_to serving m (offer_to sha256 env ev serving.npub)

    is_answered : IsAnswered sha256 env ev serving.npub answer remote
    unfolding answer_to create_traversal_answer
    is_answered = record {
      other = elim (Bool-cases (serving.npub == env.npub)) [
        | inl same ↦ absurd (heard.other ((==_iff serving.npub env.npub).0 same))
        | inr differs ↦ differs
      ];
      decodes = heard.decodes;
      offers = heard.offers;
      replied = heard.replied;
      valid =
          answer_to-validate serving m [] ev.offer_id ev.offer_id env.npub ev.issued_at 60000
            ev.reflexive_address ev.local_addresses ev.answered_at heard.not_behind
            heard.offer_lives heard.answer_lives;
      accepted = server_accepts;
    }

    is_met : IsMet sha256 env ev serving.npub answer remote
    unfolding answer_to create_traversal_answer
    is_met =
        let (distinct, names, some_left) =
          client_planned_remote_endpoints-named (offer_to sha256 env ev serving.npub) answer in
        record {
          planned = is_empty-of_ne _ (some_left something_named);
          addresses = all_ip-of_hosts ev.is_ip _ (λ e there. punched.hosts e (names e there));
          met = λ task its those.
              punched.met task its (λ none_left. some_left something_named (sym those ∙ none_left))
                (λ e there. names e (ap (λ rs. contains rs e) (sym those) ∙ there));
          handed = elim punched.handed [
            | inl keeps ↦ inl keeps
            | inr (well, ip) ↦ inr (ground (arith, well, ip))
          ];
        }

    -- Asked for a server that answers as the console server does, that has an address and whose clock is
    -- not behind, `api_connect` connects to it where the answer comes back before it or the offer
    -- expires, the server's hosts are IP addresses, and a punch at addresses of the server meets the
    -- remote: the session has the offer's id and that remote. With the handoff on, it has to succeed.
    pub api_connect-answer_to :
        (s : ClientState) (npub : Option Text)
        → trim (or_empty npub) ≡ serving.npub
        → (api_connect sha256 env ev s npub).result
          ≡ ok (record { target_npub = serving.npub; session_id = ev.offer_id; remote = remote })
    api_connect-answer_to s npub asked =
        api_connect-connects sha256 env ev serving.npub answer remote is_answered is_met s npub
          asked heard.named
