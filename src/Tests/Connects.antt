-- ===== src/Tests/Connects.antt =====
-- A client that connects to the server, at concrete inputs.
use fips_nostr_bootstrap.Base.{
  ◌≡◌, ◌==◌, ==_iff, false, inl, refl, some, text, text_eq, nat_eq, ℕ_discrete, Text-discrete,
  arith,
}
use fips_nostr_bootstrap.Schema.{ok}
use fips_nostr_bootstrap.Trim.{trim, trim_start, trim_end, strip_all, strip_one}
use fips_nostr_bootstrap.StunUrl.{strip_prefix}
use fips_nostr_bootstrap.Traversal.{create_traversal_offer, create_traversal_answer}
use fips_nostr_bootstrap.Server.{answer_to}
use fips_nostr_bootstrap.Client.{new_client}
use fips_nostr_bootstrap.Client.Attempts.{Round, await_answer}
use fips_nostr_bootstrap.Client.Connect.{Events, offer_to, api_connect}
use fips_nostr_bootstrap.Client.Connect.Connects.Served.{IsHeard, IsPunched, api_connect-answer_to}
use fips_nostr_bootstrap.Tests.Rendezvous.{serving, moment}
use fips_nostr_bootstrap.Tests.Wire.{flat_digest}
use fips_nostr_bootstrap.Tests.Clients.{peer, connecting, events}

-- The first round brings the server's answer.
abbrev served : Events
served = record events {
  offer_rounds = λ n.
      Round.replied
        (answer_to serving moment (offer_to flat_digest connecting events serving.npub));
}

differs : (serving.npub == connecting.npub) ≡ false
unfolding text ℕ_discrete Text-discrete
differs = refl

heard : IsHeard flat_digest connecting served serving moment peer
unfolding text await_answer answer_to create_traversal_offer create_traversal_answer
heard = record {
  other = λ e. cc (differs, (==_iff serving.npub connecting.npub).1 e);
  named = refl;
  decodes = refl;
  offers = refl;
  has_address = inl (λ e. cc);
  not_behind = omega arith;
  replied = refl;
  offer_lives = omega arith;
  answer_lives = omega arith;
}

punched : IsPunched flat_digest connecting served serving moment peer
punched = record {
  hosts = λ e there. refl;
  met = λ task its some_left names. refl;
  handed = inl refl;
}

asked : trim (text "npub1server") ≡ text "npub1server"
unfolding text trim trim_start trim_end strip_all strip_one strip_prefix ℕ_discrete
asked = refl

api_connect-answer_to_example :
    (api_connect flat_digest connecting served new_client (some (text "npub1server"))).result
    ≡ ok (record { target_npub = text "npub1server"; session_id = text "sess-1"; remote = peer })
api_connect-answer_to_example =
    api_connect-answer_to flat_digest connecting served serving moment peer heard punched new_client
      (some (text "npub1server")) asked
