-- ===== src/Tests/Signals.antt =====
-- Offers and answers at concrete inputs, those of the tests in lib.rs.
use fips_nostr_bootstrap.Base.{
  ℕ, ◌≡◌, ◌↔◌, refl, true, none, some, [], ◌∷◌, Text, text, ℕ_discrete, Text-discrete,
}
use fips_nostr_bootstrap.Schema.{
  TraversalAddress, PunchHint, TraversalOffer, TraversalAnswer, ok, err,
}
use fips_nostr_bootstrap.Traversal.{
  create_traversal_offer, create_traversal_answer, validate_traversal_answer_for_offer,
  check_content, Refusal,
}
use fips_nostr_bootstrap.Traversal.Accepts.{Answers, HasContent, validate-Answers}

abbrev pub udp : Text → ℕ → TraversalAddress
udp ip port = record { protocol = text "udp"; ip = ip; port = port }

abbrev pub lan_client : TraversalAddress
lan_client = udp (text "192.168.1.10") 62000

abbrev pub lan_server : TraversalAddress
lan_server = udp (text "192.168.1.20") 63000

abbrev pub wan_client : TraversalAddress
wan_client = udp (text "203.0.113.10") 62000

abbrev pub wan_server : TraversalAddress
wan_server = udp (text "198.51.100.20") 63000

abbrev pub offer : TraversalOffer
unfolding create_traversal_offer
offer =
    create_traversal_offer (text "sess-1") 1_700_000_000_000 60_000 (text "offer-1")
      (text "npub1client") (text "npub1server") (some wan_client) (lan_client ∷ [])

abbrev hint : PunchHint
hint = record { start_at_ms = 1_700_000_000_800; interval_ms = 300; duration_ms = 30_000 }

abbrev pub answer : TraversalAnswer
unfolding create_traversal_answer
answer =
    create_traversal_answer (text "sess-1") 1_700_000_000_500 60_000 (text "answer-1")
      (text "npub1server") (text "npub1client") (text "offer-1") true (some wan_server)
      (lan_server ∷ []) (some hint) none

-- An answer that accepts and names no address.
abbrev addressless : TraversalAnswer
addressless = record answer { reflexive_address = none; local_addresses = [] }

answer_valid : validate_traversal_answer_for_offer offer answer 1_700_000_000_900 ≡ ok tt
unfolding validate_traversal_answer_for_offer check_content create_traversal_offer
    create_traversal_answer text ℕ_discrete Text-discrete
answer_valid = refl

addressless_refused :
    validate_traversal_answer_for_offer offer addressless 1_700_000_000_900
    ≡ err Refusal.missing_addresses
unfolding validate_traversal_answer_for_offer check_content create_traversal_offer
    create_traversal_answer text ℕ_discrete Text-discrete
addressless_refused = refl

validate-Answers_example :
    (validate_traversal_answer_for_offer offer answer 1_700_000_000_900 ≡ ok tt)
    ↔ (Answers offer answer 1_700_000_000_900 × HasContent answer)
validate-Answers_example = validate-Answers offer answer 1_700_000_000_900
