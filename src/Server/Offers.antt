-- ===== src/Server/Offers.antt =====
-- What a server does on an offer: the answer is one that the client accepts, and the punches are those
-- that the answer announces.
use fips_nostr_bootstrap.Base.{
  ℕ, ◌≤◌, ◌<◌, ◌≡◌, ◌≢◌, ◌⊎◌, inl, inr, refl, text_eq, nat_eq, not, ◌&&◌, ◌||◌, true, false,
  Bool-cases, ==_refl, Option, none, some, List, [], ◌∷◌, Text, text, add64, contains, arith,
}
use fips_nostr_bootstrap.Base.HashMap.{HashMap}
use fips_nostr_bootstrap.Schema.{
  TraversalAddress, TraversalOffer, LegacyEndpoint, LegacyPunch, LegacyHelloMessage,
  legacy_endpoint_eq, ok,
}
use fips_nostr_bootstrap.Traversal.{
  offer_type, create_traversal_offer, create_traversal_answer, validate_traversal_answer_for_offer,
  is_none, is_empty,
}
use fips_nostr_bootstrap.Traversal.Accepts.{Answers, HasContent, validate-Answers}
use fips_nostr_bootstrap.Server.{
  Serving, Moment, Effect, accepts, answer_to, all_ip, start_punch_plan, handle_offer, concerns,
  handle_message, answered, punches,
}

-- An answer with addresses accepts, one without gives its reason.
answer_to-HasContent :
    (env : Serving) (m : Moment) (offer : TraversalOffer) → HasContent (answer_to env m offer)
unfolding answer_to create_traversal_answer
answer_to-HasContent env m offer = (
  λ yes_a. content m.reflexive_address m.local_addresses yes_a,
  λ no_a. (text "no-usable-addresses", rw no_a refl, unfold text in λ e. cc),
)
  where
    content :
        (reflexive : Option TraversalAddress) (locals : List TraversalAddress)
        → (not (is_none reflexive) || not (is_empty locals)) ≡ true
        → (reflexive ≢ none) ⊎ (locals ≢ [])
    content (some a) locals h = inl (λ e. cc)
    content none (l ∷ locals) h = inr (λ e. cc)
    content none [] h = cc

-- The offer that a client makes for this server.
abbrev pub offer_for :
    Serving
    → Text
    → Text
    → Text
    → ℕ
    → ℕ
    → Option TraversalAddress
    → List TraversalAddress
    → TraversalOffer
offer_for env session_id nonce client_npub issued_at ttl_ms reflexive locals =
    create_traversal_offer session_id issued_at ttl_ms nonce client_npub env.npub reflexive locals

module _ (env : Serving) (m : Moment) (session_id nonce client_npub : Text) (issued_at ttl_ms : ℕ)
    (reflexive : Option TraversalAddress) (locals : List TraversalAddress) where
  abbrev made : TraversalOffer
  made = offer_for env session_id nonce client_npub issued_at ttl_ms reflexive locals

  answer_to-Answers :
      (t : ℕ)
      → issued_at ≤ m.now
      → t < made.expires_at
      → t < (answer_to env m made).expires_at
      → Answers made (answer_to env m made) t
  unfolding answer_to create_traversal_answer create_traversal_offer
  answer_to-Answers t later lives live = record {
    offer_app = refl;
    answer_app = refl;
    offer_kind = refl;
    answer_kind = refl;
    is_offer = refl;
    is_answer = refl;
    offer_lives = lives;
    answer_lives = live;
    same_session = refl;
    replies = refl;
    to_sender = refl;
    from_recipient = refl;
    later = later;
  }

-- The answer leads the effects, whatever follows it.
start_punch_plan-effects :
    (m : Moment) (handoffs : HashMap Text Text) (e : Effect) (session_id : Text)
    (remotes : List LegacyEndpoint) (punch : LegacyPunch)
    → (rest : List Effect) × ((start_punch_plan m handoffs
          (e ∷ [])
          session_id
          remotes
          punch).effects
        ≡ e ∷ rest)
unfolding start_punch_plan
start_punch_plan-effects m handoffs e session_id remotes punch =
    elim (Bool-cases (is_empty remotes)) [
      | inl empty ↦ rw empty ([], refl)
      | inr full ↦ elim (Bool-cases (all_ip m.is_ip remotes)) [
        | inl good ↦ rw (full, good) (punches session_id remotes punch ∷ [], refl)
        | inr bad ↦ rw (full, bad) ([], refl)
      ]
    ]

handle_offer-answered :
    (env : Serving) (m : Moment) (handoffs : HashMap Text Text) (offer : TraversalOffer)
    → m.sends ≡ true
    → (rest : List Effect) × ((handle_offer env m handoffs offer).effects
        ≡ answered (answer_to env m offer) ∷ rest)
unfolding handle_offer
handle_offer-answered env m handoffs offer sent = elim (Bool-cases (accepts m)) [
  | inl takes ↦
      simp (sent, takes) (start_punch_plan-effects m _ (answered (answer_to env m offer)) _ _ _)
  | inr declines ↦ simp (sent, declines) ([], refl)
]

-- A trusted peer passes the filter.
pub heard_if :
    (trusted : List Text) (from_npub : Text)
    → (trusted ≡ []) ⊎ (contains trusted from_npub ≡ true)
    → (not (is_empty trusted) && not (contains trusted from_npub)) ≡ false
heard_if [] from h = refl
heard_if (x ∷ xs) from (inl e) = cc
heard_if (x ∷ xs) from (inr e) = rw e refl

module _ (env : Serving) (m : Moment) (handoffs : HashMap Text Text)
    (session_id nonce client_npub : Text) (issued_at ttl_ms : ℕ)
    (reflexive : Option TraversalAddress) (locals : List TraversalAddress) where
  abbrev offer_made : TraversalOffer
  offer_made = offer_for env session_id nonce client_npub issued_at ttl_ms reflexive locals

  pub handle_message-answered :
      (from_npub : Text) (as_hello : Option LegacyHelloMessage)
      → (env.trusted_npubs ≡ []) ⊎ (contains env.trusted_npubs from_npub ≡ true)
      → m.sends ≡ true
      → m.tested_at < add64 issued_at ttl_ms
      → (rest : List Effect) × ((handle_message env m handoffs from_npub
            (some offer_made)
            as_hello).effects
          ≡ answered (answer_to env m offer_made) ∷ rest)
  unfolding handle_message create_traversal_offer
  handle_message-answered from as_hello trusted sent early =
      let (rest, e) = handle_offer-answered env m handoffs offer_made sent in
      let heard : (not (is_empty env.trusted_npubs) && not (contains env.trusted_npubs from))
          ≡ false =
        heard_if env.trusted_npubs from trusted in
      let its : concerns env m.tested_at offer_made ≡ true =
        ground (arith, ==_refl offer_type, ==_refl env.npub) in
      (rest, simp (heard, its) e)

  pub answer_to-validate :
      (t : ℕ)
      → issued_at ≤ m.now
      → t < offer_made.expires_at
      → t < (answer_to env m offer_made).expires_at
      → validate_traversal_answer_for_offer offer_made (answer_to env m offer_made) t ≡ ok tt
  answer_to-validate t later lives live =
      (validate-Answers offer_made (answer_to env m offer_made) t).1 (
        answer_to-Answers env m session_id nonce client_npub issued_at ttl_ms reflexive locals t
            later lives live,
        answer_to-HasContent env m offer_made,
      )

-- An offer that a client makes for this server, from a peer that it trusts, is answered if it arrives
-- before it expires and the reply can be sent, before anything else is done; and where the server's
-- clock is not behind the client's, the client accepts the answer as long as neither has expired,
-- whether the server takes the offer or declines it.
pub handle_message-validate_traversal_answer_for_offer :
    (env : Serving) (m : Moment) (handoffs : HashMap Text Text)
    (session_id nonce client_npub : Text) (issued_at ttl_ms : ℕ)
    (reflexive : Option TraversalAddress) (locals : List TraversalAddress) (from_npub : Text)
    (as_hello : Option LegacyHelloMessage) (t : ℕ)
    → let offer = offer_for env session_id nonce client_npub issued_at ttl_ms reflexive locals in
      (env.trusted_npubs ≡ []) ⊎ (contains env.trusted_npubs from_npub ≡ true)
      → m.sends ≡ true
      → m.tested_at < add64 issued_at ttl_ms
      → issued_at ≤ m.now
      → t < offer.expires_at
      → t < (answer_to env m offer).expires_at
      → (rest : List Effect) × ((handle_message env m handoffs from_npub
            (some offer)
            as_hello).effects
          ≡ answered (answer_to env m offer) ∷ rest)
        × (validate_traversal_answer_for_offer offer (answer_to env m offer) t ≡ ok tt)
handle_message-validate_traversal_answer_for_offer env m handoffs session nonce client issued ttl
      reflexive locals from as_hello t trusted sent early later lives live =
    let (rest, e) =
      handle_message-answered env m handoffs session nonce client issued ttl reflexive locals from
        as_hello trusted sent early in
    (
      rest,
      e,
      answer_to-validate env m handoffs session nonce client issued ttl reflexive locals t later
          lives live,
    )
