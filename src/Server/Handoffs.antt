-- ===== src/Server/Handoffs.antt =====
-- What a message can change in the server's pending handoffs.
use fips_nostr_bootstrap.Base.{
  ℕ, ◌<◌, ◌≡◌, ◌⊎◌, inl, inr, refl, ◌==◌, text_eq, nat_eq, ==_iff, not, ◌&&◌, ◌||◌, Bool, true,
  false, Bool-cases, Option, none, some, List, [], ◌∷◌, Text, text, contains, arith,
}
use fips_nostr_bootstrap.Base.HashMap.{HashMap, get, insert, get-insert}
use fips_nostr_bootstrap.Schema.{
  TraversalOffer, LegacyEndpoint, LegacyPunch, LegacyHelloMessage, legacy_endpoint_eq,
}
use fips_nostr_bootstrap.Traversal.{is_empty, offer_type}
use fips_nostr_bootstrap.Server.{
  Serving, Moment, Effect, accepts, start_punch_plan, start_punch, handle_offer, handle_hello,
  connect, concerns, offer_or_hello, handle_message,
}

-- Who may be heard.
abbrev pub Trusts : Serving → Text → Type 0
Trusts env from_npub = (env.trusted_npubs ≡ []) ⊎ (contains env.trusted_npubs from_npub ≡ true)

-- An offer that is meant for the server, and has not expired at its test.
abbrev pub IsLive : Serving → ℕ → TraversalOffer → Type 0
IsLive env now offer =
    (offer.message_type ≡ text "offer")
    × (offer.recipient_npub ≡ env.npub)
    × (now < offer.expires_at)

-- A handoff that a message may leave: one that was there, or that of its offer, or of its hello.
abbrev pub HandoffOf :
    Serving
    → Moment
    → HashMap Text Text
    → Text
    → Option TraversalOffer
    → Option LegacyHelloMessage
    → Text
    → Text
    → Type 0
HandoffOf env m handoffs from_npub as_offer as_hello k npub =
    (get handoffs k ≡ some npub)
    ⊎ (Trusts env from_npub
        × (((offer : TraversalOffer) × (as_offer ≡ some offer)
              × IsLive env m.tested_at offer
              × (offer.session_id ≡ k)
              × (offer.sender_npub ≡ npub))
            ⊎ ((hello : LegacyHelloMessage) × (as_hello ≡ some hello)
                × (hello.wants.fips_connect ≡ true)
                × (hello.nonce ≡ k)
                × (from_npub ≡ npub))))

start_punch_plan-handoffs :
    (m : Moment) (handoffs : HashMap Text Text) (es : List Effect) (session_id : Text)
    (remotes : List LegacyEndpoint) (punch : LegacyPunch)
    → (start_punch_plan m handoffs es session_id remotes punch).pending_handoffs ≡ handoffs
unfolding start_punch_plan
start_punch_plan-handoffs m handoffs es session_id remotes punch = ground arith

start_punch-handoffs :
    (m : Moment) (handoffs : HashMap Text Text) (es : List Effect) (session_id : Text)
    (remote : LegacyEndpoint) (punch : LegacyPunch)
    → (start_punch m handoffs es session_id remote punch).pending_handoffs ≡ handoffs
unfolding start_punch
start_punch-handoffs m handoffs es session_id remote punch = ground arith

-- An entry after an insertion.
get-inserted :
    (handoffs : HashMap Text Text) (j v k w : Text)
    → get (insert handoffs j v) k ≡ some w
    → (get handoffs k ≡ some w) ⊎ ((j ≡ k) × (v ≡ w))
get-inserted handoffs j v k w h = elim (Bool-cases (j == k)) [
  | inl hit ↦
      let same : some v ≡ some w = rw (get-insert handoffs j v k, hit) at h in
      inr ((==_iff j k).0 hit, cc)
  | inr miss ↦ inl (rw (get-insert handoffs j v k, miss) at h)
]

handle_offer-handoffs :
    (env : Serving) (m : Moment) (handoffs : HashMap Text Text) (offer : TraversalOffer)
    → ((handle_offer env m handoffs offer).pending_handoffs ≡ handoffs)
      ⊎ ((handle_offer env m handoffs offer).pending_handoffs
          ≡ insert handoffs offer.session_id offer.sender_npub)
unfolding handle_offer
handle_offer-handoffs env m handoffs offer = elim (Bool-cases m.sends) [
  | inr lost ↦ inl (simp lost refl)
  | inl sent ↦ inr (elim (Bool-cases (accepts m)) [
    | inl takes ↦ simp (sent, takes) (start_punch_plan-handoffs m _ _ _ _ _)
    | inr declines ↦ simp (sent, declines) refl
  ])
]

connect-handoffs :
    (env : Serving) (m : Moment) (handoffs : HashMap Text Text) (from_npub : Text)
    (hello : LegacyHelloMessage) (wants : Bool) (endpoint : Option LegacyEndpoint)
    → ((connect env m handoffs from_npub hello wants endpoint).pending_handoffs ≡ handoffs)
      ⊎ ((wants ≡ true)
          × ((connect env m handoffs from_npub hello wants endpoint).pending_handoffs
              ≡ insert handoffs hello.nonce from_npub))
connect-handoffs env m handoffs from hello true (some e) =
    inr (refl, start_punch-handoffs m (insert handoffs hello.nonce from) _ _ e _)
connect-handoffs env m handoffs from hello true none = inl refl
connect-handoffs env m handoffs from hello false e = inl refl

handle_hello-handoffs :
    (env : Serving) (m : Moment) (handoffs : HashMap Text Text) (from_npub : Text)
    (hello : LegacyHelloMessage)
    → ((handle_hello env m handoffs from_npub (some hello)).pending_handoffs ≡ handoffs)
      ⊎ ((hello.wants.fips_connect ≡ true)
          × ((handle_hello env m handoffs from_npub (some hello)).pending_handoffs
              ≡ insert handoffs hello.nonce from_npub))
unfolding handle_hello
handle_hello-handoffs env m handoffs from hello =
    elim (Bool-cases
      (not (hello.message_type == text "fips.rendezvous.hello") || is_empty hello.nonce)) [
        | inl other ↦ inl (simp other refl)
        | inr greets ↦ elim (Bool-cases m.sends) [
          | inr lost ↦ inl (simp (greets, lost) refl)
          | inl sent ↦
              simp (greets, sent)
                (connect-handoffs env m handoffs from hello hello.wants.fips_connect
                  hello.client_endpoint)
        ]
      ]

concerns-IsLive :
    (env : Serving) (now : ℕ) (offer : TraversalOffer)
    → concerns env now offer ≡ true
    → IsLive env now offer
concerns-IsLive env now offer h = (
  (==_iff offer.message_type offer_type).0 (ground arith),
  (==_iff offer.recipient_npub env.npub).0 (ground arith),
  ground arith,
)

trusted_of :
    (trusted : List Text) (from_npub : Text)
    → (not (is_empty trusted) && not (contains trusted from_npub)) ≡ false
    → (trusted ≡ []) ⊎ (contains trusted from_npub ≡ true)
trusted_of [] from h = inl refl
trusted_of (x ∷ xs) from h = inr (ground arith)

module _ (env : Serving) (m : Moment) (handoffs : HashMap Text Text) (from_npub : Text)
    (trusted : Trusts env from_npub) (k npub : Text) where
  handle_hello-HandoffOf :
      (as_offer : Option TraversalOffer) (as_hello : Option LegacyHelloMessage)
      → get (handle_hello env m handoffs from_npub as_hello).pending_handoffs k ≡ some npub
      → HandoffOf env m handoffs from_npub as_offer as_hello k npub
  handle_hello-HandoffOf as_offer none h = inl (unfold handle_hello in h)
  handle_hello-HandoffOf as_offer (some hello) h =
      elim (handle_hello-handoffs env m handoffs from_npub hello) [
        | inl same ↦ inl (rw same at h)
        | inr (wants, added) ↦
            elim (get-inserted handoffs hello.nonce from_npub k npub (rw added at h)) [
              | inl old ↦ inl old
              | inr (key, peer) ↦ inr (trusted, inr (hello, refl, wants, key, peer))
            ]
      ]

  offer_or_hello-HandoffOf :
      (as_offer : Option TraversalOffer) (as_hello : Option LegacyHelloMessage)
      → get (offer_or_hello env m handoffs from_npub as_offer as_hello).pending_handoffs k
        ≡ some npub
      → HandoffOf env m handoffs from_npub as_offer as_hello k npub
  offer_or_hello-HandoffOf none as_hello h = handle_hello-HandoffOf none as_hello h
  offer_or_hello-HandoffOf (some offer) as_hello h =
      elim (Bool-cases (concerns env m.tested_at offer)) [
        | inr other ↦ handle_hello-HandoffOf (some offer) as_hello (simp other at h)
        | inl its ↦
            let after : get (handle_offer env m handoffs offer).pending_handoffs k ≡ some npub =
              simp its at h in
            elim (handle_offer-handoffs env m handoffs offer) [
              | inl same ↦ inl (rw same at after)
              | inr added ↦
                  elim (get-inserted handoffs offer.session_id offer.sender_npub k npub
                    (rw added at after)) [
                      | inl old ↦ inl old
                      | inr (key, peer) ↦ inr (
                        trusted,
                        inl (offer, refl, concerns-IsLive env m.tested_at offer its, key, peer),
                      )
                    ]
            ]
      ]

-- After any message, a pending handoff was there before, or the message comes from a peer that the
-- server trusts and is a live offer to this server with that session and sender, or a hello that wants
-- to connect, with that nonce and from that peer.
pub handle_message-HandoffOf :
    (env : Serving) (m : Moment) (handoffs : HashMap Text Text) (from_npub : Text)
    (as_offer : Option TraversalOffer) (as_hello : Option LegacyHelloMessage) (k npub : Text)
    → get (handle_message env m handoffs from_npub as_offer as_hello).pending_handoffs k ≡ some npub
    → HandoffOf env m handoffs from_npub as_offer as_hello k npub
unfolding handle_message
handle_message-HandoffOf env m handoffs from as_offer as_hello k npub h =
    elim (Bool-cases (not (is_empty env.trusted_npubs) && not (contains env.trusted_npubs from))) [
      | inl stranger ↦ inl (simp stranger at h)
      | inr heard ↦
          offer_or_hello-HandoffOf env m handoffs from (trusted_of env.trusted_npubs from heard) k
            npub as_offer as_hello (simp heard at h)
    ]
