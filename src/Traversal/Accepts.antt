-- ===== src/Traversal/Accepts.antt =====
-- The conditions under which an answer is accepted.
use fips_nostr_bootstrap.Base.{
  ℕ, ap, Bool-cases, ◌≤◌, ◌<◌, ◌≡◌, ◌≢◌, ◌↔◌, ◌⊎◌, inl, inr, refl, true, false, Option, none, some,
  [], ◌∷◌, Text, arith,
}
use fips_nostr_bootstrap.Schema.{
  TraversalOffer, TraversalAnswer, traversal_signal_app, traversal_signal_kind, ok, err,
}
use fips_nostr_bootstrap.Traversal.{
  offer_type, answer_type, Refusal, validate_traversal_answer_for_offer, check_content, no_reason,
  is_empty,
}

-- An accepting answer names an address, a rejecting one gives a reason.
abbrev pub HasContent : TraversalAnswer → Type 0
HasContent a =
    (a.accepted ≡ true → (a.reflexive_address ≢ none) ⊎ (a.local_addresses ≢ []))
    × (a.accepted ≡ false → (r : Text) × (a.reason ≡ some r) × (r ≢ []))

-- The answer belongs to the offer: protocol, session, identities crossed over, and order in time.
pub record Answers (o : TraversalOffer) (a : TraversalAnswer) (now : ℕ) : Type 0 where
  pub offer_app : o.app ≡ traversal_signal_app
  pub answer_app : a.app ≡ traversal_signal_app
  pub offer_kind : o.event_kind ≡ traversal_signal_kind
  pub answer_kind : a.event_kind ≡ traversal_signal_kind
  pub is_offer : o.message_type ≡ offer_type
  pub is_answer : a.message_type ≡ answer_type
  pub offer_lives : now < o.expires_at
  pub answer_lives : now < a.expires_at
  pub same_session : o.session_id ≡ a.session_id
  pub replies : a.in_reply_to ≡ o.nonce
  pub to_sender : o.sender_npub ≡ a.recipient_npub
  pub from_recipient : o.recipient_npub ≡ a.sender_npub
  pub later : o.issued_at ≤ a.issued_at

reason_given : (o : Option Text) → no_reason o ≡ false → (r : Text) × (o ≡ some r) × (r ≢ [])
reason_given none e = cc
reason_given (some r) e = (r, refl, λ q. cc (ap is_empty q))

no_reason-given : (o : Option Text) (r : Text) → o ≡ some r → r ≢ [] → no_reason o ≡ false
no_reason-given none r e h = cc
no_reason-given (some []) r e h = absurd (h (cc))
no_reason-given (some (c ∷ s)) r e h = refl

check_content-HasContent : (a : TraversalAnswer) → (check_content a ≡ ok tt) ↔ HasContent a
unfolding check_content
check_content-HasContent a = (
  λ e. (λ yes_a. ground arith, λ no_a. reason_given a.reason (ground arith)),
  λ h. elim (Bool-cases a.accepted) [
    | inl yes_a ↦ ground (arith, h.0 yes_a)
    | inr no_a ↦
        let (r, given, full) = h.1 no_a in ground (arith, no_reason-given a.reason r given full)
  ],
)

Answers-of_ok :
    (o : TraversalOffer) (a : TraversalAnswer) (now : ℕ)
    → validate_traversal_answer_for_offer o a now ≡ ok tt
    → Answers o a now × (check_content a ≡ ok tt)
unfolding validate_traversal_answer_for_offer
Answers-of_ok o a now e = ground arith

-- An answer is accepted for an offer exactly when it belongs to it, both still live, and it has
-- content: an address if it accepts, a reason that is not empty if it rejects.
pub validate-Answers :
    (o : TraversalOffer) (a : TraversalAnswer) (now : ℕ)
    → (validate_traversal_answer_for_offer o a now ≡ ok tt) ↔ (Answers o a now × HasContent a)
unfolding validate_traversal_answer_for_offer
validate-Answers o a now = (
  λ e.
      let (belongs, full) = Answers-of_ok o a now e in
      (belongs, (check_content-HasContent a).0 full),
  λ h. let full = (check_content-HasContent a).1 h.1 in ground (arith, h.0, full),
)

-- What each refusal says of the offer, the answer and the time.
abbrev pub Refuses : Refusal → TraversalOffer → TraversalAnswer → ℕ → Type 0
Refuses Refusal.unsupported_app o a now =
    (o.app ≢ traversal_signal_app) ⊎ (a.app ≢ traversal_signal_app)
Refuses Refusal.unsupported_event_kind o a now =
    (o.event_kind ≢ traversal_signal_kind) ⊎ (a.event_kind ≢ traversal_signal_kind)
Refuses Refusal.invalid_type o a now =
    (o.message_type ≢ offer_type) ⊎ (a.message_type ≢ answer_type)
Refuses Refusal.expired_signal o a now = (o.expires_at ≤ now) ⊎ (a.expires_at ≤ now)
Refuses Refusal.session_mismatch o a now = (o.session_id ≢ a.session_id) ⊎ (a.in_reply_to ≢ o.nonce)
Refuses Refusal.identity_mismatch o a now =
    (o.sender_npub ≢ a.recipient_npub) ⊎ (o.recipient_npub ≢ a.sender_npub)
Refuses Refusal.answer_precedes_offer o a now = a.issued_at < o.issued_at
Refuses Refusal.missing_addresses o a now =
    (a.accepted ≡ true) × (a.reflexive_address ≡ none) × (a.local_addresses ≡ [])
Refuses Refusal.missing_rejection_reason o a now =
    (a.accepted ≡ false) × (no_reason a.reason ≡ true)

-- Every refusal is true: what it names is wrong with this offer and answer.
validate-Refuses :
    (o : TraversalOffer) (a : TraversalAnswer) (now : ℕ) (r : Refusal)
    → validate_traversal_answer_for_offer o a now ≡ err r
    → Refuses r o a now
unfolding validate_traversal_answer_for_offer check_content
validate-Refuses o a now Refusal.unsupported_app e = ground arith
validate-Refuses o a now r e = ground arith
