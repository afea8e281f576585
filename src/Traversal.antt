-- ===== src/Traversal.antt =====
-- Offers and answers of rust/fips-nostr-rendezvous/src/lib.rs: how they are made, and how an answer
-- is checked against its offer.
pub mod Accepts
use fips_nostr_bootstrap.Base.{
  ℕ, ltb, leb, ◌==◌, nat_eq, text_eq, if◌then◌else◌, not, Bool, true, false, ◌&&◌, ◌||◌, Option,
  none, some, List, [], ◌∷◌, Text, text, add64,
}
use fips_nostr_bootstrap.Schema.{
  TraversalAddress, PunchHint, TraversalOffer, TraversalAnswer, traversal_signal_app,
  traversal_signal_kind, Result, ok, err,
}

abbrev pub offer_type : Text
offer_type = text "offer"

abbrev pub answer_type : Text
answer_type = text "answer"

unfoldable pub create_traversal_offer :
    Text
    → ℕ
    → ℕ
    → Text
    → Text
    → Text
    → Option TraversalAddress
    → List TraversalAddress
    → TraversalOffer
create_traversal_offer session_id issued_at ttl_ms nonce sender_npub recipient_npub
      reflexive_address local_addresses =
    record {
      app = traversal_signal_app;
      event_kind = traversal_signal_kind;
      message_type = offer_type;
      session_id = session_id;
      issued_at = issued_at;
      expires_at = add64 issued_at ttl_ms;
      nonce = nonce;
      sender_npub = sender_npub;
      recipient_npub = recipient_npub;
      reflexive_address = reflexive_address;
      local_addresses = local_addresses;
    }

unfoldable pub create_traversal_answer :
    Text
    → ℕ
    → ℕ
    → Text
    → Text
    → Text
    → Text
    → Bool
    → Option TraversalAddress
    → List TraversalAddress
    → Option PunchHint
    → Option Text
    → TraversalAnswer
create_traversal_answer session_id issued_at ttl_ms nonce sender_npub recipient_npub in_reply_to
      accepted reflexive_address local_addresses punch reason =
    record {
      app = traversal_signal_app;
      event_kind = traversal_signal_kind;
      message_type = answer_type;
      session_id = session_id;
      issued_at = issued_at;
      expires_at = add64 issued_at ttl_ms;
      nonce = nonce;
      sender_npub = sender_npub;
      recipient_npub = recipient_npub;
      in_reply_to = in_reply_to;
      accepted = accepted;
      reflexive_address = reflexive_address;
      local_addresses = local_addresses;
      punch = punch;
      reason = reason;
    }

-- The static strings of the refusals.
pub data Refusal : Type 0 where
  unsupported_app unsupported_event_kind invalid_type expired_signal : Refusal
  session_mismatch identity_mismatch answer_precedes_offer : Refusal
  missing_addresses missing_rejection_reason : Refusal

abbrev pub is_none {ℓ} : {A : Type ℓ} → Option A → Bool
is_none none = true
is_none (some a) = false

abbrev pub is_empty {ℓ} : {A : Type ℓ} → List A → Bool
is_empty [] = true
is_empty (x ∷ xs) = false

-- `reason.as_deref().unwrap_or_default().is_empty()`
abbrev pub no_reason : Option Text → Bool
no_reason none = true
no_reason (some r) = is_empty r

infix 50 ◌!=◌
abbrev pub ◌!=◌ : Text → Text → Bool
a != b = not (a == b)

-- The last two checks, which look at the answer alone.
unfoldable pub check_content : TraversalAnswer → Result (Unit {0}) Refusal
check_content answer =
    if answer.accepted && is_none answer.reflexive_address && is_empty answer.local_addresses
    then err missing_addresses
    else if not answer.accepted && no_reason answer.reason
    then err missing_rejection_reason
    else ok tt

unfoldable pub validate_traversal_answer_for_offer :
    TraversalOffer → TraversalAnswer → ℕ → Result (Unit {0}) Refusal
validate_traversal_answer_for_offer offer answer now =
    if offer.app != traversal_signal_app || answer.app != traversal_signal_app
    then err unsupported_app
    else if not (offer.event_kind == traversal_signal_kind)
        || not (answer.event_kind == traversal_signal_kind)
    then err unsupported_event_kind
    else if offer.message_type != offer_type || answer.message_type != answer_type
    then err invalid_type
    else if leb offer.expires_at now || leb answer.expires_at now
    then err expired_signal
    else if offer.session_id != answer.session_id || answer.in_reply_to != offer.nonce
    then err session_mismatch
    else if offer.sender_npub != answer.recipient_npub || offer.recipient_npub != answer.sender_npub
    then err identity_mismatch
    else if ltb answer.issued_at offer.issued_at
    then err answer_precedes_offer
    else check_content answer
