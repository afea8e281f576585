-- ===== src/Client/Replies/Delivered.antt =====
-- A delivered answer stays where its call finds it, and the call accepts what the server sent.
use fips_nostr_bootstrap.Base.{
  ℕ, ◌≤◌, ◌<◌, ◌≡◌, ◌⊎◌, inl, inr, refl, ◌==◌, text_eq, true, Bool-cases, Option, none, some, List,
  [], ◌∷◌, Text, add64, contains,
}
use fips_nostr_bootstrap.Base.HashMap.{HashMap, get, get-insert_self}
use fips_nostr_bootstrap.Schema.{
  TraversalAddress, TraversalOffer, TraversalAnswer, LegacyHelloMessage, LegacyServerInfoMessage,
  ok,
}
use fips_nostr_bootstrap.Traversal.{
  answer_type, create_traversal_offer, create_traversal_answer, validate_traversal_answer_for_offer,
}
use fips_nostr_bootstrap.PunchPacket.{Digest}
use fips_nostr_bootstrap.SessionFrames.{FrameJson}
use fips_nostr_bootstrap.Server.{Serving, Moment, Effect, answered, answer_to, handle_message}
use fips_nostr_bootstrap.Server.Offers.{offer_for, handle_message-answered, answer_to-validate}
use fips_nostr_bootstrap.Waiters.{Poll, register, poll}
use fips_nostr_bootstrap.Waiters.Once.{IsOnce}
use fips_nostr_bootstrap.Waiters.Polls.{poll-ready-register, poll-ready-forget, poll-ready-reply}
use fips_nostr_bootstrap.Client.{ClientState, handle_message_in, answer_in}
use fips_nostr_bootstrap.Client.Calls.{register_offer}
use fips_nostr_bootstrap.Client.Attempts.{got, finish_offer}
use fips_nostr_bootstrap.Client.Steps.{Step, Steps, Reachable}
use fips_nostr_bootstrap.Client.Sound.{IsSound}
use fips_nostr_bootstrap.Client.Sound.Reached.{Step-IsSound, Steps-IsSound, Reachable-IsSound}
use fips_nostr_bootstrap.Client.Datagrams.{handled-Handles}
use fips_nostr_bootstrap.Client.Replies.{
  handle_message_in-ready, on_info-answers, Handles-answers, SparingSteps, SparingSteps-waits,
  SparingSteps-Steps,
}

module _ (channel : ℕ) (value : TraversalAnswer) where
  abbrev IsReady : ClientState → Type 0
  IsReady s = poll s.pending_answer channel ≡ Poll.ready value

  answer_in-IsReady :
      (s : ClientState) (answer : TraversalAnswer) (as_info : Option LegacyServerInfoMessage)
      (o : Option ℕ)
      → IsOnce s.pending_answer
      → IsReady s
      → IsReady (answer_in s answer as_info o)
  answer_in-IsReady s answer as_info none once h = rw (on_info-answers s as_info) h
  answer_in-IsReady s answer as_info (some c) once h =
      poll-ready-reply s.pending_answer answer.in_reply_to answer channel value once h

  handle_message_in-IsReady :
      (s : ClientState) (as_answer : Option TraversalAnswer)
      (as_info : Option LegacyServerInfoMessage)
      → IsOnce s.pending_answer
      → IsReady s
      → IsReady (handle_message_in s as_answer as_info)
  unfolding handle_message_in
  handle_message_in-IsReady s none as_info once h = rw (on_info-answers s as_info) h
  handle_message_in-IsReady s (some answer) as_info once h =
      elim (Bool-cases (answer.message_type == answer_type)) [
        | inl is ↦ rw is (
            answer_in-IsReady s answer as_info (get s.pending_answer.pending answer.in_reply_to)
              once h)
        | inr no_answer ↦ rw (no_answer, on_info-answers s as_info) h
      ]

  module _ {Value : Type 0} (json : FrameJson Value) (sha256 : Digest) where
    Step-IsReady :
        (s t : ClientState) → Step json sha256 s t → IsSound sha256 s → IsReady s → IsReady t
    Step-IsReady _ _ (Step.received s t remote packet effects e) v h =
        simp
          (Handles-answers json sha256 s remote packet t effects
            (handled-Handles json sha256 s remote packet t effects e))
          h
    Step-IsReady _ _ (Step.told s answer info) v h =
        handle_message_in-IsReady s answer info v.answer_once h
    Step-IsReady _ _ (Step.advertised s now advert) v h = h
    Step-IsReady _ _ (Step.observed s observed) v h = h
    Step-IsReady _ _ (Step.probes s txn_id) v h = h
    Step-IsReady _ _ (Step.offers s nonce) v h =
        poll-ready-register s.pending_answer nonce channel value h
    Step-IsReady _ _ (Step.gives_up_offer s nonce) v h =
        poll-ready-forget s.pending_answer nonce channel value h
    Step-IsReady _ _ (Step.greets s session_id) v h = h
    Step-IsReady _ _ (Step.gives_up_hello s session_id) v h = h
    Step-IsReady _ _ (Step.punches s session_id) v h = h
    Step-IsReady _ _ (Step.activates s session_id remote) v h = h

    Steps-IsReady :
        (s t : ClientState) → Steps json sha256 s t → IsSound sha256 s → IsReady s → IsReady t
    Steps-IsReady _ _ (Steps.none_more s) v h = h
    Steps-IsReady _ _ (Steps.then_step s t u before step) v h =
        Step-IsReady t u step (Steps-IsSound sha256 json s t before v)
          (Steps-IsReady s t before v h)

answer_to-replies :
    (env : Serving) (m : Moment) (session_id nonce client_npub : Text) (issued_at ttl_ms : ℕ)
    (reflexive : Option TraversalAddress) (locals : List TraversalAddress)
    → let answer =
        answer_to env m
          (offer_for env session_id nonce client_npub issued_at ttl_ms reflexive locals) in
      (answer.message_type ≡ answer_type) × (answer.in_reply_to ≡ nonce)
unfolding answer_to create_traversal_answer create_traversal_offer
answer_to-replies env m session_id nonce client_npub issued_at ttl_ms reflexive locals =
    (refl, refl)

registered :
    (s : ClientState) (nonce : Text)
    → get (register_offer s nonce).pending_answer.pending nonce ≡ some s.pending_answer.next
unfolding register
registered s nonce = get-insert_self s.pending_answer.pending nonce s.pending_answer.next

accepted :
    (s : ClientState) (now : ℕ) (offer : TraversalOffer) (answer : TraversalAnswer)
    → validate_traversal_answer_for_offer offer answer now ≡ ok tt
    → finish_offer s now offer (got answer) ≡ (s, ok answer)
unfolding finish_offer
accepted s now offer answer valid = rw valid refl

registered-IsSound :
    {Value : Type 0} (json : FrameJson Value) (sha256 : Digest) (nonce : Text) (s t : ClientState)
    → Reachable json sha256 s
    → SparingSteps json sha256 nonce (register_offer s nonce) t
    → IsSound sha256 t
registered-IsSound json sha256 nonce s t reachable meanwhile =
    Steps-IsSound sha256 json (register_offer s nonce) t
      (SparingSteps-Steps json sha256 nonce (register_offer s nonce) t meanwhile)
      (Step-IsSound sha256 json s (register_offer s nonce) (Step.offers s nonce)
        (Reachable-IsSound sha256 json s reachable).0)

module _ {Value : Type 0} (json : FrameJson Value) (sha256 : Digest) (env : Serving) (m : Moment)
    (handoffs : HashMap Text Text) (session_id nonce client_npub : Text) (issued_at ttl_ms : ℕ)
    (reflexive : Option TraversalAddress) (locals : List TraversalAddress) where
  told-IsReady :
      (s t : ClientState) (as_info : Option LegacyServerInfoMessage)
      → SparingSteps json sha256 nonce (register_offer s nonce) t
      → let answer =
          answer_to env m
            (offer_for env session_id nonce client_npub issued_at ttl_ms reflexive locals) in
        poll (handle_message_in t (some answer) as_info).pending_answer s.pending_answer.next
        ≡ Poll.ready answer
  told-IsReady s t as_info meanwhile =
      let (is, replies) =
        answer_to-replies env m session_id nonce client_npub issued_at ttl_ms reflexive locals in
      let waits : get t.pending_answer.pending nonce ≡ some s.pending_answer.next =
        SparingSteps-waits json sha256 nonce (register_offer s nonce) t s.pending_answer.next
          meanwhile (registered s nonce) in
      handle_message_in-ready t
        (answer_to env m
          (offer_for env session_id nonce client_npub issued_at ttl_ms reflexive locals))
        as_info s.pending_answer.next is (rw replies waits)

  -- The client registers an offer in a state `s` that it can come to; then anything may happen up to the
  -- state `t`, as long as no other answer to the nonce comes and the offer is not given up or made
  -- again. The server, which trusts the client and can send, gets the offer before it expires, and its
  -- clock is not behind. Then the server sends an answer before anything else; in every state `u` that
  -- comes after the client got it, the call's channel has that answer; and while neither has
  -- expired, the call ends with it.
  pub register_offer-answered :
      (s t u : ClientState) (from_npub : Text) (as_hello : Option LegacyHelloMessage)
      (as_info : Option LegacyServerInfoMessage) (now : ℕ)
      → let offer = offer_for env session_id nonce client_npub issued_at ttl_ms reflexive locals in
        let answer = answer_to env m offer in
        Reachable json sha256 s
        → SparingSteps json sha256 nonce (register_offer s nonce) t
        → Steps json sha256 (handle_message_in t (some answer) as_info) u
        → (env.trusted_npubs ≡ []) ⊎ (contains env.trusted_npubs from_npub ≡ true)
        → m.sends ≡ true
        → m.tested_at < add64 issued_at ttl_ms
        → issued_at ≤ m.now
        → now < offer.expires_at
        → now < answer.expires_at
        → (rest : List Effect) × ((handle_message env m handoffs from_npub
              (some offer)
              as_hello).effects
            ≡ answered answer ∷ rest)
          × (poll u.pending_answer s.pending_answer.next ≡ Poll.ready answer)
          × (finish_offer u now offer (got answer) ≡ (u, ok answer))
  register_offer-answered s t u from_npub as_hello as_info now reachable meanwhile after trusted
        sent early later lives live =
      let offer = offer_for env session_id nonce client_npub issued_at ttl_ms reflexive locals in
      let answer = answer_to env m offer in
      let (rest, e) =
        handle_message-answered env m handoffs session_id nonce client_npub issued_at ttl_ms
          reflexive locals from_npub as_hello trusted sent early in
      (
        rest,
        e,
        Steps-IsReady s.pending_answer.next answer json sha256
            (handle_message_in t (some answer) as_info) u after
            (Step-IsSound sha256 json t (handle_message_in t (some answer) as_info)
              (Step.told t (some answer) as_info)
              (registered-IsSound json sha256 nonce s t reachable meanwhile))
            (told-IsReady s t as_info meanwhile),
        accepted u now offer answer (
            answer_to-validate env m handoffs session_id nonce client_npub issued_at ttl_ms
              reflexive locals now later lives live),
      )
