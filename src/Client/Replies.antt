-- ===== src/Client/Replies.antt =====
-- From an offer to its answer: what a server answers reaches the call that waits for it, whatever else
-- happens in between.
pub mod Delivered
use fips_nostr_bootstrap.Base.{
  ℕ, ◌≤◌, ◌<◌, ◌≡◌, ◌≢◌, ◌⊎◌, inl, inr, refl, sym, ap, ◌∙◌, ◌==◌, text_eq, ==_refl, ==_ne,
  if◌then◌else◌, Bool, true, false, Bool-cases, Option, none, some, List, [], ◌∷◌, Text, add64,
  contains, arith,
}
use fips_nostr_bootstrap.Base.HashMap.{
  HashMap, get, insert, remove, get-insert, get-insert_self, get-remove,
}
use fips_nostr_bootstrap.Schema.{
  TraversalAddress, TraversalOffer, TraversalAnswer, LegacyHelloMessage, LegacyServerInfoMessage,
  LegacyEndpoint, ok,
}
use fips_nostr_bootstrap.Traversal.{answer_type, create_traversal_offer}
use fips_nostr_bootstrap.PunchPacket.{Digest}
use fips_nostr_bootstrap.SessionFrames.{FrameJson}
use fips_nostr_bootstrap.Waiters.{Waiters, Poll, register, reply, reply_to, forget, poll}
use fips_nostr_bootstrap.Waiters.Once.{IsOnce}
use fips_nostr_bootstrap.Waiters.Polls.{poll-reply}
use fips_nostr_bootstrap.Client.{
  ClientState, ClientEffect, handle_message_in, answer_in, on_info, server_info_type,
}
use fips_nostr_bootstrap.Client.Datagrams.{Handles, handled-Handles}
use fips_nostr_bootstrap.Client.Steps.{Step, Steps, Reachable}
use fips_nostr_bootstrap.Client.Calls.{register_offer}

-- An answer for a nonce that a call waits on reaches its channel.
pub handle_message_in-ready :
    (s : ClientState) (answer : TraversalAnswer) (as_info : Option LegacyServerInfoMessage)
    (channel : ℕ)
    → answer.message_type ≡ answer_type
    → get s.pending_answer.pending answer.in_reply_to ≡ some channel
    → poll (handle_message_in s (some answer) as_info).pending_answer channel ≡ Poll.ready answer
unfolding handle_message_in
handle_message_in-ready s answer as_info channel is waits =
    let its : (answer.message_type == answer_type) ≡ true = rw is (==_refl answer_type) in
    rw (its, waits) (poll-reply s.pending_answer answer.in_reply_to answer channel waits)

-- Giving a value for another key leaves a channel waiting.
get-reply :
    (w : Waiters TraversalAnswer) (key nonce : Text) (value : TraversalAnswer) (o : Option ℕ)
    (channel : ℕ)
    → key ≢ nonce
    → get w.pending nonce ≡ some channel
    → get (reply_to w key value o).pending nonce ≡ some channel
get-reply w key nonce value none channel other waits = waits
get-reply w key nonce value (some c) channel other waits =
    rw (get-remove w.pending key nonce, ==_ne key nonce other) waits

pub on_info-answers :
    (s : ClientState) (o : Option LegacyServerInfoMessage)
    → (on_info s o).pending_answer ≡ s.pending_answer
on_info-answers s none = refl
on_info-answers s (some info) = elim (Bool-cases (info.message_type == server_info_type)) [
  | inl is ↦ rw is refl
  | inr other ↦ rw other refl
]

answer_in-waits :
    (s : ClientState) (answer : TraversalAnswer) (as_info : Option LegacyServerInfoMessage)
    (o : Option ℕ) (nonce : Text) (channel : ℕ)
    → answer.in_reply_to ≢ nonce
    → get s.pending_answer.pending nonce ≡ some channel
    → get (answer_in s answer as_info o).pending_answer.pending nonce ≡ some channel
unfolding reply
answer_in-waits s answer as_info none nonce channel other waits =
    rw (on_info-answers s as_info) waits
answer_in-waits s answer as_info (some c) nonce channel other waits =
    get-reply s.pending_answer answer.in_reply_to nonce answer
      (get s.pending_answer.pending answer.in_reply_to) channel other waits

-- The message is no answer to `nonce`.
abbrev pub SparesAnswer : Text → Option TraversalAnswer → Type 0
SparesAnswer nonce none = Unit {0}
SparesAnswer nonce (some answer) = answer.in_reply_to ≢ nonce

handle_message_in-waits :
    (s : ClientState) (as_answer : Option TraversalAnswer)
    (as_info : Option LegacyServerInfoMessage) (nonce : Text) (channel : ℕ)
    → SparesAnswer nonce as_answer
    → get s.pending_answer.pending nonce ≡ some channel
    → get (handle_message_in s as_answer as_info).pending_answer.pending nonce ≡ some channel
unfolding handle_message_in
handle_message_in-waits s none as_info nonce channel other waits =
    rw (on_info-answers s as_info) waits
handle_message_in-waits s (some answer) as_info nonce channel other waits =
    elim (Bool-cases (answer.message_type == answer_type)) [
      | inl is ↦ rw is (
          answer_in-waits s answer as_info (get s.pending_answer.pending answer.in_reply_to) nonce
            channel other waits)
      | inr no_answer ↦ rw (no_answer, on_info-answers s as_info) waits
    ]

module _ {Value : Type 0} (json : FrameJson Value) (sha256 : Digest) where
  pub Handles-answers :
      (s : ClientState) (remote : LegacyEndpoint) (packet : List ℕ) (t : ClientState)
      (effects : List (ClientEffect Value))
      → Handles json sha256 s remote packet t effects
      → t.pending_answer ≡ s.pending_answer
  Handles-answers s remote packet _ _ Handles.ignored = refl
  Handles-answers s remote packet _ _ (Handles.mapped endpoint channel parsed known) = refl
  Handles-answers s remote packet _ _ (Handles.punched punch session_id parsed known) = refl
  Handles-answers s remote packet _ _ (Handles.results frame active decoded is same there channel) =
      refl

module _ {Value : Type 0} (json : FrameJson Value) (sha256 : Digest) (nonce : Text) where
  -- The step is not about `nonce`: it brings no answer to it, offers nothing under it and does not
  -- give it up.
  abbrev pub Spares : (s t : ClientState) → Step json sha256 s t → Type 0
  Spares _ _ (Step.told s answer info) = SparesAnswer nonce answer
  Spares _ _ (Step.offers s other) = other ≢ nonce
  Spares _ _ (Step.gives_up_offer s other) = other ≢ nonce
  Spares _ _ _ = Unit {0}

  pub data SparingSteps : ClientState → ClientState → Type 0 where
    none_more : (s : ClientState) → SparingSteps s s
    then_step :
        (s t u : ClientState)
        → SparingSteps s t
        → (step : Step json sha256 t u) → Spares t u step
        → SparingSteps s u

  Step-waits :
      (s t : ClientState) (step : Step json sha256 s t) (channel : ℕ)
      → Spares s t step
      → get s.pending_answer.pending nonce ≡ some channel
      → get t.pending_answer.pending nonce ≡ some channel
  unfolding register forget
  Step-waits _ _ (Step.received s t remote packet effects e) channel spares waits =
      simp
        (Handles-answers json sha256 s remote packet t effects
          (handled-Handles json sha256 s remote packet t effects e))
        waits
  Step-waits _ _ (Step.told s answer info) channel spares waits =
      handle_message_in-waits s answer info nonce channel spares waits
  Step-waits _ _ (Step.advertised s now advert) channel spares waits = waits
  Step-waits _ _ (Step.observed s observed) channel spares waits = waits
  Step-waits _ _ (Step.probes s txn_id) channel spares waits = waits
  Step-waits _ _ (Step.offers s other) channel spares waits =
      rw
        (
          get-insert s.pending_answer.pending other s.pending_answer.next nonce,
          ==_ne other nonce spares,
        )
        waits
  Step-waits _ _ (Step.gives_up_offer s other) channel spares waits =
      rw (get-remove s.pending_answer.pending other nonce, ==_ne other nonce spares) waits
  Step-waits _ _ (Step.greets s session_id) channel spares waits = waits
  Step-waits _ _ (Step.gives_up_hello s session_id) channel spares waits = waits
  Step-waits _ _ (Step.punches s session_id) channel spares waits = waits
  Step-waits _ _ (Step.activates s session_id remote) channel spares waits = waits

  pub SparingSteps-waits :
      (s t : ClientState) (channel : ℕ)
      → SparingSteps s t
      → get s.pending_answer.pending nonce ≡ some channel
      → get t.pending_answer.pending nonce ≡ some channel
  SparingSteps-waits _ _ channel (SparingSteps.none_more s) waits = waits
  SparingSteps-waits _ _ channel (SparingSteps.then_step s t u before step spares) waits =
      Step-waits t u step channel spares (SparingSteps-waits s t channel before waits)

  pub SparingSteps-Steps : (s t : ClientState) → SparingSteps s t → Steps json sha256 s t
  SparingSteps-Steps _ _ (SparingSteps.none_more s) = Steps.none_more s
  SparingSteps-Steps _ _ (SparingSteps.then_step s t u before step spares) =
      Steps.then_step s t u (SparingSteps-Steps s t before) step
