-- ===== src/Client/Attempts.antt =====
-- The loops of `send_offer` and `send_hello` in rust/fips-nostr-rendezvous/src/bin/fips-video-daemon.rs,
-- which send a message again until it is answered or the time is up.
pub mod Bounded
use fips_nostr_bootstrap.Base.{
  ℕ, zero, suc, leb, if◌then◌else◌, Bool, true, false, Option, none, some, Text,
}
use fips_nostr_bootstrap.Schema.{
  TraversalOffer, TraversalAnswer, LegacyServerInfoMessage, Result, ok, err,
}
use fips_nostr_bootstrap.Traversal.{Refusal, validate_traversal_answer_for_offer}
use fips_nostr_bootstrap.Client.{ClientState}
use fips_nostr_bootstrap.Client.Calls.{forget_offer, forget_hello}

-- A round of the loop: making or sending the message fails, or the receiver finds a value or that its
-- sender is gone, or `timeout` ends the round, with the time since `start`.
pub data Round {ℓ} (A : Type ℓ) : Type ℓ where
  broken closed : Round A
  replied : A → Round A
  elapsed : ℕ → Round A

pub data Outcome {ℓ} (A : Type ℓ) : Type ℓ where
  got : A → Outcome A
  failed lost timed_out unfinished : Outcome A

-- How the loop ended, and how many messages it sent.
pub record Waited {ℓ} (A : Type ℓ) : Type ℓ where
  pub outcome : Outcome A
  pub sends : ℕ

abbrev pub ended {ℓ} : {A : Type ℓ} → Outcome A → ℕ → Waited A
ended outcome sends = record { outcome = outcome; sends = sends }

-- What follows round `n`: `later` if the loop goes on.
abbrev pub after_round {ℓ} : {A : Type ℓ} → ℕ → ℕ → Waited A → Round A → Waited A
after_round wait_ms n later Round.broken = ended Outcome.failed n
after_round wait_ms n later Round.closed = ended Outcome.lost (suc n)
after_round wait_ms n later (Round.replied value) = ended (Outcome.got value) (suc n)
after_round wait_ms n later (Round.elapsed time) =
    if leb wait_ms time then ended Outcome.timed_out (suc n) else later

-- The loop from round `n` on, on fuel.
unfoldable pub retry_loop {ℓ} : {A : Type ℓ} → ℕ → (ℕ → Round A) → ℕ → ℕ → Waited A
retry_loop wait_ms rounds zero n = ended Outcome.unfinished n
retry_loop wait_ms rounds (suc fuel) n =
    after_round wait_ms n (retry_loop wait_ms rounds fuel (suc n)) (rounds n)

abbrev pub offer_wait_ms : ℕ
offer_wait_ms = 15000

abbrev pub offer_retry_ms : ℕ
offer_retry_ms = 3000

abbrev pub hello_wait_ms : ℕ
hello_wait_ms = 60000

abbrev pub hello_retry_ms : ℕ
hello_retry_ms = 5000

unfoldable pub await_answer : (ℕ → Round TraversalAnswer) → Waited TraversalAnswer
unfolding retry_loop
await_answer rounds = retry_loop offer_wait_ms rounds 5 0

unfoldable pub await_server_info :
    (ℕ → Round LegacyServerInfoMessage) → Waited LegacyServerInfoMessage
unfolding retry_loop
await_server_info rounds = retry_loop hello_wait_ms rounds 12 0

-- Why `send_offer` gives no answer.
pub data Unanswered : Type 0 where
  not_sent channel_closed answer_timed_out : Unanswered
  invalid_answer : Refusal → Unanswered

abbrev pub validated :
    TraversalAnswer → Result (Unit {0}) Refusal → Result TraversalAnswer Unanswered
validated answer (ok u) = ok answer
validated answer (err reason) = err (Unanswered.invalid_answer reason)

-- The end of `send_offer`, with the state and the clock at that time. The entry of the map is removed
-- on a timeout, and stays if a message could not be sent.
unfoldable pub finish_offer :
    ClientState
    → ℕ
    → TraversalOffer
    → Outcome TraversalAnswer
    → ClientState × Result TraversalAnswer Unanswered
finish_offer s now offer (Outcome.got answer) =
    (s, validated answer (validate_traversal_answer_for_offer offer answer now))
finish_offer s now offer Outcome.failed = (s, err Unanswered.not_sent)
finish_offer s now offer Outcome.lost = (s, err Unanswered.channel_closed)
finish_offer s now offer _ = (forget_offer s offer.nonce, err Unanswered.answer_timed_out)

-- The end of `send_hello`.
unfoldable pub finish_hello :
    ClientState
    → Text
    → Outcome LegacyServerInfoMessage
    → ClientState × Result LegacyServerInfoMessage Unanswered
finish_hello s session_id (Outcome.got info) = (s, ok info)
finish_hello s session_id Outcome.failed = (s, err Unanswered.not_sent)
finish_hello s session_id Outcome.lost = (s, err Unanswered.channel_closed)
finish_hello s session_id _ = (forget_hello s session_id, err Unanswered.answer_timed_out)
