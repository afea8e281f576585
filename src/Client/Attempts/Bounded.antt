-- ===== src/Client/Attempts/Bounded.antt =====
-- The loops of `send_offer` and `send_hello` end, and by the first round that decides.
use fips_nostr_bootstrap.Base.{
  ℕ, zero, suc, ◌+◌, ◌*◌, ◌≤◌, ◌<◌, ◌≡◌, inl, inr, refl, ap, ◌∙◌, leb, if◌then◌else◌, ◌==◌, nat_eq,
  ℕ_discrete, ==_iff, Bool-cases, Option-cases, Option, none, some, arith,
}
use fips_nostr_bootstrap.Schema.{TraversalAnswer, LegacyServerInfoMessage}
use fips_nostr_bootstrap.Client.Attempts.{
  Round, Outcome, Waited, after_round, retry_loop, offer_wait_ms, offer_retry_ms, hello_wait_ms,
  hello_retry_ms, await_answer, await_server_info,
}

-- `timeout` does not end early: round `n` ends `n + 1` times the retry time after the start at least.
abbrev pub IsOnTime {ℓ} : {A : Type ℓ} → ℕ → (ℕ → Round A) → Type ℓ
IsOnTime retry_ms rounds = (n time : ℕ) → rounds n ≡ Round.elapsed time → suc n * retry_ms ≤ time

module _ {ℓ} {A : Type ℓ} where
  -- What a round decides, if it ends the loop.
  abbrev pub decides : ℕ → Round A → Option (Outcome A)
  decides wait_ms Round.broken = some Outcome.failed
  decides wait_ms Round.closed = some Outcome.lost
  decides wait_ms (Round.replied value) = some (Outcome.got value)
  decides wait_ms (Round.elapsed time) = if leb wait_ms time then some Outcome.timed_out else none

  abbrev pub sent_in : Round A → ℕ
  sent_in Round.broken = 0
  sent_in Round.closed = 1
  sent_in (Round.replied value) = 1
  sent_in (Round.elapsed time) = 1

  -- Round `k` is the first that decides, and the loop ended as it says; each round up to it sent
  -- its message, but for one that is broken.
  pub record DecidedAt (wait_ms : ℕ) (rounds : ℕ → Round A) (k : ℕ) (w : Waited A) : Type ℓ where
    pub undecided : (j : ℕ) → j < k → decides wait_ms (rounds j) ≡ none
    pub decided : decides wait_ms (rounds k) ≡ some w.outcome
    pub sent : w.sends ≡ k + sent_in (rounds k)

  stops :
      (wait_ms n : ℕ) (later : Waited A) (r : Round A) (o : Outcome A)
      → decides wait_ms r ≡ some o
      → after_round wait_ms n later r ≡ record { outcome = o; sends = n + sent_in r }
  stops wait_ms n later Round.broken o e = ground arith
  stops wait_ms n later Round.closed o e = ground arith
  stops wait_ms n later (Round.replied value) o e = ground arith
  stops wait_ms n later (Round.elapsed time) o e = ground arith

  goes_on :
      (wait_ms n : ℕ) (later : Waited A) (r : Round A)
      → decides wait_ms r ≡ none
      → (after_round wait_ms n later r ≡ later)
        × ((time : ℕ) × (r ≡ Round.elapsed time) × (time < wait_ms))
  goes_on wait_ms n later Round.broken e = cc
  goes_on wait_ms n later Round.closed e = cc
  goes_on wait_ms n later (Round.replied value) e = cc
  goes_on wait_ms n later (Round.elapsed time) e = (ground arith, (time, refl, ground arith))

  module _ (wait_ms retry_ms : ℕ) (rounds : ℕ → Round A) (on_time : IsOnTime retry_ms rounds) where
    -- The loop from round `n` on, where the fuel covers the time.
    retry_loop-DecidedAt :
        (fuel n : ℕ)
        → ((j : ℕ) → j < n → decides wait_ms (rounds j) ≡ none)
        → wait_ms ≤ (n + fuel) * retry_ms
        → n * retry_ms < wait_ms
        → (k : ℕ) × ((k < n + fuel) × DecidedAt wait_ms rounds k (retry_loop wait_ms rounds fuel n))
    unfolding retry_loop ℕ_discrete
    retry_loop-DecidedAt zero n before enough more = absurd (grind arith)
    retry_loop-DecidedAt (suc fuel) n before enough more =
        elim (Option-cases (decides wait_ms (rounds n))) [
          | inl goes ↦
              let (same, (time, is, short)) =
                goes_on wait_ms n (retry_loop wait_ms rounds fuel (suc n)) (rounds n) goes in
              let up_to : (j : ℕ) → j < suc n → decides wait_ms (rounds j) ≡ none = λ j below.
                elim (Bool-cases (j == n)) [
                  | inl here ↦ ap (λ i. decides wait_ms (rounds i)) ((==_iff j n).0 here) ∙ goes
                  | inr earlier ↦ before j (ground arith)
                ] in
              let late : suc n * retry_ms ≤ time = on_time n time is in
              let (k, (below, later)) =
                retry_loop-DecidedAt fuel (suc n) up_to (grind arith)
                  (omega (arith, late, short)) in
              (k, (omega (arith, below), rw same later))
          | inr (o, stop) ↦
              let is = stops wait_ms n (retry_loop wait_ms rounds fuel (suc n)) (rounds n) o stop in
              (n, (omega arith, rw is (record { undecided = before; decided = stop; sent = refl })))
        ]

-- With the constants of the code, five offers at most are sent, and twelve hellos.
module _ (rounds : ℕ → Round TraversalAnswer) (on_time : IsOnTime offer_retry_ms rounds) where
  -- The loop of `send_offer` ends, where no round is shorter than its timeout: one of its first five
  -- rounds decides the outcome, by a failure, an answer, a lost channel or the end of the 15 seconds, no
  -- earlier round does, and every round up to it has sent the offer, but for a last one that fails.
  pub await_answer-DecidedAt :
      (k : ℕ) × ((k < 5) × DecidedAt offer_wait_ms rounds k (await_answer rounds))
  unfolding await_answer
  await_answer-DecidedAt =
      retry_loop-DecidedAt offer_wait_ms offer_retry_ms rounds on_time 5 0 (λ j h. elim h [ ])
        (omega arith) (omega arith)

module _ (rounds : ℕ → Round LegacyServerInfoMessage)
    (on_time : IsOnTime hello_retry_ms rounds) where
  -- The same of `send_hello`, with twelve rounds and 60 seconds.
  pub await_server_info-DecidedAt :
      (k : ℕ) × ((k < 12) × DecidedAt hello_wait_ms rounds k (await_server_info rounds))
  unfolding await_server_info
  await_server_info-DecidedAt =
      retry_loop-DecidedAt hello_wait_ms hello_retry_ms rounds on_time 12 0 (λ j h. elim h [ ])
        (omega arith) (omega arith)
