-- ===== src/Waiters/Polls.antt =====
-- What a receiver finds: nothing at first, then the first value that is sent for its key, for good.
use fips_nostr_bootstrap.Base.{
  ℕ, ◌≡◌, inl, inr, refl, ap, ◌==◌, nat_eq, text_eq, ℕ_discrete, ==_refl, ==_iff, Bool, true, false,
  Bool-cases, Option, none, some, List, [], ◌∷◌, Text, contains, arith,
}
use fips_nostr_bootstrap.Base.HashMap.{get, insert}
use fips_nostr_bootstrap.Waiters.{
  Reply, Waiters, Poll, register, reply_to, reply, forget, value_of, polled, poll,
}
use fips_nostr_bootstrap.Waiters.Once.{channels, IsOnce, get-contains, removed-gone}

module _ {ℓ} {A : Type ℓ} where
  value_of-none :
      (replies : List (Reply A)) (c : ℕ)
      → contains (channels replies) c ≡ false
      → value_of replies c ≡ none
  unfolding ℕ_discrete
  value_of-none [] c h = refl
  value_of-none (r ∷ replies) c h = elim (Bool-cases (r.channel == c)) [
    | inl hit ↦ cc (rw hit at h)
    | inr miss ↦ rw miss (value_of-none replies c (rw miss at h))
  ]

  value_of-contains :
      (replies : List (Reply A)) (c : ℕ) (value : A)
      → value_of replies c ≡ some value
      → contains (channels replies) c ≡ true
  value_of-contains replies c value h = elim (Bool-cases (contains (channels replies) c)) [
    | inl there ↦ there
    | inr gone ↦ cc (value_of-none replies c gone, h)
  ]

  polled-ready :
      (o : Option A) (b : Bool) (value : A) → polled o b ≡ Poll.ready value → o ≡ some value
  polled-ready (some v) b value h = cc
  polled-ready none true value h = cc
  polled-ready none false value h = cc

  pub poll-register :
      (w : Waiters A) (key : Text) → IsOnce w → poll (register w key) w.next ≡ Poll.waiting
  unfolding poll register insert ℕ_discrete
  poll-register w key once =
      rw (value_of-none w.replies w.next (once.below w.next (omega arith)).1, ==_refl w.next) refl

  pub poll-reply :
      (w : Waiters A) (key : Text) (value : A) (c : ℕ)
      → get w.pending key ≡ some c
      → poll (reply w key value) c ≡ Poll.ready value
  unfolding poll reply ℕ_discrete
  poll-reply w key value c pending = rw pending (rw (==_refl c) refl)

  pub poll-forget :
      (w : Waiters A) (key : Text) (c : ℕ)
      → IsOnce w
      → get w.pending key ≡ some c
      → poll (forget w key) c ≡ Poll.closed
  unfolding poll forget
  poll-forget w key c once pending =
      let answered = once.apart c (get-contains w.pending key c pending) in
      rw
        (value_of-none w.replies c answered, removed-gone w.pending key c once.pending_once pending)
        refl

  pub poll-ready-register :
      (w : Waiters A) (key : Text) (c : ℕ) (value : A)
      → poll w c ≡ Poll.ready value
      → poll (register w key) c ≡ Poll.ready value
  unfolding poll register
  poll-ready-register w key c value h = rw (polled-ready _ _ value h) refl

  pub poll-ready-forget :
      (w : Waiters A) (key : Text) (c : ℕ) (value : A)
      → poll w c ≡ Poll.ready value
      → poll (forget w key) c ≡ Poll.ready value
  unfolding poll forget
  poll-ready-forget w key c value h = rw (polled-ready _ _ value h) refl

  kept :
      (w : Waiters A) (key : Text) (new : A) (o : Option ℕ) (c : ℕ) (value : A)
      → IsOnce w
      → get w.pending key ≡ o
      → value_of w.replies c ≡ some value
      → value_of (reply_to w key new o).replies c ≡ some value
  unfolding ℕ_discrete
  kept w key new none c value once e h = h
  kept w key new (some d) c value once e h = elim (Bool-cases (d == c)) [
    | inl same ↦
        let is : d ≡ c = (==_iff d c).0 same in
        cc (
          once.apart d (get-contains w.pending key d e),
          ap (contains (channels w.replies)) is,
          value_of-contains w.replies c value h,
        )
    | inr other ↦ rw other h
  ]

  pub poll-ready-reply :
      (w : Waiters A) (key : Text) (new : A) (c : ℕ) (value : A)
      → IsOnce w
      → poll w c ≡ Poll.ready value
      → poll (reply w key new) c ≡ Poll.ready value
  unfolding poll reply
  poll-ready-reply w key new c value once h =
      rw (kept w key new (get w.pending key) c value once refl (polled-ready _ _ value h)) refl
