-- ===== src/Waiters.antt =====
-- The maps of one-shot senders that a daemon keeps: `pending_stun`, `pending_answer`,
-- `pending_server_info` and `pending_punch` of rust/fips-nostr-rendezvous/src/bin/fips-video-daemon.rs.
pub mod Once
pub mod Polls
use fips_nostr_bootstrap.Base.{
  ℕ, suc, ◌==◌, nat_eq, text_eq, ◌&&◌, if◌then◌else◌, Bool, true, false, Option, none, some, List,
  [], ◌∷◌, Text, contains,
}
use fips_nostr_bootstrap.Base.HashMap.{HashMap, get, insert, remove, values}

-- A value that was sent: the key and the channel, and what the receiver finds.
pub record Reply {ℓ} (A : Type ℓ) : Type ℓ where
  pub key : Text
  pub channel : ℕ
  pub value : A

-- `pending` holds the senders by key, a sender being the number of its channel; `next` is the number
-- of the next channel.
pub record Waiters {ℓ} (A : Type ℓ) : Type ℓ where
  pub pending : HashMap Text ℕ
  pub replies : List (Reply A)
  pub next : ℕ

abbrev pub no_waiters {ℓ} : {A : Type ℓ} → Waiters A
no_waiters = record { pending = []; replies = []; next = 0 }

module _ {ℓ} {A : Type ℓ} where
  -- `oneshot::channel()`, and its sender put into the map. A sender that the key had is dropped.
  unfoldable pub register : Waiters A → Text → Waiters A
  register w key = record w { pending = insert w.pending key w.next; next = suc w.next }

  abbrev pub reply_to : Waiters A → Text → A → Option ℕ → Waiters A
  reply_to w key value none = w
  reply_to w key value (some channel) = record w {
    pending = remove w.pending key;
    replies = record { key = key; channel = channel; value = value } ∷ w.replies;
  }

  -- `if let Some(tx) = map.remove(&key) { let _ = tx.send(value); }`
  unfoldable pub reply : Waiters A → Text → A → Waiters A
  reply w key value = reply_to w key value (get w.pending key)

  unfoldable pub forget : Waiters A → Text → Waiters A
  forget w key = record w { pending = remove w.pending key }

-- What the receiver of a channel finds.
pub data Poll {ℓ} (A : Type ℓ) : Type ℓ where
  ready : A → Poll A
  waiting closed : Poll A

module _ {ℓ} {A : Type ℓ} where
  abbrev pub value_of : List (Reply A) → ℕ → Option A
  value_of [] channel = none
  value_of (r ∷ replies) channel =
      if r.channel == channel then some r.value else value_of replies channel

  abbrev pub polled : Option A → Bool → Poll A
  polled (some value) pending = Poll.ready value
  polled none true = Poll.waiting
  polled none false = Poll.closed

  unfoldable pub poll : Waiters A → ℕ → Poll A
  poll w channel = polled (value_of w.replies channel) (contains (values w.pending) channel)
