-- ===== src/Waiters/Once.antt =====
-- No channel is answered twice, and a channel that was answered is no longer pending.
use fips_nostr_bootstrap.Base.{
  ℕ, ◌≤◌, ◌≡◌, inl, inr, refl, sym, ap, ◌∙◌, ◌==◌, nat_eq, text_eq, ℕ_discrete, ==_iff, true, false,
  Bool-cases, Option, none, some, List, [], ◌∷◌, Text, contains, Distinct, arith,
}
use fips_nostr_bootstrap.Base.HashMap.{HashMap, get, insert, remove, values}
use fips_nostr_bootstrap.Waiters.{Reply, Waiters, register, reply_to, reply, forget}

abbrev pub channels {ℓ} : {A : Type ℓ} → List (Reply A) → List ℕ
channels [] = []
channels (r ∷ replies) = r.channel ∷ channels replies

-- Every channel is below `next`, the pending ones are distinct, so are the answered ones, and none is
-- both.
pub record IsOnce {ℓ} {A : Type ℓ} (w : Waiters A) : Type ℓ where
  pub pending_once : Distinct (values w.pending)
  pub replied_once : Distinct (channels w.replies)
  pub apart :
      (c : ℕ) → contains (values w.pending) c ≡ true → contains (channels w.replies) c ≡ false
  pub below :
      (c : ℕ)
      → w.next ≤ c
      → (contains (values w.pending) c ≡ false) × (contains (channels w.replies) c ≡ false)

contains-remove :
    (m : HashMap Text ℕ) (k : Text) (c : ℕ)
    → contains (values m) c ≡ false
    → contains (values (remove m k)) c ≡ false
unfolding remove
contains-remove [] k c h = h
contains-remove ((j, v) ∷ m) k c h = elim (Bool-cases (j == k)) [
  | inl hit ↦ rw hit (contains-remove m k c (ground arith))
  | inr miss ↦ rw miss (ground (arith, contains-remove m k c (ground arith)))
]

remove-Distinct :
    (m : HashMap Text ℕ) (k : Text) → Distinct (values m) → Distinct (values (remove m k))
unfolding remove
remove-Distinct [] k d = d
remove-Distinct ((j, v) ∷ m) k d = elim (Bool-cases (j == k)) [
  | inl hit ↦ rw hit (remove-Distinct m k d.1)
  | inr miss ↦ rw miss (contains-remove m k v d.0, remove-Distinct m k d.1)
]

contains-removed :
    (m : HashMap Text ℕ) (k : Text) (c : ℕ)
    → contains (values (remove m k)) c ≡ true
    → contains (values m) c ≡ true
contains-removed m k c h = elim (Bool-cases (contains (values m) c)) [
  | inl there ↦ there
  | inr gone ↦ cc (contains-remove m k c gone, h)
]

-- The channel of a key is one of the pending ones, and is gone when the key is removed.
pub get-contains :
    (m : HashMap Text ℕ) (k : Text) (c : ℕ) → get m k ≡ some c → contains (values m) c ≡ true
unfolding get ℕ_discrete
get-contains [] k c h = cc
get-contains ((j, v) ∷ m) k c h = elim (Bool-cases (j == k)) [
  | inl hit ↦ let same : v ≡ c = cc (rw hit at h) in ground arith
  | inr miss ↦ ground (arith, get-contains m k c (rw miss at h))
]

pub removed-gone :
    (m : HashMap Text ℕ) (k : Text) (c : ℕ)
    → Distinct (values m)
    → get m k ≡ some c
    → contains (values (remove m k)) c ≡ false
unfolding get remove ℕ_discrete
removed-gone [] k c d h = refl
removed-gone ((j, v) ∷ m) k c d h = elim (Bool-cases (j == k)) [
  | inl hit ↦
      let same : v ≡ c = cc (rw hit at h) in
      rw hit (contains-remove m k c (ap (contains (values m)) (sym same) ∙ d.0))
  | inr miss ↦
      let found : get m k ≡ some c = rw miss at h in
      let other : (v == c) ≡ false = elim (Bool-cases (v == c)) [
        | inl same ↦
            cc (d.0, ap (contains (values m)) ((==_iff v c).0 same), get-contains m k c found)
        | inr differs ↦ differs
      ] in
      rw (miss, other) (removed-gone m k c d.1 found)
]

module _ {ℓ} {A : Type ℓ} where
  pub forget-IsOnce : (w : Waiters A) (key : Text) → IsOnce w → IsOnce (forget w key)
  unfolding forget
  forget-IsOnce w key v = record {
    pending_once = remove-Distinct w.pending key v.pending_once;
    replied_once = v.replied_once;
    apart = λ c h. v.apart c (contains-removed w.pending key c h);
    below = λ c h. (contains-remove w.pending key c (v.below c h).0, (v.below c h).1);
  }

  pub register-IsOnce : (w : Waiters A) (key : Text) → IsOnce w → IsOnce (register w key)
  unfolding register insert ℕ_discrete
  register-IsOnce w key v = record {
    pending_once = (
      contains-remove w.pending key w.next (v.below w.next (omega arith)).0,
      remove-Distinct w.pending key v.pending_once,
    );
    replied_once = v.replied_once;
    apart = λ c h. elim (Bool-cases (w.next == c)) [
      | inl new ↦
          let same : w.next ≡ c = (==_iff w.next c).0 new in (v.below c (omega (arith, same))).1
      | inr old ↦ v.apart c (contains-removed w.pending key c (rw old at h))
    ];
    below = λ c h.
        let old = v.below c (omega (arith, h)) in
        (ground (arith, h, contains-remove w.pending key c old.0), old.1);
  }

  reply_to-IsOnce :
      (w : Waiters A) (key : Text) (value : A) (o : Option ℕ)
      → get w.pending key ≡ o
      → IsOnce w
      → IsOnce (reply_to w key value o)
  unfolding ℕ_discrete
  reply_to-IsOnce w key value none e v = v
  reply_to-IsOnce w key value (some c) e v =
      let pending : contains (values w.pending) c ≡ true = get-contains w.pending key c e in
      record {
        pending_once = remove-Distinct w.pending key v.pending_once;
        replied_once = (v.apart c pending, v.replied_once);
        apart = λ d h. elim (Bool-cases (c == d)) [
          | inl same ↦
              let is : c ≡ d = (==_iff c d).0 same in
              cc (
                removed-gone w.pending key c v.pending_once e,
                ap (contains (values (remove w.pending key))) is,
                h,
              )
          | inr other ↦ rw other (v.apart d (contains-removed w.pending key d h))
        ];
        below = λ d h.
            let old = v.below d h in
            let differs : (c == d) ≡ false = elim (Bool-cases (c == d)) [
              | inl same ↦
                  let is : c ≡ d = (==_iff c d).0 same in
                  cc (pending, ap (contains (values w.pending)) is, old.0)
              | inr other ↦ other
            ] in
            (contains-remove w.pending key d old.0, rw differs old.1);
      }

  pub reply-IsOnce :
      (w : Waiters A) (key : Text) (value : A) → IsOnce w → IsOnce (reply w key value)
  unfolding reply
  reply-IsOnce w key value v = reply_to-IsOnce w key value (get w.pending key) refl v
