-- ===== src/Client/Sound.antt =====
-- What holds of the client's state whenever its locks are free, and that messages keep it.
pub mod Reached
use fips_nostr_bootstrap.Base.{
  ℕ, ◌≡◌, inl, inr, refl, sym, ap, ◌∙◌, subst, ◌==◌, text_eq, nat_eq, ==_iff, if◌then◌else◌, Bool,
  true, false, Bool-cases, Option, none, some, List, [], ◌∷◌, Text, All, Run, done, arith,
}
use fips_nostr_bootstrap.Base.HashMap.{get, insert, AllEntries, AllEntries-insert}
use fips_nostr_bootstrap.Schema.{TraversalAnswer, LegacyServerInfoMessage, LegacyEndpoint}
use fips_nostr_bootstrap.Traversal.{answer_type}
use fips_nostr_bootstrap.PunchPacket.{Digest, session_hash}
use fips_nostr_bootstrap.SessionFrames.{FrameJson}
use fips_nostr_bootstrap.Adverts.Merge.{IsKeyed, merge_advert-IsKeyed}
use fips_nostr_bootstrap.Waiters.{Reply, Waiters, no_waiters, register, reply_to, reply, forget}
use fips_nostr_bootstrap.Waiters.Once.{IsOnce, register-IsOnce, reply-IsOnce, forget-IsOnce}
use fips_nostr_bootstrap.Client.{
  ClientState, ClientEffect, new_client, handle_datagram, on_info, answer_in, server_info_type,
  handle_message_in,
}
use fips_nostr_bootstrap.Client.Datagrams.{txn_id_of, Handles, handled-Handles}
use fips_nostr_bootstrap.Client.Steps.{Step, Steps, Reachable}

-- An answer is handed to the call whose nonce it replies to.
abbrev pub AnswersItsKey : Reply TraversalAnswer → Type 0
AnswersItsKey r = (r.value.in_reply_to ≡ r.key) × (r.value.message_type ≡ answer_type)

abbrev pub InformsItsKey : Reply LegacyServerInfoMessage → Type 0
InformsItsKey r = (r.value.nonce ≡ r.key) × (r.value.message_type ≡ server_info_type)

pub record IsSound (sha256 : Digest) (s : ClientState) : Type 0 where
  pub stun_once : IsOnce s.pending_stun
  pub answer_once : IsOnce s.pending_answer
  pub info_once : IsOnce s.pending_server_info
  pub punch_once : IsOnce s.pending_punch
  pub answers : All AnswersItsKey s.pending_answer.replies
  pub infos : All InformsItsKey s.pending_server_info.replies
  pub hashes : AllEntries (λ hash session_id. hash ≡ session_hash sha256 session_id) s.punch_hashes
  pub adverts : IsKeyed s.advert_cache

module _ {ℓ κ} {A : Type ℓ} (P : Reply A → Type κ) where
  reply_to-All :
      (w : Waiters A) (key : Text) (value : A) (o : Option ℕ)
      → All P w.replies
      → ((channel : ℕ) → P (record { key = key; channel = channel; value = value }))
      → All P (reply_to w key value o).replies
  reply_to-All w key value none before new = before
  reply_to-All w key value (some channel) before new = (new channel, before)

  reply-All :
      (w : Waiters A) (key : Text) (value : A)
      → All P w.replies
      → ((channel : ℕ) → P (record { key = key; channel = channel; value = value }))
      → All P (reply w key value).replies
  unfolding reply
  reply-All w key value before new = reply_to-All w key value (get w.pending key) before new

pub no_waiters-IsOnce {ℓ} : {A : Type ℓ} → IsOnce (no_waiters {A = A})
no_waiters-IsOnce = record {
  pending_once = tt;
  replied_once = tt;
  apart = λ c h. refl;
  below = λ c h. (refl, refl);
}

module _ (sha256 : Digest) (s : ClientState) (v : IsSound sha256 s) where
  pub with_stun :
      (w : Waiters LegacyEndpoint) → IsOnce w → IsSound sha256 (record s { pending_stun = w })
  with_stun w once = record {
    stun_once = once;
    answer_once = v.answer_once;
    info_once = v.info_once;
    punch_once = v.punch_once;
    answers = v.answers;
    infos = v.infos;
    hashes = v.hashes;
    adverts = v.adverts;
  }

  pub with_punch :
      (w : Waiters LegacyEndpoint) → IsOnce w → IsSound sha256 (record s { pending_punch = w })
  with_punch w once = record {
    stun_once = v.stun_once;
    answer_once = v.answer_once;
    info_once = v.info_once;
    punch_once = once;
    answers = v.answers;
    infos = v.infos;
    hashes = v.hashes;
    adverts = v.adverts;
  }

  pub with_answer :
      (w : Waiters TraversalAnswer)
      → IsOnce w
      → All AnswersItsKey w.replies
      → IsSound sha256 (record s { pending_answer = w })
  with_answer w once all = record {
    stun_once = v.stun_once;
    answer_once = once;
    info_once = v.info_once;
    punch_once = v.punch_once;
    answers = all;
    infos = v.infos;
    hashes = v.hashes;
    adverts = v.adverts;
  }

  pub with_info :
      (w : Waiters LegacyServerInfoMessage)
      → IsOnce w
      → All InformsItsKey w.replies
      → IsSound sha256 (record s { pending_server_info = w })
  with_info w once all = record {
    stun_once = v.stun_once;
    answer_once = v.answer_once;
    info_once = once;
    punch_once = v.punch_once;
    answers = v.answers;
    infos = all;
    hashes = v.hashes;
    adverts = v.adverts;
  }

module _ (sha256 : Digest) where
  on_info-IsSound :
      (s : ClientState) (o : Option LegacyServerInfoMessage)
      → IsSound sha256 s
      → IsSound sha256 (on_info s o)
  on_info-IsSound s none v = v
  on_info-IsSound s (some info) v = elim (Bool-cases (info.message_type == server_info_type)) [
    | inl is ↦ rw is (
        with_info sha256 s v (reply s.pending_server_info info.nonce info)
          (reply-IsOnce s.pending_server_info info.nonce info v.info_once)
          (reply-All InformsItsKey s.pending_server_info info.nonce info v.infos
            (λ channel. (refl, (==_iff info.message_type server_info_type).0 is))))
    | inr no' ↦ rw no' v
  ]

  answer_in-IsSound :
      (s : ClientState) (answer : TraversalAnswer) (as_info : Option LegacyServerInfoMessage)
      (o : Option ℕ)
      → answer.message_type ≡ answer_type
      → IsSound sha256 s
      → IsSound sha256 (answer_in s answer as_info o)
  answer_in-IsSound s answer as_info none is v = on_info-IsSound s as_info v
  answer_in-IsSound s answer as_info (some channel) is v =
      with_answer sha256 s v (reply s.pending_answer answer.in_reply_to answer)
        (reply-IsOnce s.pending_answer answer.in_reply_to answer v.answer_once)
        (reply-All AnswersItsKey s.pending_answer answer.in_reply_to answer v.answers
          (λ channel. (refl, is)))

  pub handle_message_in-IsSound :
      (s : ClientState) (as_answer : Option TraversalAnswer)
      (as_info : Option LegacyServerInfoMessage)
      → IsSound sha256 s
      → IsSound sha256 (handle_message_in s as_answer as_info)
  unfolding handle_message_in
  handle_message_in-IsSound s none as_info v = on_info-IsSound s as_info v
  handle_message_in-IsSound s (some answer) as_info v =
      elim (Bool-cases (answer.message_type == answer_type)) [
        | inl is ↦ rw is (
            answer_in-IsSound s answer as_info (get s.pending_answer.pending answer.in_reply_to)
              ((==_iff answer.message_type answer_type).0 is) v)
        | inr no' ↦ rw no' (on_info-IsSound s as_info v)
      ]
