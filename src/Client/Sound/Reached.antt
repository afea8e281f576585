-- ===== src/Client/Sound/Reached.antt =====
-- The states that the client comes to are sound.
use fips_nostr_bootstrap.Base.{ℕ, ◌≡◌, refl, text_eq, nat_eq, List, Text, some}
use fips_nostr_bootstrap.Base.HashMap.{get, AllEntries-insert}
use fips_nostr_bootstrap.Schema.{LegacyEndpoint}
use fips_nostr_bootstrap.PunchPacket.{Digest, session_hash}
use fips_nostr_bootstrap.SessionFrames.{FrameJson}
use fips_nostr_bootstrap.Adverts.Merge.{merge_advert-IsKeyed}
use fips_nostr_bootstrap.Waiters.{Poll, poll, register, forget}
use fips_nostr_bootstrap.Waiters.Polls.{poll-forget}
use fips_nostr_bootstrap.Waiters.Once.{register-IsOnce, reply-IsOnce, forget-IsOnce}
use fips_nostr_bootstrap.Client.{ClientState, ClientEffect, new_client}
use fips_nostr_bootstrap.Client.Calls.{forget_offer, forget_hello}
use fips_nostr_bootstrap.Client.Datagrams.{txn_id_of, Handles, handled-Handles}
use fips_nostr_bootstrap.Client.Steps.{Step, Steps, Reachable}
use fips_nostr_bootstrap.Client.Sound.{
  IsSound, no_waiters-IsOnce, with_stun, with_punch, with_answer, with_info,
  handle_message_in-IsSound,
}

module _ (sha256 : Digest) where
  fresh-IsSound : IsSound sha256 new_client
  fresh-IsSound = record {
    stun_once = no_waiters-IsOnce;
    answer_once = no_waiters-IsOnce;
    info_once = no_waiters-IsOnce;
    punch_once = no_waiters-IsOnce;
    answers = tt;
    infos = tt;
    hashes = tt;
    adverts = tt;
  }

  module _ {Value : Type 0} (json : FrameJson Value) where
    Handles-IsSound :
        (s : ClientState) (remote : LegacyEndpoint) (packet : List ℕ) (t : ClientState)
        (effects : List (ClientEffect Value))
        → Handles json sha256 s remote packet t effects
        → IsSound sha256 s
        → IsSound sha256 t
    Handles-IsSound s remote packet _ _ Handles.ignored v = v
    Handles-IsSound s remote packet _ _ (Handles.mapped endpoint channel parsed known) v =
        with_stun sha256 s v _ (reply-IsOnce s.pending_stun (txn_id_of packet) endpoint v.stun_once)
    Handles-IsSound s remote packet _ _ (Handles.punched punch session_id parsed known) v =
        with_punch sha256 s v _ (reply-IsOnce s.pending_punch session_id remote v.punch_once)
    Handles-IsSound s remote packet _ _ (Handles.results frame active decoded is same there channel)
          v =
        v

    pub Step-IsSound :
        (s t : ClientState) → Step json sha256 s t → IsSound sha256 s → IsSound sha256 t
    unfolding register forget
    Step-IsSound _ _ (Step.received s t remote packet effects e) v =
        Handles-IsSound s remote packet t effects
          (handled-Handles json sha256 s remote packet t effects e) v
    Step-IsSound _ _ (Step.told s answer info) v = handle_message_in-IsSound sha256 s answer info v
    Step-IsSound _ _ (Step.advertised s now advert) v = record {
      stun_once = v.stun_once;
      answer_once = v.answer_once;
      info_once = v.info_once;
      punch_once = v.punch_once;
      answers = v.answers;
      infos = v.infos;
      hashes = v.hashes;
      adverts = merge_advert-IsKeyed now s.advert_cache advert v.adverts;
    }
    Step-IsSound _ _ (Step.observed s observed) v = record {
      stun_once = v.stun_once;
      answer_once = v.answer_once;
      info_once = v.info_once;
      punch_once = v.punch_once;
      answers = v.answers;
      infos = v.infos;
      hashes = v.hashes;
      adverts = v.adverts;
    }
    Step-IsSound _ _ (Step.probes s txn_id) v =
        with_stun sha256 s v _ (register-IsOnce s.pending_stun txn_id v.stun_once)
    Step-IsSound _ _ (Step.offers s nonce) v =
        with_answer sha256 s v _ (register-IsOnce s.pending_answer nonce v.answer_once) v.answers
    Step-IsSound _ _ (Step.gives_up_offer s nonce) v =
        with_answer sha256 s v _ (forget-IsOnce s.pending_answer nonce v.answer_once) v.answers
    Step-IsSound _ _ (Step.greets s session_id) v =
        with_info sha256 s v _ (register-IsOnce s.pending_server_info session_id v.info_once)
          v.infos
    Step-IsSound _ _ (Step.gives_up_hello s session_id) v =
        with_info sha256 s v _ (forget-IsOnce s.pending_server_info session_id v.info_once) v.infos
    Step-IsSound _ _ (Step.punches s session_id) v = record {
      stun_once = v.stun_once;
      answer_once = v.answer_once;
      info_once = v.info_once;
      punch_once = register-IsOnce s.pending_punch session_id v.punch_once;
      answers = v.answers;
      infos = v.infos;
      hashes =
          AllEntries-insert (λ hash id. hash ≡ session_hash sha256 id) s.punch_hashes
            (session_hash sha256 session_id) session_id v.hashes refl;
      adverts = v.adverts;
    }
    Step-IsSound _ _ (Step.activates s session_id remote) v = record {
      stun_once = v.stun_once;
      answer_once = v.answer_once;
      info_once = v.info_once;
      punch_once = v.punch_once;
      answers = v.answers;
      infos = v.infos;
      hashes = v.hashes;
      adverts = v.adverts;
    }

    pub Steps-IsSound :
        (s t : ClientState) → Steps json sha256 s t → IsSound sha256 s → IsSound sha256 t
    Steps-IsSound _ _ (Steps.none_more s) v = v
    Steps-IsSound _ _ (Steps.then_step s t u before last) v =
        Step-IsSound t u last (Steps-IsSound s t before v)

    -- In every state that the client comes to: each map has handed every channel one value at most, and
    -- a channel that was handed one is no longer pending; a call that gives its offer or its hello up
    -- while it is pending finds its channel closed; an answer goes to the call whose nonce it replies to, and a
    -- server's message to the call whose nonce it repeats; a hash names the session that it is the hash
    -- of; and an advert stands under its publisher.
    pub Reachable-IsSound :
        (s : ClientState)
        → Reachable json sha256 s
        → IsSound sha256 s
          × ((nonce : Text) (channel : ℕ)
              → get s.pending_answer.pending nonce ≡ some channel
              → poll (forget_offer s nonce).pending_answer channel ≡ Poll.closed)
          × ((session_id : Text) (channel : ℕ)
              → get s.pending_server_info.pending session_id ≡ some channel
              → poll (forget_hello s session_id).pending_server_info channel ≡ Poll.closed)
    Reachable-IsSound s r =
        let sound = Steps-IsSound new_client s r fresh-IsSound in
        (
          sound,
          λ nonce channel pending.
              poll-forget s.pending_answer nonce channel sound.answer_once pending,
          λ session_id channel pending.
              poll-forget s.pending_server_info session_id channel sound.info_once pending,
        )
