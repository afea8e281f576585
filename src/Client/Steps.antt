-- ===== src/Client/Steps.antt =====
-- What can happen to the client's state, in any order: the two tasks and the calls of the handlers take
-- their locks one at a time, so that what each does to one map is a step.
use fips_nostr_bootstrap.Base.{ℕ, ◌≡◌, Option, List, Text, done}
use fips_nostr_bootstrap.Schema.{
  TraversalAdvert, TraversalAnswer, LegacyEndpoint, LegacyServerInfoMessage,
}
use fips_nostr_bootstrap.PunchPacket.{Digest}
use fips_nostr_bootstrap.SessionFrames.{FrameJson}
use fips_nostr_bootstrap.Observation.{Observed}
use fips_nostr_bootstrap.Client.{
  ClientState, ClientEffect, new_client, handle_datagram, handle_message_in, handle_advert,
}
use fips_nostr_bootstrap.Client.Calls.{
  register_probe, register_offer, forget_offer, register_hello, forget_hello, register_punch,
  set_active_session,
}

module _ {Value : Type 0} (json : FrameJson Value) (sha256 : Digest) where
  pub data Step : ClientState → ClientState → Type 0 where
    received :
        (s t : ClientState) (remote : LegacyEndpoint) (packet : List ℕ)
        (effects : List (ClientEffect Value))
        → handle_datagram json sha256 s remote packet ≡ done (t, effects)
        → Step s t
    told :
        (s : ClientState) (answer : Option TraversalAnswer) (info : Option LegacyServerInfoMessage)
        → Step s (handle_message_in s answer info)
    advertised :
        (s : ClientState) (now : ℕ) (advert : Option TraversalAdvert)
        → Step s (handle_advert now s advert)
    observed : (s : ClientState) (observed : Observed) → Step s (record s { observed = observed })
    probes : (s : ClientState) (txn_id : Text) → Step s (register_probe s txn_id)
    offers : (s : ClientState) (nonce : Text) → Step s (register_offer s nonce)
    gives_up_offer : (s : ClientState) (nonce : Text) → Step s (forget_offer s nonce)
    greets : (s : ClientState) (session_id : Text) → Step s (register_hello s session_id)
    gives_up_hello : (s : ClientState) (session_id : Text) → Step s (forget_hello s session_id)
    punches : (s : ClientState) (session_id : Text) → Step s (register_punch sha256 s session_id)
    activates :
        (s : ClientState) (session_id : Text) (remote : LegacyEndpoint)
        → Step s (set_active_session s session_id remote)

  -- Any number of steps.
  pub data Steps : ClientState → ClientState → Type 0 where
    none_more : (s : ClientState) → Steps s s
    then_step : (s t u : ClientState) → Steps s t → Step t u → Steps s u

  abbrev pub Reachable : ClientState → Type 0
  Reachable s = Steps new_client s
