-- ===== src/Schema.antt =====
-- rust/fips-nostr-rendezvous/src/lib.rs: the messages and their constants. Integers are ℕ; a
-- theorem that needs the bound of a width has it as a hypothesis.
use fips_nostr_bootstrap.Base.{
  ℕ, Bool, List, [], ◌∷◌, Option, Text, text, Text-discrete, ℕ_discrete, Eq,
}

abbrev pub advert_kind : ℕ
advert_kind = 30078

abbrev pub traversal_signal_kind : ℕ
traversal_signal_kind = 21059

abbrev pub punch_magic : ℕ
punch_magic = 0x4E505443

abbrev pub punch_ack_magic : ℕ
punch_ack_magic = 0x4E505441

abbrev pub traversal_signal_app : Text
traversal_signal_app = text "fips.nat.traversal.v1"

abbrev pub default_advert_relays : List Text
default_advert_relays = text "wss://offchain.pub" ∷ text "wss://strfry.bitsbytom.com" ∷ []

abbrev pub default_dm_relays : List Text
default_dm_relays = text "wss://nip17.com" ∷ text "wss://offchain.pub" ∷ []

abbrev pub default_stun_servers : List Text
default_stun_servers = text "stun:fips.tomdwyer.uk:3478" ∷ text "stun:stun.l.google.com:19302" ∷ []

pub record TraversalAddress : Type 0 where
  pub protocol : Text
  pub ip : Text
  pub port : ℕ

unfoldable pub TraversalAddress-discrete : Discrete TraversalAddress
unfolding ℕ_discrete Text-discrete
TraversalAddress-discrete = hlevel (ℕ_discrete, Text-discrete)

instance abbrev pub traversal_address_eq : Eq TraversalAddress
traversal_address_eq = record { discrete = TraversalAddress-discrete }

pub record PunchHint : Type 0 where
  pub start_at_ms : ℕ
  pub interval_ms : ℕ
  pub duration_ms : ℕ

pub record EndpointHint : Type 0 where
  pub host : Text
  pub port : ℕ

pub record TraversalAdvert : Type 0 where
  pub app : Text
  pub event_kind : ℕ
  pub protocol : Text
  pub publisher_npub : Text
  pub published_at : ℕ
  pub expires_at : ℕ
  pub sequence : ℕ
  pub relays : List Text
  pub stun_servers : List Text
  pub transports : List Text
  pub endpoint_hint : Option EndpointHint

pub record TraversalOffer : Type 0 where
  pub app : Text
  pub event_kind : ℕ
  pub message_type : Text
  pub session_id : Text
  pub issued_at : ℕ
  pub expires_at : ℕ
  pub nonce : Text
  pub sender_npub : Text
  pub recipient_npub : Text
  pub reflexive_address : Option TraversalAddress
  pub local_addresses : List TraversalAddress

pub record TraversalAnswer : Type 0 where
  pub app : Text
  pub event_kind : ℕ
  pub message_type : Text
  pub session_id : Text
  pub issued_at : ℕ
  pub expires_at : ℕ
  pub nonce : Text
  pub sender_npub : Text
  pub recipient_npub : Text
  pub in_reply_to : Text
  pub accepted : Bool
  pub reflexive_address : Option TraversalAddress
  pub local_addresses : List TraversalAddress
  pub punch : Option PunchHint
  pub reason : Option Text

pub record LegacyWants : Type 0 where
  pub stun_info : Bool
  pub fips_connect : Bool

pub record LegacyEndpoint : Type 0 where
  pub host : Text
  pub port : ℕ

unfoldable pub LegacyEndpoint-discrete : Discrete LegacyEndpoint
unfolding ℕ_discrete Text-discrete
LegacyEndpoint-discrete = hlevel (ℕ_discrete, Text-discrete)

instance abbrev pub legacy_endpoint_eq : Eq LegacyEndpoint
legacy_endpoint_eq = record { discrete = LegacyEndpoint-discrete }

pub record LegacyPunch : Type 0 where
  pub start_at_ms : ℕ
  pub interval_ms : ℕ
  pub duration_ms : ℕ

pub record LegacyStunInfo : Type 0 where
  pub uri : Text
  pub metadata_tag : Option Text

pub record LegacyHelloMessage : Type 0 where
  pub message_type : Text
  pub version : Text
  pub session_id : Text
  pub nonce : Text
  pub issued_at : ℕ
  pub wants : LegacyWants
  pub client_endpoint : Option LegacyEndpoint

pub record LegacyServerInfoMessage : Type 0 where
  pub message_type : Text
  pub version : Text
  pub session_id : Text
  pub nonce : Text
  pub issued_at : ℕ
  pub endpoint : LegacyEndpoint
  pub punch : Option LegacyPunch
  pub stun : Option LegacyStunInfo

-- `Value` is the JSON value of serde_json, a parameter of what uses it.
pub record SessionFrame (Value : Type 0) : Type 0 where
  pub session_id : Text
  pub frame_type : Text
  pub channel : Option Text
  pub payload : Value
  pub at : ℕ

pub record StunEndpoint : Type 0 where
  pub host : Text
  pub port : ℕ

pub data RendezvousError : Type 0 where
  invalid_stun_url : Text → RendezvousError
  invalid_punch_packet_length invalid_punch_packet_magic : RendezvousError

pub data Result {ℓ κ} (A : Type ℓ) (E : Type κ) : Type (ℓ ⊔ κ) where
  ok : A → Result A E
  err : E → Result A E
