-- ===== src/Bootstrap/Replies.antt =====
-- The bootstrap client and the console server: a hello of the one, answered by the other. Their
-- messages meet as JSON: the keys are the same, and a number must fit the type that reads it.
use fips_nostr_bootstrap.Base.{
  ℕ, ◌+◌, ◌^◌, ◌<◌, ◌≡◌, ◌≢◌, ◌⊎◌, inl, inr, refl, leb, ◌==◌, text_eq, ==_refl, not, ◌||◌, ◌&&◌,
  if◌then◌else◌, Bool, true, false, Bool-cases, Option, none, some, List, [], ◌∷◌, Text, text,
  contains, arith,
}
use fips_nostr_bootstrap.Base.HashMap.{HashMap, insert}
use fips_nostr_bootstrap.Schema.{
  LegacyEndpoint, LegacyPunch, LegacyHelloMessage, LegacyServerInfoMessage, ok,
}
use fips_nostr_bootstrap.Traversal.{is_empty}
use fips_nostr_bootstrap.Server.{
  Serving, Moment, Effect, legacy_punch, then_some, start_punch, connect, info_for, handle_hello,
  handle_message, informed, punches,
}
use fips_nostr_bootstrap.Server.Offers.{heard_if}
use fips_nostr_bootstrap.Bootstrap.{
  pos, negsuc, Punch, HelloMessage, ServerInfoMessage, validate, validate_for, hello_of, hello_type,
  server_info_type, version_1_0,
}

-- A hello as the server reads it: its `issued_at` is a u64.
abbrev pub read_hello : HelloMessage → Option LegacyHelloMessage
read_hello hello = elim hello.issued_at [
  | negsuc n ↦ none
  | pos n ↦ some (record {
    message_type = hello.msg_type;
    version = hello.version;
    session_id = hello.session_id;
    nonce = hello.nonce;
    issued_at = n;
    wants = hello.wants;
    client_endpoint = some hello.client_endpoint;
  })
]

abbrev i64_max : ℕ
i64_max = 9223372036854775807

abbrev punch_fits : Option LegacyPunch → Bool
punch_fits none = true
punch_fits (some punch) = leb punch.start_at_ms i64_max

abbrev read_punch : Option LegacyPunch → Option Punch
read_punch none = none
read_punch (some punch) = some (record {
  start_at_ms = pos punch.start_at_ms;
  interval_ms = punch.interval_ms;
  duration_ms = punch.duration_ms;
})

-- A server's message as the client reads it: its times are i64.
abbrev pub read_info : LegacyServerInfoMessage → Option ServerInfoMessage
read_info info =
    if leb info.issued_at i64_max && punch_fits info.punch
    then some (record {
      msg_type = info.message_type;
      version = info.version;
      session_id = info.session_id;
      nonce = info.nonce;
      issued_at = pos info.issued_at;
      endpoint = info.endpoint;
      punch = read_punch info.punch;
      stun = info.stun;
    })
    else none

-- A message of the server that is the client's: it is read, passes the client's checks, and has a
-- window to punch in if the client wants to connect.
pub record Serves (session_id nonce : Text) (connects : Bool) (info : LegacyServerInfoMessage)
    : Type 0 where
  pub message : ServerInfoMessage
  pub is_read : read_info info ≡ some message
  pub valid : validate_for message session_id nonce ≡ ok tt
  pub window : connects ≡ true → message.punch ≢ none

start_punch-effects :
    (m : Moment) (handoffs : HashMap Text Text) (e : Effect) (session_id : Text)
    (remote : LegacyEndpoint) (punch : LegacyPunch)
    → (rest : List Effect) × ((start_punch m handoffs (e ∷ []) session_id remote punch).effects
        ≡ e ∷ rest)
unfolding start_punch
start_punch-effects m handoffs e session_id remote punch = elim (Bool-cases (m.is_ip remote.host)) [
  | inl good ↦ simp good (punches session_id (remote ∷ []) punch ∷ [], refl)
  | inr bad ↦ simp bad ([], refl)
]

connect-informed :
    (env : Serving) (m : Moment) (handoffs : HashMap Text Text) (from_npub : Text)
    (hello : LegacyHelloMessage) (wants : Bool) (endpoint : Option LegacyEndpoint)
    → (rest : List Effect) × ((connect env m handoffs from_npub hello wants endpoint).effects
        ≡ informed (info_for env m hello) ∷ rest)
connect-informed env m handoffs from hello true (some e) =
    start_punch-effects m (insert handoffs hello.nonce from) (informed (info_for env m hello))
      hello.nonce e (legacy_punch env m.now)
connect-informed env m handoffs from hello true none = ([], refl)
connect-informed env m handoffs from hello false e = ([], refl)

handle_hello-informed :
    (env : Serving) (m : Moment) (handoffs : HashMap Text Text) (from_npub : Text)
    (hello : LegacyHelloMessage)
    → m.sends ≡ true
    → (not (hello.message_type == text "fips.rendezvous.hello") || is_empty hello.nonce) ≡ false
    → (rest : List Effect) × ((handle_hello env m handoffs from_npub (some hello)).effects
        ≡ informed (info_for env m hello) ∷ rest)
unfolding handle_hello
handle_hello-informed env m handoffs from hello sent greets =
    simp (greets, sent)
      (connect-informed env m handoffs from hello hello.wants.fips_connect hello.client_endpoint)

punch_fits-then_some :
    (b : Bool) (p : LegacyPunch)
    → leb p.start_at_ms i64_max ≡ true
    → punch_fits (then_some b p) ≡ true
punch_fits-then_some true p h = h
punch_fits-then_some false p h = refl

read_punch-then_some : (b : Bool) (p : LegacyPunch) → b ≡ true → read_punch (then_some b p) ≢ none
read_punch-then_some true p h = λ e. cc
read_punch-then_some false p h = cc

-- What the server answers, the client reads and accepts, while the clock fits an i64.
info_for-Serves :
    (env : Serving) (m : Moment) (hello : LegacyHelloMessage)
    → m.now + env.punch_start_delay_ms < 2 ^ 63
    → Serves hello.session_id hello.nonce hello.wants.fips_connect (info_for env m hello)
unfolding info_for validate_for
info_for-Serves env m hello small =
    let connects = hello.wants.fips_connect in
    let punch : LegacyPunch = legacy_punch env m.now in
    let time : leb m.now i64_max ≡ true = ground arith in
    let fits : punch_fits (then_some connects punch) ≡ true =
      punch_fits-then_some connects punch (ground arith) in
    record {
      message = record {
        msg_type = server_info_type;
        version = version_1_0;
        session_id = hello.session_id;
        nonce = hello.nonce;
        issued_at = pos m.now;
        endpoint = m.endpoint;
        punch = read_punch (then_some connects punch);
        stun = (info_for env m hello).stun;
      };
      is_read = simp (time, fits) refl;
      valid =
          rw
            (
              ==_refl server_info_type,
              ==_refl version_1_0,
              ==_refl hello.session_id,
              ==_refl hello.nonce,
            )
            refl;
      window = read_punch-then_some connects punch;
    }

-- A hello that the client's main makes and finds valid, from a peer that the server trusts, is
-- answered if the reply can be sent and the server's clock fits an i64; and the answer passes the
-- client's checks and has a window to punch in if the client wants to connect.
pub handle_message-validate_for :
    (env : Serving) (m : Moment) (handoffs : HashMap Text Text) (session_id nonce : Text) (now : ℕ)
    (want_stun want_fips connects : Bool) (local_port : ℕ) (from_npub : Text)
    → let hello = hello_of session_id nonce (pos now) want_stun want_fips connects local_port in
      validate hello ≡ ok tt
      → (env.trusted_npubs ≡ []) ⊎ (contains env.trusted_npubs from_npub ≡ true)
      → m.sends ≡ true
      → m.now + env.punch_start_delay_ms < 2 ^ 63
      → (info : LegacyServerInfoMessage) × (rest : List Effect) × ((handle_message env m handoffs
            from_npub none
            (read_hello (
              hello_of session_id nonce (pos now) want_stun want_fips connects local_port))).effects
          ≡ informed info ∷ rest)
        × Serves session_id nonce (want_fips || connects) info
unfolding handle_message hello_of validate
handle_message-validate_for env m handoffs session nonce now stun fips connects port from good
      trusted sent small =
    let hello : LegacyHelloMessage = record {
      message_type = hello_type;
      version = version_1_0;
      session_id = session;
      nonce = nonce;
      issued_at = now;
      wants = record { stun_info = stun; fips_connect = fips || connects };
      client_endpoint = some (record { host = text "0.0.0.0"; port = port });
    } in
    let greets : (not (hello_type == text "fips.rendezvous.hello") || is_empty nonce) ≡ false =
      ground (arith, ==_refl hello_type, ==_refl version_1_0) in
    let (rest, e) = handle_hello-informed env m handoffs from hello sent greets in
    (
      info_for env m hello,
      rest,
      simp (heard_if env.trusted_npubs from trusted) e,
      info_for-Serves env m hello small,
    )
