-- ===== src/Tests/Bootstraps.antt =====
-- The bootstrap client at concrete inputs.
use fips_nostr_bootstrap.Base.{
  ◌≡◌, ◌↔◌, inr, refl, true, false, none, some, List, [], ◌∷◌, ◌||◌, Text, text, text_eq,
  ℕ_discrete, Text-discrete, arith,
}
use fips_nostr_bootstrap.Schema.{LegacyServerInfoMessage, ok, err}
use fips_nostr_bootstrap.Server.{Effect, handle_message, informed}
use fips_nostr_bootstrap.Bootstrap.{
  ServerInfoMessage, Invalid, Frame, pos, hello_of, validate, validate_for, wait_for_server_info,
  server_info_type, version_1_0, skipped, delivered, verdict, received,
}
use fips_nostr_bootstrap.Bootstrap.Waiting.{FirstValid, wait_for_server_info-FirstValid}
use fips_nostr_bootstrap.Bootstrap.Replies.{Serves, read_hello, handle_message-validate_for}
use fips_nostr_bootstrap.Tests.Rendezvous.{client, serving, moment}

abbrev pub session : Text
session = text "combo-1"

abbrev pub token : Text
token = text "n-1"

abbrev pub info : ServerInfoMessage
info = record {
  msg_type = server_info_type;
  version = version_1_0;
  session_id = session;
  nonce = token;
  issued_at = pos 1_700_000_000_500;
  endpoint = record { host = text "198.51.100.20"; port = 63000 };
  punch = none;
  stun = none;
}

abbrev pub frames : List Frame
frames =
    skipped
    ∷ verdict (text "e1") true
    ∷ delivered none
    ∷ delivered (some (record info { nonce = text "n-0" }))
    ∷ delivered (some info)
    ∷ []

old_version :
    validate_for (record info { version = text "0.9" }) session token
    ≡ err Invalid.unsupported_version
unfolding validate_for text ℕ_discrete Text-discrete
old_version = refl

first_valid_taken : wait_for_server_info (text "e1") session token frames ≡ received info
unfolding wait_for_server_info validate_for text ℕ_discrete Text-discrete
first_valid_taken = refl

wait_for_server_info-FirstValid_example :
    (wait_for_server_info (text "e1") session token frames ≡ received info)
    ↔ FirstValid (text "e1") session token frames info
wait_for_server_info-FirstValid_example =
    wait_for_server_info-FirstValid (text "e1") session token frames info

hello_valid :
    validate (hello_of session token (pos 1_700_000_000_000) true true false 40000) ≡ ok tt
unfolding validate hello_of text ℕ_discrete Text-discrete
hello_valid = refl

handle_message-validate_for_example :
    (reply : LegacyServerInfoMessage) × (rest : List Effect) × ((handle_message serving moment []
        client none
        (read_hello (hello_of session token (pos 1_700_000_000_000) true true false 40000))).effects
      ≡ informed reply ∷ rest)
    × Serves session token (true || false) reply
unfolding text Text-discrete ℕ_discrete
handle_message-validate_for_example =
    handle_message-validate_for serving moment [] session token 1_700_000_000_000 true true false
      40000 client hello_valid (inr refl) refl (omega arith)
