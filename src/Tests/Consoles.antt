-- ===== src/Tests/Consoles.antt =====
-- The console client at concrete inputs.
use fips_nostr_bootstrap.Base.{
  ℕ, zero, suc, true, ◌≡◌, refl, text_eq, some, List, [], ◌∷◌, Text, text, ℕ_discrete,
  Text-discrete, Texts-discrete, push_unique,
}
use fips_nostr_bootstrap.Schema.{TraversalAddress-discrete, LegacyEndpoint-discrete, err}
use fips_nostr_bootstrap.Trim.{trim, trim_start, trim_end, strip_all, strip_one}
use fips_nostr_bootstrap.StunUrl.{strip_prefix}
use fips_nostr_bootstrap.Traversal.{
  create_traversal_offer, create_traversal_answer, validate_traversal_answer_for_offer,
  check_content,
}
use fips_nostr_bootstrap.Planner.{plan_punch_targets, same_subnet_24, PlannedPunchTarget-discrete}
use fips_nostr_bootstrap.Planner.Endpoints.{
  client_planned_remote_endpoints, endpoint_from_traversal_address,
  select_remote_endpoint_from_answer,
}
use fips_nostr_bootstrap.Client.{new_client}
use fips_nostr_bootstrap.Client.Calls.{start_punch_plan_and_wait}
use fips_nostr_bootstrap.Client.Attempts.{await_answer, finish_offer}
use fips_nostr_bootstrap.Client.Connect.{Connecting, api_connect, send_offer}
use fips_nostr_bootstrap.Console.{
  Delivery, ConsoleEffect, run_console_runtime, establish_cli, connect_cli,
}
use fips_nostr_bootstrap.Console.Agrees.{with_session, api_connect-connect_cli}
use fips_nostr_bootstrap.Console.Delivers.{Delivers, texts_of, run_console_runtime-Delivers}
use fips_nostr_bootstrap.Tests.Wire.{flat_digest}
use fips_nostr_bootstrap.Tests.Clients.{connecting, events}

abbrev handing : Connecting
handing = record connecting { handoff_fips = true }

api_connect-connect_cli_example :
    api_connect flat_digest handing events new_client (some (text "npub1server"))
    ≡ with_session (establish_cli flat_digest handing events new_client (some (text "npub1server")))
api_connect-connect_cli_example =
    api_connect-connect_cli flat_digest handing events refl new_client (some (text "npub1server"))

-- The second datagram is refused.
abbrev responses : ℕ → Delivery
responses zero = Delivery.delivered
responses (suc n) = Delivery.refused

abbrev lines : List Text
lines = text "ls  " ∷ text "   " ∷ text "pwd" ∷ text "exit" ∷ []

run_console_runtime-Delivers_example :
    Delivers
      (text "npub1server")
      responses
      0
      (texts_of lines)
      (run_console_runtime (text "npub1server") responses 0 lines)
run_console_runtime-Delivers_example =
    run_console_runtime-Delivers (text "npub1server") responses lines

refused_second : run_console_runtime (text "npub1server") responses 0 lines ≡ record {
  effects =
      ConsoleEffect.send_datagram (text "npub1server") (text "ls")
      ∷ ConsoleEffect.shown (text "ls")
      ∷ ConsoleEffect.send_datagram (text "npub1server") (text "pwd")
      ∷ [];
  result = err Delivery.refused;
}
unfolding run_console_runtime text trim_end strip_all strip_one strip_prefix ℕ_discrete
refused_second = refl

cli_runs :
    (connect_cli flat_digest handing events new_client
      (some (text "npub1server"))
      responses
      lines).1
    ≡ some (run_console_runtime (text "npub1server") responses 0 lines)
unfolding connect_cli establish_cli text trim trim_start trim_end strip_all strip_one strip_prefix
    ℕ_discrete Text-discrete send_offer await_answer finish_offer create_traversal_offer
    create_traversal_answer validate_traversal_answer_for_offer check_content
    start_punch_plan_and_wait client_planned_remote_endpoints plan_punch_targets same_subnet_24
    push_unique endpoint_from_traversal_address select_remote_endpoint_from_answer Texts-discrete
    PlannedPunchTarget-discrete TraversalAddress-discrete LegacyEndpoint-discrete
cli_runs = refl
