-- ===== src/Tests/Routes.antt =====
-- Relays and own addresses at concrete inputs.
use fips_nostr_bootstrap.Base.{
  ◌≡◌, ◌⊎◌, refl, false, none, some, List, [], ◌∷◌, ◌++◌, Text, text, text_eq, ℕ_discrete,
  Text-discrete, push_all, push_unique, Distinct, ◌==◌, if◌then◌else◌,
}
use fips_nostr_bootstrap.Planner.{split}
use fips_nostr_bootstrap.Adverts.{filter}
use fips_nostr_bootstrap.StunUrl.{strip_prefix}
use fips_nostr_bootstrap.Trim.{trim, trim_start, trim_end, strip_all, strip_one}
use fips_nostr_bootstrap.Schema.{LegacyEndpoint}
use fips_nostr_bootstrap.Relays.{
  InboxEvent, parse_csv_env_list, find_recipient_inbox_relays, preferred_dm_relays,
}
use fips_nostr_bootstrap.Relays.Preference.{IsInbox, named_by, firsts, preferred_dm_relays-Distinct}
use fips_nostr_bootstrap.Observation.{
  Local, Observed, Probing, probe_all, refresh_traversal_observation, local_client_endpoint,
}
use fips_nostr_bootstrap.Observation.Refresh.{
  IsIdle, Keeps, Probes, refresh_traversal_observation-Probes,
}

abbrev relay_a : Text
relay_a = text "wss://a"

abbrev relay_b : Text
relay_b = text "wss://b"

abbrev relay_c : Text
relay_c = text "wss://c"

abbrev defaults : List Text
defaults = relay_c ∷ relay_a ∷ []

abbrev inbox : List InboxEvent
inbox =
    record { created_at = 5; relay_list = relay_c ∷ [] }
    ∷ record { created_at = 9; relay_list = relay_b ∷ relay_b ∷ relay_a ∷ [] }
    ∷ []

inbox_relays_first :
    preferred_dm_relays defaults (some inbox) none ≡ relay_b ∷ relay_a ∷ relay_c ∷ []
unfolding preferred_dm_relays find_recipient_inbox_relays push_all push_unique text ℕ_discrete
    Text-discrete
inbox_relays_first = refl

preferred_dm_relays-Distinct_example :
    (chosen : List Text) × IsInbox defaults (some inbox) chosen
    × (preferred_dm_relays defaults (some inbox) none
        ≡ firsts (chosen ++ (named_by none ++ defaults)))
    × Distinct (preferred_dm_relays defaults (some inbox) none)
preferred_dm_relays-Distinct_example = preferred_dm_relays-Distinct defaults (some inbox) none

abbrev env : Local
env = record {
  stun_servers = relay_a ∷ relay_b ∷ [];
  stun_refresh_ms = 60000;
  public_host = none;
  local_port = 4000;
  ipv4_hint = some (text "10.0.0.5");
}

abbrev seen : LegacyEndpoint
seen = record { host = text "203.0.113.9"; port = 61000 }

-- Only the second server answers.
abbrev probing : Probing
probing = record {
  started_at = 1000;
  ended_at = 1500;
  probe_stun_server = λ server. if server == relay_b then some seen else none;
}

abbrev nothing : Observed
nothing = record { stun_observation = none; stun_observed_at = none }

second_answers : (local_client_endpoint env probing nothing).1 ≡ seen
unfolding local_client_endpoint refresh_traversal_observation probe_all text Text-discrete
second_answers = refl

refresh_traversal_observation-Probes_example :
    (IsIdle env probing false nothing
      × Keeps nothing (refresh_traversal_observation env probing false nothing))
    ⊎ ((IsIdle env probing false nothing → ⊥)
        × Probes env probing (refresh_traversal_observation env probing false nothing))
refresh_traversal_observation-Probes_example =
    refresh_traversal_observation-Probes env probing false nothing

relays_of_environment :
    parse_csv_env_list (some (text " wss://a,, wss://b ,")) ≡ some (relay_a ∷ relay_b ∷ [])
unfolding parse_csv_env_list split filter trim trim_start trim_end strip_all strip_one strip_prefix
    text ℕ_discrete
relays_of_environment = refl
