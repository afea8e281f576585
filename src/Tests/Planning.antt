-- ===== src/Tests/Planning.antt =====
-- Punch plans and schedules at concrete inputs.
use fips_nostr_bootstrap.Base.{
  ◌↔◌, false, ℕ, ◌+◌, ◌≡◌, ◌≤◌, refl, true, some, List, [], ◌∷◌, text, arith, contains, done,
  ℕ_discrete, Text-discrete, Texts-discrete, push_unique, map,
}
use fips_nostr_bootstrap.Schema.{legacy_endpoint_eq, traversal_address_eq}
use fips_nostr_bootstrap.Planner.{
  PunchStrategy, PlannedPunchTarget, PlannedPunchTarget-discrete, planned_punch_target_eq,
  same_subnet_24, lan_target, plan_punch_targets,
}
use fips_nostr_bootstrap.Planner.Subnet.{OnOne24, plan_punch_targets-IsWanted}
use fips_nostr_bootstrap.Planner.Order.{Preferred, plan_punch_targets-Preferred}
use fips_nostr_bootstrap.PunchWindow.{
  PunchWindow, negotiate_punch_window, build_punch_attempt_schedule,
}
use fips_nostr_bootstrap.PunchWindow.Bounds.{
  IsSchedule, build_punch_attempt_schedule-IsSchedule, negotiate_punch_window_bounds,
}
use fips_nostr_bootstrap.Tests.Signals.{lan_client, lan_server, wan_client, wan_server}

same_lan : same_subnet_24 lan_client lan_server ≡ true
unfolding same_subnet_24 text ℕ_discrete Text-discrete Texts-discrete
same_lan = refl

abbrev strategies : List PlannedPunchTarget → List PunchStrategy
strategies = map λ t. t.strategy

plan_runs :
    strategies
      (plan_punch_targets (lan_client ∷ []) (some wan_client) (lan_server ∷ []) (some wan_server))
    ≡ PunchStrategy.lan ∷ PunchStrategy.reflexive ∷ PunchStrategy.mixed ∷ PunchStrategy.mixed
      ∷ PunchStrategy.local ∷ []
unfolding plan_punch_targets same_subnet_24 text ℕ_discrete Text-discrete Texts-discrete
    PlannedPunchTarget-discrete push_unique
plan_runs = refl

plan_punch_targets-IsWanted_example :
    (contains
        (plan_punch_targets (lan_client ∷ []) (some wan_client) (lan_server ∷ []) (some wan_server))
        (lan_target lan_client lan_server)
      ≡ true)
    ↔ ((contains (lan_client ∷ []) lan_client ≡ true)
        × (contains (lan_server ∷ []) lan_server ≡ true)
        × OnOne24 lan_client.ip lan_server.ip)
plan_punch_targets-IsWanted_example =
    plan_punch_targets-IsWanted (lan_client ∷ []) (some wan_client) (lan_server ∷ [])
      (some wan_server) (lan_target lan_client lan_server)

-- Two shared parts are not enough.
other_lan : same_subnet_24 lan_client (record lan_server { ip = text "192.168.2.20" }) ≡ false
unfolding same_subnet_24 text ℕ_discrete Text-discrete Texts-discrete
other_lan = refl

plan_punch_targets-Preferred_example :
    Preferred
      (plan_punch_targets (lan_client ∷ []) (some wan_client) (lan_server ∷ []) (some wan_server))
plan_punch_targets-Preferred_example =
    plan_punch_targets-Preferred (lan_client ∷ []) (some wan_client) (lan_server ∷ [])
      (some wan_server)

abbrev window : PunchWindow
window = record { start_at_ms = 1_700_000_002_000; interval_ms = 300; duration_ms = 30_000 }

schedule_runs :
    build_punch_attempt_schedule window 4
    ≡ done (1_700_000_002_000 ∷ 1_700_000_002_300 ∷ 1_700_000_002_600 ∷ 1_700_000_002_900 ∷ [])
unfolding build_punch_attempt_schedule
schedule_runs = refl

build_punch_attempt_schedule-IsSchedule_example :
    (attempts : List ℕ) × (build_punch_attempt_schedule window 4 ≡ done attempts)
    × IsSchedule window 4 attempts
build_punch_attempt_schedule-IsSchedule_example =
    build_punch_attempt_schedule-IsSchedule window 4 (omega arith)

negotiate_punch_window_bounds_example :
    let w = negotiate_punch_window 1_700_000_000_000 1_000 2_000 150 300 10_000 30_000 in
    (1_700_000_000_000 + 1_000 ≤ w.start_at_ms)
    × (1_700_000_000_000 + 2_000 ≤ w.start_at_ms)
    × (150 ≤ w.interval_ms)
    × (300 ≤ w.interval_ms)
    × (20 ≤ w.interval_ms)
    × (10_000 ≤ w.duration_ms)
    × (30_000 ≤ w.duration_ms)
    × (1 ≤ w.duration_ms)
    × ((t : ℕ) → 1_700_000_000_000 + 1_000 ≤ t → 1_700_000_000_000 + 2_000 ≤ t → w.start_at_ms ≤ t)
    × ((t : ℕ) → 150 ≤ t → 300 ≤ t → 20 ≤ t → w.interval_ms ≤ t)
    × ((t : ℕ) → 10_000 ≤ t → 30_000 ≤ t → 1 ≤ t → w.duration_ms ≤ t)
    × (negotiate_punch_window 1_700_000_000_000 2_000 1_000 300 150 30_000 10_000 ≡ w)
negotiate_punch_window_bounds_example =
    negotiate_punch_window_bounds 1_700_000_000_000 1_000 2_000 150 300 10_000 30_000 (omega arith)
