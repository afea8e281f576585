-- ===== src/PunchWindow.antt =====
-- `negotiate_punch_window` and `build_punch_attempt_schedule` of
-- rust/fips-nostr-rendezvous/src/lib.rs. u64 additions wrap, as in a release build.
pub mod Bounds
use fips_nostr_bootstrap.Base.{
  ℕ, zero, suc, ◌+◌, max, ltb, Bool, true, false, ◌&&◌, ◌||◌, List, [], ◌∷◌, ◌++◌, length, add64,
  Run, done, stuck,
}
use fips_nostr_bootstrap.Traversal.{is_empty}

pub record PunchWindow : Type 0 where
  pub start_at_ms : ℕ
  pub interval_ms : ℕ
  pub duration_ms : ℕ

unfoldable pub negotiate_punch_window : ℕ → ℕ → ℕ → ℕ → ℕ → ℕ → ℕ → PunchWindow
negotiate_punch_window now_ms local_lead_ms remote_lead_ms local_interval_ms remote_interval_ms
      local_duration_ms remote_duration_ms =
    record {
      start_at_ms = add64 now_ms (max local_lead_ms remote_lead_ms);
      interval_ms = max (max local_interval_ms remote_interval_ms) 20;
      duration_ms = max (max local_duration_ms remote_duration_ms) 1;
    }

module _ (max_attempts interval_ms cutoff : ℕ) where
  -- The `while` loop on fuel.
  attempts_loop : ℕ → List ℕ → ℕ → Run (List ℕ)
  attempts_loop zero attempts at = stuck
  attempts_loop (suc fuel) attempts at =
      elim (ltb (length attempts) max_attempts && (is_empty attempts || ltb at cutoff)) [
        | true ↦ attempts_loop fuel (attempts ++ (at ∷ [])) (add64 at interval_ms)
        | false ↦ done attempts
      ]

-- Each round pushes an attempt, so that one round more than `max_attempts` ends the loop.
unfoldable pub build_punch_attempt_schedule : PunchWindow → ℕ → Run (List ℕ)
unfolding attempts_loop
build_punch_attempt_schedule window max_attempts =
    let most = max max_attempts 1 in
    let interval = max window.interval_ms 1 in
    let cutoff = add64 window.start_at_ms (max window.duration_ms 1) in
    attempts_loop most interval cutoff (suc most) [] window.start_at_ms
