-- ===== src/Shell/Steps.antt =====
-- What can happen to a session, in any order: commands, interrupts, and tasks that end.
use mathlib.Core.List.{Memᴰ}
use fips_nostr_bootstrap.Base.{◌≡◌, true, Option, none, [], Text}
use fips_nostr_bootstrap.Shell.{
  SessionState, System, Task, Outcome, killed, handle_shell_command, handle_shell_interrupt,
  end_task,
}

-- A task is killed only if its `cancel_rx` has resolved.
pub data Step (sys : System) : SessionState → SessionState → Type 0 where
  commanded :
      (s : SessionState) (id : Option Text) (command : Text)
      → Step sys s (handle_shell_command sys s id command).0
  interrupted : (s : SessionState) (id : Text) → Step sys s (handle_shell_interrupt s id).0
  ended :
      (s : SessionState) (t : Task) (outcome : Outcome) (stdout stderr : Text)
      → Memᴰ t s.tasks
      → (outcome ≡ killed → t.cancelled ≡ true)
      → Step sys s (end_task s t outcome stdout stderr).0

-- A session as `ensure_session` makes it.
abbrev pub new_session : Text → SessionState
new_session cwd = record { cwd = cwd; running = none; tasks = []; next = 0 }

pub data Reachable (sys : System) : SessionState → Type 0 where
  start : (cwd : Text) → Reachable sys (new_session cwd)
  step : (s t : SessionState) → Reachable sys s → Step sys s t → Reachable sys t
