-- ===== src/Shell.antt =====
-- Shell sessions of rust/fips-nostr-rendezvous/src/bin/fips-console-server.rs: `handle_shell_command`,
-- `handle_shell_interrupt`, and the end of a task that `handle_shell_command` spawned. One session at a
-- time: its state is behind one lock, and a task finds it again under the same id.
pub mod Steps
pub mod Tasks
pub mod Exclusive
use mathlib.Core.List.{Memᴰ}
use fips_nostr_bootstrap.Base.{
  ℕ, ◌+◌, suc, ◌==◌, nat_eq, text_eq, not, ◌||◌, ◌&&◌, if◌then◌else◌, Bool, true, false, Option,
  none, some, List, [], ◌∷◌, ◌++◌, Text, text, map, ◌≡◌,
}
use fips_nostr_bootstrap.StunUrl.{strip_prefix}
use fips_nostr_bootstrap.Traversal.{is_empty}
use fips_nostr_bootstrap.Trim.{trim}

-- A command that runs in its own task, with what the task has captured. `cancelled` is whether its
-- `cancel_rx` has resolved: a signal was sent, or the sender was dropped.
pub record Task : Type 0 where
  pub index : ℕ
  pub command_id : Option Text
  pub command : Text
  pub cwd : Text
  pub cancelled : Bool

-- `running` holds the sender of the task with that index. `tasks` are the spawned tasks that have not
-- ended, and `next` is the index of the next one.
pub record SessionState : Type 0 where
  pub cwd : Text
  pub running : Option ℕ
  pub tasks : List Task
  pub next : ℕ

-- The payload of a `shell_result`, but for its time.
pub record ShellResult : Type 0 where
  pub id : Option Text
  pub command : Text
  pub ok : Bool
  pub code : ℕ
  pub stdout : Text
  pub stderr : Text
  pub cwd : Text

-- What the system says: the directories, and the variable HOME.
pub record System : Type 0 where
  pub is_dir : Text → Bool
  pub home : Option Text

abbrev pub result : Option Text → Text → ℕ → Text → Text → Text → ShellResult
result id command code stdout stderr cwd = record {
  id = id;
  command = command;
  ok = code == 0;
  code = code;
  stdout = stdout;
  stderr = stderr;
  cwd = cwd;
}

-- `PathBuf::join` on Unix, for a relative path.
unfoldable pub ends_with_slash : Text → Bool
ends_with_slash [] = true
ends_with_slash (c ∷ []) = c == b'/'
ends_with_slash (c ∷ d ∷ s) = ends_with_slash (d ∷ s)

unfoldable pub join : Text → Text → Text
unfolding ends_with_slash
join base path = if ends_with_slash base then base ++ path else base ++ (b'/' ∷ path)

abbrev is_absolute : Text → Bool
is_absolute [] = false
is_absolute (c ∷ s) = c == b'/'

abbrev pub resolve : Text → Text → Text
resolve cwd target = if is_absolute target then target else join cwd target

abbrev pub change_directory :
    System → SessionState → Option Text → Text → Text → SessionState × Option ShellResult
change_directory sys s id command target =
    if sys.is_dir (resolve s.cwd target)
    then (
      record s { cwd = resolve s.cwd target },
      some (result id command 0 [] [] (resolve s.cwd target)),
    )
    else (s, some (result id command 1 [] (text "cd: no such directory: " ++ target) s.cwd))

-- A task is spawned, and answers when it ends.
abbrev pub spawn : SessionState → Option Text → Text → SessionState
spawn s id command = record {
  cwd = s.cwd;
  running = some s.next;
  tasks =
      record { index = s.next; command_id = id; command = command; cwd = s.cwd; cancelled = false }
      ∷ s.tasks;
  next = suc s.next;
}

abbrev pub run_command :
    SessionState → Option ℕ → Option Text → Text → SessionState × Option ShellResult
run_command s (some running) id command = (
  s,
  some (result id command 1 [] (text "another command is still running; press Ctrl-C first") s.cwd),
)
run_command s none id command = (spawn s id command, none)

abbrev home_or : System → Text → Text
home_or sys cwd = elim sys.home [ some home ↦ home | none ↦ cwd ]

abbrev pub cd_or_run :
    System → SessionState → Option Text → Text → Option Text → SessionState × Option ShellResult
cd_or_run sys s id command (some rest) = change_directory sys s id command (trim rest)
cd_or_run sys s id command none = run_command s s.running id command

-- The state after the call, and the result that it sends at once.
unfoldable pub handle_shell_command :
    System → SessionState → Option Text → Text → SessionState × Option ShellResult
handle_shell_command sys s id command =
    if is_empty command
    then (s, some (result id command 0 [] [] s.cwd))
    else if command == text "cd"
    then change_directory sys s id command (home_or sys s.cwd)
    else cd_or_run sys s id command (strip_prefix (text "cd ") command)

abbrev pub cancel : Option ℕ → Task → Task
cancel none t = t
cancel (some running) t = if t.index == running then record t { cancelled = true } else t

-- The sender that `running` holds is taken: whether it is sent or dropped, its receiver resolves.
abbrev pub release : SessionState → SessionState
release s = record s { running = none; tasks = map (cancel s.running) s.tasks }

unfoldable pub handle_shell_interrupt : SessionState → Text → SessionState × ShellResult
handle_shell_interrupt s interrupt_id =
    (release s, result (some interrupt_id) (text "^C") 130 [] (text "Interrupted (SIGINT)") s.cwd)

-- How a task ends: the shell does not start, it exits, or it is killed since `cancel_rx` resolved.
pub data Outcome : Type 0 where
  not_spawned exited killed : Outcome

abbrev or_interrupted : Text → Text
or_interrupted [] = text "Interrupted (SIGINT)"
or_interrupted (c ∷ stderr) = c ∷ stderr

abbrev outcome_result : Task → Outcome → Text → Text → ShellResult
outcome_result t not_spawned stdout stderr = result t.command_id t.command 1 [] stderr t.cwd
outcome_result t exited stdout stderr = result t.command_id t.command 0 stdout stderr t.cwd
outcome_result t killed stdout stderr =
    result t.command_id t.command 130 stdout (or_interrupted stderr) t.cwd

abbrev pub without : ℕ → List Task → List Task
without index [] = []
without index (t ∷ tasks) =
    if t.index == index then without index tasks else t ∷ without index tasks

-- The end of a task: `running` is emptied, whosever sender it holds.
unfoldable pub end_task : SessionState → Task → Outcome → Text → Text → SessionState × ShellResult
end_task s t outcome stdout stderr =
    (release (record s { tasks = without t.index s.tasks }), outcome_result t outcome stdout stderr)
