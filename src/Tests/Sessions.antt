-- ===== src/Tests/Sessions.antt =====
-- Shell sessions at concrete inputs.
use mathlib.Core.List.{Memᴰ}
use fips_nostr_bootstrap.Base.{
  ◌≡◌, refl, true, false, none, some, List, [], ◌∷◌, text, map, text_eq, ◌==◌, ℕ_discrete,
  Text-discrete, Bool,
}
use fips_nostr_bootstrap.StunUrl.{strip_prefix}
use fips_nostr_bootstrap.Trim.{trim, trim_start, trim_end, strip_all, strip_one}
use fips_nostr_bootstrap.Shell.{
  Task, SessionState, System, Outcome, handle_shell_command, handle_shell_interrupt, end_task, join,
  ends_with_slash,
}
use fips_nostr_bootstrap.Shell.Tasks.{AllCancelled}
use fips_nostr_bootstrap.Shell.Steps.{
  Reachable, commanded, interrupted, ended, start, step, new_session,
}
use fips_nostr_bootstrap.Shell.Exclusive.{
  IsExclusive, Reachable-IsExclusive, handle_shell_interrupt-AllCancelled,
}

abbrev system : System
system = record { is_dir = λ path. path == text "/srv/www"; home = some (text "/root") }

abbrev fresh : SessionState
fresh = new_session (text "/srv")

directory_changed :
    (handle_shell_command system fresh none (text "cd  www")).0.cwd ≡ text "/srv/www"
unfolding handle_shell_command strip_prefix trim trim_start trim_end strip_all strip_one join
    ends_with_slash text ℕ_discrete Text-discrete
directory_changed = refl

-- `sleep 9` runs, Ctrl-C, then `ls`.
abbrev sleeping : SessionState
sleeping = (handle_shell_command system fresh (some (text "1")) (text "sleep 9")).0

abbrev stopped : SessionState
stopped = (handle_shell_interrupt sleeping (text "interrupt-5")).0

abbrev listing : SessionState
listing = (handle_shell_command system stopped (some (text "2")) (text "ls")).0

abbrev sleeper : Task
sleeper = record {
  index = 0;
  command_id = some (text "1");
  command = text "sleep 9";
  cwd = text "/srv";
  cancelled = true;
}

abbrev cancellations : SessionState → List Bool
cancellations s = map (λ t. t.cancelled) s.tasks

both_listed : cancellations listing ≡ false ∷ true ∷ []
unfolding handle_shell_command handle_shell_interrupt strip_prefix text ℕ_discrete Text-discrete
both_listed = refl

-- When the first task ends, the second is told to stop, though nobody interrupted it.
abbrev after_sleep : SessionState
after_sleep = (end_task listing sleeper Outcome.killed [] []).0

bystander_cancelled : cancellations after_sleep ≡ true ∷ []
unfolding handle_shell_command handle_shell_interrupt end_task strip_prefix text ℕ_discrete
    Text-discrete
bystander_cancelled = refl

sleeper_runs : Memᴰ sleeper listing.tasks
unfolding handle_shell_command handle_shell_interrupt strip_prefix text ℕ_discrete Text-discrete
sleeper_runs = Memᴰ.tail (Memᴰ.head refl)

sleeping-Reachable : Reachable system sleeping
sleeping-Reachable =
    step fresh sleeping (start (text "/srv")) (commanded fresh (some (text "1")) (text "sleep 9"))

after_sleep-Reachable : Reachable system after_sleep
after_sleep-Reachable =
    step listing after_sleep
      (step stopped listing
        (step sleeping stopped sleeping-Reachable (interrupted sleeping (text "interrupt-5")))
        (commanded stopped (some (text "2")) (text "ls")))
      (ended listing sleeper Outcome.killed [] [] sleeper_runs (λ killed. refl))

Reachable-IsExclusive_example : IsExclusive after_sleep
Reachable-IsExclusive_example = Reachable-IsExclusive system after_sleep after_sleep-Reachable

handle_shell_interrupt-AllCancelled_example :
    let after = (handle_shell_interrupt sleeping (text "interrupt-5")).0 in
    (after.running ≡ none)
    × AllCancelled after.tasks
    × (map (λ t. t.index) after.tasks ≡ map (λ t. t.index) sleeping.tasks)
handle_shell_interrupt-AllCancelled_example =
    handle_shell_interrupt-AllCancelled system sleeping (text "interrupt-5") sleeping-Reachable
