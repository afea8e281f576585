-- ===== src/Shell/Exclusive.antt =====
-- One command at a time, but for those that were told to stop.
use mathlib.Core.List.{Memᴰ}
use fips_nostr_bootstrap.Base.{
  ℕ, ◌<◌, ◌≡◌, ◌⊎◌, inl, inr, refl, sym, subst, ◌==◌, nat_eq, text_eq, false, Bool-cases, Option,
  none, some, Text, text, map, Distinct, All, arith,
}
use fips_nostr_bootstrap.StunUrl.{strip_prefix}
use fips_nostr_bootstrap.Traversal.{is_empty}
use fips_nostr_bootstrap.Trim.{trim}
use fips_nostr_bootstrap.Shell.{
  Task, SessionState, System, change_directory, resolve, run_command, cd_or_run,
  handle_shell_command, cancel, release, handle_shell_interrupt, without, end_task,
}
use fips_nostr_bootstrap.Shell.Steps.{Step, Reachable, commanded, interrupted, ended, start, step}
use fips_nostr_bootstrap.Shell.Tasks.{
  indices, AllCancelled, map-cancelled, map-indices, map-numbered, vacuous, All-without,
  without-Distinct, new_index, none_alive, later_numbered,
}

-- A task that was not told to stop is the one whose sender is held; a held sender is that of such a
-- task; and no two tasks share an index.
pub record IsExclusive (s : SessionState) : Type 0 where
  pub exclusive : All (λ t. t.cancelled ≡ false → s.running ≡ some t.index) s.tasks
  pub tracked :
      (s.running ≡ none)
      ⊎ ((t : Task) × Memᴰ t s.tasks × (s.running ≡ some t.index) × (t.cancelled ≡ false))
  pub numbered : All (λ t. t.index < s.next) s.tasks
  pub distinct : Distinct (map (λ t. t.index) s.tasks)

-- Taking the sender tells every task to stop.
release-IsExclusive :
    (s : SessionState)
    → All (λ t. t.cancelled ≡ false → s.running ≡ some t.index) s.tasks
    → All (λ t. t.index < s.next) s.tasks
    → Distinct (indices s.tasks)
    → IsExclusive (release s)
release-IsExclusive s alone numbers d = record {
  exclusive = vacuous none (map (cancel s.running) s.tasks) (map-cancelled s.running s.tasks alone);
  tracked = inl refl;
  numbered = map-numbered s.running s.next s.tasks numbers;
  distinct = subst (λ xs. Distinct xs) (sym (map-indices s.running s.tasks)) d;
}

run_command-IsExclusive :
    (s : SessionState) (r : Option ℕ) (id : Option Text) (command : Text)
    → s.running ≡ r
    → IsExclusive s
    → IsExclusive (run_command s r id command).0
run_command-IsExclusive s (some i) id command e v = v
run_command-IsExclusive s none id command e v = record {
  exclusive = ((λ alive. refl), none_alive s.next s.tasks s.running e v.exclusive);
  tracked = inr (_, Memᴰ.head refl, refl, refl);
  numbered = (omega arith, later_numbered s.next s.tasks v.numbered);
  distinct = (new_index s.next s.tasks v.numbered, v.distinct);
}

change_directory-IsExclusive :
    (sys : System) (s : SessionState) (id : Option Text) (command target : Text)
    → IsExclusive s
    → IsExclusive (change_directory sys s id command target).0
change_directory-IsExclusive sys s id command target v =
    elim (Bool-cases (sys.is_dir (resolve s.cwd target))) [
      | inl there ↦ simp there (record {
        exclusive = v.exclusive;
        tracked = v.tracked;
        numbered = v.numbered;
        distinct = v.distinct;
      })
      | inr missing ↦ simp missing v
    ]

cd_or_run-IsExclusive :
    (sys : System) (s : SessionState) (id : Option Text) (command : Text) (o : Option Text)
    → IsExclusive s
    → IsExclusive (cd_or_run sys s id command o).0
cd_or_run-IsExclusive sys s id command (some rest) v =
    change_directory-IsExclusive sys s id command (trim rest) v
cd_or_run-IsExclusive sys s id command none v =
    run_command-IsExclusive s s.running id command refl v

handle_shell_command-IsExclusive :
    (sys : System) (s : SessionState) (id : Option Text) (command : Text)
    → IsExclusive s
    → IsExclusive (handle_shell_command sys s id command).0
unfolding handle_shell_command
handle_shell_command-IsExclusive sys s id command v = elim (Bool-cases (is_empty command)) [
  | inl blank ↦ simp blank v
  | inr written ↦ elim (Bool-cases (command == text "cd")) [
    | inl home ↦ simp (written, home) (change_directory-IsExclusive sys s id command _ v)
    | inr other ↦
        simp (written, other)
          (cd_or_run-IsExclusive sys s id command (strip_prefix (text "cd ") command) v)
  ]
]

Step-IsExclusive :
    (sys : System) (s t : SessionState) → Step sys s t → IsExclusive s → IsExclusive t
unfolding handle_shell_interrupt end_task
Step-IsExclusive sys _ _ (commanded s id command) v =
    handle_shell_command-IsExclusive sys s id command v
Step-IsExclusive sys _ _ (interrupted s id) v =
    release-IsExclusive s v.exclusive v.numbered v.distinct
Step-IsExclusive sys _ _ (ended s task outcome stdout stderr d h) v =
    release-IsExclusive (record s { tasks = without task.index s.tasks })
      (All-without (λ t. t.cancelled ≡ false → s.running ≡ some t.index) task.index s.tasks
        v.exclusive)
      (All-without (λ t. t.index < s.next) task.index s.tasks v.numbered)
      (without-Distinct task.index s.tasks v.distinct)

-- In every session that commands, interrupts and ends of tasks can lead to, at most one task was not
-- told to stop: the one whose sender is held. Where a sender is held there is such a task, so that a
-- command is refused as busy only while one runs.
pub Reachable-IsExclusive : (sys : System) (s : SessionState) → Reachable sys s → IsExclusive s
Reachable-IsExclusive sys _ (start cwd) = record {
  exclusive = tt;
  tracked = inl refl;
  numbered = tt;
  distinct = tt;
}
Reachable-IsExclusive sys _ (step before s r move) =
    Step-IsExclusive sys before s move (Reachable-IsExclusive sys before r)

-- After Ctrl-C no sender is held, every task that still runs was told to stop, and none is lost.
pub handle_shell_interrupt-AllCancelled :
    (sys : System) (s : SessionState) (id : Text)
    → Reachable sys s
    → let after = (handle_shell_interrupt s id).0 in
      (after.running ≡ none)
      × AllCancelled after.tasks
      × (map (λ t. t.index) after.tasks ≡ map (λ t. t.index) s.tasks)
unfolding handle_shell_interrupt
handle_shell_interrupt-AllCancelled sys s id r = (
  refl,
  map-cancelled s.running s.tasks (Reachable-IsExclusive sys s r).exclusive,
  map-indices s.running s.tasks,
)
