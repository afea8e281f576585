-- ===== src/PunchWindow/Bounds.antt =====
-- The schedule in closed form.
use mathlib.Core.List.{append_assoc, append-nil}
use native.Mathlib.Nat.{zero-mul, suc-mul}
use fips_nostr_bootstrap.Base.{
  ℕ, zero, suc, ◌+◌, ◌*◌, ◌≤◌, ◌<◌, ◌≡◌, refl, sym, ap, ◌∙◌, ◌⊎◌, inl, inr, max, ltb, true, false,
  ◌&&◌, ◌||◌, Bool-cases, List, [], ◌∷◌, ◌++◌, length, length-append, add64, u64_mod, done, arith,
}
use fips_nostr_bootstrap.Traversal.{is_empty}
use fips_nostr_bootstrap.PunchWindow.{
  PunchWindow, negotiate_punch_window, attempts_loop, build_punch_attempt_schedule,
}

-- `count` instants from `at` on, `interval` apart.
unfoldable pub progression : ℕ → ℕ → ℕ → List ℕ
progression at interval zero = []
progression at interval (suc count) = at ∷ progression (at + interval) interval count

-- The loop ended where it should: by the count, or by the clock.
pub record Ends (most interval cutoff pushed at count : ℕ) : Type 0 where
  pub within : pushed + count ≤ most
  pub in_time : (count ≡ 0) ⊎ (at + count * interval < cutoff + interval)
  pub complete : (pushed + count ≡ most) ⊎ (cutoff ≤ at + count * interval)

is_empty-snoc : (xs : List ℕ) (x : ℕ) → is_empty (xs ++ (x ∷ [])) ≡ false
is_empty-snoc [] x = refl
is_empty-snoc (y ∷ xs) x = refl

module _ (most interval cutoff : ℕ) (fits : cutoff + interval < u64_mod) where
  -- What the loop does from a state on.
  abbrev Progresses : ℕ → List ℕ → ℕ → Type 0
  Progresses fuel attempts at =
      (count : ℕ) × (attempts_loop most interval cutoff fuel attempts at
        ≡ done (attempts ++ progression at interval count))
      × Ends most interval cutoff (length attempts) at count

  stops :
      (fuel : ℕ) (attempts : List ℕ) (at : ℕ)
      → length attempts ≤ most
      → (is_empty attempts ≡ true → at < cutoff)
      → (ltb (length attempts) most && (is_empty attempts || ltb at cutoff)) ≡ false
      → Progresses (suc fuel) attempts at
  unfolding attempts_loop progression
  stops fuel attempts at k first stop = (
    0,
    rw (stop, attempts_loop) (ap done (sym (append-nil attempts))),
    record { within = omega arith; in_time = inl refl; complete = ground arith },
  )

  goes_on :
      (fuel : ℕ) (attempts : List ℕ) (at : ℕ)
      → (ltb (length attempts) most && (is_empty attempts || ltb at cutoff)) ≡ true
      → at < cutoff
      → Progresses fuel (attempts ++ (at ∷ [])) (at + interval)
      → Progresses (suc fuel) attempts at
  unfolding attempts_loop progression
  goes_on fuel attempts at go early (count, run, ends) = (
    suc count,
    let step : add64 at interval ≡ at + interval = omega arith in
        rw (go, attempts_loop, step) (run ∙ ap done (append_assoc attempts (at ∷ []) _)),
    record {
      within = omega (arith, ends.within, length-append attempts (at ∷ []));
      in_time = inr (elim ends.in_time [
        | inl z ↦
            omega (arith, suc-mul count interval, zero-mul interval, ap (λ (t : ℕ). t * interval) z)
        | inr later ↦ omega (arith, suc-mul count interval)
      ]);
      complete =
          omega (arith, ends.complete, suc-mul count interval, length-append attempts (at ∷ []));
    },
  )

  attempts_loop-Progresses :
      (fuel : ℕ) (attempts : List ℕ) (at : ℕ)
      → most < fuel + length attempts
      → length attempts ≤ most
      → (is_empty attempts ≡ true → at < cutoff)
      → Progresses fuel attempts at
  attempts_loop-Progresses zero attempts at h k first = absurd (omega arith)
  attempts_loop-Progresses (suc fuel) attempts at h k first =
      elim (Bool-cases (ltb (length attempts) most && (is_empty attempts || ltb at cutoff))) [
        | inl go ↦ goes_on fuel attempts at go (early go) (
            attempts_loop-Progresses fuel (attempts ++ (at ∷ [])) (at + interval)
              (omega (arith, length-append attempts (at ∷ [])))
              (ground (arith, length-append attempts (at ∷ [])))
              (λ e. cc (is_empty-snoc attempts at)))
        | inr stop ↦ stops fuel attempts at k first stop
      ]
    where
      early :
          (ltb (length attempts) most && (is_empty attempts || ltb at cutoff)) ≡ true → at < cutoff
      early go = elim (Bool-cases (is_empty attempts)) [
        | inl none_yet ↦ first none_yet
        | inr some_yet ↦ ground arith
      ]

-- What a schedule must be, by the window and the count of attempts asked for.
pub record IsSchedule (w : PunchWindow) (max_attempts : ℕ) (attempts : List ℕ) : Type 0 where
  pub count : ℕ
  pub spaced : attempts ≡ progression w.start_at_ms (max w.interval_ms 1) count
  pub one : 1 ≤ count
  pub within : count ≤ max max_attempts 1
  pub in_time :
      w.start_at_ms + count * max w.interval_ms 1
      < w.start_at_ms + max w.duration_ms 1 + max w.interval_ms 1
  pub complete :
      (count ≡ max max_attempts 1)
      ⊎ (w.start_at_ms + max w.duration_ms 1 ≤ w.start_at_ms + count * max w.interval_ms 1)

IsSchedule-of_Progresses :
    (w : PunchWindow) (max_attempts cutoff : ℕ)
    → cutoff ≡ w.start_at_ms + max w.duration_ms 1
    → (fits : cutoff + max w.interval_ms 1 < u64_mod)
    → Progresses
        (max max_attempts 1)
        (max w.interval_ms 1)
        cutoff
        fits
        (suc (max max_attempts 1))
        []
        w.start_at_ms
    → (attempts : List ℕ) × (attempts_loop
          (max max_attempts 1)
          (max w.interval_ms 1)
          cutoff
          (suc (max max_attempts 1))
          []
          w.start_at_ms
        ≡ done attempts)
      × IsSchedule w max_attempts attempts
IsSchedule-of_Progresses w max_attempts cutoff e fits (zero, run, ends) =
    absurd (omega (arith, ends.complete, zero-mul (max w.interval_ms 1)))
IsSchedule-of_Progresses w max_attempts cutoff e fits (suc count, run, ends) = (
  progression w.start_at_ms (max w.interval_ms 1) (suc count),
  run,
  record {
    count = suc count;
    spaced = refl;
    one = omega arith;
    within = omega (arith, ends.within);
    in_time = omega (arith, ends.in_time, ends.complete);
    complete = omega (arith, ends.complete);
  },
)

-- Where the window and one interval fit 64 bits, the loop ends, and the attempts start with the
-- window, stand one interval apart, all fall before the window's end, are one at least and
-- `max_attempts` at most, and stop early only at the end of the window.
pub build_punch_attempt_schedule-IsSchedule :
    (w : PunchWindow) (max_attempts : ℕ)
    → w.start_at_ms + max w.duration_ms 1 + max w.interval_ms 1 < u64_mod
    → (attempts : List ℕ) × (build_punch_attempt_schedule w max_attempts ≡ done attempts)
      × IsSchedule w max_attempts attempts
unfolding build_punch_attempt_schedule
build_punch_attempt_schedule-IsSchedule w max_attempts fits =
    let e : add64 w.start_at_ms (max w.duration_ms 1) ≡ w.start_at_ms + max w.duration_ms 1 =
      omega arith in
    let fits' : add64 w.start_at_ms (max w.duration_ms 1) + max w.interval_ms 1 < u64_mod =
      omega arith in
    IsSchedule-of_Progresses w max_attempts _ e fits' (
      attempts_loop-Progresses (max max_attempts 1) (max w.interval_ms 1) _ fits'
        (suc (max max_attempts 1)) [] w.start_at_ms (omega arith) (omega arith) (λ _. omega arith))

-- Where the start fits 64 bits, the window is the earliest that neither side finds too early, with the
-- least interval that neither finds too dense and that is 20 at least, and the least duration that
-- neither finds too short and that is 1 at least; the other side, at the same time, comes to the same
-- window.
pub negotiate_punch_window_bounds :
    (now la ra li ri ld rd : ℕ)
    → now + max la ra < u64_mod
    → let w = negotiate_punch_window now la ra li ri ld rd in
      (now + la ≤ w.start_at_ms)
      × (now + ra ≤ w.start_at_ms)
      × (li ≤ w.interval_ms)
      × (ri ≤ w.interval_ms)
      × (20 ≤ w.interval_ms)
      × (ld ≤ w.duration_ms)
      × (rd ≤ w.duration_ms)
      × (1 ≤ w.duration_ms)
      × ((t : ℕ) → now + la ≤ t → now + ra ≤ t → w.start_at_ms ≤ t)
      × ((t : ℕ) → li ≤ t → ri ≤ t → 20 ≤ t → w.interval_ms ≤ t)
      × ((t : ℕ) → ld ≤ t → rd ≤ t → 1 ≤ t → w.duration_ms ≤ t)
      × (negotiate_punch_window now ra la ri li rd ld ≡ w)
unfolding negotiate_punch_window
negotiate_punch_window_bounds now la ra li ri ld rd h = (
  ground arith,
  ground arith,
  ground arith,
  ground arith,
  ground arith,
  ground arith,
  ground arith,
  ground arith,
  λ t a b. ground (arith, a, b),
  λ t a b c. ground (arith, a, b, c),
  λ t a b c. ground (arith, a, b, c),
  ground arith,
)
