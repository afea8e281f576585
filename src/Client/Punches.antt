-- ===== src/Client/Punches.antt =====
-- The task that `start_punch_and_wait` and `start_punch_plan_and_wait` of
-- rust/fips-nostr-rendezvous/src/bin/fips-video-daemon.rs spawn to send the probes.
use mathlib.Core.List.{append-nil}
use fips_nostr_bootstrap.Base.{
  ℕ, zero, suc, ◌+◌, ◌*◌, ◌≤◌, ◌<◌, ◌≡◌, inl, inr, refl, ap, ltb, ◌==◌, nat_eq, ℕ_discrete, ==_iff,
  if◌then◌else◌, Bool-cases, List, [], ◌++◌, map, ◌∷◌, All, ◌∙◌, Run, done, stuck, ◌>>=◌, arith,
}
use fips_nostr_bootstrap.Schema.{LegacyEndpoint, ok}
use fips_nostr_bootstrap.PunchPacket.{
  Digest, PunchPacketKind, session_hash, build_punch_packet, parse_punch_packet,
}
use fips_nostr_bootstrap.PunchPacket.RoundTrip.{parse_punch_packet-build}
use fips_nostr_bootstrap.Client.Calls.{PunchTask}

-- A datagram and where it is sent.
abbrev pub Probe : Type 0
Probe = LegacyEndpoint × List ℕ

-- Where the datagrams are sent.
abbrev pub goals : List Probe → List LegacyEndpoint
goals [] = []
goals (probe ∷ probes) = probe.0 ∷ goals probes

-- The remotes over and over.
abbrev pub times : ℕ → List LegacyEndpoint → List LegacyEndpoint
times zero remotes = []
times (suc n) remotes = remotes ++ times n remotes

le_times : (n m : ℕ) → 0 < m → n ≤ n * m
le_times zero m h = omega arith
le_times (suc n) m h = let less = le_times n m h in omega (arith, less)

module _ (sha256 : Digest) (task : PunchTask) (elapsed : ℕ → ℕ) where
  -- The probes of a round.
  abbrev pub probe_round : List Probe
  probe_round =
      map (λ remote. (remote, build_punch_packet sha256 PunchPacketKind.probe task.session_id))
        task.remotes

  -- The loop from round `n` on, on fuel; `elapsed n` is the time since the start when the round is
  -- tested.
  unfoldable pub punch_loop : ℕ → ℕ → Run (List Probe)
  punch_loop zero n = stuck
  punch_loop (suc fuel) n =
      let rest = punch_loop fuel (suc n) >>= λ later. done (probe_round ++ later) in
      if ltb (elapsed n) task.duration_ms then rest else done []

  -- Round after round of the same probes.
  abbrev rounds_of : ℕ → List Probe
  rounds_of zero = []
  rounds_of (suc rounds) = probe_round ++ rounds_of rounds

  -- The rounds from `n` up to the first that is tested after the duration.
  pub record RunsFor (n rounds : ℕ) : Type 0 where
    pub within : (k : ℕ) → k < rounds → elapsed (n + k) < task.duration_ms
    pub after : task.duration_ms ≤ elapsed (n + rounds)

  runs_one_more :
      (n rounds : ℕ)
      → elapsed n < task.duration_ms
      → ((k : ℕ) → k < rounds → elapsed (suc n + k) < task.duration_ms)
      → (k : ℕ) → k < suc rounds
      → elapsed (n + k) < task.duration_ms
  runs_one_more n rounds now later zero h = let here : n + 0 ≡ n = omega arith in rw here now
  runs_one_more n rounds now later (suc k) h =
      let here : n + suc k ≡ suc n + k = omega arith in rw here (later k (omega (arith, h)))

  punch_loop-from :
      (end fuel n : ℕ)
      → task.duration_ms ≤ elapsed end
      → n + fuel ≡ suc end
      → n ≤ end
      → (rounds : ℕ) × (punch_loop fuel n ≡ done (rounds_of rounds)) × RunsFor n rounds
  unfolding punch_loop ℕ_discrete
  punch_loop-from end zero n over total below = absurd (omega arith)
  punch_loop-from end (suc fuel) n over total below =
      elim (Bool-cases (ltb (elapsed n) task.duration_ms)) [
        | inr late ↦ (
          zero,
          rw late refl,
          record {
            within = λ k h. elim h [ ];
            after = let here : n + 0 ≡ n = omega arith in rw here (ground arith);
          },
        )
        | inl early ↦
            let more : suc n ≤ end = elim (Bool-cases (n == end)) [
              | inl same ↦
                  let at : elapsed n ≡ elapsed end = ap elapsed ((==_iff n end).0 same) in
                  absurd (ground (arith, at))
              | inr other ↦ ground arith
            ] in
            let (rounds, e, runs) = punch_loop-from end fuel (suc n) over (omega arith) more in
            (
              suc rounds,
              rw (early, e) refl,
              record {
                within = runs_one_more n rounds (ground (arith, early)) runs.within;
                after =
                    let here : n + suc rounds ≡ suc n + rounds = omega arith in rw here runs.after;
              },
            )
      ]

  few_rounds :
      0 < task.interval_ms
      → ((n : ℕ) → n * task.interval_ms ≤ elapsed n)
      → (rounds : ℕ) → RunsFor 0 rounds
      → rounds * task.interval_ms < task.duration_ms + task.interval_ms
  few_rounds apart on_time zero runs = omega (arith, apart)
  few_rounds apart on_time (suc k) runs =
      let here : 0 + k ≡ k = omega arith in
      let last = rw here at (runs.within k (omega arith)) in omega (arith, last, on_time k)

  -- A probe of the task's session, to one that reads it.
  abbrev pub IsProbe : Probe → Type 0
  IsProbe probe =
      parse_punch_packet probe.1
      ≡ ok (record {
        kind = PunchPacketKind.probe;
        session_hash = session_hash sha256 task.session_id;
      })

  round-IsProbe :
      (remotes : List LegacyEndpoint) (later : List Probe)
      → All IsProbe later
      → All IsProbe (
          map
            (λ remote. (remote, build_punch_packet sha256 PunchPacketKind.probe task.session_id))
            remotes
          ++ later)
  round-IsProbe [] later all = all
  round-IsProbe (remote ∷ remotes) later all =
      let packet = build_punch_packet sha256 PunchPacketKind.probe task.session_id in
      (
        rw (append-nil packet) at
            (parse_punch_packet-build sha256 PunchPacketKind.probe task.session_id []),
        round-IsProbe remotes later all,
      )

  rounds_of-IsProbe : (rounds : ℕ) → All IsProbe (rounds_of rounds)
  rounds_of-IsProbe zero = tt
  rounds_of-IsProbe (suc rounds) =
      round-IsProbe task.remotes (rounds_of rounds) (rounds_of-IsProbe rounds)

  round_goals :
      (remotes : List LegacyEndpoint) (later : List Probe)
      → goals (
          map
            (λ remote. (remote, build_punch_packet sha256 PunchPacketKind.probe task.session_id))
            remotes
          ++ later)
        ≡ remotes ++ goals later
  round_goals [] later = refl
  round_goals (remote ∷ remotes) later = ap (λ xs. remote ∷ xs) (round_goals remotes later)

  rounds_of-goals : (rounds : ℕ) → goals (rounds_of rounds) ≡ times rounds task.remotes
  rounds_of-goals zero = refl
  rounds_of-goals (suc rounds) =
      round_goals task.remotes (rounds_of rounds)
      ∙ ap (λ xs. task.remotes ++ xs) (rounds_of-goals rounds)

  -- Where the interval is not zero and `n` sleeps take `n` intervals at least, the task that sends
  -- the probes ends. All that it has sent are datagrams that are read as a probe of its session, one to
  -- each remote in turn in each round that began within the duration; it ended at the first round that
  -- did not, and there were fewer rounds than would fill the duration and one interval more.
  pub punch_loop-RunsFor :
      0 < task.interval_ms
      → ((n : ℕ) → n * task.interval_ms ≤ elapsed n)
      → (probes : List Probe) × (rounds : ℕ) × (punch_loop (suc task.duration_ms) 0 ≡ done probes)
        × All IsProbe probes
        × (goals probes ≡ times rounds task.remotes)
        × RunsFor 0 rounds
        × (rounds * task.interval_ms < task.duration_ms + task.interval_ms)
  punch_loop-RunsFor apart on_time =
      let over : task.duration_ms ≤ elapsed task.duration_ms =
        let long = le_times task.duration_ms task.interval_ms apart in
        omega (arith, long, on_time task.duration_ms) in
      let (rounds, e, runs) =
        punch_loop-from task.duration_ms (suc task.duration_ms) 0 over (omega arith)
          (omega arith) in
      (
        rounds_of rounds,
        rounds,
        e,
        rounds_of-IsProbe rounds,
        rounds_of-goals rounds,
        runs,
        few_rounds apart on_time rounds runs,
      )
