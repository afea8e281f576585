-- ===== src/Observation/Refresh.antt =====
-- What a refresh observes.
use fips_nostr_bootstrap.Base.{
  ℕ, ◌-◌, ◌<◌, ◌↔◌, ◌≡◌, ◌⊎◌, inl, inr, refl, ap, sym, subst, not, ◌&&◌, Bool, true, false,
  Bool-cases, Option-cases, Option, none, some, List, [], ◌∷◌, ◌++◌, Text, All, arith,
}
use fips_nostr_bootstrap.Schema.{LegacyEndpoint}
use fips_nostr_bootstrap.Observation.{
  StunObservation, Local, Observed, Probing, observe, probe_all, still_fresh, refresh_from,
  refresh_traversal_observation,
}

-- The observation of the first server that answers, those before it silent.
pub record FirstAnswer (env : Local) (probe : Text → Option LegacyEndpoint) (servers : List Text)
    (o : StunObservation) : Type 0 where
  pub silent : List Text
  pub server : Text
  pub untried : List Text
  pub address : LegacyEndpoint
  pub order : servers ≡ silent ++ (server ∷ untried)
  pub no_answer : All (λ s. probe s ≡ none) silent
  pub answers : probe server ≡ some address
  pub observed : o ≡ observe env server (some address)

-- No server answers: the observation names the first of them, and no address.
pub record NoAnswer (env : Local) (probe : Text → Option LegacyEndpoint) (servers : List Text)
    (o : StunObservation) : Type 0 where
  pub first : Text
  pub others : List Text
  pub order : servers ≡ first ∷ others
  pub no_answer : All (λ s. probe s ≡ none) servers
  pub observed : o ≡ observe env first none

-- The last observation is younger than the time of a refresh when the call starts.
abbrev pub IsYoung : Local → Probing → Observed → Type 0
IsYoung env p s =
    (at : ℕ) × (s.stun_observed_at ≡ some at) × (p.started_at - at < env.stun_refresh_ms)

-- There is nothing to do: no server is set, or the call is not forced and the last observation is young.
abbrev pub IsIdle : Local → Probing → Bool → Observed → Type 0
IsIdle env p force s = (env.stun_servers ≡ []) ⊎ ((force ≡ false) × IsYoung env p s)

-- The call keeps what is there.
abbrev pub Keeps : Observed → Observed × Option StunObservation → Type 0
Keeps s r = r ≡ (s, s.stun_observation)

still_fresh-IsYoung :
    (env : Local) (p : Probing) (s : Observed)
    → (still_fresh env p s.stun_observed_at ≡ true) ↔ IsYoung env p s
still_fresh-IsYoung env p s = elim (Option-cases s.stun_observed_at) [
  | inl never ↦ rw never (λ h. cc, λ (at, e, younger). cc)
  | inr (at, seen) ↦ rw seen (
    λ h. (at, refl, ground arith),
    λ (then, e, younger). let same : at ≡ then = cc in ground (arith, same),
  )
]

-- The call stores and returns a new observation.
abbrev pub Probes : Local → Probing → Observed × Option StunObservation → Type 0
Probes env p r =
    (o : StunObservation) × (r
      ≡ (record { stun_observation = some o; stun_observed_at = some p.ended_at }, some o))
    × (FirstAnswer env p.probe_stun_server env.stun_servers o
        ⊎ NoAnswer env p.probe_stun_server env.stun_servers o)

-- What the loop gives on the rest of the servers.
abbrev Outcome :
    Local → (Text → Option LegacyEndpoint) → Text → List Text → StunObservation → Type 0
Outcome env probe first servers o =
    FirstAnswer env probe servers o
    ⊎ (All (λ s. probe s ≡ none) servers × (o ≡ observe env first none))

probe_all-Outcome :
    (env : Local) (probe : Text → Option LegacyEndpoint) (first : Text) (servers : List Text)
    → Outcome env probe first servers (probe_all env probe first servers)
unfolding probe_all
probe_all-Outcome env probe first [] = inr (tt, refl)
probe_all-Outcome env probe first (x ∷ servers) = elim (Option-cases (probe x)) [
  | inr (address, answered) ↦ inl (record {
    silent = [];
    server = x;
    untried = servers;
    address = address;
    order = refl;
    no_answer = tt;
    answers = answered;
    observed = rw answered refl;
  })
  | inl silent ↦ elim (probe_all-Outcome env probe first servers) [
    | inr (all, o) ↦ inr ((silent, all), rw silent o)
    | inl found ↦ inl (record {
      silent = x ∷ found.silent;
      server = found.server;
      untried = found.untried;
      address = found.address;
      order = ap (λ xs. x ∷ xs) found.order;
      no_answer = (silent, found.no_answer);
      answers = found.answers;
      observed = rw silent found.observed;
    })
  ]
]

refresh_from-Probes :
    (env : Local) (p : Probing) (force : Bool) (s : Observed) (servers : List Text)
    → env.stun_servers ≡ servers
    → (IsIdle env p force s × Keeps s (refresh_from env p force s servers))
      ⊎ ((IsIdle env p force s → ⊥) × Probes env p (refresh_from env p force s servers))
refresh_from-Probes env p force s [] e = inl (inl e, refl)
refresh_from-Probes env p force s (first ∷ servers) e =
    elim (Bool-cases (not force && still_fresh env p s.stun_observed_at)) [
      | inl young ↦
          rw young (inl (inr (ground arith, (still_fresh-IsYoung env p s).0 (ground arith)), refl))
      | inr due ↦
          let o : StunObservation = probe_all env p.probe_stun_server first (first ∷ servers) in
          rw due (
            inr (
              busy due,
              (
                o,
                refl,
                elim (probe_all-Outcome env p.probe_stun_server first (first ∷ servers)) [
                  | inl found ↦
                      inl (subst (λ xs. FirstAnswer env p.probe_stun_server xs o) (sym e) found)
                  | inr (silent, seen) ↦ inr (record {
                    first = first;
                    others = servers;
                    order = e;
                    no_answer = subst (All λ s. p.probe_stun_server s ≡ none) (sym e) silent;
                    observed = seen;
                  })
                ],
              ),
            ))
    ]
  where
    busy : (not force && still_fresh env p s.stun_observed_at) ≡ false → IsIdle env p force s → ⊥
    busy due (inl unset) = cc (e, unset)
    busy due (inr (unforced, young)) =
        let fresh = (still_fresh-IsYoung env p s).1 young in ground (arith, fresh)

-- A refresh keeps what is there exactly if no server is set, or the last observation is young and the
-- call is not forced; otherwise it stores and returns the answer of the first server that answers, or
-- the lack of any.
pub refresh_traversal_observation-Probes :
    (env : Local) (p : Probing) (force : Bool) (s : Observed)
    → (IsIdle env p force s × Keeps s (refresh_traversal_observation env p force s))
      ⊎ ((IsIdle env p force s → ⊥) × Probes env p (refresh_traversal_observation env p force s))
unfolding refresh_traversal_observation
refresh_traversal_observation-Probes env p force s =
    refresh_from-Probes env p force s env.stun_servers refl
