-- ===== src/Planner/Candidates.antt =====
-- What `plan_punch_targets` plans: every candidate once, and nothing else.
use fips_nostr_bootstrap.Base.{
  inl, inr, ◌≡◌, refl, if◌then◌else◌, Option, none, some, List, [], ◌∷◌, ◌++◌, push_unique,
  push_all, push_all-append, flat_map, for_each-push_all, Bool-cases,
}
use fips_nostr_bootstrap.Schema.{TraversalAddress, traversal_address_eq}
use fips_nostr_bootstrap.Planner.{
  PlannedPunchTarget, planned_punch_target_eq, same_subnet_24, lan_target, reflexive_target,
  to_reflexive_target, from_reflexive_target, local_target, push_lan, push_reflexive,
  push_to_reflexive, push_from_reflexive, push_local, plan_punch_targets,
}

abbrev pub lan_row : TraversalAddress → TraversalAddress → List PlannedPunchTarget
lan_row l r = if same_subnet_24 l r then lan_target l r ∷ [] else []

abbrev pub lan_candidates : List TraversalAddress → List TraversalAddress → List PlannedPunchTarget
lan_candidates locals remotes = flat_map (λ l. flat_map (λ r. lan_row l r) remotes) locals

abbrev pub reflexive_candidates :
    Option TraversalAddress → Option TraversalAddress → List PlannedPunchTarget
reflexive_candidates (some l) (some r) = reflexive_target l r ∷ []
reflexive_candidates _ _ = []

abbrev pub to_reflexive_candidates :
    List TraversalAddress → Option TraversalAddress → List PlannedPunchTarget
to_reflexive_candidates locals none = []
to_reflexive_candidates locals (some r) = flat_map (λ l. to_reflexive_target l r ∷ []) locals

abbrev pub from_reflexive_candidates :
    Option TraversalAddress → List TraversalAddress → List PlannedPunchTarget
from_reflexive_candidates none remotes = []
from_reflexive_candidates (some l) remotes = flat_map (λ r. from_reflexive_target l r ∷ []) remotes

abbrev pub local_candidates :
    List TraversalAddress → List TraversalAddress → List PlannedPunchTarget
local_candidates locals remotes =
    flat_map (λ l. flat_map (λ r. local_target l r ∷ []) remotes) locals

-- All candidates, best strategy first, repeated where an address is.
abbrev pub candidates :
    List TraversalAddress
    → Option TraversalAddress
    → List TraversalAddress
    → Option TraversalAddress
    → List PlannedPunchTarget
candidates ls lr rs rr =
    lan_candidates ls rs
    ++ (reflexive_candidates lr rr
        ++ (to_reflexive_candidates ls rr
            ++ (from_reflexive_candidates lr rs ++ local_candidates ls rs)))

push_one :
    (p : List PlannedPunchTarget) (t : PlannedPunchTarget) → push_unique p t ≡ push_all p (t ∷ [])
unfolding push_all
push_one p t = refl

push_lan_one :
    (p : List PlannedPunchTarget) (l r : TraversalAddress)
    → (if same_subnet_24 l r then push_unique p (lan_target l r) else p) ≡ push_all p (lan_row l r)
unfolding push_all
push_lan_one p l r = elim (Bool-cases (same_subnet_24 l r)) [ inl e ↦ rw e | inr e ↦ rw e ]

push_lan_lem :
    (p : List PlannedPunchTarget) (ls rs : List TraversalAddress)
    → push_lan p ls rs ≡ push_all p (lan_candidates ls rs)
unfolding push_lan
push_lan_lem p ls rs =
    for_each-push_all _ _ (λ q l. for_each-push_all _ _ (λ q' r. push_lan_one q' l r) q rs) p ls

push_reflexive_lem :
    (p : List PlannedPunchTarget) (lr rr : Option TraversalAddress)
    → push_reflexive p lr rr ≡ push_all p (reflexive_candidates lr rr)
unfolding push_reflexive push_all
push_reflexive_lem p (some l) (some r) = refl
push_reflexive_lem p (some l) none = refl
push_reflexive_lem p none rr = refl

push_to_reflexive_lem :
    (p : List PlannedPunchTarget) (ls : List TraversalAddress) (rr : Option TraversalAddress)
    → push_to_reflexive p ls rr ≡ push_all p (to_reflexive_candidates ls rr)
unfolding push_to_reflexive
push_to_reflexive_lem p ls none = unfold push_all in refl
push_to_reflexive_lem p ls (some r) = for_each-push_all _ _ (λ q l. push_one q _) p ls

push_from_reflexive_lem :
    (p : List PlannedPunchTarget) (lr : Option TraversalAddress) (rs : List TraversalAddress)
    → push_from_reflexive p lr rs ≡ push_all p (from_reflexive_candidates lr rs)
unfolding push_from_reflexive
push_from_reflexive_lem p none rs = unfold push_all in refl
push_from_reflexive_lem p (some l) rs = for_each-push_all _ _ (λ q r. push_one q _) p rs

push_local_lem :
    (p : List PlannedPunchTarget) (ls rs : List TraversalAddress)
    → push_local p ls rs ≡ push_all p (local_candidates ls rs)
unfolding push_local
push_local_lem p ls rs =
    for_each-push_all _ _ (λ q l. for_each-push_all _ _ (λ q' r. push_one q' _) q rs) p ls

-- The five blocks push the candidates in their order.
pub plan-push_all :
    (ls : List TraversalAddress) (lr : Option TraversalAddress) (rs : List TraversalAddress)
    (rr : Option TraversalAddress)
    → plan_punch_targets ls lr rs rr ≡ push_all [] (candidates ls lr rs rr)
unfolding plan_punch_targets
plan-push_all ls lr rs rr = simp (
  push_lan_lem, push_reflexive_lem, push_to_reflexive_lem, push_from_reflexive_lem, push_local_lem,
  push_all-append,
)
