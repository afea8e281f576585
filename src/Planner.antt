-- ===== src/Planner.antt =====
-- `plan_punch_targets` of rust/fips-nostr-rendezvous/src/lib.rs.
pub mod Candidates
pub mod Membership
pub mod Order
pub mod Subnet
pub mod Endpoints
use fips_nostr_bootstrap.Base.{
  ℕ, ◌==◌, nat_eq, texts_eq, Eq, ℕ_discrete, if◌then◌else◌, Bool, true, false, ◌&&◌, Option, none,
  some, List, [], ◌∷◌, Text, Text-discrete, length, take, push_unique, for_each,
}
use fips_nostr_bootstrap.Schema.{TraversalAddress, TraversalAddress-discrete}

pub data PunchStrategy : Type 0 where
  lan reflexive mixed local : PunchStrategy

pub data AddressSource : Type 0 where
  local reflexive : AddressSource

pub record PlannedPunchTarget : Type 0 where
  pub strategy : PunchStrategy
  pub local_source : AddressSource
  pub remote_source : AddressSource
  pub local : TraversalAddress
  pub remote : TraversalAddress

unfoldable pub PlannedPunchTarget-discrete : Discrete PlannedPunchTarget
unfolding TraversalAddress-discrete
PlannedPunchTarget-discrete = hlevel TraversalAddress-discrete

instance abbrev pub planned_punch_target_eq : Eq PlannedPunchTarget
planned_punch_target_eq = record { discrete = PlannedPunchTarget-discrete }

abbrev pub onto_first : ℕ → List Text → List Text
onto_first x [] = (x ∷ []) ∷ []
onto_first x (part ∷ parts) = (x ∷ part) ∷ parts

-- `s.split(c)`
unfoldable pub split : ℕ → Text → List Text
split c [] = [] ∷ []
split c (x ∷ s) = let parts = split c s in if x == c then [] ∷ parts else onto_first x parts

unfoldable pub same_subnet_24 : TraversalAddress → TraversalAddress → Bool
unfolding split
same_subnet_24 left right =
    let left_parts = split b'.' left.ip in
    let right_parts = split b'.' right.ip in
    length left_parts == 4 && length right_parts == 4 && take 3 left_parts == take 3 right_parts

abbrev pub lan_target : TraversalAddress → TraversalAddress → PlannedPunchTarget
lan_target l r = record {
  strategy = PunchStrategy.lan;
  local_source = AddressSource.local;
  remote_source = AddressSource.local;
  local = l;
  remote = r;
}

abbrev pub reflexive_target : TraversalAddress → TraversalAddress → PlannedPunchTarget
reflexive_target l r = record {
  strategy = PunchStrategy.reflexive;
  local_source = AddressSource.reflexive;
  remote_source = AddressSource.reflexive;
  local = l;
  remote = r;
}

abbrev pub to_reflexive_target : TraversalAddress → TraversalAddress → PlannedPunchTarget
to_reflexive_target l r = record {
  strategy = PunchStrategy.mixed;
  local_source = AddressSource.local;
  remote_source = AddressSource.reflexive;
  local = l;
  remote = r;
}

abbrev pub from_reflexive_target : TraversalAddress → TraversalAddress → PlannedPunchTarget
from_reflexive_target l r = record {
  strategy = PunchStrategy.mixed;
  local_source = AddressSource.reflexive;
  remote_source = AddressSource.local;
  local = l;
  remote = r;
}

abbrev pub local_target : TraversalAddress → TraversalAddress → PlannedPunchTarget
local_target l r = record {
  strategy = PunchStrategy.local;
  local_source = AddressSource.local;
  remote_source = AddressSource.local;
  local = l;
  remote = r;
}

-- The five blocks of the function, in its order.
abbrev Plan : Type 0
Plan = List PlannedPunchTarget

push_lan : Plan → List TraversalAddress → List TraversalAddress → Plan
push_lan planned locals remotes =
    for_each
      (λ p l.
        for_each (λ q r. if same_subnet_24 l r then push_unique q (lan_target l r) else q) p
          remotes)
      planned locals

push_reflexive : Plan → Option TraversalAddress → Option TraversalAddress → Plan
push_reflexive planned (some l) (some r) = push_unique planned (reflexive_target l r)
push_reflexive planned _ _ = planned

push_to_reflexive : Plan → List TraversalAddress → Option TraversalAddress → Plan
push_to_reflexive planned locals none = planned
push_to_reflexive planned locals (some r) =
    for_each (λ p l. push_unique p (to_reflexive_target l r)) planned locals

push_from_reflexive : Plan → Option TraversalAddress → List TraversalAddress → Plan
push_from_reflexive planned none remotes = planned
push_from_reflexive planned (some l) remotes =
    for_each (λ p r. push_unique p (from_reflexive_target l r)) planned remotes

push_local : Plan → List TraversalAddress → List TraversalAddress → Plan
push_local planned locals remotes =
    for_each (λ p l. for_each (λ q r. push_unique q (local_target l r)) p remotes) planned locals

unfoldable pub plan_punch_targets :
    List TraversalAddress
    → Option TraversalAddress
    → List TraversalAddress
    → Option TraversalAddress
    → List PlannedPunchTarget
unfolding push_lan push_reflexive push_to_reflexive push_from_reflexive push_local
plan_punch_targets locals local_reflexive remotes remote_reflexive =
    let a = push_lan [] locals remotes in
    let b = push_reflexive a local_reflexive remote_reflexive in
    let c = push_to_reflexive b locals remote_reflexive in
    let d = push_from_reflexive c local_reflexive remotes in push_local d locals remotes
