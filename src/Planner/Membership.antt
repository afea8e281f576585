-- ===== src/Planner/Membership.antt =====
-- Which targets stand in a plan.
use fips_nostr_bootstrap.Base.{
  ◌≡◌, ◌∙◌, ◌==◌, Bool, false, ◌&&◌, Option, none, some, List, [], ◌∷◌, contains, flat_map,
  contains-append, contains-push_all, arith,
}
use fips_nostr_bootstrap.Schema.{TraversalAddress, traversal_address_eq}
use fips_nostr_bootstrap.Planner.{
  PunchStrategy, AddressSource, PlannedPunchTarget, planned_punch_target_eq, same_subnet_24,
  local_target, plan_punch_targets,
}
use fips_nostr_bootstrap.Planner.Candidates.{
  lan_candidates, reflexive_candidates, to_reflexive_candidates, from_reflexive_candidates,
  local_candidates, candidates, plan-push_all, lan_row,
}

abbrev pub target :
    PunchStrategy
    → AddressSource
    → AddressSource
    → TraversalAddress
    → TraversalAddress
    → PlannedPunchTarget
target s a b l r = record {
  strategy = s;
  local_source = a;
  remote_source = b;
  local = l;
  remote = r;
}

-- Whether an optional address is this one.
abbrev pub holds : Option TraversalAddress → TraversalAddress → Bool
holds none a = false
holds (some x) a = x == a

-- Which block plans a target of this shape, by its strategy and the sources of its addresses.
pub data Block : Type 0 where
  lan_block reflexive_block to_reflexive_block from_reflexive_block local_block no_block : Block

abbrev pub block_of : PunchStrategy → AddressSource → AddressSource → Block
block_of PunchStrategy.lan AddressSource.local AddressSource.local = lan_block
block_of PunchStrategy.reflexive AddressSource.reflexive AddressSource.reflexive = reflexive_block
block_of PunchStrategy.mixed AddressSource.local AddressSource.reflexive = to_reflexive_block
block_of PunchStrategy.mixed AddressSource.reflexive AddressSource.local = from_reflexive_block
block_of PunchStrategy.local AddressSource.local AddressSource.local = local_block
block_of _ _ _ = no_block

-- What the addresses of a target must be for its block to plan it.
abbrev pub wanted :
    Block
    → List TraversalAddress
    → Option TraversalAddress
    → List TraversalAddress
    → Option TraversalAddress
    → TraversalAddress
    → TraversalAddress
    → Bool
wanted lan_block ls lr rs rr l r = contains ls l && contains rs r && same_subnet_24 l r
wanted reflexive_block ls lr rs rr l r = holds lr l && holds rr r
wanted to_reflexive_block ls lr rs rr l r = contains ls l && holds rr r
wanted from_reflexive_block ls lr rs rr l r = holds lr l && contains rs r
wanted local_block ls lr rs rr l r = contains ls l && contains rs r
wanted no_block ls lr rs rr l r = false

module _ (s : PunchStrategy) (a b : AddressSource) (l r : TraversalAddress) where
  abbrev here : Block → Bool → Bool
  here lan_block w = elim (block_of s a b) [ lan_block ↦ w | _ ↦ false ]
  here reflexive_block w = elim (block_of s a b) [ reflexive_block ↦ w | _ ↦ false ]
  here to_reflexive_block w = elim (block_of s a b) [ to_reflexive_block ↦ w | _ ↦ false ]
  here from_reflexive_block w = elim (block_of s a b) [ from_reflexive_block ↦ w | _ ↦ false ]
  here local_block w = elim (block_of s a b) [ local_block ↦ w | _ ↦ false ]
  here no_block w = false

  lan_inner :
      (rs : List TraversalAddress) (x : TraversalAddress)
      → contains (flat_map (λ y. lan_row x y) rs) (target s a b l r)
        ≡ here lan_block (x == l && contains rs r && same_subnet_24 l r)
  lan_inner [] x = ground arith
  lan_inner (y ∷ rs) x = ground (arith, lan_inner rs x)

  lan_member :
      (ls rs : List TraversalAddress)
      → contains (lan_candidates ls rs) (target s a b l r)
        ≡ here lan_block (contains ls l && contains rs r && same_subnet_24 l r)
  lan_member [] rs = ground arith
  lan_member (x ∷ ls) rs = ground (
    arith,
    contains-append (flat_map (λ y. lan_row x y) rs) (lan_candidates ls rs) (target s a b l r),
    lan_inner rs x,
    lan_member ls rs,
  )

  local_inner :
      (rs : List TraversalAddress) (x : TraversalAddress)
      → contains (flat_map (λ y. local_target x y ∷ []) rs) (target s a b l r)
        ≡ here local_block (x == l && contains rs r)
  local_inner [] x = ground arith
  local_inner (y ∷ rs) x = ground (arith, local_inner rs x)

  local_member :
      (ls rs : List TraversalAddress)
      → contains (local_candidates ls rs) (target s a b l r)
        ≡ here local_block (contains ls l && contains rs r)
  local_member [] rs = ground arith
  local_member (x ∷ ls) rs = ground (
    arith,
    contains-append (flat_map (λ y. local_target x y ∷ []) rs) (local_candidates ls rs)
        (target s a b l r),
    local_inner rs x,
    local_member ls rs,
  )

  reflexive_member :
      (lr rr : Option TraversalAddress)
      → contains (reflexive_candidates lr rr) (target s a b l r)
        ≡ here reflexive_block (holds lr l && holds rr r)
  reflexive_member (some x) (some y) = ground arith
  reflexive_member (some x) none = ground arith
  reflexive_member none rr = ground arith

  to_reflexive_member :
      (ls : List TraversalAddress) (rr : Option TraversalAddress)
      → contains (to_reflexive_candidates ls rr) (target s a b l r)
        ≡ here to_reflexive_block (contains ls l && holds rr r)
  to_reflexive_member ls none = ground arith
  to_reflexive_member [] (some y) = ground arith
  to_reflexive_member (x ∷ ls) (some y) = ground (arith, to_reflexive_member ls (some y))

  from_reflexive_member :
      (lr : Option TraversalAddress) (rs : List TraversalAddress)
      → contains (from_reflexive_candidates lr rs) (target s a b l r)
        ≡ here from_reflexive_block (holds lr l && contains rs r)
  from_reflexive_member none rs = ground arith
  from_reflexive_member (some x) [] = ground arith
  from_reflexive_member (some x) (y ∷ rs) = ground (arith, from_reflexive_member (some x) rs)

  candidates-wanted :
      (ls : List TraversalAddress) (lr : Option TraversalAddress) (rs : List TraversalAddress)
      (rr : Option TraversalAddress)
      → contains (candidates ls lr rs rr) (target s a b l r)
        ≡ wanted (block_of s a b) ls lr rs rr l r
  candidates-wanted ls lr rs rr =
      simp
        (
          contains-append, lan_member, reflexive_member, to_reflexive_member, from_reflexive_member,
          local_member,
        )
        (ground arith)

-- A plan holds the wanted targets and no others: pairs of local addresses on one /24 for the LAN, the two
-- reflexive addresses, a reflexive and a local address, and every pair of local addresses.
pub plan_punch_targets-wanted :
    (ls : List TraversalAddress) (lr : Option TraversalAddress) (rs : List TraversalAddress)
    (rr : Option TraversalAddress) (t : PlannedPunchTarget)
    → contains (plan_punch_targets ls lr rs rr) t
      ≡ wanted (block_of t.strategy t.local_source t.remote_source) ls lr rs rr t.local t.remote
plan_punch_targets-wanted ls lr rs rr t = rw (plan-push_all ls lr rs rr) (
    contains-push_all [] (candidates ls lr rs rr) t
    ∙ candidates-wanted t.strategy t.local_source t.remote_source t.local t.remote ls lr rs rr)
