-- ===== src/Planner/Endpoints/Coverage.antt =====
-- A side punches addresses that the other side named, each once, and all of them.
use fips_nostr_bootstrap.Base.{
  ◌≡◌, ◌≢◌, refl, sym, ◌∙◌, true, false, Option, none, some, List, [], ◌∷◌, contains, Distinct, All,
  All-of_contains, All-contains, contains-map, push_unique, push_all, push_all-Distinct,
  contains-push_all, for_each, text_eq, nat_eq, arith, map, Bool-cases, inl, inr,
}
use fips_nostr_bootstrap.Schema.{
  TraversalAddress, traversal_address_eq, TraversalOffer, TraversalAnswer, LegacyEndpoint,
  legacy_endpoint_eq,
}
use fips_nostr_bootstrap.Planner.{
  PlannedPunchTarget, planned_punch_target_eq, plan_punch_targets, to_reflexive_target,
  local_target,
}
use fips_nostr_bootstrap.Planner.Membership.{plan_punch_targets-wanted, Block, wanted}
use fips_nostr_bootstrap.Planner.Endpoints.{
  endpoint_from_traversal_address, has_endpoint, push_endpoint, or_selected, or_first,
  client_planned_remote_endpoints, server_planned_remote_endpoints,
  select_remote_endpoint_from_answer, select_remote_endpoint_from_offer,
}

abbrev remote_endpoint : PlannedPunchTarget → LegacyEndpoint
remote_endpoint t = endpoint_from_traversal_address t.remote

has_endpoint-contains :
    (rs : List LegacyEndpoint) (e : LegacyEndpoint) → has_endpoint rs e ≡ contains rs e
has_endpoint-contains [] e = refl
has_endpoint-contains (r ∷ rs) e = ground (arith, has_endpoint-contains rs e)

push_endpoint-push_unique :
    (rs : List LegacyEndpoint) (t : PlannedPunchTarget)
    → push_endpoint rs t ≡ push_unique rs (remote_endpoint t)
unfolding push_endpoint push_unique
push_endpoint-push_unique rs t = rw (has_endpoint-contains rs (remote_endpoint t))

endpoints-push_all :
    (rs : List LegacyEndpoint) (ts : List PlannedPunchTarget)
    → for_each push_endpoint rs ts ≡ push_all rs (map remote_endpoint ts)
unfolding push_all
endpoints-push_all rs [] = refl
endpoints-push_all rs (t ∷ ts) =
    rw (push_endpoint-push_unique rs t) (endpoints-push_all (push_unique rs (remote_endpoint t)) ts)

abbrev pub addresses : Option TraversalAddress → List TraversalAddress → List TraversalAddress
addresses none locals = locals
addresses (some a) locals = a ∷ locals

-- The endpoints that a side names: its reflexive address, if it has one, and its local ones.
abbrev pub named : Option TraversalAddress → List TraversalAddress → List LegacyEndpoint
named reflexive locals = map endpoint_from_traversal_address (addresses reflexive locals)

wanted-remote :
    (b : Block) (ls : List TraversalAddress) (lr : Option TraversalAddress)
    (rs : List TraversalAddress) (rr : Option TraversalAddress) (l r : TraversalAddress)
    → wanted b ls lr rs rr l r ≡ true
    → contains (addresses rr rs) r ≡ true
wanted-remote Block.lan_block ls lr rs none l r h = ground arith
wanted-remote _ ls lr rs none l r h = ground arith
wanted-remote _ ls lr rs (some x) l r h = ground arith

map-All {ℓ κ ι} :
    {A : Type ℓ} {B : Type κ} (P : B → Type ι) (f : A → B) (xs : List A)
    → All (λ a. P (f a)) xs
    → All P (map f xs)
map-All P f [] h = tt
map-All P f (x ∷ xs) h = (h.0, map-All P f xs h.1)

module _ (ls : List TraversalAddress) (lr : Option TraversalAddress) (rs : List TraversalAddress)
    (rr : Option TraversalAddress) where
  abbrev plan : List PlannedPunchTarget
  plan = plan_punch_targets ls lr rs rr

  planned-named : All (λ e. contains (named rr rs) e ≡ true) (map remote_endpoint plan)
  planned-named = map-All _ remote_endpoint plan (
      All-of_contains _ plan λ t m.
        contains-map endpoint_from_traversal_address (addresses rr rs) t.remote (
          wanted-remote _ ls lr rs rr t.local t.remote
            (sym (plan_punch_targets-wanted ls lr rs rr t) ∙ m)))

  planned-local :
      (l r : TraversalAddress)
      → contains ls l ≡ true
      → contains rs r ≡ true
      → contains plan (local_target l r) ≡ true
  planned-local l r p q = rw (plan_punch_targets-wanted ls lr rs rr (local_target l r), p, q)

  planned-reflexive :
      (l r : TraversalAddress)
      → contains ls l ≡ true
      → rr ≡ some r
      → contains plan (to_reflexive_target l r) ≡ true
  planned-reflexive l r p q =
      rw (plan_punch_targets-wanted ls lr rs rr (to_reflexive_target l r)) (ground arith)

  -- With a local address to punch from, every named address is punched.
  planned-address :
      (l r : TraversalAddress)
      → contains ls l ≡ true
      → contains (addresses rr rs) r ≡ true
      → contains (map remote_endpoint plan) (endpoint_from_traversal_address r) ≡ true
  planned-address l r p q = elim (Bool-cases (contains rs r)) [
    | inl here ↦ contains-map remote_endpoint plan (local_target l r) (planned-local l r p here)
    | inr gone ↦
        contains-map remote_endpoint plan (to_reflexive_target l r)
          (planned-reflexive l r p (only_reflexive rr q gone))
  ]
    where
      only_reflexive :
          (o : Option TraversalAddress)
          → contains (addresses o rs) r ≡ true
          → contains rs r ≡ false
          → o ≡ some r
      only_reflexive none m g = cc
      only_reflexive (some x) m g = ground arith

or_selected-contains :
    (xs : List LegacyEndpoint) (rr : Option TraversalAddress) (rs : List TraversalAddress)
    (e : LegacyEndpoint)
    → (contains xs e ≡ true → contains (named rr rs) e ≡ true)
    → contains (or_selected xs (or_first rr rs)) e ≡ true
    → contains (named rr rs) e ≡ true
or_selected-contains [] none [] e h m = cc
or_selected-contains [] none (a ∷ rs) e h m = ground arith
or_selected-contains [] (some a) rs e h m = ground arith
or_selected-contains (x ∷ xs) rr rs e h m = h m

or_selected-Distinct :
    (xs : List LegacyEndpoint) (o : Option LegacyEndpoint)
    → Distinct xs
    → Distinct (or_selected xs o)
or_selected-Distinct [] none d = tt
or_selected-Distinct [] (some e) d = (refl, tt)
or_selected-Distinct (x ∷ xs) o d = d

or_selected-member :
    (xs : List LegacyEndpoint) (o : Option LegacyEndpoint) (e : LegacyEndpoint)
    → contains xs e ≡ true
    → contains (or_selected xs o) e ≡ true
or_selected-member [] o e h = cc
or_selected-member (x ∷ xs) o e h = h

or_selected-ne-nil :
    (xs : List LegacyEndpoint) (rr : Option TraversalAddress) (rs : List TraversalAddress)
    → named rr rs ≢ []
    → or_selected xs (or_first rr rs) ≢ []
or_selected-ne-nil [] none [] h = h
or_selected-ne-nil [] none (a ∷ rs) h = λ e. cc
or_selected-ne-nil [] (some a) rs h = λ e. cc
or_selected-ne-nil (x ∷ xs) rr rs h = λ e. cc

-- The endpoints that a client punches for an answer are distinct, are named by the answer, and are
-- not none when the answer names any.
pub client_planned_remote_endpoints-named :
    (o : TraversalOffer) (a : TraversalAnswer)
    → Distinct (client_planned_remote_endpoints o a)
      × ((e : LegacyEndpoint)
          → contains (client_planned_remote_endpoints o a) e ≡ true
          → contains (named a.reflexive_address a.local_addresses) e ≡ true)
      × (named a.reflexive_address a.local_addresses ≢ []
          → client_planned_remote_endpoints o a ≢ [])
unfolding client_planned_remote_endpoints select_remote_endpoint_from_answer
client_planned_remote_endpoints-named o a = rw (endpoints-push_all [] _) (
  or_selected-Distinct _ _ (push_all-Distinct [] _ tt),
  λ e. or_selected-contains _ a.reflexive_address a.local_addresses e (λ m.
      All-contains _ _ e
        (planned-named o.local_addresses o.reflexive_address a.local_addresses a.reflexive_address)
        (sym (contains-push_all [] _ e) ∙ m)),
  or_selected-ne-nil _ a.reflexive_address a.local_addresses,
)

-- A client with a local address punches every address that the answer names.
client_planned_remote_endpoints_complete :
    (o : TraversalOffer) (a : TraversalAnswer) (l r : TraversalAddress)
    → contains o.local_addresses l ≡ true
    → contains (addresses a.reflexive_address a.local_addresses) r ≡ true
    → contains (client_planned_remote_endpoints o a) (endpoint_from_traversal_address r) ≡ true
unfolding client_planned_remote_endpoints
client_planned_remote_endpoints_complete o a l r p q = rw (endpoints-push_all [] _) (
    or_selected-member _ _ (endpoint_from_traversal_address r) (
      contains-push_all [] _ (endpoint_from_traversal_address r)
      ∙ planned-address o.local_addresses o.reflexive_address a.local_addresses a.reflexive_address
          l r p q))

-- The server's endpoints, likewise, are distinct and named by the offer.
pub server_planned_remote_endpoints-named :
    (o : TraversalOffer) (reflexive : Option TraversalAddress) (locals : List TraversalAddress)
    → Distinct (server_planned_remote_endpoints o reflexive locals)
      × ((e : LegacyEndpoint)
          → contains (server_planned_remote_endpoints o reflexive locals) e ≡ true
          → contains (named o.reflexive_address o.local_addresses) e ≡ true)
      × (named o.reflexive_address o.local_addresses ≢ []
          → server_planned_remote_endpoints o reflexive locals ≢ [])
unfolding server_planned_remote_endpoints select_remote_endpoint_from_offer
server_planned_remote_endpoints-named o reflexive locals = rw (endpoints-push_all [] _) (
  or_selected-Distinct _ _ (push_all-Distinct [] _ tt),
  λ e. or_selected-contains _ o.reflexive_address o.local_addresses e (λ m.
      All-contains _ _ e (planned-named locals reflexive o.local_addresses o.reflexive_address)
        (sym (contains-push_all [] _ e) ∙ m)),
  or_selected-ne-nil _ o.reflexive_address o.local_addresses,
)
