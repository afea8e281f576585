-- ===== src/Server/Punches.antt =====
-- Which punches an offer starts.
use fips_nostr_bootstrap.Base.{
  ◌≡◌, ◌⊎◌, inl, inr, refl, text_eq, nat_eq, true, false, Bool-cases, Option, none, some, arith,
  List, [], ◌∷◌, Text, contains, Distinct,
}
use fips_nostr_bootstrap.Base.HashMap.{HashMap, insert}
use fips_nostr_bootstrap.Schema.{
  PunchHint, TraversalAddress, TraversalOffer, TraversalAnswer, LegacyEndpoint, LegacyPunch,
  legacy_endpoint_eq,
}
use fips_nostr_bootstrap.Traversal.{is_empty, is_none, create_traversal_answer}
use fips_nostr_bootstrap.Planner.Endpoints.{server_planned_remote_endpoints}
use fips_nostr_bootstrap.Planner.Endpoints.Coverage.{named, server_planned_remote_endpoints-named}
use fips_nostr_bootstrap.Server.{
  Serving, Moment, Effect, accepts, punch_hint, legacy_punch, answer_to, all_ip, start_punch_plan,
  handle_offer, answered, punches,
}

-- The window of a punch is the one that the answer announces.
abbrev pub Announced : TraversalAnswer → LegacyPunch → Type 0
Announced answer punch =
    (h : PunchHint) × (answer.punch ≡ some h)
    × (punch.start_at_ms ≡ h.start_at_ms)
    × (punch.interval_ms ≡ h.interval_ms)
    × (punch.duration_ms ≡ h.duration_ms)

-- The addresses that are planned for the offer.
abbrev pub planned : Serving → Moment → TraversalOffer → List LegacyEndpoint
planned env m offer =
    server_planned_remote_endpoints offer (answer_to env m offer).reflexive_address
      (answer_to env m offer).local_addresses

-- There is nothing to punch: the server has no address of its own, no address is planned, or one that is
-- planned has a host that is not an IP address.
abbrev pub CannotPunch : Serving → Moment → TraversalOffer → Type 0
CannotPunch env m offer =
    ((m.reflexive_address ≡ none) × (m.local_addresses ≡ []))
    ⊎ ((planned env m offer ≡ []) ⊎ (all_ip m.is_ip (planned env m offer) ≡ false))

-- What an offer may start, in its order: nothing, where the reply cannot be sent; the answer alone; or the
-- answer and one punch, of distinct addresses that the offer names, in the window of the answer.
pub data PunchesFor (env : Serving) (m : Moment) (offer : TraversalOffer) (effects : List Effect)
    : Type 0 where
  unsent : m.sends ≡ false → effects ≡ [] → PunchesFor env m offer effects
  answer_alone :
      m.sends ≡ true
      → CannotPunch env m offer
      → effects ≡ answered (answer_to env m offer) ∷ []
      → PunchesFor env m offer effects
  answer_and_punch :
      (remotes : List LegacyEndpoint) (punch : LegacyPunch)
      → m.sends ≡ true
      → effects ≡ answered (answer_to env m offer) ∷ punches offer.session_id remotes punch ∷ []
      → Distinct remotes
      → ((e : LegacyEndpoint)
          → contains remotes e ≡ true
          → contains (named offer.reflexive_address offer.local_addresses) e ≡ true)
      → Announced (answer_to env m offer) punch
      → PunchesFor env m offer effects

start_punch_plan-effects :
    (m : Moment) (handoffs : HashMap Text Text) (a : Effect) (session_id : Text)
    (remotes : List LegacyEndpoint) (punch : LegacyPunch)
    → let effects = (start_punch_plan m handoffs (a ∷ []) session_id remotes punch).effects in
      (((remotes ≡ []) ⊎ (all_ip m.is_ip remotes ≡ false)) × (effects ≡ a ∷ []))
      ⊎ (effects ≡ a ∷ punches session_id remotes punch ∷ [])
unfolding start_punch_plan
start_punch_plan-effects m handoffs a session_id remotes punch =
    elim (Bool-cases (is_empty remotes)) [
      | inl empty ↦ inl (inl (none_of remotes empty), simp empty refl)
      | inr full ↦ elim (Bool-cases (all_ip m.is_ip remotes)) [
        | inl good ↦ inr (simp (full, good) refl)
        | inr bad ↦ inl (inr bad, simp (full, bad) refl)
      ]
    ]
  where
    none_of : (remotes : List LegacyEndpoint) → is_empty remotes ≡ true → remotes ≡ []
    none_of [] e = refl
    none_of (x ∷ xs) e = cc

accepts-none :
    (m : Moment) → accepts m ≡ false → (m.reflexive_address ≡ none) × (m.local_addresses ≡ [])
accepts-none m h =
    (no_reflexive m.reflexive_address (ground arith), no_local m.local_addresses (ground arith))
  where
    no_reflexive : (o : Option TraversalAddress) → is_none o ≡ true → o ≡ none
    no_reflexive none e = refl
    no_reflexive (some x) e = cc

    no_local : (xs : List TraversalAddress) → is_empty xs ≡ true → xs ≡ []
    no_local [] e = refl
    no_local (x ∷ xs) e = cc

answer_to-Announced :
    (env : Serving) (m : Moment) (offer : TraversalOffer)
    → accepts m ≡ true
    → Announced (answer_to env m offer) (legacy_punch env m.now)
unfolding answer_to create_traversal_answer
answer_to-Announced env m offer takes = (punch_hint env m.now, simp takes refl, refl, refl, refl)

-- All that a live offer to the server starts, in this order: nothing if the reply cannot be sent; else
-- the answer, and after it one task that punches distinct addresses that the offer names, in the
-- session of the offer and in the window that the answer announces. The task is missing only where the
-- server has no address of its own, none is planned, or one that is planned is no IP address.
pub handle_offer-PunchesFor :
    (env : Serving) (m : Moment) (handoffs : HashMap Text Text) (offer : TraversalOffer)
    → PunchesFor env m offer (handle_offer env m handoffs offer).effects
unfolding handle_offer
handle_offer-PunchesFor env m handoffs offer = elim (Bool-cases m.sends) [
  | inr lost ↦ PunchesFor.unsent lost (simp lost refl)
  | inl sent ↦ elim (Bool-cases (accepts m)) [
    | inr declines ↦
        PunchesFor.answer_alone sent (inl (accepts-none m declines)) (simp (sent, declines) refl)
    | inl takes ↦
        let answer = answer_to env m offer in
        elim (start_punch_plan-effects m (insert handoffs offer.session_id offer.sender_npub)
          (answered answer) offer.session_id
          (server_planned_remote_endpoints offer answer.reflexive_address answer.local_addresses)
          (legacy_punch env m.now)) [
            | inl (why, alone) ↦ PunchesFor.answer_alone sent (inr why) (simp (sent, takes) alone)
            | inr both ↦
                let (distinct, names, some_left) =
                  server_planned_remote_endpoints-named offer answer.reflexive_address
                    answer.local_addresses in
                PunchesFor.answer_and_punch _ _ sent (simp (sent, takes) both) distinct names
                  (answer_to-Announced env m offer takes)
          ]
  ]
]
