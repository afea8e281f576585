-- ===== src/Relays/Preference.antt =====
-- Which relays a message goes to, and in which order.
use mathlib.Core.List.{Memᴰ, append-nil, append_assoc}
use fips_nostr_bootstrap.Base.{
  ◌≤◌, ◌≡◌, ◌≢◌, ◌⊎◌, inl, inr, refl, sym, ◌∙◌, leb, Bool-cases, Option, some, List, [], ◌∷◌, ◌++◌,
  Text, text_eq, contains, Distinct, push_all, push_unique, push_all-Distinct, contains-append,
  push_all-append, for_each, arith, All, ap, not, ◌==◌, ==_iff, true, none, Bool, false,
}
use fips_nostr_bootstrap.Adverts.{filter}
use fips_nostr_bootstrap.Schema.{TraversalAdvert}
use fips_nostr_bootstrap.Relays.{
  InboxEvent, newer_event, find_recipient_inbox_relays, advert_relays, preferred_dm_relays,
}

-- An event of the list that no other one is newer than.
abbrev pub IsNewest : List InboxEvent → InboxEvent → Type 0
IsNewest events e = Memᴰ e events × All (λ f. f.created_at ≤ e.created_at) events

IsNewest-after :
    (c : InboxEvent) (events : List InboxEvent)
    → (e : InboxEvent) × (for_each newer_event (some c) events ≡ some e) × IsNewest (c ∷ events) e
IsNewest-after c [] = (c, refl, (Memᴰ.head refl, (omega arith, tt)))
IsNewest-after c (d ∷ events) = elim (Bool-cases (leb c.created_at d.created_at)) [
  | inl later ↦
      let (e, found, (there, all)) = IsNewest-after d events in
      let newer : c.created_at ≤ e.created_at = ground (arith, all.0) in
      rw later (e, found, (Memᴰ.tail there, (newer, all)))
  | inr earlier ↦
      let (e, found, (there, all)) = IsNewest-after c events in
      let newer : d.created_at ≤ e.created_at = ground (arith, all.0) in
      rw earlier (
        e,
        found,
        (
          elim there [ Memᴰ.head same ↦ Memᴰ.head same | Memᴰ.tail t ↦ Memᴰ.tail (Memᴰ.tail t) ],
          (all.0, (newer, all.1)),
        ),
      )
]

-- The relays of the newest inbox event, if it names any; the default ones if it does not or there is
-- no event.
pub find_recipient_inbox_relays-IsNewest :
    (dm_relays : List Text) (events : List InboxEvent)
    → ((e : InboxEvent) × IsNewest events e
        × (e.relay_list ≢ [])
        × (find_recipient_inbox_relays dm_relays (some events) ≡ e.relay_list))
      ⊎ ((find_recipient_inbox_relays dm_relays (some events) ≡ dm_relays)
          × ((events ≡ []) ⊎ ((e : InboxEvent) × IsNewest events e × (e.relay_list ≡ []))))
unfolding find_recipient_inbox_relays
find_recipient_inbox_relays-IsNewest dm [] = inr (refl, inl refl)
find_recipient_inbox_relays-IsNewest dm (c ∷ events) =
    let (e, found, newest) = IsNewest-after c events in
    elim (relays_some e.relay_list) [
      | inl empty ↦ inr (rw (found, empty) refl, inr (e, newest, empty))
      | inr (r, rs, full) ↦ inl (e, newest, (λ none_left. cc), rw (found, full) refl)
    ]
  where
    relays_some : (rs : List Text) → (rs ≡ []) ⊎ ((x : Text) × (xs : List Text) × (rs ≡ x ∷ xs))
    relays_some [] = inl refl
    relays_some (x ∷ xs) = inr (x, xs, refl)

-- The relays of the newest inbox event that was fetched, if it names any; else the default ones.
abbrev pub IsInbox : List Text → Option (List InboxEvent) → List Text → Type 0
IsInbox dm_relays none inbox = inbox ≡ dm_relays
IsInbox dm_relays (some events) inbox =
    ((e : InboxEvent) × IsNewest events e × (e.relay_list ≢ []) × (inbox ≡ e.relay_list))
    ⊎ ((inbox ≡ dm_relays)
        × ((events ≡ []) ⊎ ((e : InboxEvent) × IsNewest events e × (e.relay_list ≡ []))))

find_recipient_inbox_relays-IsInbox :
    (dm_relays : List Text) (fetched : Option (List InboxEvent))
    → IsInbox dm_relays fetched (find_recipient_inbox_relays dm_relays fetched)
unfolding find_recipient_inbox_relays
find_recipient_inbox_relays-IsInbox dm none = refl
find_recipient_inbox_relays-IsInbox dm (some events) =
    find_recipient_inbox_relays-IsNewest dm events

abbrev pub named_by : Option TraversalAdvert → List Text
named_by none = []
named_by (some advert) = advert.relays

-- The first occurrence of each text, in the order of the list.
abbrev pub firsts : List Text → List Text
firsts [] = []
firsts (x ∷ xs) = x ∷ filter (λ y. not (x == y)) (firsts xs)

abbrev minus : List Text → List Text → List Text
minus old = filter (λ y. not (contains old y))

filter-keeps :
    (p : Text → Bool) (x : Text) (xs : List Text) → p x ≡ true → filter p (x ∷ xs) ≡ x ∷ filter p xs
unfolding filter
filter-keeps p x xs h = rw h refl

filter-drops :
    (p : Text → Bool) (x : Text) (xs : List Text) → p x ≡ false → filter p (x ∷ xs) ≡ filter p xs
unfolding filter
filter-drops p x xs h = rw h refl

minus-known :
    (old : List Text) (x : Text)
    → contains old x ≡ true
    → (ys : List Text) → minus old (filter (λ y. not (x == y)) ys) ≡ minus old ys
minus-known old x known [] = unfold filter in refl
minus-known old x known (y ∷ ys) = elim (Bool-cases (x == y)) [
  | inl same ↦
      let there : contains old y ≡ true = ap (contains old) (sym ((==_iff x y).0 same)) ∙ known in
      ap (minus old) (filter-drops _ y ys (ap not same))
      ∙ minus-known old x known ys
      ∙ sym (filter-drops _ y ys (ap not there))
  | inr other ↦
      let rest = filter (λ z. not (x == z)) ys in
      ap (minus old) (filter-keeps _ y ys (ap not other)) ∙ elim (Bool-cases (contains old y)) [
        | inl there ↦
            filter-drops _ y rest (ap not there)
            ∙ minus-known old x known ys
            ∙ sym (filter-drops _ y ys (ap not there))
        | inr new ↦
            filter-keeps _ y rest (ap not new)
            ∙ ap (λ zs. y ∷ zs) (minus-known old x known ys)
            ∙ sym (filter-keeps _ y ys (ap not new))
      ]
]

minus-one_more :
    (old : List Text) (x : Text) (ys : List Text)
    → minus (old ++ (x ∷ [])) ys ≡ minus old (filter (λ y. not (x == y)) ys)
minus-one_more old x [] = unfold filter in refl
minus-one_more old x (y ∷ ys) =
    let rest = filter (λ z. not (x == z)) ys in
    elim (Bool-cases (x == y)) [
      | inl same ↦
          let there : contains (old ++ (x ∷ [])) y ≡ true =
            ground (arith, contains-append old (x ∷ []) y) in
          filter-drops _ y ys (ap not there)
          ∙ minus-one_more old x ys
          ∙ sym (ap (minus old) (filter-drops _ y ys (ap not same)))
      | inr other ↦ elim (Bool-cases (contains old y)) [
        | inl known ↦
            let there : contains (old ++ (x ∷ [])) y ≡ true =
              ground (arith, contains-append old (x ∷ []) y) in
            filter-drops _ y ys (ap not there)
            ∙ minus-one_more old x ys
            ∙ sym (
                ap (minus old) (filter-keeps _ y ys (ap not other))
                ∙ filter-drops _ y rest (ap not known))
        | inr new ↦
            let absent : contains (old ++ (x ∷ [])) y ≡ false =
              ground (arith, contains-append old (x ∷ []) y) in
            filter-keeps _ y ys (ap not absent)
            ∙ ap (λ zs. y ∷ zs) (minus-one_more old x ys)
            ∙ sym (
                ap (minus old) (filter-keeps _ y ys (ap not other))
                ∙ filter-keeps _ y rest (ap not new))
      ]
    ]

push_all-firsts : (old xs : List Text) → push_all old xs ≡ old ++ minus old (firsts xs)
unfolding push_all push_unique
push_all-firsts old [] = unfold filter in sym (append-nil old)
push_all-firsts old (x ∷ xs) =
    let rest = filter (λ y. not (x == y)) (firsts xs) in
    elim (Bool-cases (contains old x)) [
      | inl known ↦ rw known (
          push_all-firsts old xs
          ∙ ap (λ zs. old ++ zs)
              (sym (filter-drops _ x rest (ap not known) ∙ minus-known old x known (firsts xs))))
      | inr new ↦ rw new (
          push_all-firsts (old ++ (x ∷ [])) xs
          ∙ append_assoc old (x ∷ []) (minus (old ++ (x ∷ [])) (firsts xs))
          ∙ ap (λ zs. old ++ zs)
              (sym (
                filter-keeps _ x rest (ap not new)
                ∙ ap (λ zs. x ∷ zs) (sym (minus-one_more old x (firsts xs))))))
    ]

minus-nil : (ys : List Text) → minus [] ys ≡ ys
unfolding filter
minus-nil [] = refl
minus-nil (y ∷ ys) = ap (λ zs. y ∷ zs) (minus-nil ys)

advert_relays-eq : (advert : Option TraversalAdvert) → advert_relays advert ≡ named_by advert
advert_relays-eq none = refl
advert_relays-eq (some advert) = refl

-- A message goes to the relays of the recipient's newest inbox event if it was fetched and names any,
-- to the default ones if not; then to those of the advert, and then to the default ones: in this order,
-- to no other, and to none twice.
pub preferred_dm_relays-Distinct :
    (dm_relays : List Text) (fetched : Option (List InboxEvent)) (advert : Option TraversalAdvert)
    → (inbox : List Text) × IsInbox dm_relays fetched inbox
      × (preferred_dm_relays dm_relays fetched advert
          ≡ firsts (inbox ++ (named_by advert ++ dm_relays)))
      × Distinct (preferred_dm_relays dm_relays fetched advert)
unfolding preferred_dm_relays
preferred_dm_relays-Distinct dm fetched advert =
    let inbox : List Text = find_recipient_inbox_relays dm fetched in
    let first : List Text = push_all [] inbox in
    (
      inbox,
      find_recipient_inbox_relays-IsInbox dm fetched,
      rw (advert_relays-eq advert) (
          ap (λ xs. push_all xs dm) (sym (push_all-append [] inbox (named_by advert)))
          ∙ sym (push_all-append [] (inbox ++ named_by advert) dm)
          ∙ push_all-firsts [] ((inbox ++ named_by advert) ++ dm)
          ∙ minus-nil (firsts ((inbox ++ named_by advert) ++ dm))
          ∙ ap firsts (append_assoc inbox (named_by advert) dm)),
      push_all-Distinct (push_all first (advert_relays advert)) dm
          (push_all-Distinct first (advert_relays advert) (push_all-Distinct [] inbox tt)),
    )
