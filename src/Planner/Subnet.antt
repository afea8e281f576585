-- ===== src/Planner/Subnet.antt =====
-- What `same_subnet_24` and `split` of rust/fips-nostr-rendezvous/src/lib.rs decide, and with it which
-- targets stand in a plan.
use fips_nostr_bootstrap.Base.{
  ℕ, ◌≡◌, ◌↔◌, inl, inr, refl, sym, ap, ◌∙◌, ◌==◌, ==_iff, nat_eq, texts_eq, ℕ_discrete,
  Texts-discrete, ◌&&◌, Bool, true, false, Bool-cases, Option, List, [], ◌∷◌, ◌++◌, Text, contains,
  length, take, All, arith,
}
use fips_nostr_bootstrap.Schema.{TraversalAddress, traversal_address_eq}
use fips_nostr_bootstrap.Planner.{
  PlannedPunchTarget, planned_punch_target_eq, split, onto_first, same_subnet_24,
  plan_punch_targets,
}
use fips_nostr_bootstrap.Planner.Membership.{
  Block, lan_block, reflexive_block, to_reflexive_block, from_reflexive_block, local_block,
  no_block, block_of, holds, wanted, plan_punch_targets-wanted,
}

-- Two texts of four parts with dots between them, whose first three parts are the same.
pub record OnOne24 (left right : Text) : Type 0 where
  pub a : Text
  pub b : Text
  pub c : Text
  pub x : Text
  pub y : Text
  pub undotted : All (λ part. contains part b'.' ≡ false) (a ∷ b ∷ c ∷ x ∷ y ∷ [])
  pub left_is : left ≡ a ++ (b'.' ∷ (b ++ (b'.' ∷ (c ++ (b'.' ∷ x)))))
  pub right_is : right ≡ a ++ (b'.' ∷ (b ++ (b'.' ∷ (c ++ (b'.' ∷ y)))))

abbrev join : ℕ → List Text → Text
join d [] = []
join d (p ∷ []) = p
join d (p ∷ q ∷ ps) = p ++ (d ∷ join d (q ∷ ps))

join-onto_first : (d x : ℕ) (parts : List Text) → join d (onto_first x parts) ≡ x ∷ join d parts
join-onto_first d x [] = refl
join-onto_first d x (p ∷ []) = refl
join-onto_first d x (p ∷ q ∷ ps) = refl

onto_first-cons :
    (x : ℕ) (parts : List Text) → (p : Text) × (ps : List Text) × (onto_first x parts ≡ p ∷ ps)
onto_first-cons x [] = (x ∷ [], [], refl)
onto_first-cons x (p ∷ ps) = (x ∷ p, ps, refl)

split-cons : (d : ℕ) (s : Text) → (p : Text) × (ps : List Text) × (split d s ≡ p ∷ ps)
unfolding split
split-cons d [] = ([], [], refl)
split-cons d (x ∷ s) = elim (Bool-cases (x == d)) [
  | inl dot ↦ rw dot ([], split d s, refl)
  | inr other ↦ rw other (onto_first-cons x (split d s))
]

join-split : (d : ℕ) (s : Text) → join d (split d s) ≡ s
unfolding split
join-split d [] = refl
join-split d (x ∷ s) = elim (Bool-cases (x == d)) [
  | inl dot ↦
      let (p, ps, e) = split-cons d s in
      let after : d ∷ join d (p ∷ ps) ≡ x ∷ s =
        ap (λ t. d ∷ t) (ap (join d) (sym e) ∙ join-split d s)
        ∙ ap (λ y. y ∷ s) (sym ((==_iff x d).0 dot)) in
      rw (dot, e) after
  | inr other ↦ rw other (join-onto_first d x (split d s) ∙ ap (λ t. x ∷ t) (join-split d s))
]

abbrev Undotted : ℕ → List Text → Type 0
Undotted d = All (λ part. contains part d ≡ false)

onto_first-Undotted :
    (d x : ℕ) (parts : List Text)
    → (x == d) ≡ false
    → Undotted d parts
    → Undotted d (onto_first x parts)
onto_first-Undotted d x [] h all = (ground (arith, h), tt)
onto_first-Undotted d x (p ∷ ps) h all = (ground (arith, h, all.0), all.1)

split-Undotted : (d : ℕ) (s : Text) → Undotted d (split d s)
unfolding split
split-Undotted d [] = (refl, tt)
split-Undotted d (x ∷ s) = elim (Bool-cases (x == d)) [
  | inl dot ↦ rw dot (refl, split-Undotted d s)
  | inr other ↦ rw other (onto_first-Undotted d x (split d s) other (split-Undotted d s))
]

split-last : (d : ℕ) (p : Text) → contains p d ≡ false → split d p ≡ p ∷ []
unfolding split
split-last d [] h = refl
split-last d (x ∷ p) h =
    let other : (x == d) ≡ false = ground arith in
    let rest : contains p d ≡ false = ground arith in rw (other, split-last d p rest) refl

split-part :
    (d : ℕ) (p rest : Text) → contains p d ≡ false → split d (p ++ (d ∷ rest)) ≡ p ∷ split d rest
unfolding split
split-part d [] rest h = let same = (==_iff d d).1 refl in rw same refl
split-part d (x ∷ p) rest h =
    let other : (x == d) ≡ false = ground arith in
    let later : contains p d ≡ false = ground arith in rw (other, split-part d p rest later) refl

four :
    (parts : List Text)
    → length parts ≡ 4
    → (a : Text) × (b : Text) × (c : Text) × (x : Text) × (parts ≡ a ∷ b ∷ c ∷ x ∷ [])
four [] h = cc
four (a ∷ []) h = absurd (omega (arith, h))
four (a ∷ b ∷ []) h = absurd (omega (arith, h))
four (a ∷ b ∷ c ∷ []) h = absurd (omega (arith, h))
four (a ∷ b ∷ c ∷ x ∷ []) h = (a, b, c, x, refl)
four (a ∷ b ∷ c ∷ x ∷ y ∷ ps) h = absurd (omega (arith, h))

OnOne24-of_split :
    (l r a b c x a' b' c' y : Text)
    → split b'.' l ≡ a ∷ b ∷ c ∷ x ∷ []
    → split b'.' r ≡ a' ∷ b' ∷ c' ∷ y ∷ []
    → a ∷ b ∷ c ∷ [] ≡ a' ∷ b' ∷ c' ∷ []
    → OnOne24 l r
OnOne24-of_split l r a b c x a' b' c' y el er same =
    let left_parts = rw el at (split-Undotted b'.' l) in
    let right_parts = rw er at (split-Undotted b'.' r) in
    let (da, (db, (dc, (dx, end)))) = left_parts in
    let (da', (db', (dc', (dy, end')))) = right_parts in
    record {
      a = a;
      b = b;
      c = c;
      x = x;
      y = y;
      undotted = (da, (db, (dc, (dx, (dy, tt)))));
      left_is = sym (join-split b'.' l) ∙ ap (join b'.') el;
      right_is =
          sym (join-split b'.' r) ∙ ap (join b'.') (er ∙ ap (λ ps. ps ++ (y ∷ [])) (sym same));
    }

split-four :
    (s a b c x : Text)
    → s ≡ a ++ (b'.' ∷ (b ++ (b'.' ∷ (c ++ (b'.' ∷ x)))))
    → Undotted b'.' (a ∷ b ∷ c ∷ x ∷ [])
    → split b'.' s ≡ a ∷ b ∷ c ∷ x ∷ []
split-four s a b c x e (da, (db, (dc, (dx, end)))) =
    ap (split b'.') e
    ∙ split-part b'.' a (b ++ (b'.' ∷ (c ++ (b'.' ∷ x)))) da
    ∙ ap (λ ps. a ∷ ps)
        (split-part b'.' b (c ++ (b'.' ∷ x)) db
          ∙ ap (λ ps. b ∷ ps) (split-part b'.' c x dc ∙ ap (λ ps. c ∷ ps) (split-last b'.' x dx)))

same_subnet_24_iff :
    (left right : TraversalAddress) → (same_subnet_24 left right ≡ true) ↔ OnOne24 left.ip right.ip
unfolding same_subnet_24 ℕ_discrete Texts-discrete
same_subnet_24_iff left right = (
  λ h.
      let (a, b, c, x, el) =
        four (split b'.' left.ip) ((==_iff (length (split b'.' left.ip)) 4).0 (ground arith)) in
      let (a', b', c', y, er) =
        four (split b'.' right.ip) ((==_iff (length (split b'.' right.ip)) 4).0 (ground arith)) in
      let same : take 3 (split b'.' left.ip) ≡ take 3 (split b'.' right.ip) =
        (==_iff (take 3 (split b'.' left.ip)) (take 3 (split b'.' right.ip))).0 (ground arith) in
      OnOne24-of_split left.ip right.ip a b c x a' b' c' y el er (rw (el, er) at same),
  λ v.
      let (da, (db, (dc, (dx, (dy, end))))) = v.undotted in
      let el = split-four left.ip v.a v.b v.c v.x v.left_is (da, (db, (dc, (dx, tt)))) in
      let er = split-four right.ip v.a v.b v.c v.y v.right_is (da, (db, (dc, (dy, tt)))) in
      let same = (==_iff (v.a ∷ v.b ∷ v.c ∷ []) (v.a ∷ v.b ∷ v.c ∷ [])).1 refl in rw (el, er) same,
)

-- What the addresses of a target must be for its block to plan it.
abbrev pub IsWanted :
    Block
    → List TraversalAddress
    → Option TraversalAddress
    → List TraversalAddress
    → Option TraversalAddress
    → TraversalAddress
    → TraversalAddress
    → Type 0
IsWanted lan_block ls lr rs rr l r =
    (contains ls l ≡ true) × (contains rs r ≡ true) × OnOne24 l.ip r.ip
IsWanted reflexive_block ls lr rs rr l r = (holds lr l ≡ true) × (holds rr r ≡ true)
IsWanted to_reflexive_block ls lr rs rr l r = (contains ls l ≡ true) × (holds rr r ≡ true)
IsWanted from_reflexive_block ls lr rs rr l r = (holds lr l ≡ true) × (contains rs r ≡ true)
IsWanted local_block ls lr rs rr l r = (contains ls l ≡ true) × (contains rs r ≡ true)
IsWanted no_block ls lr rs rr l r = ⊥

both_iff : (a b : Bool) → ((a && b) ≡ true) ↔ ((a ≡ true) × (b ≡ true))
both_iff a b = (λ h. (ground arith, ground arith), λ (h, k). ground arith)

wanted_iff :
    (block : Block) (ls : List TraversalAddress) (lr : Option TraversalAddress)
    (rs : List TraversalAddress) (rr : Option TraversalAddress) (l r : TraversalAddress)
    → (wanted block ls lr rs rr l r ≡ true) ↔ IsWanted block ls lr rs rr l r
wanted_iff lan_block ls lr rs rr l r = (
  λ h. (ground arith, ground arith, (same_subnet_24_iff l r).0 (ground arith)),
  λ (p, q, v). let near = (same_subnet_24_iff l r).1 v in ground arith,
)
wanted_iff reflexive_block ls lr rs rr l r = both_iff (holds lr l) (holds rr r)
wanted_iff to_reflexive_block ls lr rs rr l r = both_iff (contains ls l) (holds rr r)
wanted_iff from_reflexive_block ls lr rs rr l r = both_iff (holds lr l) (contains rs r)
wanted_iff local_block ls lr rs rr l r = both_iff (contains ls l) (contains rs r)
wanted_iff no_block ls lr rs rr l r = (λ h. cc, λ h. elim h [ ])

-- A plan holds exactly the wanted targets: pairs of local addresses on one /24 for the LAN, that is, of
-- four dotted parts of which the first three are the same; the two reflexive addresses; a reflexive
-- and a local address; and every pair of local addresses.
pub plan_punch_targets-IsWanted :
    (ls : List TraversalAddress) (lr : Option TraversalAddress) (rs : List TraversalAddress)
    (rr : Option TraversalAddress) (t : PlannedPunchTarget)
    → (contains (plan_punch_targets ls lr rs rr) t ≡ true)
      ↔ IsWanted (block_of t.strategy t.local_source t.remote_source) ls lr rs rr t.local t.remote
plan_punch_targets-IsWanted ls lr rs rr t =
    rw (plan_punch_targets-wanted ls lr rs rr t)
      (wanted_iff (block_of t.strategy t.local_source t.remote_source) ls lr rs rr t.local t.remote)
