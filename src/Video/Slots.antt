-- ===== src/Video/Slots.antt =====
-- The slots of an assembly, by the indices of the chunks that arrived.
use fips_nostr_bootstrap.Base.{
  ℕ, zero, suc, ◌+◌, ◌<◌, ◌≡◌, inl, inr, refl, ap, ◌∙◌, false, Bool-cases, Option, none, some, List,
  [], ◌∷◌, ◌++◌, length, set, replicate, get_elem?, arith, nat_eq, ℕ_discrete, if◌then◌else◌,
  ==_refl, ==_ne, contains,
}
use fips_nostr_bootstrap.Video.{FrameAssembly, frame_key_eq, concat_chunks}
use fips_nostr_bootstrap.Video.Assembly.{count_some, count_some-le}
use fips_nostr_bootstrap.Video.Chunks.{concat}

-- The slots when the chunks with an index in `seen` are there.
abbrev pub fill : ℕ → List ℕ → List (List ℕ) → List (Option (List ℕ))
fill k seen [] = []
fill k seen (c ∷ parts) = (if contains seen k then some c else none) ∷ fill (k + 1) seen parts

abbrev pub assembly_of : List (List ℕ) → List ℕ → FrameAssembly
assembly_of parts seen = record {
  total_chunks = length parts;
  chunks = fill 0 seen parts;
  received_chunks = length seen;
}

pub fill-replicate :
    (k : ℕ) (parts : List (List ℕ)) → fill k [] parts ≡ replicate (length parts) none
fill-replicate k [] = refl
fill-replicate k (c ∷ parts) = ap (λ xs. none ∷ xs) (fill-replicate (k + 1) parts)

pub length-fill :
    (k : ℕ) (seen : List ℕ) (parts : List (List ℕ)) → length (fill k seen parts) ≡ length parts
length-fill k seen [] = refl
length-fill k seen (c ∷ parts) = ap suc (length-fill (k + 1) seen parts)

pub get_elem?-fill :
    (k : ℕ) (seen : List ℕ) (parts : List (List ℕ)) (i : ℕ) (c : List ℕ)
    → get_elem? parts i ≡ some c
    → contains seen (k + i) ≡ false
    → get_elem? (fill k seen parts) i ≡ some none
get_elem?-fill k seen [] i c e h = cc
get_elem?-fill k seen (d ∷ parts) zero c e h =
    let here : k + 0 ≡ k = omega arith in rw (rw here at h) refl
get_elem?-fill k seen (d ∷ parts) (suc i) c e h =
    get_elem?-fill (k + 1) seen parts i c e (ap (contains seen) (omega arith) ∙ h)

-- An index below the first slot is not looked at.
fill-below :
    (k : ℕ) (i : ℕ) (seen : List ℕ) (parts : List (List ℕ))
    → i < k
    → fill k (i ∷ seen) parts ≡ fill k seen parts
unfolding ℕ_discrete
fill-below k i seen [] h = refl
fill-below k i seen (c ∷ parts) h =
    rw (==_ne i k (ground arith), fill-below (k + 1) i seen parts (omega arith)) refl

pub set-fill :
    (k : ℕ) (seen : List ℕ) (parts : List (List ℕ)) (i : ℕ) (c : List ℕ)
    → get_elem? parts i ≡ some c
    → set (fill k seen parts) i (some c) ≡ fill k ((k + i) ∷ seen) parts
set-fill k seen [] i c e = cc
set-fill k seen (d ∷ parts) zero c e =
    let here : k + 0 ≡ k = omega arith in
    let same : d ≡ c = cc in
    rw (here, fill-below (k + 1) k seen parts (omega arith), ==_refl k, same) refl
set-fill k seen (d ∷ parts) (suc i) c e =
    let there : k + suc i ≡ k + 1 + i = omega arith in
    rw (==_ne (k + suc i) k (ground arith), set-fill (k + 1) seen parts i c e, there) refl

-- As many filled slots as there are make the frame.
pub concat_chunks-fill :
    (k : ℕ) (seen : List ℕ) (parts : List (List ℕ))
    → count_some (fill k seen parts) ≡ length parts
    → concat_chunks (fill k seen parts) ≡ concat parts
concat_chunks-fill k seen [] h = refl
concat_chunks-fill k seen (c ∷ parts) h = elim (Bool-cases (contains seen k)) [
  | inl there ↦
      rw there
        (ap (λ xs. c ++ xs) (concat_chunks-fill (k + 1) seen parts (omega (arith, rw there at h))))
  | inr missing ↦ absurd (
      omega (
        arith,
        rw missing at h,
        count_some-le (fill (k + 1) seen parts),
        length-fill (k + 1) seen parts,
      ))
]
