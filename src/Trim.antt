-- ===== src/Trim.antt =====
-- `str::trim` on UTF-8: it takes off every character with Unicode's White_Space property.
use mathlib.Core.List.{reverse}
use fips_nostr_bootstrap.Base.{ℕ, zero, suc, Option, none, some, List, [], ◌∷◌, Text, length, map}
use fips_nostr_bootstrap.StunUrl.{strip_prefix}

-- The last bytes of U+2000 to U+200A, and of U+2028, U+2029 and U+202F.
abbrev general_punctuation : List ℕ
general_punctuation =
    0x80 ∷ 0x81 ∷ 0x82 ∷ 0x83 ∷ 0x84 ∷ 0x85 ∷ 0x86 ∷ 0x87 ∷ 0x88 ∷ 0x89 ∷ 0x8a ∷ 0xa8 ∷ 0xa9 ∷ 0xaf
    ∷ []

-- The encodings of the white space.
abbrev white_space : List Text
white_space =
    (9 ∷ [])
    ∷ (10 ∷ [])
    ∷ (11 ∷ [])
    ∷ (12 ∷ [])
    ∷ (13 ∷ [])
    ∷ (32 ∷ [])
    ∷ (0xc2 ∷ 0x85 ∷ [])
    ∷ (0xc2 ∷ 0xa0 ∷ [])
    ∷ (0xe1 ∷ 0x9a ∷ 0x80 ∷ [])
    ∷ (0xe2 ∷ 0x81 ∷ 0x9f ∷ [])
    ∷ (0xe3 ∷ 0x80 ∷ 0x80 ∷ [])
    ∷ map (λ last. 0xe2 ∷ 0x80 ∷ last ∷ []) general_punctuation

abbrev or_else {ℓ} : {A : Type ℓ} → Option A → Option A → Option A
or_else none other = other
or_else (some a) other = some a

unfoldable pub strip_one : List Text → Text → Option Text
strip_one [] s = none
strip_one (c ∷ chars) s = or_else (strip_prefix c s) (strip_one chars s)

-- On fuel: a character has one byte at least.
unfoldable pub strip_all : ℕ → List Text → Text → Text
unfolding strip_one
strip_all zero chars s = s
strip_all (suc fuel) chars s = elim (strip_one chars s) [
  | none ↦ s
  | some rest ↦ strip_all fuel chars rest
]

unfoldable pub trim_start : Text → Text
unfolding strip_all
trim_start s = strip_all (length s) white_space s

-- The end is the start of the reversed text, where the encodings are reversed.
unfoldable pub trim_end : Text → Text
unfolding strip_all
trim_end s = reverse (strip_all (length s) (map reverse white_space) (reverse s))

unfoldable pub trim : Text → Text
unfolding trim_start trim_end
trim s = trim_end (trim_start s)
