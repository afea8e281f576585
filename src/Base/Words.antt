-- ===== src/Base/Words.antt =====
-- Big-endian integers, slices and fixed arrays. `take`, `drop` and `length` are those of `Lists`.
use Prim.Native.Nat.{ℕ, zero, suc, ◌+◌, ◌-◌, ◌*◌, ◌/◌, ◌%◌, ◌^◌, ◌≤◌, ◌<◌}
use mathlib.Core.Path.{◌≡◌, refl, ap, ◌∙◌}
use mathlib.Core.Bool.{◌&&◌}
use mathlib.Core.List.{List, [], ◌∷◌, ◌++◌}
use mathlib.Core.Option.{Option, none, some}
use native.Mathlib.Omega.{arith}
use fips_nostr_bootstrap.Base.Tests.{leb, if◌then◌else◌}
use fips_nostr_bootstrap.Base.Lists.{
  length, take, drop, length-append, length-take, length-drop, take-append_left, drop-append_left,
}

abbrev pub u16_mod : ℕ
u16_mod = 2 ^ 16

abbrev pub u64_mod : ℕ
u64_mod = 2 ^ 64

-- Release builds wrap: `a + b` on u64.
abbrev pub add64 : ℕ → ℕ → ℕ
add64 a b = (a + b) % u64_mod

-- `u64::saturating_sub`, and subtraction where the source tests the order first.
abbrev pub saturating_sub : ℕ → ℕ → ℕ
saturating_sub a b = a - b

-- `to_be_bytes` of a u16 and of a u32.
abbrev pub be16 : ℕ → List ℕ
be16 n = (n / 256 % 256) ∷ (n % 256) ∷ []

abbrev pub be32 : ℕ → List ℕ
be32 n = (n / 16777216 % 256) ∷ (n / 65536 % 256) ∷ (n / 256 % 256) ∷ (n % 256) ∷ []

-- `from_be_bytes(slice.try_into()…)`: `none` where the slice has another length.
abbrev pub from_be16 : List ℕ → Option ℕ
from_be16 (a ∷ b ∷ []) = some (a * 256 + b)
from_be16 _ = none

abbrev pub from_be32 : List ℕ → Option ℕ
from_be32 (a ∷ b ∷ c ∷ d ∷ []) = some (a * 16777216 + b * 65536 + c * 256 + d)
from_be32 _ = none

-- `array[at..].copy_from_slice(src)` on the range of the length of `src`.
abbrev pub copy_at : List ℕ → ℕ → List ℕ → List ℕ
copy_at array at src = take at array ++ src ++ drop (at + length src) array

pub from_be16-be16 : (n : ℕ) → n < u16_mod → from_be16 (be16 n) ≡ some n
from_be16-be16 n h = ap some (omega arith)

pub from_be32-be32 : (n : ℕ) → n < 2 ^ 32 → from_be32 (be32 n) ≡ some n
from_be32-be32 n h = ap some (omega arith)

-- A run of Rust code: `panicked` is an index or slice out of range, `stuck` a loop that used up its
-- fuel in the model.
pub data Run {ℓ} (A : Type ℓ) : Type ℓ where
  done : A → Run A
  panicked stuck : Run A

infixl 5 ◌>>=◌
abbrev pub ◌>>=◌ {ℓ κ} : {A : Type ℓ} {B : Type κ} → Run A → (A → Run B) → Run B
done a >>= f = f a
panicked >>= f = panicked
stuck >>= f = stuck

-- `xs[lo..hi]`
unfoldable pub slice : List ℕ → ℕ → ℕ → Run (List ℕ)
slice xs lo hi =
    if leb lo hi && leb hi (length xs) then done (take (hi - lo) (drop lo xs)) else panicked

-- `xs[i]`
unfoldable pub index {ℓ} : {A : Type ℓ} → List A → ℕ → Run A
index [] i = panicked
index (x ∷ xs) zero = done x
index (x ∷ xs) (suc i) = index xs i

pub slice-done :
    (xs : List ℕ) (lo hi : ℕ)
    → lo ≤ hi
    → hi ≤ length xs
    → slice xs lo hi ≡ done (take (hi - lo) (drop lo xs))
unfolding slice
slice-done xs lo hi p q = ground arith

pub length-slice :
    (xs : List ℕ) (lo hi : ℕ)
    → lo ≤ hi
    → hi ≤ length xs
    → length (take (hi - lo) (drop lo xs)) ≡ hi - lo
length-slice xs lo hi p q = omega (arith, length-take (hi - lo) (drop lo xs), length-drop lo xs)

-- The run ends with a value: it neither panics nor uses up its fuel.
abbrev pub Returns {ℓ} : {A : Type ℓ} → Run A → Type 0
Returns (done a) = Unit {0}
Returns panicked = ⊥
Returns stuck = ⊥

pub Returns-bind {ℓ κ} :
    {A : Type ℓ} {B : Type κ} (m : Run A) (f : A → Run B)
    → Returns m
    → ((a : A) → m ≡ done a → Returns (f a))
    → Returns (m >>= f)
Returns-bind (done a) f r h = h a refl
Returns-bind panicked f r h = r
Returns-bind stuck f r h = r

pub Returns-done {ℓ} : {A : Type ℓ} (m : Run A) → Returns m → (a : A) × (m ≡ done a)
Returns-done (done a) r = (a, refl)
Returns-done panicked r = absurd r
Returns-done stuck r = absurd r

pub Returns-slice : (xs : List ℕ) (lo hi : ℕ) → lo ≤ hi → hi ≤ length xs → Returns (slice xs lo hi)
Returns-slice xs lo hi p q = rw (slice-done xs lo hi p q) tt

pub Returns-index {ℓ} : {A : Type ℓ} (xs : List A) (i : ℕ) → i < length xs → Returns (index xs i)
unfolding index
Returns-index [] i h = elim h [ ]
Returns-index (x ∷ xs) zero h = tt
Returns-index (x ∷ xs) (suc i) h = Returns-index xs i (omega arith)

-- A slice of what stands between two parts.
pub slice-middle :
    (before middle after : List ℕ) (lo hi : ℕ)
    → length before ≡ lo
    → lo + length middle ≡ hi
    → slice (before ++ (middle ++ after)) lo hi ≡ done middle
slice-middle before middle after lo hi p q =
    slice-done _ lo hi (omega arith)
      (omega (arith, length-append before (middle ++ after), length-append middle after))
    ∙ ap done (
        ap (take (hi - lo)) (drop-append_left before (middle ++ after) lo p)
        ∙ take-append_left middle after (hi - lo) (omega arith))
