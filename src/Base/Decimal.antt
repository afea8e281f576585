-- ===== src/Base/Decimal.antt =====
-- `to_string` and `parse::<u16>` of an unsigned integer.
use Prim.Native.Nat.{ℕ, zero, suc, ◌+◌, ◌-◌, ◌*◌, ◌/◌, ◌%◌, ◌^◌, ◌<◌}
use mathlib.Core.Path.{◌≡◌, refl, ◌∙◌}
use mathlib.Core.Bool.{Bool, true, false, ◌&&◌}
use mathlib.Core.Logic.{◌≢◌}
use mathlib.Core.List.{[], ◌∷◌}
use mathlib.Core.Option.{Option, none, some}
use native.Mathlib.Omega.{arith}
use fips_nostr_bootstrap.Base.Tests.{ltb, leb, ◌==◌, if◌then◌else◌, nat_eq}
use fips_nostr_bootstrap.Base.Texts.{Text}
use fips_nostr_bootstrap.Base.Unique.{All, contains}

-- The decimal digits of `n` in front of `rest`, for `n` below `10 ^ (fuel + 1)`.
unfoldable pub digits_onto : ℕ → ℕ → Text → Text
digits_onto zero n rest = (48 + n % 10) ∷ rest
digits_onto (suc fuel) n rest =
    let more = digits_onto fuel (n / 10) ((48 + n % 10) ∷ rest) in
    if ltb n 10 then (48 + n % 10) ∷ rest else more

-- `to_string` of a u8, a u16 or a u32: ten digits at most.
unfoldable pub decimal : ℕ → Text
unfolding digits_onto
decimal n = digits_onto 9 n []

abbrev pub is_digit : ℕ → Bool
is_digit c = leb 48 c && leb c 57

-- The loop of `u16::from_str_radix`, with its check for overflow.
unfoldable pub parse_digits : ℕ → Text → Option ℕ
parse_digits acc [] = some acc
parse_digits acc (c ∷ rest) =
    let more = parse_digits (acc * 10 + (c - 48)) rest in
    if is_digit c && leb (acc * 10 + (c - 48)) 65535 then more else none

-- `parse::<u16>()`: no digit is an error, and one `+` may stand in front.
unfoldable pub parse_u16 : Text → Option ℕ
unfolding parse_digits
parse_u16 [] = none
parse_u16 (c ∷ []) = if c == 43 then none else parse_digits 0 (c ∷ [])
parse_u16 (c ∷ d ∷ rest) =
    if c == 43 then parse_digits 0 (d ∷ rest) else parse_digits 0 (c ∷ d ∷ rest)

pub parse_digits-lt :
    (acc : ℕ) (s : Text) (n : ℕ) → acc < 65536 → parse_digits acc s ≡ some n → n < 65536
unfolding parse_digits
parse_digits-lt acc [] n h e = ground arith
parse_digits-lt acc (c ∷ rest) n h e = ground (arith, parse_digits-lt (acc * 10 + (c - 48)) rest n)

pub parse_u16-lt : (s : Text) (n : ℕ) → parse_u16 s ≡ some n → n < 65536
unfolding parse_u16
parse_u16-lt [] n e = cc
parse_u16-lt (c ∷ []) n e = ground (arith, parse_digits-lt 0 (c ∷ []) n)
parse_u16-lt (c ∷ d ∷ rest) n e =
    ground (arith, parse_digits-lt 0 (d ∷ rest) n, parse_digits-lt 0 (c ∷ d ∷ rest) n)

parse_digits_step :
    (acc d : ℕ) (rest : Text)
    → d < 10
    → acc * 10 + d < 65536
    → parse_digits acc ((48 + d) ∷ rest) ≡ parse_digits (acc * 10 + d) rest
unfolding parse_digits
parse_digits_step acc d rest h k = let e : 48 + d - 48 ≡ d = omega arith in rw e (ground arith)

parse_digits-digits_onto :
    (fuel n : ℕ) (rest : Text)
    → n < 10 ^ suc fuel
    → n < 65536
    → parse_digits 0 (digits_onto fuel n rest) ≡ parse_digits n rest
unfolding digits_onto
parse_digits-digits_onto zero n rest h k = ground (arith, parse_digits_step 0 (n % 10) rest)
parse_digits-digits_onto (suc fuel) n rest h k = ground (
  arith,
  parse_digits_step 0 (n % 10) rest,
  parse_digits_step (n / 10) (n % 10) rest,
  parse_digits-digits_onto fuel (n / 10) ((48 + n % 10) ∷ rest),
)

parse_digits-decimal : (n : ℕ) → n < 65536 → parse_digits 0 (decimal n) ≡ some n
unfolding decimal
parse_digits-decimal n h =
    parse_digits-digits_onto 9 n [] (omega arith) h ∙ unfold parse_digits in refl

-- Every element is a digit.
abbrev pub AllDigits : Text → Type 0
AllDigits = All (λ c. is_digit c ≡ true)

digits_onto-AllDigits :
    (fuel n : ℕ) (rest : Text) → AllDigits rest → AllDigits (digits_onto fuel n rest)
unfolding digits_onto
digits_onto-AllDigits zero n rest h = ground arith
digits_onto-AllDigits (suc fuel) n rest h =
    ground (arith, digits_onto-AllDigits fuel (n / 10) ((48 + n % 10) ∷ rest))

pub decimal-AllDigits : (n : ℕ) → AllDigits (decimal n)
unfolding decimal
decimal-AllDigits n = digits_onto-AllDigits 9 n [] tt

digits_onto-ne-nil : (fuel n : ℕ) (rest : Text) → digits_onto fuel n rest ≢ []
unfolding digits_onto
digits_onto-ne-nil zero n rest e = cc
digits_onto-ne-nil (suc fuel) n rest e =
    ground (arith, digits_onto-ne-nil fuel (n / 10) ((48 + n % 10) ∷ rest))

pub decimal-ne-nil : (n : ℕ) → decimal n ≢ []
unfolding decimal
decimal-ne-nil n = digits_onto-ne-nil 9 n []

pub parse_u16-AllDigits : (s : Text) → s ≢ [] → AllDigits s → parse_u16 s ≡ parse_digits 0 s
unfolding parse_u16
parse_u16-AllDigits [] h d = absurd (h refl)
parse_u16-AllDigits (c ∷ []) h d = ground arith
parse_u16-AllDigits (c ∷ e ∷ rest) h d = ground arith

-- A u16 is read back from its decimal form.
pub parse_u16-decimal : (n : ℕ) → n < 65536 → parse_u16 (decimal n) ≡ some n
parse_u16-decimal n h =
    parse_u16-AllDigits (decimal n) (decimal-ne-nil n) (decimal-AllDigits n)
    ∙ parse_digits-decimal n h

-- No byte that is no digit stands among digits.
pub contains-AllDigits :
    (s : Text) (c : ℕ) → is_digit c ≡ false → AllDigits s → contains s c ≡ false
contains-AllDigits [] c h d = refl
contains-AllDigits (x ∷ s) c h d = ground (arith, contains-AllDigits s c h d.1)
