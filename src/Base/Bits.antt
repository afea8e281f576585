-- ===== src/Base/Bits.antt =====
-- Facts about `^` on bytes and u16s, each a table that is checked by evaluation.
use Prim.Native.Nat.{ℕ, zero, suc, ◌<◌, bit_xor}
use mathlib.Core.Path.{◌≡◌, refl}
use mathlib.Core.Bool.{Bool, true, false, ◌&&◌}
use native.Mathlib.Omega.{arith}
use fips_nostr_bootstrap.Base.Tests.{ltb, ◌==◌, nat_eq}
use native.Mathlib.Decide.{ℕ_discrete}

module _ (mask bound : ℕ) where
  -- Masking twice gives the number back, and does not leave the range.
  abbrev masks_well : ℕ → Bool
  masks_well x = bit_xor (bit_xor x mask) mask == x && ltb (bit_xor x mask) bound

  all_below : ℕ → Bool
  unfolding ℕ_discrete
  all_below zero = true
  all_below (suc n) = elim (masks_well n) [ true ↦ all_below n | false ↦ false ]

  masked_below :
      (n : ℕ)
      → all_below n ≡ true
      → (x : ℕ) → x < n
      → (bit_xor (bit_xor x mask) mask ≡ x) × (bit_xor x mask < bound)
  unfolding all_below
  masked_below zero e x h = absurd (omega arith)
  masked_below (suc n) e x h = ground (arith, masked_below n (ground arith) x)

table16 : all_below 0x2112 65536 65536 ≡ true
unfolding all_below
table16 = refl

-- The port mask of STUN.
pub port_mask :
    (x : ℕ) → x < 65536 → (bit_xor (bit_xor x 0x2112) 0x2112 ≡ x) × (bit_xor x 0x2112 < 65536)
port_mask = masked_below 0x2112 65536 65536 table16

module _ (mask : ℕ) (table : all_below mask 256 256 ≡ true) where
  byte_mask : (x : ℕ) → x < 256 → bit_xor (bit_xor x mask) mask ≡ x
  byte_mask x h = (masked_below mask 256 256 table x h).0

-- The four bytes of the magic cookie.
pub byte_mask0 : (x : ℕ) → x < 256 → bit_xor (bit_xor x 0x21) 0x21 ≡ x
unfolding all_below
byte_mask0 = byte_mask 0x21 refl

pub byte_mask1 : (x : ℕ) → x < 256 → bit_xor (bit_xor x 0x12) 0x12 ≡ x
unfolding all_below
byte_mask1 = byte_mask 0x12 refl

pub byte_mask2 : (x : ℕ) → x < 256 → bit_xor (bit_xor x 0xa4) 0xa4 ≡ x
unfolding all_below
byte_mask2 = byte_mask 0xa4 refl

pub byte_mask3 : (x : ℕ) → x < 256 → bit_xor (bit_xor x 0x42) 0x42 ≡ x
unfolding all_below
byte_mask3 = byte_mask 0x42 refl
