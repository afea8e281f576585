-- ===== src/Stun/Response.antt =====
-- A STUN server's answer is read back: RFC 5389's layout, written out, against the parser.
use mathlib.Core.List.{append_assoc}
use fips_nostr_bootstrap.Base.{
  ℕ, suc, ◌+◌, ◌-◌, ◌*◌, ◌/◌, ◌%◌, ◌≤◌, ◌<◌, ◌≡◌, refl, sym, subst, ap, ltb, leb, nat_eq, text_eq,
  Bool, true, false, Option, none, some, List, [], ◌∷◌, ◌++◌, length, length-append,
  length-replicate, replicate, be16, bit_xor, Run, done, panicked, stuck, ◌>>=◌, slice,
  slice-middle, index, arith, u16_mod,
}
use fips_nostr_bootstrap.Base.Bits.{port_mask, byte_mask0, byte_mask1, byte_mask2, byte_mask3}
use fips_nostr_bootstrap.Schema.{LegacyEndpoint}
use fips_nostr_bootstrap.Stun.{
  ipv4_text, parse_mapped_address, parse_xor_mapped_address, parse_attribute, attributes_loop,
}

-- Type, length, value, and padding to a multiple of four.
abbrev pub padding : ℕ → List ℕ
padding n = replicate ((4 - n % 4) % 4) 0

unfoldable pub attribute : ℕ → List ℕ → List ℕ
attribute attr_type value =
    be16 attr_type ++ (be16 (length value) ++ (value ++ padding (length value)))

-- The values of the two address attributes, for an IPv4 address.
abbrev pub mapped_value : ℕ → ℕ → ℕ → ℕ → ℕ → List ℕ
mapped_value a b c d port = 0 ∷ 1 ∷ (port / 256) ∷ (port % 256) ∷ a ∷ b ∷ c ∷ d ∷ []

abbrev pub xor_mapped_value : ℕ → ℕ → ℕ → ℕ → ℕ → List ℕ
xor_mapped_value a b c d port =
    mapped_value (bit_xor a 0x21) (bit_xor b 0x12) (bit_xor c 0xa4) (bit_xor d 0x42)
      (bit_xor port 0x2112)

pub parse_mapped_address-value :
    (a b c d port : ℕ)
    → parse_mapped_address (mapped_value a b c d port)
      ≡ done (some (record { host = ipv4_text a b c d; port = port }))
unfolding parse_mapped_address index
parse_mapped_address-value a b c d port = ground arith

pub parse_xor_mapped_address-value :
    (a b c d port : ℕ)
    → a < 256
    → b < 256
    → c < 256
    → d < 256
    → port < 65536
    → parse_xor_mapped_address (xor_mapped_value a b c d port)
      ≡ done (some (record { host = ipv4_text a b c d; port = port }))
unfolding parse_xor_mapped_address index
parse_xor_mapped_address-value a b c d port ha hb hc hd hp =
    ground
      (arith, byte_mask0 a ha, byte_mask1 b hb, byte_mask2 c hc, byte_mask3 d hd, port_mask port hp)

unfoldable pub after_parse :
    (packet : List ℕ) (max_offset fuel next : ℕ)
    → Option LegacyEndpoint
    → Run (Option LegacyEndpoint)
after_parse packet max_offset fuel next (some endpoint) = done (some endpoint)
after_parse packet max_offset fuel next none = attributes_loop packet max_offset fuel next

pub length-attribute :
    (t : ℕ) (v : List ℕ) → length (attribute t v) ≡ 4 + length v + (4 - length v % 4) % 4
unfolding attribute
length-attribute t v = omega (
  arith,
  length-append v (padding (length v)),
  length-replicate {A = ℕ} ((4 - length v % 4) % 4) 0,
)

-- The parts of an attribute, as slices of a packet that holds it.
module _ (packet before after : List ℕ) (offset t : ℕ) (v : List ℕ) (start : length before ≡ offset)
    (shape : packet ≡ before ++ (attribute t v ++ after)) where
  slice_type : slice packet offset (offset + 2) ≡ done (be16 t)
  unfolding attribute
  slice_type = rw shape (
      slice-middle before (be16 t) (be16 (length v) ++ ((v ++ padding (length v)) ++ after)) offset
        (offset + 2) start (omega arith))

  slice-length : slice packet (offset + 2) (offset + 4) ≡ done (be16 (length v))
  unfolding attribute
  slice-length =
      rw
        (
          shape,
          ← append_assoc before (be16 t) (be16 (length v) ++ ((v ++ padding (length v)) ++ after)),
        )
        (slice-middle (before ++ be16 t) (be16 (length v)) ((v ++ padding (length v)) ++ after)
          (offset + 2) (offset + 4) (omega (arith, length-append before (be16 t))) (omega arith))

  slice_value : slice packet (offset + 4) (offset + 4 + length v) ≡ done v
  unfolding attribute
  slice_value =
      let head : List ℕ = be16 t ++ be16 (length v) in
      rw
        (
          shape,
          append_assoc v (padding (length v)) after,
          ← append_assoc before head (v ++ (padding (length v) ++ after)),
        )
        (slice-middle (before ++ head) v (padding (length v) ++ after) (offset + 4)
          (offset + 4 + length v) (omega (arith, length-append before head)) refl)

  value_inside : ltb (length packet) (offset + 4 + length v) ≡ false
  value_inside = ground (
    arith,
    ap length shape,
    length-append before (attribute t v ++ after),
    length-append (attribute t v) after,
    length-attribute t v,
  )

pub be16_value : (n : ℕ) → n < u16_mod → n / 256 % 256 * 256 + n % 256 ≡ n
be16_value n h = omega arith

after_parse-elim :
    (packet : List ℕ) (max_offset fuel next : ℕ) (m : Run (Option LegacyEndpoint))
    → (m >>= λ parsed. elim parsed [
      | some endpoint ↦ done (some endpoint)
      | none ↦ attributes_loop packet max_offset fuel next
    ])
      ≡ (m >>= after_parse packet max_offset fuel next)
unfolding after_parse
after_parse-elim packet max_offset fuel next (done (some e)) = refl
after_parse-elim packet max_offset fuel next (done none) = refl
after_parse-elim packet max_offset fuel next panicked = refl
after_parse-elim packet max_offset fuel next stuck = refl

module _ (packet : List ℕ) (max_offset : ℕ) where
  -- One round at an attribute.
  pub attributes_loop_step :
      (fuel offset t : ℕ) (v before after : List ℕ)
      → t < u16_mod
      → length v < u16_mod
      → length before ≡ offset
      → packet ≡ before ++ (attribute t v ++ after)
      → offset + 4 ≤ max_offset
      → attributes_loop packet max_offset (suc fuel) offset ≡ (
          parse_attribute t v
          >>= after_parse packet max_offset fuel (offset + 4 + length v + (4 - length v % 4) % 4))
  unfolding attributes_loop
  attributes_loop_step fuel offset t v before after ht hv start shape room =
      let enough : leb (offset + 4) max_offset ≡ true = ground arith in
      rw
        (
          enough,
          attributes_loop,
          slice_type packet before after offset t v start shape,
          slice-length packet before after offset t v start shape,
          be16_value (length v) hv,
        )
        (subst
          (λ (b : Bool).
            (elim b [
              | true ↦ done none
              | false ↦ slice packet (offset + 4) (offset + 4 + length v) >>= λ value.
                  parse_attribute (t / 256 % 256 * 256 + t % 256) value >>= λ parsed. elim parsed [
                    | some endpoint ↦ done (some endpoint)
                    | none ↦
                        attributes_loop packet max_offset fuel
                          (offset + 4 + length v + (4 - length v % 4) % 4)
                  ]
            ])
            ≡ (parse_attribute t v
                >>= after_parse packet max_offset fuel
                    (offset + 4 + length v + (4 - length v % 4) % 4)))
          (sym (value_inside packet before after offset t v start shape))
          (rw (slice_value packet before after offset t v start shape, be16_value t ht)
            (after_parse-elim packet max_offset fuel _ (parse_attribute t v))))
