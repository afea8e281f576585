-- ===== src/Stun/RoundTrip.antt =====
-- The whole response of a STUN server: header, attributes that the daemon does not know, and the
-- address.
use mathlib.Core.List.{append_assoc}
use fips_nostr_bootstrap.Base.{
  ℕ, suc, ◌+◌, ◌-◌, ◌%◌, ◌≤◌, ◌<◌, ◌≡◌, ◌≢◌, refl, sym, ap, ◌∙◌, min, ltb, ==_refl, ℕ_discrete,
  nat_eq, text_eq, false, none, some, List, [], ◌∷◌, ◌++◌, All, length, length-append, be16, be32,
  done, slice, slice-middle, arith, u16_mod,
}
use fips_nostr_bootstrap.Schema.{LegacyEndpoint}
use fips_nostr_bootstrap.Stun.{
  stun_binding_success, stun_magic_cookie, stun_attr_mapped_address, stun_attr_xor_mapped_address,
  ipv4_text, parse_attribute, attributes_loop, parse_stun_binding_success,
}
use fips_nostr_bootstrap.Stun.Response.{
  attribute, length-attribute, after_parse, attributes_loop_step, xor_mapped_value, mapped_value,
  be16_value, parse_xor_mapped_address-value, parse_mapped_address-value,
}

abbrev pub attributes : List (ℕ × List ℕ) → List ℕ
attributes [] = []
attributes ((t, v) ∷ rest) = attribute t v ++ attributes rest

-- Attributes that are neither of the two address attributes.
abbrev pub Unknown : List (ℕ × List ℕ) → Type 0
Unknown = All λ (p : ℕ × List ℕ).
    (p.0 < u16_mod)
    × (length p.1 < u16_mod)
    × (p.0 ≢ stun_attr_mapped_address)
    × (p.0 ≢ stun_attr_xor_mapped_address)

parse_attribute_unknown :
    (t : ℕ) (v : List ℕ)
    → t ≢ stun_attr_mapped_address
    → t ≢ stun_attr_xor_mapped_address
    → parse_attribute t v ≡ done none
unfolding parse_attribute
parse_attribute_unknown t v h k = ground arith

module _ (packet : List ℕ) (max_offset : ℕ) where
  skip-Unknown :
      (others : List (ℕ × List ℕ)) (fuel offset : ℕ) (before after : List ℕ)
      → Unknown others
      → length before ≡ offset
      → packet ≡ before ++ (attributes others ++ after)
      → offset + length (attributes others) ≤ max_offset
      → attributes_loop packet max_offset (fuel + length others) offset
        ≡ attributes_loop packet max_offset fuel (offset + length (attributes others))
  unfolding after_parse
  skip-Unknown [] fuel offset before after u start shape room =
      let a : fuel + 0 ≡ fuel = omega arith in
      let b : offset + 0 ≡ offset = omega arith in rw (a, b)
  skip-Unknown ((t, v) ∷ rest) fuel offset before after (known, u) start shape room =
      let next : ℕ = offset + 4 + length v + (4 - length v % 4) % 4 in
      let size : length (attributes ((t, v) ∷ rest))
          ≡ 4 + length v + (4 - length v % 4) % 4 + length (attributes rest) =
        omega (arith, length-append (attribute t v) (attributes rest), length-attribute t v) in
      let more : fuel + suc (length rest) ≡ suc (fuel + length rest) = omega arith in
      let there : next + length (attributes rest) ≡ offset + length (attributes ((t, v) ∷ rest)) =
        omega arith in
      rw (more, ← there)
        (attributes_loop_step packet max_offset (fuel + length rest) offset t v before
            (attributes rest ++ after) known.0 known.1 start
            (shape ∙ ap (λ x. before ++ x) (append_assoc (attribute t v) (attributes rest) after))
            (omega arith)
          ∙ rw (parse_attribute_unknown t v known.2 known.3) (
              skip-Unknown rest fuel next (before ++ attribute t v) after u
                (omega (arith, length-append before (attribute t v), length-attribute t v))
                (shape
                  ∙ ap (λ x. before ++ x) (append_assoc (attribute t v) (attributes rest) after)
                  ∙ sym (append_assoc before (attribute t v) (attributes rest ++ after)))
                (omega arith)))

-- A binding success response with this transaction id and these attributes.
unfoldable pub binding_success : List ℕ → List ℕ → List ℕ
binding_success txn_id attrs =
    be16 stun_binding_success
    ++ (be16 (length attrs) ++ (be32 stun_magic_cookie ++ (txn_id ++ attrs)))

module _ (txn_id attrs : List ℕ) (twelve : length txn_id ≡ 12) (fits : length attrs < u16_mod) where
  length-binding_success : length (binding_success txn_id attrs) ≡ 20 + length attrs
  unfolding binding_success
  length-binding_success = omega (arith, length-append txn_id attrs)

  slice_txn : slice (binding_success txn_id attrs) 8 20 ≡ done txn_id
  unfolding binding_success
  slice_txn =
      slice-middle (be16 stun_binding_success ++ (be16 (length attrs) ++ be32 stun_magic_cookie))
        txn_id attrs 8 20 refl (omega arith)

  slice_message_length : slice (binding_success txn_id attrs) 2 4 ≡ done (be16 (length attrs))
  unfolding binding_success
  slice_message_length =
      slice-middle (be16 stun_binding_success) (be16 (length attrs))
        (be32 stun_magic_cookie ++ (txn_id ++ attrs)) 2 4 refl refl

  slice_message_type : slice (binding_success txn_id attrs) 0 2 ≡ done (be16 stun_binding_success)
  unfolding binding_success
  slice_message_type = slice-middle [] (be16 stun_binding_success) _ 0 2 refl refl

  slice_cookie : slice (binding_success txn_id attrs) 4 8 ≡ done (be32 stun_magic_cookie)
  unfolding binding_success
  slice_cookie =
      slice-middle (be16 stun_binding_success ++ be16 (length attrs)) (be32 stun_magic_cookie)
        (txn_id ++ attrs) 4 8 refl refl

  -- The header is accepted, and the loop runs over all attributes.
  parse_stun_binding_success-header :
      parse_stun_binding_success (binding_success txn_id attrs) txn_id
      ≡ attributes_loop
          (binding_success txn_id attrs)
          (20 + length attrs)
          (suc (20 + length attrs))
          20
  unfolding parse_stun_binding_success ℕ_discrete
  parse_stun_binding_success-header =
      let long : ltb (length (binding_success txn_id attrs)) 20 ≡ false =
        ground (arith, length-binding_success) in
      let all : min (20 + length attrs) (20 + length attrs) ≡ 20 + length attrs = omega arith in
      rw
        (
          long,
          slice_message_type,
          slice_cookie,
          slice_txn,
          ==_refl txn_id,
          slice_message_length,
          be16_value (length attrs) fits,
          length-binding_success,
          all,
        )
        refl

Unknown-length : (others : List (ℕ × List ℕ)) → length others ≤ length (attributes others)
Unknown-length [] = omega arith
Unknown-length ((t, v) ∷ rest) = omega (
  arith,
  length-append (attribute t v) (attributes rest),
  length-attribute t v,
  Unknown-length rest,
)

-- The first address attribute behind unknown ones decides.
address_found :
    (txn_id : List ℕ) (others : List (ℕ × List ℕ)) (t : ℕ) (v tail : List ℕ) (e : LegacyEndpoint)
    → length txn_id ≡ 12
    → length (attributes others ++ (attribute t v ++ tail)) < u16_mod
    → Unknown others
    → t < u16_mod
    → length v < u16_mod
    → parse_attribute t v ≡ done (some e)
    → parse_stun_binding_success
        (binding_success txn_id (attributes others ++ (attribute t v ++ tail)))
        txn_id
      ≡ done (some e)
unfolding after_parse binding_success
address_found txn_id others t v tail e twelve fits u ht hv hit =
    let attrs : List ℕ = attributes others ++ (attribute t v ++ tail) in
    let packet : List ℕ = binding_success txn_id attrs in
    let whole : length attrs ≡ length (attributes others) + (length (attribute t v) + length tail) =
      omega (
        arith,
        length-append (attributes others) (attribute t v ++ tail),
        length-append (attribute t v) tail,
      ) in
    let k : ℕ = 20 + length attrs - length others in
    let fuel : suc (20 + length attrs) ≡ suc k + length others =
      omega (arith, Unknown-length others) in
    let head : List ℕ =
      be16 stun_binding_success ++ (be16 (length attrs) ++ (be32 stun_magic_cookie ++ txn_id)) in
    parse_stun_binding_success-header txn_id attrs twelve fits
    ∙ ap (λ f. attributes_loop packet (20 + length attrs) f 20) fuel
    ∙ skip-Unknown packet (20 + length attrs) others (suc k) 20 head (attribute t v ++ tail) u
        (omega arith) (unfold binding_success in refl) (omega arith)
    ∙ attributes_loop_step packet (20 + length attrs) k (20 + length (attributes others)) t v
        (head ++ attributes others) tail ht hv
        (omega (arith, length-append head (attributes others)))
        (sym (append_assoc head (attributes others) (attribute t v ++ tail)))
        (omega (arith, length-attribute t v))
    ∙ rw hit refl

module _ (txn_id : List ℕ) (others : List (ℕ × List ℕ)) (a b c d port : ℕ) (tail : List ℕ)
    (twelve : length txn_id ≡ 12) (ha : a < 256) (hb : b < 256) (hc : c < 256) (hd : d < 256)
    (hp : port < 65536) (u : Unknown others) where
  -- A response whose first known attribute is an XOR-MAPPED-ADDRESS of an IPv4 endpoint gives that
  -- endpoint, whatever unknown attributes stand before it and whatever follows, if the message fits
  -- its sixteen bits of length.
  pub parse_stun_binding_success-xor_mapped :
      length (
          attributes others
          ++ (attribute stun_attr_xor_mapped_address (xor_mapped_value a b c d port) ++ tail))
        < u16_mod
      → parse_stun_binding_success
          (binding_success txn_id (
            attributes others
            ++ (attribute stun_attr_xor_mapped_address (xor_mapped_value a b c d port) ++ tail)))
          txn_id
        ≡ done (some (record { host = ipv4_text a b c d; port = port }))
  unfolding parse_attribute ℕ_discrete
  parse_stun_binding_success-xor_mapped fits =
      address_found txn_id others stun_attr_xor_mapped_address (xor_mapped_value a b c d port) tail
        _ twelve fits u (omega arith) (omega arith)
        (parse_xor_mapped_address-value a b c d port ha hb hc hd hp)

  -- Likewise for a MAPPED-ADDRESS, which is not masked.
  pub parse_stun_binding_success-mapped :
      length (
          attributes others
          ++ (attribute stun_attr_mapped_address (mapped_value a b c d port) ++ tail))
        < u16_mod
      → parse_stun_binding_success
          (binding_success txn_id (
            attributes others
            ++ (attribute stun_attr_mapped_address (mapped_value a b c d port) ++ tail)))
          txn_id
        ≡ done (some (record { host = ipv4_text a b c d; port = port }))
  unfolding parse_attribute ℕ_discrete
  parse_stun_binding_success-mapped fits =
      address_found txn_id others stun_attr_mapped_address (mapped_value a b c d port) tail _ twelve
        fits u (omega arith) (omega arith) (parse_mapped_address-value a b c d port)
