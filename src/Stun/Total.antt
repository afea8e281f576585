-- ===== src/Stun/Total.antt =====
-- The parser of STUN responses ends on every datagram, and never reads out of range.
use fips_nostr_bootstrap.Base.{
  ℕ, zero, suc, ◌+◌, ◌-◌, ◌%◌, ◌≤◌, ◌<◌, ◌≡◌, refl, min, ltb, leb, ◌==◌, nat_eq, text_eq, not,
  if◌then◌else◌, Bool, true, false, Bool-cases, inl, inr, Option, none, some, List, length,
  from_be16, from_be32, Run, done, ◌>>=◌, slice, index, Returns, Returns-bind, Returns-done,
  Returns-slice, Returns-index, arith,
}
use fips_nostr_bootstrap.Schema.{LegacyEndpoint}
use fips_nostr_bootstrap.Stun.{
  parse_mapped_address, parse_xor_mapped_address, ◌>>=?◌, parse_attribute, attributes_loop,
  parse_stun_binding_success, stun_attr_xor_mapped_address, stun_attr_mapped_address,
  stun_binding_success, stun_magic_cookie,
}

Returns-? {ℓ κ} :
    {A : Type ℓ} {B : Type κ} (o : Option A) (f : A → Run (Option B))
    → ((a : A) → Returns (f a))
    → Returns (o >>=? f)
Returns-? none f h = tt
Returns-? (some a) f h = h a

Returns-if {ℓ} :
    {A : Type ℓ} (b : Bool) (m n : Run A)
    → (b ≡ true → Returns m)
    → (b ≡ false → Returns n)
    → Returns (if b then m else n)
Returns-if true m n h k = h refl
Returns-if false m n h k = k refl

-- Reading the eight bytes of an address.
module _ (value : List ℕ) (long : 8 ≤ length value) where
  read_at :
      {A : Type 0} (i : ℕ) (f : ℕ → Run A)
      → i < 8
      → ((b : ℕ) → Returns (f b))
      → Returns (index value i >>= f)
  read_at i f h k =
      Returns-bind (index value i) f (Returns-index value i (omega arith)) (λ b _. k b)

Returns-parse_mapped_address : (value : List ℕ) → Returns (parse_mapped_address value)
unfolding parse_mapped_address
Returns-parse_mapped_address value =
    Returns-if (ltb (length value) 8) _ _ (λ _. tt)
      λ e.
        let long : 8 ≤ length value = ground arith in
        read_at value long 1 _ (omega arith) λ family.
          Returns-if (not (family == 0x01)) _ _ (λ _. tt)
            λ _. read_at value long 4 _ (omega arith) λ a. read_at value long 5 _ (omega arith) λ b.
              read_at value long 6 _ (omega arith) λ c. read_at value long 7 _ (omega arith) λ d.
                read_at value long 2 _ (omega arith)
                  λ hi. read_at value long 3 _ (omega arith) λ lo. tt

Returns-parse_xor_mapped_address : (value : List ℕ) → Returns (parse_xor_mapped_address value)
unfolding parse_xor_mapped_address
Returns-parse_xor_mapped_address value =
    Returns-if (ltb (length value) 8) _ _ (λ _. tt)
      λ e.
        let long : 8 ≤ length value = ground arith in
        read_at value long 1 _ (omega arith) λ family.
          Returns-if (not (family == 0x01)) _ _ (λ _. tt)
            λ _. read_at value long 4 _ (omega arith) λ a. read_at value long 5 _ (omega arith) λ b.
              read_at value long 6 _ (omega arith) λ c. read_at value long 7 _ (omega arith) λ d.
                read_at value long 2 _ (omega arith)
                  λ hi. read_at value long 3 _ (omega arith) λ lo. tt

Returns-parse_attribute : (t : ℕ) (value : List ℕ) → Returns (parse_attribute t value)
unfolding parse_attribute
Returns-parse_attribute t value =
    Returns-if (t == stun_attr_xor_mapped_address) _ _ (λ _. Returns-parse_xor_mapped_address value)
      λ _.
        Returns-if (t == stun_attr_mapped_address) _ _ (λ _. Returns-parse_mapped_address value)
          (λ _. tt)

module _ (packet : List ℕ) where
  read_slice :
      {A : Type 0} (lo hi : ℕ) (f : List ℕ → Run A)
      → lo ≤ hi
      → hi ≤ length packet
      → ((b : List ℕ) → Returns (f b))
      → Returns (slice packet lo hi >>= f)
  read_slice lo hi f p q k =
      Returns-bind (slice packet lo hi) f (Returns-slice packet lo hi p q) (λ b _. k b)

  -- What a round does with a value, for any way to go on.
  value_read :
      (attr_type lo hi : ℕ) (rest : Run (Option LegacyEndpoint))
      → lo ≤ hi
      → Returns rest
      → Returns (elim (ltb (length packet) hi) [
        | true ↦ done none
        | false ↦ slice packet lo hi >>= λ value. parse_attribute attr_type value >>= λ parsed.
            elim parsed [ some endpoint ↦ done (some endpoint) | none ↦ rest ]
      ])
  value_read attr_type lo hi rest order ih = elim (Bool-cases (ltb (length packet) hi)) [
    | inl outside ↦ rw outside tt
    | inr inside ↦ rw inside (
        read_slice lo hi _ order (ground arith) λ value.
          Returns-bind (parse_attribute attr_type value) _ (Returns-parse_attribute attr_type value)
            λ parsed _. last parsed)
  ]
    where
      last :
          (parsed : Option LegacyEndpoint)
          → Returns (elim parsed [ some endpoint ↦ done (some endpoint) | none ↦ rest ])
      last (some endpoint) = tt
      last none = ih

module _ (packet : List ℕ) (max_offset : ℕ) (inside : max_offset ≤ length packet) where
  Returns-attributes_loop :
      (fuel offset : ℕ)
      → 1 ≤ fuel
      → max_offset < fuel + offset
      → Returns (attributes_loop packet max_offset fuel offset)
  unfolding attributes_loop
  Returns-attributes_loop zero offset one h = absurd (omega arith)
  Returns-attributes_loop (suc fuel) offset one h =
      elim (Bool-cases (leb (offset + 4) max_offset)) [
        | inr end ↦ rw (end, attributes_loop) tt
        | inl more ↦
            rw (more, attributes_loop)
              (read_slice packet offset (offset + 2) _ (omega arith) (ground arith) λ type_bytes.
                Returns-? (from_be16 type_bytes) _ λ attr_type.
                  read_slice packet (offset + 2) (offset + 4) _ (omega arith) (ground arith)
                    λ length_bytes. Returns-? (from_be16 length_bytes) _ λ attr_len.
                      value_read packet attr_type (offset + 4) (offset + 4 + attr_len) _
                        (omega arith)
                        (Returns-attributes_loop fuel
                          (offset + 4 + attr_len + (4 - attr_len % 4) % 4) (ground arith)
                          (ground arith)))
      ]

Returns-parse_stun_binding_success :
    (packet txn_id : List ℕ) → Returns (parse_stun_binding_success packet txn_id)
unfolding parse_stun_binding_success
Returns-parse_stun_binding_success packet txn_id =
    Returns-if (ltb (length packet) 20) _ _ (λ _. tt)
      λ e.
        let long : 20 ≤ length packet = ground arith in
        read_slice packet 0 2 _ (omega arith) (omega arith) λ type_bytes.
          Returns-? (from_be16 type_bytes) _ λ message_type.
            Returns-if (not (message_type == stun_binding_success)) _ _ (λ _. tt)
              λ _. read_slice packet 4 8 _ (omega arith) (omega arith) λ cookie_bytes.
                Returns-? (from_be32 cookie_bytes) _ λ cookie.
                  Returns-if (not (cookie == stun_magic_cookie)) _ _ (λ _. tt)
                    λ _. read_slice packet 8 20 _ (omega arith) (omega arith) λ answered.
                      Returns-if (not (answered == txn_id)) _ _ (λ _. tt)
                        λ _. read_slice packet 2 4 _ (omega arith) (omega arith) λ length_bytes.
                          Returns-? (from_be16 length_bytes) _ λ message_length.
                            Returns-attributes_loop packet
                              (min (length packet) (20 + message_length)) (omega arith)
                              (suc (length packet)) 20 (omega arith) (omega arith)

-- On every datagram and transaction id the parser returns: no index or slice is out of range, and
-- the loop over the attributes ends.
pub parse_stun_binding_success_returns :
    (packet txn_id : List ℕ)
    → (r : Option LegacyEndpoint) × (parse_stun_binding_success packet txn_id ≡ done r)
parse_stun_binding_success_returns packet txn_id =
    Returns-done _ (Returns-parse_stun_binding_success packet txn_id)
