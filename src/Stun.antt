-- ===== src/Stun.antt =====
-- STUN binding requests and responses, as the daemons and servers read them (the functions are the
-- same in every binary; the lines are those of fips-video-daemon.rs).
pub mod Total
pub mod Response
pub mod RoundTrip
use fips_nostr_bootstrap.Base.{
  ℕ, zero, suc, ◌+◌, ◌-◌, ◌*◌, ◌%◌, ◌≡◌, ltb, leb, min, ◌==◌, nat_eq, text_eq, not, if◌then◌else◌,
  Bool, true, false, ◌||◌, Option, none, some, List, [], ◌∷◌, ◌++◌, Text, length, replicate, be16,
  be32, from_be16, from_be32, copy_at, bit_xor, Run, done, panicked, stuck, ◌>>=◌, slice, index,
}
use fips_nostr_bootstrap.Base.Decimal.{decimal}
use fips_nostr_bootstrap.Schema.{LegacyEndpoint}

abbrev pub stun_binding_request : ℕ
stun_binding_request = 0x0001

abbrev pub stun_binding_success : ℕ
stun_binding_success = 0x0101

abbrev pub stun_magic_cookie : ℕ
stun_magic_cookie = 0x2112_a442

abbrev pub stun_attr_mapped_address : ℕ
stun_attr_mapped_address = 0x0001

abbrev pub stun_attr_xor_mapped_address : ℕ
stun_attr_xor_mapped_address = 0x0020

unfoldable pub create_stun_binding_request : List ℕ → List ℕ
create_stun_binding_request txn_id =
    let packet : List ℕ = replicate 20 0 in
    let with_type : List ℕ = copy_at packet 0 (be16 stun_binding_request) in
    let with_length : List ℕ = copy_at with_type 2 (be16 0) in
    let with_cookie : List ℕ = copy_at with_length 4 (be32 stun_magic_cookie) in
    copy_at with_cookie 8 txn_id

-- `Ipv4Addr::to_string`
unfoldable pub ipv4_text : ℕ → ℕ → ℕ → ℕ → Text
ipv4_text a b c d = decimal a ++ (b'.' ∷ (decimal b ++ (b'.' ∷ (decimal c ++ (b'.' ∷ decimal d)))))

-- The test on `value[1]` is made only if the length allows it.
unfoldable pub parse_mapped_address : List ℕ → Run (Option LegacyEndpoint)
parse_mapped_address value = if ltb (length value) 8 then done none else do
  family ← index value 1
  if not (family == 0x01) then done none else do
    a ← index value 4
    b ← index value 5
    c ← index value 6
    d ← index value 7
    hi ← index value 2
    lo ← index value 3
    done (some (record { host = ipv4_text a b c d; port = hi * 256 + lo }))

unfoldable pub parse_xor_mapped_address : List ℕ → Run (Option LegacyEndpoint)
parse_xor_mapped_address value = if ltb (length value) 8 then done none else do
  family ← index value 1
  if not (family == 0x01) then done none else do
    a ← index value 4
    b ← index value 5
    c ← index value 6
    d ← index value 7
    hi ← index value 2
    lo ← index value 3
    done (
        some (record {
          host = ipv4_text (bit_xor a 0x21) (bit_xor b 0x12) (bit_xor c 0xa4) (bit_xor d 0x42);
          port = bit_xor (hi * 256 + lo) 0x2112;
        }))

-- The `?` of a function that returns an Option.
infixl 5 ◌>>=?◌
abbrev pub ◌>>=?◌ {ℓ κ} :
    {A : Type ℓ} {B : Type κ} → Option A → (A → Run (Option B)) → Run (Option B)
none >>=? f = done none
some a >>=? f = f a

unfoldable pub parse_attribute : ℕ → List ℕ → Run (Option LegacyEndpoint)
parse_attribute attr_type value =
    if attr_type == stun_attr_xor_mapped_address
    then parse_xor_mapped_address value
    else if attr_type == stun_attr_mapped_address
    then parse_mapped_address value
    else done none

module _ (packet : List ℕ) (max_offset : ℕ) where
  -- The `while` loop on fuel.
  unfoldable pub attributes_loop : ℕ → ℕ → Run (Option LegacyEndpoint)
  attributes_loop zero offset = stuck
  attributes_loop (suc fuel) offset = elim (leb (offset + 4) max_offset) [
    | false ↦ done none
    | true ↦ slice packet offset (offset + 2) >>= λ type_bytes.
        from_be16 type_bytes >>=? λ attr_type.
        slice packet (offset + 2) (offset + 4) >>= λ length_bytes.
        from_be16 length_bytes >>=? λ attr_len.
        let value_start = offset + 4 in
        let value_end = value_start + attr_len in
        elim (ltb (length packet) value_end) [
          | true ↦ done none
          | false ↦ slice packet value_start value_end >>= λ value.
              parse_attribute attr_type value >>= λ parsed. elim parsed [
                | some endpoint ↦ done (some endpoint)
                | none ↦ attributes_loop fuel (value_end + (4 - attr_len % 4) % 4)
              ]
        ]
  ]

-- Each round moves on by four bytes at least.
unfoldable pub parse_stun_binding_success : List ℕ → List ℕ → Run (Option LegacyEndpoint)
unfolding attributes_loop parse_attribute parse_mapped_address parse_xor_mapped_address
parse_stun_binding_success packet txn_id = if ltb (length packet) 20 then done none else do
  type_bytes ← slice packet 0 2
  from_be16 type_bytes >>=? λ message_type.
      if not (message_type == stun_binding_success) then done none else do
        cookie_bytes ← slice packet 4 8
        from_be32 cookie_bytes >>=? λ cookie.
            if not (cookie == stun_magic_cookie) then done none else do
              answered ← slice packet 8 20
              if not (answered == txn_id) then done none else do
                length_bytes ← slice packet 2 4
                from_be16 length_bytes >>=? λ message_length.
                    attributes_loop packet (min (length packet) (20 + message_length))
                      (suc (length packet)) 20
