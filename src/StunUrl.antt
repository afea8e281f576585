-- ===== src/StunUrl.antt =====
-- `parse_stun_url` of rust/fips-nostr-rendezvous/src/lib.rs, with the methods of `str` that it calls.
pub mod RoundTrip
pub mod Errors
use fips_nostr_bootstrap.Base.{
  ℕ, ◌==◌, nat_eq, if◌then◌else◌, Option, none, some, List, [], ◌∷◌, Text, text,
}
use fips_nostr_bootstrap.Base.Decimal.{parse_u16}
use fips_nostr_bootstrap.Schema.{StunEndpoint, RendezvousError, invalid_stun_url, Result, ok, err}

-- `s.strip_prefix(prefix)`
unfoldable pub strip_prefix : Text → Text → Option Text
strip_prefix [] s = some s
strip_prefix (p ∷ prefix) [] = none
strip_prefix (p ∷ prefix) (c ∷ s) =
    let rest = strip_prefix prefix s in if p == c then rest else none

abbrev push_front : ℕ → Text × Text → Text × Text
push_front c (before, after) = (c ∷ before, after)

-- `s.rsplit_once(c)`: at the last `c`.
unfoldable pub rsplit_once : ℕ → Text → Option (Text × Text)
rsplit_once c [] = none
rsplit_once c (x ∷ s) = elim (rsplit_once c s) [
  | some split ↦ some (push_front x split)
  | none ↦ if x == c then some ([], s) else none
]

abbrev pub colon : ℕ
colon = b':'

abbrev pub stun_scheme : Text
stun_scheme = text "stun:"

endpoint_from : Text → Text → Option ℕ → Result StunEndpoint RendezvousError
endpoint_from input host none = err (invalid_stun_url input)
endpoint_from input [] (some port) = err (invalid_stun_url input)
endpoint_from input (c ∷ host) (some port) = ok (record { host = c ∷ host; port = port })

abbrev pub or_whole : Text → Option Text → Text
or_whole input none = input
or_whole input (some raw) = raw

abbrev split_port : Text → Option (Text × Text) → Result StunEndpoint RendezvousError
split_port input none = err (invalid_stun_url input)
split_port input (some (host, port)) = endpoint_from input host (parse_u16 port)

unfoldable pub parse_stun_url : Text → Result StunEndpoint RendezvousError
unfolding endpoint_from
parse_stun_url input =
    split_port input (rsplit_once colon (or_whole input (strip_prefix stun_scheme input)))
