-- ===== src/StunUrl/RoundTrip.antt =====
-- A STUN URL that is written from a host and a port is read back.
use fips_nostr_bootstrap.Base.{
  ℕ, ◌<◌, ◌≡◌, ◌≢◌, refl, nat_eq, false, contains, none, some, [], ◌∷◌, ◌++◌, Text, arith,
}
use fips_nostr_bootstrap.Base.Decimal.{
  decimal, decimal-AllDigits, contains-AllDigits, parse_u16-decimal,
}
use fips_nostr_bootstrap.Schema.{ok}
use fips_nostr_bootstrap.StunUrl.{
  strip_prefix, rsplit_once, colon, stun_scheme, endpoint_from, parse_stun_url,
}

pub strip_prefix-append : (p s : Text) → strip_prefix p (p ++ s) ≡ some s
unfolding strip_prefix
strip_prefix-append [] s = refl
strip_prefix-append (c ∷ p) s = ground (arith, strip_prefix-append p s)

pub rsplit_once-none : (c : ℕ) (s : Text) → contains s c ≡ false → rsplit_once c s ≡ none
unfolding rsplit_once
rsplit_once-none c [] h = refl
rsplit_once-none c (x ∷ s) h = ground (arith, rsplit_once-none c s)

pub rsplit_once-append :
    (c : ℕ) (before after : Text)
    → contains after c ≡ false
    → rsplit_once c (before ++ (c ∷ after)) ≡ some (before, after)
unfolding rsplit_once
rsplit_once-append c [] after h = ground (arith, rsplit_once-none c after h)
rsplit_once-append c (x ∷ before) after h = ground (arith, rsplit_once-append c before after h)

-- The text of an endpoint, as `format!("stun:{host}:{port}")` writes it.
abbrev pub print_stun_url : Text → ℕ → Text
print_stun_url host port = stun_scheme ++ (host ++ (colon ∷ decimal port))

endpoint_from-ok :
    (input host : Text) (port : ℕ)
    → host ≢ []
    → endpoint_from input host (some port) ≡ ok (record { host = host; port = port })
unfolding endpoint_from
endpoint_from-ok input [] port h = absurd (h refl)
endpoint_from-ok input (c ∷ host) port h = refl

-- Every URL `stun:HOST:PORT` with a host that is not empty, colons included, and a port that fits
-- sixteen bits parses to that host and port.
pub parse_stun_url-print :
    (host : Text) (port : ℕ)
    → host ≢ []
    → port < 65536
    → parse_stun_url (print_stun_url host port) ≡ ok (record { host = host; port = port })
unfolding parse_stun_url
parse_stun_url-print host port h p =
    rw
      (
        strip_prefix-append stun_scheme (host ++ (colon ∷ decimal port)),
        rsplit_once-append colon host (decimal port)
            (contains-AllDigits (decimal port) colon refl (decimal-AllDigits port)),
        parse_u16-decimal port p,
      )
      (endpoint_from-ok _ host port h)
