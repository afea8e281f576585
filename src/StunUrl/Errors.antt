-- ===== src/StunUrl/Errors.antt =====
-- What `parse_stun_url` accepts, and what it answers to all else.
use fips_nostr_bootstrap.Base.{
  ℕ, ◌<◌, ◌≡◌, ◌≢◌, refl, nat_eq, false, contains, Option, none, some, [], ◌∷◌, ◌++◌, Text, arith,
}
use fips_nostr_bootstrap.Base.Decimal.{parse_u16, parse_u16-lt}
use fips_nostr_bootstrap.Schema.{StunEndpoint, RendezvousError, invalid_stun_url, ok, err}
use fips_nostr_bootstrap.StunUrl.{
  strip_prefix, rsplit_once, colon, stun_scheme, or_whole, endpoint_from, split_port,
  parse_stun_url,
}

-- `input` is `host:digits` behind an optional scheme, the last colon splits it, and `digits` is a
-- decimal number of sixteen bits.
pub record Spells (input : Text) (e : StunEndpoint) : Type 0 where
  pub digits : Text
  pub shape : or_whole input (strip_prefix stun_scheme input) ≡ e.host ++ (colon ∷ digits)
  pub last : contains digits colon ≡ false
  pub port_text : parse_u16 digits ≡ some e.port
  pub port_bound : e.port < 65536
  pub host_given : e.host ≢ []

-- What the answer of `rsplit_once` says of the text.
abbrev SplitsLast : ℕ → Text → Option (Text × Text) → Type 0
SplitsLast c s none = contains s c ≡ false
SplitsLast c s (some (before, after)) = (s ≡ before ++ (c ∷ after)) × (contains after c ≡ false)

rsplit_once-SplitsLast : (c : ℕ) (s : Text) → SplitsLast c s (rsplit_once c s)
unfolding rsplit_once
rsplit_once-SplitsLast c [] = refl
rsplit_once-SplitsLast c (x ∷ s) = ground (arith, rsplit_once-SplitsLast c s)

Spells-endpoint_from :
    (input host digits : Text) (port : Option ℕ) (e : StunEndpoint)
    → parse_u16 digits ≡ port
    → or_whole input (strip_prefix stun_scheme input) ≡ host ++ (colon ∷ digits)
    → contains digits colon ≡ false
    → endpoint_from input host port ≡ ok e
    → Spells input e
unfolding endpoint_from
Spells-endpoint_from input host digits none e p s l h = absurd (cc)
Spells-endpoint_from input [] digits (some port) e p s l h = absurd (cc)
Spells-endpoint_from input (c ∷ host) digits (some port) e p s l h = record {
  digits = digits;
  shape = ground arith;
  last = l;
  port_text = ground arith;
  port_bound = ground (arith, parse_u16-lt digits port);
  host_given = λ q. ground arith;
}

parse_stun_url-Spells_of :
    (input : Text) (split : Option (Text × Text)) (e : StunEndpoint)
    → SplitsLast colon (or_whole input (strip_prefix stun_scheme input)) split
    → split_port input split ≡ ok e
    → Spells input e
parse_stun_url-Spells_of input none e l h = absurd (cc)
parse_stun_url-Spells_of input (some (host, digits)) e l h =
    Spells-endpoint_from input host digits (parse_u16 digits) e refl l.0 l.1 h

-- Whatever `parse_stun_url` accepts spells the endpoint that it returns: a host that is not empty,
-- the last colon, and a decimal number below 2 ^ 16, behind `stun:` or not.
pub parse_stun_url-Spells :
    (input : Text) (e : StunEndpoint) → parse_stun_url input ≡ ok e → Spells input e
unfolding parse_stun_url
parse_stun_url-Spells input e h =
    parse_stun_url-Spells_of input _ e (rsplit_once-SplitsLast colon _) h

endpoint_from-err :
    (input host : Text) (port : Option ℕ) (x : RendezvousError)
    → endpoint_from input host port ≡ err x
    → x ≡ invalid_stun_url input
unfolding endpoint_from
endpoint_from-err input host none x h = cc
endpoint_from-err input [] (some port) x h = cc
endpoint_from-err input (c ∷ host) (some port) x h = cc

split_port-err :
    (input : Text) (split : Option (Text × Text)) (x : RendezvousError)
    → split_port input split ≡ err x
    → x ≡ invalid_stun_url input
split_port-err input none x h = cc
split_port-err input (some (host, digits)) x h = endpoint_from-err input host (parse_u16 digits) x h

-- The one error is `InvalidStunUrl`, and it carries the input as it was given, scheme included.
pub parse_stun_url-err :
    (input : Text) (x : RendezvousError) → parse_stun_url input ≡ err x → x ≡ invalid_stun_url input
unfolding parse_stun_url
parse_stun_url-err input x h = split_port-err input _ x h
