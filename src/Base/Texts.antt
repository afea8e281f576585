-- ===== src/Base/Texts.antt =====
-- A Rust `String` or `&str` is its UTF-8 bytes.
use Prim.Native.Nat.{ℕ}
use Prim.Native.Char.{code}
use Prim.Native.String.{String, [], ◌∷◌}
use mathlib.Core.List.{List}
use native.Mathlib.Decide.{ℕ_discrete}
use package.fips_nostr_bootstrap.Base.Tests.{Eq}

abbrev pub Text : Type 0
Text = List ℕ

-- The bytes of an ASCII literal.
unfoldable pub text : String → Text
text [] = List.[]
text (c ∷ s) = List.◌∷◌ (code c) (text s)

unfoldable pub Text-discrete : Discrete Text
unfolding ℕ_discrete
Text-discrete = hlevel ℕ_discrete

instance abbrev pub text_eq : Eq Text
text_eq = record { discrete = Text-discrete }

unfoldable pub Texts-discrete : Discrete (List Text)
unfolding Text-discrete
Texts-discrete = hlevel Text-discrete

instance abbrev pub texts_eq : Eq (List Text)
texts_eq = record { discrete = Texts-discrete }
