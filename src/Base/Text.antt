-- ===== src/Base/Text.antt =====
-- The functions of the strings package that the source calls.
use Prim.Native.Char.{code}
use Prim.Native.String.{String}
use mathlib.Core.Path.{◌≡◌, refl}
use mathlib.Core.Bool.{Bool, true, false}
use mathlib.Core.Option.{Option, none, some}
use native.Mathlib.Omega.{arith}
use kruntimes.Base.Tests.{nat_eq, ltb, if◌then◌else◌}

-- The concatenation of two texts.
unfoldable pub join : String → String → String
join String.[] t = t
join (String.◌∷◌ c s) t = String.◌∷◌ c (join s t)

-- strings.HasPrefix and strings.TrimPrefix in one: the rest behind the prefix.
unfoldable pub cut_prefix : String → String → Option String
cut_prefix String.[] s = some s
cut_prefix (String.◌∷◌ c p) String.[] = none
cut_prefix (String.◌∷◌ c p) (String.◌∷◌ d s) =
    let rest = cut_prefix p s in if nat_eq (code c) (code d) then rest else none

-- The order `<` on strings: by bytes, which for UTF-8 is by code points.
unfoldable pub str_lt : String → String → Bool
str_lt s String.[] = false
str_lt String.[] (String.◌∷◌ d t) = true
str_lt (String.◌∷◌ c s) (String.◌∷◌ d t) =
    let rest = str_lt s t in
    if ltb (code c) (code d) then true else if ltb (code d) (code c) then false else rest

-- The %q of the fmt package for a text with nothing to escape.
unfoldable pub quote : String → String
unfolding join
quote s = join "\"" (join s "\"")

pub cut_prefix-join : (p s : String) → cut_prefix p (join p s) ≡ some s
unfolding cut_prefix join
cut_prefix-join String.[] s = refl
cut_prefix-join (String.◌∷◌ c p) s = ground (arith, cut_prefix-join p s)
