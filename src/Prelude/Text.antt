-- ===== src/Prelude/Text.antt =====
-- Text keys: equality, the order of code points, and membership in a tuple of texts.
use Prim.Native.String.{String, compare, ◌++◌}
use mathlib.Core.Bool.{Bool}
use mathlib.Core.List.{List}
use text.Mathlib.Text.{◌==◌, is_lt}
use bardi.Prelude.Lists.{any}

abbrev pub str_eq : String → String → Bool
str_eq s t = s == t

abbrev pub str_lt : String → String → Bool
str_lt s t = is_lt (compare s t)

infixr 65 ◌+++◌
abbrev pub ◌+++◌ : String → String → String
s +++ t = s ++ t

-- `key in (a, b, c)`
abbrev pub one_of : String → List String → Bool
one_of k xs = any (λ x. str_eq x k) xs
