-- ===== src/KeySet.antt =====
-- Python's sets of text keys. The planner sorts every set that it hands on, so a set is the list
-- of its members in ascending order, each once.
use Prim.Native.String.{String}
use mathlib.Core.Path.{◌≡◌, refl}
use mathlib.Core.Bool.{Bool, false, not, ◌&&◌, ◌||◌}
use mathlib.Core.List.{List, [], ◌∷◌}
use native.Mathlib.Omega.{arith}
use text.Mathlib.TextEquality.{eq_iff}
use bardi.Prelude.{if◌then◌else◌, is_empty, str_eq, str_lt, one_of}

abbrev pub KeySet : Type 0
KeySet = List String

unfoldable pub member : String → KeySet → Bool
member k s = one_of k s

unfoldable pub add : String → KeySet → KeySet
add k [] = k ∷ []
add k (j ∷ s) = if str_eq j k then j ∷ s else if str_lt k j then k ∷ j ∷ s else j ∷ add k s

unfoldable pub union : KeySet → KeySet → KeySet
unfolding add
union [] t = t
union (k ∷ s) t = add k (union s t)

unfoldable pub of_list : List String → KeySet
unfolding union
of_list xs = union xs []

unfoldable pub difference : KeySet → KeySet → KeySet
unfolding member
difference [] t = []
difference (k ∷ s) t = if member k t then difference s t else k ∷ difference s t

pub member-add : (j k : String) (s : KeySet) → member j (add k s) ≡ (str_eq k j || member j s)
unfolding member add
member-add j k [] = refl
member-add j k (i ∷ s) = ground (arith, eq_iff i k, eq_iff i j, eq_iff k j, member-add j k s)

pub member-union : (j : String) (s t : KeySet) → member j (union s t) ≡ (member j s || member j t)
unfolding member union
member-union j [] t = refl
member-union j (k ∷ s) t = ground (arith, member-add j k (union s t), member-union j s t)

pub member-of_list : (j : String) (xs : List String) → member j (of_list xs) ≡ one_of j xs
unfolding of_list member
member-of_list j xs = ground (arith, member-union j xs [])

pub member-difference :
    (j : String) (s t : KeySet) → member j (difference s t) ≡ (member j s && not (member j t))
unfolding member difference
member-difference j [] t = refl
member-difference j (k ∷ s) t = ground (arith, member-difference j s t, eq_iff k j)

pub is_empty-add : (k : String) (s : KeySet) → is_empty (add k s) ≡ false
unfolding add
is_empty-add k [] = refl
is_empty-add k (j ∷ s) = ground arith

pub is_empty-union : (s t : KeySet) → is_empty (union s t) ≡ (is_empty s && is_empty t)
unfolding union
is_empty-union [] t = refl
is_empty-union (k ∷ s) t = ground (arith, is_empty-add k (union s t))
