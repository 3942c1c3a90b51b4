-- ===== src/Text.antt =====
-- The methods of JavaScript strings that the client calls (`indexOf`, `replace` and `split` with a
-- literal pattern), on lists of character codes.
pub mod Chars
pub mod Equality
pub mod Laws
pub mod Split
use Prim.Native.Char.{code}
use Prim.Native.String.{String}
use mathlib.Core.Option
use vyatta_webgui.Base.{
  ℕ, zero, suc, ◌-◌, Bool, true, false, ◌&&◌, Option, none, some, List, [], ◌∷◌, ◌++◌, length,
  is_some, ◌==◌, if◌then◌else◌,
}

abbrev pub Text : Type 0
Text = List ℕ

-- The codes of a literal.
abbrev pub codes : String → Text
codes String.[] = []
codes (String.◌∷◌ c s) = code c ∷ codes s

-- `a == b` on strings.
unfoldable pub text_eq : Text → Text → Bool
text_eq [] [] = true
text_eq [] (_ ∷ _) = false
text_eq (_ ∷ _) [] = false
text_eq (a ∷ s) (b ∷ t) = a == b && text_eq s t

-- What follows the prefix `p`, if the text begins with it.
unfoldable pub strip_prefix : Text → Text → Option Text
strip_prefix [] s = some s
strip_prefix (_ ∷ _) [] = none
strip_prefix (a ∷ p) (b ∷ s) = if a == b then strip_prefix p s else none

-- `s.indexOf(p)`, where `none` is -1.
unfoldable pub index_of : Text → Text → Option ℕ
unfolding strip_prefix
index_of p [] = if is_some (strip_prefix p []) then some 0 else none
index_of p (c ∷ s) =
    let later = Option.map suc (index_of p s) in
    if is_some (strip_prefix p (c ∷ s)) then some 0 else later

-- `s.indexOf(p) >= 0`
unfoldable pub contains : Text → Text → Bool
unfolding index_of
contains p s = is_some (index_of p s)

-- `s.replace(p, q)` with strings: only the first occurrence.
unfoldable pub replace_first : Text → Text → Text → Text
unfolding strip_prefix
replace_first p q [] = elim (strip_prefix p []) [ some rest ↦ q ++ rest | none ↦ [] ]
replace_first p q (c ∷ s) =
    let later = c ∷ replace_first p q s in
    elim (strip_prefix p (c ∷ s)) [ some rest ↦ q ++ rest | none ↦ later ]

-- A character in front of the first piece.
abbrev pub cons_head : ℕ → List Text → List Text
cons_head c [] = (c ∷ []) ∷ []
cons_head c (w ∷ ws) = (c ∷ w) ∷ ws

-- `k` characters of a separator are still to be skipped.
unfoldable pub split_skip : Text → ℕ → Text → List Text
unfolding strip_prefix
split_skip p k [] = [] ∷ []
split_skip p (suc k) (c ∷ s) = split_skip p k s
split_skip p zero (c ∷ s) =
    let next = split_skip p (length p - 1) s in
    let longer = split_skip p zero s in
    if is_some (strip_prefix p (c ∷ s)) then [] ∷ next else cons_head c longer

-- `s.split(p)` for a separator that is not empty.
unfoldable pub split : Text → Text → List Text
unfolding split_skip
split p s = split_skip p 0 s

-- How often a character occurs.
unfoldable pub count : ℕ → Text → ℕ
count x [] = 0
count x (c ∷ s) = if c == x then suc (count x s) else count x s
