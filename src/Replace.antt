-- ===== src/Replace.antt =====
-- `f_replace` of src/client/Vyatta/utils/vyatta-utils.js: the loop that replaces one occurrence after
-- the other until the pattern is found no more. The fuel counts the rounds; a result `none` stands
-- for a call that has not returned within them. `search` reads the pattern as a regular expression, and
-- `replace` a dollar sign in the new text as a reference: the model reads literals only, as all are that
-- the client passes, and gives no text back where one of the two is none.
pub mod Termination
use vyatta_webgui.Base.{
  ℕ, zero, suc, if◌then◌else◌, Option, none, some, length, Bool, true, not, ◌&&◌, ◌||◌, ◌==◌, [],
  ◌∷◌,
}
use vyatta_webgui.Text.{Text, contains, replace_first}

-- The characters that are special in a regular expression, from the dollar sign to the bar.
abbrev pub is_special : ℕ → Bool
is_special c =
    c == 36
    || (c == 40
        || (c == 41
            || (c == 42
                || (c == 43
                    || (c == 46
                        || (c == 63
                            || (c == 91
                                || (c == 92
                                    || (c == 93
                                        || (c == 94
                                            || (c == 123 || (c == 124 || c == 125))))))))))))

-- A text without such a character stands for itself.
abbrev pub is_literal : Text → Bool
is_literal [] = true
is_literal (c ∷ s) = not (is_special c) && is_literal s

-- The `while` loop.
unfoldable pub replace_loop : ℕ → Text → Text → Text → Option Text
unfolding contains replace_first
replace_loop zero old new str = none
replace_loop (suc fuel) old new str =
    let rest = replace_loop fuel old new (replace_first old new str) in
    if contains old str then rest else some str

-- The call with as many rounds as the text has characters, and one more.
unfoldable pub replace : Text → Text → Text → Option Text
unfolding replace_loop
replace str old new =
    let result = replace_loop (suc (length str)) old new str in
    if is_literal old && is_literal new then result else none
