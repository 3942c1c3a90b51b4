-- ===== src/Cookies.antt =====
-- The cookies of the client: `g_cookie` of src/client/Vyatta/utils/vyatta-cookie.js. The browser keeps
-- the cookies, reads an assignment to `document.cookie`, writes the dates and has `escape` and
-- `unescape`: these are a parameter, `Browser`. The names are the four of the client
-- (src/client/Vyatta/utils/vyatta-constant-values.js), which are of letters: what `escape` gives for one
-- is searched as it is, since it has no character that is special in a regular expression.
pub mod Lookup
pub mod Keeping
use vyatta_webgui.Base.{
  ℕ, zero, suc, ◌+◌, ◌-◌, ◌*◌, ◌≤◌, ◌<◌, ◌≡◌, refl, sym, ap, ◌∙◌, ◌≢◌, ◌↔◌, ◌⊎◌, inl, inr, Bool,
  true, false, not, ◌&&◌, ◌||◌, Option, none, some, List, [], ◌∷◌, ◌++◌, map, append_assoc,
  append-nil, arith, ltb, leb, ◌==◌, if◌then◌else◌, Bool-cases, Option-cases, is_some, length,
  get_elem?, drop, take, any, all, All, All-append, length-append, ==_iff, ==_refl, lt→ltb, ltb→lt,
}
use vyatta_webgui.Text.{Text, codes, text_eq, count, contains, index_of, replace_first, split}
use vyatta_webgui.Text.Equality.{text_eq_iff, text_eq_refl}
use vyatta_webgui.Text.{strip_prefix}
use vyatta_webgui.Login.{not_found}

-- The cookies of the page as the browser keeps them: the escaped names with the escaped values.
abbrev pub Jar : Type 0
Jar = List (Text × Text)

-- The names of the cookies.
pub data CookieName : Type 0 where
  user_name user_id is_login help_tip_state : CookieName

abbrev pub name_text : CookieName → Text
name_text user_name = codes "userName"
name_text user_id = codes "id"
name_text is_login = codes "isLogin"
name_text help_tip_state = codes "helpOnOff"

-- How many milliseconds from now a cookie ends, or how many ago it ended.
pub data Lifetime : Type 0 where
  later earlier : (ms : ℕ) → Lifetime

-- What the browser does: `assign` is an assignment to `document.cookie`, `gmt_string` the date at which
-- a lifetime ends.
pub record Browser : Type 0 where
  pub escape : Text → Text
  pub unescape : Text → Text
  pub assign : Text → Jar → Jar
  pub gmt_string : Lifetime → Text

-- What `document.cookie` reads as.
abbrev pub entry : Text × Text → Text
entry (name, value) = name ++ (61 ∷ value)

unfoldable pub more_entries : Jar → Text
more_entries [] = []
more_entries (c ∷ jar) = 59 ∷ (32 ∷ (entry c ++ more_entries jar))

unfoldable pub cookie_text : Jar → Text
cookie_text [] = []
cookie_text (c ∷ jar) = entry c ++ more_entries jar

-- The white space of a regular expression.
abbrev pub is_space : ℕ → Bool
is_space c =
    (leb 9 c && leb c 13)
    || (c == 32
        || (c == 160
            || (c == 5760
                || ((leb 8192 c && leb c 8202)
                    || (c == 8232
                        || (c == 8233
                            || (c == 8239 || (c == 8287 || (c == 12288 || c == 65279)))))))))

unfoldable pub skip_spaces : Text → Text
skip_spaces [] = []
skip_spaces (c ∷ s) = let rest = skip_spaces s in if is_space c then rest else c ∷ s

-- The longest match of `[^;\s]*`.
unfoldable pub value_prefix : Text → Text
value_prefix [] = []
value_prefix (c ∷ s) = let rest = value_prefix s in if c == 59 || is_space c then [] else c ∷ rest

abbrev pub value_of : Option Text → Option Text
value_of none = none
value_of (some rest) = some (value_prefix rest)

-- `\s*name=([^;\s]*)` at the beginning of the text.
unfoldable pub entry_at : Text → Text → Option Text
entry_at name s = value_of (strip_prefix (name ++ (61 ∷ [])) (skip_spaces s))

abbrev pub or_else : Option Text → Option Text → Option Text
or_else none next = next
or_else (some v) next = some v

-- The expression behind each semicolon.
unfoldable pub after_semicolon : Text → Text → Option Text
after_semicolon name [] = none
after_semicolon name (c ∷ s) =
    let rest = after_semicolon name s in if c == 59 then or_else (entry_at name s) rest else rest

-- `document.cookie.match(…)`, the part in brackets, for an escaped name that is searched as it is.
unfoldable pub match_cookie : Text → Text → Option Text
match_cookie name s = or_else (entry_at name s) (after_semicolon name s)

-- What a match is read as.
abbrev pub read : Browser → Option Text → Text
read b none = not_found
read b (some v) = b.unescape v

-- `f_get`
unfoldable pub f_get : Browser → CookieName → Jar → Text
f_get b name jar = read b (match_cookie (b.escape (name_text name)) (cookie_text jar))

-- The text that `f_set` assigns; without a lifetime it ends with `V_NOT_FOUND`.
unfoldable pub set_text : Browser → Text → Text → Option Lifetime → Text
set_text b name value expires =
    b.escape name
    ++ (61
        ∷ (b.escape value
            ++ elim expires [ none ↦ not_found | some t ↦ codes "; expires=" ++ b.gmt_string t ]))

unfoldable pub f_set : Browser → CookieName → Text → Option Lifetime → Jar → Jar
f_set b name value expires jar = b.assign (set_text b (name_text name) value expires) jar

-- `f_remove`, with what it returns: `none` stands for `true`.
unfoldable pub f_remove : Browser → CookieName → Jar → Jar × Option Text
f_remove b name jar =
    let found = f_get b name jar in
    (f_set b name [] (some (earlier 1)) jar, if length found == 0 then none else some found)
