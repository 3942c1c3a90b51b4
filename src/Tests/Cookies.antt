-- ===== src/Tests/Cookies.antt =====
-- A browser that keeps cookies as documented, and what the theorems on cookies say of it.
use vyatta_webgui.Base.{
  none, true, ℕ, zero, suc, ◌+◌, ◌≡◌, refl, ap, ◌∙◌, Bool, false, some, [], ◌∷◌, ◌++◌, arith, ◌==◌,
  if◌then◌else◌, All, ==_refl,
}
use vyatta_webgui.Text.{Text, codes, text_eq}
use vyatta_webgui.Cookies.{
  CookieName, user_name, user_id, is_login, help_tip_state, name_text, Jar, Lifetime, later,
  earlier, Browser, set_text, f_set,
}
use vyatta_webgui.Cookies.Lookup.{InName}
use vyatta_webgui.Cookies.Keeping.{CleanJar, put, erase, Laws, Kept, f_set-Kept}
use vyatta_webgui.Replace.{is_literal}
use vyatta_webgui.HelpTips.{panel, get_help_tips_state, handle_help_button_click}
use vyatta_webgui.HelpTips.Agreement.{Agree, toggled, help_click-Agree}
use vyatta_webgui.Access.{auth_cb}
use vyatta_webgui.Access.Cycle.{Cycle, auth_cb-Cycle}

-- A character is written as that many `a` and a `b`.
abbrev strokes : ℕ → Text → Text
strokes zero s = 98 ∷ s
strokes (suc n) s = 97 ∷ strokes n s

abbrev plain_escape : Text → Text
plain_escape [] = []
plain_escape (c ∷ s) = strokes c (plain_escape s)

abbrev plain_unescape : ℕ → Text → Text
plain_unescape n [] = []
plain_unescape n (c ∷ s) =
    let more = plain_unescape (suc n) s in
    let next = plain_unescape 0 s in if c == 97 then more else n ∷ next

-- The text in front of a character, and behind it.
abbrev split_at : ℕ → Text → Text × Text
split_at x [] = ([], [])
split_at x (c ∷ s) = let (a, b) = split_at x s in if c == x then ([], s) else (c ∷ a, b)

abbrev is_over : Text → Bool
is_over s = text_eq s (codes " expires=past")

abbrev plain_gmt : Lifetime → Text
plain_gmt (later ms) = codes "future"
plain_gmt (earlier ms) = codes "past"

abbrev plain_assign : Text → Jar → Jar
plain_assign s jar =
    let (name, rest) = split_at 61 s in
    let (value, date) = split_at 59 rest in
    if is_over date then erase name jar else put name value jar

abbrev plain_browser : Browser
plain_browser = record {
  escape = plain_escape;
  unescape = plain_unescape 0;
  assign = plain_assign;
  gmt_string = plain_gmt;
}

strokes-inverse :
    (k n : ℕ) (s : Text) → plain_unescape n (strokes k s) ≡ (k + n) ∷ plain_unescape 0 s
strokes-inverse zero n s = ap (λ i. i ∷ plain_unescape 0 s) (omega arith)
strokes-inverse (suc k) n s =
    strokes-inverse k (suc n) s ∙ ap (λ i. i ∷ plain_unescape 0 s) (omega arith)

escape-inverse : (s : Text) → plain_unescape 0 (plain_escape s) ≡ s
escape-inverse [] = refl
escape-inverse (c ∷ s) =
    strokes-inverse c 0 (plain_escape s)
    ∙ ap (λ i. i ∷ plain_unescape 0 (plain_escape s)) (omega arith)
    ∙ ap (λ t. c ∷ t) (escape-inverse s)

strokes-InName : (k : ℕ) (s : Text) → All InName s → All InName (strokes k s)
strokes-InName zero s h = ((refl, refl), h)
strokes-InName (suc k) s h = ((refl, refl), strokes-InName k s h)

escape-InName : (s : Text) → All InName (plain_escape s)
escape-InName [] = tt
escape-InName (c ∷ s) = strokes-InName c (plain_escape s) (escape-InName s)

abbrev Without : ℕ → Text → Type 0
Without x s = All (λ c. (c == x) ≡ false) s

strokes-Without :
    (x : ℕ)
    → (97 == x) ≡ false
    → (98 == x) ≡ false
    → (k : ℕ) (s : Text) → Without x s
    → Without x (strokes k s)
strokes-Without x ha hb zero s h = (hb, h)
strokes-Without x ha hb (suc k) s h = (ha, strokes-Without x ha hb k s h)

escape-Without :
    (x : ℕ) → (97 == x) ≡ false → (98 == x) ≡ false → (s : Text) → Without x (plain_escape s)
escape-Without x ha hb [] = tt
escape-Without x ha hb (c ∷ s) =
    strokes-Without x ha hb c (plain_escape s) (escape-Without x ha hb s)

split_at-Without : (x : ℕ) (s t : Text) → Without x s → split_at x (s ++ (x ∷ t)) ≡ (s, t)
split_at-Without x [] t h = rw (==_refl x) refl
split_at-Without x (c ∷ s) t h = rw (h.0, split_at-Without x s t h.1) refl

plain_set :
    (name value date : Text) (jar : Jar)
    → plain_assign (plain_escape name ++ (61 ∷ (plain_escape value ++ (59 ∷ date)))) jar ≡ (
        if is_over date
        then erase (plain_escape name) jar
        else put (plain_escape name) (plain_escape value) jar)
plain_set name value date jar =
    rw
      (
        split_at-Without 61 (plain_escape name) (plain_escape value ++ (59 ∷ date))
            (escape-Without 61 refl refl name),
        split_at-Without 59 (plain_escape value) date (escape-Without 59 refl refl value),
      )
      refl

names_literal : (name : CookieName) → is_literal (plain_escape (name_text name)) ≡ true
names_literal user_name = refl
names_literal user_id = refl
names_literal is_login = refl
names_literal help_tip_state = refl

plain_browser-Laws : Laws plain_browser
unfolding set_text text_eq
plain_browser-Laws = record {
  inverse = escape-inverse;
  clean = escape-InName;
  literal = names_literal;
  keeps = λ name value ms jar long. plain_set name value (codes " expires=future") jar;
  removes = λ name value ms jar. plain_set name value (codes " expires=past") jar;
}

abbrev one_cookie : Jar
one_cookie = (codes "a", codes "b") ∷ []

one_cookie-Clean : CleanJar one_cookie
one_cookie-Clean = ((((refl, refl), tt), (refl, tt)), tt)

f_set-Kept_example :
    Kept plain_browser one_cookie
      (f_set plain_browser user_id (codes "7") (some (later 1000)) one_cookie)
      user_id
      (codes "7")
f_set-Kept_example =
    f_set-Kept plain_browser plain_browser-Laws one_cookie one_cookie-Clean user_id (codes "7") 1000
      (omega arith)

auth_cb-Cycle_example :
    Cycle plain_browser
      (auth_cb plain_browser (some (codes "7")) (codes "vyatta") (codes "main.html") one_cookie).jar
      (codes "7")
      (codes "vyatta")
auth_cb-Cycle_example =
    auth_cb-Cycle plain_browser plain_browser-Laws (codes "7") (codes "vyatta") (codes "main.html")
      one_cookie one_cookie-Clean (cc)

help_click-Agree_example :
    Agree plain_browser
      (panel (some true ∷ (none ∷ [])))
      (toggled (get_help_tips_state plain_browser one_cookie))
      (handle_help_button_click plain_browser true (panel (some true ∷ (none ∷ []))) one_cookie)
help_click-Agree_example =
    help_click-Agree plain_browser plain_browser-Laws one_cookie one_cookie-Clean
      (panel (some true ∷ (none ∷ [])))
