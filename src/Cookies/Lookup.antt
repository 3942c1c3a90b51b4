-- ===== src/Cookies/Lookup.antt =====
-- The regular expression of `f_get` finds the cookie with the name.
use vyatta_webgui.Base.{
  ℕ, ◌≡◌, refl, ap, ◌∙◌, Bool, true, false, ◌||◌, Option, none, some, [], ◌∷◌, ◌++◌, append_assoc,
  arith, ◌==◌, if◌then◌else◌, All, All-append,
}
use vyatta_webgui.Text.{Text, text_eq}
use vyatta_webgui.Text.{strip_prefix}
use vyatta_webgui.Cookies.{
  value_of, Jar, entry, more_entries, cookie_text, is_space, skip_spaces, value_prefix, entry_at,
  or_else, after_semicolon, match_cookie,
}

-- A character that neither ends a value nor is white space.
abbrev pub Inner : ℕ → Type 0
Inner c = (c == 59 || is_space c) ≡ false

-- A name has no `=` either.
abbrev pub InName : ℕ → Type 0
InName c = Inner c × ((c == 61) ≡ false)

abbrev pub CleanCookie : Text × Text → Type 0
CleanCookie (name, value) = All InName name × All Inner value

-- The value that the browser keeps under the name.
unfoldable pub lookup : Text → Jar → Option Text
lookup name [] = none
lookup name (c ∷ jar) = let rest = lookup name jar in if text_eq name c.0 then some c.1 else rest

or_false : (a b : Bool) → (a || b) ≡ false → (a ≡ false) × (b ≡ false)
or_false false false h = (refl, refl)
or_false false true h = absurd (cc)
or_false true b h = absurd (cc)

not_space : (c : ℕ) → Inner c → is_space c ≡ false
not_space c h = (or_false (c == 59) (is_space c) h).1

not_semicolon : (c : ℕ) → Inner c → (c == 59) ≡ false
not_semicolon c h = (or_false (c == 59) (is_space c) h).0

==_sym : (a b : ℕ) → (a == b) ≡ (b == a)
==_sym a b = ground arith

strip_name :
    (name n t : Text)
    → All InName name
    → All InName n
    → strip_prefix (name ++ (61 ∷ [])) (n ++ (61 ∷ t)) ≡ (if text_eq name n then some t else none)
unfolding strip_prefix text_eq
strip_name [] [] t hn hm = refl
strip_name [] (c ∷ n) t hn hm = rw (==_sym 61 c, hm.0.1) refl
strip_name (c ∷ name) [] t hn hm = rw (hn.0.1) refl
strip_name (c ∷ name) (d ∷ n) t hn hm = ground (arith, strip_name name n t hn.1 hm.1)

-- What follows a value: nothing, or a semicolon.
data Stops : Text → Type 0 where
  at_end : Stops []
  at_semicolon : (s : Text) → Stops (59 ∷ s)

value_prefix-append : (v rest : Text) → All Inner v → Stops rest → value_prefix (v ++ rest) ≡ v
unfolding value_prefix
value_prefix-append [] [] h at_end = refl
value_prefix-append [] (_ ∷ _) h (at_semicolon s) = refl
value_prefix-append (c ∷ v) rest h s = rw (h.0) (ap (λ t. c ∷ t) (value_prefix-append v rest h.1 s))

skip_spaces-name : (n t : Text) → All InName n → skip_spaces (n ++ (61 ∷ t)) ≡ n ++ (61 ∷ t)
unfolding skip_spaces
skip_spaces-name [] t h = refl
skip_spaces-name (c ∷ n) t h = rw (not_space c h.0.0) refl

after_semicolon_free :
    (name v rest : Text)
    → All (λ c. (c == 59) ≡ false) v
    → after_semicolon name (v ++ rest) ≡ after_semicolon name rest
unfolding after_semicolon
after_semicolon_free name [] rest h = refl
after_semicolon_free name (c ∷ v) rest h = rw (h.0) (after_semicolon_free name v rest h.1)

-- An entry without its beginning has no semicolon.
name_free : (n : Text) → All InName n → All (λ c. (c == 59) ≡ false) n
name_free [] h = tt
name_free (c ∷ n) h = (not_semicolon c h.0.0, name_free n h.1)

value_free : (v : Text) → All Inner v → All (λ c. (c == 59) ≡ false) v
value_free [] h = tt
value_free (c ∷ v) h = (not_semicolon c h.0, value_free v h.1)

entry_free : (c : Text × Text) → CleanCookie c → All (λ d. (d == 59) ≡ false) (entry c)
entry_free (n, v) h =
    All-append (λ d. (d == 59) ≡ false) n (61 ∷ v) (name_free n h.0) (refl, value_free v h.1)

more_entries-Stops : (jar : Jar) → Stops (more_entries jar)
unfolding more_entries
more_entries-Stops [] = at_end
more_entries-Stops (c ∷ jar) = at_semicolon _

found :
    (b : Bool) (v rest : Text)
    → All Inner v
    → Stops rest
    → value_of (if b then some (v ++ rest) else none) ≡ (if b then some v else none)
found true v rest h stops = ap some (value_prefix-append v rest h stops)
found false v rest h stops = refl

or_else_if :
    (b : Bool) (v : Text) (next : Option Text)
    → or_else (if b then some v else none) next ≡ (if b then some v else next)
or_else_if true v next = refl
or_else_if false v next = refl

entry_at_blank : (name s : Text) → entry_at name (32 ∷ s) ≡ entry_at name s
unfolding entry_at skip_spaces
entry_at_blank name s = refl

entry_at_nothing : (name : Text) → entry_at name [] ≡ none
unfolding entry_at skip_spaces strip_prefix
entry_at_nothing [] = refl
entry_at_nothing (c ∷ name) = refl

entry_at-entry :
    (name : Text) (c : Text × Text) (rest : Text)
    → All InName name
    → CleanCookie c
    → Stops rest
    → entry_at name (entry c ++ rest) ≡ (if text_eq name c.0 then some c.1 else none)
unfolding entry_at
entry_at-entry name (n, v) rest hn h stops =
    ap (entry_at name) (append_assoc n (61 ∷ v) rest)
    ∙ ap (λ s. value_of (strip_prefix (name ++ (61 ∷ [])) s)) (skip_spaces-name n (v ++ rest) h.0)
    ∙ ap value_of (strip_name name n (v ++ rest) hn h.0)
    ∙ found (text_eq name n) v rest h.1 stops

-- One cookie in front of the others.
first_entry :
    (name : Text) (c : Text × Text) (jar : Jar)
    → All InName name
    → CleanCookie c
    → or_else
        (entry_at name (entry c ++ more_entries jar))
        (after_semicolon name (entry c ++ more_entries jar))
      ≡ (if text_eq name c.0 then some c.1 else after_semicolon name (more_entries jar))
first_entry name c jar hn h =
    ap (λ e. or_else e (after_semicolon name (entry c ++ more_entries jar)))
      (entry_at-entry name c (more_entries jar) hn h (more_entries-Stops jar))
    ∙ ap (or_else _) (after_semicolon_free name (entry c) (more_entries jar) (entry_free c h))
    ∙ or_else_if (text_eq name c.0) c.1 (after_semicolon name (more_entries jar))

more_entries-lookup :
    (name : Text) (jar : Jar)
    → All InName name
    → All CleanCookie jar
    → after_semicolon name (more_entries jar) ≡ lookup name jar
unfolding more_entries after_semicolon lookup
more_entries-lookup name [] hn h = refl
more_entries-lookup name (c ∷ jar) hn h =
    ap (λ e. or_else e (after_semicolon name (entry c ++ more_entries jar)))
      (entry_at_blank name (entry c ++ more_entries jar))
    ∙ first_entry name c jar hn h.0
    ∙ ap (λ r. if text_eq name c.0 then some c.1 else r) (more_entries-lookup name jar hn h.1)

-- The expression finds in `document.cookie` what the browser keeps under the name.
pub match_cookie-lookup :
    (name : Text) (jar : Jar)
    → All InName name
    → All CleanCookie jar
    → match_cookie name (cookie_text jar) ≡ lookup name jar
unfolding match_cookie cookie_text lookup after_semicolon
match_cookie-lookup name [] hn h = ap (λ e. or_else e none) (entry_at_nothing name)
match_cookie-lookup name (c ∷ jar) hn h =
    first_entry name c jar hn h.0
    ∙ ap (λ r. if text_eq name c.0 then some c.1 else r) (more_entries-lookup name jar hn h.1)
