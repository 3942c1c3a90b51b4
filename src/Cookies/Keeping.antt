-- ===== src/Cookies/Keeping.antt =====
-- What is set is what is read, for every browser that keeps cookies as documented.
use vyatta_webgui.Base.{
  ℕ, suc, ◌≤◌, ◌≡◌, refl, sym, ap, ◌∙◌, ◌≢◌, inl, inr, true, false, none, some, [], ◌∷◌,
  if◌then◌else◌, Bool-cases, All,
}
use vyatta_webgui.Text.{Text, codes, text_eq}
use vyatta_webgui.Text.Equality.{text_neq, text_eq_iff, text_eq_refl}
use mathlib.Core.Path.{subst}
use vyatta_webgui.Replace.{is_literal}
use vyatta_webgui.Login.{not_found}
use vyatta_webgui.Cookies.{
  CookieName, user_name, user_id, is_login, help_tip_state, name_text, read, Jar, later, earlier,
  Browser, f_get, set_text, f_set, f_remove,
}
use vyatta_webgui.Cookies.Lookup.{InName, Inner, CleanCookie, lookup, match_cookie-lookup}

-- The cookies with a new value for a name, and without one.
unfoldable pub put : Text → Text → Jar → Jar
put n v [] = (n, v) ∷ []
put n v (c ∷ jar) = let rest = put n v jar in if text_eq n c.0 then (n, v) ∷ jar else c ∷ rest

unfoldable pub erase : Text → Jar → Jar
erase n [] = []
erase n (c ∷ jar) = let rest = erase n jar in if text_eq n c.0 then rest else c ∷ rest

-- What is documented of a browser: `unescape` undoes `escape`, whose results have no white space, no
-- semicolon and no `=`, and has no character that is special in a regular expression where the text is a
-- name of letters; an assignment with a date in the future keeps the cookie, one with a date in the past
-- removes it. A date is written to the second, so that a lifetime lasts into the future if it is of a
-- second at least.
pub record Laws (b : Browser) : Type 0 where
  pub inverse : (s : Text) → b.unescape (b.escape s) ≡ s
  pub clean : (s : Text) → All InName (b.escape s)
  pub literal : (name : CookieName) → is_literal (b.escape (name_text name)) ≡ true
  pub keeps :
      (name value : Text) (ms : ℕ) (jar : Jar)
      → 1000 ≤ ms
      → b.assign (set_text b name value (some (later ms))) jar
        ≡ put (b.escape name) (b.escape value) jar
  pub removes :
      (name value : Text) (ms : ℕ) (jar : Jar)
      → b.assign (set_text b name value (some (earlier (suc ms)))) jar ≡ erase (b.escape name) jar

abbrev pub CleanJar : Jar → Type 0
CleanJar jar = All CleanCookie jar

lookup-put : (n v : Text) (jar : Jar) → lookup n (put n v jar) ≡ some v
unfolding lookup put
lookup-put n v [] = rw (text_eq_refl n) refl
lookup-put n v (c ∷ jar) = elim (Bool-cases (text_eq n c.0)) [
  | inl e ↦ rw (e, put, lookup, text_eq_refl n) refl
  | inr e ↦ rw (e, put, lookup, e) (lookup-put n v jar)
]

-- Two names of which only one is that of a cookie.
other_name : (m n k : Text) → m ≢ n → text_eq n k ≡ true → text_eq m k ≡ false
other_name m n k h e = text_neq m k (λ same. h (same ∙ sym ((text_eq_iff n k).0 e)))

lookup-put_other : (m n v : Text) (jar : Jar) → m ≢ n → lookup m (put n v jar) ≡ lookup m jar
unfolding lookup put
lookup-put_other m n v [] h = rw (text_neq m n h) refl
lookup-put_other m n v (c ∷ jar) h = elim (Bool-cases (text_eq n c.0)) [
  | inl e ↦ rw (e, lookup, text_neq m n h, other_name m n c.0 h e) refl
  | inr e ↦ rw e (ap (λ r. if text_eq m c.0 then some c.1 else r) (lookup-put_other m n v jar h))
]

lookup-erase : (n : Text) (jar : Jar) → lookup n (erase n jar) ≡ none
unfolding lookup erase
lookup-erase n [] = refl
lookup-erase n (c ∷ jar) = elim (Bool-cases (text_eq n c.0)) [
  | inl e ↦ rw e (lookup-erase n jar)
  | inr e ↦ rw (e, lookup, e) (lookup-erase n jar)
]

lookup-erase_other : (m n : Text) (jar : Jar) → m ≢ n → lookup m (erase n jar) ≡ lookup m jar
unfolding lookup erase
lookup-erase_other m n [] h = refl
lookup-erase_other m n (c ∷ jar) h = elim (Bool-cases (text_eq n c.0)) [
  | inl e ↦ rw (e, other_name m n c.0 h e) (lookup-erase_other m n jar h)
  | inr e ↦ rw e (ap (λ r. if text_eq m c.0 then some c.1 else r) (lookup-erase_other m n jar h))
]

put-CleanJar :
    (n v : Text) (jar : Jar) → All InName n → All Inner v → CleanJar jar → CleanJar (put n v jar)
unfolding put
put-CleanJar n v [] hn hv h = ((hn, hv), tt)
put-CleanJar n v (c ∷ jar) hn hv h = elim (Bool-cases (text_eq n c.0)) [
  | inl e ↦ rw e ((hn, hv), h.1)
  | inr e ↦ rw e (h.0, put-CleanJar n v jar hn hv h.1)
]

erase-CleanJar : (n : Text) (jar : Jar) → CleanJar jar → CleanJar (erase n jar)
unfolding erase
erase-CleanJar n [] h = tt
erase-CleanJar n (c ∷ jar) h = elim (Bool-cases (text_eq n c.0)) [
  | inl e ↦ rw e (erase-CleanJar n jar h.1)
  | inr e ↦ rw e (h.0, erase-CleanJar n jar h.1)
]

-- The cookies `jar'` read as `got` under the name, and as in `jar` under the other names.
pub record Kept (b : Browser) (jar jar' : Jar) (name : CookieName) (got : Text) : Type 0 where
  pub reads : f_get b name jar' ≡ got
  pub others : (m : CookieName) → m ≢ name → f_get b m jar' ≡ f_get b m jar
  pub clean : CleanJar jar'

weaken : (s : Text) → All InName s → All Inner s
weaken [] h = tt
weaken (c ∷ s) h = (h.0.0, weaken s h.1)

-- The name that a text is.
abbrev name_of : Text → CookieName
name_of t =
    if text_eq t (codes "id")
    then user_id
    else if text_eq t (codes "isLogin")
    then is_login
    else if text_eq t (codes "userName")
    then user_name
    else help_tip_state

name_of-name_text : (n : CookieName) → name_of (name_text n) ≡ n
unfolding text_eq
name_of-name_text user_name = refl
name_of-name_text user_id = refl
name_of-name_text is_login = refl
name_of-name_text help_tip_state = refl

name_text_injective : (m n : CookieName) → name_text m ≡ name_text n → m ≡ n
name_text_injective m n e = sym (name_of-name_text m) ∙ ap name_of e ∙ name_of-name_text n

module _ (b : Browser) (laws : Laws b) (jar : Jar) (clean : CleanJar jar) where
  f_get-lookup :
      (name : CookieName) (jar' : Jar)
      → CleanJar jar'
      → f_get b name jar' ≡ read b (lookup (b.escape (name_text name)) jar')
  unfolding f_get
  f_get-lookup name jar' h =
      ap (read b)
        (match_cookie-lookup (b.escape (name_text name)) jar' (laws.clean (name_text name)) h)

  escape-apart :
      (m name : CookieName) → m ≢ name → b.escape (name_text m) ≢ b.escape (name_text name)
  escape-apart m name h e = h (
      name_text_injective m name
        (sym (laws.inverse (name_text m)) ∙ ap b.unescape e ∙ laws.inverse (name_text name)))

  -- A jar that keeps all other names.
  by_lookup :
      (name : CookieName) (got : Text) (jar' : Jar)
      → CleanJar jar'
      → read b (lookup (b.escape (name_text name)) jar') ≡ got
      → ((m : Text) → m ≢ b.escape (name_text name) → lookup m jar' ≡ lookup m jar)
      → Kept b jar jar' name got
  by_lookup name got jar' h reads others = record {
    reads = f_get-lookup name jar' h ∙ reads;
    others = λ m k.
        f_get-lookup m jar' h
        ∙ ap (read b) (others (b.escape (name_text m)) (escape-apart m name k))
        ∙ sym (f_get-lookup m jar clean);
    clean = h;
  }

  -- A cookie of the client that is set with a lifetime of a second at least reads back as the value it
  -- was set to, and the other cookies of the client read as before.
  pub f_set-Kept :
      (name : CookieName) (value : Text) (ms : ℕ)
      → 1000 ≤ ms
      → Kept b jar (f_set b name value (some (later ms)) jar) name value
  unfolding f_set
  f_set-Kept name value ms long =
      let n = b.escape (name_text name) in
      let v = b.escape value in
      subst (λ j. Kept b jar j name value) (sym (laws.keeps (name_text name) value ms jar long))
        (by_lookup name value (put n v jar)
          (put-CleanJar n v jar (laws.clean (name_text name)) (weaken v (laws.clean value)) clean)
          (ap (read b) (lookup-put n v jar) ∙ laws.inverse value)
          (λ m h. lookup-put_other m n v jar h))

  -- A cookie that is removed reads as not found, and the other cookies read as before.
  pub f_remove-Kept : (name : CookieName) → Kept b jar (f_remove b name jar).0 name not_found
  unfolding f_remove f_set
  f_remove-Kept name =
      let n = b.escape (name_text name) in
      subst (λ j. Kept b jar j name not_found) (sym (laws.removes (name_text name) [] 0 jar))
        (by_lookup name not_found (erase n jar) (erase-CleanJar n jar clean)
          (ap (read b) (lookup-erase n jar)) (λ m h. lookup-erase_other m n jar h))
