-- ===== src/Replace/Termination.antt =====
-- When the loop of `f_replace` ends, what it returns, and when it never ends.
use vyatta_webgui.Base.{
  ℕ, zero, suc, ◌+◌, ◌<◌, ◌≡◌, refl, ◌∙◌, ap, inl, inr, true, false, [], ◌∷◌, ◌++◌, none, some,
  Option, arith, append_assoc, Bool-cases, length,
}
use vyatta_webgui.Text.{Text, contains, replace_first, count}
use vyatta_webgui.Text.Laws.{search_cases, contains-append, count-append}
use vyatta_webgui.Text.Chars.{
  subst_char, first_char, replace_first_of_first, subst_char_absent, subst_char_once,
  index_of_absent, count-le-length, count-first,
}
use vyatta_webgui.Replace.{is_special, is_literal, replace_loop, replace}

-- A finished call: what is returned holds the pattern no more.
pub record Replaced (old : Text) (result : Option Text) : Type 0 where
  pub value : Text
  pub returns : result ≡ some value
  pub clean : contains old value ≡ false

-- One round takes away as many `x` as the pattern has more than its replacement.
count-replace_first :
    (x : ℕ) (old new str : Text)
    → contains old str ≡ true
    → count x (replace_first old new str) + count x old ≡ count x str + count x new
count-replace_first x old new str found = elim (search_cases old str) [
  | inl m ↦ cc m.absent
  | inr h ↦ rw (h.there new) (
      omega (
        arith,
        ap (count x) h.here,
        count-append x h.before (old ++ h.after),
        count-append x h.before (new ++ h.after),
        count-append x old h.after,
        count-append x new h.after,
      ))
]

module _ (old new : Text) (x : ℕ) (fewer : count x new < count x old) where
  replace_loop-Replaced :
      (fuel : ℕ) (str : Text) → count x str < fuel → Replaced old (replace_loop fuel old new str)
  unfolding replace_loop
  replace_loop-Replaced zero str enough = absurd (omega arith)
  replace_loop-Replaced (suc fuel) str enough = elim (Bool-cases (contains old str)) [
    | inl found ↦ rw found (
        replace_loop-Replaced fuel (replace_first old new str)
          (omega (arith, count-replace_first x old new str found)))
    | inr over ↦ record { value = str; returns = rw over; clean = over }
  ]

  -- If neither the pattern nor the replacement has a character that is special in a regular
  -- expression, and some character occurs less often in the replacement than in the pattern, the loop
  -- ends: for every text the call returns, and its result holds the pattern no more.
  pub replace-Replaced :
      (str : Text)
      → is_literal old ≡ true
      → is_literal new ≡ true
      → Replaced old (replace str old new)
  unfolding replace
  replace-Replaced str plain plain' =
      rw (plain, plain')
        (replace_loop-Replaced (suc (length str)) str (omega (arith, count-le-length x str)))

-- A text without the pattern is returned as it is.
pub replace_absent :
    (str old new : Text)
    → is_literal old ≡ true
    → is_literal new ≡ true
    → contains old str ≡ false
    → replace str old new ≡ some str
unfolding replace replace_loop
replace_absent str old new plain plain' h = rw (plain, plain', h)

regroup : (a b p c d s : Text) → s ≡ b ++ (p ++ c) → a ++ (s ++ d) ≡ (a ++ b) ++ (p ++ (c ++ d))
regroup a b p c d s h = rw h (simp append_assoc)

still_contains :
    (old new str : Text)
    → contains old new ≡ true
    → contains old str ≡ true
    → contains old (replace_first old new str) ≡ true
still_contains old new str again found = elim (search_cases old new) [
  | inl m ↦ cc m.absent
  | inr n ↦ elim (search_cases old str) [
    | inl m ↦ cc m.absent
    | inr h ↦
        rw (h.there new, regroup h.before n.before old n.after h.after new n.here)
          (contains-append old (h.before ++ n.before) (n.after ++ h.after))
  ]
]

-- If the replacement holds the pattern and so does the text, the loop never ends: no number of
-- rounds is enough.
pub replace_loop_diverges :
    (old new str : Text) (fuel : ℕ)
    → contains old new ≡ true
    → contains old str ≡ true
    → replace_loop fuel old new str ≡ none
unfolding replace_loop
replace_loop_diverges old new str zero again found = refl
replace_loop_diverges old new str (suc fuel) again found = rw found (
    replace_loop_diverges old new (replace_first old new str) fuel again
      (still_contains old new str again found))

contains_absent : (c : ℕ) (s : Text) → count c s ≡ 0 → contains (c ∷ []) s ≡ false
unfolding contains
contains_absent c s h = rw (index_of_absent c s h)

module _ (c : ℕ) (new : Text) (fresh : count c new ≡ 0) where
  replace_loop_char :
      (fuel : ℕ) (str : Text)
      → count c str < fuel
      → replace_loop fuel (c ∷ []) new str ≡ some (subst_char c new str)
  unfolding replace_loop
  replace_loop_char zero str enough = absurd (omega arith)
  replace_loop_char (suc fuel) str enough = elim (first_char c str) [
    | inl no_c ↦ rw (contains_absent c str no_c, subst_char_absent c new str no_c)
    | inr f ↦
        let shown = contains-append (c ∷ []) f.before f.after in
        let fewer : count c (f.before ++ (new ++ f.after)) < fuel = omega (
          arith,
          ap (count c) f.split,
          count-first c f.before f.after,
          count-append c f.before (new ++ f.after),
          count-append c new f.after,
        ) in
        rw (f.split, shown, replace_first_of_first c new f.before f.after f.absent)
          (replace_loop_char fuel (f.before ++ (new ++ f.after)) fewer
            ∙ ap some (subst_char_once c new f.before f.after fresh))
  ]

  -- For a single character the loop is the substitution in one pass.
  pub replace_char :
      (str : Text)
      → is_special c ≡ false
      → is_literal new ≡ true
      → replace str (c ∷ []) new ≡ some (subst_char c new str)
  unfolding replace
  replace_char str plain plain' =
      rw (plain, plain')
        (replace_loop_char (suc (length str)) str (omega (arith, count-le-length c str)))
