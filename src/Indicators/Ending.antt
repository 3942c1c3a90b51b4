-- ===== src/Indicators/Ending.antt =====
-- The class of a field that loses the focus, and the marks in it.
use vyatta_webgui.Base.{
  ℕ, suc, ◌+◌, ◌≡◌, refl, ap, ◌∙◌, true, false, some, [], ◌∷◌, ◌++◌, arith, Bool-cases, inl, inr,
  if◌then◌else◌, length, length-append,
}
use vyatta_webgui.Text.{Text, codes, count, contains, index_of, replace_first, strip_prefix}
use vyatta_webgui.Values.{Value, loosely_equal}
use vyatta_webgui.Replace.{is_literal, replace_loop, replace}
use vyatta_webgui.Replace.Termination.{replace_absent}
use vyatta_webgui.Indicators.{text_like, handle_conf_field_off_focus}

-- The marks of a field: none, that of a submitted value, and that of a changed one.
pub data Mark : Type 0 where
  unmarked submit unsubmit : Mark

abbrev pub mark_text : Mark → Text
mark_text unmarked = []
mark_text submit = codes " v-textfield-submit"
mark_text unsubmit = codes " v-textfield-unsubmit"

-- What is left of a mark that is taken away: its space.
abbrev pub left_by : Mark → Text
left_by unmarked = []
left_by _ = codes " "

-- The mark that a value asks for.
abbrev pub mark_of : Value → Value → Mark
mark_of original value = if loosely_equal original value then submit else unsubmit

-- A pattern that begins with a letter which `own` does not have is found behind `own` only.
module _ (v : ℕ) (p s : Text) where
  contains_behind :
      (own : Text) → count v own ≡ 0 → contains (v ∷ p) (own ++ s) ≡ contains (v ∷ p) s
  unfolding contains index_of count strip_prefix
  contains_behind [] h = refl
  contains_behind (c ∷ own) h = ground (arith, contains_behind own)

  replace_behind :
      (new own : Text)
      → count v own ≡ 0
      → replace_first (v ∷ p) new (own ++ s) ≡ own ++ replace_first (v ∷ p) new s
  unfolding replace_first count strip_prefix
  replace_behind new [] h = refl
  replace_behind new (c ∷ own) h = ground (arith, replace_behind new own)

-- Two rounds of the loop are enough where the first leaves no pattern.
loop_once :
    (k : ℕ) (old new str : Text)
    → contains old str ≡ true
    → contains old (replace_first old new str) ≡ false
    → replace_loop (suc (suc k)) old new str ≡ some (replace_first old new str)
unfolding replace_loop
loop_once k old new str h g = rw (h, g) refl

module _ (v : ℕ) (p own s t : Text) (apart : count v own ≡ 0)
    (plain : is_literal (v ∷ p) ≡ true) where
  -- What is behind `own` has the pattern once, and `t` is what is left of it.
  replace_once :
      contains (v ∷ p) s ≡ true
      → replace_first (v ∷ p) [] s ≡ t
      → contains (v ∷ p) t ≡ false
      → (k : ℕ) → length s ≡ suc k
      → replace (own ++ s) (v ∷ p) [] ≡ some (own ++ t)
  unfolding replace
  replace_once found gone clean k long =
      let behind = replace_behind v p s [] own apart ∙ ap (own ++◌) gone in
      let fuel : length (own ++ s) ≡ suc (length own + k) =
        omega (arith, length-append own s, long) in
      rw (plain, fuel)
        (loop_once (length own + k) (v ∷ p) [] (own ++ s) (contains_behind v p s own apart ∙ found)
            (ap (contains (v ∷ p)) behind ∙ contains_behind v p t own apart ∙ clean)
          ∙ ap some behind)

  replace_none : contains (v ∷ p) s ≡ false → replace (own ++ s) (v ∷ p) [] ≡ some (own ++ s)
  replace_none clean =
      replace_absent (own ++ s) (v ∷ p) [] plain refl (contains_behind v p s own apart ∙ clean)

module _ (own : Text) (original value : Value) (apart : count 118 own ≡ 0) where
  -- What the call leaves, once both marks are taken away.
  off_focus_base :
      (class_name cn base : Text)
      → replace class_name (codes "v-textfield-unsubmit") [] ≡ some cn
      → replace cn (codes "v-textfield-submit") [] ≡ some base
      → handle_conf_field_off_focus (text_like class_name original value)
        ≡ some (some (base ++ mark_text (mark_of original value)))
  unfolding handle_conf_field_off_focus
  off_focus_base class_name cn base h k = elim (Bool-cases (loosely_equal original value)) [
    | inl e ↦ rw (h, k, e, handle_conf_field_off_focus) refl
    | inr e ↦ rw (h, k, e, handle_conf_field_off_focus) refl
  ]

  -- A text, number or choice that loses the focus, whose class is some text without the letter `v`
  -- with at most one mark behind it: the old mark is taken away but for its space, all else of the class
  -- stays, and there is one mark behind it, that of a changed value exactly if the field shows a value
  -- that JavaScript takes for another one than the original, and else that of a submitted one.
  pub handle_conf_field_off_focus-Marked :
      (old : Mark)
      → handle_conf_field_off_focus (text_like (own ++ mark_text old) original value)
        ≡ some (some ((own ++ left_by old) ++ mark_text (mark_of original value)))
  unfolding contains index_of replace_first
  handle_conf_field_off_focus-Marked unmarked =
      off_focus_base (own ++ []) (own ++ []) (own ++ [])
        (replace_none 118 (codes "-textfield-unsubmit") own [] [] apart refl refl)
        (replace_none 118 (codes "-textfield-submit") own [] [] apart refl refl)
  handle_conf_field_off_focus-Marked submit =
      off_focus_base (own ++ mark_text submit) (own ++ mark_text submit) (own ++ codes " ")
        (replace_none 118 (codes "-textfield-unsubmit") own (mark_text submit) [] apart refl refl)
        (replace_once 118 (codes "-textfield-submit") own (mark_text submit) (codes " ") apart refl
          refl refl refl 18 refl)
  handle_conf_field_off_focus-Marked unsubmit =
      off_focus_base (own ++ mark_text unsubmit) (own ++ codes " ") (own ++ codes " ")
        (replace_once 118 (codes "-textfield-unsubmit") own (mark_text unsubmit) (codes " ") apart
          refl refl refl refl 20 refl)
        (replace_none 118 (codes "-textfield-submit") own (codes " ") [] apart refl refl)
