-- ===== src/Indicators/Reset.antt =====
-- The methods of an indicator, `f_show` and `f_hide` of `f_createFieldDirtyIndicatorPanel`, and
-- `f_resetEditorPanel`, which hides the indicators of the editor (src/client/Vyatta/js/vyatta-panels.js).
use vyatta_webgui.Base.{
  ◌≡◌, refl, ap, Bool, true, false, not, Option, none, some, List, [], ◌∷◌, if◌then◌else◌, all,
}
use vyatta_webgui.Text.{Text, codes, text_eq}
use vyatta_webgui.Text.Equality.{text_eq_iff}
use vyatta_webgui.Escape.{◌>>=◌}
use vyatta_webgui.Replace.{replace}
use vyatta_webgui.Tree.{Flag}
use vyatta_webgui.Indicators.{
  FlagName, status_down, status_unknown, status_plus, status_minus, no_flag,
}
use vyatta_webgui.Indicators.Marked.{
  marked, all-All, every_flag, every_name, flag_of_all, name_of_all,
}

unfoldable pub f_show : Bool → Text → Option Text
f_show is_error html =
    if not is_error
    then replace html (codes "empty") (codes "statusUnknown")
    else replace html (codes "empty") (codes "statusDown")

unfoldable pub f_hide : Text → Option Text
f_hide html = replace html (codes "statusUnknown") (codes "empty") >>= λ h.
    replace h (codes "statusDown") (codes "empty")

-- The items of the form: the markup of the indicator of each, where it has one.
unfoldable pub reset_editor_panel : List (Option Text) → Option (List (Option Text))
reset_editor_panel [] = some []
reset_editor_panel (none ∷ items) = reset_editor_panel items >>= λ rest. some (none ∷ rest)
reset_editor_panel (some html ∷ items) =
    f_hide html >>= λ h. reset_editor_panel items >>= λ rest. some (some h ∷ rest)

-- What is left of a mark that is hidden.
abbrev pub hidden : FlagName → FlagName
hidden status_down = no_flag
hidden status_unknown = no_flag
hidden status_plus = status_plus
hidden status_minus = status_minus
hidden no_flag = no_flag

abbrev is_text : Option Text → Text → Bool
is_text none t = false
is_text (some s) t = text_eq s t

is_text_eq : (o : Option Text) (t : Text) → is_text o t ≡ true → o ≡ some t
is_text_eq none t h = absurd (cc)
is_text_eq (some s) t h = ap some ((text_eq_iff s t).0 h)

abbrev hides : Flag → FlagName → Bool
hides t f = is_text (f_hide (marked t f)) (marked t (hidden f))

every_hides : all (λ t. all (hides t) every_name) every_flag ≡ true
unfolding f_hide replace text_eq
every_hides = refl

-- An indicator that is hidden loses the mark of an error and of a change, and keeps those of a created
-- and of a deleted node.
f_hide-marked : (t : Flag) (f : FlagName) → f_hide (marked t f) ≡ some (marked t (hidden f))
f_hide-marked t f =
    let by_flag = all-All (λ x. all (hides x) every_name) every_flag every_hides in
    let by_name =
      all-All (hides t) every_name (flag_of_all (λ x. all (hides x) every_name ≡ true) by_flag t) in
    is_text_eq _ (marked t (hidden f)) (name_of_all (λ x. hides t x ≡ true) by_name f)
