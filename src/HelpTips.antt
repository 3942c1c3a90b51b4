-- ===== src/HelpTips.antt =====
-- The help tips: the button that shows or hides them and the cookie that remembers it, from
-- src/client/Vyatta/utils/vyatta-utils.js, with `f_handleHelpButtonClick` of
-- src/client/Vyatta/js/vyatta-panels.js. The `Browser` is that of Cookies.antt.
pub mod Agreement
use vyatta_webgui.Base.{
  ℕ, zero, suc, ◌+◌, ◌-◌, ◌*◌, ◌≤◌, ◌<◌, ◌≡◌, refl, sym, ap, ◌∙◌, ◌≢◌, ◌↔◌, ◌⊎◌, inl, inr, Bool,
  true, false, not, ◌&&◌, ◌||◌, Option, none, some, List, [], ◌∷◌, ◌++◌, map, append_assoc,
  append-nil, arith, ltb, leb, ◌==◌, if◌then◌else◌, Bool-cases, Option-cases, is_some, length,
  get_elem?, drop, take, any, all, All, All-append, length-append, ==_iff, ==_refl, lt→ltb, ltb→lt,
}
use vyatta_webgui.Text.{Text, codes, text_eq, count, contains, index_of, replace_first, split}
use vyatta_webgui.Text.Equality.{text_eq_iff, text_eq_refl}
use vyatta_webgui.Login.{not_found}
use vyatta_webgui.Cookies.{help_tip_state, Jar, Lifetime, later, Browser, f_get, f_set}

abbrev pub help_on : Text
help_on = codes "helpOn"

abbrev pub help_off : Text
help_off = codes "helpOff"

-- `m_helpExpire`, in milliseconds.
abbrev pub help_expire : Lifetime
help_expire = later 18000000

-- The state by the cookie.
abbrev pub state_of : Text → Text
state_of help = if text_eq help not_found then help_off else help

unfoldable pub get_help_tips_state : Browser → Jar → Text
get_help_tips_state b jar = state_of (f_get b help_tip_state jar)

abbrev pub icon_of : Text → Text
icon_of state =
    if text_eq state help_off then codes "v_help_button_hide" else codes "v_help_button_show"

-- The class of the icon that `f_updateHelpButtonIcon` sets.
unfoldable pub update_help_button_icon : Browser → Jar → Text
update_help_button_icon b jar = icon_of (get_help_tips_state b jar)

-- The cookies and the icon.
unfoldable pub toggle_help_tips : Browser → Jar → Jar × Text
toggle_help_tips b jar =
    let next : Text = if text_eq (get_help_tips_state b jar) help_on then help_off else help_on in
    let jar' = f_set b help_tip_state next (some help_expire) jar in
    (jar', update_help_button_icon b jar')

-- The state that the icon of the button stands for.
abbrev pub shown_by : Text → Text
shown_by icon = if text_eq icon (codes "v_help_button_show") then help_on else help_off

unfoldable pub need_toggle_help_button : Browser → Jar → Text → Bool
need_toggle_help_button b jar icon =
    if text_eq (get_help_tips_state b jar) (shown_by icon) then false else true

-- The items of a panel: whether the tip of each is shown, where it has one.
abbrev pub Tips : Type 0
Tips = List (Option Bool)

abbrev pub show_tips : Bool → Tips → Tips
show_tips shown tips = map (λ t. elim t [ none ↦ none | some old ↦ some shown ]) tips

-- The editor as a click finds it: none, or one that was never filled; one without an item, of which the
-- first is asked for its items, so that the browser raises an exception; and one with a panel.
pub data EditorTips : Type 0 where
  no_editor empty_editor : EditorTips
  panel : Tips → EditorTips

-- What a click leaves: the cookies, the icon, the tips of the editor, and whether it ended in an
-- exception.
pub record HelpClick : Type 0 where
  pub jar : Jar
  pub icon : Text
  pub tips : EditorTips
  pub raised : Bool

-- The tips in a state.
abbrev pub tips_in : Text → EditorTips → EditorTips
tips_in state no_editor = no_editor
tips_in state empty_editor = empty_editor
tips_in state (panel ts) = panel (show_tips (text_eq state help_off) ts)

abbrev pub raises : EditorTips → Bool
raises empty_editor = true
raises _ = false

abbrev pub clicked : Browser → EditorTips → Jar × Text → HelpClick
clicked b tips (jar, icon) = record {
  jar = jar;
  icon = icon;
  tips = tips_in (get_help_tips_state b jar) tips;
  raised = raises tips;
}

unfoldable pub handle_help_button_click : Browser → (save : Bool) → EditorTips → Jar → HelpClick
handle_help_button_click b save tips jar =
    clicked b tips (if save then toggle_help_tips b jar else (jar, update_help_button_icon b jar))
