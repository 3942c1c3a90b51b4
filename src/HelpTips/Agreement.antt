-- ===== src/HelpTips/Agreement.antt =====
-- The button, the tips and the cookie say the same.
use vyatta_webgui.Base.{
  ◌≡◌, refl, ap, ◌∙◌, ◌⊎◌, inl, inr, true, false, arith, ◌↔◌, if◌then◌else◌, Bool-cases,
}
use vyatta_webgui.Text.{Text, text_eq}
use vyatta_webgui.Cookies.{help_tip_state, Jar, Browser}
use vyatta_webgui.Cookies.Keeping.{Laws, CleanJar, f_set-Kept}
use vyatta_webgui.HelpTips.{
  tips_in, icon_of, state_of, shown_by, help_on, help_off, get_help_tips_state,
  update_help_button_icon, toggle_help_tips, need_toggle_help_button, EditorTips, no_editor,
  empty_editor, panel, raises, HelpClick, handle_help_button_click,
}

-- The state after a toggle.
abbrev pub toggled : Text → Text
toggled state = if text_eq state help_on then help_off else help_on

-- The button and the tips show the state, and ask for no further change.
pub record Agree (b : Browser) (tips : EditorTips) (state : Text) (c : HelpClick) : Type 0 where
  pub remembers : get_help_tips_state b c.jar ≡ state
  pub icon : c.icon ≡ icon_of state
  pub settled : need_toggle_help_button b c.jar c.icon ≡ false
  pub tips_shown : c.tips ≡ tips_in state tips
  pub completes : (c.raised ≡ true) ↔ (tips ≡ empty_editor)

toggled-cases : (s : Text) → (toggled s ≡ help_off) ⊎ (toggled s ≡ help_on)
toggled-cases s = elim (Bool-cases (text_eq s help_on)) [
  | inl e ↦ inl (rw e refl)
  | inr e ↦ inr (rw e refl)
]

state_of-toggled : (s : Text) → state_of (toggled s) ≡ toggled s
unfolding text_eq
state_of-toggled s = elim (toggled-cases s) [ inl e ↦ rw e refl | inr e ↦ rw e refl ]

settled_at : (s : Text) → text_eq (toggled s) (shown_by (icon_of (toggled s))) ≡ true
unfolding text_eq
settled_at s = elim (toggled-cases s) [ inl e ↦ rw e refl | inr e ↦ rw e refl ]

raises_iff : (tips : EditorTips) → (raises tips ≡ true) ↔ (tips ≡ empty_editor)
raises_iff no_editor = (λ h. absurd (cc h), λ h. absurd (cc h))
raises_iff empty_editor = (λ h. refl, λ h. refl)
raises_iff (panel ts) = (λ h. absurd (cc h), λ h. absurd (cc h))

-- A click on the button that saves the state, in a browser that keeps cookies as documented: the
-- cookie has the other state from then on, the icon of the button stands for it, every tip of the
-- panel is shown exactly if the state is off, the button does not have to be updated again, and the call
-- raises an exception exactly if the editor has no item.
pub help_click-Agree :
    (b : Browser)
    → Laws b
    → (jar : Jar) → CleanJar jar
    → (tips : EditorTips)
    → Agree b tips (toggled (get_help_tips_state b jar)) (handle_help_button_click b true tips jar)
unfolding handle_help_button_click toggle_help_tips update_help_button_icon need_toggle_help_button
    get_help_tips_state
help_click-Agree b laws jar clean tips =
    let state = toggled (get_help_tips_state b jar) in
    let kept = f_set-Kept b laws jar clean help_tip_state state 18000000 (omega arith) in
    let remembers : get_help_tips_state b (handle_help_button_click b true tips jar).jar ≡ state =
      ap state_of kept.reads ∙ state_of-toggled (get_help_tips_state b jar) in
    record {
      remembers = remembers;
      icon = ap icon_of remembers;
      settled =
          ap (λ s. if text_eq s (shown_by (icon_of s)) then false else true) remembers
          ∙ ap (λ t. if t then false else true) (settled_at (get_help_tips_state b jar));
      tips_shown = ap (λ s. tips_in s tips) remembers;
      completes = raises_iff tips;
    }
