-- ===== src/Tabs/Access.antt =====
-- A user without the right to configure stays in the operation tab.
use mathlib.Core.Path.{subst}
use vyatta_webgui.Base.{
  ℕ, ◌≡◌, refl, sym, ◌∙◌, ◌⊎◌, inl, inr, Bool, true, false, ◌||◌, List, [], ◌∷◌, ◌++◌, arith, ◌==◌,
  Bool-cases, any,
}
use vyatta_webgui.Text.{Text, text_eq}
use vyatta_webgui.Tabs.{
  BaseSystem, i_conf, i_oper, conf_name, oper_name, get_tab_index, is_disabled, show_tab,
  handle_tab_click, show_operational_tab, create_tab_html, disabled_tab,
}

-- What can happen to the tabs once they are shown: a click on a tab, and another reply that takes the
-- user to the operation tab.
pub data TabEvent : Type 0 where
  click : Text → TabEvent
  no_permission : TabEvent

abbrev pub tab_step : Bool → BaseSystem → TabEvent → BaseSystem
tab_step is_ie s (click tab_name) = (handle_tab_click is_ie s tab_name).0
tab_step is_ie s no_permission = (show_operational_tab is_ie s).0

unfoldable pub tab_run : Bool → BaseSystem → List TabEvent → BaseSystem
tab_run is_ie s [] = s
tab_run is_ie s (e ∷ events) = tab_run is_ie (tab_step is_ie s e) events

-- The operation tab is shown and only the configuration tab is disabled.
pub record Restricted (s : BaseSystem) : Type 0 where
  pub shows : s.sel_tab_index ≡ i_oper
  pub conf_off : is_disabled s i_conf ≡ true
  pub oper_on : is_disabled s i_oper ≡ false
  pub conf_html : create_tab_html s conf_name ≡ disabled_tab s conf_name

any-append :
    {A : Type 0} (p : A → Bool) (xs ys : List A) → any p (xs ++ ys) ≡ (any p xs || any p ys)
any-append p [] ys = refl
any-append p (x ∷ xs) ys = ground (arith, any-append p xs ys)

-- The index of a tab is 0 or 1.
get_tab_index-cases : (t : Text) → (get_tab_index t ≡ i_conf) ⊎ (get_tab_index t ≡ i_oper)
unfolding get_tab_index
get_tab_index-cases t = elim (Bool-cases (text_eq t conf_name)) [
  | inl e ↦ inl (rw (e, get_tab_index))
  | inr e ↦ elim (Bool-cases (text_eq t oper_name)) [
    | inl f ↦ inr (rw (e, f, get_tab_index))
    | inr f ↦ inl (rw (e, f, get_tab_index))
  ]
]

show_tab_keeps :
    (is_ie : Bool) (s : BaseSystem) (i : ℕ)
    → ((show_tab is_ie s i).0.sel_tab_index ≡ i)
      × ((show_tab is_ie s i).0.disable_tabs ≡ s.disable_tabs)
unfolding show_tab
show_tab_keeps is_ie s i = ground arith

-- What stays in the operation tab.
abbrev Stays : BaseSystem → Type 0
Stays s =
    (s.sel_tab_index ≡ i_oper) × (is_disabled s i_conf ≡ true) × (is_disabled s i_oper ≡ false)

click-Stays :
    (is_ie : Bool) (s : BaseSystem) (t : Text) → Stays s → Stays (handle_tab_click is_ie s t).0
unfolding handle_tab_click is_disabled
click-Stays is_ie s t (sel, off, on) = elim (get_tab_index-cases t) [
  | inl e ↦ rw (e, off, handle_tab_click) (sel, off, on)
  | inr e ↦
      let k = show_tab_keeps is_ie s i_oper in
      rw (e, on, handle_tab_click) (k.0, rw (k.1) off, rw (k.1) on)
]

disable_conf :
    (s : BaseSystem)
    → is_disabled s i_oper ≡ false
    → (is_disabled (record s { disable_tabs = s.disable_tabs ++ (i_conf ∷ []) }) i_conf ≡ true)
      × (is_disabled (record s { disable_tabs = s.disable_tabs ++ (i_conf ∷ []) }) i_oper ≡ false)
unfolding is_disabled
disable_conf s on = (
  any-append (λ j. i_conf == j) s.disable_tabs (i_conf ∷ []) ∙ ground arith,
  any-append (λ j. i_oper == j) s.disable_tabs (i_conf ∷ []) ∙ ground (arith, on),
)

click_oper :
    (is_ie : Bool) (s : BaseSystem)
    → is_disabled s i_oper ≡ false
    → handle_tab_click is_ie s oper_name ≡ show_tab is_ie s i_oper
unfolding handle_tab_click get_tab_index text_eq
click_oper is_ie s on = rw on

shown-Stays :
    (is_ie : Bool) (s : BaseSystem)
    → is_disabled s i_conf ≡ true
    → is_disabled s i_oper ≡ false
    → Stays (show_tab is_ie s i_oper).0
unfolding is_disabled
shown-Stays is_ie s off on =
    let k = show_tab_keeps is_ie s i_oper in (k.0, rw (k.1) off, rw (k.1) on)

show_operational-Stays :
    (is_ie : Bool) (s : BaseSystem)
    → is_disabled s i_oper ≡ false
    → Stays (show_operational_tab is_ie s).0
unfolding show_operational_tab
show_operational-Stays is_ie s on =
    let s1 : BaseSystem = record s { disable_tabs = s.disable_tabs ++ (i_conf ∷ []) } in
    let d = disable_conf s on in
    subst (λ r. Stays r.0) (sym (click_oper is_ie s1 d.1)) (shown-Stays is_ie s1 d.0 d.1)

run-Stays :
    (is_ie : Bool) (s : BaseSystem) (events : List TabEvent)
    → Stays s
    → Stays (tab_run is_ie s events)
unfolding tab_run
run-Stays is_ie s [] h = h
run-Stays is_ie s (click t ∷ events) h =
    run-Stays is_ie (handle_tab_click is_ie s t).0 events (click-Stays is_ie s t h)
run-Stays is_ie s (no_permission ∷ events) (sel, off, on) =
    run-Stays is_ie (show_operational_tab is_ie s).0 events (show_operational-Stays is_ie s on)

Stays-Restricted : (s : BaseSystem) → Stays s → Restricted s
unfolding create_tab_html get_tab_index text_eq
Stays-Restricted s (sel, off, on) = record {
  shows = sel;
  conf_off = off;
  oper_on = on;
  conf_html = rw off;
}

-- Once a reply has taken the user to the operation tab, in a state where that tab is not disabled,
-- nothing leads back: after any further clicks on tabs and any further such replies, the operation
-- tab is the one that is shown and is not disabled, and the configuration tab is disabled, in the
-- state and in the header.
pub operator-Restricted :
    (is_ie : Bool) (s : BaseSystem) (events : List TabEvent)
    → is_disabled s i_oper ≡ false
    → Restricted (tab_run is_ie s (no_permission ∷ events))
unfolding tab_run
operator-Restricted is_ie s events on =
    Stays-Restricted _
      (run-Stays is_ie (show_operational_tab is_ie s).0 events (show_operational-Stays is_ie s on))
