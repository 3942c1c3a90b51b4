-- ===== src/Toolbar/Guards.antt =====
-- Which commands the buttons let through, and what the editor offers for a node.
use vyatta_webgui.Base.{
  ℕ, zero, suc, ◌≡◌, refl, ap, ◌∙◌, ◌≢◌, ◌↔◌, ◌⊎◌, inl, inr, Bool, true, false, if◌then◌else◌,
  Option, none, some, List, [], ◌∷◌, arith, Bool-cases, get_elem?, any, All,
}
use vyatta_webgui.Text.{Text, codes, text_eq}
use vyatta_webgui.Text.Equality.{text_eq_iff}
use vyatta_webgui.Tree.{Attributes, Configured}
use vyatta_webgui.Toolbar.{
  on_renderer, is_changed, Buttons, update_toolbar_buttons, send_cli_command, toolbar_click,
  toolbar_handler, handle_conf_button, delete_button, create_button, can_delete, can_create,
  filter_loop, filter_wildcard, set_icon_class,
}

-- Some child of the root differs from the running configuration.
pub record HasChange (children : List (Option Configured)) : Type 0 where
  pub place : ℕ
  pub conf : Option Configured
  pub at : get_elem? children place ≡ some conf
  pub changed : is_changed conf ≡ true

on_renderer_sound :
    (children : List (Option Configured)) → on_renderer children ≡ true → HasChange children
unfolding on_renderer
on_renderer_sound [] h = absurd (cc)
on_renderer_sound (conf ∷ more) h = elim (Bool-cases (is_changed conf)) [
  | inl e ↦ record { place = 0; conf = conf; at = refl; changed = e }
  | inr e ↦
      let ih = on_renderer_sound more (rw e at h) in
      record { place = suc ih.place; conf = ih.conf; at = ih.at; changed = ih.changed }
]

on_renderer_complete :
    (children : List (Option Configured)) (i : ℕ) (conf : Option Configured)
    → get_elem? children i ≡ some conf
    → is_changed conf ≡ true
    → on_renderer children ≡ true
unfolding on_renderer
on_renderer_complete [] i conf at h = absurd (cc)
on_renderer_complete (c ∷ more) zero conf at h =
    let same : c ≡ conf = cc in rw (ap is_changed same ∙ h)
on_renderer_complete (c ∷ more) (suc i) conf at h =
    ground (arith, on_renderer_complete more i conf at h)

set_icon_class-eq :
    (o : Option Text) (cls icon : Text) → set_icon_class o cls ≡ some icon → cls ≡ icon
set_icon_class-eq none cls icon h = cc
set_icon_class-eq (some c) cls icon h = cc

-- The icon that the commit button or the discard button shows.
abbrev pub ShowsIcon : Buttons → Text → Type 0
ShowsIcon b icon = (b.commit ≡ some icon) ⊎ (b.discard ≡ some icon)

enabled :
    (b : Buttons) (cmds : List Text) (icon : Text)
    → ShowsIcon (update_toolbar_buttons true b) icon
    → send_cli_command icon cmds ≡ some cmds
unfolding update_toolbar_buttons send_cli_command
enabled b cmds icon (inl h) = rw (← set_icon_class-eq b.commit _ icon h)
enabled b cmds icon (inr h) = rw (← set_icon_class-eq b.discard _ icon h)

disabled :
    (b : Buttons) (cmds : List Text) (icon : Text)
    → ShowsIcon (update_toolbar_buttons false b) icon
    → send_cli_command icon cmds ≡ none
unfolding update_toolbar_buttons send_cli_command
disabled b cmds icon (inl h) = rw (← set_icon_class-eq b.commit _ icon h)
disabled b cmds icon (inr h) = rw (← set_icon_class-eq b.discard _ icon h)

-- The commands of a button that shows such an icon.
send_cli_command-on_renderer :
    (children : List (Option Configured)) (b : Buttons) (cmds : List Text) (icon : Text)
    → ShowsIcon (update_toolbar_buttons (on_renderer children) b) icon
    → (send_cli_command icon cmds ≡ some cmds) ↔ HasChange children
send_cli_command-on_renderer children b cmds icon h = elim (Bool-cases (on_renderer children)) [
  | inl e ↦ (λ _. on_renderer_sound children e, λ _. enabled b cmds icon (rw e at h))
  | inr e ↦ (
    λ s. absurd (cc (disabled b cmds icon (rw e at h))),
    λ c. absurd (cc (on_renderer_complete children c.place c.conf c.at c.changed)),
  )
]

abbrev pub commit_cmd : Text
commit_cmd = codes "commit"

abbrev pub discard_cmd : Text
discard_cmd = codes "discard"

toolbar_click-commit :
    (agreed : Bool) (icon : Text)
    → toolbar_click agreed icon commit_cmd ≡ send_cli_command icon (commit_cmd ∷ [])
unfolding toolbar_click toolbar_handler text_eq
toolbar_click-commit agreed icon = refl

toolbar_click-discard :
    (agreed : Bool) (icon : Text)
    → toolbar_click agreed icon discard_cmd
      ≡ (if agreed then send_cli_command icon (discard_cmd ∷ []) else none)
unfolding toolbar_click toolbar_handler text_eq
toolbar_click-discard agreed icon = refl

-- After the tree was rendered, a click on a button that shows the icon of the commit or the discard
-- button then: the command commit goes to the server exactly when a child of the root is changed, and
-- the command discard exactly when one is and the user answers yes.
pub toolbar_click-on_renderer :
    (children : List (Option Configured)) (b : Buttons) (icon : Text) (agreed : Bool)
    → ShowsIcon (update_toolbar_buttons (on_renderer children) b) icon
    → ((toolbar_click agreed icon commit_cmd ≡ some (commit_cmd ∷ [])) ↔ HasChange children)
      × ((toolbar_click agreed icon discard_cmd ≡ some (discard_cmd ∷ []))
          ↔ (HasChange children × (agreed ≡ true)))
toolbar_click-on_renderer children b icon agreed h = (
  rw (toolbar_click-commit agreed icon)
      (send_cli_command-on_renderer children b (commit_cmd ∷ []) icon h),
  rw (toolbar_click-discard agreed icon) (asked agreed),
)
  where
    iff : (send_cli_command icon (discard_cmd ∷ []) ≡ some (discard_cmd ∷ [])) ↔ HasChange children
    iff = send_cli_command-on_renderer children b (discard_cmd ∷ []) icon h

    asked :
        (y : Bool)
        → ((if y then send_cli_command icon (discard_cmd ∷ []) else none) ≡ some (discard_cmd ∷ []))
          ↔ (HasChange children × (y ≡ true))
    asked true = (λ e. (iff.0 e, refl), λ p. iff.1 p.0)
    asked false = (λ e. absurd (cc e), λ p. absurd (cc (p.1)))

-- The editor offers to delete exactly a node that can be deleted, and to create exactly one that
-- can be created and has no type; the fields of the leaves are hidden exactly where it offers to
-- create.
handle_conf_button_lem :
    (a : Attributes)
    → (((handle_conf_button a).button ≡ some delete_button) ↔ (can_delete a.configured ≡ true))
      × (((handle_conf_button a).button ≡ some create_button)
          ↔ ((can_create a.configured ≡ true) × (a.type ≡ none)))
      × (((handle_conf_button a).show_leaf ≡ false)
          ↔ ((handle_conf_button a).button ≡ some create_button))
unfolding handle_conf_button
handle_conf_button_lem a = ground arith

-- The wildcard.
filter_loop_lem :
    (arr : List Text)
    → ((filter_loop arr).0 ≡ any (λ v. text_eq v (codes "*")) arr)
      × All (λ v. v ≢ codes "*") (filter_loop arr).1
unfolding filter_loop
filter_loop_lem [] = (refl, tt)
filter_loop_lem (v ∷ vs) = elim (Bool-cases (text_eq v (codes "*"))) [
  | inl e ↦ rw e (refl, (filter_loop_lem vs).1)
  | inr e ↦
      rw e (
        (filter_loop_lem vs).0,
        (λ s. cc ((text_eq_iff v (codes "*")).1 s), (filter_loop_lem vs).1),
      )
]

-- The filter gives back nothing unless a value is the wildcard, and else the values without it.
pub filter_wildcard_lem :
    (arr : List Text)
    → ((filter_wildcard arr ≡ none) ↔ (any (λ v. text_eq v (codes "*")) arr ≡ false))
      × ((narr : List Text) → filter_wildcard arr ≡ some narr → All (λ v. v ≢ codes "*") narr)
unfolding filter_wildcard
filter_wildcard_lem arr =
    let (found, clean) = filter_loop_lem arr in
    elim (Bool-cases (filter_loop arr).0) [
      | inl e ↦ (
        (λ h. ground arith, λ h. ground (arith, found)),
        λ narr h. let same : (filter_loop arr).1 ≡ narr = ground arith in rw same at clean,
      )
      | inr e ↦ ((λ h. ground (arith, found), λ h. ground arith), λ narr h. absurd (ground arith))
    ]
