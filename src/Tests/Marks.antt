-- ===== src/Tests/Marks.antt =====
-- Runs on the nodes of the tree, the toolbar, the tabs and the login.
use vyatta_webgui.Base.{
  ◌≡◌, refl, ◌≢◌, ◌↔◌, ◌⊎◌, ℕ, inl, true, false, Option, none, some, List, [], ◌∷◌, arith, any, All,
}
use vyatta_webgui.Text.{Text, codes, text_eq}
use vyatta_webgui.Tree.{
  Attributes, Node, error, set, active, Configured, handle_propagate_parent_nodes,
  get_node_style_image,
}
use vyatta_webgui.Tree.Flags.{get_node_style_image-error_iff}
use vyatta_webgui.Tree.Propagation.{SetLike, handle_propagate-SetLike}
use vyatta_webgui.CommitErrors.Flagging.{Blamed}
use vyatta_webgui.Toolbar.{
  Buttons, on_renderer, update_toolbar_buttons, toolbar_click, get_node_path_str, filter_wildcard,
}
use vyatta_webgui.Toolbar.Guards.{
  HasChange, ShowsIcon, toolbar_click-on_renderer, commit_cmd, discard_cmd, filter_wildcard_lem,
}
use vyatta_webgui.Toolbar.Paths.{get_node_path_str_lem}
use vyatta_webgui.Text.Split.{join}
use vyatta_webgui.Tabs.{base_system, is_disabled, i_oper}
use vyatta_webgui.Tabs.Access.{click, no_permission, tab_run, Restricted, operator-Restricted}

abbrev attributes : Attributes
attributes = record {
  configured = some active;
  configured_before = some active;
  multi = false;
  type = none;
  enums = none;
  values = none;
  default_val = none;
}

abbrev eth0 : Node
eth0 = record {
  text = codes "eth0";
  attributes = attributes;
  html = some (codes "<img src=\"images/empty.gif\"/>");
}

abbrev interfaces : Node
interfaces = record { text = codes "interfaces"; attributes = attributes; html = none }

handle_propagate-SetLike_example :
    SetLike
      (eth0 ∷ (interfaces ∷ []))
      (handle_propagate_parent_nodes none (eth0 ∷ (interfaces ∷ [])))
handle_propagate-SetLike_example = handle_propagate-SetLike none (eth0 ∷ (interfaces ∷ []))

get_node_style_image-error_iff_example :
    (get_node_style_image (some ((codes "eth0" ∷ []) ∷ [])) eth0 none 2 true ≡ some error) ↔ (
      Blamed (codes "eth0") none ((codes "eth0" ∷ []) ∷ [])
      × ((false ≡ false) ⊎ ((true ≡ true) ⊎ (◌≡◌ {A = ℕ} 2 0))))
get_node_style_image-error_iff_example =
    get_node_style_image-error_iff ((codes "eth0" ∷ []) ∷ []) eth0 none 2 true

abbrev markup : Text
markup = codes "<img src=\"images/empty.gif\"/>"

abbrev toolbar : Buttons
toolbar = record { commit = some []; discard = some []; undo = none; redo = none }

abbrev root_children : List (Option Configured)
root_children = some active ∷ (some set ∷ [])

commit_icon :
    ShowsIcon (update_toolbar_buttons (on_renderer root_children) toolbar) (codes "v_commit_button")
unfolding on_renderer update_toolbar_buttons
commit_icon = inl refl

toolbar_click-on_renderer_example :
    ((toolbar_click true (codes "v_commit_button") commit_cmd ≡ some (commit_cmd ∷ []))
      ↔ HasChange root_children)
    × ((toolbar_click true (codes "v_commit_button") discard_cmd ≡ some (discard_cmd ∷ []))
        ↔ (HasChange root_children × (true ≡ true)))
toolbar_click-on_renderer_example =
    toolbar_click-on_renderer root_children toolbar (codes "v_commit_button") true commit_icon

abbrev choices : List Text
choices = codes "a" ∷ (codes "*" ∷ [])

filter_wildcard_lem_example :
    ((filter_wildcard choices ≡ none) ↔ (any (λ v. text_eq v (codes "*")) choices ≡ false))
    × ((narr : List Text) → filter_wildcard choices ≡ some narr → All (λ v. v ≢ codes "*") narr)
filter_wildcard_lem_example = filter_wildcard_lem choices

get_node_path_str_lem_example :
    (get_node_path_str (codes "Configuration" ∷ (codes "interfaces" ∷ (codes "eth0" ∷ [])))
      ≡ join (codes " ") (codes "interfaces" ∷ (codes "eth0" ∷ [])))
    × (get_node_path_str (codes "Operation" ∷ (codes "interfaces" ∷ (codes "eth0" ∷ [])))
        ≡ join (codes " ") (codes "interfaces" ∷ (codes "eth0" ∷ [])))
get_node_path_str_lem_example =
    get_node_path_str_lem 105 (codes "nterfaces") (codes "eth0" ∷ []) (λ e. omega (arith, e))

oper_enabled : is_disabled base_system i_oper ≡ false
unfolding is_disabled
oper_enabled = refl

operator-Restricted_example :
    Restricted (tab_run false base_system (no_permission ∷ (click (codes "configuration") ∷ [])))
operator-Restricted_example =
    operator-Restricted false base_system (click (codes "configuration") ∷ []) oper_enabled
