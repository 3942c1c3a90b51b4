-- ===== src/Toolbar.antt =====
-- The buttons of the configuration view. From src/client/Vyatta/js/vyatta-tree.js: `f_onRenderer`,
-- `f_handleConfButton`, `f_getNodePathStr`, `filterWildcard`, `f_isExpandableNode`. From
-- src/client/Vyatta/js/vyatta-panels.js: `f_updateToolbarButtons`, `f_sendCLICommand`, the handlers of
-- `f_createToolbarButton` and `f_createConfButton`.
pub mod Guards
pub mod Paths
use vyatta_webgui.Base.{
  ℕ, zero, suc, Bool, true, false, not, ◌&&◌, ◌||◌, if◌then◌else◌, Option, none, some, List, [],
  ◌∷◌, ◌++◌, map, is_some,
}
use vyatta_webgui.Text.{Text, codes, text_eq, index_of, strip_prefix}
use vyatta_webgui.Tree.{Configured, active, active_plus, set, delete, add, other, Attributes}

abbrev pub is_changed : Option Configured → Bool
is_changed (some set) = true
is_changed (some active_plus) = true
is_changed (some delete) = true
is_changed _ = false

-- The walk of `f_onRenderer` over the children of the root: `m_isCommitAvailable`.
unfoldable pub on_renderer : List (Option Configured) → Bool
on_renderer [] = false
on_renderer (conf ∷ more) = if is_changed conf then true else on_renderer more

-- The icon class of each button, `none` where the panel has no such button.
pub record Buttons : Type 0 where
  pub commit : Option Text
  pub discard : Option Text
  pub undo : Option Text
  pub redo : Option Text

-- `setIconClass` on a button that may be undefined.
abbrev pub set_icon_class : Option Text → Text → Option Text
set_icon_class none cls = none
set_icon_class (some _) cls = some cls

unfoldable pub update_toolbar_buttons : Bool → Buttons → Buttons
update_toolbar_buttons available b = record {
  commit = set_icon_class b.commit (
      if available
      then codes "v_commit_button"
      else codes "v_commit_button_no x-toolbar x-item-disabled");
  discard = set_icon_class b.discard (
      if available
      then codes "v_discard_button"
      else codes "v_discard_button_no x-toolbar x-item-disabled");
  undo =
      set_icon_class b.undo (if available then codes "v_undo_button" else codes "v_undo_button_no");
  redo =
      set_icon_class b.redo (if available then codes "v_redo_button" else codes "v_redo_button_no");
}

abbrev pub is_positive : Option ℕ → Bool
is_positive (some (suc n)) = true
is_positive _ = false

-- `f_sendCLICommand`: the commands that go on to the server, none where the button is disabled.
unfoldable pub send_cli_command : Text → List Text → Option (List Text)
unfolding index_of
send_cli_command icon_cls cmds =
    if is_positive (index_of (codes "_no") icon_cls) then none else some cmds

-- What a click on a button of the toolbar starts.
pub data ToolAction : Type 0 where
  operation : (command : Text) → ToolAction
  collapse_all : ToolAction
  ask_discard : ToolAction
  configuration : (command : Text) → ToolAction

abbrev pub config_dir : Text
config_dir = codes "/opt/vyatta/etc/config/"

unfoldable pub toolbar_handler : Text → ToolAction
toolbar_handler cmd_name =
    if text_eq cmd_name (codes "save") || text_eq cmd_name (codes "load")
    then operation (codes "show files '" ++ (config_dir ++ codes "'"))
    else if text_eq cmd_name (codes "collapse")
    then collapse_all
    else if text_eq cmd_name (codes "discard")
    then ask_discard
    else configuration (if text_eq cmd_name (codes "view") then codes "show session" else cmd_name)

-- The handler of a button of the toolbar, up to the request: the commands that go to the server as
-- configuration. `agreed` is the answer where the user is asked.
unfoldable pub toolbar_click : (agreed : Bool) → (icon_cls cmd_name : Text) → Option (List Text)
toolbar_click agreed icon_cls cmd_name = elim (toolbar_handler cmd_name) [
  | operation command ↦ none
  | collapse_all ↦ none
  | ask_discard ↦ if agreed then send_cli_command icon_cls (cmd_name ∷ []) else none
  | configuration command ↦ send_cli_command icon_cls (command ∷ [])
]

-- The button of the editor's title, and the flags `m_showLeaf` and `m_hasButton` of the editor.
pub data ButtonKind : Type 0 where
  delete_button create_button : ButtonKind

pub record ConfButton : Type 0 where
  pub button : Option ButtonKind
  pub show_leaf : Bool
  pub has_button : Bool

abbrev pub can_delete : Option Configured → Bool
can_delete (some add) = true
can_delete (some active) = true
can_delete (some active_plus) = true
can_delete (some set) = true
can_delete _ = false

abbrev pub can_create : Option Configured → Bool
can_create none = true
can_create (some delete) = true
can_create _ = false

unfoldable pub handle_conf_button : Attributes → ConfButton
handle_conf_button a =
    if can_delete a.configured
    then record { button = some delete_button; show_leaf = true; has_button = true }
    else if can_create a.configured && not (is_some a.type)
    then record { button = some create_button; show_leaf = false; has_button = true }
    else record { button = none; show_leaf = true; has_button = false }

-- `node.getPath('text')` with a space as the separator; the names stand from the root down.
unfoldable pub get_path : List Text → Text
get_path [] = []
get_path (name ∷ names) = codes " " ++ (name ++ get_path names)

-- `str.replace(/^p/, '')`
unfoldable pub remove_prefix : Text → Text → Text
remove_prefix p s = elim (strip_prefix p s) [ none ↦ s | some rest ↦ rest ]

unfoldable pub get_node_path_str : List Text → Text
unfolding get_path remove_prefix
get_node_path_str names =
    remove_prefix (codes " Operation ") (remove_prefix (codes " Configuration ") (get_path names))

-- A click on the button of the title: the command, whether the user is asked first, and whether the
-- node is one that the command creates.
pub record ConfClick : Type 0 where
  pub asks : Bool
  pub command : Text
  pub creates : Bool

unfoldable pub conf_button_click : ButtonKind → Text → List Text → ConfClick
unfolding get_node_path_str
conf_button_click delete_button text names = record {
  asks = text_eq text (codes "https");
  command = codes "delete " ++ get_node_path_str names;
  creates = false;
}
conf_button_click create_button text names = record {
  asks = text_eq text (codes "https");
  command = codes "set " ++ get_node_path_str names;
  creates = true;
}

-- The loop of `filterWildcard`: the values, and whether one was `*`.
filter_loop : List Text → Bool × List Text
filter_loop [] = (false, [])
filter_loop (v ∷ vs) =
    let (wc, narr) = filter_loop vs in
    if text_eq v (codes "*") then (true, narr) else (wc, v ∷ narr)

unfoldable pub filter_wildcard : List Text → Option (List Text)
unfolding filter_loop
filter_wildcard arr = let (wc, narr) = filter_loop arr in if wc then some narr else none

-- Whether each child is a leaf.
unfoldable pub is_expandable_node : List Bool → Bool
is_expandable_node [] = false
is_expandable_node (leaf ∷ more) = if leaf then is_expandable_node more else true
