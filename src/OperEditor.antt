-- ===== src/OperEditor.antt =====
-- A click on a node of the operation tree and the editor that it fills: `f_handleNodeOperClick` and
-- `f_populateOperEditorPanelOnNodeClick` of src/client/Vyatta/js/vyatta-tree.js. A node stands in front
-- of its ancestors.
pub mod Untouched
pub mod Silence
use vyatta_webgui.Base.{
  ℕ, zero, suc, ◌+◌, ◌-◌, ◌*◌, ◌≤◌, ◌<◌, ◌≡◌, refl, sym, ap, ◌∙◌, ◌≢◌, ◌↔◌, ◌⊎◌, inl, inr, Bool,
  true, false, not, ◌&&◌, ◌||◌, Option, none, some, List, [], ◌∷◌, ◌++◌, map, append_assoc,
  append-nil, arith, ltb, leb, ◌==◌, if◌then◌else◌, Bool-cases, Option-cases, is_some, length,
  get_elem?, drop, take, any, all, All, All-append, length-append, ==_iff, ==_refl, lt→ltb, ltb→lt,
}
use vyatta_webgui.Text.{Text, codes, text_eq, count, contains, index_of, replace_first, split}
use vyatta_webgui.Text.Equality.{text_eq_iff, text_eq_refl}
use vyatta_webgui.Segment.{WildCard, CliCmd, OpNode}
use vyatta_webgui.Segment.Command.{Call, Sent, value_text, send_operation_cli_command}
use vyatta_webgui.Segment.Events.{click_node}

-- The nodes for values up to the root `Operation`, the lowest first: the first loop of
-- `f_parseOpNode`.
unfoldable pub value_nodes : List OpNode → List OpNode
value_nodes [] = []
value_nodes (n ∷ above) =
    let rest = value_nodes above in
    if text_eq n.text (codes "Operation")
    then []
    else if text_eq n.text value_text
    then n ∷ rest
    else rest

-- What is known of a node for a value: the values to choose from, and the help.
pub record ValueNode : Type 0 where
  pub enums : Option (List Text)
  pub help : Option Text

-- What the editor shows, in order.
pub data OperItem : Type 0 where
  title_item : Text → OperItem
  run_item : Text → OperItem
  choice_item : (label : Option Text) (choices : List Text) (help : Option Text) → OperItem
  text_item : (label help : Option Text) → OperItem

unfoldable pub value_item : Option Text → ValueNode → OperItem
value_item label n = elim n.enums [
  | some enums ↦ choice_item label enums n.help
  | none ↦ text_item label n.help
]

-- The loop over the nodes for values, the highest first, with the labels in the same order.
unfoldable pub value_items : ℕ → List Text → List ValueNode → List OperItem
value_items i labels [] = []
value_items i labels (n ∷ nodes) =
    value_item (get_elem? labels i) n ∷ value_items (suc i) labels nodes

unfoldable pub populate_oper_editor :
    (header : Text) (has_action : Bool) → List Text → List ValueNode → List OperItem
populate_oper_editor header has_action labels nodes =
    title_item header ∷ (if has_action then run_item header ∷ value_items 0 labels nodes else [])

-- What an input shows before the user touches it.
unfoldable pub untouched : OperItem → Text
untouched (choice_item label choices help) = codes "Select a valid value..."
untouched (text_item label help) = []
untouched (title_item t) = []
untouched (run_item t) = []

-- `getValFunc` of a node whose input shows a text.
unfoldable pub get_val_func : Text → Text
get_val_func shown = codes "'" ++ (shown ++ codes "'")

-- The call that a click makes for a node with an action.
abbrev pub click_call : List OpNode → Call
click_call node = record {
  node = some node;
  has_cb = true;
  clear = false;
  prev_xml = some [];
  force = false;
  segment = none;
  wild_card = WildCard.undefined;
}

-- What a click does besides the call: it empties the editor, and fills it again or waits for the first
-- child of the node, which it clicks then; where it expands the node, the toolkit asks the server for
-- the children that are not loaded yet (`requestData`, see Loader/Request.antt).
pub data ClickAct : Type 0 where
  clean_editor : ClickAct
  collapse_node : ClickAct
  expand_node : ClickAct
  load_children : ClickAct
  click_first_child_after_expand : ClickAct
  populate_editor : ClickAct

-- `node.expand()`
abbrev pub expand : (loaded : Bool) → List ClickAct
expand loaded = expand_node ∷ (if loaded then [] else load_children ∷ [])

-- `state` is the state in front of the call.
pub record OperClick : Type 0 where
  pub state : CliCmd
  pub call : Option Sent
  pub acts : List ClickAct

-- `loaded` says whether the children of the node are there.
unfoldable pub handle_node_oper_click :
    Bool → Text → List OpNode → (has_action is_leaf loaded : Bool) → CliCmd → OperClick
handle_node_oper_click is_ie user node has_action is_leaf loaded st =
    let values = value_nodes node in
    if not has_action
    then record {
      state = click_node st;
      call = none;
      acts = clean_editor ∷ (click_first_child_after_expand ∷ (collapse_node ∷ expand loaded));
    }
    else record {
      state = click_node st;
      call =
          if ltb 0 (length values)
          then some (send_operation_cli_command is_ie user (click_call node) (click_node st))
          else none;
      acts = clean_editor ∷ ((if is_leaf then [] else expand loaded) ++ (populate_editor ∷ []));
    }
