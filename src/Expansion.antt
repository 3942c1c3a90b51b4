-- ===== src/Expansion.antt =====
-- What the tree does after a command on the configuration: `f_handleParentNodeExpansion`,
-- `f_handleNodeExpansion2`, `f_handleNodeExpansion` and `f_loadChildNode` of
-- src/client/Vyatta/utils/vyatta-cli-command.js. A node stands in front of its ancestors. What happens
-- once the toolkit has loaded or expanded a node is a list of its own.
pub mod Spreading
use vyatta_webgui.Base.{
  ℕ, zero, suc, ◌+◌, ◌-◌, ◌*◌, ◌≤◌, ◌<◌, ◌≡◌, refl, sym, ap, ◌∙◌, ◌≢◌, ◌↔◌, ◌⊎◌, inl, inr, Bool,
  true, false, not, ◌&&◌, ◌||◌, Option, none, some, List, [], ◌∷◌, ◌++◌, map, append_assoc,
  append-nil, arith, ltb, leb, ◌==◌, if◌then◌else◌, Bool-cases, Option-cases, is_some, length,
  get_elem?, drop, take, any, all, All, All-append, length-append, ==_iff, ==_refl, lt→ltb, ltb→lt,
}
use vyatta_webgui.Text.{Text, codes, text_eq, count, contains, index_of, replace_first, split}
use vyatta_webgui.Text.Equality.{text_eq_iff, text_eq_refl}
use mathlib.Core.Option
use vyatta_webgui.Tree.{
  Configured, set, active_plus, Node, with_configured, handle_propagate_parent_nodes,
}
use vyatta_webgui.Toolbar.{is_expandable_node}

-- `getPath('text')`, with the separator of the tree.
unfoldable pub get_path : List Node → Text
get_path [] = []
get_path (n ∷ above) = get_path above ++ (32 ∷ n.text)

-- What is done to the tree and the page. A node is named by its path, where it is not the node of the
-- call.
pub data TreeAct : Type 0 where
  reload_selected : TreeAct
  clean_editor : TreeAct
  select_path : Text → TreeAct
  click_path_after_load : Text → TreeAct
  reload_path : Text → TreeAct
  render_toolbar : TreeAct
  collapse_node : TreeAct
  expand_then_click : Text → TreeAct
  collapse_root : TreeAct
  expand_root_then_path : Text → TreeAct

-- A node that is expanded, as far as the toolkit shows it: whether it is open, and whether each child
-- is a leaf.
pub record Opened : Type 0 where
  pub expanded : Bool
  pub children : List Bool

unfoldable pub handle_node_expansion2 : Text → Opened → List TreeAct
handle_node_expansion2 sel_path node =
    (if not (is_expandable_node node.children) then render_toolbar ∷ [] else [])
    ++ ((if node.expanded then collapse_node ∷ [] else []) ++ (expand_then_click sel_path ∷ []))

-- The nodes that changed, from the lowest up, the fields of the tree's object, and what is done.
pub record Expansion : Type 0 where
  pub changed : List Node
  pub m_cmd : Option Text
  pub m_sel_node_path : Text
  pub acts : List TreeAct

-- A node without a parent gets the selected node as its parent.
abbrev pub with_parent : List Node → List Node → List Node
with_parent [] sel = []
with_parent (n ∷ []) sel = n ∷ sel
with_parent (n ∷ (p ∷ above)) sel = n ∷ (p ∷ above)

abbrev pub configure : Configured → List Node → List Node
configure c [] = []
configure c (n ∷ above) = with_configured n (some c) ∷ above

-- The branch for a node that was created; `reloads` tells whether the selected node can be reloaded.
unfoldable pub expand_created :
    Option (List (List Text)) → List Node → (reloads : Bool) → Opened → Text → Expansion
expand_created errs node reloads opened sel_path = record {
  changed = handle_propagate_parent_nodes errs (configure set node);
  m_cmd = none;
  m_sel_node_path = sel_path;
  acts =
      (if reloads then reload_selected ∷ [] else [])
      ++ (clean_editor ∷ handle_node_expansion2 (get_path node) opened);
}

-- The branch for a node that was deleted: its parent is selected. It fails without a parent.
unfoldable pub expand_deleted :
    Option (List (List Text)) → List Node → Opened → Text → Text → Option Expansion
expand_deleted errs [] opened sel_path cmd = none
expand_deleted errs (n ∷ above) opened sel_path cmd = some (record {
  changed = handle_propagate_parent_nodes errs (configure active_plus (n ∷ above));
  m_cmd = some (take 6 cmd);
  m_sel_node_path = get_path (n ∷ above);
  acts =
      select_path (get_path (n ∷ above))
      ∷ ((if contains (codes "Configuration") n.text
            then click_path_after_load sel_path ∷ []
            else [])
          ++ (reload_path (get_path (n ∷ above))
              ∷ (render_toolbar ∷ handle_node_expansion2 (get_path (n ∷ above)) opened)));
})

abbrev pub parents : List Node → List Node
parents [] = []
parents (n ∷ above) = above

-- `opened` is the node that is expanded in the end: the created node, or else its parent.
unfoldable pub handle_parent_node_expansion :
    Option (List (List Text))
    → (node sel : List Node) → Text
    → Text
    → (is_create reloads : Bool) → Opened
    → Option Expansion
handle_parent_node_expansion errs node sel sel_path cmd is_create reloads opened =
    if is_create
    then some (expand_created errs (with_parent node sel) reloads opened sel_path)
    else if contains (codes "delete") cmd
    then expand_deleted errs (parents sel) opened sel_path cmd
    else some (record {
      changed = [];
      m_cmd = none;
      m_sel_node_path = sel_path;
      acts = handle_node_expansion2 sel_path opened;
    })

-- `f_handleNodeExpansion`, up to the expansion of the root.
unfoldable pub handle_node_expansion : Text → List TreeAct
handle_node_expansion sel_path = collapse_root ∷ (expand_root_then_path sel_path ∷ [])

-- Its `ehandler`, by the path of the last node that could be expanded: the paths that are selected,
-- the path that the tree's object notes, if any, and the path of the node that is clicked.
pub record Selection : Type 0 where
  pub selected : List Text
  pub noted : Option Text
  pub clicked : Text

unfoldable pub expand_handler : (discards : Bool) → (sel_path last_path : Text) → Selection
expand_handler discards sel_path last_path =
    if not (text_eq last_path sel_path)
    then (if discards
        then record {
          selected = last_path ∷ (last_path ∷ []);
          noted = some last_path;
          clicked = last_path;
        }
        else record { selected = sel_path ∷ []; noted = none; clicked = sel_path })
    else record { selected = sel_path ∷ []; noted = none; clicked = last_path }

-- `onReloadHandler` of `f_loadChildNode`: the child that is reloaded, of those with the value that was
-- sent last.
unfoldable pub child_to_load : Text → List Text → Option ℕ
child_to_load val [] = none
child_to_load val (child ∷ children) =
    let rest = Option.map suc (child_to_load val children) in
    if text_eq child val then some 0 else rest
