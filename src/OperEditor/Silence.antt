-- ===== src/OperEditor/Silence.antt =====
-- What a click on a node of the operation tree asks the server for.
use vyatta_webgui.Base.{
  ◌≡◌, refl, inl, inr, Bool, true, false, Option, none, some, List, [], ◌∷◌, ltb, ◌++◌, ◌&&◌, ◌||◌,
  not, if◌then◌else◌, Bool-cases, Option-cases, length,
}
use vyatta_webgui.Text.{Text, codes, text_eq}
use vyatta_webgui.Segment.{CliCmd, OpNode}
use vyatta_webgui.Segment.Command.{
  refused, walk, Request, Sent, sent, skipped, failed, value_text, send_words,
  send_operation_cli_command,
}
use vyatta_webgui.Segment.Events.{click_node}
use vyatta_webgui.OperEditor.{
  value_nodes, click_call, ClickAct, clean_editor, load_children, populate_editor, expand,
  OperClick, handle_node_oper_click,
}

-- Without force, the walk stops at the first node for a value.
walk_stops :
    (narr : List Text) (node : List OpNode)
    → ltb 0 (length (value_nodes node)) ≡ true
    → walk false narr node ≡ refused false
unfolding walk value_nodes
walk_stops narr [] h = absurd (cc)
walk_stops narr (n ∷ above) h = elim (Bool-cases (text_eq n.text (codes "Operation"))) [
  | inl e ↦ absurd (cc (rw e at h))
  | inr e ↦ elim (Bool-cases (text_eq n.text value_text)) [
    | inl v ↦ elim (Option-cases n.get_val) [
      | inl g ↦ rw (e, v, g) refl
      | inr (val, g) ↦ rw (e, v, g) refl
    ]
    | inr v ↦ rw (e, v) (walk_stops (n.text ∷ narr) above (rw (e, v) at h))
  ]
]

-- The requests that a click starts: a command, or the load of the children of the node.
pub data Asked : Type 0 where
  command : Request → Asked
  children : Asked

abbrev pub command_of : Option Sent → List Asked
command_of (some (sent st r)) = command r ∷ []
command_of _ = []

abbrev pub loads_of : List ClickAct → List Asked
loads_of [] = []
loads_of (load_children ∷ acts) = children ∷ loads_of acts
loads_of (_ ∷ acts) = loads_of acts

abbrev pub requests : OperClick → List Asked
requests c = command_of c.call ++ loads_of c.acts

-- The state after the call, if it ends without an exception and without a message.
abbrev pub state_after : OperClick → Option CliCmd
state_after c = elim c.call [
  | none ↦ some c.state
  | some s ↦ elim s [
    | sent st r ↦ some st
    | skipped st prompts ↦ if prompts then none else some st
    | failed ↦ none
  ]
]

-- The only request of a click is that for the children, if `loads` says so, and the state is `st`.
abbrev pub OnlyLoads : Bool → CliCmd → OperClick → Type 0
OnlyLoads loads st c =
    (requests c ≡ (if loads then children ∷ [] else [])) × (state_after c ≡ some st)

no_value :
    (is_ie : Bool) (user : Text) (node : List OpNode) (st : CliCmd)
    → ltb 0 (length (value_nodes node)) ≡ true
    → send_operation_cli_command is_ie user (click_call node) st ≡ skipped st false
unfolding send_operation_cli_command send_words
no_value is_ie user node st h = rw (walk_stops [] node h) refl

-- A click on a node of the operation tree sends no command, whatever the node and the state are and up
-- to the click on the first child that may follow once the node is expanded: the call that it makes for
-- a node with an action and a value ends without a request and a message. The only request that the
-- click starts is that for the children of the node, and that exactly if they are not loaded and the
-- node has no action or is no leaf; of the state only the segment is forgotten.
pub oper_click-OnlyLoads :
    (is_ie : Bool) (user : Text) (node : List OpNode) (has_action is_leaf loaded : Bool)
    (st : CliCmd)
    → OnlyLoads
        (not loaded && (not has_action || not is_leaf))
        (click_node st)
        (handle_node_oper_click is_ie user node has_action is_leaf loaded st)
unfolding handle_node_oper_click
oper_click-OnlyLoads is_ie user node false is_leaf true st = (refl, refl)
oper_click-OnlyLoads is_ie user node false is_leaf false st = (refl, refl)
oper_click-OnlyLoads is_ie user node true is_leaf loaded st =
    elim (Bool-cases (ltb 0 (length (value_nodes node)))) [
      | inl e ↦ rw (e, no_value is_ie user node (click_node st) e) (loads is_leaf loaded, refl)
      | inr e ↦ rw e (loads is_leaf loaded, refl)
    ]
  where
    loads :
        (leaf there : Bool)
        → loads_of (clean_editor ∷ ((if leaf then [] else expand there) ++ (populate_editor ∷ [])))
          ≡ (if not there && (not true || not leaf) then children ∷ [] else [])
    loads true true = refl
    loads true false = refl
    loads false true = refl
    loads false false = refl
