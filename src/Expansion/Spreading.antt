-- ===== src/Expansion/Spreading.antt =====
-- What an expansion leaves of the states of the nodes.
use vyatta_webgui.Base.{◌≡◌, refl, Bool, true, Option, some, List, [], ◌∷◌}
use vyatta_webgui.Text.{Text}
use vyatta_webgui.Tree.{Configured, set, Node}
use vyatta_webgui.Tree.Propagation.{SetLike, handle_propagate-SetLike}
use vyatta_webgui.Expansion.{
  Opened, Expansion, with_parent, configure, expand_created, handle_parent_node_expansion,
}

-- Other attributes than the state do not matter to what the spread leaves.
configured-SetLike :
    (c : Configured) (ns ms : List Node) → SetLike (configure c ns) ms → SetLike ns ms
configured-SetLike c [] ms h = h
configured-SetLike c (n ∷ ns) [] h = h
configured-SetLike c (n ∷ ns) (m ∷ ms) h = h

-- After the expansion that follows the creation of a node, the node and all its ancestors are in the
-- state `set`; the selected node counts as the parent of a node that has none.
created-SetLike :
    (errs : Option (List (List Text))) (node sel : List Node) (path cmd : Text) (reloads : Bool)
    (opened : Opened)
    → (e : Expansion) × (handle_parent_node_expansion errs node sel path cmd true reloads opened
        ≡ some e)
      × SetLike (with_parent node sel) e.changed
unfolding handle_parent_node_expansion expand_created
created-SetLike errs node sel path cmd reloads opened = (
  expand_created errs (with_parent node sel) reloads opened path,
  refl,
  configured-SetLike set (with_parent node sel) _
      (handle_propagate-SetLike errs (configure set (with_parent node sel))),
)
