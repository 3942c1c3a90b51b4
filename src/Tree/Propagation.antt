-- ===== src/Tree/Propagation.antt =====
-- What a change of a node does to the node and to everything above it.
use vyatta_webgui.Base.{true, ap, arith, Option, ◌≡◌, some, List, [], ◌∷◌}
use vyatta_webgui.Tree.{
  get_node_style_image, Attributes, touch, image_of, parent_text, Text, set_node_flag,
  handle_propagate_parent_nodes, paint, propagate_above, Node, set,
}

-- Node by node: the same text, and the state `set`.
abbrev pub SetLike : List Node → List Node → Type 0
SetLike [] [] = Unit
SetLike (n ∷ ns) (m ∷ ms) =
    (m.text ≡ n.text)
    × (m.attributes ≡ record (n.attributes) { configured = some set })
    × SetLike ns ms
SetLike _ _ = ⊥

set_node_flag_keeps :
    (n : Node) (flag : Text)
    → ((set_node_flag n flag).text ≡ n.text) × ((set_node_flag n flag).attributes ≡ n.attributes)
unfolding set_node_flag
set_node_flag_keeps n flag = ground arith

paint_keeps :
    (errs : Option (List (List Text))) (parent : Option Text) (n : Node)
    → ((paint errs parent n).text ≡ n.text) × ((paint errs parent n).attributes ≡ n.attributes)
unfolding paint
paint_keeps errs parent n =
    ground (arith, set_node_flag_keeps n (image_of (get_node_style_image errs n parent 0 true)))

propagate_above-SetLike :
    (errs : Option (List (List Text))) (ns : List Node) → SetLike ns (propagate_above errs ns)
unfolding propagate_above
propagate_above-SetLike errs [] = tt
propagate_above-SetLike errs (n ∷ above) =
    let (t, a) = paint_keeps errs (parent_text above) (touch n) in
    (
      t,
      ap (λ (x : Attributes). record x { configured = some set }) a,
      propagate_above-SetLike errs above,
    )

-- After a change the node and all its ancestors end in the state `set`, in the order they had,
-- and nothing else of their attributes changes.
pub handle_propagate-SetLike :
    (errs : Option (List (List Text))) (ns : List Node)
    → SetLike ns (handle_propagate_parent_nodes errs ns)
unfolding handle_propagate_parent_nodes
handle_propagate-SetLike errs [] = tt
handle_propagate-SetLike errs (n ∷ above) =
    let (t, a) = paint_keeps errs (parent_text above) n in
    (
      t,
      ap (λ (x : Attributes). record x { configured = some set }) a,
      propagate_above-SetLike errs above,
    )
