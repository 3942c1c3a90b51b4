-- ===== src/Tests/Views.antt =====
-- Runs of the loader, the editor and the view.
use vyatta_webgui.Base.{
  ◌≡◌, refl, Bool, true, false, none, some, List, [], ◌∷◌, ◌++◌, if◌then◌else◌, All, arith, ◌&&◌,
  ◌+◌, ltb,
}
use vyatta_webgui.Text.{Text, codes, text_eq, contains, index_of, split, split_skip}
use vyatta_webgui.Loader.{XmlNode, kept_nodes, oper, clean_help}
use vyatta_webgui.Loader.Keeping.{Operable, kept_nodes-Operable, operator_sees_less}
use vyatta_webgui.Loader.Help.{Plain, clean_help-Plain}
use vyatta_webgui.Leaf.{Child, leaf_child, inner_child, click_children}
use vyatta_webgui.Leaf.SetButton.{buttons, fresh, shown_count, last_is_leaf, click_children_buttons}
use vyatta_webgui.Tree.{Attributes}
use vyatta_webgui.OperView.{fixed_values, segment_id_in_numeric, digits}
use vyatta_webgui.Replace.{replace}
use vyatta_webgui.OperView.Streaming.{
  AllCarry, IsPlain, ReadsBack, stream, shown, added, update_oper_cmd_response-stream,
}

abbrev nodes : List XmlNode
nodes =
    record { name = codes "reboot"; text_content = codes "Reboot the system" }
    ∷ (record { name = codes "show"; text_content = codes "Show things" } ∷ [])

kept_nodes-Operable_example : All Operable (kept_nodes oper true nodes)
kept_nodes-Operable_example = kept_nodes-Operable nodes

operator_sees_less_example :
    kept_nodes oper true nodes ≡ kept_nodes oper true (kept_nodes oper false nodes)
operator_sees_less_example = operator_sees_less nodes

clean_help-Plain_example : All Plain (clean_help 0 (codes "it's <a>&lt;"))
clean_help-Plain_example = clean_help-Plain 0 (codes "it's <a>&lt;")

abbrev leaf : Attributes
leaf = record {
  configured = none;
  configured_before = none;
  multi = false;
  type = some (codes "u32");
  enums = none;
  values = none;
  default_val = none;
}

abbrev children : List Child
children = inner_child ∷ (leaf_child leaf ∷ (leaf_child leaf ∷ []))

click_children_buttons_example :
    buttons (click_children true (fresh 1) children)
    ≡ (if last_is_leaf children && ltb 1 (1 + shown_count true children) then 1 else 0)
click_children_buttons_example = click_children_buttons true 1 children

abbrev segments : List (Text × Text)
segments = (codes "1_2_4", codes "second") ∷ ((codes "1_2_5", codes "third") ∷ [])

segments_carry : AllCarry segments
unfolding contains text_eq
segments_carry = ((refl, refl, refl), ((refl, refl, refl), tt))

as_set : Text → Text
as_set s = s

as_set-ReadsBack : (id : Text) → ReadsBack as_set id
unfolding as_set
as_set-ReadsBack id body plain = refl

segments-IsPlain : All IsPlain (codes "first" ++ added segments)
unfolding added fixed_values contains index_of replace segment_id_in_numeric split split_skip digits
    text_eq
segments-IsPlain = grind arith

update_oper_cmd_response-stream_example :
    (p : Bool) × (stream as_set
        ((codes "1_2_3", codes "first") ∷ segments)
        (record { id = codes "out"; html = none; pause_shown = false })
      ≡ some (shown (codes "out") p (codes "first" ++ added segments)))
update_oper_cmd_response-stream_example =
    update_oper_cmd_response-stream as_set (codes "out") (codes "1_2_3") (codes "first") false
      segments (as_set-ReadsBack (codes "out")) segments_carry segments-IsPlain
