-- ===== src/OperEditor/Untouched.antt =====
-- What is sent for an input that the user did not touch.
use vyatta_webgui.Base.{◌≡◌, refl, true, Option, none, some, List, [], ◌∷◌, ◌++◌, map, All}
use vyatta_webgui.Text.{Text, codes, text_eq}
use mathlib.Core.List.{reverse}
use vyatta_webgui.Segment.{OpNode}
use vyatta_webgui.Segment.Command.{walk, words, value_text, refused}
use vyatta_webgui.Segment.Building.{word, IsFilled, IsBlank, walk_filled, walk_blank}
use vyatta_webgui.OperEditor.{ValueNode, value_item, untouched, get_val_func}

-- A node for a value whose input is as the editor made it.
abbrev pub value_node : Option Text → ValueNode → OpNode
value_node label n = record {
  text = value_text;
  get_val = some (get_val_func (untouched (value_item label n)));
}

choice-IsFilled :
    (label : Option Text) (enums : List Text) (help : Option Text)
    → IsFilled (value_node label (record { enums = some enums; help = help }))
unfolding value_item untouched get_val_func text_eq
choice-IsFilled label enums help = record { below = refl; filled = λ h. refl }

text-IsBlank :
    (label help : Option Text) → IsBlank (value_node label (record { enums = none; help = help }))
unfolding value_item untouched get_val_func text_eq
text-IsBlank label help = record {
  below = refl;
  value = refl;
  val = codes "''";
  entered = refl;
  blank = refl;
}

-- A button Run is meant to refuse a command with an input that was not filled in. For an input with
-- a text it does; for one with values to choose from it does not: the command is sent with the words
-- that ask for a choice in place of the value, if the rest of its path is filled in.
pub untouched_choice_sent :
    (label : Option Text) (enums : List Text) (help : Option Text) (ns : List OpNode)
    (root : OpNode) (above : List OpNode)
    → All IsFilled ns
    → root.text ≡ codes "Operation"
    → (walk true []
          ((value_node label (record { enums = some enums; help = help }) ∷ ns) ++ (root ∷ above))
        ≡ words (
            map word
              (reverse (value_node label (record { enums = some enums; help = help }) ∷ ns))))
      × (word (value_node label (record { enums = some enums; help = help }))
          ≡ codes "'Select a valid value...'")
      × (walk true []
            (value_node label (record { enums = none; help = help }) ∷ (ns ++ (root ∷ above)))
          ≡ refused true)
unfolding value_item untouched get_val_func text_eq
untouched_choice_sent label enums help ns root above filled h =
    let node = value_node label (record { enums = some enums; help = help }) in
    (
      walk_filled (node ∷ ns) root above (choice-IsFilled label enums help, filled) h,
      refl,
      walk_blank [] (value_node label (record { enums = none; help = help })) (ns ++ (root ∷ above))
          tt (text-IsBlank label help),
    )
