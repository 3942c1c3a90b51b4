-- ===== src/Tests/Openings.antt =====
-- A form with a number, a text and a switch, as it is opened.
use vyatta_webgui.Base.{suc, ◌+◌, ◌≡◌, refl, false, none, some, List, [], ◌∷◌, length, drop, All}
use vyatta_webgui.Text.{Text, codes, index_of}
use vyatta_webgui.Tree.{Attributes}
use vyatta_webgui.Leaf.{single_enum, single_u32, single_text, set_button}
use vyatta_webgui.Grid.{Row}
use vyatta_webgui.Form.{Answer, field_panel, other_field, submit_button, prepared, submit}
use vyatta_webgui.Form.Answers.{panels}
use vyatta_webgui.Cookies.{skip_spaces}
use vyatta_webgui.Values.{
  loosely_equal, to_number, trimmed_number, prefixed, decimal, decimals, read_digits, exponent,
}
use vyatta_webgui.Inputs.{Leaf, opened_fields}
use vyatta_webgui.Inputs.Fresh.{ShownAsIs, submit-opened_fields}

abbrev of_values : List Text → Attributes
of_values values = record {
  configured = none;
  configured_before = none;
  multi = false;
  type = none;
  enums = none;
  values = some values;
  default_val = none;
}

abbrev mtu_leaf : Leaf
mtu_leaf = record {
  text = codes "mtu";
  mandatory = false;
  attributes = of_values (codes "1500" ∷ []);
  item = single_u32;
}

abbrev four_leaves : List Leaf
four_leaves =
    mtu_leaf
    ∷ (record mtu_leaf {
      text = codes "name";
      attributes = of_values (codes "lan" ∷ []);
      item = single_text;
    }
        ∷ (record mtu_leaf {
          text = codes "state";
          attributes = of_values (codes "enable" ∷ []);
          item = single_enum (codes "enable" ∷ (codes "disable" ∷ []));
        }
            ∷ (record mtu_leaf { item = set_button } ∷ [])))

abbrev blank_row : Row
blank_row = record { value = []; checker = false; dirty = false; failed = false }

four_leaves-ShownAsIs : All (ShownAsIs to_number) four_leaves
unfolding index_of to_number trimmed_number skip_spaces prefixed decimal decimals read_digits
    exponent loosely_equal
four_leaves-ShownAsIs = (refl, (refl, (tt, (tt, tt))))

abbrev no_answer : List Text → Answer
no_answer cmds = none

submit-opened_fields_example :
    submit
      (suc (length (opened_fields to_number blank_row four_leaves)))
      no_answer
      (codes " interfaces ethernet eth0")
      false
      (drop prepared.index (
        field_panel [] other_field
        ∷ panels (opened_fields to_number blank_row four_leaves) (submit_button ∷ [])))
      prepared
    ≡ some (
      [],
      record {
        index = suc (length (opened_fields to_number blank_row four_leaves) + 1);
        num_sent = 0;
        sent = [];
        errors = [];
      },
    )
submit-opened_fields_example =
    submit-opened_fields no_answer to_number (codes " interfaces ethernet eth0") false blank_row
      four_leaves (field_panel [] other_field) [] refl four_leaves-ShownAsIs
