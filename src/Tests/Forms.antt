-- ===== src/Tests/Forms.antt =====
-- Runs of the forms and grids.
use vyatta_webgui.Base.{◌≡◌, refl, ◌↔◌, Bool, true, false, none, some, List, [], ◌∷◌, drop, All}
use vyatta_webgui.Text.{Text, codes, text_eq}
use vyatta_webgui.Grid.{
  Row, get_edit_grid_checker_values, is_edit_grid_value_check, create_edit_grid, is_edit_grid_dirty,
}
use vyatta_webgui.Grid.Changes.{
  after_changes, shown_as_set, has_row, DistinctRows, checker_values-shown_as_set,
}
use vyatta_webgui.Grid.Filling.{create_edit_grid-unchanged}
use vyatta_webgui.Cookies.{skip_spaces}
use vyatta_webgui.Values.{
  text, number, loosely_equal, to_number, trimmed_number, shown, digits_from,
}
use vyatta_webgui.Form.{
  Field, text_field, number_field, checkbox, Item, submit_button, field_commands, Answer, submit,
  prepared, Sent,
}
use vyatta_webgui.Form.Answers.{Panel, panels}
use vyatta_webgui.Form.Running.{sent_panels, outcome, submit_form}
use vyatta_webgui.Form.Bounds.{PanelThere, submit-PanelThere}
use vyatta_webgui.Form.Skipping.{is_quoted_text, Untouched-skipped_iff, sent_once}

abbrev row : Text → Bool → Row
row value checker = record { value = value; checker = checker; dirty = true; failed = false }

abbrev grid : List Row
grid = row (codes "tcp") false ∷ (row (codes "udp") true ∷ (row [] false ∷ []))

distinct : DistinctRows grid
unfolding has_row text_eq
distinct = (λ e. refl, (λ e. refl, (λ e. refl, tt)))

checker_values-shown_as_set_example :
    after_changes
      (get_edit_grid_checker_values (some (codes "tcp" ∷ [])) grid)
      (is_edit_grid_value_check (codes "udp") (codes "tcp" ∷ []))
      (codes "udp")
    ≡ shown_as_set grid (is_edit_grid_value_check (codes "udp") (codes "tcp" ∷ [])) (codes "udp")
checker_values-shown_as_set_example =
    checker_values-shown_as_set (codes "udp") (codes "tcp" ∷ []) grid distinct

abbrev blank : Row
blank = record { value = []; checker = false; dirty = false; failed = false }

create_edit_grid-unchanged_example :
    (is_edit_grid_dirty (create_edit_grid blank (codes "b" ∷ []) (codes "a" ∷ [])) ≡ false)
    × (get_edit_grid_checker_values
          (some (codes "b" ∷ []))
          (create_edit_grid blank (codes "b" ∷ []) (codes "a" ∷ [])).rows
        ≡ [])
create_edit_grid-unchanged_example =
    create_edit_grid-unchanged blank (codes "b" ∷ []) (codes "a") [] refl

abbrev fields : List Panel
fields =
    (codes "description: ", text_field (codes "x") (codes "x"))
    ∷ ((codes "mtu: ", number_field (text (codes "1500")) (number 9000)) ∷ [])

abbrev refusing : List Text → Answer
refusing cmds = some (false, codes "no\r\n")

submit_form_example :
    submit 3 refusing
      (codes " interfaces")
      false
      (drop prepared.index (submit_button ∷ panels fields (submit_button ∷ [])))
      prepared
    ≡ some (
        outcome refusing
          (codes " interfaces")
          false
          prepared
          2
          (sent_panels refusing (codes " interfaces") false 1 fields))
submit_form_example = submit_form refusing (codes " interfaces") false submit_button fields []

submit-PanelThere_example :
    (s : Sent) × (submit 3 refusing
        (codes " interfaces")
        false
        (drop prepared.index (submit_button ∷ panels fields (submit_button ∷ [])))
        prepared
      ≡ some s)
    × All (PanelThere (submit_button ∷ panels fields (submit_button ∷ []))) s.1.sent
    × All (λ e. PanelThere (submit_button ∷ panels fields (submit_button ∷ [])) e.1) s.1.errors
submit-PanelThere_example =
    submit-PanelThere refusing (codes " interfaces") false submit_button fields []

Untouched-skipped_iff_example :
    (field_commands
        (codes " interfaces")
        (codes "description ")
        (text_field (codes "my lan") (codes "my lan"))
      ≡ none)
    ↔ (is_quoted_text (text_field (codes "my lan") (codes "my lan")) ≡ false)
Untouched-skipped_iff_example =
    Untouched-skipped_iff (codes " interfaces") (codes "description ")
      (text_field (codes "my lan") (codes "my lan")) refl

mtu_sent :
    field_commands [] (codes "mtu  ") (number_field (text []) (number 1))
    ≡ some (codes "set mtu  1" ∷ [], number_field (number 1) (number 1))
unfolding field_commands text_eq loosely_equal to_number trimmed_number skip_spaces
    vyatta_webgui.Form.value_command shown digits_from
mtu_sent = refl

sent_once_example : field_commands [] (codes "mtu  ") (number_field (number 1) (number 1)) ≡ none
sent_once_example =
    sent_once [] (codes "mtu  ") (number_field (text []) (number 1))
      (number_field (number 1) (number 1)) (codes "set mtu  1" ∷ []) refl mtu_sent
