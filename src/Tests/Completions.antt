-- ===== src/Tests/Completions.antt =====
-- The end of a submission of two fields, of which one failed.
use vyatta_webgui.Base.{refl, false, none, some, List, [], ◌∷◌}
use vyatta_webgui.Text.{codes}
use vyatta_webgui.Tree.{Attributes, dirty, empty}
use vyatta_webgui.Indicators.{no_flag, status_unknown}
use vyatta_webgui.Indicators.Marked.{marked}
use vyatta_webgui.Form.{Submission}
use vyatta_webgui.Completion.{Panel, Item, value_input, grid_input, handle_conf_form_command_done}
use vyatta_webgui.Completion.Whole.{Shown, conf_form_done-Shown}

abbrev plain_attributes : Attributes
plain_attributes = record {
  configured = none;
  configured_before = none;
  multi = false;
  type = none;
  enums = none;
  values = none;
  default_val = none;
}

abbrev mtu_panel : Panel
mtu_panel = record {
  text = codes "mtu";
  parent_text = some (codes "eth0");
  attributes = plain_attributes;
  attr_value = some (codes "1500");
  input = value_input (some (codes "x v-textfield-unsubmit")) (codes "1400");
  dirty_html = some (marked empty no_flag);
  behind = none;
}

abbrev address_panel : Panel
address_panel = record mtu_panel {
  text = codes "address";
  input = grid_input (codes "<td class=\"x-grid3-modify-cell\">" ∷ []) (some 0);
  dirty_html = some (marked dirty status_unknown);
}

abbrev two_panels : List Item
two_panels = none ∷ (some mtu_panel ∷ (some address_panel ∷ (none ∷ [])))

abbrev one_error : Submission
one_error = record {
  index = 4;
  num_sent = 2;
  sent = 1 ∷ (2 ∷ []);
  errors = (codes "bad<br>", 2) ∷ [];
}

conf_form_done-Shown_example :
    Shown one_error two_panels (handle_conf_form_command_done one_error two_panels none false)
conf_form_done-Shown_example =
    conf_form_done-Shown one_error two_panels none false refl
      (
        (some mtu_panel, refl, (no_flag, record { linked = refl; title = empty; html = refl })),
        (
          (
            some address_panel,
            refl,
            (status_unknown, record { linked = refl; title = dirty; html = refl }),
          ),
          tt,
        ),
      )
      (
        (
          some address_panel,
          refl,
          ((status_unknown, record { linked = refl; title = dirty; html = refl }), refl),
        ),
        tt,
      )
