-- ===== src/Tests/Editors.antt =====
-- Runs of the editor panel.
use vyatta_webgui.Base.{◌≡◌, refl, true, false, none, some, [], ◌∷◌}
use vyatta_webgui.Text.{Text, codes}
use vyatta_webgui.Editor.{
  match_label, match_parts, match_item, add_walked, conf_sub_button, update_field_values2_panel,
  new_form, XType, label_type, other_type, Part, Fields, Form, Editor, config, dummy,
  add_field2_panel, add_confi_set_button,
}
use vyatta_webgui.Editor.Reached.{Reached, start, added, button_set, Reached-Sound}
use vyatta_webgui.Editor.Sound.{SoundForm}
use vyatta_webgui.Editor.Twice.{Labelled, AddedOnce, add_field2_panel-AddedOnce}

abbrev part : XType → Text → Part
part x html = record { xtype = x; html = some html; text = none }

abbrev mtu : Fields
mtu = record dummy { parts = some (part label_type (codes "mtu: ") ∷ (part other_type [] ∷ [])) }

abbrev duplex : Fields
duplex = record dummy {
  parts = some (part label_type (codes "duplex: ") ∷ (part other_type [] ∷ []));
}

abbrev empty_editor : Editor
empty_editor = record { m_form_panel = none; has_item = false }

abbrev title : Fields
title = record dummy { m_title = codes "eth0 " }

abbrev no_fields : Form
no_fields = record {
  items = dummy ∷ [];
  m_title = codes "eth0 ";
  m_fd_index = 0;
  m_sub_btn = false;
  m_count = 0;
}

abbrev titled : Editor
titled = record { m_form_panel = some no_fields; has_item = true }

title_added : add_field2_panel false config empty_editor title ≡ some titled
unfolding add_field2_panel new_form
title_added = refl

titled-Reached : Reached titled
titled-Reached = added false config title start (refl, refl, refl) title_added

abbrev placed_mtu : Fields
placed_mtu = record mtu { tab_index = some 0; focused = true }

abbrev with_mtu : Editor
with_mtu = record titled {
  m_form_panel = some (record no_fields { items = dummy ∷ (placed_mtu ∷ []); m_fd_index = 1 });
}

mtu_added : add_field2_panel false config titled mtu ≡ some with_mtu
unfolding add_field2_panel update_field_values2_panel add_walked match_item match_parts match_label
mtu_added = refl

abbrev with_button : Editor
with_button = record titled {
  m_form_panel = some (record no_fields {
    items = dummy ∷ (placed_mtu ∷ (conf_sub_button ∷ []));
    m_fd_index = 1;
    m_sub_btn = true;
    m_count = 3;
  });
}

button_added : add_confi_set_button false with_mtu ≡ some with_button
unfolding add_confi_set_button add_field2_panel update_field_values2_panel add_walked match_item
    match_parts match_label
button_added = refl

with_mtu-Reached : Reached with_mtu
with_mtu-Reached = added false config mtu titled-Reached (refl, refl, refl) mtu_added

Reached-Sound_example : SoundForm with_button.m_form_panel
Reached-Sound_example = Reached-Sound (button_set false with_mtu-Reached button_added)

duplex-Labelled : Labelled duplex
unfolding vyatta_webgui.Editor.Unique.label_html
duplex-Labelled = record { html = some (codes "duplex: "); label = refl }

add_field2_panel-AddedOnce_example : AddedOnce false config with_mtu duplex
add_field2_panel-AddedOnce_example =
    add_field2_panel-AddedOnce
      (record no_fields { items = dummy ∷ (placed_mtu ∷ []); m_fd_index = 1 }) with_mtu-Reached
      false config duplex duplex-Labelled
