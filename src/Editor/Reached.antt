-- ===== src/Editor/Reached.antt =====
-- The editors that calls of its functions reach, and what holds of every one of them.
use vyatta_webgui.Base.{
  suc, ◌≡◌, refl, sym, ap, ◌∙◌, inl, inr, Bool, true, false, not, ◌&&◌, Option, none, some, List,
  [], ◌∷◌, arith, ltb, ◌==◌, if◌then◌else◌, Bool-cases, length,
}
use mathlib.Core.Path.{subst}
use vyatta_webgui.Editor.{
  change_form, after_item, walk_on, with_new_button, differs, counted, with_button, match_parts,
  match_item, map_form, add_to_form, Part, Fields, Form, Editor, Mode, config, conf_sub_button,
  add_walked, update_field_values2_panel, shown_form, show_form, new_form, add_field2_panel,
  add_confi_set_button, clean_editor_panel,
}
use vyatta_webgui.Editor.Adding.{add_walked-grown, add_walked-Added}
use vyatta_webgui.Editor.Sound.{
  Sound, SoundForm, NewField, grown-Sound, new_form-Sound, Added-Sound, shown-Sound,
}

-- The editors that calls reach, whether help is shown or not.
pub data Reached : Editor → Type 0 where
  start : Reached (record { m_form_panel = none; has_item = false })
  cleaned : {ed : Editor} → Reached ed → Reached (clean_editor_panel ed)
  added :
      (help_on : Bool) (mode : Mode) (fields : Fields) {ed ed' : Editor}
      → Reached ed
      → NewField fields
      → add_field2_panel help_on mode ed fields ≡ some ed'
      → Reached ed'
  button_set :
      (help_on : Bool) {ed ed' : Editor}
      → Reached ed
      → add_confi_set_button help_on ed ≡ some ed'
      → Reached ed'

add_to_form-Sound :
    (help_on : Bool) (mode : Mode) (f : Fields) (o : Option Form) (ed : Editor)
    → NewField f
    → SoundForm o
    → add_to_form help_on mode f o ≡ some ed
    → SoundForm ed.m_form_panel
add_to_form-Sound help_on mode f none ed hf sound e =
    shown-Sound (some (new_form mode f)) ed
      (λ form h. let same : new_form mode f ≡ form = cc in subst Sound same (new_form-Sound mode f))
      e
add_to_form-Sound help_on mode f (some form) ed hf sound e =
    shown-Sound (add_walked help_on f form (update_field_values2_panel f form.items)) ed
      (λ form' h.
        Added-Sound help_on f form form' sound hf
          (add_walked-Added help_on f form form' _ sound.plain hf.0 refl h))
      e

shown_form-SoundForm :
    (b : Bool) (o : Option Form) → SoundForm o → SoundForm (if b then o else none)
shown_form-SoundForm true o h = h
shown_form-SoundForm false o h = tt

counted-Sound : (form : Form) → Sound form → Sound (counted form)
counted-Sound form sound = elim (Bool-cases (form.m_count == 0)) [
  | inl e ↦ rw e (record {
    plain = sound.plain;
    apart = sound.apart;
    given = sound.given;
    one_button = sound.one_button;
  })
  | inr e ↦ rw e sound
]

map_counted-Sound : (o : Option Form) → SoundForm o → SoundForm (map_form counted o)
map_counted-Sound none h = tt
map_counted-Sound (some form) h = counted-Sound form h

no_parts : (both : Bool) (fs : Option (List Part)) → match_parts both fs none ≡ differs
unfolding match_parts
no_parts both none = refl
no_parts both (some fs) = refl

-- The button of the form, which the walk never finds.
button_walk :
    (items : List Fields) → update_field_values2_panel conf_sub_button items ≡ some (true, items)
unfolding update_field_values2_panel match_item match_parts
button_walk [] = refl
button_walk (f ∷ items) =
    ap (λ m. walk_on m conf_sub_button f items (update_field_values2_panel conf_sub_button items))
      (no_parts f.has_buttons f.parts)
    ∙ ap (after_item f) (button_walk items)

with_button-Sound :
    (help_on : Bool) (form : Form) (o : Option Form)
    → Sound form
    → form.m_sub_btn ≡ false
    → add_walked help_on conf_sub_button form (some (true, form.items)) ≡ o
    → SoundForm (map_form with_button o)
with_button-Sound help_on form none sound unset e = tt
with_button-Sound help_on form (some form') sound unset e =
    let (new, same) =
      add_walked-grown help_on conf_sub_button form form' form.items sound.plain refl
        (button_walk form.items) e in
    subst (λ t. Sound (with_button t)) (sym same)
      (grown-Sound help_on form conf_sub_button sound refl refl new true
        (ap suc (sound.one_button ∙ ap (λ b. if b then 1 else 0) unset)))

-- The change of the form where it is the one that is shown.
changed-Sound :
    (g : Form → Form) (same : Bool) (o : Option Form)
    → SoundForm (map_form g o)
    → SoundForm o
    → SoundForm (if same then map_form g o else o)
changed-Sound g true o h k = h
changed-Sound g false o h k = k

-- The editor that shows the form with its button.
button_shown :
    (help_on : Bool) (form : Form) (o : Option Form) (made : Editor)
    → Sound form
    → form.m_sub_btn ≡ false
    → add_walked help_on conf_sub_button form (some (true, form.items)) ≡ o
    → show_form o ≡ some made
    → SoundForm (map_form with_button made.m_form_panel)
button_shown help_on form none made sound unset e h = absurd (cc)
button_shown help_on form (some form') made sound unset e h =
    let whole : record { m_form_panel = some form'; has_item = true } ≡ made = cc in
    subst (λ d. SoundForm (map_form with_button d.m_form_panel)) whole
      (with_button-Sound help_on form (some form') sound unset e)

with_new_button-Sound :
    (help_on b : Bool) (form : Form) (r : Option Editor) (ed : Editor)
    → Sound form
    → form.m_sub_btn ≡ false
    → add_to_form help_on config conf_sub_button (if b then some form else none) ≡ r
    → with_new_button b r ≡ some ed
    → SoundForm ed.m_form_panel
with_new_button-Sound help_on b form none ed sound unset e h = absurd (cc)
with_new_button-Sound help_on true form (some made) ed sound unset e h =
    let e' = rw (button_walk form.items) at e in
    let whole : change_form counted true (change_form with_button true made) ≡ ed = cc in
    subst (λ d. SoundForm d.m_form_panel) whole
      (map_counted-Sound _ (button_shown help_on form _ made sound unset refl e'))
with_new_button-Sound help_on false form (some made) ed sound unset e h =
    let whole : change_form counted false (change_form with_button false made) ≡ ed = cc in
    subst (λ d. SoundForm d.m_form_panel) whole
      (shown-Sound (some (new_form config conf_sub_button)) made
        (λ form' k.
          let same : new_form config conf_sub_button ≡ form' = cc in
          subst Sound same (new_form-Sound config conf_sub_button))
        e)

set_button-Sound :
    (help_on b : Bool) (o : Option Form) (ed : Editor)
    → SoundForm o
    → add_confi_set_button help_on (record { m_form_panel = o; has_item = b }) ≡ some ed
    → SoundForm ed.m_form_panel
unfolding add_confi_set_button add_field2_panel
set_button-Sound help_on b none ed sound h = absurd (cc)
set_button-Sound help_on b (some form) ed sound h =
    elim (Bool-cases (not form.m_sub_btn && ltb 1 (length form.items))) [
      | inl t ↦ with_new_button-Sound help_on b form _ ed sound (ground (arith, t)) refl (rw t at h)
      | inr t ↦
          let h' = rw t at h in
          let whole : change_form counted true (record { m_form_panel = some form; has_item = b })
              ≡ ed =
            cc in
          subst (λ d. SoundForm d.m_form_panel) whole (map_counted-Sound (some form) sound)
    ]

-- In every editor that calls reach, whatever fields were added in whatever order, the fields of the
-- form have different labels, the tab indices that were given differ and lie below the next one, no
-- field begins with a button, and the form has exactly one submit button once it noted one, and none
-- before.
pub Reached-Sound : {ed : Editor} → Reached ed → SoundForm ed.m_form_panel
unfolding clean_editor_panel add_field2_panel
Reached-Sound start = tt
Reached-Sound (cleaned h) = Reached-Sound h
Reached-Sound (added help_on mode fields {ed} {ed'} h new e) =
    add_to_form-Sound help_on mode fields (shown_form ed) ed' new
      (shown_form-SoundForm ed.has_item ed.m_form_panel (Reached-Sound h)) e
Reached-Sound (button_set help_on {ed} {ed'} h e) =
    set_button-Sound help_on ed.has_item ed.m_form_panel ed' (Reached-Sound h) e
