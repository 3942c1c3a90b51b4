-- ===== src/Completion/Marks.antt =====
-- The handlers of one panel at the end of a submission.
use vyatta_webgui.Base.{◌≡◌, refl, ap, ◌∙◌, inl, inr, true, Option, none, some, Option-cases}
use vyatta_webgui.Text.{Text}
use vyatta_webgui.Escape.{◌>>=◌}
use vyatta_webgui.Tree.{Flag, image, error}
use vyatta_webgui.Indicators.{FlagName, status_down, panel_flag, update_dirty_indicator_panel}
use vyatta_webgui.Indicators.Marked.{flag_name, marked, update_marked}
use vyatta_webgui.Completion.{
  Input, Panel, Item, clear_input, form_field, panel_mark, clear_panel, error_input, error_panel,
}
use vyatta_webgui.Completion.Looks.{
  can_show_error, Alike, clear_input-Alike, error_input-Alike, error_returned,
}

-- The panel is what its node takes for its input panel, and shows the mark, in the markup it was made
-- with.
pub record Shows (p : Panel) (f : FlagName) : Type 0 where
  pub linked : p.behind ≡ none
  pub title : Flag
  pub html : p.dirty_html ≡ some (marked title f)

-- The panel of an item shows the mark, asks for `own` by its value, and can show an error.
pub record PanelAt (own : Flag) (f : FlagName) (item : Item) : Type 0 where
  pub panel : Panel
  pub here : item ≡ some panel
  pub shows : Shows panel f
  pub asks : panel_mark panel ≡ own

panel_mark_same :
    (p : Panel) (i : Input) (html : Option Text)
    → form_field i ≡ form_field p.input
    → panel_mark (record p { input = i; dirty_html = html }) ≡ panel_mark p
unfolding panel_mark
panel_mark_same p i html same = ap (panel_flag (some p.attributes) p.attr_value) same

-- A panel after a handler that clears it or shows an error.
pub record Handled (p : Panel) (f : FlagName) (result : Option Panel) : Type 0 where
  pub panel : Panel
  pub returns : result ≡ some panel
  pub shows : Shows panel f
  pub asks : panel_mark panel ≡ panel_mark p
  pub rows : can_show_error panel.input ≡ can_show_error p.input

handled :
    (p : Panel) (f : FlagName) (g : Flag) (result : Option Input)
    → Shows p f
    → Alike p.input result
    → Handled p (flag_name g) (
        result >>= λ i. update_dirty_indicator_panel p.dirty_html (image g) >>= λ html.
        some (record p { input = i; dirty_html = html }))
handled p f g result shows a =
    let html = some (marked shows.title (flag_name g)) in
    record {
      panel = record p { input = a.input; dirty_html = html };
      returns =
          ap
            (λ r. r >>= λ i. update_dirty_indicator_panel p.dirty_html (image g) >>= λ h.
              some (record p { input = i; dirty_html = h }))
            a.returns
          ∙ ap
              (λ m. update_dirty_indicator_panel m (image g) >>= λ h.
                some (record p { input = a.input; dirty_html = h }))
              shows.html
          ∙ ap (λ r. r >>= λ h. some (record p { input = a.input; dirty_html = h }))
              (update_marked shows.title f g);
      shows = record { linked = shows.linked; title = shows.title; html = refl };
      asks = panel_mark_same p a.input html a.same_field;
      rows = a.same_rows;
    }

pub clear_panel-Handled :
    (p : Panel) (f : FlagName) → Shows p f → Handled p (flag_name (panel_mark p)) (clear_panel p)
unfolding clear_panel
clear_panel-Handled p f shows =
    handled p f (panel_mark p) (clear_input p.input) shows (clear_input-Alike p.input)

pub error_panel-Handled :
    (p : Panel) (f : FlagName)
    → Shows p f
    → can_show_error p.input ≡ true
    → Handled p status_down (error_panel p)
unfolding error_panel
error_panel-Handled p f shows h =
    handled p f error (error_input p.input) shows (error_input-Alike p.input h)

-- Where showing an error returned, the panel shows it.
pub error_panel-returned :
    (p p' : Panel) (f : FlagName)
    → Shows p f
    → error_panel p ≡ some p'
    → Handled p status_down (error_panel p)
unfolding error_panel
error_panel-returned p p' f shows h = elim (Option-cases (error_input p.input)) [
  | inl n ↦ absurd (
      cc (
        ap
          (λ r. r >>= λ i. update_dirty_indicator_panel p.dirty_html (image error) >>= λ html.
            some (record p { input = i; dirty_html = html }))
          n))
  | inr (i, e) ↦ handled p f error (error_input p.input) shows (error_returned p.input i e)
]
