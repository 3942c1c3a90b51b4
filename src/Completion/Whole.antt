-- ===== src/Completion/Whole.antt =====
-- The whole end of a submission: what each indicator of the form shows then.
use vyatta_webgui.Base.{
  ℕ, ◌≡◌, refl, sym, ap, ◌∙◌, Bool, true, Option, none, some, List, [], ◌∷◌, ◌++◌, map, ltb,
  if◌then◌else◌, get_elem?, All,
}
use vyatta_webgui.Text.{Text}
use mathlib.Core.Option
use mathlib.Core.Path.{subst}
use vyatta_webgui.Escape.{◌>>=◌}
use vyatta_webgui.Tree.{Flag}
use vyatta_webgui.Indicators.{FlagName, status_down}
use vyatta_webgui.Indicators.Marked.{flag_name}
use vyatta_webgui.Form.{Submission}
use vyatta_webgui.Completion.{
  prompt, hide_wait, forget_at, Panel, Item, Errors, clear_panel, by_panel, on_node, Behind,
  clears_behind, errs_behind, panel_mark, error_panel, handle_field_error, handle_form_indicators,
  mark_sent, mark_errors, Completion, handle_conf_form_command_done,
}
use vyatta_webgui.Completion.Fields.{each_at-by, each_at, mem, each_at-returns}
use vyatta_webgui.Completion.Looks.{can_show_error, map_inverse}
use vyatta_webgui.Completion.Marks.{
  Shows, PanelAt, clear_panel-Handled, error_panel-Handled, error_panel-returned,
}

-- An item without a node, or a panel that is its node's input panel and whose indicator shows some mark.
abbrev pub Ready : Item → Type 0
Ready none = Unit
Ready (some p) = (f : FlagName) × Shows p f

-- Such an item in which an error can be shown.
abbrev pub ErrorReady : Item → Type 0
ErrorReady none = Unit
ErrorReady (some p) = ((f : FlagName) × Shows p f) × (can_show_error p.input ≡ true)

-- Where a panel is its node's, the handler works on it.
at_linked :
    (h : Panel → Option Panel) (returns : Behind → Bool) (p : Panel)
    → p.behind ≡ none
    → on_node h returns (some p) ≡ Option.map some (h p)
at_linked h returns p e = ap (by_panel returns p (Option.map some (h p))) e

clear_keeps :
    (x : Item) → Ready x → (y : Item) × (on_node clear_panel clears_behind x ≡ some y) × Ready y
clear_keeps none h = (none, refl, tt)
clear_keeps (some p) (f, shows) =
    let r = clear_panel-Handled p f shows in
    (
      some r.panel,
      at_linked clear_panel clears_behind p shows.linked ∙ ap (Option.map some) r.returns,
      (flag_name (panel_mark p), r.shows),
    )

error_keeps :
    (x : Item) → ErrorReady x → (y : Item) × (handle_field_error x ≡ some y) × ErrorReady y
unfolding handle_field_error
error_keeps none h = (none, refl, tt)
error_keeps (some p) ((f, shows), can) =
    let r = error_panel-Handled p f shows can in
    (
      some r.panel,
      at_linked error_panel errs_behind p shows.linked ∙ ap (Option.map some) r.returns,
      ((status_down, r.shows), r.rows ∙ can),
    )

clear-ErrorReady :
    (x y : Item) → ErrorReady x → on_node clear_panel clears_behind x ≡ some y → ErrorReady y
clear-ErrorReady none y h e = let same : none ≡ y = cc in subst ErrorReady same tt
clear-ErrorReady (some p) y ((f, shows), can) e =
    let r = clear_panel-Handled p f shows in
    let same : some r.panel ≡ y =
      cc (e, at_linked clear_panel clears_behind p shows.linked, ap (Option.map some) r.returns) in
    subst ErrorReady same ((flag_name (panel_mark p), r.shows), r.rows ∙ can)

-- A panel that asks for `own` shows it once it was cleared.
clear-PanelAt :
    (own : Flag) (f : FlagName) (x y : Item)
    → PanelAt own f x
    → on_node clear_panel clears_behind x ≡ some y
    → PanelAt own (flag_name own) y
clear-PanelAt own f x y at e =
    let r = clear_panel-Handled at.panel f at.shows in
    let same : some r.panel ≡ y = cc (
      e,
      ap (Option.map some) r.returns,
      at_linked clear_panel clears_behind at.panel at.shows.linked,
      ap (on_node clear_panel clears_behind) at.here,
    ) in
    record {
      panel = r.panel;
      here = sym same;
      shows = subst (λ g. Shows r.panel (flag_name g)) at.asks r.shows;
      asks = r.asks ∙ at.asks;
    }

-- Where an error was shown, the panel shows it.
error-PanelAt :
    (own : Flag) (f : FlagName) (x y : Item)
    → PanelAt own f x
    → handle_field_error x ≡ some y
    → PanelAt own status_down y
unfolding handle_field_error
error-PanelAt own f x y at e =
    let (p', returned, same) = map_inverse some (error_panel at.panel) y (
      cc (
        e,
        at_linked error_panel errs_behind at.panel at.shows.linked,
        ap (on_node error_panel errs_behind) at.here,
      )) in
    let r = error_panel-returned at.panel p' f at.shows returned in
    let eq : some r.panel ≡ y = cc (r.returns) in
    record { panel = r.panel; here = sym eq; shows = r.shows; asks = r.asks ∙ at.asks }

bind_inverse {ℓ κ} :
    {A : Type ℓ} {B : Type κ} (o : Option A) (k : A → Option B) (b : B)
    → (o >>= k) ≡ some b
    → (a : A) × (o ≡ some a) × (k a ≡ some b)
bind_inverse none k b h = absurd (cc)
bind_inverse (some a) k b h = (a, refl, h)

-- The rest of the loop, from the items and the buffer that a handler left.
abbrev then_mark : List ℕ → Errors → Option (List Item) → Option (List Item × Errors)
then_mark sent errs o =
    ◌>>=◌ {A = List Item × Errors} (Option.map (λ c. (c, errs)) o) (λ r. mark_sent sent r.0 r.1)

-- The items after the loop over the panels that were sent.
mark_sent-items :
    (sent : List ℕ) (items items' : List Item) (errs : Errors)
    → each_at (on_node clear_panel clears_behind) sent items ≡ some items'
    → (errs' : Errors) × (mark_sent sent items errs ≡ some (items', errs'))
unfolding mark_sent each_at handle_form_indicators
mark_sent-items [] items items' errs e = (errs, ap (Option.map (λ i. (i, errs))) e)
mark_sent-items (i ∷ sent) items items' errs e =
    let (zs, s, rest) =
      bind_inverse _ (each_at (on_node clear_panel clears_behind) sent) items' e in
    let (errs', g) = mark_sent-items sent zs items' (forget_at i items errs) rest in
    (errs', ap (then_mark sent (forget_at i items errs)) s ∙ g)

mark_errors-items :
    (errors : List (Text × ℕ)) (items items' : List Item)
    → each_at handle_field_error (map (λ e. e.1) errors) items ≡ some items'
    → (t : Text) × (mark_errors errors items ≡ some (t, items'))
unfolding mark_errors each_at
mark_errors-items [] items items' e = ([], ap (Option.map (λ i. ([], i))) e)
mark_errors-items ((text, i) ∷ errors) items items' e =
    let (zs, s, rest) =
      bind_inverse _ (each_at handle_field_error (map (λ x. x.1) errors)) items' e in
    let (t, g) = mark_errors-items errors zs items' rest in
    (
      text ++ t,
      ap (λ o. o >>= λ m. mark_errors errors m >>= λ r. some (text ++ r.0, r.1)) s
          ∙ ap (λ o. o >>= λ r. some (text ++ r.0, r.1)) g,
    )

-- The mark that a panel is to show at the end: the error if one was noted for it, the mark that its
-- value asks for if it was sent, and else the one it showed.
abbrev pub expected : Submission → ℕ → Panel → FlagName → FlagName
expected s i p f =
    if mem i (map (λ e. e.1) s.errors)
    then status_down
    else if mem i s.sent
    then flag_name (panel_mark p)
    else f

-- The call returns, and each panel shows the mark it is to show.
pub record Shown (s : Submission) (items : List Item) (result : Option Completion) : Type 0 where
  pub completion : Completion
  pub returns : result ≡ some completion
  pub marks :
      (i : ℕ) (p : Panel) (f : FlagName)
      → get_elem? items i ≡ some (some p)
      → Shows p f
      → (y : Item) × (get_elem? completion.items i ≡ some y)
        × PanelAt (panel_mark p) (expected s i p f) y

-- The item at an index of the form is as a handler needs it.
abbrev pub At : (Item → Type 0) → List Item → ℕ → Type 0
At Ok items i = (x : Item) × (get_elem? items i ≡ some x) × Ok x

errors_still :
    (sent is : List ℕ) (items items' : List Item)
    → each_at (on_node clear_panel clears_behind) sent items ≡ some items'
    → All (At ErrorReady items) is
    → All (At ErrorReady items') is
errors_still sent [] items items' e h = tt
errors_still sent (i ∷ is) items items' e ((x, at, ok), h) = (
  each_at-by (on_node clear_panel clears_behind) ErrorReady ErrorReady clear-ErrorReady
      clear-ErrorReady (λ b y. ErrorReady y) (λ y k. k) (λ y k. k) sent i items items' x e at ok,
  errors_still sent is items items' e h,
)

-- The mark of a panel under a loop that gives the mark `g` for the mark `f`.
panel_under :
    (h : Item → Option Item) (own : Flag) (f g : FlagName)
    → ((k : FlagName) (x y : Item) → PanelAt own k x → h x ≡ some y → PanelAt own g y)
    → (is : List ℕ) (i : ℕ) (items items' : List Item) (x : Item) → each_at h is items ≡ some items'
    → get_elem? items i ≡ some x
    → PanelAt own f x
    → (y : Item) × (get_elem? items' i ≡ some y) × PanelAt own (if mem i is then g else f) y
panel_under h own f g gives is i items items' x e at p =
    each_at-by h (PanelAt own f) (PanelAt own g) (gives f) (gives g)
      (λ b y. PanelAt own (if b then g else f) y) (λ y k. k) (λ y k. k) is i items items' x e at p

shown_twice :
    (s : Submission) (items items' items'' : List Item)
    → each_at (on_node clear_panel clears_behind) s.sent items ≡ some items'
    → each_at handle_field_error (map (λ e. e.1) s.errors) items' ≡ some items''
    → (i : ℕ) (p : Panel) (f : FlagName) → get_elem? items i ≡ some (some p)
    → Shows p f
    → (y : Item) × (get_elem? items'' i ≡ some y) × PanelAt (panel_mark p) (expected s i p f) y
shown_twice s items items' items'' e e' i p f at shows =
    let own = panel_mark p in
    let (x, at', q) =
      panel_under (on_node clear_panel clears_behind) own f (flag_name own) (clear-PanelAt own)
        s.sent i items items' (some p) e at
        (record { panel = p; here = refl; shows = shows; asks = refl }) in
    panel_under handle_field_error own (if mem i s.sent then flag_name own else f) status_down
      (error-PanelAt own) (map (λ c. c.1) s.errors) i items' items'' x e' at' q

done_returns :
    (s : Submission) (items items' items'' : List Item) (errs errs' : Errors) (t : Text) (av : Bool)
    → ltb 0 s.num_sent ≡ true
    → mark_sent s.sent items errs ≡ some (items', errs')
    → mark_errors s.errors items' ≡ some (t, items'')
    → (c : Completion) × (handle_conf_form_command_done s items errs av ≡ some c)
      × (c.items ≡ items'')
unfolding handle_conf_form_command_done
done_returns s items items' items'' errs errs' t av h e e' = (
  record {
    items = items'';
    errors = errs';
    commit_available = true;
    reloads = true;
    shown = hide_wait ∷ prompt s.errors t;
  },
  rw (h, e, e') refl,
  refl,
)

-- At the end of a submission that sent something, where every panel that was sent is still the input
-- panel of its node, as it is unless the node was clicked again, and has an indicator with some mark, and
-- so has every panel with an error, which is no grid without an edited row: the handlers return, and at
-- every index the panel that is its node's and showed a mark shows the error if an error was
-- noted for it, else the mark that its node and value ask for if it was sent, and else what it showed.
pub conf_form_done-Shown :
    (s : Submission) (items : List Item) (errs : Errors) (available : Bool)
    → ltb 0 s.num_sent ≡ true
    → All (At Ready items) s.sent
    → All (At ErrorReady items) (map (λ e. e.1) s.errors)
    → Shown s items (handle_conf_form_command_done s items errs available)
conf_form_done-Shown s items errs available h sent_ready errors_ready =
    let (items', e) =
      each_at-returns (on_node clear_panel clears_behind) Ready clear_keeps s.sent items
        sent_ready in
    let errors_ready' = errors_still s.sent (map (λ c. c.1) s.errors) items items' e errors_ready in
    let (items'', e') =
      each_at-returns handle_field_error ErrorReady error_keeps (map (λ c. c.1) s.errors) items'
        errors_ready' in
    let (errs', marked) = mark_sent-items s.sent items items' errs e in
    let (t, told) = mark_errors-items s.errors items' items'' e' in
    let (c, returns, same) =
      done_returns s items items' items'' errs errs' t available h marked told in
    record {
      completion = c;
      returns = returns;
      marks = λ i p f at shows.
          subst
            (λ l.
              (y : Item) × (get_elem? l i ≡ some y) × PanelAt (panel_mark p) (expected s i p f) y)
            (sym same) (shown_twice s items items' items'' e e' i p f at shows);
    }
