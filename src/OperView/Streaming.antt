-- ===== src/OperView/Streaming.antt =====
-- The text of the view is what the segments bring, one after the other.
use mathlib.Core.Path.{subst}
use vyatta_webgui.Base.{
  ◌≢◌, ℕ, ◌-◌, ◌≡◌, refl, sym, ap, ◌∙◌, inl, inr, Bool, true, false, ◌&&◌, Option, none, some, List,
  [], ◌∷◌, ◌++◌, append_assoc, append-nil, arith, ◌==◌, Bool-cases, length, drop, take, All,
  length-append,
}
use vyatta_webgui.Text.{Text, codes, text_eq, count, contains}
use vyatta_webgui.Replace.Termination.{replace-Replaced}
use vyatta_webgui.Segment.{segment_end}
use vyatta_webgui.OperView.{
  View, with_html, text_area_html, close_tags, fixed_values, segment_id_in_numeric, update_html,
  update_oper_cmd_response, above,
}

-- A segment that carries text: it does not end the command, and does not acknowledge it.
abbrev pub Carries : Text → Text → Type 0
Carries sid values =
    (text_eq sid segment_end ≡ false)
    × ((contains (codes "_0") (drop (length sid - 2) sid) && (length values == 0)) ≡ false)
    × (contains (codes "_end") sid ≡ false)

fixed_returns : (n : Option ℕ) (values : Text) → (t : Text) × (fixed_values n values ≡ some t)
unfolding fixed_values count
fixed_returns n values =
    let r = replace-Replaced (codes "<s") (codes "&lsaquo;s") 60 (omega arith) _ refl refl in
    (r.value, r.returns)

take-length : (xs ys : Text) → take (length xs) (xs ++ ys) ≡ xs
take-length [] ys = refl
take-length (x ∷ xs) ys = ap (λ t. x ∷ t) (take-length xs ys)

take-append : (xs ys : Text) (n : ℕ) → n ≡ length xs → take n (xs ++ ys) ≡ xs
take-append xs ys n h = rw h (take-length xs ys)

-- The markup without its end.
cut_end : (s : Text) → take (length (s ++ close_tags) - 13) (s ++ close_tags) ≡ s
cut_end s =
    take-append s close_tags (length (s ++ close_tags) - 13)
      (omega (arith, length-append s close_tags))

-- The text that a segment adds to the view.
abbrev pub Adds : Text → Text → Text → Type 0
Adds sid values text = fixed_values (segment_id_in_numeric (some sid)) values ≡ some text

-- The markup in front of the text.
abbrev opening : Text → Text
opening id = codes "<pre id=\"" ++ (id ++ codes "\"><font face=\"courier new\">")

text_area_cut :
    (id body : Text)
    → take (length (text_area_html id body) - 13) (text_area_html id body) ≡ opening id ++ body
unfolding text_area_html
text_area_cut id body =
    ap (λ t. take (length t - 13) t) (sym (append_assoc (opening id) body close_tags))
    ∙ cut_end (opening id ++ body)

text_area_more :
    (id body text : Text)
    → (opening id ++ body) ++ (text ++ close_tags) ≡ text_area_html id (body ++ text)
unfolding text_area_html
text_area_more id body text =
    append_assoc (opening id) body (text ++ close_tags)
    ∙ ap (λ t. opening id ++ t) (sym (append_assoc body text close_tags))

-- A character that a browser writes in `innerHTML` as it was set: none of those that markup is made of,
-- and none that the reading of markup replaces.
abbrev pub IsPlain : ℕ → Type 0
IsPlain c = (c ≢ 38) × (c ≢ 60) × (c ≢ 62) × (c ≢ 0) × (c ≢ 13) × (c ≢ 160)

-- What is documented of a browser: a markup of tags in small letters around plain text is read as it
-- was set.
abbrev pub ReadsBack : (Text → Text) → Text → Type 0
ReadsBack read id =
    (body : Text) → All IsPlain body → read (text_area_html id body) ≡ text_area_html id body

update_html_appends :
    (read : Text → Text) (sid values body text : Text) (v : View)
    → read (text_area_html v.id body) ≡ text_area_html v.id body
    → Carries sid values
    → Adds sid values text
    → update_html read (some sid) values v (text_area_html v.id body)
      ≡ some (with_html v (text_area_html v.id (body ++ text)))
unfolding update_html
update_html_appends read sid values body text v same (stop, ack, running) adds =
    let step : update_html read (some sid) values v (text_area_html v.id body)
        ≡ some (
            with_html v (
              take (length (text_area_html v.id body) - 13) (text_area_html v.id body)
              ++ (text ++ close_tags))) =
      rw (stop, ack, running, adds, same) in
    step
    ∙ ap (λ t. some (with_html v (t ++ (text ++ close_tags)))) (text_area_cut v.id body)
    ∙ ap (λ t. some (with_html v t)) (text_area_more v.id body text)

-- The segments after the first, each with its text.
unfoldable pub stream : (Text → Text) → List (Text × Text) → View → Option View
stream read [] v = some v
stream read ((sid, values) ∷ more) v = elim (update_oper_cmd_response read (some sid) values v) [
  | none ↦ none
  | some v' ↦ stream read more v'
]

-- The texts that are added, one after the other.
unfoldable pub added : List (Text × Text) → Text
added [] = []
added ((sid, values) ∷ more) =
    elim (fixed_values (segment_id_in_numeric (some sid)) values) [ none ↦ [] | some t ↦ t ]
    ++ added more

-- The view with a text.
abbrev pub shown : Text → Bool → Text → View
shown id paused body = record {
  id = id;
  html = some (text_area_html id body);
  pause_shown = paused;
}

update_step :
    (read : Text → Text) (id sid values body text : Text) (paused : Bool)
    → read (text_area_html id body) ≡ text_area_html id body
    → Carries sid values
    → Adds sid values text
    → (p : Bool) × (update_oper_cmd_response read (some sid) values (shown id paused body)
        ≡ some (shown id p (body ++ text)))
unfolding update_oper_cmd_response
update_step read id sid values body text paused same carries adds =
    elim (Bool-cases (above 3 (segment_id_in_numeric (some sid)))) [
      | inl e ↦ (
        true,
        rw e (update_html_appends read sid values body text (shown id true body) same carries adds),
      )
      | inr e ↦ (
        paused,
        rw e (
            update_html_appends read sid values body text (shown id paused body) same carries adds),
      )
    ]

abbrev stream_on : (Text → Text) → List (Text × Text) → Option View → Option View
stream_on read more none = none
stream_on read more (some v) = stream read more v

stream_cons :
    (read : Text → Text) (sid values : Text) (more : List (Text × Text)) (v : View)
    → stream read ((sid, values) ∷ more) v
      ≡ stream_on read more (update_oper_cmd_response read (some sid) values v)
unfolding stream
stream_cons read sid values more v = elim (update_oper_cmd_response read (some sid) values v) [
  | none ↦ refl
  | some v' ↦ refl
]

added_cons :
    (sid values text : Text) (more : List (Text × Text))
    → Adds sid values text
    → added ((sid, values) ∷ more) ≡ text ++ added more
unfolding added
added_cons sid values text more h = rw (h, added)

All-prefix : (P : ℕ → Type 0) (xs ys : Text) → All P (xs ++ ys) → All P xs
All-prefix P [] ys h = tt
All-prefix P (x ∷ xs) ys h = (h.0, All-prefix P xs ys h.1)

-- Each segment carries text.
abbrev pub AllCarry : List (Text × Text) → Type 0
AllCarry = All (λ s. Carries s.0 s.1)

stream_shown :
    (read : Text → Text) (id body : Text) (paused : Bool) (segments : List (Text × Text))
    → ReadsBack read id
    → AllCarry segments
    → All IsPlain (body ++ added segments)
    → (p : Bool) × (stream read segments (shown id paused body)
        ≡ some (shown id p (body ++ added segments)))
unfolding stream added
stream_shown read id body paused [] back carry plain =
    (paused, ap (λ t. some (shown id paused t)) (sym (append-nil body)))
stream_shown read id body paused ((sid, values) ∷ more) back (c, carry) plain =
    let f = fixed_returns (segment_id_in_numeric (some sid)) values in
    let same = back body (All-prefix IsPlain body (added ((sid, values) ∷ more)) plain) in
    let u = update_step read id sid values body f.0 paused same c f.1 in
    let split : body ++ added ((sid, values) ∷ more) ≡ (body ++ f.0) ++ added more =
      ap (λ t. body ++ t) (added_cons sid values f.0 more f.1)
      ∙ sym (append_assoc body f.0 (added more)) in
    let rest =
      stream_shown read id (body ++ f.0) u.0 more back carry (subst (All IsPlain) split plain) in
    (
      rest.0,
      stream_cons read sid values more (shown id paused body)
          ∙ ap (stream_on read more) u.1
          ∙ rest.1
          ∙ ap (λ t. some (shown id rest.0 t)) (sym split),
    )

-- The view shows the text of a command in order, in a browser that reads the markup of the view back as
-- it was set while its text is plain: after a first response that opens the view and any further
-- segments, of which none acknowledges or ends the command, and if all that is shown is plain text,
-- every update has returned, and the markup that is set is that of one text, the first response's
-- followed by what each segment adds, within one pair of tags.
pub update_oper_cmd_response-stream :
    (read : Text → Text) (id first_sid first : Text) (paused : Bool) (segments : List (Text × Text))
    → ReadsBack read id
    → AllCarry segments
    → All IsPlain (first ++ added segments)
    → (p : Bool) × (stream read
          ((first_sid, first) ∷ segments)
          (record { id = id; html = none; pause_shown = paused })
        ≡ some (shown id p (first ++ added segments)))
unfolding stream update_oper_cmd_response
update_oper_cmd_response-stream read id first_sid first paused segments back carry plain =
    stream_shown read id first paused segments back carry plain
