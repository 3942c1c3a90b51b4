-- ===== src/OperView.antt =====
-- The view of an operational command: the fields that its node asks for, and the text that each
-- segment appends (`f_parseOpNode`, `f_getSegmentIdInNumeric` and `f_updateOperCmdResponse` of
-- src/client/Vyatta/js/vyatta-tree.js, `f_createTextAreaField` of src/client/Vyatta/js/vyatta-panels.js).
pub mod Streaming
use vyatta_webgui.Base.{
  ℕ, zero, suc, ◌+◌, ◌-◌, ◌*◌, ◌≤◌, ◌<◌, ◌≡◌, refl, sym, ap, ◌∙◌, ◌≢◌, ◌↔◌, ◌⊎◌, inl, inr, Bool,
  true, false, not, ◌&&◌, ◌||◌, Option, none, some, List, [], ◌∷◌, ◌++◌, map, append_assoc,
  append-nil, arith, ltb, leb, ◌==◌, if◌then◌else◌, Bool-cases, Option-cases, is_some, length,
  get_elem?, drop, take, any, all, All, All-append, length-append, ==_iff, ==_refl, lt→ltb, ltb→lt,
}
use vyatta_webgui.Text.{Text, codes, text_eq, count, contains, index_of, replace_first, split}
use vyatta_webgui.Text.Equality.{text_eq_iff, text_eq_refl}
use vyatta_webgui.Replace.{replace}
use vyatta_webgui.Segment.{segment_end}
use vyatta_webgui.Segment.Command.{arrow, value_text}

-- The `while` loop of `f_parseOpNode` on the texts from the child of the root down: the label so far
-- and the header so far, with a label for each value.
abbrev pub op_labels : Bool → Text → Text → List Text → List Text × Text
op_labels is_ie label header [] = ([], header)
op_labels is_ie label header (c ∷ names) =
    let wide = ltb 1 (length label) in
    let label' = (if wide then label ++ codes " " else label) ++ c in
    let header' = (if wide then header ++ arrow is_ie else header) ++ c in
    let rest = op_labels is_ie label' header' names in
    (if text_eq c value_text then label ∷ rest.0 else rest.0, rest.1)

-- `f_parseOpNode` without the nodes: the labels of the values, and the header.
unfoldable pub parse_op_node : Bool → List Text → List Text × Text
parse_op_node is_ie names = op_labels is_ie [] [] names

-- `Number(s)` of a text, where `none` is not a number; the texts are what stands between two
-- underscores of a segment.
abbrev pub is_digit : ℕ → Bool
is_digit c = leb 48 c && leb c 57

unfoldable pub digits : ℕ → Text → Option ℕ
digits n [] = some n
digits n (c ∷ s) = let rest = digits (10 * n + (c - 48)) s in if is_digit c then rest else none

unfoldable pub segment_id_in_numeric : Option Text → Option ℕ
segment_id_in_numeric none = some 0
segment_id_in_numeric (some sid) = elim (get_elem? (split (codes "_") sid) 2) [
  | none ↦ some 0
  | some t ↦ if text_eq t (codes "end") then some 0 else digits 0 t
]

-- `n < k`, which fails where `k` is not a number.
abbrev pub above : ℕ → Option ℕ → Bool
above n none = false
above n (some k) = ltb n k

abbrev pub close_tags : Text
close_tags = codes "</font></pre>"

-- The markup of the view; `id` is the one that the toolkit made.
unfoldable pub text_area_html : Text → Text → Text
text_area_html id values =
    (codes "<pre id=\"" ++ (id ++ codes "\"><font face=\"courier new\">")) ++ (values ++ close_tags)

-- The text of a segment as it is appended.
unfoldable pub fixed_values : Option ℕ → Text → Option Text
fixed_values n values =
    let v =
      if contains (codes "Renewing DHCP lease on ") values
      then replace_first (codes "...") (codes "completed.") values
      else values in
    let late : Bool = elim (index_of (codes "\n") v) [ none ↦ false | some i ↦ ltb 3 i ] in
    replace (if above 1 n && late then codes "\n" ++ v else v) (codes "<s") (codes "&lsaquo;s")

-- The view: the markup that was set, if there is one yet, with its id, and whether the button Pause shows.
pub record View : Type 0 where
  pub id : Text
  pub html : Option Text
  pub pause_shown : Bool

-- The view with a markup.
abbrev pub with_html : View → Text → View
with_html v html = record v { html = some html }

-- What an update of the view does to its markup; `read` is what the browser gives for `innerHTML` once a
-- markup was set.
unfoldable pub update_html : (Text → Text) → Option Text → Text → View → Text → Option View
update_html read none values v html = some v
update_html read (some sid) values v html =
    if text_eq sid segment_end
    then some v
    else if contains (codes "_0") (drop (length sid - 2) sid) && (length values == 0)
    then some (with_html v (text_area_html v.id []))
    else if contains (codes "_end") sid
    then some v
    else elim (fixed_values (segment_id_in_numeric (some sid)) values) [
      | none ↦ none
      | some text ↦
          some (with_html v (take (length (read html) - 13) (read html) ++ (text ++ close_tags)))
    ]

-- `f_updateOperCmdResponse` on the segment of the command and the text of a response, on a form that
-- has the button Pause.
unfoldable pub update_oper_cmd_response : (Text → Text) → Option Text → Text → View → Option View
update_oper_cmd_response read segment values v = elim v.html [
  | some html ↦
      update_html read segment values
        (if above 3 (segment_id_in_numeric segment) then record v { pause_shown = true } else v)
        html
  | none ↦ some (if is_some segment then with_html v (text_area_html v.id values) else v)
]
