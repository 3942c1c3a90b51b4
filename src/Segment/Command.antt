-- ===== src/Segment/Command.antt =====
-- `f_sendOperationCliCommand` of src/client/Vyatta/utils/vyatta-cli-command.js up to the request.
use vyatta_webgui.Base.{
  Bool, true, false, not, ◌&&◌, ◌||◌, if◌then◌else◌, ltb, Option, none, some, List, [], ◌∷◌, ◌++◌,
  length, is_some,
}
use vyatta_webgui.Text.{Text, codes, text_eq}
use vyatta_webgui.Segment.{OpNode, WildCard, CliCmd}

-- The texts of an input field that was not filled in.
abbrev pub is_empty_value : Text → Bool
is_empty_value val = text_eq val (codes "'Select a valuid value...'") || text_eq val (codes "''")

abbrev pub value_text : Text
value_text = codes "&lt;value&gt;"

-- What the walk from the node up to the root `Operation` gives: the words, the root's child first;
-- or the end of the call, with a message or not; or an exception above the root.
pub data Walk : Type 0 where
  words : List Text → Walk
  refused : (prompts : Bool) → Walk
  throws : Walk

-- The loop on `narr`, whose last element is the head of the list.
unfoldable pub walk : Bool → List Text → List OpNode → Walk
walk force narr [] = throws
walk force narr (n ∷ above) =
    let by_name = walk force (n.text ∷ narr) above in
    let by_value = λ (val : Text). walk force (val ∷ narr) above in
    if text_eq n.text (codes "Operation")
    then words narr
    else if text_eq n.text value_text
    then elim n.get_val [
      | some val ↦
          if force && is_empty_value val
          then refused true
          else if not force || is_empty_value val
          then refused false
          else by_value val
      | none ↦ if not force then refused false else walk force (codes "<Value>" ∷ narr) above
    ]
    else by_name

-- The loop that empties `narr` into `sendStr`.
unfoldable pub send_str : List Text → Text
send_str [] = []
send_str (c ∷ narr) = c ++ (codes " " ++ send_str narr)

abbrev pub arrow : Bool → Text
arrow true = codes "&nbsp;&rarr;&nbsp;"
arrow false = codes "&nbsp;&rArr;&nbsp;"

-- The same loop on `headerStr`.
unfoldable pub header_str : Bool → Text → List Text → Text
header_str is_ie header [] = header
header_str is_ie header (c ∷ narr) =
    header_str is_ie ((if ltb 1 (length header) then header ++ arrow is_ie else header) ++ c) narr

-- A request that was sent, with what its callback holds.
pub record Request : Type 0 where
  pub statement : Text
  pub header : Text
  pub wild_card : WildCard
  pub has_cb : Bool
  pub clear : Bool

-- The document around a statement, for the user's session.
unfoldable pub xml_str : Text → Text → Text
xml_str sid statement =
    codes "<?xml version=\"1.0\" encoding=\"utf-8\"?>\n"
    ++ (codes "<vyatta><command><id>"
        ++ (sid
            ++ (codes "</id>\n<statement mode='op'>"
                ++ (statement ++ codes "</statement>\n</command></vyatta>\n"))))

-- The arguments of the call; `prev_xml` is `prevXMLStr`.
pub record Call : Type 0 where
  pub node : Option (List OpNode)
  pub has_cb : Bool
  pub clear : Bool
  pub prev_xml : Option Text
  pub force : Bool
  pub segment : Option Text
  pub wild_card : WildCard

-- What a call does: it sends a request, or it ends without one, or it fails.
pub data Sent : Type 0 where
  sent : CliCmd → Request → Sent
  skipped : CliCmd → (prompts : Bool) → Sent
  failed : Sent

abbrev pub or_empty : Option Text → Text
or_empty none = []
or_empty (some t) = t

-- The end of the call: a command that was sent before is not sent again.
unfoldable pub request_unless_same : Text → Call → CliCmd → Text → Text → Sent
request_unless_same sid c st header statement =
    if is_some c.prev_xml && text_eq (or_empty c.prev_xml) (xml_str sid statement)
    then skipped st false
    else sent st (record {
      statement = statement;
      header = header;
      wild_card = c.wild_card;
      has_cb = c.has_cb;
      clear = c.clear;
    })

-- The call for a node, once its words are known.
unfoldable pub send_words : Bool → Text → Call → List OpNode → Walk → CliCmd → Sent
send_words is_ie sid c node throws st = failed
send_words is_ie sid c node (refused prompts) st = skipped st prompts
send_words is_ie sid c node (words narr) st = elim c.segment [
  | none ↦
      request_unless_same sid c
        (record st { node = some node; waits = true; has_cb = c.has_cb; segment_id = none })
        (header_str is_ie [] narr) (send_str narr)
  | some segment ↦
      request_unless_same sid c
        (record st { node = some node; has_cb = c.has_cb; segment_id = none })
        (header_str is_ie [] narr) segment
]

unfoldable pub send_operation_cli_command : Bool → Text → Call → CliCmd → Sent
send_operation_cli_command is_ie sid c st = elim c.node [
  | some node ↦ send_words is_ie sid c node (walk c.force [] node) st
  | none ↦ elim c.segment [
    | some segment ↦
        request_unless_same sid c (record st { has_cb = c.has_cb; segment_id = none }) [] segment
    | none ↦ request_unless_same sid c (record st { waits = true }) [] (or_empty c.prev_xml)
  ]
]
