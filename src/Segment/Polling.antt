-- ===== src/Segment/Polling.antt =====
-- The timer asks for one segment at a time.
use vyatta_webgui.Base.{
  ◌≡◌, refl, sym, inl, inr, Bool, true, false, not, ◌&&◌, Option, none, some, List, [], arith,
  if◌then◌else◌, Bool-cases, is_some,
}
use mathlib.Core.Path.{subst}
use vyatta_webgui.Text.{Text, text_eq}
use vyatta_webgui.Segment.{CliCmd, OpNode}
use vyatta_webgui.Segment.Command.{
  send_str, header_str, xml_str, or_empty, Request, Call, Sent, sent, skipped, Walk, words, refused,
  throws, send_operation_cli_command, send_words, request_unless_same, walk,
}
use vyatta_webgui.Segment.Events.{tick, end_run, next_call}

-- A request of the timer leaves no segment behind.
abbrev Cleared : Sent → Type 0
Cleared (sent st req) = st.segment_id ≡ none
Cleared _ = Unit

request_unless_same-Cleared :
    (user : Text) (c : Call) (st : CliCmd) (header statement : Text)
    → st.segment_id ≡ none
    → Cleared (request_unless_same user c st header statement)
unfolding request_unless_same
request_unless_same-Cleared user c st header statement h =
    elim (Bool-cases
      (is_some c.prev_xml && text_eq (or_empty c.prev_xml) (xml_str user statement))) [
        | inl e ↦ rw e tt
        | inr e ↦ rw e h
      ]

send_words-Cleared :
    (is_ie : Bool) (user : Text) (c : Call) (seg : Option Text) (node : List OpNode) (w : Walk)
    (st : CliCmd)
    → Cleared (send_words is_ie user (record c { segment = seg }) node w st)
unfolding send_words
send_words-Cleared is_ie user c seg node throws st = tt
send_words-Cleared is_ie user c seg node (refused prompts) st = tt
send_words-Cleared is_ie user c none node (words narr) st =
    request_unless_same-Cleared user (record c { segment = none })
      (record st { node = some node; waits = true; has_cb = c.has_cb; segment_id = none })
      (header_str is_ie [] narr) (send_str narr) refl
send_words-Cleared is_ie user c (some sid) node (words narr) st =
    request_unless_same-Cleared user (record c { segment = some sid })
      (record st { node = some node; has_cb = c.has_cb; segment_id = none })
      (header_str is_ie [] narr) sid refl

call-Cleared :
    (is_ie : Bool) (user sid : Text) (c : Call) (st : CliCmd) (node : Option (List OpNode))
    → Cleared
        (send_operation_cli_command is_ie user (record c { node = node; segment = some sid }) st)
unfolding send_operation_cli_command
call-Cleared is_ie user sid c st none =
    request_unless_same-Cleared user (record c { node = none; segment = some sid })
      (record st { has_cb = c.has_cb; segment_id = none }) [] sid refl
call-Cleared is_ie user sid c st (some node) =
    send_words-Cleared is_ie user (record c { node = some node }) (some sid) node
      (walk c.force [] node) st

-- The rest of the timer, for the state after its first test.
abbrev pub poll : Bool → Text → CliCmd → Option Text → Bool → Sent
poll is_ie user st none paused = skipped st false
poll is_ie user st (some sid) paused =
    if not paused
    then send_operation_cli_command is_ie user (next_call st sid) st
    else skipped st false

poll-Cleared :
    (is_ie : Bool) (user : Text) (st : CliCmd) (seg : Option Text) (paused : Bool)
    → Cleared (poll is_ie user st seg paused)
poll-Cleared is_ie user st none paused = tt
poll-Cleared is_ie user st (some sid) true = tt
poll-Cleared is_ie user st (some sid) false =
    call-Cleared is_ie user sid (next_call st sid) st st.node

pub tick-poll :
    (is_ie : Bool) (user : Text) (st : CliCmd)
    → tick is_ie user st
      ≡ poll is_ie user (end_run st) (end_run st).segment_id (end_run st).seg_pause
unfolding tick
tick-poll is_ie user st = ground arith

tick-Cleared : (is_ie : Bool) (user : Text) (st : CliCmd) → Cleared (tick is_ie user st)
tick-Cleared is_ie user st =
    subst Cleared (sym (tick-poll is_ie user st))
      (poll-Cleared is_ie user (end_run st) (end_run st).segment_id (end_run st).seg_pause)

-- On a state without a segment the timer does nothing.
tick_idle :
    (is_ie : Bool) (user : Text) (st : CliCmd)
    → st.segment_id ≡ none
    → tick is_ie user st ≡ skipped st false
unfolding tick end_run
tick_idle is_ie user st e = ground arith

-- A request of the timer leaves the state without a segment, and on such a state the timer sends
-- nothing: the next request waits for a response that brings a segment.
pub tick_once :
    (is_ie : Bool) (user : Text) (st st' : CliCmd) (req : Request)
    → tick is_ie user st ≡ sent st' req
    → (st'.segment_id ≡ none) × (tick is_ie user st' ≡ skipped st' false)
tick_once is_ie user st st' req h =
    let e : st'.segment_id ≡ none = subst Cleared h (tick-Cleared is_ie user st) in
    (e, tick_idle is_ie user st' e)
