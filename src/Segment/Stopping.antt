-- ===== src/Segment/Stopping.antt =====
-- What a stop of a running command holds back, and what it does not.
use vyatta_webgui.Base.{
  ◌++◌, ℕ, ◌≡◌, refl, ap, ◌∙◌, inl, inr, Bool, true, false, Option, none, some, List, [], arith,
  if◌then◌else◌, Bool-cases,
}
use vyatta_webgui.Text.{Text, codes, text_eq, contains}
use vyatta_webgui.Text.Equality.{text_eq_iff, text_eq_refl}
use vyatta_webgui.Response.{
  Browser, HttpResponse, Reply, Parsed, oper, is_response_ok, parse_server_callback,
}
use vyatta_webgui.Segment.{CliCmd, OpNode, WildCard, button, segment_end}
use vyatta_webgui.Segment.Command.{
  Request, sent, skipped, walk, words, header_str, send_words, request_unless_same,
  send_operation_cli_command,
}
use vyatta_webgui.Segment.Reply.{
  reboot_msg, Handled, quiet, op_cmd_cb, is_stopped, take_reply, show_reply, mark_progress, is_end,
}
use vyatta_webgui.Segment.Events.{tick, end_run, next_call, stop_button}

-- Until the timer runs, a response that is taken and comes after a stop changes nothing of the
-- command or the buffer of commit errors.
op_cmd_cb-stop_button :
    (b : Browser) (req : Request) (response : HttpResponse) (reply : Reply) (st : CliCmd)
    (errs : Option (List (List Text))) (k : ℕ)
    → (is_response_ok b.session response).0 ≡ true
    → op_cmd_cb b req response reply (stop_button k st) errs
      ≡ some (quiet (stop_button k st) errs (is_response_ok b.session response).1)
unfolding op_cmd_cb stop_button
op_cmd_cb-stop_button b req response reply st errs k ok = rw (ok, text_eq_refl segment_end)

-- The first run of the timer after a stop asks for nothing, and forgets the command and the
-- pause.
tick-stop_button :
    (is_ie : Bool) (sid : Text) (k : ℕ) (st : CliCmd)
    → tick is_ie sid (stop_button k st)
      ≡ skipped (record (stop_button k st) { segment_id = none; seg_pause = false }) false
unfolding tick end_run stop_button contains text_eq
tick-stop_button is_ie sid k st = refl

-- A stopped command that goes on: before the timer runs the response changes nothing but what is shown
-- of the session; the timer then asks for nothing and leaves `idle`; and the same response, if it comes
-- only then, leaves a command whose segment is `sid` and for which the next run of the timer sends that
-- segment as a request.
pub record Resumed (b : Browser) (req : Request) (response : HttpResponse) (reply : Reply)
    (errs : Option (List (List Text))) (is_ie : Bool) (user : Text) (stopped : CliCmd) (sid : Text)
    : Type 0 where
  pub held_back :
      op_cmd_cb b req response reply stopped errs
      ≡ some (quiet stopped errs (is_response_ok b.session response).1)
  pub idle : CliCmd
  pub forgets : tick is_ie user stopped ≡ skipped idle false
  pub handled : Handled
  pub returns : op_cmd_cb b req response reply idle errs ≡ some handled
  pub running : handled.state.segment_id ≡ some sid
  pub after : CliCmd
  pub next : Request
  pub polls : tick is_ie user handled.state ≡ sent after next
  pub asks : next.statement ≡ sid

not_end : (sid : Text) → is_end sid ≡ false → text_eq sid segment_end ≡ false
unfolding contains text_eq
not_end sid h = elim (Bool-cases (text_eq sid segment_end)) [
  | inl e ↦
      let same : is_end segment_end ≡ true = refl in
      absurd (cc (ap is_end ((text_eq_iff sid segment_end).0 e), same))
  | inr e ↦ e
]

mark_progress_keeps :
    (p : Parsed) (wild : WildCard) (st : CliCmd)
    → ((mark_progress p wild st).segment_id ≡ st.segment_id)
      × ((mark_progress p wild st).seg_pause ≡ st.seg_pause)
      × ((mark_progress p wild st).node ≡ st.node)
unfolding mark_progress
mark_progress_keeps p wild st = ground arith

end_run_running :
    (sid : Text) (st : CliCmd) → st.segment_id ≡ some sid → is_end sid ≡ false → end_run st ≡ st
unfolding end_run
end_run_running sid st e h = ground (arith, not_end sid h)

pub tick_running :
    (is_ie : Bool) (user sid : Text) (st : CliCmd)
    → st.segment_id ≡ some sid
    → st.seg_pause ≡ false
    → is_end sid ≡ false
    → tick is_ie user st ≡ send_operation_cli_command is_ie user (next_call st sid) st
unfolding tick
tick_running is_ie user sid st e p h = ground (arith, end_run_running sid st e h)

-- A response that is taken and understood goes to `take_reply`.
op_cmd_cb-taken :
    (b : Browser) (req : Request) (response : HttpResponse) (reply : Reply) (st : CliCmd)
    (errs : Option (List (List Text))) (p : Parsed)
    → (is_response_ok b.session response).0 ≡ true
    → is_stopped st.segment_id ≡ false
    → parse_server_callback b oper reply errs ≡ some p
    → op_cmd_cb b req response reply st errs
      ≡ take_reply req
          (record p { effects = (is_response_ok b.session response).1 ++ p.effects })
          st
unfolding op_cmd_cb
op_cmd_cb-taken b req response reply st errs p ok going parsed = rw (ok, going, parsed, op_cmd_cb)

-- For a node whose path is known the timer's call for a segment is a request for it.
next_call-sent :
    (is_ie : Bool) (user sid : Text) (st : CliCmd) (node : List OpNode) (narr : List Text)
    → st.node ≡ some node
    → walk true [] node ≡ words narr
    → (st' : CliCmd) × (r : Request) × (send_operation_cli_command is_ie user (next_call st sid) st
        ≡ sent st' r)
      × (r.statement ≡ sid)
unfolding send_operation_cli_command send_words request_unless_same
next_call-sent is_ie user sid st node narr at known = (
  record st { node = some node; has_cb = st.has_cb; segment_id = none },
  record {
    statement = sid;
    header = header_str is_ie [] narr;
    wild_card = st.wild_card;
    has_cb = st.has_cb;
    clear = false;
  },
  rw (at, known) refl,
  refl,
)

-- A response that comes late starts a stopped command again: for a command of a node whose path is
-- known, which is stopped by its button, and a response that is taken and understood, brings a segment
-- that does not end the command and answers a request of the button Run. Before the timer runs the
-- response is held back; the timer asks for nothing then; but if the response comes only after that run,
-- its segment is taken up, and the next run of the timer sends a request for it.
pub late_reply-Resumed :
    (b : Browser) (req : Request) (response : HttpResponse) (reply : Reply) (st : CliCmd)
    (errs : Option (List (List Text))) (k j : ℕ) (is_ie : Bool) (user sid : Text) (p : Parsed)
    (node : List OpNode) (narr : List Text)
    → (is_response_ok b.session response).0 ≡ true
    → parse_server_callback b oper reply errs ≡ some p
    → p.segment ≡ some sid
    → is_end sid ≡ false
    → req.wild_card ≡ button j
    → req.has_cb ≡ true
    → st.node ≡ some node
    → walk true [] node ≡ words narr
    → Resumed b req response reply errs is_ie user (stop_button k st) sid
unfolding op_cmd_cb take_reply show_reply stop_button
late_reply-Resumed b req response reply st errs k j is_ie user sid p node narr ok parsed seg live
      wild cb at known =
    let idle : CliCmd = record (stop_button k st) { segment_id = none; seg_pause = false } in
    let q : Parsed = record p { effects = (is_response_ok b.session response).1 ++ p.effects } in
    let st' : CliCmd = record idle { segment_id = p.segment } in
    let (same_id, same_pause, same_node) = mark_progress_keeps q req.wild_card st' in
    let msg : Text = if text_eq req.statement (codes "reboot ") then reboot_msg else p.msg in
    let handled : Handled = record {
      state = record (mark_progress q req.wild_card st') { waits = false };
      commit_errs = p.commit_errs;
      view = some (req.header, msg);
      dialog = none;
      effects = q.effects;
    } in
    let (after, next, sends, asks) =
      next_call-sent is_ie user sid handled.state node narr (same_node ∙ at) known in
    record {
      held_back = op_cmd_cb-stop_button b req response reply st errs k ok;
      idle = idle;
      forgets = tick-stop_button is_ie user k st;
      handled = handled;
      returns =
          op_cmd_cb-taken b req response reply idle errs p ok refl parsed
          ∙ simp (take_reply, wild, show_reply, cb);
      running = same_id ∙ seg;
      after = after;
      next = next;
      polls = tick_running is_ie user sid handled.state (same_id ∙ seg) same_pause live ∙ sends;
      asks = asks;
    }
