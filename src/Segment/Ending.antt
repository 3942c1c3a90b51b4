-- ===== src/Segment/Ending.antt =====
-- A command that runs comes to its end with the reply that ends it: the timer and the callback in turn.
use vyatta_webgui.Base.{
  ℕ, ◌≡◌, refl, ap, ◌∙◌, Bool, true, false, Option, none, some, List, [], ◌∷◌, ◌++◌, All, ==_refl,
}
use vyatta_webgui.Text.{Text}
use vyatta_webgui.Escape.{◌>>=◌}
use vyatta_webgui.Response.{Parsed}
use vyatta_webgui.Segment.{stop, wait_css, CliCmd, OpNode, Button, button, update, idle_button}
use vyatta_webgui.Segment.Command.{
  Request, Sent, sent, skipped, failed, words, walk, send_words, request_unless_same,
  send_operation_cli_command, header_str,
}
use vyatta_webgui.Segment.Reply.{take_reply, show_reply, mark_progress, is_end}
use vyatta_webgui.Segment.Stopping.{tick_running}
use vyatta_webgui.Login.{Effect}
use vyatta_webgui.Segment.Polling.{poll, tick-poll}
use vyatta_webgui.Segment.Events.{tick, end_run}

-- The state after the callback of what was sent.
unfoldable pub answered : Parsed → Sent → Option CliCmd
answered p failed = none
answered p (skipped st prompts) = none
answered p (sent st req) = take_reply req p st >>= λ h. some h.state

-- One run of the timer, with the reply to its request; `none` if it sends nothing.
abbrev pub round : Bool → Text → CliCmd → Parsed → Option CliCmd
round is_ie user st p = answered p (tick is_ie user st)

unfoldable pub rounds : Bool → Text → CliCmd → List Parsed → Option CliCmd
rounds is_ie user st [] = some st
rounds is_ie user st (p ∷ replies) = round is_ie user st p >>= λ st'. rounds is_ie user st' replies

-- A reply with a segment of a command that goes on.
pub record GoesOn (p : Parsed) : Type 0 where
  pub sid : Text
  pub segment : p.segment ≡ some sid
  pub live : is_end sid ≡ false
  pub success : p.success ≡ true

-- A reply with the segment that ends a command.
pub record Ends (p : Parsed) : Type 0 where
  pub sid : Text
  pub segment : p.segment ≡ some sid
  pub over : is_end sid ≡ true

-- The state of a command that was started with the button `k` and runs.
abbrev pub running_at : ℕ → List OpNode → Text → Bool → (ℕ → Option Text) → (ℕ → Button) → CliCmd
running_at k node sid waits outputs buttons = record {
  segment_id = some sid;
  seg_pause = false;
  node = some node;
  has_cb = true;
  wild_card = button k;
  waits = waits;
  outputs = outputs;
  buttons = buttons;
}

module _ (is_ie : Bool) (user : Text) (k : ℕ) (node : List OpNode) (narr : List Text)
    (known : walk true [] node ≡ words narr) where
  -- What the timer sends.
  abbrev asks : Text → Request
  asks sid = record {
    statement = sid;
    header = header_str is_ie [] narr;
    wild_card = button k;
    has_cb = true;
    clear = false;
  }

  -- The request of the timer with the state it leaves.
  abbrev asked_at : Text → Bool → (ℕ → Option Text) → (ℕ → Button) → Sent
  asked_at sid waits outputs buttons =
      sent (record (running_at k node sid waits outputs buttons) { segment_id = none }) (asks sid)

  tick-running_at :
      (sid : Text) (waits : Bool) (outputs : ℕ → Option Text) (buttons : ℕ → Button)
      → is_end sid ≡ false
      → tick is_ie user (running_at k node sid waits outputs buttons)
        ≡ asked_at sid waits outputs buttons
  unfolding send_operation_cli_command send_words request_unless_same
  tick-running_at sid waits outputs buttons h =
      tick_running is_ie user sid (running_at k node sid waits outputs buttons) refl refl h
      ∙ rw known refl

  answered_on :
      (msg sid sid' : Text) (errs : Option (List (List Text))) (effects : List Effect)
      (waits : Bool) (outputs : ℕ → Option Text) (buttons : ℕ → Button)
      → is_end sid' ≡ false
      → answered
          (record {
            success = true;
            msg = msg;
            segment = some sid';
            commit_errs = errs;
            effects = effects;
          })
          (asked_at sid waits outputs buttons)
        ≡ some (
            running_at k node sid' false outputs
              (update buttons k (record (buttons k) { style = wait_css; text = stop })))
  unfolding answered take_reply show_reply mark_progress
  answered_on msg sid sid' errs effects waits outputs buttons h = rw h refl

  answered_last :
      (success : Bool) (msg sid sid' : Text) (errs : Option (List (List Text)))
      (effects : List Effect) (waits : Bool) (outputs : ℕ → Option Text) (buttons : ℕ → Button)
      → is_end sid' ≡ true
      → answered
          (record {
            success = success;
            msg = msg;
            segment = some sid';
            commit_errs = errs;
            effects = effects;
          })
          (asked_at sid waits outputs buttons)
        ≡ some (record (running_at k node sid' false outputs buttons) {
          buttons = update buttons k idle_button;
        })
  unfolding answered take_reply show_reply mark_progress
  answered_last success msg sid sid' errs effects waits outputs buttons h = rw h refl

  -- A round with a reply of a command that goes on.
  round_on :
      (p : Parsed) (sid : Text) (waits : Bool) (outputs : ℕ → Option Text) (buttons : ℕ → Button)
      (g : GoesOn p)
      → is_end sid ≡ false
      → round is_ie user (running_at k node sid waits outputs buttons) p
        ≡ some (
            running_at k node g.sid false outputs
              (update buttons k (record (buttons k) { style = wait_css; text = stop })))
  round_on p sid waits outputs buttons g h =
      ap (answered p) (tick-running_at sid waits outputs buttons h)
      ∙ ap (λ q. answered q (asked_at sid waits outputs buttons))
          (ap (λ b. record p { success = b }) g.success
            ∙ ap (λ s. record p { success = true; segment = s }) g.segment)
      ∙ answered_on p.msg sid g.sid p.commit_errs p.effects waits outputs buttons g.live

  round_last :
      (p : Parsed) (sid : Text) (waits : Bool) (outputs : ℕ → Option Text) (buttons : ℕ → Button)
      (e : Ends p)
      → is_end sid ≡ false
      → round is_ie user (running_at k node sid waits outputs buttons) p
        ≡ some (running_at k node e.sid false outputs (update buttons k idle_button))
  round_last p sid waits outputs buttons e h =
      ap (answered p) (tick-running_at sid waits outputs buttons h)
      ∙ ap (λ q. answered q (asked_at sid waits outputs buttons))
          (ap (λ s. record p { segment = s }) e.segment)
      ∙ answered_last p.success p.msg sid e.sid p.commit_errs p.effects waits outputs buttons e.over

  -- The state at the end: the buttons are as before the start, no message waits, and the timer forgets
  -- the command without a request.
  pub record Ended (st : CliCmd) : Type 0 where
    pub idle : st.buttons k ≡ idle_button
    pub quiet : st.waits ≡ false
    pub forgets :
        tick is_ie user st ≡ skipped (record st { segment_id = none; seg_pause = false }) false

  end_run-over :
      (sid : Text) (outputs : ℕ → Option Text) (buttons : ℕ → Button)
      → is_end sid ≡ true
      → end_run (running_at k node sid false outputs buttons)
        ≡ record (running_at k node sid false outputs buttons) { segment_id = none }
  unfolding end_run
  end_run-over sid outputs buttons h = rw h refl

  comes_to_rest :
      (sid : Text) (outputs : ℕ → Option Text) (buttons : ℕ → Button)
      → is_end sid ≡ true
      → Ended (running_at k node sid false outputs (update buttons k idle_button))
  comes_to_rest sid outputs buttons h =
      let st = running_at k node sid false outputs (update buttons k idle_button) in
      record {
        idle = rw (==_refl k) refl;
        quiet = refl;
        forgets =
            tick-poll is_ie user st
            ∙ ap (λ t. poll is_ie user t t.segment_id t.seg_pause)
                (end_run-over sid outputs (update buttons k idle_button) h);
      }

  -- A command that runs, is not paused and is left alone ends: if its path can be sent, then after any
  -- number of replies that bring segments of it and one reply that brings its last segment, each read
  -- after one run of the timer that asked for it, the button shows Run again, no message waits, and
  -- the next run of the timer forgets the command without a request.
  pub rounds-Ended :
      (replies : List Parsed) (last : Parsed) (sid : Text) (waits : Bool)
      (outputs : ℕ → Option Text) (buttons : ℕ → Button)
      → is_end sid ≡ false
      → All GoesOn replies
      → Ends last
      → (st : CliCmd) × (rounds is_ie user
            (running_at k node sid waits outputs buttons)
            (replies ++ (last ∷ []))
          ≡ some st)
        × Ended st
  unfolding rounds
  rounds-Ended [] last sid waits outputs buttons h tt' e = (
    running_at k node e.sid false outputs (update buttons k idle_button),
    ap (λ o. o >>= some) (round_last last sid waits outputs buttons e h),
    comes_to_rest e.sid outputs buttons e.over,
  )
  rounds-Ended (p ∷ replies) last sid waits outputs buttons h (g, gs) e =
      let stopping = update buttons k (record (buttons k) { style = wait_css; text = stop }) in
      let (st, runs, ended) = rounds-Ended replies last g.sid false outputs stopping g.live gs e in
      (
        st,
        ap (λ o. o >>= λ st'. rounds is_ie user st' (replies ++ (last ∷ [])))
              (round_on p sid waits outputs buttons g h)
            ∙ runs,
        ended,
      )
