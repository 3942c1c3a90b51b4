-- ===== src/Segment/Listing.antt =====
-- The list of files that the save and load dialogs show is put together from segments.
use vyatta_webgui.Base.{
  ℕ, ◌≡◌, refl, sym, ap, ◌∙◌, true, false, Option, none, some, List, [], ◌∷◌, ◌++◌, append_assoc,
  append-nil, All, ==_refl,
}
use vyatta_webgui.Text.{Text, codes}
use vyatta_webgui.Response.{Parsed}
use vyatta_webgui.Segment.{CliCmd, update, files}
use vyatta_webgui.Segment.Reply.{Handled, quiet, list_files, is_end}

-- A reply without a failure, by its segment and message.
abbrev pub segment_reply : Text × Text → Parsed
segment_reply (sid, msg) = record {
  success = true;
  msg = msg;
  segment = some sid;
  commit_errs = none;
  effects = [];
}

-- The state after a run of replies; `none` where one of them raises an exception.
unfoldable pub feed : Text → Text → ℕ → List (Text × Text) → CliCmd → Option CliCmd
unfolding list_files
feed name command key [] st = some st
feed name command key ((sid, msg) ∷ more) st =
    elim (list_files st (segment_reply (sid, msg)) name command key msg) [
      | none ↦ none
      | some h ↦ feed name command key more h.state
    ]

-- The replies after one that was handled.
abbrev feed_on : Text → Text → ℕ → List (Text × Text) → Option Handled → Option CliCmd
feed_on name command key more none = none
feed_on name command key more (some h) = feed name command key more h.state

lines_step :
    (text msg rest : Text)
    → (text ++ (msg ++ codes "\n")) ++ rest ≡ text ++ (msg ++ (codes "\n" ++ rest))
lines_step text msg rest =
    append_assoc text (msg ++ codes "\n") rest
    ∙ ap (λ t. text ++ t) (append_assoc msg (codes "\n") rest)

-- The text after the first message: each later one with its own end of line.
unfoldable pub lines_of : List (Text × Text) → Text
lines_of [] = []
lines_of ((sid, msg) ∷ more) = msg ++ (codes "\n" ++ lines_of more)

-- No reply ends the command.
abbrev pub AllRunning : List (Text × Text) → Type 0
AllRunning = All (λ r. is_end r.0 ≡ false)

-- What is collected, and that nothing of the command is lost.
pub record Collected (key : ℕ) (text : Text) (result : Option CliCmd) : Type 0 where
  pub state : CliCmd
  pub returns : result ≡ some state
  pub output : state.outputs key ≡ some text

module _ (name command : Text) (key : ℕ) where
  update_same : (f : ℕ → Option Text) (v : Option Text) → update f key v key ≡ v
  update_same f v = rw (==_refl key)

  -- The state after a segment that is not the last.
  abbrev with_line : CliCmd → Text → Text → CliCmd
  with_line st text msg = record st {
    wild_card = files name command key;
    node = none;
    outputs = update st.outputs key (some (text ++ (msg ++ codes "\n")));
  }

  list_files_next :
      (st : CliCmd) (sid msg text : Text)
      → is_end sid ≡ false
      → st.outputs key ≡ some text
      → list_files st (segment_reply (sid, msg)) name command key msg
        ≡ some (quiet (with_line st text msg) none [])
  unfolding list_files
  list_files_next st sid msg text live out = rw (live, out)

  feed_rest :
      (rs : List (Text × Text)) (st : CliCmd) (text : Text)
      → AllRunning rs
      → st.outputs key ≡ some text
      → Collected key (text ++ lines_of rs) (feed name command key rs st)
  unfolding feed lines_of
  feed_rest [] st text live out = record {
    state = st;
    returns = refl;
    output = out ∙ ap some (sym (append-nil text));
  }
  feed_rest ((sid, msg) ∷ rs) st text (l, live) out =
      let rest =
        feed_rest rs (with_line st text msg) (text ++ (msg ++ codes "\n")) live
          (update_same st.outputs (some (text ++ (msg ++ codes "\n")))) in
      record {
        state = rest.state;
        returns =
            (ap (feed_on name command key rs) (list_files_next st sid msg text l out))
            ∙ rest.returns;
        output = rest.output ∙ ap some (lines_step text msg (lines_of rs));
      }

  -- The state after the first segment.
  abbrev with_first : CliCmd → Text → CliCmd
  with_first st msg = record st {
    wild_card = files name command key;
    node = none;
    outputs = update st.outputs key (some msg);
  }

  list_files_first :
      (st : CliCmd) (sid msg : Text)
      → is_end sid ≡ false
      → st.outputs key ≡ none
      → list_files st (segment_reply (sid, msg)) name command key msg
        ≡ some (quiet (with_first st msg) none [])
  unfolding list_files
  list_files_first st sid msg live out = rw (live, out)

  -- What the last segment shows.
  abbrev pub shown : CliCmd → Text → Handled
  shown st text = record {
    state = record st { wild_card = files name command key; node = none; waits = false };
    commit_errs = none;
    view = none;
    dialog = some (command, some text);
    effects = [];
  }

  list_files_last :
      (st : CliCmd) (sid msg text : Text)
      → is_end sid ≡ true
      → st.outputs key ≡ some text
      → list_files st (segment_reply (sid, msg)) name command key msg ≡ some (shown st text)
  unfolding list_files
  list_files_last st sid msg text last out = rw (last, out)

  -- The list of files is put together in the order of the replies: from a command without output
  -- yet, a first segment and any further ones that do not end it are all handled, and the segment
  -- that ends it then opens the dialog with the first text, directly followed by each later text
  -- with an end of line after it, and without the text of the last segment itself.
  pub show_files_collected :
      (st : CliCmd) (sid msg last_sid last_msg : Text) (rs : List (Text × Text))
      → st.outputs key ≡ none
      → is_end sid ≡ false
      → AllRunning rs
      → is_end last_sid ≡ true
      → (st' : CliCmd) × (feed name command key ((sid, msg) ∷ rs) st ≡ some st')
        × (list_files st' (segment_reply (last_sid, last_msg)) name command key last_msg
            ≡ some (shown st' (msg ++ lines_of rs)))
  unfolding feed
  show_files_collected st sid msg last_sid last_msg rs empty first live last =
      let rest = feed_rest rs (with_first st msg) msg live (update_same st.outputs (some msg)) in
      (
        rest.state,
        ap (feed_on name command key rs) (list_files_first st sid msg first empty) ∙ rest.returns,
        list_files_last rest.state last_sid last_msg (msg ++ lines_of rs) last rest.output,
      )
