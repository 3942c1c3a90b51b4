-- ===== src/Segment.antt =====
-- Operational commands, whose answer comes in segments: the state `g_cliCmdObj` and the buttons Run
-- and Pause. The handlers are in the child modules; `Command` builds and sends a command, `Reply`
-- takes a response, `Events` has the timer and the clicks.
pub mod Command
pub mod Reply
pub mod Events
pub mod Building
pub mod Stopping
pub mod Listing
pub mod Polling
pub mod Ending
use vyatta_webgui.Base.{
  ℕ, Bool, true, false, Option, none, some, List, [], ◌∷◌, ◌==◌, if◌then◌else◌,
}
use vyatta_webgui.Text.{Text, codes}

pub data RunText : Type 0 where
  run stop : RunText

pub data PauseText : Type 0 where
  pause resume : PauseText

-- `V_STOP_CSS`, `V_WAIT_CSS` and `V_PAUSE_CSS`.
pub data ButtonStyle : Type 0 where
  stop_css wait_css pause_css : ButtonStyle

-- The button Run with the button Pause beside it.
pub record Button : Type 0 where
  pub text : RunText
  pub style : ButtonStyle
  pub pause_text : PauseText
  pub pause_visible : Bool

-- The argument `wildCard`: a button, or the array of the save and load commands, both shared
-- objects and so named by a key; the array's third element is in the state.
pub data WildCard : Type 0 where
  undefined : WildCard
  files : (name command : Text) (key : ℕ) → WildCard
  button : (key : ℕ) → WildCard

-- A node of the operation tree: its text, and what its `getValFunc` answers if it has one.
pub record OpNode : Type 0 where
  pub text : Text
  pub get_val : Option Text

pub record CliCmd : Type 0 where
  pub segment_id : Option Text
  pub seg_pause : Bool
  pub node : Option (List OpNode)
  pub has_cb : Bool
  pub wild_card : WildCard
  pub waits : Bool
  pub outputs : ℕ → Option Text
  pub buttons : ℕ → Button

abbrev pub update {ℓ} : {A : Type ℓ} → (ℕ → A) → ℕ → A → ℕ → A
update f k v j = if j == k then v else f j

abbrev pub segment_end : Text
segment_end = codes "segment_end"

-- The buttons as `f_resetOperButton` leaves them.
abbrev pub idle_button : Button
idle_button = record { text = run; style = stop_css; pause_text = pause; pause_visible = false }
