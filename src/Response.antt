-- ===== src/Response.antt =====
-- The reading of a server response: `f_isResponseOK` and `f_parseServerCallback` of
-- src/client/Vyatta/utils/vyatta-cli-command.js. `Ext.DomQuery` is not part of the program: a reply
-- holds what its queries answer. An exception of the browser is `none`.
pub mod Status
pub mod Verdict
pub mod Prefix
use vyatta_webgui.Base.{
  ℕ, zero, suc, ◌+◌, Bool, true, false, not, ◌&&◌, ◌||◌, if◌then◌else◌, ltb, leb, ◌==◌, Option,
  none, some, List, [], ◌∷◌, ◌++◌, length, drop, take, is_some,
}
use vyatta_webgui.Text.{Text, codes, text_eq}
use vyatta_webgui.Replace.{replace}
use vyatta_webgui.CommitErrors.{parse_commit_errors}
use vyatta_webgui.Login.{
  Effect, error_message, info_message, auto_login, session_timeout, user_logout, Session,
  is_logined, is_auto_login, is_user_logined,
}

-- The response object of the request: whether it has an XML document, and its HTTP status.
pub record HttpResponse : Type 0 where
  pub has_xml : Bool
  pub status : ℕ

abbrev try_again : Text
try_again = codes "Please refresh GUI and try again later."

-- The answer no, with a message for the user.
pub refuse : List Effect → Text → Text → Bool × List Effect
refuse started title text = (false, started ++ (error_message title text ∷ []))

unfoldable pub is_response_ok : Session → HttpResponse → Bool × List Effect
is_response_ok s r =
    let (logined, started) = is_logined s in
    if not logined
    then (true, started)
    else if not r.has_xml || r.status == 408
    then refuse started (codes "Request timeout!")
        (codes "Request to the service failed in the time allowed by the server. " ++ try_again)
    else if r.status == 500
    then refuse started (codes "Internal Server Error!")
        (codes "Server had a problem either getting data or parsing the results. " ++ try_again)
    else if r.status == 503
    then refuse started (codes "Service Unavailable!") (
        codes "Web service had a temporary overload and count not process the request. "
        ++ try_again)
    else if r.status == 200
    then (true, started)
    else refuse started (codes "Service Unavailable!") (codes "Unkown error. " ++ try_again)

-- What the queries answer under the element `error`; `code` and `msg` are `UNKNOWN` where they are
-- missing. `segment` is `none` where there is no element `msg`.
pub record ErrorNode : Type 0 where
  pub code : Text
  pub msg : Text
  pub segment : Option (Option Text)

pub record Reply : Type 0 where
  pub error : Option ErrorNode
  pub text_content : Option Text

pub record Browser : Type 0 where
  pub is_ie : Bool
  pub is_gecko3 : Bool
  pub session : Session

pub data TreeMode : Type 0 where
  config oper : TreeMode

-- `[ success, msg, segment ]`, the buffer of commit errors after the call, and what was shown.
pub record Parsed : Type 0 where
  pub success : Bool
  pub msg : Text
  pub segment : Option Text
  pub commit_errs : Option (List (List Text))
  pub effects : List Effect

-- The loop that looks for the first five characters of the message in the text content.
pub find_start : ℕ → ℕ → Text → Text → Text → ℕ
find_start zero i whole f5 s5 = 0
find_start (suc fuel) i whole f5 s5 =
    let later = find_start fuel (i + 1) whole f5 (take 5 (drop (i + 1) whole)) in
    if text_eq f5 s5 then i else (if ltb 5 (i + 1) then 0 else later)

-- Firefox 3 cuts a node's value: a long message is read from the text content instead. The loop
-- ends within six rounds.
unfoldable pub whole_message : Browser → Reply → Text → Text
unfolding find_start
whole_message b reply msg = elim reply.text_content [
  | none ↦ msg
  | some whole ↦
      if b.is_gecko3 && leb 3096 (length msg)
      then drop (find_start 7 0 whole (take 5 msg) (take 5 whole)) whole
      else msg
]

abbrev pub line_break : Text
line_break = 13 ∷ 10 ∷ []

abbrev without_unknown : Text → Text
without_unknown msg = if text_eq msg (codes "UNKNOWN") then [] else msg

unfoldable pub warn : TreeMode → Text → List Effect
warn config msg = if ltb 7 (length msg) then info_message (codes "Warning") msg ∷ [] else []
warn oper msg = []

-- The session is over: log in again, or tell the user and leave.
unfoldable pub expire : Session → List Effect
expire s =
    if is_auto_login s
    then auto_login ∷ []
    else if is_user_logined s.login_cookie
    then session_timeout ∷ user_logout ∷ []
    else []

-- The cases of `switch(code)`; `other` is "6" and the default.
pub data Code : Type 0 where
  okay expired level required other : Code

unfoldable pub code_of : Text → Code
code_of code =
    if text_eq code (codes "0")
    then okay
    else if text_eq code (codes "3")
    then expired
    else if text_eq code (codes "4")
    then level
    else if text_eq code (codes "9")
    then required
    else other

-- What a case does with the message that was read. A call of `f_replace` that does not return is
-- `none`.
unfoldable pub judge :
    Browser → TreeMode → Code → Text → Option Text → Option (List (List Text)) → Option Parsed
judge b mode okay msg segment errs = some (record {
  success = true;
  msg = without_unknown msg;
  segment = segment;
  commit_errs = errs;
  effects = warn mode msg;
})
judge b mode expired msg segment errs = some (record {
  success = true;
  msg = without_unknown msg;
  segment = segment;
  commit_errs = errs;
  effects = expire b.session;
})
judge b mode level msg segment errs = some (record {
  success = true;
  msg = codes "operator permission";
  segment = segment;
  commit_errs = errs;
  effects = [];
})
judge b mode required msg segment errs = some (record {
  success = false;
  msg = codes "Additional configuration information is required:" ++ (line_break ++ msg);
  segment = segment;
  commit_errs = some (parse_commit_errors b.is_ie msg);
  effects = [];
})
judge b mode other msg segment errs = elim (replace msg line_break (codes "<br>")) [
  | none ↦ none
  | some shown ↦ some (record {
    success = false;
    msg = without_unknown shown;
    segment = segment;
    commit_errs = some (parse_commit_errors b.is_ie msg);
    effects = [];
  })
]

unfoldable pub parse_server_callback :
    Browser → TreeMode → Reply → Option (List (List Text)) → Option Parsed
parse_server_callback b mode reply errs = elim reply.error [
  | none ↦
      some (record { success = true; msg = []; segment = none; commit_errs = errs; effects = [] })
  | some err ↦ elim err.segment [
    | none ↦ none
    | some segment ↦ judge b mode (code_of err.code) (whole_message b reply err.msg) segment errs
  ]
]
