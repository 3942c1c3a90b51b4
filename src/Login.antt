-- ===== src/Login.antt =====
-- Who is logged in: `f_isUserLogined` of src/client/Vyatta/utils/vyatta-utils.js, `f_isLogined` and the
-- start of the page in src/client/Vyatta/js/vyatta-main.js. The cookie `isLogin` is read by
-- `g_cookie.f_get`, whose answer is an argument here; so is whether the page has the element
-- `id_ft_demo`, which makes `f_isAutoLogin` true.
pub mod Cases
use vyatta_webgui.Base.{Bool, true, false, not, ◌||◌, if◌then◌else◌, List, [], ◌∷◌}
use vyatta_webgui.Text.{Text, codes, text_eq}

-- What the handlers show, send or start besides the change of their state.
pub data Effect : Type 0 where
  error_message : (title text : Text) → Effect
  info_message : (title text : Text) → Effect
  auto_login : Effect
  session_timeout : Effect
  user_logout : Effect
  hide_wait : Effect

-- The answers of the browser on which a handler depends.
pub record Session : Type 0 where
  pub login_cookie : Text
  pub has_demo : Bool

abbrev pub not_found : Text
not_found = codes "NOTFOUND"

unfoldable pub is_user_logined : Text → Bool
is_user_logined login =
    if text_eq login not_found || text_eq login (codes "no") || text_eq login (codes "reboot")
    then false
    else true

abbrev pub is_auto_login : Session → Bool
is_auto_login s = s.has_demo

-- The answer, and the login that the call may start.
unfoldable pub is_logined : Session → Bool × List Effect
is_logined s =
    if is_user_logined s.login_cookie
    then (true, [])
    else if is_auto_login s
    then (true, auto_login ∷ [])
    else (if text_eq s.login_cookie (codes "reboot") then true else false, [])

-- What `Ext.onReady` opens once the frame stands.
pub data Start : Type 0 where
  start_auto_login start_login start_rebooting show_configuration : Start

unfoldable pub on_ready : Session → Start
on_ready s =
    if not (is_logined s).0
    then (if is_auto_login s then start_auto_login else start_login)
    else (if text_eq s.login_cookie (codes "reboot") then start_rebooting else show_configuration)
