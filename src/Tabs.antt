-- ===== src/Tabs.antt =====
-- The tabs of the page and the user's level, which disables the configuration tab:
-- src/client/Vyatta/js/vyatta-main.js.
pub mod Access
use vyatta_webgui.Base.{
  ℕ, zero, suc, ◌+◌, ◌-◌, ◌*◌, ◌≤◌, ◌<◌, ◌≡◌, refl, sym, ap, ◌∙◌, ◌≢◌, ◌↔◌, ◌⊎◌, inl, inr, Bool,
  true, false, not, ◌&&◌, ◌||◌, Option, none, some, List, [], ◌∷◌, ◌++◌, map, append_assoc,
  append-nil, arith, ltb, leb, ◌==◌, if◌then◌else◌, Bool-cases, Option-cases, is_some, length,
  get_elem?, drop, take, any, all, All, All-append, length-append, ==_iff, ==_refl, lt→ltb, ltb→lt,
}
use vyatta_webgui.Text.{Text, codes, text_eq, count, contains, index_of, replace_first, split}
use vyatta_webgui.Text.Equality.{text_eq_iff, text_eq_refl}

-- `m_tabNames`, with `m_iConf` and `m_iOper`.
abbrev pub conf_name : Text
conf_name = codes "configuration"

abbrev pub oper_name : Text
oper_name = codes "operation"

abbrev pub tab_names : List Text
tab_names = conf_name ∷ (oper_name ∷ [])

abbrev pub i_conf : ℕ
i_conf = 0

abbrev pub i_oper : ℕ
i_oper = 1

-- `DATA_baseSystem`; of each tab's object only whether it was made.
pub record BaseSystem : Type 0 where
  pub hostname : Option Text
  pub sel_tab_index : ℕ
  pub user_level : ℕ
  pub disable_tabs : List ℕ
  pub tab_objects : ℕ → Bool

abbrev pub base_system : BaseSystem
base_system = record {
  hostname = none;
  sel_tab_index = i_conf;
  user_level = 1;
  disable_tabs = [];
  tab_objects = λ i. false;
}

-- The loop of `f_getTabIndex` from the index `i` on.
abbrev pub tab_index_from : ℕ → List Text → Text → ℕ
tab_index_from i [] tab_name = 0
tab_index_from i (n ∷ names) tab_name =
    let later = tab_index_from (suc i) names tab_name in if text_eq tab_name n then i else later

unfoldable pub get_tab_index : Text → ℕ
get_tab_index tab_name = tab_index_from 0 tab_names tab_name

unfoldable pub is_login_operator : BaseSystem → Bool
is_login_operator s = s.user_level == 0

unfoldable pub is_disabled : BaseSystem → ℕ → Bool
is_disabled s i = any (λ j. i == j) s.disable_tabs

-- What a change of the tab shows, in order.
pub data TabAct : Type 0 where
  ask_host_name : TabAct
  hide_panel : ℕ → TabAct
  show_header : Text → TabAct
  make_panels : ℕ → TabAct
  show_panel : ℕ → TabAct
  resize : ℕ → TabAct
  access_error : TabAct

abbrev pub joined : List Text → Text
joined [] = []
joined (t ∷ ts) = t ++ joined ts

-- The image of a tab that is not disabled.
abbrev pub tab_img : BaseSystem → Text → Text
tab_img s tab_name =
    if get_tab_index tab_name == s.sel_tab_index
    then joined (codes "tab-" ∷ (tab_name ∷ (codes "-active.gif" ∷ [])))
    else joined (codes "tab-" ∷ (tab_name ∷ (codes "-available.gif" ∷ [])))

abbrev pub enabled_tab : BaseSystem → Text → Text
enabled_tab s tab_name = joined (
    codes "<td><a href=\"#\" onClick=\"f_handleTabClick('"
    ∷ (tab_name
        ∷ (codes "')\"><img class=\"v_tab_image\" src='images/"
            ∷ (tab_img s tab_name
                ∷ (codes "' id='v-tab-"
                    ∷ (tab_name
                        ∷ (codes "' onmouseover=\"f_handleTabOnMouseAction('"
                            ∷ (tab_name
                                ∷ (codes "', 'over')\" onmouseout=\"f_handleTabOnMouseAction('"
                                    ∷ (tab_name
                                        ∷ (codes "', 'available')\"/></a></td>" ∷ [])))))))))))

-- The markup of a disabled tab; the loop appends `-disabled` once for each entry of the list.
abbrev pub disabled_ids : ℕ → List ℕ → Text
disabled_ids i [] = []
disabled_ids i (j ∷ js) =
    let later = disabled_ids i js in if i == j then codes "-disabled" ++ later else later

abbrev pub disabled_tab : BaseSystem → Text → Text
disabled_tab s tab_name = joined (
    codes "<td><a href=\"#\" onClick=\"f_handleTabClick('"
    ∷ (tab_name
        ∷ (codes "')\"><img class=\"v_tab_image\" src='images/tab-"
            ∷ (tab_name
                ∷ (codes "-disabled.gif' id='v-tab-"
                    ∷ (tab_name
                        ∷ (disabled_ids (get_tab_index tab_name) s.disable_tabs
                            ∷ (codes "'/></a></td>" ∷ []))))))))

unfoldable pub create_tab_html : BaseSystem → Text → Text
create_tab_html s tab_name =
    if is_disabled s (get_tab_index tab_name)
    then disabled_tab s tab_name
    else enabled_tab s tab_name

unfoldable pub create_tabs_html : BaseSystem → Text
create_tabs_html s =
    codes "<table id=\"v_tab_table\" valign=\"bottom\"><tr>"
    ++ (joined (map (create_tab_html s) tab_names) ++ codes "</tr></table>")

unfoldable pub hide_tab : BaseSystem → ℕ → List TabAct
hide_tab s tab_index = if s.tab_objects tab_index then hide_panel tab_index ∷ [] else []

-- `f_showTab`; in Internet Explorer a tab's panels are always made anew.
unfoldable pub show_tab : Bool → BaseSystem → ℕ → BaseSystem × List TabAct
show_tab is_ie s tab_index =
    let asks : List TabAct = elim s.hostname [ none ↦ ask_host_name ∷ [] | some h ↦ [] ] in
    let s1 = record s { sel_tab_index = tab_index } in
    let begins = asks ++ (hide_tab s s.sel_tab_index ++ (show_header (create_tabs_html s1) ∷ [])) in
    if not (s.tab_objects tab_index) || is_ie
    then (
      record s1 { tab_objects = λ i. if i == tab_index then true else s.tab_objects i },
      begins ++ (make_panels tab_index ∷ (resize tab_index ∷ [])),
    )
    else (s1, begins ++ (show_panel tab_index ∷ (resize tab_index ∷ [])))

unfoldable pub handle_tab_click : Bool → BaseSystem → Text → BaseSystem × List TabAct
handle_tab_click is_ie s tab_name =
    if is_disabled s (get_tab_index tab_name)
    then (s, access_error ∷ [])
    else show_tab is_ie s (get_tab_index tab_name)

unfoldable pub show_operational_tab : Bool → BaseSystem → BaseSystem × List TabAct
show_operational_tab is_ie s =
    handle_tab_click is_ie (record s { disable_tabs = s.disable_tabs ++ (i_conf ∷ []) }) oper_name

-- The image that the pointer gives a tab; none for the tab that is shown.
unfoldable pub handle_tab_on_mouse_action : BaseSystem → Text → Text → Option Text
handle_tab_on_mouse_action s tab_name action =
    if get_tab_index tab_name == s.sel_tab_index
    then none
    else some
        (joined (codes "images/tab-" ∷ (tab_name ∷ (codes "-" ∷ (action ∷ (codes ".gif" ∷ []))))))

-- Whether a logout asks first: whether the configuration tab has changes to commit, if it was said.
unfoldable pub logout_asks : Option Bool → Bool
logout_asks none = false
logout_asks (some is_commit_available) = is_commit_available
