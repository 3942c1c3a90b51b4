-- ===== src/Loader.antt =====
-- What the tree's loader makes of a reply of the server: the nodes that the operation tree leaves
-- out, and the text of a node that the toolkit evaluates (`processResponse`, `f_jsonGenNode` and
-- `f_replaceChar` of src/client/Vyatta/js/vyatta-tree.js).
pub mod Keeping
pub mod Request
pub mod Help
use vyatta_webgui.Base.{
  ℕ, zero, suc, ◌+◌, ◌-◌, ◌*◌, ◌≤◌, ◌<◌, ◌≡◌, refl, sym, ap, ◌∙◌, ◌≢◌, ◌↔◌, ◌⊎◌, inl, inr, Bool,
  true, false, not, ◌&&◌, ◌||◌, Option, none, some, List, [], ◌∷◌, ◌++◌, map, append_assoc,
  append-nil, arith, ltb, leb, ◌==◌, if◌then◌else◌, Bool-cases, Option-cases, is_some, length,
  get_elem?, drop, take, any, all, All, All-append, length-append, ==_iff, ==_refl, lt→ltb, ltb→lt,
}
use vyatta_webgui.Text.Chars.{subst_char}
use vyatta_webgui.Text.{
  strip_prefix, Text, codes, text_eq, count, contains, index_of, replace_first, split,
}
use vyatta_webgui.Text.Equality.{text_eq_iff, text_eq_refl}

-- A node of the reply: its attribute `name` and its text content, if the browser gives one.
pub record XmlNode : Type 0 where
  pub name : Text
  pub text_content : Text

abbrev pub one_of : Text → List Text → Bool
one_of t names = any (λ n. text_eq t n) names

-- The nodes of `processResponse` that are left out in the operation tree.
unfoldable pub is_skipped : Bool → XmlNode → Bool
is_skipped operator n =
    let has = λ (p : Text). contains p n.text_content in
    if one_of n.name
      (codes "configure" ∷ (codes "telnet" ∷ (codes "terminal" ∷ (codes "install-system" ∷ []))))
    then true
    else if has (codes "Update webproxy") || has (codes "Visually identify the specified ethernet")
    then true
    else if operator && has (codes "Reboot the system")
    then true
    else if has (codes "Clear screen")
    then true
    else if text_eq n.name (codes "at") && (has (codes "Reboot at") || has (codes "Shutdown at"))
    then true
    else if text_eq n.name (codes "set") && has (codes "Set system or")
    then true
    else text_eq n.name (codes "https")

-- The two trees, `V_TREE_ID_config` and `V_TREE_ID_oper`.
pub data LoadMode : Type 0 where
  config oper : LoadMode

-- The nodes that are passed on.
unfoldable pub kept_nodes : LoadMode → Bool → List XmlNode → List XmlNode
kept_nodes config operator nodes = nodes
kept_nodes oper operator [] = []
kept_nodes oper operator (n ∷ nodes) =
    let rest = kept_nodes oper operator nodes in if is_skipped operator n then rest else n ∷ rest

-- The result: the tab of the operation tree where the user has no right to configure, or the text
-- that the toolkit's loader takes.
pub data Loaded : Type 0 where
  to_operation : Loaded
  nodes : List XmlNode → Loaded

unfoldable pub process_response : LoadMode → Bool → Text → List XmlNode → Loaded
process_response mode operator msg xml =
    if text_eq msg (codes "operator permission")
    then to_operation
    else nodes (kept_nodes mode operator xml)

-- A value of a terminal node with its `configured`, where it has one.
pub record TermValue : Type 0 where
  pub name : Text
  pub configured : Option Text

-- What `f_jsonGenNode` selects in a node.
pub record NodeXml : Type 0 where
  pub terminal : Option (List TermValue)
  pub configured : Option Text
  pub action : Bool
  pub mandatory : Bool
  pub type : Option Text
  pub multi : Bool
  pub help : Option Text
  pub comp_help : Option Text
  pub default : Option Text
  pub enums : Option (List Text)

abbrev pub is_set_value : TermValue → Bool
is_set_value v = elim v.configured [
  | none ↦ false
  | some c ↦ one_of c (codes "active" ∷ (codes "active_plus" ∷ (codes "set" ∷ [])))
]

-- The values that are set, and the `configured` of the last of them.
unfoldable pub set_values : List TermValue → Option Text → List Text × Option Text
set_values [] last = ([], last)
set_values (v ∷ vals) last =
    let next = set_values vals v.configured in
    let same = set_values vals last in if is_set_value v then (v.name ∷ next.0, next.1) else same

-- The list between brackets, each element in quotes.
abbrev pub comma_list : List Text → Text
comma_list [] = []
comma_list (v ∷ []) = codes "'" ++ (v ++ codes "'")
comma_list (v ∷ (w ∷ vs)) = codes "'" ++ (v ++ (codes "'," ++ comma_list (w ∷ vs)))

-- A field `,name:'value'`.
abbrev pub string_field : Text → Option Text → Text
string_field name none = []
string_field name (some v) = codes "," ++ (name ++ (codes ":'" ++ (v ++ codes "'")))

abbrev pub or_else : Option Text → Option Text → Option Text
or_else (some a) b = some a
or_else none b = b

-- `f_replaceChar`
unfoldable pub replace_char_of : Text → Text
replace_char_of m =
    if text_eq m (codes "&apos;") || text_eq m (codes "'")
    then codes "\""
    else if text_eq m (codes "&lt;") || text_eq m (codes "<")
    then codes "("
    else if text_eq m (codes "&#62;") || (text_eq m (codes "&gt;") || text_eq m (codes ">"))
    then codes ")"
    else if text_eq m (codes "&#xD;")
    then codes "."
    else if text_eq m (codes "&#xA;")
    then codes " "
    else if text_eq m (codes "\n")
    then []
    else if text_eq m (codes "   ")
    then codes " -"
    else []

-- The matches of the pattern for the help of completion, in the order of its alternatives.
abbrev pub help_tokens : List Text
help_tokens =
    codes "   "
    ∷ (codes "\t"
        ∷ (codes "\n"
            ∷ (codes "'"
                ∷ (codes "<"
                    ∷ (codes ">"
                        ∷ (codes "&lt;"
                            ∷ (codes "&gt;"
                                ∷ (codes "&apos;"
                                    ∷ (codes "&#xD;"
                                        ∷ (codes "&#xA;" ∷ (codes "&#62;" ∷ [])))))))))))

-- The first alternative that a text begins with.
unfoldable pub token_at : List Text → Text → Option Text
token_at [] s = none
token_at (t ∷ tokens) s =
    let later = token_at tokens s in if is_some (strip_prefix t s) then some t else later

-- `cHelp.replace` from left to right; `k` characters of a match are still to be skipped.
unfoldable pub clean_help : ℕ → Text → Text
clean_help k [] = []
clean_help (suc k) (c ∷ s) = clean_help k s
clean_help zero (c ∷ s) =
    let kept = c ∷ clean_help zero s in
    elim (token_at help_tokens (c ∷ s)) [
      | none ↦ kept
      | some t ↦ replace_char_of t ++ clean_help (length t - 1) s
    ]

unfoldable pub help_text : Text → Option Text → Text
help_text help comp_help =
    let quoted = subst_char 39 (codes "\\'") help in
    elim comp_help [ none ↦ quoted | some c ↦ quoted ++ (codes ". " ++ clean_help 0 c) ]

-- `f_jsonGenNode`
unfoldable pub json_gen_node : Text → NodeXml → Text
json_gen_node name n =
    let text = if text_eq name (codes "node.tag") then codes "&lt;value&gt;" else name in
    let found : List Text × Option Text = elim n.terminal [
      | none ↦ ([], none)
      | some vals ↦ set_values vals none
    ] in
    let values : Text = elim n.terminal [
      | none ↦ []
      | some [] ↦ codes ",leaf:true"
      | some (v ∷ vals) ↦ codes ",leaf:true,values:[ " ++ (comma_list found.0 ++ codes " ]")
    ] in
    let configured = or_else n.configured found.1 in
    let help : Option Text = elim n.help [
      | none ↦ none
      | some h ↦ some (help_text h n.comp_help)
    ] in
    let default : Option Text = elim n.default [
      | none ↦ none
      | some d ↦ some (if contains (codes "\n") d then [] else d)
    ] in
    let enums : Text = elim n.enums [
      | none ↦ []
      | some es ↦ codes ",enums:[ " ++ (comma_list es ++ codes " ]")
    ] in
    codes "{text:'"
    ++ (text
        ++ (codes "',uiProvider:'node'"
            ++ (values
                ++ (string_field (codes "configured") configured
                    ++ (string_field (codes "configured_") configured
                        ++ ((if n.action then codes ",action:'true'" else [])
                            ++ ((if n.mandatory then codes ",mandatory:'true'" else [])
                                ++ (string_field (codes "type") n.type
                                    ++ ((if n.multi then codes ",multi:true" else [])
                                        ++ (string_field (codes "help") help
                                            ++ (string_field (codes "defaultVal") default
                                                ++ (enums ++ codes "}"))))))))))))
