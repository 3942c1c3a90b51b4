-- ===== src/Tree.antt =====
-- The nodes of the configuration tree and their marks: src/client/Vyatta/js/vyatta-tree.js,
-- `f_getNodeIndicatorFlag` of src/client/Vyatta/utils/vyatta-utils.js and `f_handlePropagateParentNodes`
-- of src/client/Vyatta/utils/vyatta-cli-command.js. A node stands with its ancestors as a list, the node
-- first and the child of the root last or the root last, as the loop over `parentNode` meets them.
pub mod Flags
pub mod Propagation
use vyatta_webgui.Base.{
  ℕ, Bool, true, false, not, ◌&&◌, ◌==◌, if◌then◌else◌, Option, none, some, List, [], ◌∷◌, is_some,
}
use vyatta_webgui.Text.{Text, codes, text_eq, contains, replace_first}
use vyatta_webgui.CommitErrors.{is_commit_error}

-- The attribute `configured`, where it is defined.
pub data Configured : Type 0 where
  active active_plus set delete add : Configured
  other : Text → Configured

-- `configured_before` is the attribute `configured_`, the state that the server sent.
pub record Attributes : Type 0 where
  pub configured : Option Configured
  pub configured_before : Option Configured
  pub multi : Bool
  pub type : Option Text
  pub enums : Option (List Text)
  pub values : Option (List Text)
  pub default_val : Option Text

-- `html` is the markup of the node's element, `none` while the node is not rendered.
pub record Node : Type 0 where
  pub text : Text
  pub attributes : Attributes
  pub html : Option Text

-- The marks: `V_DIRTY_FLAG`, `V_DIRTY_FLAG_ADD`, `V_DIRTY_FLAG_DEL`, `V_ERROR_FLAG`, `V_EMPTY_FLAG`.
pub data Flag : Type 0 where
  dirty dirty_add dirty_del error empty : Flag

-- The image of a mark.
abbrev pub image : Flag → Text
image dirty = codes "images/statusUnknown.gif"
image dirty_add = codes "images/statusPlus.gif"
image dirty_del = codes "images/statusMinus.gif"
image error = codes "images/statusDown.gif"
image empty = codes "images/empty.gif"

abbrev pub dirty_flag : Text
dirty_flag = codes "<img title=\"node has been modified\" src=\"images/statusUnknown.gif\" />"

-- Whether the node was in the running configuration when it was loaded.
abbrev pub was_active : Option Configured → Bool
was_active (some active) = true
was_active (some active_plus) = true
was_active _ = false

abbrev pub was_active_plus : Option Configured → Bool
was_active_plus (some active_plus) = true
was_active_plus _ = false

-- `f_getNodeIndicatorFlag`, by the value of `configured`.
unfoldable pub flag_of : Option Configured → Option Configured → Option Text → Bool → Flag
flag_of none before default is_set = if is_set then dirty_add else empty
flag_of (some set) before default is_set = if was_active before then dirty else dirty_add
flag_of (some delete) before default is_set = dirty_del
flag_of (some active_plus) before default is_set = dirty
flag_of (some active) before default is_set = if was_active_plus before then dirty else empty
flag_of (some add) before default is_set = if is_some default then dirty else empty
flag_of (some (other s)) before default is_set = if is_some default then dirty else empty

unfoldable pub get_node_indicator_flag : Option Attributes → Bool → Flag
unfolding flag_of
get_node_indicator_flag none is_set = empty
get_node_indicator_flag (some a) is_set =
    flag_of a.configured a.configured_before a.default_val is_set

-- `getNodeStyleImage` of a node with its parent's text and its number of children; the empty string
-- is `none`.
unfoldable pub get_node_style_image :
    Option (List (List Text)) → Node → Option Text → ℕ → Bool → Option Flag
get_node_style_image errs n parent children for_tree =
    let rest =
      if n.attributes.multi && not for_tree
      then (if children == 0
          then some (get_node_indicator_flag (some n.attributes) false)
          else none)
      else some (get_node_indicator_flag (some n.attributes) false) in
    if is_commit_error errs n.text parent
    then if n.attributes.multi && not for_tree
      then (if children == 0 then some error else rest)
      else some error
    else rest

-- `f_setFlag`: the first of the images that stands in the markup is exchanged.
unfoldable pub set_flag : Text → List Text → Text → Text
set_flag str [] to = str
set_flag str (from ∷ more) to =
    if contains from str then replace_first from to str else set_flag str more to

abbrev pub all_images : List Text
all_images = image error ∷ image dirty ∷ image dirty_del ∷ image dirty_add ∷ image empty ∷ []

-- `f_setNodeFlag`, on the markup.
unfoldable pub mark_html : Text → Text → Text
unfolding set_flag
mark_html inner flag =
    replace_first (codes "=\"v-node-nocfg\"") (codes "=\"v-node-set\"")
      (set_flag inner all_images flag)

unfoldable pub set_node_flag : Node → Text → Node
unfolding mark_html
set_node_flag n flag = elim n.html [
  | none ↦ n
  | some inner ↦ record n { html = some (mark_html inner flag) }
]

-- The image that `f_handlePropagateParentNodes` chooses for a mark.
abbrev pub image_of : Option Flag → Text
image_of none = image empty
image_of (some f) = image f

-- One round: the element is marked again unless it shows the mark of a modified node.
unfoldable pub paint : Option (List (List Text)) → Option Text → Node → Node
unfolding set_node_flag
paint errs parent n = elim n.html [
  | none ↦ n
  | some inner ↦
      if contains dirty_flag inner
      then n
      else set_node_flag n (image_of (get_node_style_image errs n parent 0 true))
]

abbrev pub with_configured : Node → Option Configured → Node
with_configured n c = record n { attributes = record (n.attributes) { configured = c } }

-- What a round does to the parent of its node.
abbrev pub touch_configured : Option Configured → Option Configured
touch_configured none = some set
touch_configured (some active) = some active_plus
touch_configured (some c) = some c

abbrev pub touch : Node → Node
touch n = with_configured n (touch_configured n.attributes.configured)

abbrev pub parent_text : List Node → Option Text
parent_text [] = none
parent_text (p ∷ ps) = some p.text

-- The rounds above the first one, where the node was touched as a parent.
propagate_above : Option (List (List Text)) → List Node → List Node
unfolding paint
propagate_above errs [] = []
propagate_above errs (n ∷ above) =
    with_configured (paint errs (parent_text above) (touch n)) (some set)
    ∷ propagate_above errs above

unfoldable pub handle_propagate_parent_nodes : Option (List (List Text)) → List Node → List Node
unfolding propagate_above
handle_propagate_parent_nodes errs [] = []
handle_propagate_parent_nodes errs (n ∷ above) =
    with_configured (paint errs (parent_text above) n) (some set) ∷ propagate_above errs above
