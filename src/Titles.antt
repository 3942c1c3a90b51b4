-- ===== src/Titles.antt =====
-- The title of the editor of a node: `f_createConfEditorTitle` of
-- src/client/Vyatta/js/vyatta-panels.js. It names the nodes on the way to the node, with an arrow
-- between two of them.
use vyatta_webgui.Base.{
  ◌≡◌, refl, ap, ◌∙◌, Bool, true, false, Option, none, some, List, [], ◌∷◌, ◌++◌, if◌then◌else◌,
  Bool-cases, inl, inr,
}
use vyatta_webgui.Text.{Text, codes, text_eq}
use vyatta_webgui.Text.Split.{join}

-- The arrow between two names, in Internet Explorer and in another browser.
unfoldable arrow : Bool → Text
arrow true = codes "&nbsp;&rarr;&nbsp;"
arrow false = codes "&nbsp;&rArr;&nbsp;"

abbrev is_root : Text → Bool
is_root text = text_eq text (codes "Configuration")

-- The loop over the texts from the node up to the root, with the mark to put behind the next name.
unfoldable title_loop : Bool → List Text → Text → Text → Text
title_loop is_ie [] mark title = title
title_loop is_ie (text ∷ up) mark title = elim (is_root text) [
  | true ↦ title_loop is_ie up mark title
  | false ↦ title_loop is_ie up (arrow is_ie) (text ++ (mark ++ title))
]

-- The name of the title: `none` where there is no node.
unfoldable conf_editor_title_name : Bool → Option (List Text) → Text
conf_editor_title_name is_ie none = []
conf_editor_title_name is_ie (some texts) = title_loop is_ie texts (codes " ") []

-- A title with its text, which is kept as `m_title`, and its HTML.
record Title : Type 0 where
  html : Text
  m_title : Text

abbrev titled : Text → Title
titled name = record {
  html = codes "<div valian=\"center\" id=\"v-header-font\"><b>" ++ (name ++ codes "</b></div>");
  m_title = name;
}

unfoldable conf_editor_title : Bool → Option (List Text) → Title
conf_editor_title is_ie texts = titled (conf_editor_title_name is_ie texts)

-- The names on the way, the outermost first, from the texts from the node up.
unfoldable way : List Text → List Text → List Text
way [] names = names
way (text ∷ up) names = if is_root text then way up names else way up (text ∷ names)

title_loop-root :
    (is_ie : Bool) (text : Text) (up : List Text) (mark title : Text)
    → is_root text ≡ true
    → title_loop is_ie (text ∷ up) mark title ≡ title_loop is_ie up mark title
unfolding title_loop
title_loop-root is_ie text up mark title e = rw (e, title_loop)

title_loop-name :
    (is_ie : Bool) (text : Text) (up : List Text) (mark title : Text)
    → is_root text ≡ false
    → title_loop is_ie (text ∷ up) mark title
      ≡ title_loop is_ie up (arrow is_ie) (text ++ (mark ++ title))
unfolding title_loop
title_loop-name is_ie text up mark title e = rw (e, title_loop)

-- Above a node, the loop joins the names with the arrow.
title_loop-join :
    (is_ie : Bool) (up : List Text) (name : Text) (names : List Text)
    → title_loop is_ie up (arrow is_ie) (join (arrow is_ie) (name ∷ names))
      ≡ join (arrow is_ie) (way up (name ∷ names))
unfolding title_loop join way
title_loop-join is_ie [] name names = refl
title_loop-join is_ie (text ∷ up) name names = elim (Bool-cases (is_root text)) [
  | inl e ↦
      title_loop-root is_ie text up (arrow is_ie) (join (arrow is_ie) (name ∷ names)) e
      ∙ title_loop-join is_ie up name names
      ∙ rw (e, way)
  | inr e ↦
      title_loop-name is_ie text up (arrow is_ie) (join (arrow is_ie) (name ∷ names)) e
      ∙ title_loop-join is_ie up text (name ∷ names)
      ∙ rw (e, way)
]

-- The title of a node below the root holds the names on the way to it, the outermost first, with
-- an arrow between two of them and a space at the end: the name of the root is left out.
conf_editor_title-join :
    (is_ie : Bool) (text : Text) (up : List Text)
    → is_root text ≡ false
    → conf_editor_title is_ie (some (text ∷ up))
      ≡ titled (join (arrow is_ie) (way up ((text ++ codes " ") ∷ [])))
unfolding conf_editor_title conf_editor_title_name join
conf_editor_title-join is_ie text up e = ap titled (
    title_loop-name is_ie text up (codes " ") [] e
    ∙ title_loop-join is_ie up (text ++ codes " ") [])
