-- ===== src/Segment/Building.antt =====
-- The command that is built from a node of the operation tree.
use vyatta_webgui.Base.{
  ◌≡◌, refl, ap, ◌∙◌, true, false, none, some, List, [], ◌∷◌, ◌++◌, map, append_assoc, append-nil,
  arith, if◌then◌else◌, All,
}
use vyatta_webgui.Text.{Text, codes, text_eq}
use vyatta_webgui.Text.Equality.{text_eq_iff}
use mathlib.Core.List.{reverse, reverse-cons, map-append}
use vyatta_webgui.Segment.{OpNode}
use vyatta_webgui.Segment.Command.{walk, words, refused, is_empty_value, value_text, or_empty}

-- The word that a node adds to the command.
abbrev pub word : OpNode → Text
word n =
    if text_eq n.text value_text
    then elim n.get_val [ some val ↦ val | none ↦ codes "<Value>" ]
    else n.text

-- The node is below the root, and its value, if it has one to fill in, is filled in.
pub record IsFilled (n : OpNode) : Type 0 where
  pub below : text_eq n.text (codes "Operation") ≡ false
  pub filled : text_eq n.text value_text ≡ true → is_empty_value (or_empty n.get_val) ≡ false

-- The node is one for a value, and its field was left empty.
pub record IsBlank (n : OpNode) : Type 0 where
  pub below : text_eq n.text (codes "Operation") ≡ false
  pub value : text_eq n.text value_text ≡ true
  pub val : Text
  pub entered : n.get_val ≡ some val
  pub blank : is_empty_value val ≡ true

walk_one :
    (n : OpNode) (narr : List Text) (above : List OpNode)
    → IsFilled n
    → walk true narr (n ∷ above) ≡ walk true (word n ∷ narr) above
unfolding walk
walk_one n narr above f = ground (arith, f.filled, f.below)

walk-All :
    (ns : List OpNode) (narr : List Text) (above : List OpNode)
    → All IsFilled ns
    → walk true narr (ns ++ above) ≡ walk true (map word (reverse ns) ++ narr) above
walk-All [] narr above h = refl
walk-All (n ∷ ns) narr above (f, h) =
    walk_one n narr (ns ++ above) f
    ∙ walk-All ns (word n ∷ narr) above h
    ∙ ap (λ (ws : List Text). walk true ws above) (simp (reverse-cons, map-append, append_assoc))

-- When a command is run, from nodes below the root whose values are filled in, its words are
-- those of the nodes from the root's child down to the node.
pub walk_filled :
    (ns : List OpNode) (root : OpNode) (above : List OpNode)
    → All IsFilled ns
    → root.text ≡ codes "Operation"
    → walk true [] (ns ++ (root ∷ above)) ≡ words (map word (reverse ns))
walk_filled ns root above h e =
    walk-All ns [] (root ∷ above) h
    ∙ at_root (map word (reverse ns) ++ [])
    ∙ ap words (append-nil _)
  where
    at_root : (narr : List Text) → walk true narr (root ∷ above) ≡ words narr
    at_root narr = unfold walk in rw ((text_eq_iff root.text (codes "Operation")).1 e)

-- A field that was left empty, above nodes whose values are filled in, ends the call with a
-- message, whatever stands above it.
pub walk_blank :
    (ns : List OpNode) (n : OpNode) (above : List OpNode)
    → All IsFilled ns
    → IsBlank n
    → walk true [] (ns ++ (n ∷ above)) ≡ refused true
walk_blank ns n above h b = walk-All ns [] (n ∷ above) h ∙ at_blank (map word (reverse ns) ++ [])
  where
    at_blank : (narr : List Text) → walk true narr (n ∷ above) ≡ refused true
    at_blank narr = unfold walk in ground arith
