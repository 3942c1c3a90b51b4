-- ===== src/Tree/Flags.antt =====
-- The marks of a node.
use vyatta_webgui.Base.{
  ℕ, ◌≡◌, refl, ap, ◌≢◌, ◌↔◌, ◌⊎◌, inl, inr, Bool, true, false, Option, none, some, List, [], ◌∷◌,
  ◌++◌, arith, All,
}
use vyatta_webgui.Text.{Text, contains}
use vyatta_webgui.Text.Laws.{search_cases}
use vyatta_webgui.CommitErrors.{is_commit_error}
use vyatta_webgui.CommitErrors.Flagging.{Blamed, is_commit_error_iff}
use vyatta_webgui.Tree.{
  Node, dirty_del, error, Configured, active, active_plus, set, delete, add, other, flag_of,
  get_node_style_image, get_node_indicator_flag, set_flag,
}

flag_of-ne-error :
    (c before : Option Configured) (default : Option Text) (b : Bool)
    → flag_of c before default b ≢ error
unfolding flag_of
flag_of-ne-error none before default b = ground arith
flag_of-ne-error (some set) before default b = ground arith
flag_of-ne-error (some delete) before default b = ground arith
flag_of-ne-error (some active_plus) before default b = ground arith
flag_of-ne-error (some active) before default b = ground arith
flag_of-ne-error (some add) before default b = ground arith
flag_of-ne-error (some (other s)) before default b = ground arith

-- The mark of a deleted node is kept for nodes in state `delete`.
pub flag_of-dirty_del_iff :
    (c before : Option Configured) (default : Option Text) (b : Bool)
    → (flag_of c before default b ≡ dirty_del) ↔ (c ≡ some delete)
unfolding flag_of
flag_of-dirty_del_iff none before default b = ground arith
flag_of-dirty_del_iff (some set) before default b = ground arith
flag_of-dirty_del_iff (some delete) before default b = ground arith
flag_of-dirty_del_iff (some active_plus) before default b = ground arith
flag_of-dirty_del_iff (some active) before default b = ground arith
flag_of-dirty_del_iff (some add) before default b = ground arith
flag_of-dirty_del_iff (some (other s)) before default b = ground arith

style_image_iff :
    (errs : Option (List (List Text))) (n : Node) (parent : Option Text) (children : ℕ)
    (for_tree : Bool)
    → (get_node_style_image errs n parent children for_tree ≡ some error) ↔ (
        (is_commit_error errs n.text parent ≡ true)
        × ((n.attributes.multi ≡ false) ⊎ ((for_tree ≡ true) ⊎ (children ≡ 0))))
unfolding get_node_style_image get_node_indicator_flag
style_image_iff errs n parent children for_tree =
    (λ h. ground (arith, never), λ h. ground (arith, never))
  where
    never :
        flag_of n.attributes.configured n.attributes.configured_before n.attributes.default_val
          false
        ≢ error
    never =
        flag_of-ne-error n.attributes.configured n.attributes.configured_before
          n.attributes.default_val false

-- The mark of an error is that of a node exactly if some entry of the buffer names the node, at one of
-- its first two places or right behind the text of the node's parent, and the node has no several
-- values, or the mark is for the tree, or the node has no children.
pub get_node_style_image-error_iff :
    (errs : List (List Text)) (n : Node) (parent : Option Text) (children : ℕ) (for_tree : Bool)
    → (get_node_style_image (some errs) n parent children for_tree ≡ some error) ↔ (
        Blamed n.text parent errs
        × ((n.attributes.multi ≡ false) ⊎ ((for_tree ≡ true) ⊎ (children ≡ 0))))
get_node_style_image-error_iff errs n parent children for_tree =
    let image = style_image_iff (some errs) n parent children for_tree in
    let scan = is_commit_error_iff n.text parent errs in
    (λ h. (scan.0 (image.0 h).0, (image.0 h).1), λ p. image.1 (scan.1 p.0, p.1))

-- Beside an input field a node with several values has no mark of its own once it has children.
pub get_node_style_image-multi :
    (errs : Option (List (List Text))) (n : Node) (parent : Option Text) (children : ℕ)
    → n.attributes.multi ≡ true
    → (get_node_style_image errs n parent children false ≡ none) ↔ (children ≢ 0)
unfolding get_node_style_image
get_node_style_image-multi errs n parent children h = ground arith

-- Exactly one image is exchanged: the first in the list that the markup shows.
pub record Exchanged (str to result : Text) (from : List Text) : Type 0 where
  pub skipped : List Text
  pub old : Text
  pub more : List Text
  pub order : from ≡ skipped ++ (old ∷ more)
  pub hidden : All (λ f. contains f str ≡ false) skipped
  pub before : Text
  pub after : Text
  pub shown : str ≡ before ++ (old ++ after)
  pub replaced : result ≡ before ++ (to ++ after)

-- An exchange of the image in a markup either finds none of the listed images and changes
-- nothing, or puts the new image in the place of one image, the first of the list that the markup
-- has.
set_flag_cases :
    (str to : Text) (from : List Text)
    → (All (λ f. contains f str ≡ false) from × (set_flag str from to ≡ str))
      ⊎ Exchanged str to (set_flag str from to) from
unfolding set_flag
set_flag_cases str to [] = inl (tt, refl)
set_flag_cases str to (f ∷ from) = elim (search_cases f str) [
  | inl m ↦ elim (set_flag_cases str to from) [
    | inl (none_shown, same) ↦ inl ((m.absent, none_shown), rw m.absent same)
    | inr e ↦ inr (record {
      skipped = f ∷ e.skipped;
      old = e.old;
      more = e.more;
      order = ap (f ∷◌) e.order;
      hidden = (m.absent, e.hidden);
      before = e.before;
      after = e.after;
      shown = e.shown;
      replaced = rw m.absent e.replaced;
    })
  ]
  | inr h ↦ inr (record {
    skipped = [];
    old = f;
    more = from;
    order = refl;
    hidden = tt;
    before = h.before;
    after = h.after;
    shown = h.here;
    replaced = rw h.present (h.there to);
  })
]
