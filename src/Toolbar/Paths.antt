-- ===== src/Toolbar/Paths.antt =====
-- The command line of a node.
use vyatta_webgui.Base.{ℕ, ◌≡◌, refl, sym, ap, ◌∙◌, ◌≢◌, List, [], ◌∷◌, ◌++◌, append-nil, arith}
use vyatta_webgui.Text.{Text, codes}
use vyatta_webgui.Text.Laws.{strip_prefix-append}
use vyatta_webgui.Text.Split.{join}
use vyatta_webgui.Text.{strip_prefix}
use vyatta_webgui.Toolbar.{get_path, remove_prefix, get_node_path_str}

get_path-cons :
    (name : Text) (names : List Text)
    → get_path (name ∷ names) ≡ codes " " ++ join (codes " ") (name ∷ names)
unfolding get_path join
get_path-cons name [] = rw append-nil
get_path-cons name (n ∷ names) = ap (λ (t : Text). codes " " ++ (name ++ t)) (get_path-cons n names)

remove_prefix-append : (p s : Text) → remove_prefix p (p ++ s) ≡ s
unfolding remove_prefix
remove_prefix-append p s = rw (strip_prefix-append p s, remove_prefix)

operation_path :
    (s : Text)
    → remove_prefix (codes " Configuration ") (codes " Operation " ++ s) ≡ codes " Operation " ++ s
unfolding remove_prefix strip_prefix
operation_path s = refl

remove_prefix_other :
    (d : ℕ) (p : Text) (c : ℕ) (s : Text) → c ≢ d → remove_prefix (d ∷ p) (c ∷ s) ≡ c ∷ s
unfolding remove_prefix strip_prefix
remove_prefix_other d p c s ne = ground arith

join-cons :
    (c : ℕ) (w : Text) (names : List Text)
    → (t : Text) × (join (codes " ") ((c ∷ w) ∷ names) ≡ c ∷ t)
unfolding join
join-cons c w [] = (w, refl)
join-cons c w (n ∷ names) = (w ++ (codes " " ++ join (codes " ") (n ∷ names)), refl)

-- Below either root the command line holds the names on the way to the node, with one space between
-- two of them: the name of the root is left out. The first name does not begin with a space.
pub get_node_path_str_lem :
    (c : ℕ) (w : Text) (names : List Text)
    → c ≢ 32
    → (get_node_path_str (codes "Configuration" ∷ ((c ∷ w) ∷ names))
        ≡ join (codes " ") ((c ∷ w) ∷ names))
      × (get_node_path_str (codes "Operation" ∷ ((c ∷ w) ∷ names))
          ≡ join (codes " ") ((c ∷ w) ∷ names))
unfolding get_node_path_str
get_node_path_str_lem c w names ne =
    let (t, starts) = join-cons c w names in
    (
      ap
            (λ (s : Text).
              remove_prefix (codes " Operation ") (remove_prefix (codes " Configuration ") s))
            (ap (λ (s : Text). codes " Configuration" ++ s) (get_path-cons (c ∷ w) names))
          ∙ ap (remove_prefix (codes " Operation "))
              (remove_prefix-append (codes " Configuration ") (join (codes " ") ((c ∷ w) ∷ names)))
          ∙ ap (remove_prefix (codes " Operation ")) starts
          ∙ remove_prefix_other 32 (codes "Operation ") c t ne
          ∙ sym starts,
      ap
            (λ (s : Text).
              remove_prefix (codes " Operation ") (remove_prefix (codes " Configuration ") s))
            (ap (λ (s : Text). codes " Operation" ++ s) (get_path-cons (c ∷ w) names))
          ∙ ap (remove_prefix (codes " Operation "))
              (operation_path (join (codes " ") ((c ∷ w) ∷ names)))
          ∙ remove_prefix-append (codes " Operation ") (join (codes " ") ((c ∷ w) ∷ names)),
    )
