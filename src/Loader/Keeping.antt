-- ===== src/Loader/Keeping.antt =====
-- The nodes that the operation tree shows.
use vyatta_webgui.Base.{◌≡◌, refl, inl, inr, true, false, List, [], ◌∷◌, arith, Bool-cases, All}
use vyatta_webgui.Text.{codes, text_eq, contains}
use vyatta_webgui.Loader.{XmlNode, is_skipped, kept_nodes, oper}

-- The operator's tree is what is left of the administrator's when the operator's rules are applied
-- to it: whatever an operator sees, an administrator sees.
pub operator_sees_less :
    (nodes : List XmlNode)
    → kept_nodes oper true nodes ≡ kept_nodes oper true (kept_nodes oper false nodes)
unfolding kept_nodes is_skipped
operator_sees_less [] = refl
operator_sees_less (n ∷ nodes) = ground (arith, operator_sees_less nodes)

-- A node that an operator may see.
abbrev pub Operable : XmlNode → Type 0
Operable n =
    (text_eq n.name (codes "configure") ≡ false)
    × (text_eq n.name (codes "https") ≡ false)
    × (contains (codes "Reboot the system") n.text_content ≡ false)

is_skipped-Operable : (n : XmlNode) → is_skipped true n ≡ false → Operable n
unfolding is_skipped
is_skipped-Operable n h = ground arith

-- No node that an operator's tree shows is named `configure` or `https`, or holds the text
-- `Reboot the system`.
pub kept_nodes-Operable : (nodes : List XmlNode) → All Operable (kept_nodes oper true nodes)
unfolding kept_nodes
kept_nodes-Operable [] = tt
kept_nodes-Operable (n ∷ nodes) = elim (Bool-cases (is_skipped true n)) [
  | inl e ↦ rw (e, kept_nodes) (kept_nodes-Operable nodes)
  | inr e ↦ rw (e, kept_nodes) (is_skipped-Operable n e, kept_nodes-Operable nodes)
]
