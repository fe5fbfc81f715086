-- ===== src/Core/Btree/Shape.antt =====
-- core/btree.h: the shape of a B-tree, its entries from left to right, and the part of a node around
-- one child.
use cpp_lkm.Prelude.{
  ℕ, zero, suc, ◌+◌, ◌-◌, ◌*◌, ◌≤◌, ◌<◌, ◌≡◌, refl, sym, ap, ◌∙◌, true, false, List, [], ◌∷◌, ◌++◌,
  append_assoc, map, length, All, All-append, arith, min,
}
use cpp_lkm.Core.Btree.{Node, Nodes, btree_node, no_nodes, ◌▸◌, to_list, from_list}
use cpp_lkm.Core.Btree.Order.{
  AllBelow, AllAbove, Ascends, Ascends-right, Ascends-below, AllAbove-imp, AllBelow-imp,
}

module _ {ℓ} {V : Type ℓ} where
  -- the entries under the children, each followed by the entry between it and the next child
  abbrev pub weave : List (List (ℕ × V)) → List (ℕ × V) → List (ℕ × V)
  weave [] es = es
  weave (under ∷ more) [] = under ++ weave more []
  weave (under ∷ more) (e ∷ es) = under ++ (e ∷ weave more es)

  -- what follows a child
  abbrev pub follow : List (List (ℕ × V)) → List (ℕ × V) → List (ℕ × V)
  follow more [] = weave more []
  follow more (e ∷ es) = e ∷ weave more es

  -- The entries of a tree, from left to right.
  unfoldable mutual
    pub entries : Node V → List (ℕ × V)
    entries (btree_node leaf es nodes) = weave (entries_under nodes) es

    pub entries_under : Nodes V → List (List (ℕ × V))
    entries_under no_nodes = []
    entries_under (n ▸ nodes) = entries n ∷ entries_under nodes

  -- A node of at least `least` entries at a height, all leaves below it at height 0: at most 2t - 1
  -- entries and one child more, whose nodes have t - 1 entries or more.
  abbrev pub IsNode : ℕ → ℕ → ℕ → Node V → Type ℓ
  IsNode t least zero (btree_node leaf es nodes) =
      (leaf ≡ true) × (nodes ≡ no_nodes) × (least ≤ length es) × (length es ≤ 2 * t - 1)
  IsNode t least (suc height) (btree_node leaf es nodes) =
      (leaf ≡ false)
      × (length (to_list nodes) ≡ length es + 1)
      × (least ≤ length es)
      × (length es ≤ 2 * t - 1)
      × All (IsNode t (t - 1) height) (to_list nodes)

  -- The invariant of a root: one that is no leaf has an entry; the keys ascend from left to right.
  pub record IsRoot (t height : ℕ) (n : Node V) : Type ℓ where
    pub shape : IsNode t (min 1 height) height n
    pub order : Ascends (entries n)

  pub to_list-from_list : (list : List (Node V)) → to_list (from_list list) ≡ list
  to_list-from_list [] = refl
  to_list-from_list (n ∷ list) = ap (λ t. n ∷ t) (to_list-from_list list)

  pub entries_under-map : (nodes : Nodes V) → entries_under nodes ≡ map entries (to_list nodes)
  unfolding entries
  entries_under-map no_nodes = refl
  entries_under-map (n ▸ nodes) = ap (λ t. entries n ∷ t) (entries_under-map nodes)

  pub weave-follow :
      (under : List (ℕ × V)) (more : List (List (ℕ × V))) (es : List (ℕ × V))
      → weave (under ∷ more) es ≡ under ++ follow more es
  weave-follow under more [] = refl
  weave-follow under more (e ∷ es) = refl

  pub weave-append :
      (c d : List (List (ℕ × V))) (es fs : List (ℕ × V))
      → length c ≡ length es
      → weave (c ++ d) (es ++ fs) ≡ weave c es ++ weave d fs
  weave-append [] d [] fs h = refl
  weave-append [] d (e ∷ es) fs h = absurd (omega arith)
  weave-append (u ∷ c) d [] fs h = absurd (omega arith)
  weave-append (u ∷ c) d (e ∷ es) fs h =
      ap (λ t. u ++ (e ∷ t)) (weave-append c d es fs (omega arith))
      ∙ sym (append_assoc u (e ∷ weave c es) (weave d fs))

  -- a node around one child
  pub weave-around :
      (c : List (List (ℕ × V))) (under : List (ℕ × V)) (d : List (List (ℕ × V)))
      (es fs : List (ℕ × V))
      → length c ≡ length es
      → weave (c ++ (under ∷ d)) (es ++ fs) ≡ weave c es ++ (under ++ follow d fs)
  weave-around c under d es fs h =
      weave-append c (under ∷ d) es fs h ∙ ap (λ t. weave c es ++ t) (weave-follow under d fs)

  -- a node whose child between two lists of children has its mid entry up
  pub weave-mid :
      (c : List (List (ℕ × V))) (left : List (ℕ × V)) (d : List (List (ℕ × V))) (es : List (ℕ × V))
      (mid : ℕ × V) (fs : List (ℕ × V))
      → length c ≡ length es
      → weave (c ++ (left ∷ d)) (es ++ (mid ∷ fs)) ≡ weave c es ++ (left ++ (mid ∷ weave d fs))
  weave-mid c left d es mid fs h = weave-append c (left ∷ d) es (mid ∷ fs) h

  -- the entries before a child are below a key that is above the node's entries there
  pub weave-AllBelow :
      (key : ℕ) (c : List (List (ℕ × V))) (es : List (ℕ × V))
      → length c ≡ length es
      → Ascends (weave c es)
      → AllBelow key es
      → AllBelow key (weave c es)
  weave-AllBelow key [] es h k below = below
  weave-AllBelow key (u ∷ c) [] h k below = absurd (omega arith)
  weave-AllBelow key (u ∷ c) (e ∷ es) h k below =
      All-append (λ (x : ℕ × V). x.0 < key) u (e ∷ weave c es)
        (AllBelow-imp e.0 key u (omega arith) (Ascends-below u e (weave c es) k))
        (
          below.0,
          weave-AllBelow key c es (omega arith) (Ascends-right u (e ∷ weave c es) k).1 below.1,
        )

  -- the entries behind a child are above a key that is below the node's entries there
  pub follow-AllAbove :
      (key : ℕ) (d : List (List (ℕ × V))) (fs : List (ℕ × V))
      → length d ≡ length fs
      → Ascends (follow d fs)
      → AllAbove key fs
      → AllAbove key (follow d fs)
  follow-AllAbove key [] [] h k above = tt
  follow-AllAbove key (u ∷ d) [] h k above = absurd (omega arith)
  follow-AllAbove key d (f ∷ fs) h k above =
      (above.0, AllAbove-imp key f.0 (weave d fs) (omega arith) k.0)
