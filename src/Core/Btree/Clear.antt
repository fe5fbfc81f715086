-- ===== src/Core/Btree/Clear.antt =====
-- core/btree.h: `Clear`, which takes away the first leaf of the tree until the root is one.
use cpp_lkm.Prelude.{
  ℕ, zero, suc, ◌+◌, ◌-◌, ◌≤◌, ◌<◌, ◌≡◌, ◌⊎◌, inl, inr, refl, Bool, true, false, List, Option, none,
  some, All, All-imp, arith, min, if◌then◌else◌,
}
use cpp_lkm.Core.Btree.{Node, Nodes, btree_node, no_nodes, ◌▸◌, to_list}
use cpp_lkm.Core.Btree.Insert.Root.{IsBtree}
use cpp_lkm.Core.Btree.Shape.{IsNode}

-- What a walk down from the root finds: that the root is a leaf, a node without a first child, or
-- the first leaf, which it takes away.
pub data Walk {ℓ} (V : Type ℓ) : Type ℓ where
  at_leaf : Walk V
  no_child : Walk V
  removed : Node V → Walk V

module _ {ℓ} {V : Type ℓ} where
  abbrev pub is_empty : Nodes V → Bool
  is_empty no_nodes = true
  is_empty (n ▸ nodes) = false

  -- the parent behind the walk at its first child; one that is left without children is a leaf
  unfoldable pub behind_walk : List (ℕ × V) → Node V → Nodes V → Walk V → Walk V
  behind_walk es n nodes at_leaf = removed (btree_node (is_empty nodes) es nodes)
  behind_walk es n nodes no_child = no_child
  behind_walk es n nodes (removed n') = removed (btree_node false es (n' ▸ nodes))

  -- The inner loop of `Clear`: its `for` over the children stops at the first.
  unfoldable pub walk : Node V → Walk V
  walk (btree_node leaf es no_nodes) = if leaf then at_leaf else no_child
  walk (btree_node leaf es (n ▸ nodes)) =
      let below = behind_walk es n nodes (walk n) in if leaf then at_leaf else below

  -- the walks from the root
  unfoldable pub clear_walks : ℕ → Node V → Option (Node V)
  clear_walks zero root = some root
  clear_walks (suc fuel) root = elim (walk root) [
    | at_leaf ↦ none
    | no_child ↦ some root
    | removed root' ↦ clear_walks fuel root'
  ]

  unfoldable mutual
    pub node_count : Node V → ℕ
    node_count (btree_node leaf es nodes) = suc (nodes_count nodes)

    pub nodes_count : Nodes V → ℕ
    nodes_count no_nodes = 0
    nodes_count (n ▸ nodes) = node_count n + nodes_count nodes

  -- `Clear`
  unfoldable pub clear : Option (Node V) → Option (Node V)
  clear none = none
  clear (some root) = clear_walks (node_count root) root

  -- every node that is no leaf has a child
  unfoldable mutual
    HasChildren : Node V → Type 0
    HasChildren (btree_node true es nodes) = Unit
    HasChildren (btree_node false es no_nodes) = ⊥
    HasChildren (btree_node false es (n ▸ nodes)) = HasChildren n × AllHaveChildren nodes

    AllHaveChildren : Nodes V → Type 0
    AllHaveChildren no_nodes = Unit
    AllHaveChildren (n ▸ nodes) = HasChildren n × AllHaveChildren nodes

  -- what a walk that takes a node away leaves
  abbrev Removes : Node V → Type ℓ
  Removes n =
      (n' : Node V) × (walk n ≡ removed n') × HasChildren n' × (node_count n' < node_count n)

  behind_leaf :
      (es : List (ℕ × V)) (n : Node V) (nodes : Nodes V)
      → walk n ≡ at_leaf
      → AllHaveChildren nodes
      → Removes (btree_node false es (n ▸ nodes))
  unfolding walk behind_walk HasChildren node_count
  behind_leaf es (btree_node leaf es' under) no_nodes last h =
      (btree_node true es no_nodes, rw (last, behind_walk) refl, tt, omega arith)
  behind_leaf es (btree_node leaf es' under) (m ▸ nodes) last h =
      (btree_node false es (m ▸ nodes), rw (last, behind_walk) refl, h, omega arith)

  -- A walk ends at the root, or takes a node away.
  walk_lem : (n : Node V) → HasChildren n → (walk n ≡ at_leaf) ⊎ Removes n
  unfolding walk behind_walk HasChildren node_count
  walk_lem (btree_node true es no_nodes) h = inl refl
  walk_lem (btree_node true es (n ▸ nodes)) h = inl refl
  walk_lem (btree_node false es no_nodes) h = absurd h
  walk_lem (btree_node false es (n ▸ nodes)) h = inr (elim (walk_lem n h.0) [
    | inl last ↦ behind_leaf es n nodes last h.1
    | inr (n', step, full, fewer) ↦
        (btree_node false es (n' ▸ nodes), rw (step, behind_walk) refl, (full, h.1), omega arith)
  ])

  clear_walks_lem :
      (fuel : ℕ) (n : Node V) → node_count n ≤ fuel → HasChildren n → clear_walks fuel n ≡ none
  unfolding clear_walks node_count
  clear_walks_lem zero (btree_node leaf es nodes) h full = absurd (omega arith)
  clear_walks_lem (suc fuel) n h full = elim (walk_lem n full) [
    | inl last ↦ rw (last, clear_walks) refl
    | inr (n', step, full', fewer) ↦
        rw (step, clear_walks) (clear_walks_lem fuel n' (omega arith) full')
  ]

  All-HaveChildren : (nodes : Nodes V) → All HasChildren (to_list nodes) → AllHaveChildren nodes
  unfolding HasChildren
  All-HaveChildren no_nodes h = tt
  All-HaveChildren (n ▸ nodes) h = (h.0, All-HaveChildren nodes h.1)

  IsNode-HasChildren : (t least height : ℕ) (n : Node V) → IsNode t least height n → HasChildren n
  unfolding HasChildren
  IsNode-HasChildren t least zero (btree_node true es nodes) h = tt
  IsNode-HasChildren t least zero (btree_node false es nodes) h = absurd (cc h.0)
  IsNode-HasChildren t least (suc height) (btree_node true es nodes) h = tt
  IsNode-HasChildren t least (suc height) (btree_node false es no_nodes) h =
      absurd (omega (arith, h.1))
  IsNode-HasChildren t least (suc height) (btree_node false es (n ▸ nodes)) h = (
    IsNode-HasChildren t (t - 1) height n (h.4).0,
    All-HaveChildren nodes (All-imp (IsNode-HasChildren t (t - 1) height) (to_list nodes) (h.4).1),
  )

  -- `Clear` of an empty tree or of one that satisfies the invariant comes to an end and leaves the
  -- empty tree.
  pub clear_lem : (t : ℕ) (tree : Option (Node V)) → IsBtree t tree → clear tree ≡ none
  unfolding clear
  clear_lem t none h = refl
  clear_lem t (some root) (height, h) =
      clear_walks_lem (node_count root) root (omega arith)
        (IsNode-HasChildren t (min 1 height) height root h.shape)
