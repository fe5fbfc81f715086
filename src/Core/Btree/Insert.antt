-- ===== src/Core/Btree/Insert.antt =====
-- core/btree.h: insertion into a B-tree, with its splits, and the check of its nodes.
pub mod Split
pub mod Above
pub mod Step
pub mod Rounds
pub mod Root
pub mod Laws
use cpp_lkm.Prelude.{
  ℕ, zero, suc, ◌+◌, ◌-◌, ◌*◌, Bool, true, false, not, List, [], ◌∷◌, ◌++◌, Option, none, some, ltb,
  leb, ◌==◌, ◌&&◌, if◌then◌else◌, length, get_elem?, set, take, drop,
}
use cpp_lkm.Core.Btree.{
  Node, Nodes, btree_node, no_nodes, ◌▸◌, to_list, from_list, key_at, find_key_index, get_key_index,
  lookup_from, min_depth_from, max_depth_from,
}

-- Free space at an index by shifting what is behind it, and set it: `PutKey` and `PutChild`, for an
-- array with a free place.
unfoldable pub put_at {ℓ} : {A : Type ℓ} → ℕ → A → List A → List A
put_at i a list = take i list ++ (a ∷ drop i list)

module _ {ℓ} {V : Type ℓ} where
  abbrev pub entries_of : Node V → List (ℕ × V)
  entries_of (btree_node leaf es nodes) = es

  -- The keys of a node ascend.
  unfoldable pub ascending : List (ℕ × V) → Bool
  ascending [] = true
  ascending (a ∷ []) = true
  ascending (a ∷ b ∷ es) = if leb b.0 a.0 then false else ascending (b ∷ es)

-- `t` is the minimum degree `T`.
module _ {ℓ} {V : Type ℓ} (t : ℕ) where
  unfoldable pub is_full : Node V → Bool
  is_full n = length (entries_of n) == 2 * t - 1

  -- `SplitChild` on the child: what it keeps, its mid entry, and what its sibling gets; `none` is a
  -- child that is not full, which is not split.
  unfoldable pub halves : Node V → Option (Node V × (ℕ × V) × Node V)
  halves (btree_node leaf es nodes) = elim (drop (t - 1) es) [
    | [] ↦ none
    | mid ∷ rest ↦ some (
      btree_node leaf (take (t - 1) es)
          (if leaf then nodes else from_list (take t (to_list nodes))),
      mid,
      btree_node leaf (take (t - 1) rest)
          (if leaf then no_nodes else from_list (take t (drop t (to_list nodes)))),
    )
  ]

  -- `SplitChild`
  unfoldable pub split_child : ℕ → Node V → Node V
  split_child i (btree_node leaf es nodes) = elim (get_elem? (to_list nodes) i) [
    | none ↦ btree_node leaf es nodes
    | some child ↦ elim (halves child) [
      | none ↦ btree_node leaf es nodes
      | some (left, mid, right) ↦
          btree_node leaf (put_at i mid es)
            (from_list (put_at (i + 1) right (set (to_list nodes) i left)))
    ]
  ]

  -- `Check` of a node and of some nodes
  unfoldable mutual
    pub check_from : Bool → Node V → Bool
    check_from root (btree_node leaf es nodes) =
        let children = check_all nodes in
        if ltb (2 * t - 1) (length es)
        then false
        else if not root && ltb (length es) (t - 1)
        then false
        else if not (ascending es)
        then false
        else if not leaf
        then (length (to_list nodes) == length es + 1) && children
        else length (to_list nodes) == 0

    pub check_all : Nodes V → Bool
    check_all no_nodes = true
    check_all (n ▸ nodes) =
        let first = check_from false n in let rest = check_all nodes in first && rest

  -- `memory n` says whether the `n`-th allocation of a node succeeds.
  module _ (memory : ℕ → Bool) where
    -- `InsertNonFull`: whether the entry was inserted, and the node with what was split on the way.
    -- `n` counts the allocations so far; a round is a split or a step to a child.
    unfoldable pub insert_non_full : ℕ → ℕ → ℕ → V → Node V → Bool × Node V
    insert_non_full zero n key value self = (false, self)
    insert_non_full (suc fuel) n key value (btree_node leaf es nodes) =
        let self : Node V = btree_node leaf es nodes in
        let i = find_key_index es key in
        elim (get_key_index es key) [
          | some exist ↦ (false, self)
          | none ↦ elim leaf [
            | true ↦ (true, btree_node true (put_at i (key, value) es) nodes)
            | false ↦ elim (get_elem? (to_list nodes) i) [
              | none ↦ (false, self)
              | some child ↦ elim (is_full child) [
                | true ↦ elim (memory n) [
                  | true ↦ insert_non_full fuel (n + 1) key value (split_child i self)
                  | false ↦ (false, self)
                ]
                | false ↦
                    let (done, child') = insert_non_full fuel n key value child in
                    (done, btree_node false es (from_list (set (to_list nodes) i child')))
              ]
            ]
          ]
        ]

    -- `Insert` into a tree with a root that does not hold the key: a full root is split first. There
    -- are at most two rounds for each level.
    unfoldable pub insert_root : ℕ → ℕ → V → Node V → Bool × Node V
    insert_root n key value root =
        let fuel = 2 * max_depth_from root in
        if is_full root
        then if memory n
          then if memory (n + 1)
            then insert_non_full (2 + fuel) (n + 2) key value
                (split_child 0 (btree_node false [] (root ▸ no_nodes)))
            else (false, root)
          else (false, root)
        else insert_non_full fuel n key value root

-- `Lookup`, on a tree that is its root
unfoldable pub lookup {ℓ} : {V : Type ℓ} → ℕ → Option (Node V) → Option V
lookup key none = none
lookup key (some root) = lookup_from key root

-- `Insert`
unfoldable pub insert {ℓ} :
    {V : Type ℓ} → ℕ → (ℕ → Bool) → ℕ → V → Option (Node V) → Bool × Option (Node V)
insert t memory key value none =
    if memory 0
    then (let (done, root) = insert_root t memory 1 key value (btree_node true [] no_nodes) in
        (done, some root))
    else (false, none)
insert t memory key value (some root) = elim (lookup_from key root) [
  | some exist ↦ (false, some root)
  | none ↦ let (done, root') = insert_root t memory 0 key value root in (done, some root')
]

-- `Check`
unfoldable pub check {ℓ} : {V : Type ℓ} → ℕ → Option (Node V) → Bool
check t none = true
check t (some root) = check_from t true root

-- `MinDepth` and `MaxDepth`
unfoldable pub min_depth {ℓ} : {V : Type ℓ} → Option (Node V) → ℕ
min_depth none = 0
min_depth (some root) = min_depth_from root

unfoldable pub max_depth {ℓ} : {V : Type ℓ} → Option (Node V) → ℕ
max_depth none = 0
max_depth (some root) = max_depth_from root
