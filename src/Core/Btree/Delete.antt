-- ===== src/Core/Btree/Delete.antt =====
-- core/btree.h: deletion from a B-tree: moving an entry between siblings, merging them, and the walk
-- down that leaves no node with too few entries.
pub mod Sibling
pub mod GiveLeft
pub mod GiveRight
pub mod Merging
pub mod View
pub mod Pair
pub mod Moved
pub mod Split
pub mod Balance
pub mod Branch
pub mod Cases
pub mod Without
pub mod Walk
pub mod Round
pub mod Hit
pub mod Found
pub mod Step
pub mod Laws
use cpp_lkm.Prelude.{
  ℕ, zero, suc, ◌+◌, ◌-◌, ◌*◌, Bool, true, false, not, List, [], ◌∷◌, ◌++◌, Option, none, some, ltb,
  leb, ◌==◌, if◌then◌else◌, length, get_elem?, set, take, drop,
}
use cpp_lkm.Core.Btree.{
  Node, Nodes, btree_node, no_nodes, to_list, from_list, key_at, find_key_index, get_key_index,
  max_depth_from,
}
use cpp_lkm.Core.Btree.Insert.{put_at, entries_of}

-- Shift what is behind an index over it: `DeleteKey` and `DeleteChild`.
unfoldable pub delete_at {ℓ} : {A : Type ℓ} → ℕ → List A → List A
delete_at i list = take i list ++ drop (suc i) list

module _ {ℓ} {V : Type ℓ} where
  -- A child, the entry behind it, and the next child.
  unfoldable pub pair_at : ℕ → List (ℕ × V) → List (Node V) → Option (Node V × (ℕ × V) × Node V)
  pair_at j es list = elim (get_elem? list j) [
    | none ↦ none
    | some left ↦ elim (get_elem? es j) [
      | none ↦ none
      | some e ↦ elim (get_elem? list (suc j)) [ none ↦ none | some right ↦ some (left, e, right) ]
    ]
  ]

  -- `Merge` of a node with an entry and its right sibling
  unfoldable pub merge : Node V → ℕ × V → Node V → Node V
  merge (btree_node leaf es nodes) e (btree_node leaf' es' nodes') =
      btree_node leaf (es ++ (e ∷ es')) (from_list (to_list nodes ++ to_list nodes'))

  -- `ChildMerge`, and the merge of `Delete`: two children and the entry between become the first of
  -- them; a node that is left without entries becomes that child by `Copy`. The child to go on with,
  -- or `none` for the node itself.
  unfoldable pub merge_at : ℕ → Node V → Node V × Option ℕ
  merge_at j (btree_node leaf es nodes) = elim (pair_at j es (to_list nodes)) [
    | none ↦ (btree_node leaf es nodes, some j)
    | some (left, e, right) ↦
        let merged = merge left e right in
        if length (delete_at j es) == 0 then (merged, none) else (
          btree_node leaf (delete_at j es)
              (from_list (delete_at (suc j) (set (to_list nodes) j merged))),
          some j,
        )
  ]

  -- The children of a node without the one at an index, and with it in front of those of another.
  unfoldable pub move_first : Option (Node V) → List (Node V) → List (Node V)
  move_first none list = list
  move_first (some child) list = put_at 0 child list

  unfoldable pub move_last : Option (Node V) → List (Node V) → List (Node V)
  move_last none list = list
  move_last (some child) list = list ++ (child ∷ [])

  -- `ChildGiveKey` from the left sibling: its last entry goes up, the entry between goes down.
  unfoldable pub give_from_left : Node V → ℕ × V → Node V → Option (Node V × (ℕ × V) × Node V)
  give_from_left (btree_node leaf es nodes) e (btree_node leaf' es' nodes') =
      let last = length es - 1 in
      elim (get_elem? es last) [
        | none ↦ none
        | some up ↦ some (
          btree_node leaf (delete_at last es) (from_list (delete_at (suc last) (to_list nodes))),
          up,
          btree_node leaf' (put_at 0 e es')
              (from_list (move_first (get_elem? (to_list nodes) (suc last)) (to_list nodes'))),
        )
      ]

  -- `ChildGiveKey` from the right sibling: its first entry goes up, the entry between goes down.
  unfoldable pub give_from_right : Node V → ℕ × V → Node V → Option (Node V × (ℕ × V) × Node V)
  give_from_right (btree_node leaf es nodes) e (btree_node leaf' es' nodes') =
      elim (get_elem? es' 0) [
        | none ↦ none
        | some up ↦ some (
          btree_node leaf (es ++ (e ∷ []))
              (from_list (move_last (get_elem? (to_list nodes') 0) (to_list nodes))),
          up,
          btree_node leaf' (delete_at 0 es') (from_list (delete_at 0 (to_list nodes'))),
        )
      ]

  -- A node with two children and the entry between changed.
  unfoldable pub change_pair : ℕ → Option (Node V × (ℕ × V) × Node V) → Node V → Node V
  change_pair j none n = n
  change_pair j (some (left, e, right)) (btree_node leaf es nodes) =
      btree_node leaf (set es j e) (from_list (set (set (to_list nodes) j left) (suc j) right))

  -- `ChildGiveKey`
  unfoldable pub give_at : Bool → ℕ → Node V → Node V
  give_at from_left j (btree_node leaf es nodes) = elim (pair_at j es (to_list nodes)) [
    | none ↦ btree_node leaf es nodes
    | some (left, e, right) ↦
        let moved =
          if from_left then give_from_left left e right else give_from_right left e right in
        change_pair j moved (btree_node leaf es nodes)
  ]

  unfoldable pub change_child : ℕ → Node V → Node V → Node V
  change_child j child (btree_node leaf es nodes) =
      btree_node leaf es (from_list (set (to_list nodes) j child))

  abbrev pub children_of : Node V → List (Node V)
  children_of (btree_node leaf es nodes) = to_list nodes

  -- The leaf branches of `Delete`
  unfoldable pub delete_leaf : ℕ → Node V → Bool × Node V
  delete_leaf key (btree_node leaf es nodes) = elim (get_key_index es key) [
    | none ↦ (false, btree_node leaf es nodes)
    | some i ↦ (true, btree_node leaf (delete_at i es) nodes)
  ]

-- `t` is the minimum degree `T`.
module _ {ℓ} {V : Type ℓ} (t : ℕ) where
  -- a sibling that is there and can give an entry
  unfoldable pub is_rich : Option (Node V) → Bool
  is_rich none = false
  is_rich (some n) = leb t (length (entries_of n))

  -- `ChildBalance`: the node with a child that has `t` entries or more in place of the one at the
  -- index, and the index of that child, or `none` when the node itself took its place.
  unfoldable pub child_balance : ℕ → Node V → Node V × Option ℕ
  child_balance i self = elim (get_elem? (children_of self) i) [
    | none ↦ (self, some i)
    | some child ↦
        let left = if ltb 0 i then get_elem? (children_of self) (i - 1) else none in
        let right =
          if ltb i (length (entries_of self)) then get_elem? (children_of self) (suc i) else none in
        if not (ltb (length (entries_of child)) t)
        then (self, some i)
        else if is_rich left
        then (give_at true (i - 1) self, some i)
        else if is_rich right
        then (give_at false i self, some i)
        else elim left [
          | some _ ↦ merge_at (i - 1) self
          | none ↦ elim right [ some _ ↦ merge_at i self | none ↦ (self, some i) ]
        ]
  ]

  -- `FindLeftMost` (`last`), which walks to the right, and `FindRightMost`, which walks to the left:
  -- the entry at that end of the tree under a node, and the node without it.
  unfoldable pub take_end : Bool → ℕ → Node V → Option ((ℕ × V) × Node V)
  take_end last zero self = none
  take_end last (suc fuel) (btree_node leaf es nodes) = elim leaf [
    | true ↦ elim (get_elem? es (if last then length es - 1 else 0)) [
      | none ↦ none
      | some e ↦ some (e, (delete_leaf e.0 (btree_node true es nodes)).1)
    ]
    | false ↦
        let (self, next) =
          child_balance (if last then length es else 0) (btree_node false es nodes) in
        elim next [
          | none ↦ take_end last fuel self
          | some j ↦ elim (get_elem? (children_of self) j) [
            | none ↦ none
            | some child ↦ elim (take_end last fuel child) [
              | none ↦ none
              | some (e, child') ↦ some (e, change_child j child' self)
            ]
          ]
        ]
  ]

  -- an inner node whose entry at an index is replaced by one that was taken from a child
  unfoldable pub replace_at : ℕ → ℕ → Option ((ℕ × V) × Node V) → Node V → Bool × Node V
  replace_at i j none self = (false, self)
  replace_at i j (some (e, child)) (btree_node leaf es nodes) =
      (true, btree_node leaf (set es i e) (from_list (set (to_list nodes) j child)))

  unfoldable pub take_from : Bool → ℕ → Option (Node V) → Option ((ℕ × V) × Node V)
  take_from last fuel none = none
  take_from last fuel (some child) = take_end last fuel child

  -- the next round, at a child or at the node itself
  unfoldable pub go_on : (Node V → Bool × Node V) → Node V × Option ℕ → Bool × Node V
  go_on rest (self, none) = rest self
  go_on rest (self, some j) = elim (get_elem? (children_of self) j) [
    | none ↦ (false, self)
    | some child ↦ let (done, child') = rest child in (done, change_child j child' self)
  ]

  -- `keyIndex`, where the key stands after the merge of the child at an index with its sibling
  unfoldable pub key_index : Option (Node V) → ℕ
  key_index none = 0
  key_index (some n) = length (entries_of n)

  -- `Delete` from a node on. Behind a merge the key is read back from where it went.
  unfoldable pub delete_from : ℕ → ℕ → Node V → Bool × Node V
  delete_from zero key self = (false, self)
  delete_from (suc fuel) key (btree_node true es nodes) = delete_leaf key (btree_node true es nodes)
  delete_from (suc fuel) key (btree_node false es nodes) =
      let self : Node V = btree_node false es nodes in
      elim (get_key_index es key) [
        | some i ↦
            let pre = get_elem? (to_list nodes) i in
            let successor = get_elem? (to_list nodes) (suc i) in
            if is_rich pre
            then replace_at i i (take_from true fuel pre) self
            else if is_rich successor
            then replace_at i (suc i) (take_from false fuel successor) self
            else go_on (λ n. delete_from fuel (key_at (entries_of n) (key_index pre)) n)
                (merge_at i self)
        | none ↦ go_on (delete_from fuel key) (child_balance (find_key_index es key) self)
      ]

-- `Delete`; there are at most two rounds for each level of the tree.
unfoldable pub delete {ℓ} : {V : Type ℓ} → ℕ → ℕ → Option (Node V) → Bool × Option (Node V)
delete t key none = (false, none)
delete t key (some root) =
    let (done, root') = delete_from t (2 * max_depth_from root) key root in (done, some root')
