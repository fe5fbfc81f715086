-- ===== src/Core/Tests/Btrees.antt =====
-- core/btree.h on concrete inputs: a tree of minimum degree 2 with a root and two leaves.
use cpp_lkm.Prelude.{
  ℕ, ◌≡◌, ◌≢◌, ◌⊎◌, refl, Bool, true, false, Option, none, some, List, [], ◌∷◌, ◌==◌, if◌then◌else◌,
  arith,
}
use cpp_lkm.Core.Btree.{
  Node, btree_node, no_nodes, ◌▸◌, search, find_key_index, is_key_probably_inside, get_key_index,
  lookup_from, max_depth_from,
}
use cpp_lkm.Core.Btree.Clear.{clear, clear_lem}
use cpp_lkm.Core.Btree.Delete.{
  delete_at, pair_at, merge, merge_at, give_from_left, give_at, change_pair, move_first,
  change_child, delete_leaf, is_rich, child_balance, take_end, take_from, replace_at, go_on,
  key_index, delete_from, delete,
}
use cpp_lkm.Core.Btree.Delete.Laws.{delete_lem, delete-IsBtree}
use cpp_lkm.Core.Btree.Insert.{
  put_at, is_full, halves, split_child, insert_non_full, insert_root, insert, lookup, check,
  min_depth, max_depth,
}
use cpp_lkm.Core.Btree.Insert.Laws.{insert_lem, insert-IsBtree, insert-false}
use cpp_lkm.Core.Btree.Insert.Root.{IsBtree, lookup_lem, check-IsBtree, contents}
use cpp_lkm.Core.Btree.Order.{find}
use cpp_lkm.Core.Btree.Shape.{entries}

abbrev leaf : List (ℕ × ℕ) → Node ℕ
leaf es = btree_node true es no_nodes

-- the left leaf is full
abbrev tree : Option (Node ℕ)
tree = some (
    btree_node false ((40, 4) ∷ [])
      (leaf ((10, 1) ∷ (20, 2) ∷ (30, 3) ∷ []) ▸ leaf ((50, 5) ∷ []) ▸ no_nodes))

tree-IsBtree : IsBtree 2 tree
unfolding entries
tree-IsBtree = (
  1,
  record {
    shape = (
      refl,
      refl,
      omega arith,
      omega arith,
      ((refl, refl, omega arith, omega arith), ((refl, refl, omega arith, omega arith), tt)),
    );
    order = omega arith;
  },
)

abbrev plenty : ℕ → Bool
plenty n = true

insert_lem_example :
    let (done, tree') = insert 2 plenty 25 7 tree in
    ((lookup 25 tree ≡ none)
      × (done ≡ true)
      × ((q : ℕ) → lookup q tree' ≡ (if q == 25 then some 7 else lookup q tree)))
    ⊎ ((lookup 25 tree ≢ none) × (done ≡ false) × (tree' ≡ tree))
insert_lem_example = insert_lem 2 (omega arith) plenty 25 7 tree tree-IsBtree (λ m. refl)

-- the tree with another entry, whose full leaf was split
grown : insert 2 plenty 25 7 tree ≡ (
  true,
  some (
      btree_node false
        ((20, 2) ∷ (40, 4) ∷ [])
        (leaf ((10, 1) ∷ []) ▸ leaf ((25, 7) ∷ (30, 3) ∷ []) ▸ leaf ((50, 5) ∷ []) ▸ no_nodes)),
)
unfolding insert lookup_from find_key_index search insert_root is_full insert_non_full
    max_depth_from get_key_index is_key_probably_inside split_child halves put_at
grown = refl

insert-IsBtree_example : IsBtree 2 (insert 2 plenty 25 7 tree).1
insert-IsBtree_example = insert-IsBtree 2 (omega arith) plenty 25 7 tree tree-IsBtree

insert-false_example : lookup 30 (insert 2 plenty 20 7 tree).1 ≡ lookup 30 tree
unfolding insert lookup_from find_key_index search
insert-false_example = insert-false 2 (omega arith) plenty 20 7 tree tree-IsBtree refl 30

lookup_lem_example : lookup 30 tree ≡ find 30 (contents tree)
lookup_lem_example = lookup_lem 2 30 tree (omega arith) tree-IsBtree

check-IsBtree_example : (check 2 tree ≡ true) × (min_depth tree ≡ max_depth tree)
check-IsBtree_example = check-IsBtree 2 tree tree-IsBtree

delete_lem_example :
    let (done, tree') = delete 2 40 tree in
    ((q : ℕ) → lookup q tree' ≡ (if q == 40 then none else lookup q tree))
    × (((done ≡ true) × (lookup 40 tree ≢ none)) ⊎ ((done ≡ false) × (lookup 40 tree ≡ none)))
delete_lem_example = delete_lem 2 (omega arith) 40 tree tree-IsBtree

delete-IsBtree_example : IsBtree 2 (delete 2 50 tree).1
delete-IsBtree_example = delete-IsBtree 2 (omega arith) 50 tree tree-IsBtree

-- the last entry of the left leaf takes the place of the entry in the root
replaced : delete 2 40 tree ≡ (
  true,
  some (
      btree_node false
        ((30, 3) ∷ [])
        (leaf ((10, 1) ∷ (20, 2) ∷ []) ▸ leaf ((50, 5) ∷ []) ▸ no_nodes)),
)
unfolding delete max_depth_from get_key_index is_key_probably_inside search is_rich take_from
    take_end delete_leaf delete_at replace_at delete_from
replaced = refl

-- an entry goes to the right leaf over the root
given : delete 2 50 tree ≡ (
  true,
  some (
      btree_node false
        ((30, 3) ∷ [])
        (leaf ((10, 1) ∷ (20, 2) ∷ []) ▸ leaf ((40, 4) ∷ []) ▸ no_nodes)),
)
unfolding delete max_depth_from get_key_index is_key_probably_inside search is_rich find_key_index
    child_balance give_at pair_at give_from_left move_first change_pair go_on change_child put_at
    delete_leaf delete_at delete_from
given = refl

-- the children of a root with one entry become the root
merged :
    delete 2 20 (
      some (btree_node false ((20, 2) ∷ []) (leaf ((10, 1) ∷ []) ▸ leaf ((30, 3) ∷ []) ▸ no_nodes)))
    ≡ (true, some (leaf ((10, 1) ∷ (30, 3) ∷ [])))
unfolding delete max_depth_from get_key_index is_key_probably_inside search is_rich merge_at pair_at
    merge go_on key_index delete_leaf delete_at delete_from
merged = refl

clear_lem_example : clear tree ≡ none
clear_lem_example = clear_lem 2 tree tree-IsBtree
