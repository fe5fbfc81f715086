-- ===== src/Core/Btree/Delete/GiveLeft.antt =====
-- core/btree.h: `ChildGiveKey` from the left sibling.
use cpp_lkm.Prelude.{
  ℕ, zero, suc, ◌+◌, ◌-◌, ◌*◌, ◌≤◌, ◌<◌, ◌≡◌, refl, sym, ap, ap₂, ◌∙◌, subst, true, false, List, [],
  ◌∷◌, ◌++◌, append-nil, map, length, length-map, All, All-left, All-right, arith,
}
use cpp_lkm.Core.Btree.{Node, Nodes, btree_node, no_nodes, to_list, from_list}
use cpp_lkm.Core.Btree.Around.{map-append, entries-list, entries-from_list}
use cpp_lkm.Core.Btree.Delete.{delete_at, move_first, give_from_left}
use cpp_lkm.Core.Btree.Insert.{put_at, entries_of}
use cpp_lkm.Core.Btree.Insert.Split.{weave-halves}
use cpp_lkm.Core.Btree.Shape.{weave, entries, IsNode, to_list-from_list}
use cpp_lkm.Core.Btree.Delete.Sibling.{GivenLeft, IsChild, last-split, same_kind}

module _ {ℓ} {V : Type ℓ} where
  leaf_left :
      (t : ℕ) (es : List (ℕ × V)) (e : ℕ × V) (es' : List (ℕ × V))
      → 2 ≤ t
      → t ≤ length es
      → length es ≤ 2 * t - 1
      → length es' ≡ t - 1
      → GivenLeft t 0 (btree_node true es no_nodes) e (btree_node true es' no_nodes)
  unfolding give_from_left entries put_at delete_at move_first
  leaf_left t es e es' degree rich most poor =
      let (up, found, split, size) = last-split es (length es - 1) (omega arith) in
      record {
        left = btree_node true (delete_at (length es - 1) es) no_nodes;
        up = up;
        right = btree_node true (e ∷ es') no_nodes;
        moved = [];
        given = rw (found, give_from_left) refl;
        left_shape = (refl, refl, omega (arith, size), omega (arith, size));
        right_shape = (refl, refl, omega arith, omega arith);
        from = split;
        into = refl;
      }

  inner_left :
      (t height : ℕ) (es : List (ℕ × V)) (nodes : Nodes V) (e : ℕ × V) (es' : List (ℕ × V))
      (nodes' : Nodes V)
      → 2 ≤ t
      → t ≤ length es
      → length es ≤ 2 * t - 1
      → length es' ≡ t - 1
      → length (to_list nodes) ≡ length es + 1
      → length (to_list nodes') ≡ length es' + 1
      → All (IsChild t height) (to_list nodes)
      → All (IsChild t height) (to_list nodes')
      → GivenLeft t (suc height) (btree_node false es nodes) e (btree_node false es' nodes')
  unfolding give_from_left put_at move_first
  inner_left t height es nodes e es' nodes' degree rich most poor count count' all all' =
      let list = to_list nodes in
      let list' = to_list nodes' in
      let last = length es - 1 in
      let (up, found, split, size) = last-split es last (omega arith) in
      let (child, there, list_split, list_size) = last-split list (suc last) (omega arith) in
      let es1 = delete_at last es in
      let list1 = delete_at (suc last) list in
      let parts = subst (All (IsChild t height)) list_split all in
      record {
        left = btree_node false es1 (from_list list1);
        up = up;
        right = btree_node false (e ∷ es') (from_list (child ∷ list'));
        moved = entries child;
        given = rw (found, there, give_from_left) refl;
        left_shape = (
          refl,
          ap length (to_list-from_list list1) ∙ omega (arith, list_size, size),
          omega (arith, size),
          omega (arith, size),
          subst (All (IsChild t height)) (sym (to_list-from_list list1))
              (All-left (IsChild t height) list1 (child ∷ []) parts),
        );
        right_shape = (
          refl,
          ap length (to_list-from_list (child ∷ list')) ∙ omega arith,
          omega arith,
          omega arith,
          subst (All (IsChild t height)) (sym (to_list-from_list (child ∷ list')))
              ((All-right (IsChild t height) list1 (child ∷ []) parts).0, all'),
        );
        from =
            entries-list false es nodes
            ∙ ap₂ (λ l x. weave (map entries l) x) list_split split
            ∙ ap (λ c. weave c (es1 ++ (up ∷ []))) (map-append list1 (child ∷ []))
            ∙ weave-halves (map entries list1) (entries child ∷ []) es1 up []
                (omega (arith, length-map list1 entries, list_size, size))
            ∙ ap₂ (λ x y. x ++ (up ∷ y)) (sym (entries-from_list false es1 list1))
                (append-nil (entries child));
        into =
            entries-from_list false (e ∷ es') (child ∷ list')
            ∙ ap (λ x. entries child ++ (e ∷ x)) (sym (entries-list false es' nodes'));
      }

  -- From a left sibling with an entry to spare to a node with the fewest.
  pub give_from_left_lem :
      (t height : ℕ) (l : Node V) (e : ℕ × V) (r : Node V)
      → 2 ≤ t
      → IsNode t t height l
      → IsNode t (t - 1) height r
      → length (entries_of r) < t
      → GivenLeft t height l e r
  give_from_left_lem t zero (btree_node leaf es nodes) e (btree_node leaf' es' nodes') degree h h'
        poor =
      same_kind (λ l r. GivenLeft t 0 l e r) t t (t - 1) leaf leaf' es es' nodes nodes' h h'
        (leaf_left t es e es' degree h.2 h.3 (omega (arith, h'.2)))
  give_from_left_lem t (suc height) (btree_node leaf es nodes) e (btree_node leaf' es' nodes')
        degree h h' poor =
      subst (λ x. GivenLeft t (suc height) (btree_node x es nodes) e (btree_node leaf' es' nodes'))
        (sym h.0)
        (subst
          (λ x. GivenLeft t (suc height) (btree_node false es nodes) e (btree_node x es' nodes'))
          (sym h'.0)
          (inner_left t height es nodes e es' nodes' degree h.2 h.3 (omega (arith, h'.2)) h.1 h'.1
            h.4 h'.4))
