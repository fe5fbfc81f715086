-- ===== src/Core/Btree/Delete/GiveRight.antt =====
-- core/btree.h: `ChildGiveKey` from the right sibling.
use cpp_lkm.Prelude.{
  ℕ, zero, suc, ◌+◌, ◌-◌, ◌*◌, ◌≤◌, ◌<◌, ◌≡◌, refl, sym, ap, ap₂, ◌∙◌, subst, true, false, List, [],
  ◌∷◌, ◌++◌, append-nil, map, length, length-map, length-append, All, All-append, arith,
}
use cpp_lkm.Core.Btree.{Node, Nodes, btree_node, no_nodes, ◌▸◌, to_list, from_list}
use cpp_lkm.Core.Btree.Around.{map-append, entries-list, entries-from_list}
use cpp_lkm.Core.Btree.Delete.{delete_at, move_last, give_from_right}
use cpp_lkm.Core.Btree.Insert.{entries_of}
use cpp_lkm.Core.Btree.Insert.Split.{weave-halves}
use cpp_lkm.Core.Btree.Shape.{weave, entries, IsNode, to_list-from_list}
use cpp_lkm.Core.Btree.Delete.Sibling.{GivenRight, IsChild, same_kind}

module _ {ℓ} {V : Type ℓ} where
  leaf_right :
      (t : ℕ) (es : List (ℕ × V)) (e : ℕ × V) (es' : List (ℕ × V))
      → 2 ≤ t
      → length es ≡ t - 1
      → t ≤ length es'
      → length es' ≤ 2 * t - 1
      → GivenRight t 0 (btree_node true es no_nodes) e (btree_node true es' no_nodes)
  unfolding give_from_right entries delete_at move_last
  leaf_right t es e [] degree poor rich most = absurd (omega arith)
  leaf_right t es e (up ∷ es') degree poor rich most =
      let size = length-append es (e ∷ []) in
      record {
        left = btree_node true (es ++ (e ∷ [])) no_nodes;
        up = up;
        right = btree_node true es' no_nodes;
        moved = [];
        given = refl;
        left_shape = (refl, refl, omega (arith, size), omega (arith, size));
        right_shape = (refl, refl, omega arith, omega arith);
        from = refl;
        into = refl;
      }

  inner_right :
      (t height : ℕ) (es : List (ℕ × V)) (nodes : Nodes V) (e : ℕ × V) (es' : List (ℕ × V))
      (nodes' : Nodes V)
      → 2 ≤ t
      → length es ≡ t - 1
      → t ≤ length es'
      → length es' ≤ 2 * t - 1
      → length (to_list nodes) ≡ length es + 1
      → length (to_list nodes') ≡ length es' + 1
      → All (IsChild t height) (to_list nodes)
      → All (IsChild t height) (to_list nodes')
      → GivenRight t (suc height) (btree_node false es nodes) e (btree_node false es' nodes')
  unfolding give_from_right delete_at move_last
  inner_right t height es nodes e [] nodes' degree poor rich most count count' all all' =
      absurd (omega arith)
  inner_right t height es nodes e (up ∷ es') no_nodes degree poor rich most count count' all all' =
      absurd (omega arith)
  inner_right t height es nodes e (up ∷ es') (child ▸ nodes') degree poor rich most count count' all
        all' =
      let list = to_list nodes in
      let list' = to_list nodes' in
      let size = length-append es (e ∷ []) in
      let longer = list ++ (child ∷ []) in
      record {
        left = btree_node false (es ++ (e ∷ [])) (from_list longer);
        up = up;
        right = btree_node false es' (from_list list');
        moved = entries child;
        given = refl;
        left_shape = (
          refl,
          ap length (to_list-from_list longer)
              ∙ omega (arith, length-append list (child ∷ []), size, count),
          omega (arith, size),
          omega (arith, size),
          subst (All (IsChild t height)) (sym (to_list-from_list longer))
              (All-append (IsChild t height) list (child ∷ []) all (all'.0, tt)),
        );
        right_shape = (
          refl,
          ap length (to_list-from_list list') ∙ omega arith,
          omega arith,
          omega arith,
          subst (All (IsChild t height)) (sym (to_list-from_list list')) all'.1,
        );
        from =
            entries-list false (up ∷ es') (child ▸ nodes')
            ∙ ap (λ x. entries child ++ (up ∷ x)) (sym (entries-from_list false es' list'));
        into =
            entries-from_list false (es ++ (e ∷ [])) longer
            ∙ ap (λ c. weave c (es ++ (e ∷ []))) (map-append list (child ∷ []))
            ∙ weave-halves (map entries list) (entries child ∷ []) es e []
                (omega (arith, length-map list entries))
            ∙ ap₂ (λ x y. x ++ (e ∷ y)) (sym (entries-list false es nodes))
                (append-nil (entries child));
      }

  -- From a right sibling with an entry to spare.
  pub give_from_right_lem :
      (t height : ℕ) (l : Node V) (e : ℕ × V) (r : Node V)
      → 2 ≤ t
      → IsNode t (t - 1) height l
      → IsNode t t height r
      → length (entries_of l) < t
      → GivenRight t height l e r
  give_from_right_lem t zero (btree_node leaf es nodes) e (btree_node leaf' es' nodes') degree h h'
        poor =
      same_kind (λ l r. GivenRight t 0 l e r) t (t - 1) t leaf leaf' es es' nodes nodes' h h'
        (leaf_right t es e es' degree (omega (arith, h.2)) h'.2 h'.3)
  give_from_right_lem t (suc height) (btree_node leaf es nodes) e (btree_node leaf' es' nodes')
        degree h h' poor =
      subst (λ x. GivenRight t (suc height) (btree_node x es nodes) e (btree_node leaf' es' nodes'))
        (sym h.0)
        (subst
          (λ x. GivenRight t (suc height) (btree_node false es nodes) e (btree_node x es' nodes'))
          (sym h'.0)
          (inner_right t height es nodes e es' nodes' degree (omega (arith, h.2)) h'.2 h'.3 h.1 h'.1
            h.4 h'.4))
