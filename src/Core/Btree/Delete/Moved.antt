-- ===== src/Core/Btree/Delete/Moved.antt =====
-- core/btree.h: the child to go on with, after `ChildGiveKey` or `ChildMerge` at two siblings.
use cpp_lkm.Prelude.{
  ℕ, suc, ◌+◌, ◌-◌, ◌*◌, ◌≤◌, ◌<◌, ◌≡◌, refl, sym, ap, ◌∙◌, true, false, List, [], ◌∷◌, ◌++◌,
  append_assoc, append-nil, some, map, length, All, arith,
}
use cpp_lkm.Core.Btree.{Node, btree_node, from_list}
use cpp_lkm.Core.Btree.Delete.{merge, merge_at, give_at}
use cpp_lkm.Core.Btree.Delete.Sibling.{GivenLeft, GivenRight}
use cpp_lkm.Core.Btree.Delete.View.{View, around_child}
use cpp_lkm.Core.Btree.Shape.{weave, follow, entries, IsNode}
use cpp_lkm.Core.Btree.Delete.Pair.{
  Balanced, pair, give_left_lem, give_right_lem, second_view, first_view, merge_at_lem,
}

module _ {ℓ} {V : Type ℓ} where
  module _ (C : List (Node V)) (E : List (ℕ × V)) (D : List (Node V)) (F : List (ℕ × V))
      (h_c : length C ≡ length E) (h_d : length D ≡ length F) where
    abbrev first : List (ℕ × V)
    first = weave (map entries C) E

    abbrev rest : List (ℕ × V)
    rest = follow (map entries D) F

    module _ (t least height : ℕ) (degree : 2 ≤ t) (low : least ≤ length E + length F + 1)
        (high : length E + length F + 1 ≤ 2 * t - 1) (all_c : All (IsNode t (t - 1) height) C)
        (all_d : All (IsNode t (t - 1) height) D) where
      -- the second sibling gets an entry from the first
      pub second_given :
          (l : Node V) (e : ℕ × V) (r : Node V)
          → GivenLeft t height l e r
          → Balanced t least height r
              (first ++ (entries l ++ (e ∷ [])))
              rest
              (give_at true (length E) (pair C E l e r D F), some (suc (length E)))
      second_given l e r g = record {
        self = pair C E g.left g.up g.right D F;
        index = suc (length E);
        part = g.right;
        front' = first ++ (entries g.left ++ (g.up ∷ []));
        back' = rest;
        more_front = g.moved ++ (e ∷ []);
        more_back = [];
        result =
            ap (λ n. (n, some (suc (length E)))) (give_left_lem C E D F h_c h_d t height l e r g);
        view =
            second_view C E D F h_c h_d t least height g.left g.up g.right (omega arith) high all_c
              all_d g.left_shape;
        rich = g.right_shape;
        front_is =
            ap (λ x. first ++ (x ++ (e ∷ []))) g.from
            ∙ ap (λ x. first ++ x)
                (append_assoc (entries g.left) (g.up ∷ g.moved) (e ∷ [])
                  ∙ sym (append_assoc (entries g.left) (g.up ∷ []) (g.moved ++ (e ∷ []))))
            ∙ sym (append_assoc first (entries g.left ++ (g.up ∷ [])) (g.moved ++ (e ∷ [])));
        back_is = refl;
        part_is =
            g.into
            ∙ sym (
                append_assoc g.moved (e ∷ []) (entries r ++ [])
                ∙ ap (λ x. g.moved ++ (e ∷ x)) (append-nil (entries r)));
      }

      -- the first sibling gets an entry from the second
      pub first_given :
          (l : Node V) (e : ℕ × V) (r : Node V)
          → GivenRight t height l e r
          → Balanced t least height l first
              (e ∷ (entries r ++ rest))
              (give_at false (length E) (pair C E l e r D F), some (length E))
      first_given l e r g = record {
        self = pair C E g.left g.up g.right D F;
        index = length E;
        part = g.left;
        front' = first;
        back' = g.up ∷ (entries g.right ++ rest);
        more_front = [];
        more_back = e ∷ g.moved;
        result = ap (λ n. (n, some (length E))) (give_right_lem C E D F h_c h_d t height l e r g);
        view =
            first_view C E D F h_c h_d t least height g.left g.up g.right (omega arith) high all_c
              all_d g.right_shape;
        rich = g.left_shape;
        front_is = sym (append-nil first);
        back_is =
            ap (λ x. e ∷ (x ++ rest)) g.from
            ∙ ap (λ x. e ∷ x) (append_assoc g.moved (g.up ∷ entries g.right) rest);
        part_is = g.into;
      }

      -- the siblings become one child
      pub merged_view :
          (l : Node V) (e : ℕ × V) (r : Node V)
          → least ≤ length E + length F
          → View t least height
              (btree_node false (E ++ F) (from_list (C ++ (merge l e r ∷ D))))
              (length E)
              (merge l e r)
              first
              rest
      merged_view l e r low' =
          around_child t least height C E (merge l e r) D F h_c h_d low' (omega arith) all_c all_d

      pub second_merged :
          (l : Node V) (e : ℕ × V) (r : Node V)
          → 0 < length E + length F
          → least ≤ length E + length F
          → IsNode t t height (merge l e r)
          → entries (merge l e r) ≡ entries l ++ (e ∷ entries r)
          → Balanced t least height r
              (first ++ (entries l ++ (e ∷ [])))
              rest
              (merge_at (length E) (pair C E l e r D F))
      second_merged l e r some_left low' rich whole = record {
        self = btree_node false (E ++ F) (from_list (C ++ (merge l e r ∷ D)));
        index = length E;
        part = merge l e r;
        front' = first;
        back' = rest;
        more_front = entries l ++ (e ∷ []);
        more_back = [];
        result = merge_at_lem C E D F h_c h_d l e r some_left;
        view = merged_view l e r low';
        rich = rich;
        front_is = refl;
        back_is = refl;
        part_is =
            whole
            ∙ sym (
                append_assoc (entries l) (e ∷ []) (entries r ++ [])
                ∙ ap (λ x. entries l ++ (e ∷ x)) (append-nil (entries r)));
      }

      pub first_merged :
          (l : Node V) (e : ℕ × V) (r : Node V)
          → 0 < length E + length F
          → least ≤ length E + length F
          → IsNode t t height (merge l e r)
          → entries (merge l e r) ≡ entries l ++ (e ∷ entries r)
          → Balanced t least height l first
              (e ∷ (entries r ++ rest))
              (merge_at (length E) (pair C E l e r D F))
      first_merged l e r some_left low' rich whole = record {
        self = btree_node false (E ++ F) (from_list (C ++ (merge l e r ∷ D)));
        index = length E;
        part = merge l e r;
        front' = first;
        back' = rest;
        more_front = [];
        more_back = e ∷ entries r;
        result = merge_at_lem C E D F h_c h_d l e r some_left;
        view = merged_view l e r low';
        rich = rich;
        front_is = sym (append-nil first);
        back_is = refl;
        part_is = whole;
      }
