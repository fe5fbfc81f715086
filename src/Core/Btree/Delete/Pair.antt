-- ===== src/Core/Btree/Delete/Pair.antt =====
-- core/btree.h: `ChildGiveKey` and `ChildMerge` on a node that is seen around two siblings.
use cpp_lkm.Prelude.{
  ℕ, suc, ◌+◌, ◌-◌, ◌*◌, ◌≤◌, ◌<◌, ◌≡◌, refl, sym, ap, ap₂, ◌∙◌, subst, true, false, List, [], ◌∷◌,
  ◌++◌, append_assoc, Option, none, some, map, length, length-map, length-append, All, All-append,
  arith, get_elem?, set, ◌==◌,
}
use cpp_lkm.Core.Btree.{Node, btree_node, to_list, from_list}
use cpp_lkm.Core.Btree.Around.{map-append}
use cpp_lkm.Core.Btree.Delete.{delete_at, pair_at, merge, merge_at, change_pair, give_at}
use cpp_lkm.Core.Btree.Delete.Sibling.{GivenLeft, GivenRight}
use cpp_lkm.Core.Btree.Delete.View.{
  View, around_child, get-middle, get-second, set-middle, set-second, delete-middle, delete-second,
}
use cpp_lkm.Core.Btree.Shape.{
  weave, follow, entries, IsNode, to_list-from_list, weave-append, weave-follow,
}

module _ {ℓ} {V : Type ℓ} where
  pair_at-get :
      (j : ℕ) (es : List (ℕ × V)) (list : List (Node V)) (l : Node V) (e : ℕ × V) (r : Node V)
      → get_elem? list j ≡ some l
      → get_elem? es j ≡ some e
      → get_elem? list (suc j) ≡ some r
      → pair_at j es list ≡ some (l, e, r)
  unfolding pair_at
  pair_at-get j es list l e r at_l at_e at_r = rw (at_l, at_e, at_r, pair_at) refl

  -- What a step down needs of a node whose child has `front` before it and `back` behind it: the
  -- node, of `least` entries or more, and the child to go on with, which has `t` entries or more and
  -- holds that child's.
  pub record Balanced (t least height : ℕ) (child : Node V) (front back : List (ℕ × V))
      (r : Node V × Option ℕ) : Type ℓ where
    pub self : Node V
    pub index : ℕ
    pub part : Node V
    pub front' : List (ℕ × V)
    pub back' : List (ℕ × V)
    pub more_front : List (ℕ × V)
    pub more_back : List (ℕ × V)
    pub result : r ≡ (self, some index)
    pub view : View t least height self index part front' back'
    pub rich : IsNode t t height part
    pub front_is : front ≡ front' ++ more_front
    pub back_is : back ≡ more_back ++ back'
    pub part_is : entries part ≡ more_front ++ (entries child ++ more_back)

  -- a node around two siblings
  abbrev pub pair :
      List (Node V) → List (ℕ × V) → Node V → ℕ × V → Node V → List (Node V) → List (ℕ × V) → Node V
  pair C E l e r D F = btree_node false (E ++ (e ∷ F)) (from_list (C ++ (l ∷ r ∷ D)))

  module _ (C : List (Node V)) (E : List (ℕ × V)) (D : List (Node V)) (F : List (ℕ × V))
      (h_c : length C ≡ length E) (h_d : length D ≡ length F) where
    abbrev first : List (ℕ × V)
    first = weave (map entries C) E

    abbrev rest : List (ℕ × V)
    rest = follow (map entries D) F

    pair_at_lem :
        (l : Node V) (e : ℕ × V) (r : Node V)
        → pair_at (length E) (E ++ (e ∷ F)) (to_list (from_list (C ++ (l ∷ r ∷ D))))
          ≡ some (l, e, r)
    pair_at_lem l e r =
        let list = C ++ (l ∷ r ∷ D) in
        let at_l : get_elem? list (length E) ≡ some l =
          ap (get_elem? list) (sym h_c) ∙ get-middle C l (r ∷ D) in
        let at_r : get_elem? list (suc (length E)) ≡ some r =
          ap (λ i. get_elem? list (suc i)) (sym h_c) ∙ get-second C l r D in
        ap (pair_at (length E) (E ++ (e ∷ F))) (to_list-from_list list)
        ∙ pair_at-get (length E) (E ++ (e ∷ F)) list l e r at_l (get-middle E e F) at_r

    -- the parts around the second sibling
    pub second_view :
        (t least height : ℕ) (l : Node V) (e : ℕ × V) (r : Node V)
        → least ≤ length E + length F + 1
        → length E + length F + 1 ≤ 2 * t - 1
        → All (IsNode t (t - 1) height) C
        → All (IsNode t (t - 1) height) D
        → IsNode t (t - 1) height l
        → View t least height
            (pair C E l e r D F)
            (suc (length E))
            r
            (first ++ (entries l ++ (e ∷ [])))
            rest
    second_view t least height l e r low high all_c all_d is_l =
        let size = length-append E (e ∷ []) in
        let one_more : length (E ++ (e ∷ [])) ≡ suc (length E) = omega (arith, size) in
        let parts =
          around_child t least height (C ++ (l ∷ [])) (E ++ (e ∷ [])) r D F
            (omega (arith, size, length-append C (l ∷ []))) h_d (omega (arith, size))
            (omega (arith, size)) (All-append (IsNode t (t - 1) height) C (l ∷ []) all_c (is_l, tt))
            all_d in
        let front : weave (map entries (C ++ (l ∷ []))) (E ++ (e ∷ []))
            ≡ first ++ (entries l ++ (e ∷ [])) =
          ap (λ c. weave c (E ++ (e ∷ []))) (map-append C (l ∷ []))
          ∙ weave-append (map entries C) (entries l ∷ []) E (e ∷ []) (length-map C entries ∙ h_c) in
        let node : btree_node false ((E ++ (e ∷ [])) ++ F) (from_list ((C ++ (l ∷ [])) ++ (r ∷ D)))
            ≡ pair C E l e r D F =
          ap₂ (λ x y. btree_node false x (from_list y)) (append_assoc E (e ∷ []) F)
            (append_assoc C (l ∷ []) (r ∷ D)) in
        subst (λ f. View t least height (pair C E l e r D F) (suc (length E)) r f rest) front
          (subst
            (λ n.
              View t least height n (suc (length E)) r
                (weave (map entries (C ++ (l ∷ []))) (E ++ (e ∷ []))) rest)
            node
            (subst
              (λ j.
                View t least height
                  (btree_node false ((E ++ (e ∷ [])) ++ F) (from_list ((C ++ (l ∷ [])) ++ (r ∷ D))))
                  j r (weave (map entries (C ++ (l ∷ []))) (E ++ (e ∷ []))) rest)
              one_more parts))

    -- the parts around the first sibling
    pub first_view :
        (t least height : ℕ) (l : Node V) (e : ℕ × V) (r : Node V)
        → least ≤ length E + length F + 1
        → length E + length F + 1 ≤ 2 * t - 1
        → All (IsNode t (t - 1) height) C
        → All (IsNode t (t - 1) height) D
        → IsNode t (t - 1) height r
        → View t least height (pair C E l e r D F) (length E) l first (e ∷ (entries r ++ rest))
    first_view t least height l e r low high all_c all_d is_r =
        subst (λ b. View t least height (pair C E l e r D F) (length E) l first (e ∷ b))
          (weave-follow (entries r) (map entries D) F)
          (around_child t least height C E l (r ∷ D) (e ∷ F) h_c (omega arith) (omega arith)
            (omega arith) all_c (is_r, all_d))

    pair_set :
        (l r l' r' : Node V)
        → set (set (to_list (from_list (C ++ (l ∷ r ∷ D)))) (length E) l') (suc (length E)) r'
          ≡ C ++ (l' ∷ r' ∷ D)
    pair_set l r l' r' =
        let list = C ++ (l ∷ r ∷ D) in
        ap (λ x. set (set x (length E) l') (suc (length E)) r') (to_list-from_list list)
        ∙ ap (λ i. set (set list i l') (suc i) r') (sym h_c)
        ∙ ap (λ x. set x (suc (length C)) r') (set-middle C l l' (r ∷ D))
        ∙ set-second C l' r r' D

    pub give_left_lem :
        (t height : ℕ) (l : Node V) (e : ℕ × V) (r : Node V) (g : GivenLeft t height l e r)
        → give_at true (length E) (pair C E l e r D F) ≡ pair C E g.left g.up g.right D F
    unfolding give_at change_pair
    give_left_lem t height l e r g =
        rw (pair_at_lem l e r, g.given, give_at, change_pair)
          (ap₂ (λ x y. btree_node false x (from_list y)) (set-middle E e g.up F)
            (pair_set l r g.left g.right))

    pub give_right_lem :
        (t height : ℕ) (l : Node V) (e : ℕ × V) (r : Node V) (g : GivenRight t height l e r)
        → give_at false (length E) (pair C E l e r D F) ≡ pair C E g.left g.up g.right D F
    unfolding give_at change_pair
    give_right_lem t height l e r g =
        rw (pair_at_lem l e r, g.given, give_at, change_pair)
          (ap₂ (λ x y. btree_node false x (from_list y)) (set-middle E e g.up F)
            (pair_set l r g.left g.right))

    -- with entries left behind, the node keeps the merged child
    pub merge_at_lem :
        (l : Node V) (e : ℕ × V) (r : Node V)
        → 0 < length E + length F
        → merge_at (length E) (pair C E l e r D F)
          ≡ (btree_node false (E ++ F) (from_list (C ++ (merge l e r ∷ D))), some (length E))
    unfolding merge_at
    merge_at_lem l e r some_left =
        let m = merge l e r in
        let list = C ++ (l ∷ r ∷ D) in
        let keys : delete_at (length E) (E ++ (e ∷ F)) ≡ E ++ F = delete-middle E e F in
        let filled : (length (E ++ F) == 0) ≡ false = ground (arith, length-append E F) in
        let nodes : delete_at (suc (length E)) (set (to_list (from_list list)) (length E) m)
            ≡ C ++ (m ∷ D) =
          ap (λ x. delete_at (suc (length E)) (set x (length E) m)) (to_list-from_list list)
          ∙ ap (λ i. delete_at (suc i) (set list i m)) (sym h_c)
          ∙ ap (delete_at (suc (length C))) (set-middle C l m (r ∷ D))
          ∙ delete-second C m r D in
        rw (pair_at_lem l e r, merge_at, keys, filled, nodes) refl

    -- without, it becomes that child
    pub merge_at_alone :
        (l : Node V) (e : ℕ × V) (r : Node V)
        → length E + length F ≡ 0
        → merge_at (length E) (pair C E l e r D F) ≡ (merge l e r, none)
    unfolding merge_at
    merge_at_alone l e r none_left =
        let keys : delete_at (length E) (E ++ (e ∷ F)) ≡ E ++ F = delete-middle E e F in
        let empty : (length (E ++ F) == 0) ≡ true = ground (arith, length-append E F) in
        rw (pair_at_lem l e r, merge_at, keys, empty) refl
