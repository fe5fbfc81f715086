-- ===== src/Core/Btree/Delete/Balance.antt =====
-- core/btree.h: `ChildBalance` leads to a child with an entry to spare, or to the merged last two.
use cpp_lkm.Prelude.{
  ℕ, suc, ◌+◌, ◌-◌, ◌*◌, ◌≤◌, ◌<◌, ◌≡◌, refl, sym, ap, ap₂, ◌∙◌, subst, true, false, List, [], ◌∷◌,
  ◌++◌, append-nil, Option, none, some, map, length, length-append, arith,
}
use cpp_lkm.Core.Btree.{Node, Nodes, btree_node, to_list, from_list}
use cpp_lkm.Core.Btree.Around.{before, behind}
use cpp_lkm.Core.Btree.Delete.{merge, merge_at, give_at}
use cpp_lkm.Core.Btree.Delete.GiveLeft.{give_from_left_lem}
use cpp_lkm.Core.Btree.Delete.GiveRight.{give_from_right_lem}
use cpp_lkm.Core.Btree.Delete.Merging.{merge_lem}
use cpp_lkm.Core.Btree.Delete.Moved.{second_given, first_given, second_merged, first_merged}
use cpp_lkm.Core.Btree.Delete.Pair.{Balanced, merge_at_alone, first_view}
use cpp_lkm.Core.Btree.Delete.Split.{
  Siblings, before_first, behind_first, before_second, behind_second,
}
use cpp_lkm.Core.Btree.Insert.{entries_of}
use cpp_lkm.Core.Btree.Insert.Rounds.{IsNode-at_least, IsNode-least}
use cpp_lkm.Core.Btree.Shape.{weave, follow, entries, IsNode, to_list-from_list}

module _ {ℓ} {V : Type ℓ} where
  -- a statement on a node, from the one on its parts
  pub from_siblings :
      {t height : ℕ} {es : List (ℕ × V)} {nodes : Nodes V} {j : ℕ}
      (P : List (ℕ × V) → Nodes V → ℕ → Type ℓ) (s : Siblings t height es nodes j)
      → P (s.E ++ (s.e ∷ s.F)) (from_list (s.C ++ (s.l ∷ s.r ∷ s.D))) (length s.E)
      → P es nodes j
  from_siblings {nodes = nodes} {j = j} P s p =
      subst (λ x. P x nodes j) (sym s.es_is)
        (subst (λ x. P (s.E ++ (s.e ∷ s.F)) x j) (sym s.nodes_is)
          (subst (λ x. P (s.E ++ (s.e ∷ s.F)) (from_list (s.C ++ (s.l ∷ s.r ∷ s.D))) x) (sym s.j_is)
            p))

  -- what a step to a child at an index needs, at the places of the node itself
  abbrev pub BalancedAt :
      ℕ → ℕ → ℕ → Node V → ℕ → List (ℕ × V) → Nodes V → Node V × Option ℕ → Type ℓ
  BalancedAt t least height child i es nodes r =
      Balanced t least height child (before (to_list nodes) es i) (behind (to_list nodes) es i) r

  -- the node became the child that its last two were merged into
  pub record Collapsed (t height : ℕ) (self : Node V) (r : Node V × Option ℕ) : Type ℓ where
    pub merged : Node V
    pub result : r ≡ (merged, none)
    pub shape : IsNode t t height merged
    pub whole : entries merged ≡ entries self

  weave-nothing :
      (C : List (Node V)) (E : List (ℕ × V))
      → length E ≡ 0
      → length C ≡ length E
      → weave (map entries C) E ≡ []
  weave-nothing [] [] h k = refl
  weave-nothing [] (e ∷ E) h k = absurd (omega arith)
  weave-nothing (c ∷ C) E h k = absurd (omega arith)

  follow-nothing :
      (D : List (Node V)) (F : List (ℕ × V))
      → length F ≡ 0
      → length D ≡ length F
      → follow (map entries D) F ≡ []
  follow-nothing [] [] h k = refl
  follow-nothing D (f ∷ F) h k = absurd (omega arith)
  follow-nothing (d ∷ D) F h k = absurd (omega arith)

  module _ {t height : ℕ} {es : List (ℕ × V)} {nodes : Nodes V} {j : ℕ}
      (s : Siblings t height es nodes j) where
    second_place :
        (least : ℕ) (r : Node V × Option ℕ)
        → Balanced t least height s.r
            (weave (map entries s.C) s.E ++ (entries s.l ++ (s.e ∷ [])))
            (follow (map entries s.D) s.F)
            r
        → BalancedAt t least height s.r
            (suc (length s.E))
            (s.E ++ (s.e ∷ s.F))
            (from_list (s.C ++ (s.l ∷ s.r ∷ s.D)))
            r
    second_place least r b =
        subst
          (λ list.
            Balanced t least height s.r (before list (s.E ++ (s.e ∷ s.F)) (suc (length s.E)))
              (behind list (s.E ++ (s.e ∷ s.F)) (suc (length s.E))) r)
          (sym (to_list-from_list (s.C ++ (s.l ∷ s.r ∷ s.D))))
          (subst
            (λ x.
              Balanced t least height s.r x
                (behind (s.C ++ (s.l ∷ s.r ∷ s.D)) (s.E ++ (s.e ∷ s.F)) (suc (length s.E))) r)
            (sym (before_second s.C s.E s.l s.e s.r s.D s.F s.h_c))
            (subst
              (λ x.
                Balanced t least height s.r
                  (weave (map entries s.C) s.E ++ (entries s.l ++ (s.e ∷ []))) x r)
              (sym (behind_second s.C s.E s.l s.e s.r s.D s.F s.h_c)) b))

    first_place :
        (least : ℕ) (r : Node V × Option ℕ)
        → Balanced t least height s.l
            (weave (map entries s.C) s.E)
            (s.e ∷ (entries s.r ++ follow (map entries s.D) s.F))
            r
        → BalancedAt t least height s.l
            (length s.E)
            (s.E ++ (s.e ∷ s.F))
            (from_list (s.C ++ (s.l ∷ s.r ∷ s.D)))
            r
    first_place least r b =
        subst
          (λ list.
            Balanced t least height s.l (before list (s.E ++ (s.e ∷ s.F)) (length s.E))
              (behind list (s.E ++ (s.e ∷ s.F)) (length s.E)) r)
          (sym (to_list-from_list (s.C ++ (s.l ∷ s.r ∷ s.D))))
          (subst
            (λ x.
              Balanced t least height s.l x
                (behind (s.C ++ (s.l ∷ s.r ∷ s.D)) (s.E ++ (s.e ∷ s.F)) (length s.E)) r)
            (sym (before_first s.C s.E s.l s.e s.r s.D s.F s.h_c))
            (subst (λ x. Balanced t least height s.l (weave (map entries s.C) s.E) x r)
              (sym (behind_first s.C s.E s.l s.e s.r s.D s.F s.h_c)) b))

    pub keys_size : length es ≡ length s.E + length s.F + 1
    keys_size = ap length s.es_is ∙ omega (arith, length-append s.E (s.e ∷ s.F))

    module _ (least : ℕ) (degree : 2 ≤ t) (low : least ≤ length es)
        (high : length es ≤ 2 * t - 1) where
      pub give_second :
          t ≤ length (entries_of s.l)
          → length (entries_of s.r) < t
          → BalancedAt t least height s.r
              (suc j)
              es
              nodes
              (give_at true j (btree_node false es nodes), some (suc j))
      give_second rich poor =
          from_siblings
            (λ x ns i.
              BalancedAt t least height s.r (suc i) x ns
                (give_at true i (btree_node false x ns), some (suc i)))
            s
            (second_place least _ (
              second_given s.C s.E s.D s.F s.h_c s.h_d t least height degree
                (omega (arith, keys_size)) (omega (arith, keys_size)) s.all_c s.all_d s.l s.e s.r
                (give_from_left_lem t height s.l s.e s.r degree
                  (IsNode-least t (t - 1) t height s.l s.is_l rich) s.is_r poor)))

      pub give_first :
          length (entries_of s.l) < t
          → t ≤ length (entries_of s.r)
          → BalancedAt t least height s.l j es nodes
              (give_at false j (btree_node false es nodes), some j)
      give_first poor rich =
          from_siblings
            (λ x ns i.
              BalancedAt t least height s.l i x ns
                (give_at false i (btree_node false x ns), some i))
            s
            (first_place least _ (
              first_given s.C s.E s.D s.F s.h_c s.h_d t least height degree
                (omega (arith, keys_size)) (omega (arith, keys_size)) s.all_c s.all_d s.l s.e s.r
                (give_from_right_lem t height s.l s.e s.r degree s.is_l
                  (IsNode-least t (t - 1) t height s.r s.is_r rich) poor)))

      -- the two siblings with the fewest entries, as one node
      pub merged_shape :
          length (entries_of s.l) < t
          → length (entries_of s.r) < t
          → IsNode t t height (merge s.l s.e s.r)
            × (entries (merge s.l s.e s.r) ≡ entries s.l ++ (s.e ∷ entries s.r))
      merged_shape poor poor' =
          let m = merge_lem t height s.l s.e s.r degree s.is_l s.is_r poor poor' in
          (
            IsNode-least t (2 * t - 1) t height (merge s.l s.e s.r) m.shape
                (omega (arith, IsNode-at_least t (2 * t - 1) height (merge s.l s.e s.r) m.shape)),
            m.whole,
          )

      pub merge_second :
          2 ≤ length es
          → suc least ≤ length es
          → length (entries_of s.l) < t
          → length (entries_of s.r) < t
          → BalancedAt t least height s.r (suc j) es nodes (merge_at j (btree_node false es nodes))
      merge_second some_left spare poor poor' =
          let (shape, whole) = merged_shape poor poor' in
          from_siblings
            (λ x ns i.
              BalancedAt t least height s.r (suc i) x ns (merge_at i (btree_node false x ns)))
            s
            (second_place least _ (
              second_merged s.C s.E s.D s.F s.h_c s.h_d t least height degree
                (omega (arith, keys_size)) (omega (arith, keys_size)) s.all_c s.all_d s.l s.e s.r
                (omega (arith, keys_size)) (omega (arith, keys_size)) shape whole))

      pub merge_first :
          2 ≤ length es
          → suc least ≤ length es
          → length (entries_of s.l) < t
          → length (entries_of s.r) < t
          → BalancedAt t least height s.l j es nodes (merge_at j (btree_node false es nodes))
      merge_first some_left spare poor poor' =
          let (shape, whole) = merged_shape poor poor' in
          from_siblings
            (λ x ns i. BalancedAt t least height s.l i x ns (merge_at i (btree_node false x ns))) s
            (first_place least _ (
              first_merged s.C s.E s.D s.F s.h_c s.h_d t least height degree
                (omega (arith, keys_size)) (omega (arith, keys_size)) s.all_c s.all_d s.l s.e s.r
                (omega (arith, keys_size)) (omega (arith, keys_size)) shape whole))

      -- the last entry goes down, and the node takes the place of its only child
      pub merge_last :
          length es ≡ 1
          → length (entries_of s.l) < t
          → length (entries_of s.r) < t
          → Collapsed t height (btree_node false es nodes) (merge_at j (btree_node false es nodes))
      merge_last one poor poor' =
          let (shape, whole) = merged_shape poor poor' in
          from_siblings
            (λ x ns i.
              Collapsed t height (btree_node false x ns) (merge_at i (btree_node false x ns)))
            s
            (record {
              merged = merge s.l s.e s.r;
              result =
                  merge_at_alone s.C s.E s.D s.F s.h_c s.h_d s.l s.e s.r (omega (arith, keys_size));
              shape = shape;
              whole =
                  whole
                  ∙ ap (λ x. entries s.l ++ (s.e ∷ x)) (sym (append-nil (entries s.r)))
                  ∙ sym (
                      (first_view s.C s.E s.D s.F s.h_c s.h_d t 0 height s.l s.e s.r (omega arith)
                        (omega (arith, keys_size)) s.all_c s.all_d s.is_r).whole
                      ∙ ap₂ (λ x y. x ++ (entries s.l ++ (s.e ∷ (entries s.r ++ y))))
                          (weave-nothing s.C s.E (omega (arith, keys_size)) s.h_c)
                          (follow-nothing s.D s.F (omega (arith, keys_size)) s.h_d));
            })
