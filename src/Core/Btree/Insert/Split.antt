-- ===== src/Core/Btree/Insert/Split.antt =====
-- core/btree.h: `SplitChild` on the child that it splits, and on the node above.
use cpp_lkm.Prelude.{
  ℕ, zero, suc, ◌+◌, ◌-◌, ◌*◌, ◌≤◌, ◌≡◌, inl, inr, refl, sym, ap, ap₂, ◌∙◌, subst, true, false,
  List, [], ◌∷◌, ◌++◌, append_assoc, append-nil, some, map, length, length-map, length-take,
  length-drop, List-cases, All, All-take, All-drop, arith, take, drop, take-all, take-append-drop,
}
use cpp_lkm.Core.Btree.{Node, Nodes, btree_node, no_nodes, to_list, from_list}
use cpp_lkm.Core.Btree.Around.{map-append, entries-list, entries-from_list}
use cpp_lkm.Core.Btree.Insert.{entries_of, halves}
use cpp_lkm.Core.Btree.Shape.{weave, entries, IsNode, to_list-from_list}

module _ {ℓ} {V : Type ℓ} where
  -- a node in two, around one of its entries
  pub weave-halves :
      (c d : List (List (ℕ × V))) (es : List (ℕ × V)) (mid : ℕ × V) (fs : List (ℕ × V))
      → length c ≡ suc (length es)
      → weave (c ++ d) (es ++ (mid ∷ fs)) ≡ weave c es ++ (mid ∷ weave d fs)
  weave-halves [] d es mid fs h = absurd (omega arith)
  weave-halves (u ∷ []) d [] mid fs h = ap (λ t. t ++ (mid ∷ weave d fs)) (sym (append-nil u))
  weave-halves (u ∷ v ∷ c) d [] mid fs h = absurd (omega arith)
  weave-halves (u ∷ c) d (e ∷ es) mid fs h =
      ap (λ t. u ++ (e ∷ t)) (weave-halves c d es mid fs (omega arith))
      ∙ sym (append_assoc u (e ∷ weave c es) (mid ∷ weave d fs))

  -- What a full child becomes: two nodes of the least size at its height, and an entry between.
  pub record Halves (t height : ℕ) (n : Node V) : Type ℓ where
    pub left : Node V
    pub mid : ℕ × V
    pub right : Node V
    pub split : halves t n ≡ some (left, mid, right)
    pub left_shape : IsNode t (t - 1) height left
    pub right_shape : IsNode t (t - 1) height right
    pub left_size : length (entries_of left) ≡ t - 1
    pub right_size : length (entries_of right) ≡ t - 1
    pub same : entries n ≡ entries left ++ (mid ∷ entries right)

  split_leaf :
      (t : ℕ) (es : List (ℕ × V)) (mid : ℕ × V) (rest : List (ℕ × V))
      → 2 ≤ t
      → length es ≡ 2 * t - 1
      → drop (t - 1) es ≡ mid ∷ rest
      → Halves t 0 (btree_node true es no_nodes)
  unfolding halves entries
  split_leaf t es mid rest degree full cut =
      let size : length rest ≡ t - 1 = omega (arith, length-drop (t - 1) es, ap length cut) in
      let left_size : length (take (t - 1) es) ≡ t - 1 = omega (arith, length-take (t - 1) es) in
      record {
        left = btree_node true (take (t - 1) es) no_nodes;
        mid = mid;
        right = btree_node true rest no_nodes;
        split = rw (cut, halves, take-all (t - 1) rest (omega arith)) refl;
        left_shape = (refl, refl, omega arith, omega arith);
        right_shape = (refl, refl, omega arith, omega arith);
        left_size = left_size;
        right_size = size;
        same = sym (take-append-drop (t - 1) es) ∙ ap (λ x. take (t - 1) es ++ x) cut;
      }

  split_inner :
      (t height : ℕ) (es : List (ℕ × V)) (nodes : Nodes V) (mid : ℕ × V) (rest : List (ℕ × V))
      → 2 ≤ t
      → length es ≡ 2 * t - 1
      → length (to_list nodes) ≡ length es + 1
      → All (IsNode t (t - 1) height) (to_list nodes)
      → drop (t - 1) es ≡ mid ∷ rest
      → Halves t (suc height) (btree_node false es nodes)
  unfolding halves
  split_inner t height es nodes mid rest degree full count children cut =
      let list = to_list nodes in
      let size : length rest ≡ t - 1 = omega (arith, length-drop (t - 1) es, ap length cut) in
      let left_size : length (take (t - 1) es) ≡ t - 1 = omega (arith, length-take (t - 1) es) in
      let all_right : take t (drop t list) ≡ drop t list =
        take-all t (drop t list) (omega (arith, length-drop t list)) in
      let IsChild : Node V → Type ℓ = IsNode t (t - 1) height in
      record {
        left = btree_node false (take (t - 1) es) (from_list (take t list));
        mid = mid;
        right = btree_node false rest (from_list (drop t list));
        split = rw (cut, halves, take-all (t - 1) rest (omega arith), all_right) refl;
        left_shape = (
          refl,
          ap length (to_list-from_list (take t list)) ∙ omega (arith, length-take t list),
          omega arith,
          omega arith,
          subst (All IsChild) (sym (to_list-from_list (take t list)))
              (All-take IsChild t list children),
        );
        right_shape = (
          refl,
          ap length (to_list-from_list (drop t list)) ∙ omega (arith, length-drop t list),
          omega arith,
          omega arith,
          subst (All IsChild) (sym (to_list-from_list (drop t list)))
              (All-drop IsChild t list children),
        );
        left_size = left_size;
        right_size = size;
        same =
            entries-list false es nodes
            ∙ ap₂ (λ c e. weave (map entries c) e) (sym (take-append-drop t list))
                (sym (take-append-drop (t - 1) es) ∙ ap (λ x. take (t - 1) es ++ x) cut)
            ∙ ap (λ c. weave c (take (t - 1) es ++ (mid ∷ rest)))
                (map-append (take t list) (drop t list))
            ∙ weave-halves (map entries (take t list)) (map entries (drop t list)) (take (t - 1) es)
                mid rest (omega (arith, length-map (take t list) entries, length-take t list))
            ∙ sym (
                ap₂ (λ x y. x ++ (mid ∷ y))
                  (entries-from_list false (take (t - 1) es) (take t list))
                  (entries-from_list false rest (drop t list)));
      }

  -- A full node of the shape of a B-tree is split.
  pub halves_lem :
      (t least height : ℕ) (n : Node V)
      → 2 ≤ t
      → IsNode t least height n
      → length (entries_of n) ≡ 2 * t - 1
      → Halves t height n
  halves_lem t least zero (btree_node leaf es nodes) degree shape full =
      elim (List-cases (drop (t - 1) es)) [
        | inl nothing ↦ absurd (omega (arith, length-drop (t - 1) es, ap length nothing))
        | inr (mid, rest, cut) ↦
            subst (λ l. Halves t 0 (btree_node l es nodes)) (sym shape.0)
              (subst (λ ns. Halves t 0 (btree_node true es ns)) (sym shape.1)
                (split_leaf t es mid rest degree full cut))
      ]
  halves_lem t least (suc height) (btree_node leaf es nodes) degree shape full =
      elim (List-cases (drop (t - 1) es)) [
        | inl nothing ↦ absurd (omega (arith, length-drop (t - 1) es, ap length nothing))
        | inr (mid, rest, cut) ↦
            subst (λ l. Halves t (suc height) (btree_node l es nodes)) (sym shape.0)
              (split_inner t height es nodes mid rest degree full shape.1 shape.4 cut)
      ]
