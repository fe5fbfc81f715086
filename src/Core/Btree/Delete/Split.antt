-- ===== src/Core/Btree/Delete/Split.antt =====
-- core/btree.h: two siblings of a node, found at their index, and what `ChildBalance` does with them.
use cpp_lkm.Prelude.{
  ℕ, suc, ◌-◌, ◌≤◌, ◌<◌, ◌≡◌, refl, sym, ap, ap₂, ◌∙◌, subst, false, List, [], ◌∷◌, ◌++◌,
  append_assoc, some, map, length, length-map, length-append, length-take, length-drop, All,
  All-take, All-drop, All-get, All-set, arith, take, drop, take-append, drop-append, get_elem?, set,
  get-inside, get-split, drop-get, inside-get, length-set,
}
use cpp_lkm.Core.Btree.{Node, Nodes, btree_node, no_nodes, ◌▸◌, to_list, from_list}
use cpp_lkm.Core.Btree.Around.{before, behind, map-append, entries_around, entries_changed}
use cpp_lkm.Core.Btree.Delete.{change_child}
use cpp_lkm.Core.Btree.Delete.View.{View}
use cpp_lkm.Core.Btree.Shape.{
  weave, follow, entries, IsNode, to_list-from_list, weave-append, weave-follow,
}

module _ {ℓ} {V : Type ℓ} where
  from_list-to_list : (nodes : Nodes V) → from_list (to_list nodes) ≡ nodes
  from_list-to_list no_nodes = refl
  from_list-to_list (n ▸ nodes) = ap (λ t. n ▸ t) (from_list-to_list nodes)

  -- a node around its child at an index
  pub view_at :
      (t least height : ℕ) (es : List (ℕ × V)) (nodes : Nodes V) (i : ℕ) (child : Node V)
      → IsNode t least (suc height) (btree_node false es nodes)
      → i ≤ length es
      → get_elem? (to_list nodes) i ≡ some child
      → View t least height
          (btree_node false es nodes)
          i
          child
          (before (to_list nodes) es i)
          (behind (to_list nodes) es i)
  unfolding change_child
  view_at t least height es nodes i child shape inside found = record {
    there = found;
    whole = entries_around false es nodes i child inside found;
    shape = λ c c_shape. (
      refl,
      ap length (to_list-from_list (set (to_list nodes) i c))
          ∙ length-set (to_list nodes) i c
          ∙ shape.1,
      shape.2,
      shape.3,
      subst (All (IsNode t (t - 1) height)) (sym (to_list-from_list (set (to_list nodes) i c)))
          (All-set (IsNode t (t - 1) height) (to_list nodes) i c shape.4 c_shape),
    );
    changed =
        λ c. entries_changed false es nodes i c inside (inside-get (to_list nodes) i child found);
  }

  -- the parts of a node around the siblings at an index and the next
  pub record Siblings (t height : ℕ) (es : List (ℕ × V)) (nodes : Nodes V) (j : ℕ) : Type ℓ where
    pub C : List (Node V)
    pub E : List (ℕ × V)
    pub l : Node V
    pub e : ℕ × V
    pub r : Node V
    pub D : List (Node V)
    pub F : List (ℕ × V)
    pub es_is : es ≡ E ++ (e ∷ F)
    pub nodes_is : nodes ≡ from_list (C ++ (l ∷ r ∷ D))
    pub j_is : j ≡ length E
    pub h_c : length C ≡ length E
    pub h_d : length D ≡ length F
    pub all_c : All (IsNode t (t - 1) height) C
    pub all_d : All (IsNode t (t - 1) height) D
    pub is_l : IsNode t (t - 1) height l
    pub is_r : IsNode t (t - 1) height r
    pub at_l : get_elem? (to_list nodes) j ≡ some l
    pub at_r : get_elem? (to_list nodes) (suc j) ≡ some r

  pub pair_parts :
      (t least height : ℕ) (es : List (ℕ × V)) (nodes : Nodes V) (j : ℕ)
      → IsNode t least (suc height) (btree_node false es nodes)
      → j < length es
      → Siblings t height es nodes j
  pair_parts t least height es nodes j shape inside =
      let list = to_list nodes in
      let IsChild : Node V → Type ℓ = IsNode t (t - 1) height in
      let (e, at_e) = get-inside es j inside in
      let (l, at_l) = get-inside list j (omega (arith, shape.1)) in
      let (r, at_r) = get-inside list (suc j) (omega (arith, shape.1)) in
      record {
        C = take j list;
        E = take j es;
        l = l;
        e = e;
        r = r;
        D = drop (suc (suc j)) list;
        F = drop (suc j) es;
        es_is = get-split es j e at_e;
        nodes_is =
            sym (from_list-to_list nodes)
            ∙ ap from_list (
                get-split list j l at_l
                ∙ ap (λ x. take j list ++ (l ∷ x)) (drop-get list (suc j) r at_r));
        j_is = omega (arith, length-take j es);
        h_c = omega (arith, length-take j es, length-take j list, shape.1);
        h_d = omega (arith, length-drop (suc (suc j)) list, length-drop (suc j) es, shape.1);
        all_c = All-take IsChild j list shape.4;
        all_d = All-drop IsChild (suc (suc j)) list shape.4;
        is_l = All-get IsChild list j l shape.4 at_l;
        is_r = All-get IsChild list (suc j) r shape.4 at_r;
        at_l = at_l;
        at_r = at_r;
      }

  -- what stands before and behind the siblings
  module _ (C : List (Node V)) (E : List (ℕ × V)) (l : Node V) (e : ℕ × V) (r : Node V)
      (D : List (Node V)) (F : List (ℕ × V)) (h_c : length C ≡ length E) where
    abbrev list : List (Node V)
    list = C ++ (l ∷ r ∷ D)

    abbrev keys : List (ℕ × V)
    keys = E ++ (e ∷ F)

    pub before_first : before list keys (length E) ≡ weave (map entries C) E
    before_first =
        ap₂ (λ c x. weave (map entries c) x) (take-append (length E) C (l ∷ r ∷ D) h_c)
          (take-append (length E) E (e ∷ F) refl)

    pub behind_second : behind list keys (suc (length E)) ≡ follow (map entries D) F
    behind_second =
        ap₂ (λ c x. follow (map entries c) x)
          (ap (drop (suc (suc (length E)))) (sym (append_assoc C (l ∷ r ∷ []) D))
            ∙ drop-append (suc (suc (length E))) (C ++ (l ∷ r ∷ [])) D
                (omega (arith, length-append C (l ∷ r ∷ []))))
          (ap (drop (suc (length E))) (sym (append_assoc E (e ∷ []) F))
            ∙ drop-append (suc (length E)) (E ++ (e ∷ [])) F
                (omega (arith, length-append E (e ∷ []))))

    pub before_second :
        before list keys (suc (length E)) ≡ weave (map entries C) E ++ (entries l ++ (e ∷ []))
    before_second =
        ap₂ (λ c x. weave (map entries c) x)
          (ap (take (suc (length E))) (sym (append_assoc C (l ∷ []) (r ∷ D)))
            ∙ take-append (suc (length E)) (C ++ (l ∷ [])) (r ∷ D)
                (omega (arith, length-append C (l ∷ []))))
          (ap (take (suc (length E))) (sym (append_assoc E (e ∷ []) F))
            ∙ take-append (suc (length E)) (E ++ (e ∷ [])) F
                (omega (arith, length-append E (e ∷ []))))
        ∙ ap (λ c. weave c (E ++ (e ∷ []))) (map-append C (l ∷ []))
        ∙ weave-append (map entries C) (entries l ∷ []) E (e ∷ []) (length-map C entries ∙ h_c)

    pub behind_first : behind list keys (length E) ≡ e ∷ (entries r ++ follow (map entries D) F)
    behind_first =
        ap₂ (λ c x. follow (map entries c) x)
          (ap (drop (suc (length E))) (sym (append_assoc C (l ∷ []) (r ∷ D)))
            ∙ drop-append (suc (length E)) (C ++ (l ∷ [])) (r ∷ D)
                (omega (arith, length-append C (l ∷ []))))
          (drop-append (length E) E (e ∷ F) refl)
        ∙ ap (λ x. e ∷ x) (weave-follow (entries r) (map entries D) F)
