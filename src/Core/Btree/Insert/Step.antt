-- ===== src/Core/Btree/Insert/Step.antt =====
-- core/btree.h: the rounds of `InsertNonFull`: a leaf, a step to a child, a split.
use cpp_lkm.Prelude.{
  ℕ, suc, ◌-◌, ◌*◌, ◌≤◌, ◌<◌, ◌≡◌, ◌≢◌, ◌⊎◌, inl, inr, refl, sym, ap, ◌∙◌, subst, Bool, true, false,
  List, ◌++◌, none, some, length, length-set, All, All-set, arith, get_elem?, set, get-inside,
}
use cpp_lkm.Core.Btree.{
  Node, Nodes, btree_node, no_nodes, to_list, from_list, key_at, find_key_index, get_key_index,
}
use cpp_lkm.Core.Btree.Around.{before, behind, entries_around, entries_changed}
use cpp_lkm.Core.Btree.Insert.{entries_of, is_full, insert_non_full}
use cpp_lkm.Core.Btree.Insert.Above.{length-put_at}
use cpp_lkm.Core.Btree.Entries.{
  child_alone, find-entry, node-IsSorted, node-IsPlace, strictly_above,
}
use cpp_lkm.Core.Btree.Order.{
  Ascends, find, put, find-skip, find-cut, put-skip, put-cut, put-place, take-AllBelow,
  drop-AllAbove, key_at-get,
}
use cpp_lkm.Core.Btree.Search.{get_key_index_lem}
use cpp_lkm.Core.Btree.Shape.{entries, entries_under, IsNode, to_list-from_list}

module _ {ℓ} {V : Type ℓ} where
  -- a key that the tree does not hold is not in the node
  pub absent_lem :
      (key : ℕ) (leaf : Bool) (es : List (ℕ × V)) (nodes : Nodes V)
      → Ascends (entries (btree_node leaf es nodes))
      → find key (entries (btree_node leaf es nodes)) ≡ none
      → (get_key_index es key ≡ none) × ((i : ℕ) → i < length es → key_at es i ≢ key)
  unfolding entries
  absent_lem key leaf es nodes order absent =
      elim (get_key_index_lem es key (node-IsSorted leaf es nodes order)) [
        | inr there ↦ there
        | inl (i, _, inside, same) ↦
            let (e, found) = get-inside es i inside in
            let is_e : e.0 ≡ key = sym (key_at-get es i e found) ∙ same in
            let held = find-entry (entries_under nodes) es i e order found in
            absurd (cc (held, absent, is_e))
      ]

  pub not_full : (t : ℕ) (n : Node V) → length (entries_of n) < 2 * t - 1 → is_full t n ≡ false
  unfolding is_full
  not_full t n h = ground arith

module _ {ℓ} {V : Type ℓ} (t : ℕ) (degree : 2 ≤ t) (memory : ℕ → Bool) (key : ℕ) (value : V) where
  -- What an insertion makes of a node: the shape is kept; the entry is put among the entries, or
  -- they are as before, which needs an allocation that fails.
  pub record Inserted (least height : ℕ) (n : Node V) (r : Bool × Node V) : Type ℓ where
    pub shape : IsNode t least height r.1
    pub outcome :
        ((r.0 ≡ true) × (entries r.1 ≡ put key value (entries n)))
        ⊎ ((r.0 ≡ false) × (entries r.1 ≡ entries n))
    pub done : ((m : ℕ) → memory m ≡ true) → r.0 ≡ true

  pub leaf_round :
      (least fuel n : ℕ) (es : List (ℕ × V))
      → IsNode t least 0 (btree_node true es no_nodes)
      → length es < 2 * t - 1
      → Ascends es
      → find key es ≡ none
      → Inserted least 0
          (btree_node true es no_nodes)
          (insert_non_full t memory (suc fuel) n key value (btree_node true es no_nodes))
  unfolding insert_non_full entries
  leaf_round least fuel n es shape room order absent =
      let (no_index, other) = absent_lem key true es no_nodes order absent in
      let i = find_key_index es key in
      let place = node-IsPlace key true es no_nodes order in
      let sorted = node-IsSorted true es no_nodes order in
      let size = length-put_at i (key, value) es place.inside in
      let above = strictly_above es key i sorted place (other i) in
      rw (no_index, insert_non_full)
        (record {
          shape = (refl, refl, omega (arith, size, shape.2), omega (arith, size));
          outcome = inl (
            refl,
            sym (
                put-place key value es i (take-AllBelow key es i place.below)
                  (drop-AllAbove key es i above)),
          );
          done = λ enough. refl;
        })

  -- a step to a child that is not full
  pub descend :
      (least height fuel n : ℕ) (es : List (ℕ × V)) (nodes : Nodes V) (child : Node V)
      → let i = find_key_index es key in
        let r = insert_non_full t memory fuel n key value child in
        IsNode t least (suc height) (btree_node false es nodes)
        → Ascends (entries (btree_node false es nodes))
        → find key (entries (btree_node false es nodes)) ≡ none
        → get_elem? (to_list nodes) i ≡ some child
        → length (entries_of child) < 2 * t - 1
        → (Ascends (entries child)
            → find key (entries child) ≡ none
            → Inserted (t - 1) height child r)
        → Inserted least
            (suc height)
            (btree_node false es nodes)
            (insert_non_full t memory (suc fuel) n key value (btree_node false es nodes))
  unfolding insert_non_full
  descend least height fuel n es nodes child shape order absent found room inner =
      let i = find_key_index es key in
      let list = to_list nodes in
      let r = insert_non_full t memory fuel n key value child in
      let (no_index, other) = absent_lem key false es nodes order absent in
      let place = node-IsPlace key false es nodes order in
      let (below, above, child_order) =
        child_alone key false es nodes child order shape.1 found (other i) in
      let front = before list es i in
      let back = behind list es i in
      let split = entries_around false es nodes i child place.inside found in
      let child_absent : find key (entries child) ≡ none =
        sym (
          ap (find key) split
          ∙ find-skip key front (entries child ++ back) below
          ∙ find-cut key (entries child) back above)
        ∙ absent in
      let inserted = inner child_order child_absent in
      let changed =
        entries_changed false es nodes i r.1 place.inside (omega (arith, place.inside, shape.1)) in
      let IsChild : Node V → Type ℓ = IsNode t (t - 1) height in
      let result : Inserted least (suc height) (btree_node false es nodes)
          (r.0, btree_node false es (from_list (set list i r.1))) =
        record {
          shape = (
            refl,
            ap length (to_list-from_list (set list i r.1)) ∙ length-set list i r.1 ∙ shape.1,
            shape.2,
            shape.3,
            subst (All IsChild) (sym (to_list-from_list (set list i r.1)))
                (All-set IsChild list i r.1 shape.4 inserted.shape),
          );
          outcome = elim inserted.outcome [
            | inl (done, same) ↦ inl (
              done,
              changed
                  ∙ ap (λ x. front ++ (x ++ back)) same
                  ∙ ap (λ x. front ++ x) (sym (put-cut key value (entries child) back above))
                  ∙ sym (put-skip key value front (entries child ++ back) below)
                  ∙ ap (put key value) (sym split),
            )
            | inr (failed, same) ↦
                inr (failed, changed ∙ ap (λ x. front ++ (x ++ back)) same ∙ sym split)
          ];
          done = inserted.done;
        } in
      rw (no_index, found, not_full t child room, insert_non_full) result
