-- ===== src/Core/Btree/Delete/Step.antt =====
-- core/btree.h: `Delete` from a node of any height.
use cpp_lkm.Prelude.{
  ℕ, zero, suc, ◌-◌, ◌*◌, ◌≤◌, ◌<◌, ◌≡◌, ◌≢◌, inl, inr, refl, sym, ap, ◌∙◌, subst, Bool, true,
  false, List, ◌++◌, Option, none, some, length, All-left, All-right, arith, get_elem?, get-inside,
}
use cpp_lkm.Core.Btree.{
  Node, Nodes, btree_node, no_nodes, ◌▸◌, to_list, key_at, get_key_index, find_key_index,
}
use cpp_lkm.Core.Btree.Around.{before, behind, entries_around}
use cpp_lkm.Core.Btree.Delete.{child_balance, go_on, delete_from}
use cpp_lkm.Core.Btree.Delete.Balance.{BalancedAt, Collapsed}
use cpp_lkm.Core.Btree.Delete.Cases.{child_balance_lem}
use cpp_lkm.Core.Btree.Delete.Round.{Deleted, view-Deleted}
use cpp_lkm.Core.Btree.Delete.Found.{Outcome, found_lem}
use cpp_lkm.Core.Btree.Delete.Hit.{Deletes, go_on_lem, key_at-middle}
use cpp_lkm.Core.Btree.Delete.Split.{pair_parts}
use cpp_lkm.Core.Btree.Delete.Walk.{child_order, whole-Balanced}
use cpp_lkm.Core.Btree.Delete.Without.{delete_leaf_lem}
use cpp_lkm.Core.Btree.Entries.{node-IsSorted, node-IsPlace, child_alone}
use cpp_lkm.Core.Btree.Insert.Rounds.{IsNode-least}
use cpp_lkm.Core.Btree.Order.{AllBelow, AllAbove, Ascends}
use cpp_lkm.Core.Btree.Search.{get_key_index_lem}
use cpp_lkm.Core.Btree.Shape.{entries, IsNode}

module _ {ℓ} {V : Type ℓ} (t : ℕ) (degree : 2 ≤ t) (height fuel : ℕ) (enough : height < fuel)
    (rest : Deletes V t height fuel) (least : ℕ) (es : List (ℕ × V)) (nodes : Nodes V)
    (shape : IsNode t least (suc height) (btree_node false es nodes)) (some_keys : 1 ≤ length es)
    (spare : 2 ≤ length es → suc least ≤ length es)
    (order : Ascends (entries (btree_node false es nodes))) where
  abbrev node : Node V
  node = btree_node false es nodes

  abbrev Ends : ℕ → Bool × Node V → Type ℓ
  Ends = Outcome t degree height fuel enough rest least es nodes shape some_keys spare order

  by_child :
      (key : ℕ)
      → get_key_index es key ≡ none
      → delete_from t (suc fuel) key node
        ≡ go_on t (delete_from t fuel key) (child_balance t (find_key_index es key) node)
  unfolding delete_from
  by_child key missing = rw (missing, delete_from) refl

  -- below a child that has an entry to spare
  balanced_round :
      (key i : ℕ) (child : Node V)
      → i ≤ length es
      → get_elem? (to_list nodes) i ≡ some child
      → AllBelow key (before (to_list nodes) es i)
      → AllAbove key (behind (to_list nodes) es i)
      → BalancedAt t least height child i es nodes (child_balance t i node)
      → Deleted t least
          (suc height)
          key
          (entries node)
          (go_on t (delete_from t fuel key) (child_balance t i node))
  balanced_round key i child inside found below above b =
      let whole = entries_around false es nodes i child inside found ∙ whole-Balanced b in
      let below' =
        All-left (λ (x : ℕ × V). x.0 < key) b.front' b.more_front
          (subst (AllBelow key) b.front_is below) in
      let above' =
        All-right (λ (x : ℕ × V). key < x.0) b.more_back b.back'
          (subst (AllAbove key) b.back_is above) in
      let part_order = child_order b.front' (entries b.part) b.back' (subst Ascends whole order) in
      subst
        (λ x.
          Deleted t least (suc height) key x
            (go_on t (delete_from t fuel key) (child_balance t i node)))
        (sym whole)
        (subst (Deleted t least (suc height) key (b.front' ++ (entries b.part ++ b.back')))
          (sym (
            ap (go_on t (delete_from t fuel key)) b.result
            ∙ go_on_lem t (delete_from t fuel key) b.self b.index b.part b.view.there))
          (view-Deleted b.view below' above' (rest key b.part b.rich part_order)))

  -- from the child that took the place of the node
  by_only_child :
      (key : ℕ) (r : Node V × Option ℕ)
      → Collapsed t height node r
      → Deleted t (t - 1) height key (entries node) (go_on t (delete_from t fuel key) r)
  unfolding go_on
  by_only_child key r c =
      subst (λ p. Deleted t (t - 1) height key (entries node) (go_on t (delete_from t fuel key) p))
        (sym c.result)
        (subst (λ x. Deleted t (t - 1) height key x (delete_from t fuel key c.merged)) c.whole
          (rest key c.merged c.shape (subst Ascends (sym c.whole) order)))

  missing_lem :
      (key : ℕ)
      → get_key_index es key ≡ none
      → ((i : ℕ) → i < length es → key_at es i ≢ key)
      → Ends key (delete_from t (suc fuel) key node)
  missing_lem key missing other =
      let i = find_key_index es key in
      let place = node-IsPlace key false es nodes order in
      let (child, found) = get-inside (to_list nodes) i (omega (arith, place.inside, shape.1)) in
      let (below, above, _) =
        child_alone key false es nodes child order shape.1 found (λ inside. other i inside) in
      subst (Ends key) (sym (by_child key missing))
        (elim (child_balance_lem t es nodes least height degree shape some_keys spare i child
          place.inside found) [
            | inl b ↦ inl (balanced_round key i child place.inside found below above b)
            | inr (one, c) ↦ inr (one, by_only_child key (child_balance t i node) c)
          ])

  -- A deletion from an inner node.
  pub inner_lem : (key : ℕ) → Ends key (delete_from t (suc fuel) key node)
  inner_lem key = elim (get_key_index_lem es key (node-IsSorted false es nodes order)) [
    | inr (missing, other) ↦ missing_lem key missing other
    | inl (i, found, inside, same) ↦
        let s = pair_parts t least height es nodes i shape inside in
        let is_key : s.e.0 ≡ key =
          sym (key_at-middle s.E s.e s.F)
          ∙ sym (ap (λ k. key_at k (length s.E)) s.es_is)
          ∙ sym (ap (key_at es) s.j_is)
          ∙ same in
        subst (λ k. Ends k (delete_from t (suc fuel) k node)) is_key
          (found_lem t degree height fuel enough rest least es nodes shape some_keys spare order i s
            inside (ap (get_key_index es) is_key ∙ found))
  ]

module _ {ℓ} {V : Type ℓ} (t : ℕ) (degree : 2 ≤ t) where
  -- A deletion from a leaf.
  pub leaf_lem :
      (least fuel key : ℕ) (es : List (ℕ × V))
      → least ≤ length es - 1
      → length es ≤ 2 * t - 1
      → Ascends es
      → Deleted t least 0 key es (delete_from t (suc fuel) key (btree_node true es no_nodes))
  unfolding delete_from entries
  leaf_lem least fuel key es low high order =
      let gone = delete_leaf_lem key es no_nodes order in
      let sizes : length es - 1 ≤ length gone.left × length gone.left ≤ length es =
        elim gone.outcome [
          | inl (done, held, less) ↦ (omega arith, omega arith)
          | inr (missed, free, same) ↦
              (omega (arith, ap length same), omega (arith, ap length same))
        ] in
      record {
        shape =
            subst (IsNode t least 0) (sym gone.node)
              (refl, refl, omega (arith, sizes), omega (arith, sizes));
        whole = ap entries gone.node ∙ gone.left_is;
        outcome = elim gone.outcome [
          | inl (done, held, less) ↦ inl (done, held)
          | inr (missed, free, same) ↦ inr (missed, free)
        ];
      }

  -- From a node with an entry to spare, `Delete` takes the entry of the key, if there is one.
  pub delete_from_lem : (height fuel : ℕ) → height < fuel → Deletes V t height fuel
  unfolding entries
  delete_from_lem height zero h key n shape order = absurd (omega arith)
  delete_from_lem zero (suc fuel) h key (btree_node true es no_nodes) shape order =
      leaf_lem (t - 1) fuel key es (omega (arith, shape.2)) shape.3 order
  delete_from_lem zero (suc fuel) h key (btree_node true es (n ▸ nodes)) shape order =
      absurd (cc shape.1)
  delete_from_lem zero (suc fuel) h key (btree_node false es nodes) shape order =
      absurd (cc shape.0)
  delete_from_lem (suc height) (suc fuel) h key (btree_node true es nodes) shape order =
      absurd (cc shape.0)
  delete_from_lem (suc height) (suc fuel) h key (btree_node false es nodes) shape order =
      let shape' =
        IsNode-least t t (t - 1) (suc height) (btree_node false es nodes) shape
          (omega (arith, shape.2)) in
      elim (inner_lem t degree height fuel (omega arith) (delete_from_lem height fuel (omega arith))
        (t - 1) es nodes shape' (omega (arith, shape.2)) (λ _. omega (arith, shape.2)) order key) [
          | inl deleted ↦ deleted
          | inr (one, _) ↦ absurd (omega (arith, one, shape.2))
        ]
