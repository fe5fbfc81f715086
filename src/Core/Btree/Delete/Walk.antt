-- ===== src/Core/Btree/Delete/Walk.antt =====
-- core/btree.h: `FindLeftMost` and `FindRightMost`, which `Delete` takes an entry of a child with.
use cpp_lkm.Prelude.{
  ℕ, zero, suc, ◌+◌, ◌-◌, ◌*◌, ◌≤◌, ◌<◌, ◌≡◌, inl, inr, refl, sym, ap, ap₂, ◌∙◌, subst, Bool, true,
  false, List, [], ◌∷◌, ◌++◌, append_assoc, append-nil, Option, none, some, map, length,
  length-append, drop-all, arith, take, get_elem?, get-inside, get-split, if◌then◌else◌,
}
use cpp_lkm.Core.Btree.{Node, Nodes, btree_node, no_nodes, ◌▸◌, to_list}
use cpp_lkm.Core.Btree.Around.{before, behind, entries_around}
use cpp_lkm.Core.Btree.Delete.{take_end, change_child, children_of, child_balance}
use cpp_lkm.Core.Btree.Delete.Balance.{BalancedAt}
use cpp_lkm.Core.Btree.Delete.Cases.{child_balance_lem}
use cpp_lkm.Core.Btree.Delete.Pair.{Balanced}
use cpp_lkm.Core.Btree.Delete.Without.{without, without-here, delete_leaf_lem}
use cpp_lkm.Core.Btree.Insert.Rounds.{IsNode-least}
use cpp_lkm.Core.Btree.Order.{Ascends, Ascends-left, Ascends-right}
use cpp_lkm.Core.Btree.Shape.{follow, entries, IsNode}

module _ {ℓ} {V : Type ℓ} where
  -- an entry at the end of others
  abbrev pub at_end : Bool → ℕ × V → List (ℕ × V) → List (ℕ × V)
  at_end true e es = es ++ (e ∷ [])
  at_end false e es = e ∷ es

  -- what is between an end of a node's entries and those of a child
  abbrev beyond : Bool → List (ℕ × V) → List (ℕ × V) → List (ℕ × V)
  beyond true front back = back
  beyond false front back = front

  end_around :
      (last : Bool) (front back es : List (ℕ × V)) (e : ℕ × V)
      → beyond last front back ≡ []
      → front ++ (at_end last e es ++ back) ≡ at_end last e (front ++ (es ++ back))
  end_around true front back es e h =
      ap (λ b. front ++ ((es ++ (e ∷ [])) ++ b)) h
      ∙ ap (λ x. front ++ x) (append-nil (es ++ (e ∷ [])))
      ∙ sym (append_assoc front es (e ∷ []))
      ∙ ap (λ x. (front ++ x) ++ (e ∷ [])) (sym (append-nil es))
      ∙ ap (λ b. (front ++ (es ++ b)) ++ (e ∷ [])) (sym h)
  end_around false front back es e h =
      ap (λ f. f ++ ((e ∷ es) ++ back)) h ∙ ap (λ f. e ∷ (f ++ (es ++ back))) (sym h)

  append-empty : (xs ys : List (ℕ × V)) → [] ≡ xs ++ ys → (xs ≡ []) × (ys ≡ [])
  append-empty [] ys h = (refl, sym h)
  append-empty (x ∷ xs) ys h = absurd (cc h)

  -- A step to a child keeps the entries.
  pub whole-Balanced :
      {t least height : ℕ} {child : Node V} {front back : List (ℕ × V)} {r : Node V × Option ℕ}
      (b : Balanced t least height child front back r)
      → front ++ (entries child ++ back) ≡ b.front' ++ (entries b.part ++ b.back')
  whole-Balanced {child = child} b =
      ap₂ (λ f k. f ++ (entries child ++ k)) b.front_is b.back_is
      ∙ append_assoc b.front' b.more_front (entries child ++ (b.more_back ++ b.back'))
      ∙ ap (λ x. b.front' ++ (b.more_front ++ x))
          (sym (append_assoc (entries child) b.more_back b.back'))
      ∙ ap (λ x. b.front' ++ x)
          (sym (append_assoc b.more_front (entries child ++ b.more_back) b.back'))
      ∙ ap (λ x. b.front' ++ (x ++ b.back')) (sym b.part_is)

  last_split :
      (last : Bool) (es : List (ℕ × V))
      → 1 ≤ length es
      → (e : ℕ × V) × (rest : List (ℕ × V)) × (get_elem? es (if last then length es - 1 else 0)
          ≡ some e)
        × (es ≡ at_end last e rest)
  last_split last [] h = absurd (omega arith)
  last_split false (e ∷ es) h = (e, es, refl, refl)
  last_split true (x ∷ es) h =
      let all = x ∷ es in
      let (e, found) = get-inside all (length all - 1) (omega arith) in
      (
        e,
        take (length all - 1) all,
        found,
        get-split all (length all - 1) e found
            ∙ ap (λ d. take (length all - 1) all ++ (e ∷ d))
                (drop-all (suc (length all - 1)) all (omega arith)),
      )

  without-at_end :
      (last : Bool) (e : ℕ × V) (rest : List (ℕ × V))
      → Ascends (at_end last e rest)
      → without e.0 (at_end last e rest) ≡ rest
  without-at_end true e rest order = without-here rest e [] order ∙ append-nil rest
  without-at_end false e rest order = without-here [] e rest order

  length-at_end :
      (last : Bool) (e : ℕ × V) (rest : List (ℕ × V))
      → length (at_end last e rest) ≡ suc (length rest)
  length-at_end true e rest = omega (arith, length-append rest (e ∷ []))
  length-at_end false e rest = refl

  -- What is taken from a tree: the entry at its end, and the tree without it.
  pub record Taken (t height : ℕ) (last : Bool) (n : Node V) (r : Option ((ℕ × V) × Node V))
      : Type ℓ where
    pub e : ℕ × V
    pub node : Node V
    pub result : r ≡ some (e, node)
    pub shape : IsNode t (t - 1) height node
    pub whole : entries n ≡ at_end last e (entries node)

  leaf_end :
      (t fuel : ℕ) (last : Bool) (es : List (ℕ × V))
      → 2 ≤ t
      → t ≤ length es
      → length es ≤ 2 * t - 1
      → Ascends es
      → Taken t 0 last
          (btree_node true es no_nodes)
          (take_end t last (suc fuel) (btree_node true es no_nodes))
  unfolding take_end entries
  leaf_end t fuel last es degree low high order =
      let (e, rest, found, split) = last_split last es (omega arith) in
      let order' = subst Ascends split order in
      let gone = delete_leaf_lem e.0 es no_nodes order in
      let left_is : gone.left ≡ rest =
        gone.left_is ∙ ap (without e.0) split ∙ without-at_end last e rest order' in
      let size : length es ≡ suc (length rest) = ap length split ∙ length-at_end last e rest in
      let node_is = gone.node ∙ ap (λ x. btree_node true x no_nodes) left_is in
      record {
        e = e;
        node = btree_node true rest no_nodes;
        result = rw (found, take_end) (ap (λ n. some (e, n)) node_is);
        shape = (refl, refl, omega arith, omega arith);
        whole = split;
      }

  -- the index of the child at an end
  abbrev end_index : Bool → List (ℕ × V) → ℕ
  end_index last es = if last then length es else 0

  beyond-end :
      (last : Bool) (es : List (ℕ × V)) (list : List (Node V))
      → length list ≡ length es + 1
      → beyond last (before list es (end_index last es)) (behind list es (end_index last es)) ≡ []
  beyond-end true es list count =
      ap₂ (λ d x. follow (map entries d) x) (drop-all (suc (length es)) list (omega arith))
        (drop-all (length es) es (omega arith))
  beyond-end false es list count = refl

  beyond-Balanced :
      {t least height : ℕ} {child : Node V} {front back : List (ℕ × V)} {r : Node V × Option ℕ}
      (last : Bool) (b : Balanced t least height child front back r)
      → beyond last front back ≡ []
      → beyond last b.front' b.back' ≡ []
  beyond-Balanced true b h = (append-empty b.more_back b.back' (sym h ∙ b.back_is)).1
  beyond-Balanced false b h = (append-empty b.front' b.more_front (sym h ∙ b.front_is)).0

  pub child_order : (front mid back : List (ℕ × V)) → Ascends (front ++ (mid ++ back)) → Ascends mid
  child_order front mid back order = Ascends-left mid back (Ascends-right front (mid ++ back) order)

  module _ (t : ℕ) (degree : 2 ≤ t) (last : Bool) where
    inner_end :
        (height fuel : ℕ) (es : List (ℕ × V)) (nodes : Nodes V) (child : Node V)
        (b : BalancedAt t
          (t - 1)
          height
          child
          (end_index last es)
          es
          nodes
          (child_balance t (end_index last es) (btree_node false es nodes)))
        → get_elem? (to_list nodes) (end_index last es) ≡ some child
        → end_index last es ≤ length es
        → length (to_list nodes) ≡ length es + 1
        → Taken t height last b.part (take_end t last fuel b.part)
        → Taken t
            (suc height)
            last
            (btree_node false es nodes)
            (take_end t last (suc fuel) (btree_node false es nodes))
    unfolding take_end
    inner_end height fuel es nodes child b found inside count taken = record {
      e = taken.e;
      node = change_child b.index taken.node b.self;
      result =
          ap
            (λ (p : Node V × Option ℕ). elim p.1 [
              | none ↦ take_end t last fuel p.0
              | some j ↦ elim (get_elem? (children_of p.0) j) [
                | none ↦ none
                | some c ↦ elim (take_end t last fuel c) [
                  | none ↦ none
                  | some (e, c') ↦ some (e, change_child j c' p.0)
                ]
              ]
            ])
            b.result
          ∙ rw (b.view.there, taken.result) refl;
      shape = b.view.shape taken.node taken.shape;
      whole =
          entries_around false es nodes (end_index last es) child inside found
          ∙ whole-Balanced b
          ∙ ap (λ x. b.front' ++ (x ++ b.back')) taken.whole
          ∙ end_around last b.front' b.back' (entries taken.node) taken.e
              (beyond-Balanced last b (beyond-end last es (to_list nodes) count))
          ∙ ap (at_end last taken.e) (sym (b.view.changed taken.node));
    }

    end_index_lem : (es : List (ℕ × V)) → end_index last es ≤ length es
    end_index_lem es = grind arith

    -- From a tree with an entry to spare, the walk to an end takes the entry that stands there.
    pub take_end_lem :
        (height fuel : ℕ) (n : Node V)
        → height < fuel
        → IsNode t t height n
        → Ascends (entries n)
        → Taken t height last n (take_end t last fuel n)
    unfolding entries
    take_end_lem height zero n h shape order = absurd (omega arith)
    take_end_lem zero (suc fuel) (btree_node true es no_nodes) h shape order =
        leaf_end t fuel last es degree shape.2 shape.3 order
    take_end_lem zero (suc fuel) (btree_node true es (n ▸ nodes)) h shape order =
        absurd (cc shape.1)
    take_end_lem zero (suc fuel) (btree_node false es nodes) h shape order = absurd (cc shape.0)
    take_end_lem (suc height) (suc fuel) (btree_node true es nodes) h shape order =
        absurd (cc shape.0)
    take_end_lem (suc height) (suc fuel) (btree_node false es nodes) h shape order =
        let i = end_index last es in
        let inside = end_index_lem es in
        let (child, found) = get-inside (to_list nodes) i (omega (arith, shape.1)) in
        let shape' : IsNode t (t - 1) (suc height) (btree_node false es nodes) =
          IsNode-least t t (t - 1) (suc height) (btree_node false es nodes) shape
            (omega (arith, shape.2)) in
        elim (child_balance_lem t es nodes (t - 1) height degree shape' (omega (arith, shape.2))
          (λ _. omega (arith, shape.2)) i child inside found) [
            | inr alone ↦ absurd (omega (arith, alone.0, shape.2))
            | inl b ↦
                let order' =
                  subst Ascends
                    (entries_around false es nodes i child inside found ∙ whole-Balanced b) order in
                inner_end height fuel es nodes child b found inside shape.1 (
                  take_end_lem height fuel b.part (omega arith) b.rich
                    (child_order b.front' (entries b.part) b.back' order'))
          ]
