-- ===== src/Core/Btree/Insert/Rounds.antt =====
-- core/btree.h: `InsertNonFull` puts the entry among those of the tree, in two rounds for each level.
use native.Mathlib.Decide.{dec_lt}
use cpp_lkm.Prelude.{
  ℕ, zero, suc, ◌+◌, ◌-◌, ◌*◌, ◌≤◌, ◌<◌, ◌≡◌, ◌⊎◌, inl, inr, refl, sym, ap, ◌∙◌, subst, Bool, true,
  false, Bool-cases, List, ◌∷◌, ◌++◌, none, some, length, All-get, arith, take, drop, get_elem?,
  get-inside, inside-get,
}
use cpp_lkm.Core.Btree.{Node, Nodes, btree_node, to_list, from_list, find_key_index}
use cpp_lkm.Core.Btree.Insert.{put_at, entries_of, is_full, insert_non_full}
use cpp_lkm.Core.Btree.Insert.Above.{
  above_split, split_child_lem, entries-above_split, above_split-IsNode, next_place,
  get-first_of_two, get-second_of_two,
}
use cpp_lkm.Core.Btree.Insert.Split.{Halves, halves_lem}
use cpp_lkm.Core.Btree.Insert.Step.{Inserted, absent_lem, leaf_round, descend, not_full}
use cpp_lkm.Core.Btree.Entries.{node-IsPlace}
use cpp_lkm.Core.Btree.Order.{Ascends, find, put}
use cpp_lkm.Core.Btree.Shape.{entries, IsNode, to_list-from_list}

module _ {ℓ} {V : Type ℓ} where
  pub IsNode-most :
      (t least height : ℕ) (n : Node V)
      → IsNode t least height n
      → length (entries_of n) ≤ 2 * t - 1
  IsNode-most t least zero (btree_node leaf es nodes) shape = shape.3
  IsNode-most t least (suc height) (btree_node leaf es nodes) shape = shape.3

  pub IsNode-at_least :
      (t least height : ℕ) (n : Node V) → IsNode t least height n → least ≤ length (entries_of n)
  IsNode-at_least t least zero (btree_node leaf es nodes) shape = shape.2
  IsNode-at_least t least (suc height) (btree_node leaf es nodes) shape = shape.2

  pub IsNode-least :
      (t a b height : ℕ) (n : Node V)
      → IsNode t a height n
      → b ≤ length (entries_of n)
      → IsNode t b height n
  IsNode-least t a b zero (btree_node leaf es nodes) shape h = (shape.0, shape.1, h, shape.3)
  IsNode-least t a b (suc height) (btree_node leaf es nodes) shape h =
      (shape.0, shape.1, h, shape.3, shape.4)

  full_lem : (t : ℕ) (n : Node V) → length (entries_of n) ≡ 2 * t - 1 → is_full t n ≡ true
  unfolding is_full
  full_lem t n h = ground arith

  -- what the test of a root or a child says
  pub is_full-length :
      (t : ℕ) (n : Node V)
      → length (entries_of n) ≤ 2 * t - 1
      → ((is_full t n ≡ true) × (length (entries_of n) ≡ 2 * t - 1))
        ⊎ ((is_full t n ≡ false) × (length (entries_of n) < 2 * t - 1))
  is_full-length t n most = elim (dec_lt (length (entries_of n)) (2 * t - 1)) [
    | yes room ↦ inr (not_full t n room, room)
    | no filled ↦
        let full : length (entries_of n) ≡ 2 * t - 1 = omega arith in inl (full_lem t n full, full)
  ]

module _ {ℓ} {V : Type ℓ} (t : ℕ) (degree : 2 ≤ t) (memory : ℕ → Bool) (key : ℕ) (value : V) where
  abbrev Inserts : ℕ → ℕ → ℕ → ℕ → Node V → Type ℓ
  Inserts least height fuel n node =
      Inserted t degree memory key value least height node
        (insert_non_full t memory fuel n key value node)

  -- the round behind a split: one of the two new children takes the entry
  behind_split :
      (least height fuel n : ℕ) (es : List (ℕ × V)) (nodes : Nodes V) (child : Node V)
      → let i = find_key_index es key in
        (h : Halves t height child)
        → IsNode t least (suc height) (btree_node false es nodes)
        → length es < 2 * t - 1
        → Ascends (entries (btree_node false es nodes))
        → find key (entries (btree_node false es nodes)) ≡ none
        → get_elem? (to_list nodes) i ≡ some child
        → ((part : Node V)
            → IsNode t (t - 1) height part
            → length (entries_of part) ≡ t - 1
            → Ascends (entries part)
            → find key (entries part) ≡ none
            → Inserts (t - 1) height fuel n part)
        → Inserts (least + 1) (suc height) (suc fuel) n (above_split es nodes i h)
  behind_split least height fuel n es nodes child h shape room order absent found inner =
      let i = find_key_index es key in
      let list = to_list nodes in
      let place = node-IsPlace key false es nodes order in
      let rest = drop (suc i) list in
      let two = take i list ++ (h.left ∷ h.right ∷ rest) in
      let es' = put_at i h.mid es in
      let nodes' = from_list two in
      let same = entries-above_split t height es nodes i child h found place.inside in
      let order' = subst Ascends (sym same) order in
      let place' = node-IsPlace key false es' nodes' order' in
      let in_list = inside-get list i child found in
      let there : (part : Node V) (i' : ℕ)
          → find_key_index es' key ≡ i'
          → get_elem? two i' ≡ some part
          → get_elem? (to_list nodes') (find_key_index es' key) ≡ some part =
        λ part i' at k.
          ap (λ l. get_elem? l (find_key_index es' key)) (to_list-from_list two)
          ∙ ap (get_elem? two) at
          ∙ k in
      let step : (part : Node V)
          → IsNode t (t - 1) height part
          → length (entries_of part) ≡ t - 1
          → get_elem? (to_list nodes') (find_key_index es' key) ≡ some part
          → Inserts (least + 1) (suc height) (suc fuel) n (btree_node false es' nodes') =
        λ part part_shape size k.
          descend t degree memory key value (least + 1) height fuel n es' nodes' part
            (above_split-IsNode t least height es nodes i child h shape found place.inside room)
            order' (ap (find key) same ∙ absent) k (omega arith) (inner part part_shape size) in
      elim (next_place es key i h.mid (find_key_index es' key) place place') [
        | inl first ↦
            step h.left h.left_shape h.left_size
              (there h.left i first (get-first_of_two i h.left list (h.right ∷ rest) (omega arith)))
        | inr second ↦ step h.right h.right_shape h.right_size (
            there h.right (suc i) second
              (get-second_of_two i h.left h.right list rest (omega arith)))
      ]

  -- a child that is full is split
  split_round :
      (least height fuel n : ℕ) (es : List (ℕ × V)) (nodes : Nodes V) (child : Node V)
      → let i = find_key_index es key in
        (h : Halves t height child)
        → IsNode t least (suc height) (btree_node false es nodes)
        → Ascends (entries (btree_node false es nodes))
        → find key (entries (btree_node false es nodes)) ≡ none
        → get_elem? (to_list nodes) i ≡ some child
        → length (entries_of child) ≡ 2 * t - 1
        → Inserts (least + 1) (suc height) fuel (n + 1) (above_split es nodes i h)
        → Inserts least (suc height) (suc fuel) n (btree_node false es nodes)
  unfolding insert_non_full
  split_round least height fuel n es nodes child h shape order absent found full next =
      let i = find_key_index es key in
      let (no_index, _) = absent_lem key false es nodes order absent in
      let place = node-IsPlace key false es nodes order in
      let self : Node V = btree_node false es nodes in
      let same = entries-above_split t height es nodes i child h found place.inside in
      let split = split_child_lem t height es nodes i child h found in
      elim (Bool-cases (memory n)) [
        | inr failed ↦
            rw (no_index, found, full_lem t child full, failed, insert_non_full)
              (record {
                shape = shape;
                outcome = inr (refl, refl);
                done = λ enough. absurd (cc (enough n, failed));
              })
        | inl allocated ↦
            let r = insert_non_full t memory fuel (n + 1) key value (above_split es nodes i h) in
            let result : Inserted t degree memory key value least (suc height) self r = record {
              shape =
                  IsNode-least t (least + 1) least (suc height) r.1 next.shape
                    (omega (arith, IsNode-at_least t (least + 1) (suc height) r.1 next.shape));
              outcome = elim next.outcome [
                | inl (done, put_there) ↦ inl (done, put_there ∙ ap (put key value) same)
                | inr (failed, kept) ↦ inr (failed, kept ∙ same)
              ];
              done = next.done;
            } in
            rw (no_index, found, full_lem t child full, allocated, split, insert_non_full) result
      ]

  -- Into a node of the shape of a B-tree that is not full, whose keys ascend and do not hold the key,
  -- the entry is put, or an allocation fails and the entries stay; the shape is kept. Two rounds for
  -- each level and one more are enough.
  pub insert_non_full_lem :
      (height least fuel n : ℕ) (node : Node V)
      → 2 * height + 1 ≤ fuel
      → IsNode t least height node
      → length (entries_of node) < 2 * t - 1
      → Ascends (entries node)
      → find key (entries node) ≡ none
      → Inserts least height fuel n node
  unfolding entries
  insert_non_full_lem height least zero n node enough shape room order absent = absurd (omega arith)
  insert_non_full_lem zero least (suc fuel) n (btree_node leaf es nodes) enough shape room order
        absent =
      subst (λ l. Inserts least 0 (suc fuel) n (btree_node l es nodes)) (sym shape.0)
        (subst (λ ns. Inserts least 0 (suc fuel) n (btree_node true es ns)) (sym shape.1)
          (leaf_round t degree memory key value least fuel n es (refl, refl, shape.2, shape.3) room
            (subst (λ ns. Ascends (entries (btree_node leaf es ns))) shape.1 order)
            (subst (λ ns. find key (entries (btree_node leaf es ns)) ≡ none) shape.1 absent)))
  insert_non_full_lem (suc height) least (suc zero) n node enough shape room order absent =
      absurd (omega arith)
  insert_non_full_lem (suc height) least (suc (suc fuel)) n (btree_node leaf es nodes) enough shape
        room order absent =
      let i = find_key_index es key in
      let place = node-IsPlace key leaf es nodes order in
      let (child, found) = get-inside (to_list nodes) i (omega (arith, place.inside, shape.1)) in
      let child_shape = All-get (IsNode t (t - 1) height) (to_list nodes) i child shape.4 found in
      let inner_shape : IsNode t least (suc height) (btree_node false es nodes) =
        (refl, shape.1, shape.2, shape.3, shape.4) in
      subst (λ l. Inserts least (suc height) (suc (suc fuel)) n (btree_node l es nodes))
        (sym shape.0)
        (elim (dec_lt (length (entries_of child)) (2 * t - 1)) [
          | yes child_room ↦
              descend t degree memory key value least height (suc fuel) n es nodes child inner_shape
                order absent found child_room
                (insert_non_full_lem height (t - 1) (suc fuel) n child (omega arith) child_shape
                  child_room)
          | no child_full ↦
              let full : length (entries_of child) ≡ 2 * t - 1 =
                omega (arith, IsNode-most t (t - 1) height child child_shape) in
              let h = halves_lem t (t - 1) height child degree child_shape full in
              split_round least height (suc fuel) n es nodes child h inner_shape order absent found
                full
                (behind_split least height fuel (n + 1) es nodes child h inner_shape room order
                  absent found
                  (λ part part_shape size.
                    insert_non_full_lem height (t - 1) fuel (n + 1) part (omega arith) part_shape
                      (omega arith)))
        ])
