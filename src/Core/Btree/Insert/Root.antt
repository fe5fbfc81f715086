-- ===== src/Core/Btree/Insert/Root.antt =====
-- core/btree.h: the invariant of a tree, and `Insert` below its root.
use cpp_lkm.Prelude.{
  ℕ, suc, ◌+◌, ◌-◌, ◌*◌, ◌≤◌, ◌≡◌, inl, inr, refl, sym, ap, ◌∙◌, subst, Bool, true, false,
  Bool-cases, List, [], append-nil, Option, none, some, length, arith, min,
}
use cpp_lkm.Core.Btree.{Node, Nodes, btree_node, no_nodes, ◌▸◌, lookup_from, max_depth_from}
use cpp_lkm.Core.Btree.Depth.{max_depth-IsNode, min_depth-IsNode, check_from-IsNode}
use cpp_lkm.Core.Btree.Insert.{
  entries_of, split_child, insert_non_full, insert_root, lookup, check, min_depth, max_depth,
}
use cpp_lkm.Core.Btree.Insert.Above.{
  above_split, length-put_at, split_child_lem, entries-above_split, above_split-IsNode,
}
use cpp_lkm.Core.Btree.Insert.Rounds.{
  IsNode-most, IsNode-at_least, IsNode-least, is_full-length, insert_non_full_lem,
}
use cpp_lkm.Core.Btree.Insert.Split.{halves_lem}
use cpp_lkm.Core.Btree.Insert.Step.{Inserted}
use cpp_lkm.Core.Btree.Lookup.{lookup_from_lem}
use cpp_lkm.Core.Btree.Order.{Ascends, find, put}
use cpp_lkm.Core.Btree.Shape.{entries, IsRoot}

module _ {ℓ} {V : Type ℓ} where
  -- The invariant of a tree of minimum degree `t`.
  abbrev pub IsBtree : ℕ → Option (Node V) → Type ℓ
  IsBtree t none = Unit
  IsBtree t (some root) = (height : ℕ) × IsRoot t height root

  entries-alone : (root : Node V) → entries (btree_node false [] (root ▸ no_nodes)) ≡ entries root
  unfolding entries
  entries-alone root = append-nil (entries root)

  pub root-lookup :
      (t height key : ℕ) (root : Node V)
      → 2 ≤ t
      → IsRoot t height root
      → lookup_from key root ≡ find key (entries root)
  root-lookup t height key root degree h =
      lookup_from_lem t (min 1 height) height key root degree (omega arith) h.shape h.order

  -- the entries of a tree, from left to right
  abbrev pub contents : Option (Node V) → List (ℕ × V)
  contents none = []
  contents (some root) = entries root

  -- In a tree that satisfies the invariant for a minimum degree of 2 or more, `Lookup` finds for
  -- every key what a search through all entries from left to right finds.
  pub lookup_lem :
      (t key : ℕ) (tree : Option (Node V))
      → 2 ≤ t
      → IsBtree t tree
      → lookup key tree ≡ find key (contents tree)
  unfolding lookup
  lookup_lem t key none degree h = refl
  lookup_lem t key (some root) degree (height, h) = root-lookup t height key root degree h

  -- A tree that is empty or satisfies the invariant passes `Check`, and `MinDepth` is `MaxDepth`.
  pub check-IsBtree :
      (t : ℕ) (tree : Option (Node V))
      → IsBtree t tree
      → (check t tree ≡ true) × (min_depth tree ≡ max_depth tree)
  unfolding check min_depth max_depth
  check-IsBtree t none h = (refl, refl)
  check-IsBtree t (some root) (height, h) = (
    check_from-IsNode t (min 1 height) height true root h.shape (λ no. absurd (cc no)) h.order,
    min_depth-IsNode t (min 1 height) height root h.shape
        ∙ sym (max_depth-IsNode t (min 1 height) height root h.shape),
  )

module _ {ℓ} {V : Type ℓ} (t : ℕ) (degree : 2 ≤ t) (memory : ℕ → Bool) (key : ℕ) (value : V) where
  abbrev Grown : ℕ → Node V → Bool × Node V → Type ℓ
  Grown height root r = Inserted t degree memory key value (min 1 height) height root r

  kept :
      (height : ℕ) (root : Node V) (m : ℕ)
      → IsRoot t height root
      → memory m ≡ false
      → Grown height root (false, root)
  kept height root m h failed = record {
    shape = h.shape;
    outcome = inr (refl, refl);
    done = λ enough. absurd (cc (enough m, failed));
  }

  -- a full root gets a root above it, and is split
  new_root :
      (height n : ℕ) (root : Node V)
      → IsRoot t height root
      → find key (entries root) ≡ none
      → length (entries_of root) ≡ 2 * t - 1
      → Grown (suc height) root (
          insert_non_full t memory
            (2 + 2 * max_depth_from root)
            n
            key
            value
            (split_child t 0 (btree_node false [] (root ▸ no_nodes))))
  new_root height n root h absent full =
      let alone : Nodes V = root ▸ no_nodes in
      let h2 = halves_lem t (min 1 height) height root degree h.shape full in
      let above = above_split [] alone 0 h2 in
      let same =
        entries-above_split t height [] alone 0 root h2 refl (omega arith) ∙ entries-alone root in
      let shape0 =
        above_split-IsNode t 0 height [] alone 0 root h2
          (
            refl,
            refl,
            omega arith,
            omega arith,
            (IsNode-least t (min 1 height) (t - 1) height root h.shape (omega arith), tt),
          )
          refl (omega arith) (omega arith) in
      let shape =
        IsNode-least t 1 (min 1 (suc height)) (suc height) above shape0
          (omega (arith, IsNode-at_least t 1 (suc height) above shape0)) in
      let r = insert_non_full t memory (2 + 2 * max_depth_from root) n key value above in
      let inserted =
        insert_non_full_lem t degree memory key value (suc height) (min 1 (suc height))
          (2 + 2 * max_depth_from root) n above
          (omega (arith, max_depth-IsNode t (min 1 height) height root h.shape)) shape
          (omega (arith, length-put_at 0 h2.mid [] (omega arith)))
          (subst Ascends (sym same) h.order) (ap (find key) same ∙ absent) in
      let result : Grown (suc height) root r = record {
        shape = inserted.shape;
        outcome = elim inserted.outcome [
          | inl (done, put_there) ↦ inl (done, put_there ∙ ap (put key value) same)
          | inr (failed, held) ↦ inr (failed, held ∙ same)
        ];
        done = inserted.done;
      } in
      rw (split_child_lem t height [] alone 0 root h2 refl) result

  pub insert_root_lem :
      (height n : ℕ) (root : Node V)
      → IsRoot t height root
      → find key (entries root) ≡ none
      → (height' : ℕ) × Grown height' root (insert_root t memory n key value root)
  unfolding insert_root
  insert_root_lem height n root h absent =
      elim (is_full-length t root (IsNode-most t (min 1 height) height root h.shape)) [
        | inr (small, room) ↦ (
          height,
          rw (small, insert_root)
              (insert_non_full_lem t degree memory key value height (min 1 height)
                (2 * max_depth_from root) n root
                (omega (arith, max_depth-IsNode t (min 1 height) height root h.shape)) h.shape room
                h.order absent),
        )
        | inl (large, full) ↦ elim (Bool-cases (memory n)) [
          | inr failed ↦ (height, rw (large, insert_root, failed) (kept height root n h failed))
          | inl first ↦ elim (Bool-cases (memory (n + 1))) [
            | inr failed ↦
                (height, rw (large, insert_root, first, failed) (kept height root (n + 1) h failed))
            | inl second ↦ (
              suc height,
              rw (large, insert_root, first, second) (new_root height (n + 2) root h absent full),
            )
          ]
        ]
      ]
