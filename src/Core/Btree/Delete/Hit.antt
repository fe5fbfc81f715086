-- ===== src/Core/Btree/Delete/Hit.antt =====
-- core/btree.h: `Delete` at an inner node that holds the key: an entry of a child takes its place, or
-- the entry goes down into the two children as one.
use cpp_lkm.Prelude.{
  ℕ, suc, ◌+◌, ◌-◌, ◌*◌, ◌≤◌, ◌<◌, ◌≡◌, refl, sym, ap, ◌∙◌, subst, Bool, List, ◌∷◌, ◌++◌,
  append_assoc, some, map, length, All, All-left, All-right, arith, get_elem?,
}
use cpp_lkm.Core.Btree.{Node, btree_node, key_at}
use cpp_lkm.Core.Btree.Delete.{change_child, children_of, merge, merge_at, go_on, delete_from}
use cpp_lkm.Core.Btree.Delete.Moved.{merged_view}
use cpp_lkm.Core.Btree.Delete.Pair.{pair, merge_at_lem}
use cpp_lkm.Core.Btree.Delete.Round.{Deleted, view-Deleted, entries-pair}
use cpp_lkm.Core.Btree.Delete.View.{get-middle}
use cpp_lkm.Core.Btree.Delete.Walk.{child_order}
use cpp_lkm.Core.Btree.Insert.{entries_of}
use cpp_lkm.Core.Btree.Order.{AllBelow, AllAbove, Ascends, Ascends-below, Ascends-right, key_at-get}
use cpp_lkm.Core.Btree.Shape.{weave, follow, entries, IsNode}

module _ {ℓ} {V : Type ℓ} where
  pub key_at-middle :
      (E : List (ℕ × V)) (e : ℕ × V) (F : List (ℕ × V)) → key_at (E ++ (e ∷ F)) (length E) ≡ e.0
  key_at-middle E e F = key_at-get (E ++ (e ∷ F)) (length E) e (get-middle E e F)

  -- the key is where it went in the merge
  merged_key :
      (l : Node V) (e : ℕ × V) (r : Node V)
      → key_at (entries_of (merge l e r)) (length (entries_of l)) ≡ e.0
  unfolding merge
  merged_key (btree_node leaf es nodes) e (btree_node leaf' es' nodes') = key_at-middle es e es'

  -- what is around an entry that a child holds
  around_entry :
      (front xs : List (ℕ × V)) (e : ℕ × V) (ys back : List (ℕ × V))
      → Ascends (front ++ ((xs ++ (e ∷ ys)) ++ back))
      → AllBelow e.0 front × AllAbove e.0 back
  around_entry front xs e ys back order =
      let split : front ++ ((xs ++ (e ∷ ys)) ++ back) ≡ (front ++ xs) ++ (e ∷ (ys ++ back)) =
        ap (λ x. front ++ x) (append_assoc xs (e ∷ ys) back)
        ∙ sym (append_assoc front xs (e ∷ (ys ++ back))) in
      let order' = subst Ascends split order in
      (
        All-left (λ (x : ℕ × V). x.0 < e.0) front xs
            (Ascends-below (front ++ xs) e (ys ++ back) order'),
        All-right (λ (x : ℕ × V). e.0 < x.0) ys back
            (Ascends-right (front ++ xs) (e ∷ (ys ++ back)) order').0,
      )

  -- the next round at a child
  pub go_on_lem :
      (t : ℕ) (R : Node V → Bool × Node V) (self : Node V) (j : ℕ) (part : Node V)
      → get_elem? (children_of self) j ≡ some part
      → go_on t R (self, some j) ≡ ((R part).0, change_child j (R part).1 self)
  unfolding go_on
  go_on_lem t R self j part there = rw (there, go_on) refl

-- The deletions of the next rounds, at nodes of a height.
abbrev pub Deletes {ℓ} : (V : Type ℓ) → ℕ → ℕ → ℕ → Type ℓ
Deletes V t height fuel =
    (key : ℕ) (n : Node V)
    → IsNode t t height n
    → Ascends (entries n)
    → Deleted t (t - 1) height key (entries n) (delete_from t fuel key n)

module _ {ℓ} {V : Type ℓ} (t : ℕ) (degree : 2 ≤ t) (height fuel : ℕ)
    (rest : Deletes V t height fuel) where
  -- the round behind the merge of a child with its sibling
  abbrev pub again : Node V → Node V → Bool × Node V
  again l n = delete_from t fuel (key_at (entries_of n) (length (entries_of l))) n

  pub again_lem :
      (l : Node V) (e : ℕ × V) (r : Node V)
      → IsNode t t height (merge l e r)
      → Ascends (entries (merge l e r))
      → Deleted t (t - 1) height e.0 (entries (merge l e r)) (again l (merge l e r))
  again_lem l e r shape order =
      let m = merge l e r in
      subst (λ k. Deleted t (t - 1) height e.0 (entries m) (delete_from t fuel k m))
        (sym (merged_key l e r)) (rest e.0 m shape order)

  module _ (least : ℕ) (C : List (Node V)) (E : List (ℕ × V)) (D : List (Node V)) (F : List (ℕ × V))
      (h_c : length C ≡ length E) (h_d : length D ≡ length F) (low : least ≤ length E + length F)
      (high : length E + length F + 1 ≤ 2 * t - 1) (all_c : All (IsNode t (t - 1) height) C)
      (all_d : All (IsNode t (t - 1) height) D) where
    pub merged_round :
        (l : Node V) (e : ℕ × V) (r : Node V)
        → 0 < length E + length F
        → IsNode t (t - 1) height r
        → IsNode t t height (merge l e r)
        → entries (merge l e r) ≡ entries l ++ (e ∷ entries r)
        → Ascends (entries (pair C E l e r D F))
        → Deleted t least
            (suc height)
            e.0
            (entries (pair C E l e r D F))
            (go_on t (again l) (merge_at (length E) (pair C E l e r D F)))
    merged_round l e r some_left is_r shape whole order =
        let m = merge l e r in
        let front = weave (map entries C) E in
        let back = follow (map entries D) F in
        let view =
          merged_view C E D F h_c h_d t least height degree (omega arith) high all_c all_d l e r
            low in
        let split : entries (pair C E l e r D F) ≡ front ++ (entries m ++ back) =
          entries-pair t least height C E D F h_c h_d (omega arith) high all_c all_d l e r is_r
          ∙ ap (λ x. front ++ x) (sym (append_assoc (entries l) (e ∷ entries r) back))
          ∙ ap (λ x. front ++ (x ++ back)) (sym whole) in
        let order' = subst Ascends split order in
        let (below, above) =
          around_entry front (entries l) e (entries r) back
            (subst (λ x. Ascends (front ++ (x ++ back))) whole order') in
        let step =
          ap (go_on t (again l)) (merge_at_lem C E D F h_c h_d l e r some_left)
          ∙ go_on_lem t (again l) _ (length E) m view.there in
        subst
          (λ es.
            Deleted t least (suc height) e.0 es
              (go_on t (again l) (merge_at (length E) (pair C E l e r D F))))
          (sym split)
          (subst (Deleted t least (suc height) e.0 (front ++ (entries m ++ back))) (sym step) (
            view-Deleted view below above
              (again_lem l e r shape (child_order front (entries m) back order'))))
