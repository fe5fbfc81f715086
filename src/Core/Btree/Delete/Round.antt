-- ===== src/Core/Btree/Delete/Round.antt =====
-- core/btree.h: what a round of `Delete` at an inner node does to its entries.
use cpp_lkm.Prelude.{
  ℕ, suc, ◌+◌, ◌-◌, ◌*◌, ◌≤◌, ◌≡◌, ◌≢◌, ◌⊎◌, inl, inr, refl, sym, ap, ap₂, ◌∙◌, subst, Bool, true,
  false, List, [], ◌∷◌, ◌++◌, append_assoc, none, some, map, length, length-append, All, All-append,
  arith, set,
}
use cpp_lkm.Core.Btree.{Node, btree_node, from_list}
use cpp_lkm.Core.Btree.Delete.{change_child, replace_at}
use cpp_lkm.Core.Btree.Delete.Pair.{pair, first_view}
use cpp_lkm.Core.Btree.Delete.View.{View, set-middle, set-second}
use cpp_lkm.Core.Btree.Delete.Walk.{at_end}
use cpp_lkm.Core.Btree.Delete.Without.{without, without-skip, without-cut, without-here, find-here}
use cpp_lkm.Core.Btree.Order.{AllBelow, AllAbove, Ascends, find, find-skip, find-cut}
use cpp_lkm.Core.Btree.Shape.{weave, follow, entries, IsNode, to_list-from_list}

module _ {ℓ} {V : Type ℓ} where
  -- What a deletion from a tree does: a tree of a height, with `least` entries or more in its root,
  -- that holds the others, and whether the key was there.
  pub record Deleted (t least height key : ℕ) (es : List (ℕ × V)) (r : Bool × Node V) : Type ℓ where
    pub shape : IsNode t least height r.1
    pub whole : entries r.1 ≡ without key es
    pub outcome : ((r.0 ≡ true) × (find key es ≢ none)) ⊎ ((r.0 ≡ false) × (find key es ≡ none))

  -- A deletion from one child is one from the node.
  pub view-Deleted :
      {t least height j key : ℕ} {self part : Node V} {front back : List (ℕ × V)}
      {r : Bool × Node V}
      → View t least height self j part front back
      → AllBelow key front
      → AllAbove key back
      → Deleted t (t - 1) height key (entries part) r
      → Deleted t least
          (suc height)
          key
          (front ++ (entries part ++ back))
          (r.0, change_child j r.1 self)
  view-Deleted {key = key} {part = part} {front = front} {back = back} {r = r} view below above d =
      let same : find key (front ++ (entries part ++ back)) ≡ find key (entries part) =
        find-skip key front (entries part ++ back) below ∙ find-cut key (entries part) back above in
      record {
        shape = view.shape r.1 d.shape;
        whole =
            view.changed r.1
            ∙ ap (λ x. front ++ (x ++ back)) d.whole
            ∙ ap (λ x. front ++ x) (sym (without-cut key (entries part) back above))
            ∙ sym (without-skip key front (entries part ++ back) below);
        outcome = elim d.outcome [
          | inl (done, held) ↦ inl (done, λ free. held (sym same ∙ free))
          | inr (missed, free) ↦ inr (missed, same ∙ free)
        ];
      }

  -- The entry of the key goes, and the others stay.
  pub gone-Deleted :
      {t least height : ℕ} (xs : List (ℕ × V)) (e : ℕ × V) (ys : List (ℕ × V)) (n : Node V)
      → Ascends (xs ++ (e ∷ ys))
      → IsNode t least height n
      → entries n ≡ xs ++ ys
      → Deleted t least height e.0 (xs ++ (e ∷ ys)) (true, n)
  gone-Deleted xs e ys n order shape whole = record {
    shape = shape;
    whole = whole ∙ sym (without-here xs e ys order);
    outcome = inl (refl, λ free. absurd (cc (free, find-here xs e ys order)));
  }

  module _ (t least height : ℕ) (C : List (Node V)) (E : List (ℕ × V)) (D : List (Node V))
      (F : List (ℕ × V)) (h_c : length C ≡ length E) (h_d : length D ≡ length F)
      (low : least ≤ length E + length F + 1) (high : length E + length F + 1 ≤ 2 * t - 1)
      (all_c : All (IsNode t (t - 1) height) C) (all_d : All (IsNode t (t - 1) height) D) where
    abbrev front : List (ℕ × V)
    front = weave (map entries C) E

    abbrev back : List (ℕ × V)
    back = follow (map entries D) F

    pair-IsNode :
        (l : Node V) (e : ℕ × V) (r : Node V)
        → IsNode t (t - 1) height l
        → IsNode t (t - 1) height r
        → IsNode t least (suc height) (pair C E l e r D F)
    pair-IsNode l e r is_l is_r =
        let list = C ++ (l ∷ r ∷ D) in
        let keys = length-append E (e ∷ F) in
        (
          refl,
          ap length (to_list-from_list list) ∙ omega (arith, keys, length-append C (l ∷ r ∷ D)),
          omega (arith, keys),
          omega (arith, keys),
          subst (All (IsNode t (t - 1) height)) (sym (to_list-from_list list))
              (All-append (IsNode t (t - 1) height) C (l ∷ r ∷ D) all_c (is_l, (is_r, all_d))),
        )

    pub entries-pair :
        (l : Node V) (e : ℕ × V) (r : Node V)
        → IsNode t (t - 1) height r
        → entries (pair C E l e r D F) ≡ front ++ (entries l ++ (e ∷ (entries r ++ back)))
    entries-pair l e r is_r =
        (first_view C E D F h_c h_d t least height l e r low high all_c all_d is_r).whole

    -- an entry with its two children replaced: what is deleted from the node
    pair-gone :
        (l l' : Node V) (e e' : ℕ × V) (r r' : Node V)
        → Ascends (entries (pair C E l e r D F))
        → IsNode t (t - 1) height r
        → IsNode t (t - 1) height l'
        → IsNode t (t - 1) height r'
        → entries l' ++ (e' ∷ entries r') ≡ entries l ++ entries r
        → Deleted t least
            (suc height)
            e.0
            (entries (pair C E l e r D F))
            (true, pair C E l' e' r' D F)
    pair-gone l l' e e' r r' order is_r is_l' is_r' same =
        let xs = front ++ entries l in
        let ys = entries r ++ back in
        let split : entries (pair C E l e r D F) ≡ xs ++ (e ∷ ys) =
          entries-pair l e r is_r ∙ sym (append_assoc front (entries l) (e ∷ ys)) in
        let whole : entries (pair C E l' e' r' D F) ≡ xs ++ ys =
          entries-pair l' e' r' is_r'
          ∙ ap (λ x. front ++ x) (sym (append_assoc (entries l') (e' ∷ entries r') back))
          ∙ ap (λ x. front ++ (x ++ back)) same
          ∙ ap (λ x. front ++ x) (append_assoc (entries l) (entries r) back)
          ∙ sym (append_assoc front (entries l) ys) in
        subst (λ es. Deleted t least (suc height) e.0 es (true, pair C E l' e' r' D F)) (sym split)
          (gone-Deleted xs e ys (pair C E l' e' r' D F) (subst Ascends split order)
            (pair-IsNode l' e' r' is_l' is_r') whole)

    -- The entry is replaced by the last one of the child before it.
    pub replaced_first :
        (l l' : Node V) (e e' : ℕ × V) (r : Node V)
        → Ascends (entries (pair C E l e r D F))
        → IsNode t (t - 1) height l'
        → IsNode t (t - 1) height r
        → entries l ≡ at_end true e' (entries l')
        → Deleted t least
            (suc height)
            e.0
            (entries (pair C E l e r D F))
            (replace_at t (length E) (length E) (some (e', l')) (pair C E l e r D F))
    unfolding replace_at
    replaced_first l l' e e' r order is_l' is_r from =
        let list = C ++ (l ∷ r ∷ D) in
        let node : (true, pair C E l' e' r D F)
            ≡ replace_at t (length E) (length E) (some (e', l')) (pair C E l e r D F) =
          sym (
            ap₂ (λ x y. (true, btree_node false x (from_list y))) (set-middle E e e' F)
              (ap (λ x. set x (length E) l') (to_list-from_list list)
                ∙ ap (λ i. set list i l') (sym h_c)
                ∙ set-middle C l l' (r ∷ D))) in
        subst (Deleted t least (suc height) e.0 (entries (pair C E l e r D F))) node (
          pair-gone l l' e e' r r order is_r is_l' is_r (
            sym (append_assoc (entries l') (e' ∷ []) (entries r))
            ∙ ap (λ x. x ++ entries r) (sym from)))

    -- The entry is replaced by the first one of the child behind it.
    pub replaced_second :
        (l : Node V) (e e' : ℕ × V) (r r' : Node V)
        → Ascends (entries (pair C E l e r D F))
        → IsNode t (t - 1) height l
        → IsNode t (t - 1) height r
        → IsNode t (t - 1) height r'
        → entries r ≡ at_end false e' (entries r')
        → Deleted t least
            (suc height)
            e.0
            (entries (pair C E l e r D F))
            (replace_at t (length E) (suc (length E)) (some (e', r')) (pair C E l e r D F))
    unfolding replace_at
    replaced_second l e e' r r' order is_l is_r is_r' from =
        let list = C ++ (l ∷ r ∷ D) in
        let node : (true, pair C E l e' r' D F)
            ≡ replace_at t (length E) (suc (length E)) (some (e', r')) (pair C E l e r D F) =
          sym (
            ap₂ (λ x y. (true, btree_node false x (from_list y))) (set-middle E e e' F)
              (ap (λ x. set x (suc (length E)) r') (to_list-from_list list)
                ∙ ap (λ i. set list (suc i) r') (sym h_c)
                ∙ set-second C l r r' D)) in
        subst (Deleted t least (suc height) e.0 (entries (pair C E l e r D F))) node
          (pair-gone l l e e' r r' order is_r is_l is_r' (ap (λ x. entries l ++ x) (sym from)))
