-- ===== src/Core/Btree/Entries.antt =====
-- core/btree.h: the entries of a node among those of its tree, and what a search in it skips.
use native.Mathlib.Decide.{ℕ_discrete}
use cpp_lkm.Prelude.{
  ℕ, zero, suc, ◌+◌, ◌≤◌, ◌<◌, ◌≡◌, ◌≢◌, sym, ap, ◌∙◌, subst, Bool, List, [], ◌∷◌, ◌++◌,
  append_assoc, some, length, All, All-right, arith, take, drop, get_elem?, get-split,
}
use cpp_lkm.Core.Btree.{Node, Nodes, btree_node, to_list, key_at, find_key_index}
use cpp_lkm.Core.Btree.Around.{before, behind, entries_around, before-AllBelow, behind-AllAbove}
use cpp_lkm.Core.Btree.Order.{
  AllBelow, AllAbove, Ascends, Ascends-left, Ascends-right, Ascends-below, Ascends-IsSorted, find,
  find-skip,
}
use cpp_lkm.Core.Btree.Search.{IsSorted, IsPlace, find_key_index_lem}
use cpp_lkm.Core.Btree.Shape.{weave, entries, entries_under}

module _ {ℓ} {V : Type ℓ} where
  weave-All :
      (P : ℕ × V → Type 0) (c : List (List (ℕ × V))) (es : List (ℕ × V))
      → All P (weave c es)
      → All P es
  weave-All P [] es h = h
  weave-All P (u ∷ c) [] h = tt
  weave-All P (u ∷ c) (e ∷ es) h =
      let rest = All-right P u (e ∷ weave c es) h in (rest.0, weave-All P c es rest.1)

  -- the entries of a node ascend among those of the tree
  pub weave-Ascends :
      (c : List (List (ℕ × V))) (es : List (ℕ × V)) → Ascends (weave c es) → Ascends es
  weave-Ascends [] es h = h
  weave-Ascends (u ∷ c) [] h = tt
  weave-Ascends (u ∷ c) (e ∷ es) h =
      let rest = Ascends-right u (e ∷ weave c es) h in
      (weave-All (λ (x : ℕ × V). e.0 < x.0) c es rest.0, weave-Ascends c es rest.1)

  -- an entry of a node stands among those of the tree
  weave-entry :
      (c : List (List (ℕ × V))) (es : List (ℕ × V)) (i : ℕ) (e : ℕ × V)
      → get_elem? es i ≡ some e
      → (xs : List (ℕ × V)) × (ys : List (ℕ × V)) × (weave c es ≡ xs ++ (e ∷ ys))
  weave-entry [] es i e h = (take i es, drop (suc i) es, get-split es i e h)
  weave-entry (u ∷ c) [] i e h = absurd (cc h)
  weave-entry (u ∷ c) (x ∷ es) zero e h =
      (u, weave c es, ap (λ (y : ℕ × V). u ++ (y ∷ weave c es)) (cc h))
  weave-entry (u ∷ c) (x ∷ es) (suc i) e h =
      let (xs, ys, split) = weave-entry c es i e h in
      (u ++ (x ∷ xs), ys, ap (λ t. u ++ (x ∷ t)) split ∙ sym (append_assoc u (x ∷ xs) (e ∷ ys)))

  pub find-entry :
      (c : List (List (ℕ × V))) (es : List (ℕ × V)) (i : ℕ) (e : ℕ × V)
      → Ascends (weave c es)
      → get_elem? es i ≡ some e
      → find e.0 (weave c es) ≡ some e.1
  find-entry c es i e order h =
      let (xs, ys, split) = weave-entry c es i e h in
      ap (find e.0) split
      ∙ find-skip e.0 xs (e ∷ ys) (Ascends-below xs e ys (subst Ascends split order))
      ∙ ground arith

  -- a key that is not hit is less than those from its place on
  pub strictly_above :
      (es : List (ℕ × V)) (key i : ℕ)
      → IsSorted es
      → IsPlace es key i
      → (i < length es → key_at es i ≢ key)
      → (j : ℕ) → i ≤ j
      → j < length es
      → key < key_at es j
  strictly_above es key i sorted place miss j h inside = elim (ℕ_discrete j i) [
    | yes e ↦
        let other : key_at es j ≢ key =
          subst (λ k. key_at es k ≢ key) (sym e) (miss (omega arith)) in
        omega (arith, place.above j h inside)
    | no ne ↦
        omega (arith, place.above i (omega arith) (omega arith), sorted i j (omega arith) inside)
  ]

  -- the keys of a node ascend, and the search finds the place
  pub node-IsSorted :
      (leaf : Bool) (es : List (ℕ × V)) (nodes : Nodes V)
      → Ascends (entries (btree_node leaf es nodes))
      → IsSorted es
  unfolding entries
  node-IsSorted leaf es nodes order =
      Ascends-IsSorted es (weave-Ascends (entries_under nodes) es order)

  pub node-IsPlace :
      (key : ℕ) (leaf : Bool) (es : List (ℕ × V)) (nodes : Nodes V)
      → Ascends (entries (btree_node leaf es nodes))
      → IsPlace es key (find_key_index es key)
  node-IsPlace key leaf es nodes order =
      find_key_index_lem es key (node-IsSorted leaf es nodes order)

  -- where the entries that a search skips are, and the child that it goes to
  pub child_alone :
      (key : ℕ) (leaf : Bool) (es : List (ℕ × V)) (nodes : Nodes V) (child : Node V)
      → let i = find_key_index es key in
        Ascends (entries (btree_node leaf es nodes))
        → length (to_list nodes) ≡ length es + 1
        → get_elem? (to_list nodes) i ≡ some child
        → (i < length es → key_at es i ≢ key)
        → AllBelow key (before (to_list nodes) es i)
          × AllAbove key (behind (to_list nodes) es i)
          × Ascends (entries child)
  child_alone key leaf es nodes child order count found miss =
      let i = find_key_index es key in
      let sorted = node-IsSorted leaf es nodes order in
      let place = node-IsPlace key leaf es nodes order in
      let front = before (to_list nodes) es i in
      let back = behind (to_list nodes) es i in
      let split = subst Ascends (entries_around leaf es nodes i child place.inside found) order in
      let rest = Ascends-right front (entries child ++ back) split in
      (
        before-AllBelow (to_list nodes) es i key (entries child ++ back) place.inside
            (omega (arith, place.inside)) split place.below,
        behind-AllAbove (to_list nodes) es i key place.inside count
            (Ascends-right (entries child) back rest) (strictly_above es key i sorted place miss),
        Ascends-left (entries child) back rest,
      )
