-- ===== src/Core/Btree/Depth.antt =====
-- core/btree.h: the depths of a node of the shape of a B-tree, and its check.
use cpp_lkm.Prelude.{
  ℕ, zero, suc, ◌+◌, ◌-◌, ◌*◌, ◌≤◌, ◌≡◌, refl, sym, subst, Bool, true, false, not, List, [], ◌∷◌,
  length, All, All-imp, All-both, arith, min, max, ltb, leb, ◌==◌, ◌&&◌, ==_refl,
}
use cpp_lkm.Core.Btree.{
  Node, Nodes, btree_node, no_nodes, ◌▸◌, to_list, min_depth_from, min_depths, max_depth_from,
  max_depths,
}
use cpp_lkm.Core.Btree.Insert.{ascending, check_from, check_all}
use cpp_lkm.Core.Btree.Entries.{weave-Ascends}
use cpp_lkm.Core.Btree.Order.{Ascends, Ascends-left, Ascends-right}
use cpp_lkm.Core.Btree.Shape.{weave, entries, entries_under, IsNode}

module _ {ℓ} {V : Type ℓ} where
  same_max :
      (d : ℕ) (nodes : Nodes V)
      → All (λ n. max_depth_from n ≡ d) (to_list nodes)
      → max_depths d nodes ≡ d
  unfolding max_depth_from
  same_max d no_nodes h = refl
  same_max d (n ▸ nodes) h =
      let keep : max d (max_depth_from n) ≡ d = omega (arith, h.0) in rw keep (same_max d nodes h.1)

  same_min :
      (d : ℕ) (nodes : Nodes V)
      → All (λ n. min_depth_from n ≡ d) (to_list nodes)
      → min_depths d nodes ≡ d
  unfolding min_depth_from
  same_min d no_nodes h = refl
  same_min d (n ▸ nodes) h =
      let keep : min d (min_depth_from n) ≡ d = omega (arith, h.0) in rw keep (same_min d nodes h.1)

  -- Both depths are one more than the height.
  pub max_depth-IsNode :
      (t least height : ℕ) (n : Node V) → IsNode t least height n → max_depth_from n ≡ suc height
  unfolding max_depth_from
  max_depth-IsNode t least zero (btree_node leaf es nodes) shape =
      subst (λ ns. max_depth_from (btree_node leaf es ns) ≡ 1) (sym shape.1) refl
  max_depth-IsNode t least (suc height) (btree_node leaf es no_nodes) shape =
      absurd (omega (arith, shape.1))
  max_depth-IsNode t least (suc height) (btree_node leaf es (n ▸ nodes)) shape =
      let first = max_depth-IsNode t (t - 1) height n shape.4.0 in
      let rest = All-imp (max_depth-IsNode t (t - 1) height) (to_list nodes) shape.4.1 in
      rw (shape.0, first, same_max (suc height) nodes rest) (omega arith)

  pub min_depth-IsNode :
      (t least height : ℕ) (n : Node V) → IsNode t least height n → min_depth_from n ≡ suc height
  unfolding min_depth_from
  min_depth-IsNode t least zero (btree_node leaf es nodes) shape =
      subst (λ ns. min_depth_from (btree_node leaf es ns) ≡ 1) (sym shape.1) refl
  min_depth-IsNode t least (suc height) (btree_node leaf es no_nodes) shape =
      absurd (omega (arith, shape.1))
  min_depth-IsNode t least (suc height) (btree_node leaf es (n ▸ nodes)) shape =
      let first = min_depth-IsNode t (t - 1) height n shape.4.0 in
      let rest = All-imp (min_depth-IsNode t (t - 1) height) (to_list nodes) shape.4.1 in
      rw (shape.0, first, same_min (suc height) nodes rest) (omega arith)

  ascending-Ascends : (es : List (ℕ × V)) → Ascends es → ascending es ≡ true
  unfolding ascending
  ascending-Ascends [] h = refl
  ascending-Ascends (a ∷ []) h = refl
  ascending-Ascends (a ∷ b ∷ es) h =
      let less : leb b.0 a.0 ≡ false = ground (arith, h.0.0) in
      rw less (ascending-Ascends (b ∷ es) h.1)

  -- the entries under every child ascend
  under-Ascends :
      (nodes : Nodes V) (es : List (ℕ × V))
      → length es ≤ length (to_list nodes)
      → Ascends (weave (entries_under nodes) es)
      → All (λ n. Ascends (entries n)) (to_list nodes)
  unfolding entries
  under-Ascends no_nodes es h order = tt
  under-Ascends (n ▸ nodes) [] h order = (
    Ascends-left (entries n) (weave (entries_under nodes) []) order,
    under-Ascends nodes [] (omega arith)
        (Ascends-right (entries n) (weave (entries_under nodes) []) order),
  )
  under-Ascends (n ▸ nodes) (e ∷ es) h order = (
    Ascends-left (entries n) (e ∷ weave (entries_under nodes) es) order,
    under-Ascends nodes es (omega arith)
        (Ascends-right (entries n) (e ∷ weave (entries_under nodes) es) order).1,
  )

  every_checked :
      (t : ℕ) (nodes : Nodes V)
      → All (λ n. check_from t false n ≡ true) (to_list nodes)
      → check_all t nodes ≡ true
  unfolding check_from
  every_checked t no_nodes h = refl
  every_checked t (n ▸ nodes) h = rw (h.0, every_checked t nodes h.1) refl

  -- the tests of the counts and the keys pass
  counts_checked :
      (t : ℕ) (root : Bool) (es : List (ℕ × V))
      → length es ≤ 2 * t - 1
      → (root ≡ false → t - 1 ≤ length es)
      → (ltb (2 * t - 1) (length es) ≡ false) × ((not root && ltb (length es) (t - 1)) ≡ false)
  counts_checked t true es most least = (ground arith, refl)
  counts_checked t false es most least = let size = least refl in (ground arith, ground arith)

  -- A node of the shape of a B-tree, with keys that ascend from left to right, passes the check.
  pub check_from-IsNode :
      (t least height : ℕ) (root : Bool) (n : Node V)
      → IsNode t least height n
      → (root ≡ false → t - 1 ≤ least)
      → Ascends (entries n)
      → check_from t root n ≡ true
  unfolding check_from entries
  check_from-IsNode t least zero root (btree_node leaf es nodes) shape size order =
      let (most, least_size) =
        counts_checked t root es shape.3 (λ h. omega (arith, size h, shape.2)) in
      let ascends = ascending-Ascends es (weave-Ascends (entries_under nodes) es order) in
      let no_children : (length (to_list nodes) == 0) ≡ true =
        subst (λ ns. (length (to_list ns) == 0) ≡ true) (sym shape.1) refl in
      rw (most, least_size, ascends, shape.0, no_children) refl
  check_from-IsNode t least (suc height) root (btree_node leaf es nodes) shape size order =
      let children =
        All-imp {P = λ n. IsNode t (t - 1) height n × Ascends (entries n)}
          (λ n h. check_from-IsNode t (t - 1) height false n h.0 (λ _. omega arith) h.1)
          (to_list nodes)
          (All-both (IsNode t (t - 1) height) (λ n. Ascends (entries n)) (to_list nodes) shape.4
            (under-Ascends nodes es (omega (arith, shape.1)) order)) in
      let (most, least_size) =
        counts_checked t root es shape.3 (λ h. omega (arith, size h, shape.2)) in
      let ascends = ascending-Ascends es (weave-Ascends (entries_under nodes) es order) in
      let count : (length (to_list nodes) == length es + 1) ≡ true =
        rw shape.1 (==_refl (length es + 1)) in
      rw (most, least_size, ascends, shape.0, count, every_checked t nodes children) refl
