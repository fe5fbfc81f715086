-- ===== src/Core/Btree/Delete/Found.antt =====
-- core/btree.h: the branches of `Delete` at an inner node that holds the key.
use native.Mathlib.Decide.{dec_lt}
use cpp_lkm.Prelude.{
  ℕ, suc, ◌+◌, ◌-◌, ◌≤◌, ◌<◌, ◌≡◌, ◌⊎◌, inl, inr, refl, sym, ap, ◌∙◌, subst, Bool, true, false,
  List, Option, none, some, length, arith, get_elem?,
}
use cpp_lkm.Core.Btree.{Node, Nodes, btree_node, to_list, key_at, get_key_index}
use cpp_lkm.Core.Btree.Around.{entries_around}
use cpp_lkm.Core.Btree.Delete.{
  replace_at, take_from, merge, merge_at, go_on, key_index, delete_from,
}
use cpp_lkm.Core.Btree.Delete.Balance.{from_siblings, merged_shape, merge_last, keys_size}
use cpp_lkm.Core.Btree.Delete.Branch.{rich_lem, poor_lem}
use cpp_lkm.Core.Btree.Delete.Pair.{merge_at_alone}
use cpp_lkm.Core.Btree.Delete.Round.{Deleted, replaced_first, replaced_second}
use cpp_lkm.Core.Btree.Delete.Hit.{Deletes, again, again_lem, merged_round}
use cpp_lkm.Core.Btree.Delete.Split.{Siblings}
use cpp_lkm.Core.Btree.Delete.Walk.{child_order, take_end_lem}
use cpp_lkm.Core.Btree.Insert.{entries_of}
use cpp_lkm.Core.Btree.Insert.Rounds.{IsNode-least}
use cpp_lkm.Core.Btree.Order.{Ascends}
use cpp_lkm.Core.Btree.Shape.{entries, IsNode}

module _ {ℓ} {V : Type ℓ} (t fuel key : ℕ) (es : List (ℕ × V)) (nodes : Nodes V) (i : ℕ)
    (found : get_key_index es key ≡ some i) where
  abbrev self : Node V
  self = btree_node false es nodes

  by_pre :
      (l : Node V)
      → get_elem? (to_list nodes) i ≡ some l
      → t ≤ length (entries_of l)
      → delete_from t (suc fuel) key self ≡ replace_at t i i (take_from t true fuel (some l)) self
  unfolding delete_from
  by_pre l at_l rich = rw (found, delete_from, at_l, rich_lem t l rich) refl

  by_successor :
      (l r : Node V)
      → get_elem? (to_list nodes) i ≡ some l
      → get_elem? (to_list nodes) (suc i) ≡ some r
      → length (entries_of l) < t
      → t ≤ length (entries_of r)
      → delete_from t (suc fuel) key self
        ≡ replace_at t i (suc i) (take_from t false fuel (some r)) self
  unfolding delete_from
  by_successor l r at_l at_r poor rich =
      rw (found, delete_from, at_l, poor_lem t l poor, at_r, rich_lem t r rich) refl

  by_merge :
      (l r : Node V)
      → get_elem? (to_list nodes) i ≡ some l
      → get_elem? (to_list nodes) (suc i) ≡ some r
      → length (entries_of l) < t
      → length (entries_of r) < t
      → delete_from t (suc fuel) key self
        ≡ go_on t
            (λ n. delete_from t fuel (key_at (entries_of n) (length (entries_of l))) n)
            (merge_at i self)
  unfolding delete_from key_index
  by_merge l r at_l at_r poor poor_r =
      rw (found, delete_from, at_l, poor_lem t l poor, at_r, poor_lem t r poor_r) refl

module _ {ℓ} {V : Type ℓ} (t : ℕ) (degree : 2 ≤ t) (height fuel : ℕ) (enough : height < fuel)
    (rest : Deletes V t height fuel) (least : ℕ) (es : List (ℕ × V)) (nodes : Nodes V)
    (shape : IsNode t least (suc height) (btree_node false es nodes)) (some_keys : 1 ≤ length es)
    (spare : 2 ≤ length es → suc least ≤ length es)
    (order : Ascends (entries (btree_node false es nodes))) where
  abbrev node : Node V
  node = btree_node false es nodes

  -- what a deletion from the node comes to: another root, if its only entry went down
  abbrev pub Outcome : ℕ → Bool × Node V → Type ℓ
  Outcome key r =
      Deleted t least (suc height) key (entries node) r
      ⊎ ((length es ≡ 1) × Deleted t (t - 1) height key (entries node) r)

  module _ (i : ℕ) (s : Siblings t height es nodes i) (inside : i < length es) where
    abbrev size : length es ≡ length s.E + length s.F + 1
    size = keys_size s

    child_Ascends :
        (j : ℕ) (child : Node V)
        → j ≤ length es
        → get_elem? (to_list nodes) j ≡ some child
        → Ascends (entries child)
    child_Ascends j child h there =
        child_order _ (entries child) _
          (subst Ascends (entries_around false es nodes j child h there) order)

    from_pre :
        t ≤ length (entries_of s.l)
        → Deleted t least
            (suc height)
            s.e.0
            (entries node)
            (replace_at t i i (take_from t true fuel (some s.l)) node)
    unfolding take_from
    from_pre rich =
        let taken =
          take_end_lem t degree true height fuel s.l enough
            (IsNode-least t (t - 1) t height s.l s.is_l rich)
            (child_Ascends i s.l (omega arith) s.at_l) in
        subst (λ x. Deleted t least (suc height) s.e.0 (entries node) (replace_at t i i x node))
          (sym taken.result)
          (from_siblings
            (λ x ns j.
              Ascends (entries (btree_node false x ns))
              → Deleted t least (suc height) s.e.0 (entries (btree_node false x ns))
                  (replace_at t j j (some (taken.e, taken.node)) (btree_node false x ns)))
            s
            (λ order'.
              replaced_first t least height s.C s.E s.D s.F s.h_c s.h_d
                (omega (arith, size, shape.2)) (omega (arith, size, shape.3)) s.all_c s.all_d s.l
                taken.node s.e taken.e s.r order' taken.shape s.is_r taken.whole)
            order)

    from_successor :
        t ≤ length (entries_of s.r)
        → Deleted t least
            (suc height)
            s.e.0
            (entries node)
            (replace_at t i (suc i) (take_from t false fuel (some s.r)) node)
    unfolding take_from
    from_successor rich =
        let taken =
          take_end_lem t degree false height fuel s.r enough
            (IsNode-least t (t - 1) t height s.r s.is_r rich)
            (child_Ascends (suc i) s.r (omega arith) s.at_r) in
        subst
          (λ x. Deleted t least (suc height) s.e.0 (entries node) (replace_at t i (suc i) x node))
          (sym taken.result)
          (from_siblings
            (λ x ns j.
              Ascends (entries (btree_node false x ns))
              → Deleted t least (suc height) s.e.0 (entries (btree_node false x ns))
                  (replace_at t j (suc j) (some (taken.e, taken.node)) (btree_node false x ns)))
            s
            (λ order'.
              replaced_second t least height s.C s.E s.D s.F s.h_c s.h_d
                (omega (arith, size, shape.2)) (omega (arith, size, shape.3)) s.all_c s.all_d s.l
                s.e taken.e s.r taken.node order' s.is_l s.is_r taken.shape taken.whole)
            order)

    from_merge :
        length (entries_of s.l) < t
        → length (entries_of s.r) < t
        → Outcome s.e.0 (go_on t (again t degree height fuel rest s.l) (merge_at i node))
    unfolding go_on
    from_merge poor poor_r =
        let (is_m, whole) = merged_shape s least degree shape.2 shape.3 poor poor_r in
        let m = merge s.l s.e s.r in
        let R = again t degree height fuel rest s.l in
        elim (dec_lt 1 (length es)) [
          | yes more ↦ inl (
              from_siblings
                (λ x ns j.
                  Ascends (entries (btree_node false x ns))
                  → Deleted t least (suc height) s.e.0 (entries (btree_node false x ns))
                      (go_on t R (merge_at j (btree_node false x ns))))
                s
                (λ order'.
                  merged_round t degree height fuel rest least s.C s.E s.D s.F s.h_c s.h_d
                    (omega (arith, size, spare more)) (omega (arith, size, shape.3)) s.all_c s.all_d
                    s.l s.e s.r (omega (arith, size)) s.is_r is_m whole order')
                order)
          | no last ↦
              let one : length es ≡ 1 = omega arith in
              let c = merge_last s least degree shape.2 shape.3 one poor poor_r in
              let becomes : merge_at i node ≡ (m, none) =
                from_siblings (λ x ns j. merge_at j (btree_node false x ns) ≡ (m, none)) s
                  (merge_at_alone s.C s.E s.D s.F s.h_c s.h_d s.l s.e s.r (omega (arith, size))) in
              let same : c.merged ≡ m =
                ap (λ (p : Node V × Option ℕ). p.0) (sym c.result ∙ becomes) in
              let all : entries m ≡ entries node = ap entries (sym same) ∙ c.whole in
              inr (
                one,
                subst (λ p. Deleted t (t - 1) height s.e.0 (entries node) (go_on t R p))
                    (sym becomes)
                    (subst (λ x. Deleted t (t - 1) height s.e.0 x (R m)) all
                      (again_lem t degree height fuel rest s.l s.e s.r is_m
                        (subst Ascends (sym all) order))),
              )
        ]

    -- The deletion of a key that the node holds.
    pub found_lem :
        get_key_index es s.e.0 ≡ some i → Outcome s.e.0 (delete_from t (suc fuel) s.e.0 node)
    found_lem found = elim (dec_lt (length (entries_of s.l)) t) [
      | no rich ↦ inl (
          subst (Deleted t least (suc height) s.e.0 (entries node))
            (sym (by_pre t fuel s.e.0 es nodes i found s.l s.at_l (omega arith)))
            (from_pre (omega arith)))
      | yes poor ↦ elim (dec_lt (length (entries_of s.r)) t) [
        | no rich ↦ inl (
            subst (Deleted t least (suc height) s.e.0 (entries node))
              (sym (
                by_successor t fuel s.e.0 es nodes i found s.l s.r s.at_l s.at_r poor
                  (omega arith)))
              (from_successor (omega arith)))
        | yes poor_r ↦
            subst (Outcome s.e.0)
              (sym (by_merge t fuel s.e.0 es nodes i found s.l s.r s.at_l s.at_r poor poor_r))
              (from_merge poor poor_r)
      ]
    ]
