-- ===== src/Core/Btree/Delete/Cases.antt =====
-- core/btree.h: what `ChildBalance` does in each of its branches.
use native.Mathlib.Decide.{dec_lt}
use cpp_lkm.Prelude.{
  ℕ, zero, suc, ◌-◌, ◌≤◌, ◌<◌, ◌≡◌, ◌⊎◌, inl, inr, refl, sym, ◌∙◌, subst, true, false, List, [],
  append-nil, none, some, length, All-get, arith, get_elem?, ltb, if◌then◌else◌,
}
use cpp_lkm.Core.Btree.{Node, Nodes, btree_node, to_list}
use cpp_lkm.Core.Btree.Around.{before, behind}
use cpp_lkm.Core.Btree.Delete.{is_rich, child_balance, merge_at}
use cpp_lkm.Core.Btree.Delete.Balance.{
  BalancedAt, Collapsed, give_second, give_first, merge_second, merge_first, merge_last,
}
use cpp_lkm.Core.Btree.Delete.Split.{Siblings, pair_parts, view_at}
use cpp_lkm.Core.Btree.Insert.{entries_of}
use cpp_lkm.Core.Btree.Insert.Rounds.{IsNode-least}
use cpp_lkm.Core.Btree.Shape.{entries, IsNode}
use cpp_lkm.Core.Btree.Delete.Branch.{
  nothing_rich, poor_lem, no_balance, from_left, from_right, to_left, to_right,
}

some_inj {ℓ} : {A : Type ℓ} {a b : A} → some a ≡ some b → a ≡ b
some_inj h = cc h

module _ {ℓ} {V : Type ℓ} (t : ℕ) where
  module _ (es : List (ℕ × V)) (nodes : Nodes V) where
    abbrev self : Node V
    self = btree_node false es nodes

    -- What `ChildBalance` does to a node with one entry more than the least.
    module _ (least height : ℕ) (degree : 2 ≤ t)
        (shape : IsNode t least (suc height) (btree_node false es nodes))
        (some_keys : 1 ≤ length es) (spare : 2 ≤ length es → suc least ≤ length es) where
      abbrev Balances : ℕ → Node V → Type ℓ
      Balances i child =
          BalancedAt t least height child i es nodes (child_balance t i self)
          ⊎ ((length es ≡ 1) × Collapsed t height self (child_balance t i self))

      -- by the merge of the siblings at an index, for one of them
      by_merge :
          (j i : ℕ) (child : Node V)
          → child_balance t i self ≡ merge_at j self
          → (2 ≤ length es → BalancedAt t least height child i es nodes (merge_at j self))
          → (length es ≡ 1 → Collapsed t height self (merge_at j self))
          → Balances i child
      by_merge j i child same more one = elim (dec_lt 1 (length es)) [
        | yes some_left ↦
            inl (subst (BalancedAt t least height child i es nodes) (sym same) (more (omega arith)))
        | no last ↦
            let alone : length es ≡ 1 = omega (arith, shape.2) in
            inr (alone, subst (Collapsed t height self) (sym same) (one alone))
      ]

      already_rich :
          (i : ℕ) (child : Node V)
          → i ≤ length es
          → get_elem? (to_list nodes) i ≡ some child
          → t ≤ length (entries_of child)
          → Balances i child
      already_rich i child inside found rich = inl (record {
        self = self;
        index = i;
        part = child;
        front' = before (to_list nodes) es i;
        back' = behind (to_list nodes) es i;
        more_front = [];
        more_back = [];
        result = no_balance t es nodes i child found rich;
        view =
            view_at t least height es nodes i child
              (refl, shape.1, omega (arith, shape.2), shape.3, shape.4) inside found;
        rich =
            IsNode-least t (t - 1) t height child
              (All-get (IsNode t (t - 1) height) (to_list nodes) i child shape.4 found) rich;
        front_is = sym (append-nil (before (to_list nodes) es i));
        back_is = refl;
        part_is = sym (append-nil (entries child));
      })

      at_start :
          (child : Node V)
          → get_elem? (to_list nodes) 0 ≡ some child
          → length (entries_of child) < t
          → Balances 0 child
      at_start child found poor =
          let s = pair_parts t least height es nodes 0 shape (omega (arith, shape.2)) in
          let same : s.l ≡ child = some_inj (sym s.at_l ∙ found) in
          let poor_l : length (entries_of s.l) < t = rw same poor in
          subst (Balances 0) same (elim (dec_lt (length (entries_of s.r)) t) [
            | no rich ↦ inl (
                subst (BalancedAt t least height s.l 0 es nodes)
                  (sym (
                    from_right t es nodes 0 s.l s.r s.at_l s.at_r (omega (arith, shape.2)) poor_l
                      (omega arith) (nothing_rich V t)))
                  (give_first s least degree shape.2 shape.3 poor_l (omega arith)))
            | yes poor_r ↦
                by_merge 0 0 s.l
                  (to_right t es nodes s.l s.r s.at_l s.at_r (omega (arith, shape.2)) poor_l poor_r)
                  (λ some_left.
                    merge_first s least degree shape.2 shape.3 some_left (spare some_left) poor_l
                      poor_r)
                  (λ one. merge_last s least degree shape.2 shape.3 one poor_l poor_r)
          ])

      -- the child has a left sibling that cannot give an entry
      behind_poor :
          (j : ℕ) (s : Siblings t height es nodes j)
          → suc j ≤ length es
          → length (entries_of s.r) < t
          → length (entries_of s.l) < t
          → Balances (suc j) s.r
      behind_poor j s inside poor poor_l =
          let merges : is_rich t (
                  if ltb (suc j) (length es) then get_elem? (to_list nodes) (suc (suc j)) else none)
                ≡ false
              → Balances (suc j) s.r =
            λ no_right.
              by_merge j (suc j) s.r
                (to_left t es nodes j s.l s.r s.at_l s.at_r poor poor_l no_right)
                (λ some_left.
                  merge_second s least degree shape.2 shape.3 some_left (spare some_left) poor_l
                    poor)
                (λ one. merge_last s least degree shape.2 shape.3 one poor_l poor) in
          elim (dec_lt (suc j) (length es)) [
            | no last ↦
                let out : ltb (suc j) (length es) ≡ false = ground arith in
                merges (rw out (nothing_rich V t))
            | yes more ↦
                let s2 = pair_parts t least height es nodes (suc j) shape more in
                let same : s2.l ≡ s.r = some_inj (sym s2.at_l ∙ s.at_r) in
                let inner : ltb (suc j) (length es) ≡ true = ground arith in
                elim (dec_lt (length (entries_of s2.r)) t) [
                  | yes poor_r ↦ merges (rw (inner, s2.at_r) (poor_lem t s2.r poor_r))
                  | no rich ↦
                      let poor2 : length (entries_of s2.l) < t = rw same poor in
                      let back : suc j - 1 ≡ j = omega arith in
                      let no_left : is_rich t
                            (if ltb 0 (suc j) then get_elem? (to_list nodes) (suc j - 1) else none)
                          ≡ false =
                        let some_before : ltb 0 (suc j) ≡ true = ground arith in
                        rw (some_before, back, s.at_l) (poor_lem t s.l poor_l) in
                      subst (Balances (suc j)) same (
                        inl (
                          subst (BalancedAt t least height s2.l (suc j) es nodes)
                            (sym (
                              from_right t es nodes (suc j) s2.l s2.r s2.at_l s2.at_r more poor2
                                (omega arith) no_left))
                            (give_first s2 least degree shape.2 shape.3 poor2 (omega arith))))
                ]
          ]

      at_next :
          (j : ℕ) (child : Node V)
          → suc j ≤ length es
          → get_elem? (to_list nodes) (suc j) ≡ some child
          → length (entries_of child) < t
          → Balances (suc j) child
      at_next j child inside found poor =
          let s = pair_parts t least height es nodes j shape (omega arith) in
          let same : s.r ≡ child = some_inj (sym s.at_r ∙ found) in
          let poor_r : length (entries_of s.r) < t = rw same poor in
          subst (Balances (suc j)) same (elim (dec_lt (length (entries_of s.l)) t) [
            | yes poor_l ↦ behind_poor j s inside poor_r poor_l
            | no rich ↦ inl (
                subst (BalancedAt t least height s.r (suc j) es nodes)
                  (sym (from_left t es nodes j s.l s.r s.at_l s.at_r poor_r (omega arith)))
                  (give_second s least degree shape.2 shape.3 (omega arith) poor_r))
          ])

      poor_child :
          (i : ℕ) (child : Node V)
          → i ≤ length es
          → get_elem? (to_list nodes) i ≡ some child
          → length (entries_of child) < t
          → Balances i child
      poor_child zero child inside found poor = at_start child found poor
      poor_child (suc j) child inside found poor = at_next j child inside found poor

      -- A step to a child leads to one with an entry to spare, from which no entry was lost, or to
      -- the last two children as one.
      pub child_balance_lem :
          (i : ℕ) (child : Node V)
          → i ≤ length es
          → get_elem? (to_list nodes) i ≡ some child
          → Balances i child
      child_balance_lem i child inside found = elim (dec_lt (length (entries_of child)) t) [
        | no rich ↦ already_rich i child inside found (omega arith)
        | yes poor ↦ poor_child i child inside found poor
      ]
