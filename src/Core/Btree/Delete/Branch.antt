-- ===== src/Core/Btree/Delete/Branch.antt =====
-- core/btree.h: which branch `ChildBalance` takes, by the sizes of the siblings.
use cpp_lkm.Prelude.{
  ℕ, suc, ◌-◌, ◌≤◌, ◌<◌, ◌≡◌, refl, ap, true, false, List, none, some, length, arith, get_elem?,
  ltb, leb, if◌then◌else◌,
}
use cpp_lkm.Core.Btree.{Node, Nodes, btree_node, to_list}
use cpp_lkm.Core.Btree.Delete.{is_rich, child_balance, merge_at, give_at}
use cpp_lkm.Core.Btree.Insert.{entries_of}

pub nothing_rich {ℓ} : (V : Type ℓ) (t : ℕ) → is_rich {V = V} t none ≡ false
unfolding is_rich
nothing_rich V t = refl

module _ {ℓ} {V : Type ℓ} (t : ℕ) where
  pub rich_lem : (n : Node V) → t ≤ length (entries_of n) → is_rich t (some n) ≡ true
  unfolding is_rich
  rich_lem n h = ground arith

  pub poor_lem : (n : Node V) → length (entries_of n) < t → is_rich t (some n) ≡ false
  unfolding is_rich
  poor_lem n h = ground arith

  module _ (es : List (ℕ × V)) (nodes : Nodes V) where
    abbrev self : Node V
    self = btree_node false es nodes

    pub no_balance :
        (i : ℕ) (child : Node V)
        → get_elem? (to_list nodes) i ≡ some child
        → t ≤ length (entries_of child)
        → child_balance t i self ≡ (self, some i)
    unfolding child_balance
    no_balance i child found rich =
        let enough : ltb (length (entries_of child)) t ≡ false = ground arith in
        rw (found, child_balance, enough) refl

    pub from_left :
        (j : ℕ) (l child : Node V)
        → get_elem? (to_list nodes) j ≡ some l
        → get_elem? (to_list nodes) (suc j) ≡ some child
        → length (entries_of child) < t
        → t ≤ length (entries_of l)
        → child_balance t (suc j) self ≡ (give_at true j self, some (suc j))
    unfolding child_balance
    from_left j l child at_l found poor rich =
        let few : ltb (length (entries_of child)) t ≡ true = ground arith in
        let inner : ltb 0 (suc j) ≡ true = ground arith in
        let back : suc j - 1 ≡ j = omega arith in
        rw (found, child_balance, few, inner, back, at_l, rich_lem l rich) refl

    pub from_right :
        (i : ℕ) (child r : Node V)
        → get_elem? (to_list nodes) i ≡ some child
        → get_elem? (to_list nodes) (suc i) ≡ some r
        → i < length es
        → length (entries_of child) < t
        → t ≤ length (entries_of r)
        → is_rich t (if ltb 0 i then get_elem? (to_list nodes) (i - 1) else none) ≡ false
        → child_balance t i self ≡ (give_at false i self, some i)
    unfolding child_balance
    from_right i child r found at_r inside poor rich no_left =
        let few : ltb (length (entries_of child)) t ≡ true = ground arith in
        let inner : ltb i (length es) ≡ true = ground arith in
        rw (found, child_balance, few, no_left, inner, at_r, rich_lem r rich) refl

    pub to_left :
        (j : ℕ) (l child : Node V)
        → get_elem? (to_list nodes) j ≡ some l
        → get_elem? (to_list nodes) (suc j) ≡ some child
        → length (entries_of child) < t
        → length (entries_of l) < t
        → is_rich t
            (if ltb (suc j) (length es) then get_elem? (to_list nodes) (suc (suc j)) else none)
          ≡ false
        → child_balance t (suc j) self ≡ merge_at j self
    unfolding child_balance
    to_left j l child at_l found poor poor_l no_right =
        let few : ltb (length (entries_of child)) t ≡ true = ground arith in
        let inner : ltb 0 (suc j) ≡ true = ground arith in
        let back : suc j - 1 ≡ j = omega arith in
        rw (found, child_balance, few, inner, back, at_l, poor_lem l poor_l, no_right)
          (ap (λ k. merge_at k self) back)

    pub to_right :
        (child r : Node V)
        → get_elem? (to_list nodes) 0 ≡ some child
        → get_elem? (to_list nodes) 1 ≡ some r
        → 0 < length es
        → length (entries_of child) < t
        → length (entries_of r) < t
        → child_balance t 0 self ≡ merge_at 0 self
    unfolding child_balance is_rich
    to_right child r found at_r inside poor poor_r =
        let few : ltb (length (entries_of child)) t ≡ true = ground arith in
        let inner : ltb 0 (length es) ≡ true = ground arith in
        let few_r : leb t (length (entries_of r)) ≡ false = ground arith in
        rw (found, child_balance, few, inner, at_r, few_r) refl
