-- ===== src/Core/Btree/Delete/Sibling.antt =====
-- core/btree.h: what `ChildGiveKey` makes of two siblings.
use cpp_lkm.Prelude.{
  ℕ, suc, ◌-◌, ◌≡◌, sym, ap, ◌∙◌, subst, Bool, true, List, [], ◌∷◌, ◌++◌, append-nil, some, length,
  length-append, length-take, drop-all, arith, take, drop, get_elem?, get-inside, get-split,
}
use cpp_lkm.Core.Btree.{Node, Nodes, btree_node, no_nodes}
use cpp_lkm.Core.Btree.Delete.{delete_at, give_from_left, give_from_right}
use cpp_lkm.Core.Btree.Shape.{entries, IsNode}

module _ {ℓ} {A : Type ℓ} where
  -- a list without its last element, and that element
  pub last-split :
      (xs : List A) (n : ℕ)
      → length xs ≡ suc n
      → (a : A) × (get_elem? xs n ≡ some a)
        × (xs ≡ delete_at n xs ++ (a ∷ []))
        × (length (delete_at n xs) ≡ n)
  unfolding delete_at
  last-split xs n h =
      let (a, found) = get-inside xs n (omega arith) in
      let rest : drop (suc n) xs ≡ [] = drop-all (suc n) xs (omega arith) in
      (
        a,
        found,
        rw rest (
            get-split xs n a found
            ∙ ap (λ t. take n xs ++ (a ∷ t)) rest
            ∙ ap (λ t. t ++ (a ∷ [])) (sym (append-nil (take n xs)))),
        rw rest (omega (arith, length-append (take n xs) [], length-take n xs)),
      )

module _ {ℓ} {V : Type ℓ} where
  abbrev pub IsChild : ℕ → ℕ → Node V → Type ℓ
  IsChild t height = IsNode t (t - 1) height

  -- What `ChildGiveKey` from the left makes of the siblings.
  pub record GivenLeft (t height : ℕ) (l : Node V) (e : ℕ × V) (r : Node V) : Type ℓ where
    pub left : Node V
    pub up : ℕ × V
    pub right : Node V
    pub moved : List (ℕ × V)
    pub given : give_from_left l e r ≡ some (left, up, right)
    pub left_shape : IsNode t (t - 1) height left
    pub right_shape : IsNode t t height right
    pub from : entries l ≡ entries left ++ (up ∷ moved)
    pub into : entries right ≡ moved ++ (e ∷ entries r)

  pub record GivenRight (t height : ℕ) (l : Node V) (e : ℕ × V) (r : Node V) : Type ℓ where
    pub left : Node V
    pub up : ℕ × V
    pub right : Node V
    pub moved : List (ℕ × V)
    pub given : give_from_right l e r ≡ some (left, up, right)
    pub left_shape : IsNode t t height left
    pub right_shape : IsNode t (t - 1) height right
    pub from : entries r ≡ moved ++ (up ∷ entries right)
    pub into : entries left ≡ entries l ++ (e ∷ moved)

  -- nodes of one height are leaves, or are not
  pub same_kind :
      (P : Node V → Node V → Type ℓ) (t a b : ℕ) (leaf leaf' : Bool) (es es' : List (ℕ × V))
      (nodes nodes' : Nodes V)
      → IsNode t a 0 (btree_node leaf es nodes)
      → IsNode t b 0 (btree_node leaf' es' nodes')
      → P (btree_node true es no_nodes) (btree_node true es' no_nodes)
      → P (btree_node leaf es nodes) (btree_node leaf' es' nodes')
  same_kind P t a b leaf leaf' es es' nodes nodes' h h' p =
      subst (λ x. P (btree_node x es nodes) (btree_node leaf' es' nodes')) (sym h.0)
        (subst (λ x. P (btree_node true es nodes) (btree_node x es' nodes')) (sym h'.0)
          (subst (λ x. P (btree_node true es x) (btree_node true es' nodes')) (sym h.1)
            (subst (λ x. P (btree_node true es no_nodes) (btree_node true es' x)) (sym h'.1) p)))
