-- ===== src/Core/Btree/Delete/View.antt =====
-- core/btree.h: a node seen around one child, and around two siblings.
use cpp_lkm.Prelude.{
  ℕ, suc, ◌+◌, ◌-◌, ◌*◌, ◌≤◌, ◌≡◌, refl, sym, ap, ap₂, ◌∙◌, subst, false, List, [], ◌∷◌, ◌++◌, some,
  map, length, length-map, length-append, All, All-append, arith, get_elem?, set,
}
use cpp_lkm.Core.Btree.{Node, btree_node, to_list, from_list}
use cpp_lkm.Core.Btree.Around.{map-append, entries-from_list}
use cpp_lkm.Core.Btree.Delete.{delete_at, change_child, children_of}
use cpp_lkm.Core.Btree.Shape.{weave, follow, entries, IsNode, to_list-from_list, weave-around}

module _ {ℓ} {A : Type ℓ} where
  pub get-middle :
      (xs : List A) (a : A) (ys : List A) → get_elem? (xs ++ (a ∷ ys)) (length xs) ≡ some a
  get-middle [] a ys = refl
  get-middle (x ∷ xs) a ys = get-middle xs a ys

  pub set-middle :
      (xs : List A) (a b : A) (ys : List A) → set (xs ++ (a ∷ ys)) (length xs) b ≡ xs ++ (b ∷ ys)
  set-middle [] a b ys = refl
  set-middle (x ∷ xs) a b ys = ap (λ t. x ∷ t) (set-middle xs a b ys)

  pub get-second :
      (xs : List A) (a b : A) (ys : List A)
      → get_elem? (xs ++ (a ∷ b ∷ ys)) (suc (length xs)) ≡ some b
  get-second [] a b ys = refl
  get-second (x ∷ xs) a b ys = get-second xs a b ys

  pub set-second :
      (xs : List A) (a b c : A) (ys : List A)
      → set (xs ++ (a ∷ b ∷ ys)) (suc (length xs)) c ≡ xs ++ (a ∷ c ∷ ys)
  set-second [] a b c ys = refl
  set-second (x ∷ xs) a b c ys = ap (λ t. x ∷ t) (set-second xs a b c ys)

  pub delete-middle :
      (xs : List A) (a : A) (ys : List A) → delete_at (length xs) (xs ++ (a ∷ ys)) ≡ xs ++ ys
  unfolding delete_at
  delete-middle [] a ys = refl
  delete-middle (x ∷ xs) a ys = ap (λ t. x ∷ t) (delete-middle xs a ys)

  pub delete-second :
      (xs : List A) (a b : A) (ys : List A)
      → delete_at (suc (length xs)) (xs ++ (a ∷ b ∷ ys)) ≡ xs ++ (a ∷ ys)
  unfolding delete_at
  delete-second [] a b ys = refl
  delete-second (x ∷ xs) a b ys = ap (λ t. x ∷ t) (delete-second xs a b ys)

module _ {ℓ} {V : Type ℓ} where
  -- a node of a height above 0 around one child: what stands before and behind it, and what the node
  -- is with another child in its place
  pub record View (t least height : ℕ) (self : Node V) (j : ℕ) (child : Node V)
      (front back : List (ℕ × V)) : Type ℓ where
    pub there : get_elem? (children_of self) j ≡ some child
    pub whole : entries self ≡ front ++ (entries child ++ back)
    pub shape :
        (c : Node V)
        → IsNode t (t - 1) height c
        → IsNode t least (suc height) (change_child j c self)
    pub changed : (c : Node V) → entries (change_child j c self) ≡ front ++ (entries c ++ back)

  -- such a node, from its parts
  pub around_child :
      (t least height : ℕ) (C : List (Node V)) (E : List (ℕ × V)) (child : Node V)
      (D : List (Node V)) (F : List (ℕ × V))
      → length C ≡ length E
      → length D ≡ length F
      → least ≤ length E + length F
      → length E + length F ≤ 2 * t - 1
      → All (IsNode t (t - 1) height) C
      → All (IsNode t (t - 1) height) D
      → View t least height
          (btree_node false (E ++ F) (from_list (C ++ (child ∷ D))))
          (length E)
          child
          (weave (map entries C) E)
          (follow (map entries D) F)
  unfolding change_child
  around_child t least height C E child D F h_c h_d low high all_c all_d =
      let list = C ++ (child ∷ D) in
      let at_e : (xs : List (Node V)) (c : Node V)
          → set (to_list (from_list xs)) (length E) c ≡ set xs (length C) c =
        λ xs c. ap₂ (λ l i. set l i c) (to_list-from_list xs) (sym h_c) in
      let is : (c : Node V)
          → entries (btree_node false (E ++ F) (from_list (C ++ (c ∷ D))))
            ≡ weave (map entries C) E ++ (entries c ++ follow (map entries D) F) =
        λ c.
          entries-from_list false (E ++ F) (C ++ (c ∷ D))
          ∙ ap (λ l. weave l (E ++ F)) (map-append C (c ∷ D))
          ∙ weave-around (map entries C) (entries c) (map entries D) E F
              (length-map C entries ∙ h_c) in
      let new : (c : Node V) → set (to_list (from_list list)) (length E) c ≡ C ++ (c ∷ D) =
        λ c. at_e list c ∙ set-middle C child c D in
      record {
        there = ap₂ get_elem? (to_list-from_list list) (sym h_c) ∙ get-middle C child D;
        whole = is child;
        shape = λ c c_shape.
            subst (λ l. IsNode t least (suc height) (btree_node false (E ++ F) (from_list l)))
              (sym (new c))
              (
                refl,
                ap length (to_list-from_list (C ++ (c ∷ D)))
                    ∙ omega (arith, length-append C (c ∷ D), length-append E F),
                omega (arith, length-append E F),
                omega (arith, length-append E F),
                subst (All (IsNode t (t - 1) height)) (sym (to_list-from_list (C ++ (c ∷ D))))
                    (All-append (IsNode t (t - 1) height) C (c ∷ D) all_c (c_shape, all_d)),
              );
        changed = λ c. ap (λ l. entries (btree_node false (E ++ F) (from_list l))) (new c) ∙ is c;
      }
