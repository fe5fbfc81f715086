-- ===== src/Core/Btree/Delete/Without.antt =====
-- core/btree.h: entries without the one of a key, and `Delete` in a leaf.
use cpp_lkm.Prelude.{
  ℕ, suc, ◌<◌, ◌≡◌, ◌≢◌, ◌⊎◌, inl, inr, refl, sym, ap, ◌∙◌, subst, Bool, true, false, List, [], ◌∷◌,
  ◌++◌, none, some, length, length-append, length-take, length-drop, arith, ◌==◌, if◌then◌else◌,
  take, drop, get-inside, get-split,
}
use cpp_lkm.Core.Btree.{Node, Nodes, btree_node, key_at}
use cpp_lkm.Core.Btree.Delete.{delete_at, delete_leaf}
use cpp_lkm.Core.Btree.Order.{
  AllBelow, AllAbove, Ascends, Ascends-below, Ascends-IsSorted, find, find-skip, find-AllAbove,
  key_at-get,
}
use cpp_lkm.Core.Btree.Search.{get_key_index_lem}

module _ {ℓ} {V : Type ℓ} where
  -- The entries without the one of a key.
  abbrev pub without : ℕ → List (ℕ × V) → List (ℕ × V)
  without key [] = []
  without key (e ∷ es) = if key == e.0 then es else e ∷ without key es

  AllAbove-without : (a key : ℕ) (es : List (ℕ × V)) → AllAbove a es → AllAbove a (without key es)
  AllAbove-without a key [] h = tt
  AllAbove-without a key (e ∷ es) h = ground (arith, AllAbove-without a key es h.1)

  pub without-Ascends : (key : ℕ) (es : List (ℕ × V)) → Ascends es → Ascends (without key es)
  without-Ascends key [] h = tt
  without-Ascends key (e ∷ es) h =
      ground (arith, without-Ascends key es h.1, AllAbove-without e.0 key es h.0)

  pub find-without :
      (key : ℕ) (es : List (ℕ × V)) (q : ℕ)
      → Ascends es
      → find q (without key es) ≡ (if q == key then none else find q es)
  find-without key [] q h = ground arith
  find-without key (e ∷ es) q h =
      ground (arith, find-without key es q h.1, find-AllAbove e.0 es h.0)

  pub without-skip :
      (key : ℕ) (xs ys : List (ℕ × V))
      → AllBelow key xs
      → without key (xs ++ ys) ≡ xs ++ without key ys
  without-skip key [] ys h = refl
  without-skip key (x ∷ xs) ys h = ground (arith, without-skip key xs ys h.1)

  pub without-AllAbove : (key : ℕ) (es : List (ℕ × V)) → AllAbove key es → without key es ≡ es
  without-AllAbove key [] h = refl
  without-AllAbove key (e ∷ es) h = ground (arith, without-AllAbove key es h.1)

  pub without-cut :
      (key : ℕ) (xs ys : List (ℕ × V))
      → AllAbove key ys
      → without key (xs ++ ys) ≡ without key xs ++ ys
  without-cut key [] ys h = without-AllAbove key ys h
  without-cut key (x ∷ xs) ys h = ground (arith, without-cut key xs ys h)

  pub without-absent : (key : ℕ) (es : List (ℕ × V)) → find key es ≡ none → without key es ≡ es
  without-absent key [] h = refl
  without-absent key (e ∷ es) h = ground (arith, without-absent key es)

  -- the entry of a key behind smaller ones
  pub without-here :
      (xs : List (ℕ × V)) (e : ℕ × V) (ys : List (ℕ × V))
      → Ascends (xs ++ (e ∷ ys))
      → without e.0 (xs ++ (e ∷ ys)) ≡ xs ++ ys
  without-here xs e ys order =
      without-skip e.0 xs (e ∷ ys) (Ascends-below xs e ys order) ∙ ap (λ t. xs ++ t) (ground arith)

  pub find-here :
      (xs : List (ℕ × V)) (e : ℕ × V) (ys : List (ℕ × V))
      → Ascends (xs ++ (e ∷ ys))
      → find e.0 (xs ++ (e ∷ ys)) ≡ some e.1
  find-here xs e ys order = find-skip e.0 xs (e ∷ ys) (Ascends-below xs e ys order) ∙ ground arith

  find-other :
      (key : ℕ) (es : List (ℕ × V))
      → ((i : ℕ) → i < length es → key_at es i ≢ key)
      → find key es ≡ none
  find-other key [] h = refl
  find-other key (e ∷ es) h =
      let differs : e.0 ≢ key = h 0 (omega arith) in
      ground (arith, find-other key es (λ i inside. h (suc i) (omega arith)))

  -- What the deletion in a leaf does.
  pub record LeafDeleted (key : ℕ) (es : List (ℕ × V)) (nodes : Nodes V) (r : Bool × Node V)
      : Type ℓ where
    pub left : List (ℕ × V)
    pub node : r.1 ≡ btree_node true left nodes
    pub left_is : left ≡ without key es
    pub outcome :
        ((r.0 ≡ true) × (find key es ≢ none) × (length es ≡ suc (length left)))
        ⊎ ((r.0 ≡ false) × (find key es ≡ none) × (left ≡ es))

  pub delete_leaf_lem :
      (key : ℕ) (es : List (ℕ × V)) (nodes : Nodes V)
      → Ascends es
      → LeafDeleted key es nodes (delete_leaf key (btree_node true es nodes))
  unfolding delete_leaf delete_at
  delete_leaf_lem key es nodes order = elim (get_key_index_lem es key (Ascends-IsSorted es order)) [
    | inl (i, found, inside, same) ↦
        let (e, there) = get-inside es i inside in
        let is_e : e.0 ≡ key = sym (key_at-get es i e there) ∙ same in
        let split = get-split es i e there in
        let order' = subst Ascends split order in
        let held : find key es ≡ some e.1 =
          ap (λ k. find k es) (sym is_e)
          ∙ ap (find e.0) split
          ∙ find-here (take i es) e (drop (suc i) es) order' in
        rw (found, delete_leaf)
          (record {
            left = delete_at i es;
            node = refl;
            left_is = sym (
                ap (λ k. without k es) (sym is_e)
                ∙ ap (without e.0) split
                ∙ without-here (take i es) e (drop (suc i) es) order');
            outcome = inl (
              refl,
              λ free. absurd (cc (free, held)),
              omega (
                arith,
                length-append (take i es) (drop (suc i) es),
                length-take i es,
                length-drop (suc i) es,
              ),
            );
          })
    | inr (missing, other) ↦
        let free : find key es ≡ none = find-other key es other in
        rw (missing, delete_leaf)
          (record {
            left = es;
            node = refl;
            left_is = sym (without-absent key es free);
            outcome = inr (refl, free, refl);
          })
  ]
