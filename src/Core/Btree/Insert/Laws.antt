-- ===== src/Core/Btree/Insert/Laws.antt =====
-- core/btree.h: a B-tree is a map: what `Insert` does to it.
use cpp_lkm.Prelude.{
  ℕ, ◌≤◌, ◌≡◌, ◌≢◌, ◌⊎◌, inl, inr, refl, sym, ap, ◌∙◌, subst, Bool, true, false, Bool-cases, [],
  Option, none, some, Option-cases, arith, ◌==◌, min, if◌then◌else◌,
}
use cpp_lkm.Core.Btree.{Node, btree_node, no_nodes, lookup_from}
use cpp_lkm.Core.Btree.Insert.{insert_root, insert, lookup}
use cpp_lkm.Core.Btree.Insert.Root.{IsBtree, root-lookup, insert_root_lem}
use cpp_lkm.Core.Btree.Insert.Step.{Inserted}
use cpp_lkm.Core.Btree.Order.{Ascends, find, find-put, put-Ascends}
use cpp_lkm.Core.Btree.Shape.{entries, IsRoot}

module _ {ℓ} {V : Type ℓ} (t : ℕ) (degree : 2 ≤ t) (memory : ℕ → Bool) (key : ℕ) (value : V) where
  -- what `Insert` does, with and without memory
  abbrev Outcome : Option (Node V) → Bool × Option (Node V) → Type ℓ
  Outcome tree r =
      IsBtree t r.1
      × (((r.0 ≡ true)
            × (lookup key tree ≡ none)
            × ((q : ℕ) → lookup q r.1 ≡ (if q == key then some value else lookup q tree)))
          ⊎ ((r.0 ≡ false) × ((q : ℕ) → lookup q r.1 ≡ lookup q tree)))
      × (((m : ℕ) → memory m ≡ true) → lookup key tree ≡ none → r.0 ≡ true)

  -- what the map is after an insertion below a root
  grown_lem :
      (height height' : ℕ) (root : Node V) (r : Bool × Node V)
      → IsRoot t height root
      → find key (entries root) ≡ none
      → Inserted t degree memory key value (min 1 height') height' root r
      → Outcome (some root) (r.0, some r.1)
  unfolding lookup
  grown_lem height height' root r h absent inserted =
      let before : (q : ℕ) → lookup_from q root ≡ find q (entries root) =
        λ q. root-lookup t height q root degree h in
      elim inserted.outcome [
        | inl (done, put_there) ↦
            let root' : IsRoot t height' r.1 = record {
              shape = inserted.shape;
              order =
                  subst Ascends (sym put_there)
                    (put-Ascends key value (entries root) h.order absent);
            } in
            (
              (height', root'),
              inl (
                done,
                before key ∙ absent,
                λ q.
                    root-lookup t height' q r.1 degree root'
                    ∙ ap (find q) put_there
                    ∙ find-put key value (entries root) q absent
                    ∙ ap (λ x. if q == key then some value else x) (sym (before q)),
              ),
              λ enough free. done,
            )
        | inr (failed, held) ↦
            let root' : IsRoot t height' r.1 = record {
              shape = inserted.shape;
              order = subst Ascends (sym held) h.order;
            } in
            (
              (height', root'),
              inr (
                failed,
                λ q. root-lookup t height' q r.1 degree root' ∙ ap (find q) held ∙ sym (before q),
              ),
              λ enough free. inserted.done enough,
            )
      ]

  -- the root that a first insertion makes
  abbrev fresh_root : Node V
  fresh_root = btree_node true [] no_nodes

  fresh_root-IsRoot : IsRoot t 0 fresh_root
  unfolding entries
  fresh_root-IsRoot = record { shape = (refl, refl, omega arith, omega arith); order = tt }

  fresh_root-find : (q : ℕ) → find q (entries fresh_root) ≡ none
  unfolding entries
  fresh_root-find q = refl

  -- an empty tree and a fresh root are the same map
  from_fresh : (r : Bool × Option (Node V)) → Outcome (some fresh_root) r → Outcome none r
  unfolding lookup lookup_from
  from_fresh r h = h

  below_root :
      (n height : ℕ) (root : Node V)
      → IsRoot t height root
      → find key (entries root) ≡ none
      → let r = insert_root t memory n key value root in Outcome (some root) (r.0, some r.1)
  below_root n height root h absent =
      let (height', inserted) = insert_root_lem t degree memory key value height n root h absent in
      grown_lem height height' root (insert_root t memory n key value root) h absent inserted

  insert_free :
      (root : Node V)
      → lookup_from key root ≡ none
      → let r = insert_root t memory 0 key value root in
        insert t memory key value (some root) ≡ (r.0, some r.1)
  unfolding insert
  insert_free root free = rw (free, insert) refl

  insert_held :
      (root : Node V) (v : V)
      → lookup_from key root ≡ some v
      → insert t memory key value (some root) ≡ (false, some root)
  unfolding insert
  insert_held root v there = rw (there, insert) refl

  insert_first :
      (memory 0 ≡ true)
      → let r = insert_root t memory 1 key value fresh_root in
        insert t memory key value none ≡ (r.0, some r.1)
  unfolding insert
  insert_first allocated = rw (allocated, insert) refl

  insert-none : memory 0 ≡ false → insert t memory key value none ≡ (false, none)
  unfolding insert
  insert-none failed = rw (failed, insert) refl

  insert-Outcome :
      (tree : Option (Node V)) → IsBtree t tree → Outcome tree (insert t memory key value tree)
  unfolding lookup
  insert-Outcome none h = elim (Bool-cases (memory 0)) [
    | inr failed ↦
        subst (Outcome none) (sym (insert-none failed))
          (tt, inr (refl, λ q. refl), λ enough free. absurd (cc (enough 0, failed)))
    | inl allocated ↦
        let r = insert_root t memory 1 key value fresh_root in
        subst (Outcome none) (sym (insert_first allocated)) (
          from_fresh (r.0, some r.1)
            (below_root 1 0 fresh_root fresh_root-IsRoot (fresh_root-find key)))
  ]
  insert-Outcome (some root) (height, h) = elim (Option-cases (lookup_from key root)) [
    | inr (v, there) ↦
        subst (Outcome (some root)) (sym (insert_held root v there))
          ((height, h), inr (refl, λ q. refl), λ enough free. absurd (cc (there, free)))
    | inl free ↦
        subst (Outcome (some root)) (sym (insert_free root free))
          (below_root 0 height root h (sym (root-lookup t height key root degree h) ∙ free))
  ]

  -- `Insert` keeps the invariant of a tree of minimum degree 2 or more, whatever allocations fail.
  pub insert-IsBtree :
      (tree : Option (Node V)) → IsBtree t tree → IsBtree t (insert t memory key value tree).1
  insert-IsBtree tree h = (insert-Outcome tree h).0

  -- An `Insert` that returns false, because the key is there or an allocation fails, changes
  -- nothing that `Lookup` can see.
  pub insert-false :
      (tree : Option (Node V))
      → IsBtree t tree
      → (insert t memory key value tree).0 ≡ false
      → (q : ℕ) → lookup q (insert t memory key value tree).1 ≡ lookup q tree
  insert-false tree h refused q = elim (insert-Outcome tree h).1 [
    | inl (done, _, _) ↦ absurd (cc (done, refused))
    | inr (_, same) ↦ same q
  ]

  -- With memory: an `Insert` of a key that the tree does not hold returns true, and `Lookup` finds
  -- its value then and what it found before for every other key; an `Insert` of a key that the tree
  -- holds returns false and leaves the tree as it was.
  pub insert_lem :
      (tree : Option (Node V))
      → IsBtree t tree
      → ((m : ℕ) → memory m ≡ true)
      → let (done, tree') = insert t memory key value tree in
        ((lookup key tree ≡ none)
          × (done ≡ true)
          × ((q : ℕ) → lookup q tree' ≡ (if q == key then some value else lookup q tree)))
        ⊎ ((lookup key tree ≢ none) × (done ≡ false) × (tree' ≡ tree))
  unfolding lookup
  insert_lem none h enough =
      let free : lookup {V = V} key none ≡ none = refl in
      elim (insert-Outcome none h).1 [
        | inl (done, _, found) ↦ inl (free, done, found)
        | inr (failed, _) ↦
            let done = (insert-Outcome none h).2 enough free in absurd (cc (done, failed))
      ]
  insert_lem (some root) (height, h) enough = elim (Option-cases (lookup_from key root)) [
    | inr (v, there) ↦
        let same = insert_held root v there in
        inr (λ free. absurd (cc (there, free)), ap (λ r. r.0) same, ap (λ r. r.1) same)
    | inl free ↦ elim (insert-Outcome (some root) (height, h)).1 [
      | inl (done, _, found) ↦ inl (free, done, found)
      | inr (failed, _) ↦
          let done = (insert-Outcome (some root) (height, h)).2 enough free in
          absurd (cc (done, failed))
    ]
  ]
