-- ===== src/Core/Btree/Delete/Laws.antt =====
-- core/btree.h: a B-tree is a map: what `Delete` does to it.
use cpp_lkm.Prelude.{
  ℕ, zero, suc, ◌*◌, ◌≤◌, ◌<◌, ◌≡◌, ◌≢◌, ◌⊎◌, inl, inr, refl, sym, ap, ◌∙◌, subst, Bool, true,
  false, List, Option, none, some, arith, ◌==◌, min, if◌then◌else◌,
}
use cpp_lkm.Core.Btree.{Node, btree_node, no_nodes, ◌▸◌, max_depth_from, lookup_from}
use cpp_lkm.Core.Btree.Delete.{delete_from, delete}
use cpp_lkm.Core.Btree.Delete.Round.{Deleted}
use cpp_lkm.Core.Btree.Delete.Step.{inner_lem, leaf_lem, delete_from_lem}
use cpp_lkm.Core.Btree.Delete.Without.{without-Ascends, find-without}
use cpp_lkm.Core.Btree.Depth.{max_depth-IsNode}
use cpp_lkm.Core.Btree.Insert.{lookup}
use cpp_lkm.Core.Btree.Insert.Root.{IsBtree, root-lookup}
use cpp_lkm.Core.Btree.Order.{Ascends, find}
use cpp_lkm.Core.Btree.Shape.{entries, IsNode, IsRoot}

module _ {ℓ} {V : Type ℓ} (t : ℕ) (degree : 2 ≤ t) (key : ℕ) where
  weaker :
      {a height : ℕ} {es : List (ℕ × V)} {r : Bool × Node V} (b : ℕ)
      → b ≤ a
      → Deleted t a height key es r
      → Deleted t b height key es r
  weaker {a = a} {height = height} {r = r} b less d = record {
    shape = weaker_shape height r.1 d.shape;
    whole = d.whole;
    outcome = d.outcome;
  }
    where
      weaker_shape : (height : ℕ) (m : Node V) → IsNode t a height m → IsNode t b height m
      weaker_shape zero (btree_node leaf es nodes) h = (h.0, h.1, omega (arith, h.2), h.3)
      weaker_shape (suc k) (btree_node leaf es nodes) h = (h.0, h.1, omega (arith, h.2), h.3, h.4)

  -- A deletion from a root, which may become its only child.
  root_lem :
      (height fuel : ℕ) (root : Node V)
      → height < fuel
      → IsRoot t height root
      → (h : ℕ) × Deleted t (min 1 h) h key (entries root) (delete_from t fuel key root)
  unfolding entries
  root_lem height zero root enough h = absurd (omega arith)
  root_lem zero (suc fuel) (btree_node true es no_nodes) enough h =
      (0, leaf_lem t degree 0 fuel key es (omega arith) (h.shape).3 h.order)
  root_lem zero (suc fuel) (btree_node true es (n ▸ nodes)) enough h = absurd (cc (h.shape).1)
  root_lem zero (suc fuel) (btree_node false es nodes) enough h = absurd (cc (h.shape).0)
  root_lem (suc height) (suc fuel) (btree_node true es nodes) enough h = absurd (cc (h.shape).0)
  root_lem (suc height) (suc fuel) (btree_node false es nodes) enough h =
      elim (inner_lem t degree height fuel (omega arith)
        (delete_from_lem t degree height fuel (omega arith)) (min 1 (suc height)) es nodes h.shape
        (omega (arith, (h.shape).2)) (λ more. omega arith) h.order key) [
          | inl d ↦ (suc height, d)
          | inr (one, d) ↦ (height, weaker (min 1 height) (omega arith) d)
        ]

  enough_fuel :
      (height : ℕ) (root : Node V)
      → IsNode t (min 1 height) height root
      → height < 2 * max_depth_from root
  enough_fuel height root shape = omega (arith, max_depth-IsNode t (min 1 height) height root shape)

  -- what `Delete` does
  abbrev Outcome : Option (Node V) → Bool × Option (Node V) → Type ℓ
  Outcome tree r =
      IsBtree t r.1
      × ((q : ℕ) → lookup q r.1 ≡ (if q == key then none else lookup q tree))
      × (((r.0 ≡ true) × (lookup key tree ≢ none)) ⊎ ((r.0 ≡ false) × (lookup key tree ≡ none)))

  delete-Outcome : (tree : Option (Node V)) → IsBtree t tree → Outcome tree (delete t key tree)
  unfolding delete lookup
  delete-Outcome none h = (tt, λ q. grind arith, inr (refl, refl))
  delete-Outcome (some root) (height, h) =
      let r = delete_from t (2 * max_depth_from root) key root in
      let (height', d) =
        root_lem height (2 * max_depth_from root) root (enough_fuel height root h.shape) h in
      let before : (q : ℕ) → lookup_from q root ≡ find q (entries root) =
        λ q. root-lookup t height q root degree h in
      let root' : IsRoot t height' r.1 = record {
        shape = d.shape;
        order = subst Ascends (sym d.whole) (without-Ascends key (entries root) h.order);
      } in
      (
        (height', root'),
        λ q.
            root-lookup t height' q r.1 degree root'
            ∙ ap (find q) d.whole
            ∙ find-without key (entries root) q h.order
            ∙ ap (λ x. if q == key then none else x) (sym (before q)),
        elim d.outcome [
          | inl (done, held) ↦ inl (done, λ free. held (sym (before key) ∙ free))
          | inr (missed, free) ↦ inr (missed, before key ∙ free)
        ],
      )

  -- `Delete` keeps the invariant of a tree of minimum degree 2 or more.
  pub delete-IsBtree : (tree : Option (Node V)) → IsBtree t tree → IsBtree t (delete t key tree).1
  delete-IsBtree tree h = (delete-Outcome tree h).0

  -- In a tree that satisfies the invariant for a minimum degree of 2 or more: after `Delete`,
  -- `Lookup` finds nothing for the key and what it found before for every other key; `Delete`
  -- returns true for a key that the tree held, and false for one that it did not hold.
  pub delete_lem :
      (tree : Option (Node V))
      → IsBtree t tree
      → let (done, tree') = delete t key tree in
        ((q : ℕ) → lookup q tree' ≡ (if q == key then none else lookup q tree))
        × (((done ≡ true) × (lookup key tree ≢ none)) ⊎ ((done ≡ false) × (lookup key tree ≡ none)))
  delete_lem tree h = let r = delete-Outcome tree h in (r.1, r.2)
