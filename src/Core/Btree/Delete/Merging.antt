-- ===== src/Core/Btree/Delete/Merging.antt =====
-- core/btree.h: `Merge` of two siblings and the entry between.
use cpp_lkm.Prelude.{
  ℕ, zero, suc, ◌+◌, ◌-◌, ◌*◌, ◌≤◌, ◌<◌, ◌≡◌, refl, sym, ap, ap₂, ◌∙◌, subst, true, false, List,
  ◌∷◌, ◌++◌, map, length, length-map, length-append, All, All-append, arith,
}
use cpp_lkm.Core.Btree.{Node, Nodes, btree_node, no_nodes, to_list}
use cpp_lkm.Core.Btree.Around.{map-append, entries-list, entries-from_list}
use cpp_lkm.Core.Btree.Delete.{merge}
use cpp_lkm.Core.Btree.Insert.{entries_of}
use cpp_lkm.Core.Btree.Insert.Split.{weave-halves}
use cpp_lkm.Core.Btree.Shape.{weave, entries, IsNode, to_list-from_list}
use cpp_lkm.Core.Btree.Delete.Sibling.{IsChild, same_kind}

module _ {ℓ} {V : Type ℓ} where
  -- two siblings with the fewest entries and the entry between, merged
  pub record Merged (t height : ℕ) (l : Node V) (e : ℕ × V) (r : Node V) : Type ℓ where
    pub shape : IsNode t (2 * t - 1) height (merge l e r)
    pub whole : entries (merge l e r) ≡ entries l ++ (e ∷ entries r)

  inner_merge :
      (t height : ℕ) (es : List (ℕ × V)) (nodes : Nodes V) (e : ℕ × V) (es' : List (ℕ × V))
      (nodes' : Nodes V)
      → 2 ≤ t
      → length es ≡ t - 1
      → length es' ≡ t - 1
      → length (to_list nodes) ≡ length es + 1
      → length (to_list nodes') ≡ length es' + 1
      → All (IsChild t height) (to_list nodes)
      → All (IsChild t height) (to_list nodes')
      → Merged t (suc height) (btree_node false es nodes) e (btree_node false es' nodes')
  unfolding merge
  inner_merge t height es nodes e es' nodes' degree poor poor' count count' all all' =
      let list = to_list nodes in
      let list' = to_list nodes' in
      let size = length-append es (e ∷ es') in
      record {
        shape = (
          refl,
          ap length (to_list-from_list (list ++ list'))
              ∙ omega (arith, length-append list list', size),
          omega (arith, size),
          omega (arith, size),
          subst (All (IsChild t height)) (sym (to_list-from_list (list ++ list')))
              (All-append (IsChild t height) list list' all all'),
        );
        whole =
            entries-from_list false (es ++ (e ∷ es')) (list ++ list')
            ∙ ap (λ c. weave c (es ++ (e ∷ es'))) (map-append list list')
            ∙ weave-halves (map entries list) (map entries list') es e es'
                (omega (arith, length-map list entries))
            ∙ ap₂ (λ x y. x ++ (e ∷ y)) (sym (entries-list false es nodes))
                (sym (entries-list false es' nodes'));
      }

  leaf_merge :
      (t : ℕ) (es : List (ℕ × V)) (e : ℕ × V) (es' : List (ℕ × V))
      → 2 ≤ t
      → length es ≡ t - 1
      → length es' ≡ t - 1
      → Merged t 0 (btree_node true es no_nodes) e (btree_node true es' no_nodes)
  unfolding merge entries
  leaf_merge t es e es' degree poor poor' =
      let size = length-append es (e ∷ es') in
      record { shape = (refl, refl, omega (arith, size), omega (arith, size)); whole = refl }

  -- Two siblings that both have the fewest entries.
  pub merge_lem :
      (t height : ℕ) (l : Node V) (e : ℕ × V) (r : Node V)
      → 2 ≤ t
      → IsNode t (t - 1) height l
      → IsNode t (t - 1) height r
      → length (entries_of l) < t
      → length (entries_of r) < t
      → Merged t height l e r
  merge_lem t zero (btree_node leaf es nodes) e (btree_node leaf' es' nodes') degree h h' poor
        poor' =
      same_kind (λ l r. Merged t 0 l e r) t (t - 1) (t - 1) leaf leaf' es es' nodes nodes' h h'
        (leaf_merge t es e es' degree (omega (arith, h.2)) (omega (arith, h'.2)))
  merge_lem t (suc height) (btree_node leaf es nodes) e (btree_node leaf' es' nodes') degree h h'
        poor poor' =
      subst (λ x. Merged t (suc height) (btree_node x es nodes) e (btree_node leaf' es' nodes'))
        (sym h.0)
        (subst (λ x. Merged t (suc height) (btree_node false es nodes) e (btree_node x es' nodes'))
          (sym h'.0)
          (inner_merge t height es nodes e es' nodes' degree (omega (arith, h.2))
            (omega (arith, h'.2)) h.1 h'.1 h.4 h'.4))
