-- ===== src/Core/Btree/Lookup.antt =====
-- core/btree.h: `Lookup` finds what the entries of the tree hold for a key.
use native.Mathlib.Decide.{dec_lt, ℕ_discrete}
use cpp_lkm.Prelude.{
  ℕ, zero, suc, ◌+◌, ◌-◌, ◌≤◌, ◌<◌, ◌≡◌, ◌≢◌, ◌⊎◌, inl, inr, refl, sym, ap, ◌∙◌, subst, Bool, true,
  false, Bool-cases, List, ◌++◌, none, some, length, All-get, arith, take, drop, take-append-drop,
  get_elem?, get-inside, ltb, ltb→lt, ◌==◌, ◌&&◌,
}
use cpp_lkm.Core.Btree.{
  Node, Nodes, btree_node, no_nodes, ◌▸◌, to_list, key_at, find_key_index, lookup_from,
  lookup_child,
}
use cpp_lkm.Core.Btree.Around.{before, behind, entries_around}
use cpp_lkm.Core.Btree.Entries.{
  weave-Ascends, find-entry, strictly_above, node-IsPlace, child_alone,
}
use cpp_lkm.Core.Btree.Order.{
  Ascends, Ascends-IsSorted, find, find-skip, find-cut, find-AllAbove, take-AllBelow, drop-AllAbove,
  key_at-get,
}
use cpp_lkm.Core.Btree.Search.{find_key_index_lem}
use cpp_lkm.Core.Btree.Shape.{weave, entries, entries_under, IsNode}

module _ {ℓ} {V : Type ℓ} where
  lookup_child-get :
      (key : ℕ) (nodes : Nodes V) (i : ℕ) (child : Node V)
      → get_elem? (to_list nodes) i ≡ some child
      → lookup_child key nodes i ≡ lookup_from key child
  unfolding lookup_from
  lookup_child-get key no_nodes i child h = absurd (cc h)
  lookup_child-get key (n ▸ nodes) zero child h =
      let same : n ≡ child = cc h in ap (lookup_from key) same
  lookup_child-get key (n ▸ nodes) (suc i) child h = lookup_child-get key nodes i child h

  hit_lem :
      (key : ℕ) (leaf : Bool) (es : List (ℕ × V)) (nodes : Nodes V)
      → Ascends (entries (btree_node leaf es nodes))
      → find_key_index es key < length es
      → key_at es (find_key_index es key) ≡ key
      → lookup_from key (btree_node leaf es nodes) ≡ find key (entries (btree_node leaf es nodes))
  unfolding lookup_from entries
  hit_lem key leaf es nodes order inside same =
      let i = find_key_index es key in
      let (e, found) = get-inside es i inside in
      let is_e : e.0 ≡ key = sym (key_at-get es i e found) ∙ same in
      let some_keys : (length es == 0) ≡ false = ground arith in
      let hit : (ltb i (length es) && (key == key_at es i)) ≡ true = ground arith in
      rw (some_keys, hit, found)
        (sym (
          ap (λ k. find k (weave (entries_under nodes) es)) (sym is_e)
          ∙ find-entry (entries_under nodes) es i e order found))

  key_decision :
      (es : List (ℕ × V)) (key i : ℕ)
      → ((i < length es) × (key_at es i ≡ key)) ⊎ (i < length es → key_at es i ≢ key)
  key_decision es key i = elim (dec_lt i (length es)) [
    | no out ↦ inr (λ inside. absurd (out inside))
    | yes inside ↦ elim (ℕ_discrete (key_at es i) key) [
      | yes same ↦ inl (inside, same)
      | no other ↦ inr (λ _. other)
    ]
  ]

  -- the test of the hit fails
  no_hit :
      (key : ℕ) (es : List (ℕ × V)) (i : ℕ)
      → (i < length es → key_at es i ≢ key)
      → (ltb i (length es) && (key == key_at es i)) ≡ false
  no_hit key es i miss = elim (Bool-cases (ltb i (length es))) [
    | inr out ↦ rw out refl
    | inl inside ↦
        let other : key_at es i ≢ key = miss (ltb→lt i (length es) inside) in
        let differs : (key == key_at es i) ≡ false = ground arith in rw (inside, differs) refl
  ]

  leaf_miss :
      (key : ℕ) (es : List (ℕ × V))
      → Ascends es
      → (find_key_index es key < length es → key_at es (find_key_index es key) ≢ key)
      → lookup_from key (btree_node true es no_nodes) ≡ find key es
  unfolding lookup_from
  leaf_miss key es order miss =
      let i = find_key_index es key in
      let sorted = Ascends-IsSorted es order in
      let place = find_key_index_lem es key sorted in
      let absent : find key es ≡ none =
        ap (find key) (sym (take-append-drop i es))
        ∙ find-skip key (take i es) (drop i es) (take-AllBelow key es i place.below)
        ∙ find-AllAbove key (drop i es)
            (drop-AllAbove key es i (strictly_above es key i sorted place miss)) in
      elim (Bool-cases (length es == 0)) [
        | inl empty ↦ rw (empty, absent) refl
        | inr filled ↦ rw (filled, no_hit key es i miss, absent) refl
      ]

  inner_miss :
      (key : ℕ) (es : List (ℕ × V)) (nodes : Nodes V) (child : Node V)
      → Ascends (entries (btree_node false es nodes))
      → length (to_list nodes) ≡ length es + 1
      → 1 ≤ length es
      → get_elem? (to_list nodes) (find_key_index es key) ≡ some child
      → (find_key_index es key < length es → key_at es (find_key_index es key) ≢ key)
      → lookup_from key child ≡ find key (entries child)
      → lookup_from key (btree_node false es nodes) ≡ find key (entries (btree_node false es nodes))
  unfolding lookup_from
  inner_miss key es nodes child order count some_keys found miss below =
      let i = find_key_index es key in
      let (below_key, above_key, _) = child_alone key false es nodes child order count found miss in
      let front = before (to_list nodes) es i in
      let back = behind (to_list nodes) es i in
      let place = node-IsPlace key false es nodes order in
      let filled : (length es == 0) ≡ false = ground arith in
      let there : find key (entries (btree_node false es nodes)) ≡ find key (entries child) =
        ap (find key) (entries_around false es nodes i child place.inside found)
        ∙ find-skip key front (entries child ++ back) below_key
        ∙ find-cut key (entries child) back above_key in
      rw (filled, no_hit key es i miss, there) (lookup_child-get key nodes i child found ∙ below)

  -- In a tree whose keys ascend from left to right, the search from a node of the shape of a B-tree
  -- finds what the entries hold.
  pub lookup_from_lem :
      (t least height key : ℕ) (n : Node V)
      → 2 ≤ t
      → 1 ≤ least + (1 - height)
      → IsNode t least height n
      → Ascends (entries n)
      → lookup_from key n ≡ find key (entries n)
  unfolding entries
  lookup_from_lem t least zero key (btree_node leaf es nodes) degree some_keys shape order =
      elim (key_decision es key (find_key_index es key)) [
        | inl (inside, same) ↦ hit_lem key leaf es nodes order inside same
        | inr miss ↦
            subst
              (λ l.
                lookup_from key (btree_node l es nodes)
                ≡ find key (entries (btree_node l es nodes)))
              (sym shape.0)
              (subst
                (λ ns.
                  lookup_from key (btree_node true es ns)
                  ≡ find key (entries (btree_node true es ns)))
                (sym shape.1)
                (leaf_miss key es (weave-Ascends (entries_under nodes) es order) miss))
      ]
  lookup_from_lem t least (suc height) key (btree_node leaf es nodes) degree some_keys shape order =
      elim (key_decision es key (find_key_index es key)) [
        | inl (inside, same) ↦ hit_lem key leaf es nodes order inside same
        | inr miss ↦
            let place = node-IsPlace key leaf es nodes order in
            let (child, found) =
              get-inside (to_list nodes) (find_key_index es key)
                (omega (arith, place.inside, shape.1)) in
            let (_, _, below) = child_alone key leaf es nodes child order shape.1 found miss in
            let child_shape =
              All-get (IsNode t (t - 1) height) (to_list nodes) (find_key_index es key) child
                shape.4 found in
            subst
              (λ l.
                Ascends (entries (btree_node l es nodes))
                → lookup_from key (btree_node l es nodes)
                  ≡ find key (entries (btree_node l es nodes)))
              (sym shape.0)
              (λ order'.
                inner_miss key es nodes child order' shape.1 (omega arith) found miss (
                  lookup_from_lem t (t - 1) height key child degree (omega arith) child_shape
                    below))
              order
      ]
