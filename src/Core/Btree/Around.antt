-- ===== src/Core/Btree/Around.antt =====
-- core/btree.h: a node around the child that a search goes to.
use cpp_lkm.Prelude.{
  ℕ, suc, ◌+◌, ◌≤◌, ◌<◌, ◌≡◌, refl, sym, ap, ap₂, ◌∙◌, Bool, List, [], ◌∷◌, ◌++◌, some, map, length,
  length-map, length-take, length-drop, arith, take, drop, take-append-drop, get_elem?, set,
  get-split, set-split, inside-get,
}
use cpp_lkm.Core.Btree.{Node, Nodes, btree_node, to_list, from_list, key_at}
use cpp_lkm.Core.Btree.Order.{
  AllBelow, AllAbove, Ascends, Ascends-left, take-AllBelow, drop-AllAbove,
}
use cpp_lkm.Core.Btree.Shape.{
  weave, follow, entries, entries_under-map, to_list-from_list, weave-around, weave-AllBelow,
  follow-AllAbove,
}

module _ {ℓ} {V : Type ℓ} where
  -- the entries before and behind the child at an index
  abbrev pub before : List (Node V) → List (ℕ × V) → ℕ → List (ℕ × V)
  before list es i = weave (map entries (take i list)) (take i es)

  abbrev pub behind : List (Node V) → List (ℕ × V) → ℕ → List (ℕ × V)
  behind list es i = follow (map entries (drop (suc i) list)) (drop i es)

  pub map-append :
      (xs ys : List (Node V)) → map entries (xs ++ ys) ≡ map entries xs ++ map entries ys
  map-append [] ys = refl
  map-append (x ∷ xs) ys = ap (λ t. entries x ∷ t) (map-append xs ys)

  pub entries-list :
      (leaf : Bool) (es : List (ℕ × V)) (nodes : Nodes V)
      → entries (btree_node leaf es nodes) ≡ weave (map entries (to_list nodes)) es
  unfolding entries
  entries-list leaf es nodes = ap (λ t. weave t es) (entries_under-map nodes)

  pub entries-from_list :
      (leaf : Bool) (es : List (ℕ × V)) (list : List (Node V))
      → entries (btree_node leaf es (from_list list)) ≡ weave (map entries list) es
  entries-from_list leaf es list =
      entries-list leaf es (from_list list)
      ∙ ap (λ t. weave (map entries t) es) (to_list-from_list list)

  weave-child :
      (list : List (Node V)) (es : List (ℕ × V)) (i : ℕ) (child : Node V)
      → i ≤ length es
      → i ≤ length list
      → weave (map entries (take i list ++ (child ∷ drop (suc i) list))) es
        ≡ before list es i ++ (entries child ++ behind list es i)
  weave-child list es i child h k =
      ap₂ weave (map-append (take i list) (child ∷ drop (suc i) list)) (sym (take-append-drop i es))
      ∙ weave-around (map entries (take i list)) (entries child) (map entries (drop (suc i) list))
          (take i es) (drop i es)
          (omega (arith, length-map (take i list) entries, length-take i list, length-take i es))

  -- The entries of a node are those before a child, those under it and those behind it.
  pub entries_around :
      (leaf : Bool) (es : List (ℕ × V)) (nodes : Nodes V) (i : ℕ) (child : Node V)
      → i ≤ length es
      → get_elem? (to_list nodes) i ≡ some child
      → entries (btree_node leaf es nodes)
        ≡ before (to_list nodes) es i ++ (entries child ++ behind (to_list nodes) es i)
  entries_around leaf es nodes i child h found =
      entries-list leaf es nodes
      ∙ ap (λ t. weave (map entries t) es) (get-split (to_list nodes) i child found)
      ∙ weave-child (to_list nodes) es i child h
          (omega (arith, inside-get (to_list nodes) i child found))

  -- Another child in its place leaves the rest as it is.
  pub entries_changed :
      (leaf : Bool) (es : List (ℕ × V)) (nodes : Nodes V) (i : ℕ) (child : Node V)
      → i ≤ length es
      → i < length (to_list nodes)
      → entries (btree_node leaf es (from_list (set (to_list nodes) i child)))
        ≡ before (to_list nodes) es i ++ (entries child ++ behind (to_list nodes) es i)
  entries_changed leaf es nodes i child h k =
      entries-from_list leaf es (set (to_list nodes) i child)
      ∙ ap (λ t. weave (map entries t) es) (set-split (to_list nodes) i child k)
      ∙ weave-child (to_list nodes) es i child h (omega arith)

  -- At the place of a key: all entries before the child are below the key.
  pub before-AllBelow :
      (list : List (Node V)) (es : List (ℕ × V)) (i key : ℕ) (rest : List (ℕ × V))
      → i ≤ length es
      → i ≤ length list
      → Ascends (before list es i ++ rest)
      → ((j : ℕ) → j < i → key_at es j < key)
      → AllBelow key (before list es i)
  before-AllBelow list es i key rest h k order below =
      weave-AllBelow key (map entries (take i list)) (take i es)
        (omega (arith, length-map (take i list) entries, length-take i list, length-take i es))
        (Ascends-left (before list es i) rest order) (take-AllBelow key es i below)

  -- All entries behind the child are above the key, if those of the node from there on are.
  pub behind-AllAbove :
      (list : List (Node V)) (es : List (ℕ × V)) (i key : ℕ)
      → i ≤ length es
      → length list ≡ length es + 1
      → Ascends (behind list es i)
      → ((j : ℕ) → i ≤ j → j < length es → key < key_at es j)
      → AllAbove key (behind list es i)
  behind-AllAbove list es i key h count order above =
      follow-AllAbove key (map entries (drop (suc i) list)) (drop i es)
        (omega (
          arith,
          length-map (drop (suc i) list) entries,
          length-drop (suc i) list,
          length-drop i es,
        ))
        order (drop-AllAbove key es i above)
