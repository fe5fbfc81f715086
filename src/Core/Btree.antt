-- ===== src/Core/Btree.antt =====
-- core/btree.h: the nodes of a B-tree, whose keys are 64-bit numbers, its search and its depths. A node
-- is a value with the entries and the children that its counts cover.
pub mod Insert
pub mod Delete
pub mod Clear
pub mod Search
pub mod Order
pub mod Shape
pub mod Around
pub mod Entries
pub mod Lookup
pub mod Depth
use cpp_lkm.Prelude.{
  ℕ, zero, suc, ◌+◌, ◌-◌, ◌*◌, ◌/◌, min, max, Bool, true, false, not, List, [], ◌∷◌, ◌++◌, Option,
  none, some, ltb, leb, ◌==◌, ◌&&◌, ◌||◌, if◌then◌else◌, length, get_elem?, set, take, drop,
}

infixr 40 ◌▸◌
-- `Leaf`, `Key` and `Value` together, and `Child`.
mutual
  pub data Node {ℓ} (V : Type ℓ) : Type ℓ where
    btree_node : Bool → List (ℕ × V) → Nodes V → Node V

  pub data Nodes {ℓ} (V : Type ℓ) : Type ℓ where
    no_nodes : Nodes V
    ◌▸◌ : Node V → Nodes V → Nodes V

module _ {ℓ} {V : Type ℓ} where
  abbrev pub to_list : Nodes V → List (Node V)
  to_list no_nodes = []
  to_list (n ▸ nodes) = n ∷ to_list nodes

  abbrev pub from_list : List (Node V) → Nodes V
  from_list [] = no_nodes
  from_list (n ∷ list) = n ▸ from_list list

  -- `Key[i]`, which is read in range only
  abbrev pub key_at : List (ℕ × V) → ℕ → ℕ
  key_at [] i = 0
  key_at (e ∷ es) zero = e.0
  key_at (e ∷ es) (suc i) = key_at es i

  -- The loop of `FindKeyIndex` and of `GetKeyIndex`: whether the key was hit, and the index that it
  -- was hit at or `end`.
  unfoldable pub search : ℕ → List (ℕ × V) → ℕ → ℕ → ℕ → Bool × ℕ
  search zero es key start end = (false, end)
  search (suc fuel) es key start end =
      let mid = (start + end) / 2 in
      let below = search fuel es key start mid in
      let above = search fuel es key (mid + 1) end in
      if ltb start end
      then if key == key_at es mid
        then (true, mid)
        else if ltb key (key_at es mid)
        then below
        else above
      else (false, end)

  -- `FindKeyIndex`
  unfoldable pub find_key_index : List (ℕ × V) → ℕ → ℕ
  find_key_index es key =
      let count = length es in
      if count == 0
      then 0
      else if ltb (key_at es (count - 1)) key
      then count
      else if ltb key (key_at es 0)
      then 0
      else (search (suc count) es key 0 count).1

  -- `IsKeyProbablyInside`
  unfoldable pub is_key_probably_inside : List (ℕ × V) → ℕ → Bool
  is_key_probably_inside es key =
      let count = length es in
      if count == 0 then false else not (ltb (key_at es (count - 1)) key || ltb key (key_at es 0))

  -- `GetKeyIndex`
  unfoldable pub get_key_index : List (ℕ × V) → ℕ → Option ℕ
  get_key_index es key =
      if not (is_key_probably_inside es key)
      then none
      else let (hit, mid) = search (suc (length es)) es key 0 (length es) in
        if hit then some mid else none

  -- `LookupLocked` from a node on; `none` is a key that does not exist.
  unfoldable mutual
    pub lookup_from : ℕ → Node V → Option V
    lookup_from key (btree_node leaf es nodes) =
        let i = find_key_index es key in
        let below = lookup_child key nodes i in
        if length es == 0
        then none
        else if ltb i (length es) && (key == key_at es i)
        then elim (get_elem? es i) [ none ↦ none | some e ↦ some e.1 ]
        else if leaf
        then none
        else below

    pub lookup_child : ℕ → Nodes V → ℕ → Option V
    lookup_child key no_nodes i = none
    lookup_child key (n ▸ nodes) zero = lookup_from key n
    lookup_child key (n ▸ nodes) (suc i) = lookup_child key nodes i

  -- `MinDepth` of a node, and the least of some more nodes and a depth.
  unfoldable mutual
    pub min_depth_from : Node V → ℕ
    min_depth_from (btree_node leaf es no_nodes) = 1
    min_depth_from (btree_node leaf es (n ▸ nodes)) =
        let depth = min_depths (min_depth_from n) nodes in if leaf then 1 else 1 + depth

    pub min_depths : ℕ → Nodes V → ℕ
    min_depths depth no_nodes = depth
    min_depths depth (n ▸ nodes) = min_depths (min depth (min_depth_from n)) nodes

  -- `MaxDepth` of a node, and the largest of some more nodes and a depth.
  unfoldable mutual
    pub max_depth_from : Node V → ℕ
    max_depth_from (btree_node leaf es no_nodes) = 1
    max_depth_from (btree_node leaf es (n ▸ nodes)) =
        let depth = max_depths (max_depth_from n) nodes in if leaf then 1 else 1 + depth

    pub max_depths : ℕ → Nodes V → ℕ
    max_depths depth no_nodes = depth
    max_depths depth (n ▸ nodes) = max_depths (max depth (max_depth_from n)) nodes
