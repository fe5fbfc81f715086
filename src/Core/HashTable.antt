-- ===== src/Core/HashTable.antt =====
-- core/hash_table.h, over chains that are core/list.h's `LinkedList`. The locks guard one bucket
-- each and are not modelled: an operation is one step.
pub mod Chain
pub mod Laws
use cpp_lkm.Prelude.{
  ℕ, ◌%◌, Bool, true, false, List, [], ◌∷◌, ◌++◌, Option, none, some, ◌==◌, if◌then◌else◌, Error,
  is_ok, ◌≡◌, ◌↔◌,
}

-- What the template asks of `K`: `Hash()` and `operator==`, which is equality of keys.
pub record HashKey {ℓ} (K : Type ℓ) : Type ℓ where
  pub hash : K → ℕ
  pub equal : K → K → Bool
  pub equal_iff : (a b : K) → (equal a b ≡ true) ↔ (a ≡ b)

-- `Bucket[BucketCount]`: the array as a function of the index.
pub record HashTable {ℓ} (K V : Type ℓ) : Type ℓ where
  pub bucket : ℕ → List (K × V)
  pub empty_value : V

-- A write to one element of the array.
unfoldable pub put_bucket {ℓ} : {A : Type ℓ} → (ℕ → A) → ℕ → A → ℕ → A
put_bucket f i x j = if j == i then x else f j

-- The bucket of a key, of `BucketCount`.
unfoldable pub home {ℓ} : {K : Type ℓ} ⦃key : HashKey K⦄ → ℕ → K → ℕ
home ⦃key⦄ count k = key.hash k % count

module _ {ℓ} {K V : Type ℓ} ⦃key : HashKey K⦄ where
  -- The loop of `Lookup`: the value of the first entry with the key.
  unfoldable pub find : K → List (K × V) → Option V
  find k [] = none
  find k (e ∷ c) = let rest = find k c in if key.equal e.0 k then some e.1 else rest

  -- The loop of `Insert` and of `CheckExist`.
  unfoldable pub exists : K → List (K × V) → Bool
  exists k [] = false
  exists k (e ∷ c) = let rest = exists k c in if key.equal e.0 k then true else rest

  -- The loop of `Delete`, with `it.Erase()`: `none` if no entry has the key.
  unfoldable pub erase : K → List (K × V) → Option (List (K × V))
  erase k [] = none
  erase k (e ∷ c) =
      let rest : Option (List (K × V)) = elim (erase k c) [ none ↦ none | some d ↦ some (e ∷ d) ] in
      if key.equal e.0 k then some c else rest

  -- `LinkedList::AddTail`: false and no change if the node cannot be allocated.
  unfoldable pub add_tail : Bool → K × V → List (K × V) → Bool × List (K × V)
  add_tail allocated e c = if allocated then (true, c ++ (e ∷ [])) else (false, c)

  -- The three `Insert`, `Delete`, `Lookup` and `CheckExist` of a table of `count` buckets.
  module _ (count : ℕ) where
    -- `Insert(const K&, const V&)` does not look at what `AddTail` returns.
    unfoldable pub insert : Bool → K → V → HashTable K V → Bool × HashTable K V
    unfolding exists add_tail put_bucket home
    insert allocated k v t =
        let i = home count k in
        if exists k (t.bucket i) then (false, t) else (
          true,
          record t { bucket = put_bucket t.bucket i (add_tail allocated (k, v) (t.bucket i)).1 },
        )

    -- `Insert(K&&, V&&)` returns what `AddTail` returns.
    unfoldable pub insert_move : Bool → K → V → HashTable K V → Bool × HashTable K V
    unfolding exists add_tail put_bucket home
    insert_move allocated k v t =
        let i = home count k in
        if exists k (t.bucket i)
        then (false, t)
        else let (added, c) = add_tail allocated (k, v) (t.bucket i) in
          (added, record t { bucket = put_bucket t.bucket i c })

    -- `Insert(const K&, const V&, Error&)`: `built` is the error after the entry was constructed.
    unfoldable pub insert_err :
        Error → Error → Bool → K → V → HashTable K V → Bool × Error × HashTable K V
    unfolding insert_move
    insert_err e built allocated k v t =
        if is_ok e
        then if exists k (t.bucket (home count k))
          then (false, e, t)
          else if is_ok built
          then (let (added, t') = insert_move allocated k v t in (added, built, t'))
          else (false, built, t)
        else (false, e, t)

    unfoldable pub delete : K → HashTable K V → Bool × HashTable K V
    unfolding erase put_bucket home
    delete k t =
        let i = home count k in
        elim (erase k (t.bucket i)) [
          | none ↦ (false, t)
          | some c ↦ (true, record t { bucket = put_bucket t.bucket i c })
        ]

    -- The value and `exist`.
    unfoldable pub lookup : K → HashTable K V → V × Bool
    unfolding find home
    lookup k t = elim (find k (t.bucket (home count k))) [
      | none ↦ (t.empty_value, false)
      | some v ↦ (v, true)
    ]

    unfoldable pub check_exist : K → HashTable K V → Bool
    unfolding exists home
    check_exist k t = exists k (t.bucket (home count k))
