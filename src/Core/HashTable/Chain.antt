-- ===== src/Core/HashTable/Chain.antt =====
-- core/hash_table.h, core/list.h: one chain of entries.
use cpp_lkm.Prelude.{
  ℕ, ◌+◌, ◌≤◌, ◌≡◌, refl, ap, Bool, true, false, List, [], ◌∷◌, ◌++◌, Option, none, some,
  if◌then◌else◌, arith, Bool-cases, inl, inr,
}
use cpp_lkm.Core.HashTable.{HashKey, find, exists, erase}

abbrev pub to_nat : Bool → ℕ
to_nat true = 1
to_nat false = 0

abbrev pub is_some {ℓ} : {A : Type ℓ} → Option A → Bool
is_some none = false
is_some (some _) = true

none-some {ℓ} : {A : Type ℓ} {a : A} → none ≡ some a → ⊥
none-some h = cc

-- equal keys are told apart from a third alike
pub cong {ℓ} :
    {K : Type ℓ} ⦃key : HashKey K⦄ (q a b : K)
    → key.equal a b ≡ true
    → key.equal a q ≡ key.equal b q
cong ⦃key⦄ q a b h = ap (λ t. key.equal t q) ((key.equal_iff a b).0 h)

module _ {ℓ} {K V : Type ℓ} ⦃key : HashKey K⦄ where
  -- how many entries have the key
  unfoldable pub count : K → List (K × V) → ℕ
  count k [] = 0
  count k (e ∷ c) = to_nat (key.equal e.0 k) + count k c

  pub exists-find : (k : K) (c : List (K × V)) → exists k c ≡ is_some (find k c)
  unfolding exists find
  exists-find k [] = refl
  exists-find k (e ∷ c) = ground (arith, exists-find k c)

  pub count_of_none : (k : K) (c : List (K × V)) → find k c ≡ none → count k c ≡ 0
  unfolding count find
  count_of_none k [] h = refl
  count_of_none k (e ∷ c) h = ground (arith, count_of_none k c)

  pub find_of_count : (k : K) (c : List (K × V)) → count k c ≡ 0 → find k c ≡ none
  unfolding count find
  find_of_count k [] h = refl
  find_of_count k (e ∷ c) h = ground (arith, find_of_count k c)

  pub count-append : (k : K) (c d : List (K × V)) → count k (c ++ d) ≡ count k c + count k d
  unfolding count
  count-append k [] d = omega arith
  count-append k (e ∷ c) d = omega (arith, count-append k c d)

  -- an entry added behind a chain without its key is found under that key alone
  pub find-add :
      (q k : K) (v : V) (c : List (K × V))
      → find k c ≡ none
      → find q (c ++ ((k, v) ∷ [])) ≡ (if key.equal k q then some v else find q c)
  unfolding find
  find-add q k v [] h = refl
  find-add q k v (e ∷ c) h =
      ground (arith, find-add q k v c, key.equal_iff e.0 q, key.equal_iff e.0 k, key.equal_iff k q)

  pub erase_of_none : (k : K) (c : List (K × V)) → find k c ≡ none → erase k c ≡ none
  unfolding find erase
  erase_of_none k [] h = refl
  erase_of_none k (e ∷ c) h = ground (arith, erase_of_none k c)

  -- what an erase leaves
  pub record Erased (k : K) (c d : List (K × V)) : Type ℓ where
    pub erased : erase k c ≡ some d
    pub counts : (q : K) → count q d + to_nat (key.equal k q) ≡ count q c
    pub finds : (q : K) → count q c ≤ 1 → find q d ≡ (if key.equal k q then none else find q c)

  pub erase_of_some :
      (k : K) (c : List (K × V)) (v : V) → find k c ≡ some v → (d : List (K × V)) × Erased k c d
  unfolding find erase count
  erase_of_some k [] v h = absurd (none-some h)
  erase_of_some k (e ∷ c) v h = elim (Bool-cases (key.equal e.0 k)) [
    | inl same ↦ (
      c,
      record {
        erased = rw same;
        counts = λ q. ground (arith, key.equal_iff e.0 k, cong q e.0 k);
        finds = λ q few. ground (arith, key.equal_iff e.0 k, cong q e.0 k, find_of_count q c);
      },
    )
    | inr other ↦
        let (d, ih) = erase_of_some k c v (rw other at h) in
        (
          e ∷ d,
          record {
            erased = rw (other, ih.erased);
            counts = λ q. omega (arith, ih.counts q);
            finds = λ q few.
                ground
                  (arith, ih.finds q, key.equal_iff e.0 q, key.equal_iff k q, key.equal_iff e.0 k);
          },
        )
  ]
