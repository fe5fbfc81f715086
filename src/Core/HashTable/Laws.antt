-- ===== src/Core/HashTable/Laws.antt =====
-- core/hash_table.h: a table as a map from keys to values.
use cpp_lkm.Prelude.{
  ℕ, ◌≤◌, ◌≡◌, ◌≢◌, refl, sym, ap, subst, ◌∙◌, Bool, true, false, List, [], ◌∷◌, ◌++◌, Option, none,
  some, Option-cases, if◌then◌else◌, arith, Bool-cases, inl, inr, ◌==◌, ==_iff, max, Error, success,
}
use native.Mathlib.Decide.{ℕ_discrete}
use cpp_lkm.Core.HashTable.{
  HashKey, HashTable, put_bucket, home, find, exists, erase, insert, insert_move, insert_err,
  delete, lookup, check_exist,
}
use cpp_lkm.Core.HashTable.Chain.{
  to_nat, is_some, count, exists-find, count_of_none, count-append, find-add, erase_of_none,
  erase_of_some,
}

home_eq {ℓ} :
    {K : Type ℓ} ⦃key : HashKey K⦄ (n : ℕ) (q k : K) → key.equal k q ≡ true → home n q ≡ home n k
home_eq ⦃key⦄ n q k h = ap (home n) (sym ((key.equal_iff k q).0 h))

put_bucket-eq {ℓ} : {A : Type ℓ} (f : ℕ → A) (i j : ℕ) (x : A) → j ≡ i → put_bucket f i x j ≡ x
unfolding put_bucket
put_bucket-eq f i j x e = rw ((==_iff j i).1 e)

put_bucket-ne {ℓ} : {A : Type ℓ} (f : ℕ → A) (i j : ℕ) (x : A) → j ≢ i → put_bucket f i x j ≡ f j
unfolding put_bucket
put_bucket-ne f i j x e = elim (Bool-cases (j == i)) [
  | inl h ↦ absurd (e ((==_iff j i).0 h))
  | inr h ↦ rw h
]

to_nat-le-one : (b : Bool) → to_nat b ≤ 1
to_nat-le-one b = ground arith

module _ {ℓ} {K V : Type ℓ} ⦃key : HashKey K⦄ (n : ℕ) where
  -- the value that the table has for a key
  unfoldable pub view : HashTable K V → K → Option V
  view t k = find k (t.bucket (home n k))

  -- a key stands at most once, and in its own bucket only
  pub record IsValid (t : HashTable K V) : Type ℓ where
    pub once : (k : K) (i : ℕ) → count k (t.bucket i) ≤ 1
    pub at_home : (k : K) (i : ℕ) → i ≢ home n k → count k (t.bucket i) ≡ 0

  -- A lookup returns the value and that it exists, or the empty value; `CheckExist` agrees.
  pub lookup-view :
      (k : K) (t : HashTable K V)
      → (lookup n k t ≡ elim (view t k) [ none ↦ (t.empty_value, false) | some v ↦ (v, true) ])
        × (check_exist n k t ≡ is_some (view t k))
  unfolding lookup check_exist view
  lookup-view k t = (refl, exists-find k (t.bucket (home n k)))

  -- the table whose chain for `k` is `c`
  abbrev pub replaced : K → List (K × V) → HashTable K V → HashTable K V
  replaced k c t = record t { bucket = put_bucket t.bucket (home n k) c }

  replaced-view :
      (k : K) (c : List (K × V)) (t : HashTable K V) (o : Option V)
      → ((q : K) → find q c ≡ (if key.equal k q then o else find q (t.bucket (home n k))))
      → (q : K) → view (replaced k c t) q ≡ (if key.equal k q then o else view t q)
  unfolding view
  replaced-view k c t o finds q = elim (ℕ_discrete (home n q) (home n k)) [
    | yes same ↦ rw (put_bucket-eq t.bucket (home n k) (home n q) c same, same) (finds q)
    | no other ↦ elim (Bool-cases (key.equal k q)) [
      | inl h ↦ absurd (other (home_eq n q k h))
      | inr h ↦ rw (put_bucket-ne t.bucket (home n k) (home n q) c other, h)
    ]
  ]

  replaced-IsValid :
      (k : K) (c : List (K × V)) (t : HashTable K V)
      → IsValid t
      → ((q : K) → count q c ≤ max (to_nat (key.equal k q)) (count q (t.bucket (home n k))))
      → IsValid (replaced k c t)
  replaced-IsValid k c t valid few = record {
    once = λ q i. elim (ℕ_discrete i (home n k)) [
      | yes e ↦
          rw (put_bucket-eq t.bucket (home n k) i c e)
            (omega (arith, few q, valid.once q (home n k), to_nat-le-one (key.equal k q)))
      | no e ↦ rw (put_bucket-ne t.bucket (home n k) i c e) (valid.once q i)
    ];
    at_home = λ q i away. elim (ℕ_discrete i (home n k)) [
      | yes e ↦ elim (Bool-cases (key.equal k q)) [
        | inl h ↦ absurd (away (e ∙ sym (home_eq n q k h)))
        | inr h ↦
            rw (put_bucket-eq t.bucket (home n k) i c e)
              (omega (arith, rw h at (few q), rw e at (valid.at_home q i away)))
      ]
      | no e ↦ rw (put_bucket-ne t.bucket (home n k) i c e) (valid.at_home q i away)
    ];
  }

  few-add :
      (k : K) (v : V) (c : List (K × V))
      → find k c ≡ none
      → (q : K) → count q (c ++ ((k, v) ∷ [])) ≤ max (to_nat (key.equal k q)) (count q c)
  unfolding count
  few-add k v c new q = elim (Bool-cases (key.equal k q)) [
    | inl h ↦
        let none_yet : count q c ≡ 0 =
          subst (λ t. count t c ≡ 0) ((key.equal_iff k q).0 h) (count_of_none k c new) in
        rw (count-append, h) (omega arith)
    | inr h ↦ rw (count-append, h) (omega arith)
  ]

  delete_of_none :
      (k : K) (t : HashTable K V) → erase k (t.bucket (home n k)) ≡ none → delete n k t ≡ (false, t)
  unfolding delete
  delete_of_none k t e = rw (e, delete)

  delete_of_some :
      (k : K) (t : HashTable K V) (d : List (K × V))
      → erase k (t.bucket (home n k)) ≡ some d
      → delete n k t ≡ (true, replaced k d t)
  unfolding delete
  delete_of_some k t d e = rw (e, delete)

  -- An insert of a new key into a valid table, with memory for its node, returns true, stores the
  -- value under this key alone and keeps the table valid.
  pub insert-new :
      (k : K) (v : V) (t : HashTable K V)
      → IsValid t
      → view t k ≡ none
      → let (done, t') = insert n true k v t in
        (done ≡ true)
        × ((q : K) → view t' q ≡ (if key.equal k q then some v else view t q))
        × IsValid t'
  unfolding insert view count
  insert-new k v t valid new =
      let c = t.bucket (home n k) in
      let absent : exists k c ≡ false = exists-find k c ∙ ap is_some new in
      rw absent (
        refl,
        replaced-view k (c ++ ((k, v) ∷ [])) t (some v) (λ q. find-add q k v c new),
        replaced-IsValid k (c ++ ((k, v) ∷ [])) t valid (few-add k v c new),
      )

  absent :
      (k q : K) (t : HashTable K V)
      → view t k ≡ none
      → view t q ≡ (if key.equal k q then none else view t q)
  absent k q t e = elim (Bool-cases (key.equal k q)) [
    | inl h ↦ rw h (ap (view t) (sym ((key.equal_iff k q).0 h)) ∙ e)
    | inr h ↦ rw h
  ]

  same_chain :
      (k : K) (t : HashTable K V) (q : K) → view (replaced k (t.bucket (home n k)) t) q ≡ view t q
  unfolding view
  same_chain k t q = elim (ℕ_discrete (home n q) (home n k)) [
    | yes e ↦ rw (put_bucket-eq t.bucket (home n k) (home n q) (t.bucket (home n k)) e, e)
    | no e ↦ rw (put_bucket-ne t.bucket (home n k) (home n q) (t.bucket (home n k)) e)
  ]

  -- A delete from a valid table returns whether the key was there, removes it alone, and keeps the
  -- table valid.
  pub delete-view :
      (k : K) (t : HashTable K V)
      → IsValid t
      → let (done, t') = delete n k t in
        (done ≡ is_some (view t k))
        × ((q : K) → view t' q ≡ (if key.equal k q then none else view t q))
        × IsValid t'
  unfolding view
  delete-view k t valid = elim (Option-cases (find k (t.bucket (home n k)))) [
    | inl e ↦
        rw (delete_of_none k t (erase_of_none k (t.bucket (home n k)) e), e)
          (refl, λ q. absent k q t e, valid)
    | inr (v, e) ↦
        let (d, gone) = erase_of_some k (t.bucket (home n k)) v e in
        rw (delete_of_some k t d gone.erased, e)
          (
            refl,
            replaced-view k d t none (λ q. gone.finds q (valid.once q (home n k))),
            replaced-IsValid k d t valid (λ q. omega (arith, gone.counts q)),
          )
  ]

  -- An insert of a key that is there returns false and changes nothing, by each of the three
  -- overloads; the third is called without an error.
  pub insert-present :
      (allocated : Bool) (e : Error) (k : K) (v w : V) (t : HashTable K V)
      → view t k ≡ some w
      → (insert n allocated k v t ≡ (false, t))
        × (insert_move n allocated k v t ≡ (false, t))
        × (insert_err n success e allocated k v t ≡ (false, success, t))
  unfolding insert insert_move insert_err view
  insert-present allocated e k v w t there =
      let present : exists k (t.bucket (home n k)) ≡ true =
        exists-find k (t.bucket (home n k)) ∙ ap is_some there in
      (rw present, rw present, rw present)

  -- Without memory for the node of a new key, the copying insert returns true and the moving one
  -- false, and neither stores anything.
  pub insert-no_memory :
      (k : K) (v : V) (t : HashTable K V)
      → view t k ≡ none
      → ((insert n false k v t).0 ≡ true)
        × ((insert_move n false k v t).0 ≡ false)
        × ((q : K) → view (insert n false k v t).1 q ≡ view t q)
        × ((q : K) → view (insert_move n false k v t).1 q ≡ view t q)
  unfolding insert insert_move view
  insert-no_memory k v t new =
      let c = t.bucket (home n k) in
      let absent : exists k c ≡ false = exists-find k c ∙ ap is_some new in
      rw absent (refl, refl, same_chain k t, same_chain k t)
