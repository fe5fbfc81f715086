-- ===== src/Core/Btree/Search.antt =====
-- core/btree.h: the binary search in a node finds the place of a key.
use native.Mathlib.Decide.{dec_lt, ℕ_discrete}
use cpp_lkm.Prelude.{
  ℕ, zero, suc, ◌+◌, ◌-◌, ◌/◌, ◌≤◌, ◌<◌, ◌≡◌, ◌≢◌, ◌⊎◌, inl, inr, refl, Bool, true, false,
  Bool-cases, List, none, some, ltb, ◌==◌, ltb→lt, length, arith,
}
use cpp_lkm.Core.Btree.{key_at, search, find_key_index, is_key_probably_inside, get_key_index}

module _ {ℓ} {V : Type ℓ} where
  -- the keys ascend
  abbrev pub IsSorted : List (ℕ × V) → Type 0
  IsSorted es = (i j : ℕ) → i < j → j < length es → key_at es i < key_at es j

  -- the place of a key: the keys before it are less, and those from it on are not
  pub record IsPlace (es : List (ℕ × V)) (key i : ℕ) : Type 0 where
    pub inside : i ≤ length es
    pub below : (j : ℕ) → j < i → key_at es j < key
    pub above : (j : ℕ) → i ≤ j → j < length es → key ≤ key_at es j

  -- what the loop returns: the index of the key, or a place in front of larger keys
  abbrev pub Outcome : List (ℕ × V) → ℕ → Bool × ℕ → Type 0
  Outcome es key r =
      ((r.0 ≡ true) × (r.1 < length es) × (key_at es r.1 ≡ key))
      ⊎ ((r.0 ≡ false)
          × (r.1 ≤ length es)
          × ((j : ℕ) → j < r.1 → key_at es j < key)
          × ((j : ℕ) → r.1 ≤ j → j < length es → key < key_at es j))

  -- keys on one side of an index, from the key there
  before :
      (es : List (ℕ × V)) (key m : ℕ)
      → IsSorted es
      → m < length es
      → key_at es m < key
      → (j : ℕ) → j < m + 1
      → key_at es j < key
  before es key m sorted inside less j h = elim (ℕ_discrete j m) [
    | yes e ↦ rw e less
    | no ne ↦ omega (arith, sorted j m (omega arith) inside)
  ]

  behind :
      (es : List (ℕ × V)) (key m : ℕ)
      → IsSorted es
      → key < key_at es m
      → (j : ℕ) → m ≤ j
      → j < length es
      → key < key_at es j
  behind es key m sorted less j h inside = elim (ℕ_discrete j m) [
    | yes e ↦ rw e less
    | no ne ↦ omega (arith, sorted m j (omega arith) inside)
  ]

  -- with as much fuel as the range is long, and one more
  search_lem :
      (fuel : ℕ) (es : List (ℕ × V)) (key start end : ℕ)
      → IsSorted es
      → start ≤ end
      → end ≤ length es
      → end < start + fuel
      → ((j : ℕ) → j < start → key_at es j < key)
      → ((j : ℕ) → end ≤ j → j < length es → key < key_at es j)
      → Outcome es key (search fuel es key start end)
  unfolding search
  search_lem zero es key start end sorted order inside enough below above = absurd (omega arith)
  search_lem (suc fuel) es key start end sorted order inside enough below above =
      let mid = (start + end) / 2 in
      elim (Bool-cases (ltb start end)) [
        | inr done ↦
            let met : start ≡ end = ground arith in
            rw done (inr (refl, inside, λ j h. below j (omega arith), above))
        | inl going ↦
            let some_left : start < end = ltb→lt start end going in
            let lo : start ≤ mid = omega arith in
            let hi : mid < end = omega arith in
            elim (Bool-cases (key == key_at es mid)) [
              | inl hit ↦ rw (going, hit) (inl (refl, omega arith, ground arith))
              | inr miss ↦ elim (Bool-cases (ltb key (key_at es mid))) [
                | inl less ↦
                    rw (going, miss, less)
                      (search_lem fuel es key start mid sorted lo (omega arith) (omega arith) below
                        (behind es key mid sorted (ltb→lt key (key_at es mid) less)))
                | inr more ↦
                    let larger : key_at es mid < key = ground arith in
                    rw (going, miss, more)
                      (search_lem fuel es key (mid + 1) end sorted (omega arith) inside
                        (omega arith) (before es key mid sorted (omega arith) larger) above)
              ]
            ]
      ]

  whole_search :
      (es : List (ℕ × V)) (key : ℕ)
      → IsSorted es
      → Outcome es key (search (suc (length es)) es key 0 (length es))
  whole_search es key sorted =
      search_lem (suc (length es)) es key 0 (length es) sorted (omega arith) (omega arith)
        (omega arith) (λ j h. absurd (omega arith)) (λ j h inside. absurd (omega arith))

  Outcome-IsPlace :
      (es : List (ℕ × V)) (key : ℕ) (r : Bool × ℕ)
      → IsSorted es
      → Outcome es key r
      → IsPlace es key r.1
  Outcome-IsPlace es key r sorted (inl (hit, inside, same)) = record {
    inside = omega arith;
    below = λ j h. omega (arith, sorted j r.1 h inside);
    above = λ j h k. elim (ℕ_discrete j r.1) [
      | yes e ↦ rw e (omega arith)
      | no ne ↦ omega (arith, sorted r.1 j (omega arith) k)
    ];
  }
  Outcome-IsPlace es key r sorted (inr (miss, inside, below, above)) = record {
    inside = inside;
    below = below;
    above = λ j h k. omega (arith, above j h k);
  }

  nothing_above :
      (es : List (ℕ × V)) (key : ℕ)
      → IsSorted es
      → 0 < length es
      → key_at es (length es - 1) < key
      → IsPlace es key (length es)
  nothing_above es key sorted some_keys less = record {
    inside = omega arith;
    below = λ j h. before es key (length es - 1) sorted (omega arith) less j (omega arith);
    above = λ j h k. absurd (omega arith);
  }

  nothing_below : (es : List (ℕ × V)) (key : ℕ) → IsSorted es → key < key_at es 0 → IsPlace es key 0
  nothing_below es key sorted less = record {
    inside = omega arith;
    below = λ j h. absurd (omega arith);
    above = λ j h k. omega (arith, behind es key 0 sorted less j (omega arith) k);
  }

  -- In a node whose keys ascend, `FindKeyIndex` returns the place of the key.
  pub find_key_index_lem :
      (es : List (ℕ × V)) (key : ℕ) → IsSorted es → IsPlace es key (find_key_index es key)
  unfolding find_key_index
  find_key_index_lem es key sorted = elim (Bool-cases (length es == 0)) [
    | inl empty ↦
        let no_keys : length es ≡ 0 = ground arith in
        rw empty (record {
          inside = omega arith;
          below = λ j h. absurd (omega arith);
          above = λ j h k. absurd (omega arith);
        })
    | inr filled ↦
        let some_keys : 0 < length es = ground arith in
        elim (Bool-cases (ltb (key_at es (length es - 1)) key)) [
          | inl last ↦
              rw (filled, last)
                (nothing_above es key sorted some_keys
                  (ltb→lt (key_at es (length es - 1)) key last))
          | inr inner ↦ elim (Bool-cases (ltb key (key_at es 0))) [
            | inl first ↦
                rw (filled, inner, first)
                  (nothing_below es key sorted (ltb→lt key (key_at es 0) first))
            | inr within ↦
                rw (filled, inner, within)
                  (Outcome-IsPlace es key (search (suc (length es)) es key 0 (length es)) sorted
                    (whole_search es key sorted))
          ]
        ]
  ]

  outside :
      (es : List (ℕ × V)) (key : ℕ)
      → IsSorted es
      → is_key_probably_inside es key ≡ false
      → (i : ℕ) → i < length es
      → key_at es i ≢ key
  unfolding is_key_probably_inside
  outside es key sorted out i h same = elim (Bool-cases (ltb (key_at es (length es - 1)) key)) [
    | inl last ↦
        let less = ltb→lt (key_at es (length es - 1)) key last in
        omega (arith, (nothing_above es key sorted (omega arith) less).below i h)
    | inr inner ↦ elim (Bool-cases (ltb key (key_at es 0))) [
      | inl first ↦
          let less = ltb→lt key (key_at es 0) first in
          omega (arith, behind es key 0 sorted less i (omega arith) h)
      | inr within ↦
          let filled : (length es == 0) ≡ false = ground arith in
          let probably : is_key_probably_inside es key ≡ true = rw (filled, inner, within) refl in
          absurd (cc (out, probably))
    ]
  ]

  -- In a node whose keys ascend, `GetKeyIndex` returns the index of the key, or none if the key is
  -- at no index.
  pub get_key_index_lem :
      (es : List (ℕ × V)) (key : ℕ)
      → IsSorted es
      → ((i : ℕ) × (get_key_index es key ≡ some i) × (i < length es) × (key_at es i ≡ key))
        ⊎ ((get_key_index es key ≡ none) × ((i : ℕ) → i < length es → key_at es i ≢ key))
  unfolding get_key_index
  get_key_index_lem es key sorted = elim (Bool-cases (is_key_probably_inside es key)) [
    | inr out ↦ rw out (inr (refl, outside es key sorted out))
    | inl into ↦ rw into (elim (whole_search es key sorted) [
      | inl (hit, inside, same) ↦
          inl ((search (suc (length es)) es key 0 (length es)).1, rw hit refl, inside, same)
      | inr (miss, inside, below, above) ↦
          let i = (search (suc (length es)) es key 0 (length es)).1 in
          inr (
            rw miss refl,
            λ j h same. elim (dec_lt j i) [
              | yes less ↦ omega (arith, below j less)
              | no more ↦ omega (arith, above j (omega arith) h)
            ],
          )
    ])
  ]
