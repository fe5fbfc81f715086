-- ===== src/Core/Btree/Order.antt =====
-- core/btree.h: entries whose keys ascend, the map that they are, and an entry put into them.
use cpp_lkm.Prelude.{
  ℕ, zero, suc, ◌≤◌, ◌<◌, ◌≡◌, refl, sym, ap, ◌∙◌, List, [], ◌∷◌, ◌++◌, Option, none, some, ltb,
  ◌==◌, length, All, All-left, All-right, if◌then◌else◌, arith, take, drop, take-append-drop,
  get_elem?,
}
use cpp_lkm.Core.Btree.{key_at}
use cpp_lkm.Core.Btree.Insert.{put_at}
use cpp_lkm.Core.Btree.Search.{IsSorted}

module _ {ℓ} {V : Type ℓ} where
  -- all keys are less than a key, or larger
  abbrev pub AllBelow : ℕ → List (ℕ × V) → Type 0
  AllBelow key es = All (λ (x : ℕ × V). x.0 < key) es

  abbrev pub AllAbove : ℕ → List (ℕ × V) → Type 0
  AllAbove key es = All (λ (x : ℕ × V). key < x.0) es

  -- The abstract map: entries whose keys ascend.
  abbrev pub Ascends : List (ℕ × V) → Type 0
  Ascends [] = Unit
  Ascends (e ∷ es) = AllAbove e.0 es × Ascends es

  abbrev pub find : ℕ → List (ℕ × V) → Option V
  find key [] = none
  find key (e ∷ es) = if key == e.0 then some e.1 else find key es

  -- An entry put in front of the first larger key.
  abbrev pub put : ℕ → V → List (ℕ × V) → List (ℕ × V)
  put key value [] = (key, value) ∷ []
  put key value (e ∷ es) =
      let later = e ∷ put key value es in if ltb key e.0 then (key, value) ∷ e ∷ es else later

  pub find-put :
      (key : ℕ) (value : V) (es : List (ℕ × V)) (q : ℕ)
      → find key es ≡ none
      → find q (put key value es) ≡ (if q == key then some value else find q es)
  find-put key value [] q h = refl
  find-put key value (e ∷ es) q h = ground (arith, find-put key value es q)

  pub AllAbove-imp : (a b : ℕ) (es : List (ℕ × V)) → a ≤ b → AllAbove b es → AllAbove a es
  AllAbove-imp a b [] h k = tt
  AllAbove-imp a b (e ∷ es) h k = (omega arith, AllAbove-imp a b es h k.1)

  pub AllBelow-imp : (a b : ℕ) (es : List (ℕ × V)) → a ≤ b → AllBelow a es → AllBelow b es
  AllBelow-imp a b [] h k = tt
  AllBelow-imp a b (e ∷ es) h k = (omega arith, AllBelow-imp a b es h k.1)

  pub find-skip :
      (key : ℕ) (xs ys : List (ℕ × V)) → AllBelow key xs → find key (xs ++ ys) ≡ find key ys
  find-skip key [] ys h = refl
  find-skip key (x ∷ xs) ys h = ground (arith, find-skip key xs ys h.1)

  pub find-AllAbove : (key : ℕ) (es : List (ℕ × V)) → AllAbove key es → find key es ≡ none
  find-AllAbove key [] h = refl
  find-AllAbove key (e ∷ es) h = ground (arith, find-AllAbove key es h.1)

  pub find-cut :
      (key : ℕ) (xs ys : List (ℕ × V)) → AllAbove key ys → find key (xs ++ ys) ≡ find key xs
  find-cut key [] ys h = find-AllAbove key ys h
  find-cut key (x ∷ xs) ys h = ground (arith, find-cut key xs ys h)

  pub put-skip :
      (key : ℕ) (value : V) (xs ys : List (ℕ × V))
      → AllBelow key xs
      → put key value (xs ++ ys) ≡ xs ++ put key value ys
  put-skip key value [] ys h = refl
  put-skip key value (x ∷ xs) ys h = ground (arith, put-skip key value xs ys h.1)

  pub put-cut :
      (key : ℕ) (value : V) (xs ys : List (ℕ × V))
      → AllAbove key ys
      → put key value (xs ++ ys) ≡ put key value xs ++ ys
  put-cut key value [] [] h = refl
  put-cut key value [] (y ∷ ys) h = ground arith
  put-cut key value (x ∷ xs) ys h = ground (arith, put-cut key value xs ys h)

  AllAbove-put :
      (a key : ℕ) (value : V) (es : List (ℕ × V))
      → a < key
      → AllAbove a es
      → AllAbove a (put key value es)
  AllAbove-put a key value [] h k = (h, tt)
  AllAbove-put a key value (e ∷ es) h k = ground (arith, AllAbove-put a key value es h k.1)

  -- A new key keeps the keys ascending.
  pub put-Ascends :
      (key : ℕ) (value : V) (es : List (ℕ × V))
      → Ascends es
      → find key es ≡ none
      → Ascends (put key value es)
  put-Ascends key value [] h k = (tt, tt)
  put-Ascends key value (e ∷ es) h k =
      ground (
        arith,
        put-Ascends key value es h.1,
        AllAbove-put e.0 key value es,
        AllAbove-imp key e.0 es,
      )

  pub Ascends-left : (xs ys : List (ℕ × V)) → Ascends (xs ++ ys) → Ascends xs
  Ascends-left [] ys h = tt
  Ascends-left (x ∷ xs) ys h =
      (All-left (λ (e : ℕ × V). x.0 < e.0) xs ys h.0, Ascends-left xs ys h.1)

  pub Ascends-right : (xs ys : List (ℕ × V)) → Ascends (xs ++ ys) → Ascends ys
  Ascends-right [] ys h = h
  Ascends-right (x ∷ xs) ys h = Ascends-right xs ys h.1

  -- what stands before an entry is below it
  pub Ascends-below :
      (xs : List (ℕ × V)) (y : ℕ × V) (ys : List (ℕ × V))
      → Ascends (xs ++ (y ∷ ys))
      → AllBelow y.0 xs
  Ascends-below [] y ys h = tt
  Ascends-below (x ∷ xs) y ys h =
      ((All-right (λ (e : ℕ × V). x.0 < e.0) xs (y ∷ ys) h.0).0, Ascends-below xs y ys h.1)

  AllAbove-key_at :
      (a : ℕ) (es : List (ℕ × V)) (i : ℕ) → AllAbove a es → i < length es → a < key_at es i
  AllAbove-key_at a [] i h k = absurd (omega arith)
  AllAbove-key_at a (e ∷ es) zero h k = h.0
  AllAbove-key_at a (e ∷ es) (suc i) h k = AllAbove-key_at a es i h.1 (omega arith)

  pub Ascends-IsSorted : (es : List (ℕ × V)) → Ascends es → IsSorted es
  Ascends-IsSorted [] h i j less inside = absurd (omega arith)
  Ascends-IsSorted (e ∷ es) h i zero less inside = absurd (omega arith)
  Ascends-IsSorted (e ∷ es) h zero (suc j) less inside = AllAbove-key_at e.0 es j h.0 (omega arith)
  Ascends-IsSorted (e ∷ es) h (suc i) (suc j) less inside =
      Ascends-IsSorted es h.1 i j (omega arith) (omega arith)

  pub take-AllBelow :
      (key : ℕ) (es : List (ℕ × V)) (i : ℕ)
      → ((j : ℕ) → j < i → key_at es j < key)
      → AllBelow key (take i es)
  take-AllBelow key es zero h = tt
  take-AllBelow key [] (suc i) h = tt
  take-AllBelow key (e ∷ es) (suc i) h =
      (h 0 (omega arith), take-AllBelow key es i (λ j less. h (suc j) (omega arith)))

  pub drop-AllAbove :
      (key : ℕ) (es : List (ℕ × V)) (i : ℕ)
      → ((j : ℕ) → i ≤ j → j < length es → key < key_at es j)
      → AllAbove key (drop i es)
  drop-AllAbove key [] zero h = tt
  drop-AllAbove key [] (suc i) h = tt
  drop-AllAbove key (e ∷ es) zero h = (
    h 0 (omega arith) (omega arith),
    drop-AllAbove key es 0 (λ j more inside. h (suc j) (omega arith) (omega arith)),
  )
  drop-AllAbove key (e ∷ es) (suc i) h =
      drop-AllAbove key es i (λ j more inside. h (suc j) (omega arith) (omega arith))

  pub key_at-get :
      (es : List (ℕ × V)) (i : ℕ) (e : ℕ × V) → get_elem? es i ≡ some e → key_at es i ≡ e.0
  key_at-get [] i e h = absurd (cc h)
  key_at-get (x ∷ es) zero e h = let same : x ≡ e = cc h in ap (λ (y : ℕ × V). y.0) same
  key_at-get (x ∷ es) (suc i) e h = key_at-get es i e h

  -- the place of a new key splits the entries
  pub put-place :
      (key : ℕ) (value : V) (es : List (ℕ × V)) (i : ℕ)
      → AllBelow key (take i es)
      → AllAbove key (drop i es)
      → put key value es ≡ put_at i (key, value) es
  unfolding put_at
  put-place key value es i below above =
      ap (put key value) (sym (take-append-drop i es))
      ∙ put-skip key value (take i es) (drop i es) below
      ∙ ap (λ t. take i es ++ t) (put-cut key value [] (drop i es) above)
