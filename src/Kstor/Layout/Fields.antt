-- ===== src/Kstor/Layout/Fields.antt =====
-- kstor/api.h: reading a field of a packed structure at its offset.
use cpp_lkm.Prelude.{
  ℕ, zero, suc, ◌+◌, ◌≤◌, ◌≡◌, refl, ap, ◌∙◌, List, [], ◌∷◌, ◌++◌, length, take, drop, take-append,
  take-all, drop-append, length-drop, replicate, length-replicate, arith,
}

-- the `width` bytes from `offset` on
unfoldable pub field : ℕ → ℕ → List ℕ → List ℕ
field offset width page = take width (drop offset page)

-- an array filled with zeros
unfoldable pub zeros : ℕ → List ℕ
zeros n = replicate n 0

pub length-zeros : (n : ℕ) → length (zeros n) ≡ n
unfolding zeros
length-zeros n = length-replicate n 0

drop-add : (k o : ℕ) (xs : List ℕ) → drop (k + o) xs ≡ drop o (drop k xs)
drop-add zero o xs = ap (λ t. drop t xs) (omega arith)
drop-add (suc k) zero [] = let e : suc k + 0 ≡ suc k = omega arith in rw e
drop-add (suc k) (suc o) [] = let e : suc k + suc o ≡ suc (k + suc o) = omega arith in rw e
drop-add (suc k) o (x ∷ xs) =
    let e : suc k + o ≡ suc (k + o) = omega arith in rw e (drop-add k o xs)

pub field_skip :
    (k o w : ℕ) (xs ys : List ℕ) → length xs ≡ k → field (k + o) w (xs ++ ys) ≡ field o w ys
unfolding field
field_skip k o w xs ys h =
    ap (take w) (drop-add k o (xs ++ ys) ∙ ap (drop o) (drop-append k xs ys h))

pub field_here : (w : ℕ) (xs ys : List ℕ) → length xs ≡ w → field 0 w (xs ++ ys) ≡ xs
unfolding field
field_here w xs ys h = take-append w xs ys h

pub field_all : (w : ℕ) (xs : List ℕ) → length xs ≡ w → field 0 w xs ≡ xs
unfolding field
field_all w xs h = take-all w xs (omega arith)

take-left : (w : ℕ) (xs ys : List ℕ) → w ≤ length xs → take w (xs ++ ys) ≡ take w xs
take-left zero xs ys h = refl
take-left (suc w) [] ys h = absurd (omega arith)
take-left (suc w) (x ∷ xs) ys h = ap (λ t. x ∷ t) (take-left w xs ys (omega arith))

drop-left : (o : ℕ) (xs ys : List ℕ) → o ≤ length xs → drop o (xs ++ ys) ≡ drop o xs ++ ys
drop-left zero xs ys h = refl
drop-left (suc o) [] ys h = absurd (omega arith)
drop-left (suc o) (x ∷ xs) ys h = drop-left o xs ys (omega arith)

-- a field of the front part does not see the rest
pub field_left :
    (o w : ℕ) (xs ys : List ℕ) → o + w ≤ length xs → field o w (xs ++ ys) ≡ field o w xs
unfolding field
field_left o w xs ys h =
    ap (take w) (drop-left o xs ys (omega arith))
    ∙ take-left w (drop o xs) ys (omega (arith, length-drop o xs))
