-- ===== src/Core/Bitmap/FirstZero.antt =====
-- The first clear bit of a list of bits: what the search in core/bitmap.cpp is for.
use cpp_lkm.Prelude.{
  ℕ, zero, suc, ◌+◌, ◌<◌, ◌≡◌, refl, ap, Bool, true, false, List, [], ◌∷◌, ◌++◌, Option, none, some,
  length, get_or, arith, Option-cases, inl, inr, ◌∙◌,
}

unfoldable pub later : Option ℕ → Option ℕ
later none = none
later (some b) = some (suc b)

unfoldable pub first_zero : List Bool → Option ℕ
unfolding later
first_zero [] = none
first_zero (true ∷ bits) = later (first_zero bits)
first_zero (false ∷ bits) = some 0

cons_before :
    (bits : List Bool) (b : ℕ)
    → ((j : ℕ) → j < b → get_or bits j false ≡ true)
    → (j : ℕ) → j < suc b
    → get_or (true ∷ bits) j false ≡ true
cons_before bits b h zero lt = refl
cons_before bits b h (suc j) lt = h j (omega arith)

-- what `first_zero` finds is clear, lies inside, and all before it is set
pub first_zero-some :
    (bits : List Bool) (b : ℕ)
    → first_zero bits ≡ some b
    → (get_or bits b true ≡ false)
      × (b < length bits)
      × ((j : ℕ) → j < b → get_or bits j false ≡ true)
unfolding first_zero
first_zero-some [] b h = ground arith
first_zero-some (false ∷ bits) zero h = (refl, omega arith, λ j lt. absurd (omega arith))
first_zero-some (false ∷ bits) (suc b) h = absurd (ground arith)
first_zero-some (true ∷ bits) zero h = absurd (ground arith)
first_zero-some (true ∷ bits) (suc b) h =
    let (clear, inside, before) = first_zero-some bits b (ground arith) in
    (clear, omega arith, cons_before bits b before)

pub first_zero-none :
    (bits : List Bool)
    → first_zero bits ≡ none
    → (j : ℕ) → j < length bits
    → get_or bits j false ≡ true
unfolding first_zero
first_zero-none [] h j lt = absurd (omega arith)
first_zero-none (false ∷ bits) h j lt = ground arith
first_zero-none (true ∷ bits) h zero lt = refl
first_zero-none (true ∷ bits) h (suc j) lt = first_zero-none bits (ground arith) j (omega arith)

unfoldable pub shift : ℕ → Option ℕ → Option ℕ
shift n none = none
shift n (some b) = some (n + b)

unfoldable pub or_shift : Option ℕ → ℕ → Option ℕ → Option ℕ
unfolding shift
or_shift none n o = shift n o
or_shift (some b) n o = some b

later-or_shift :
    (o : Option ℕ) (n : ℕ) (p : Option ℕ) → later (or_shift o n p) ≡ or_shift (later o) (suc n) p
unfolding later or_shift
later-or_shift none n none = refl
later-or_shift none n (some b) = ground arith
later-or_shift (some a) n p = refl

pub first_zero-append :
    (xs ys : List Bool)
    → first_zero (xs ++ ys) ≡ or_shift (first_zero xs) (length xs) (first_zero ys)
unfolding first_zero or_shift
first_zero-append [] ys = elim (Option-cases (first_zero ys)) [
  | inl e ↦ rw e
  | inr (b, e) ↦ rw e (ground arith)
]
first_zero-append (false ∷ xs) ys = refl
first_zero-append (true ∷ xs) ys =
    ap later (first_zero-append xs ys)
    ∙ unfold first_zero in later-or_shift (first_zero xs) (length xs) (first_zero ys)
