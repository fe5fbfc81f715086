-- ===== src/Core/Memory.antt =====
-- core/memory.h: ranges and their intersection, and the equality of arrays.
use cpp_lkm.Prelude.{
  ℕ, ◌≤◌, ◌<◌, ◌≡◌, ◌↔◌, ◌⊎◌, refl, Bool, true, false, leb, if◌then◌else◌, arith, inl, inr,
  Bool-cases, List, [], ◌∷◌, ◌==◌,
}

unfoldable pub check_range : ℕ → ℕ → Bool
check_range start end = if leb end start then false else true

unfoldable pub check_intersection : ℕ → ℕ → ℕ → ℕ → Bool
unfolding check_range
check_intersection start1 end1 start2 end2 =
    if check_range start1 end1
    then if check_range start2 end2
      then if leb end1 start2 then false else if leb end2 start1 then false else true
      else false
    else false

-- a number that lies in both ranges
abbrev pub Common : ℕ → ℕ → ℕ → ℕ → Type 0
Common start1 end1 start2 end2 = (x : ℕ) × (start1 ≤ x) × (x < end1) × (start2 ≤ x) × (x < end2)

-- `CheckIntersection` is true exactly when the half-open ranges have a number in common.
pub check_intersection-Common :
    (s1 e1 s2 e2 : ℕ) → (check_intersection s1 e1 s2 e2 ≡ true) ↔ Common s1 e1 s2 e2
unfolding check_intersection
check_intersection-Common s1 e1 s2 e2 = (
  λ h. elim (Bool-cases (leb s1 s2)) [
    | inl le ↦ (s2, ground arith, ground arith, ground arith, ground arith)
    | inr gt ↦ (s1, ground arith, ground arith, ground arith, ground arith)
  ],
  λ h. let (x, a, b, c, d) = h in ground arith,
)

-- two ranges that do not intersect lie one behind the other
pub apart :
    (s1 e1 s2 e2 : ℕ)
    → check_intersection s1 e1 s2 e2 ≡ false
    → s1 < e1
    → s2 < e2
    → (e1 ≤ s2) ⊎ (e2 ≤ s1)
unfolding check_intersection
apart s1 e1 s2 e2 h p q = elim (Bool-cases (leb e1 s2)) [
  | inl le ↦ inl (ground arith)
  | inr gt ↦ inr (ground arith)
]

-- `ArrayEqual`, on arrays of one length
unfoldable pub array_equal : List ℕ → List ℕ → Bool
array_equal [] [] = true
array_equal (a ∷ s1) (b ∷ s2) = let rest = array_equal s1 s2 in if a == b then rest else false
array_equal s1 s2 = false

pub array_equal_iff : (s1 s2 : List ℕ) → (array_equal s1 s2 ≡ true) ↔ (s1 ≡ s2)
unfolding array_equal
array_equal_iff [] [] = (λ h. refl, λ h. refl)
array_equal_iff [] (b ∷ s2) = (λ h. cc, λ h. cc)
array_equal_iff (a ∷ s1) [] = (λ h. cc, λ h. cc)
array_equal_iff (a ∷ s1) (b ∷ s2) =
    (λ h. ground (arith, (array_equal_iff s1 s2).0), λ h. ground (arith, (array_equal_iff s1 s2).1))
