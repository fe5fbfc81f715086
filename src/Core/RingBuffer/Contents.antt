-- ===== src/Core/RingBuffer/Contents.antt =====
-- core/ring_buffer.h: the indices that a ring holds, oldest first, and the invariant of its fields.
use cpp_lkm.Prelude.{
  ℕ, zero, suc, ◌+◌, ◌-◌, ◌%◌, ◌≤◌, ◌<◌, ◌≡◌, ◌≢◌, refl, sym, ap, ◌∙◌, List, [], ◌∷◌, ◌++◌, length,
  All, arith, u64_mod,
}
use native.Mathlib.Nat.{mod-add-mod, mod-eq_of_lt, mod-eq-sub-mod, add-zero, zero-add}
use native.Mathlib.Numerals.{add-one}
use native.Mathlib.Decide.{dec_lt}
use cpp_lkm.Core.RingBuffer.{RingBuffer}

pub record IsValid (r : RingBuffer) : Type 0 where
  pub small : r.capacity < u64_mod
  pub start_in : r.start_index < r.capacity
  pub size_in : r.size ≤ r.capacity
  pub end_at : r.end_index ≡ (r.start_index + r.size) % r.capacity

module _ (c : ℕ) where
  -- `n` successive indices from `s`, going round at `c`
  abbrev pub run : ℕ → ℕ → List ℕ
  run s zero = []
  run s (suc n) = s ∷ run ((s + 1) % c) n

  pub length-run : (s n : ℕ) → length (run s n) ≡ n
  length-run s zero = refl
  length-run s (suc n) = ap suc (length-run ((s + 1) % c) n)

abbrev pub contents : RingBuffer → List ℕ
contents r = run r.capacity r.start_index r.size

-- one more step is one more index at the end
pub run-suc : (c s n : ℕ) → s < c → run c s (suc n) ≡ run c s n ++ ((s + n) % c ∷ [])
run-suc c s zero h = ap (λ t. t ∷ []) (rw add-zero (sym (mod-eq_of_lt h)))
run-suc c s (suc n) h =
    ap (λ t. s ∷ t)
      (run-suc c ((s + 1) % c) n (omega arith) ∙ ap (λ t. run c ((s + 1) % c) n ++ (t ∷ [])) shift)
  where
    shift : ((s + 1) % c + n) % c ≡ (s + suc n) % c
    shift = rw mod-add-mod (ap (λ k. k % c) (omega arith))

pub run-add_one : (c s n : ℕ) → s < c → run c s (n + 1) ≡ run c s n ++ ((s + n) % c ∷ [])
run-add_one c s n h = rw add-one (run-suc c s n h)

-- `run` matches on `suc`, the code tests `Size == 0`
pub run_of_pos : (c s n : ℕ) → 0 < n → run c s n ≡ s ∷ run c ((s + 1) % c) (n - 1)
run_of_pos c s zero h = absurd (omega arith)
run_of_pos c s (suc n) h = ap (λ k. s ∷ run c ((s + 1) % c) k) (omega arith)

-- all of a run lies below the capacity
pub run-All-lt : (c s n : ℕ) → s < c → All (λ i. i < c) (run c s n)
run-All-lt c s zero h = tt
run-All-lt c s (suc n) h = (h, run-All-lt c ((s + 1) % c) n (omega arith))

-- fewer steps than the capacity do not come back
pub add-mod-ne : (c s k : ℕ) → s < c → 0 < k → k < c → (s + k) % c ≢ s
add-mod-ne c s k h lo hi = elim (dec_lt (s + k) c) [
  | yes p ↦ omega (arith, mod-eq_of_lt p)
  | no p ↦ omega (
    arith,
    mod-eq-sub-mod {n = s + k} {m = c} (omega arith),
    mod-eq_of_lt {n = s + k - c} {m = c} (omega arith),
  )
]

-- the index behind a run that is not full is not in the run
pub run-All-ne :
    (c s n m e : ℕ) → s < c → n ≤ m → m < c → e ≡ (s + m) % c → All (λ i. i ≢ e) (run c s n)
run-All-ne c s zero m e h k l q = tt
run-All-ne c s (suc n) zero e h k l q = absurd (omega arith)
run-All-ne c s (suc n) (suc m) e h k l q = (
  λ p. add-mod-ne c s (suc m) h (omega arith) l (sym q ∙ sym p),
  run-All-ne c ((s + 1) % c) n m e (omega arith) (omega arith) (omega arith) (q ∙ shift),
)
  where
    shift : (s + suc m) % c ≡ ((s + 1) % c + m) % c
    shift = rw mod-add-mod (ap (λ k. k % c) (omega arith))

-- a run that starts where another ends continues it
pub run-append : (c s n m : ℕ) → s < c → run c s (n + m) ≡ run c s n ++ run c ((s + n) % c) m
run-append c s zero m h = rw (add-zero, mod-eq_of_lt h, zero-add)
run-append c s (suc n) m h =
    let shift : (s + suc n) % c ≡ ((s + 1) % c + n) % c =
      rw mod-add-mod (ap (λ k. k % c) (omega arith)) in
    let split : suc n + m ≡ suc (n + m) = omega arith in
    rw (shift, split) (ap (λ t. s ∷ t) (run-append c ((s + 1) % c) n m (omega arith)))
