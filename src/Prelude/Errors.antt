-- ===== src/Prelude/Errors.antt =====
-- core/error.h: the error codes, and the result of a function that returns `Core::Error` and
-- writes its out parameters on success only.
use Prim.Native.Nat.{ℕ}
use mathlib.Core.Logic.{◌⊎◌, inl, inr}
use mathlib.Core.Path.{◌≡◌, refl}
use mathlib.Core.Bool.{Bool, true, false}

-- One constructor for each value of the constants; `kernel n` is another negative code `-n` that
-- a kernel function returned.
pub data Error : Type 0 where
  success again invalid_value no_memory conn_reset cancelled not_executed : Error
  invalid_state unsuccessful not_implemented unknown_code not_found eof buf_to_big io : Error
  bad_magic header_corrupt data_corrupt bad_size already_exists unexpected_eof overflow : Error
  kernel : ℕ → Error

-- `Overlap` has the value of `Overflow`.
abbrev pub overlap : Error
overlap = overflow

-- `Error::Ok`
abbrev pub is_ok : Error → Bool
is_ok success = true
is_ok _ = false

pub data Result {ℓ} (A : Type ℓ) : Type ℓ where
  ok : A → Result A
  err : Error → Result A

infixl 5 ◌>>=◌ ◌>>◌
abbrev pub ◌>>=◌ {ℓ κ} : {A : Type ℓ} {B : Type κ} → Result A → (A → Result B) → Result B
err code >>= rest = err code
ok result >>= rest = rest result

abbrev pub ◌>>◌ {ℓ} : {B : Type ℓ} → Result (Unit {0}) → Result B → Result B
check >> rest = check >>= λ _. rest

-- `if (bad) return MakeError(e);`
abbrev pub reject : Bool → Error → Result (Unit {0})
reject true e = err e
reject false e = ok tt

-- What was not rejected passed the test.
pub reject_ok {ℓ} :
    {A : Type ℓ} {a : A} (bad : Bool) (e : Error) (m : Result A)
    → (reject bad e >> m) ≡ ok a
    → (bad ≡ false) × (m ≡ ok a)
reject_ok true e m h = absurd (cc h)
reject_ok false e m h = (refl, h)

pub Result-cases {ℓ} :
    {A : Type ℓ} (m : Result A) → ((e : Error) × (m ≡ err e)) ⊎ ((a : A) × (m ≡ ok a))
Result-cases (ok a) = inr (a, refl)
Result-cases (err e) = inl (e, refl)
