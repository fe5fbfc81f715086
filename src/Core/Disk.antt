-- ===== src/Core/Disk.antt =====
-- core/block_device.h: the content of a block device, byte by byte.
use native.Mathlib.Nat.{add-zero}
use native.Mathlib.Decide.{dec_lt, ℕ_discrete}
use cpp_lkm.Prelude.{
  ℕ, zero, suc, ◌+◌, ◌-◌, ◌≤◌, ◌<◌, ◌≡◌, ◌⊎◌, inl, inr, refl, sym, ap, ap₂, ◌∙◌, fun_ext, List, [],
  ◌∷◌, ◌++◌, leb, if◌then◌else◌, length, get_or, arith, Bool-cases, true,
}

abbrev pub Disk : Type 0
Disk = ℕ → ℕ

unfoldable pub write_bytes : Disk → ℕ → List ℕ → Disk
write_bytes d position bytes a = if leb position a then get_or bytes (a - position) (d a) else d a

unfoldable pub read_bytes : Disk → ℕ → ℕ → List ℕ
read_bytes d position zero = []
read_bytes d position (suc n) = d position ∷ read_bytes d (position + 1) n

pub length-read_bytes : (d : Disk) (p n : ℕ) → length (read_bytes d p n) ≡ n
unfolding read_bytes
length-read_bytes d p zero = refl
length-read_bytes d p (suc n) = ap suc (length-read_bytes d (p + 1) n)

-- reading sees the bytes of the range only
read_bytes_congr :
    (d e : Disk) (p n : ℕ)
    → ((a : ℕ) → p ≤ a → a < p + n → d a ≡ e a)
    → read_bytes d p n ≡ read_bytes e p n
unfolding read_bytes
read_bytes_congr d e p zero h = refl
read_bytes_congr d e p (suc n) h =
    ap₂ ◌∷◌ (h p (omega arith) (omega arith))
      (read_bytes_congr d e (p + 1) n (λ a lo hi. h a (omega arith) (omega arith)))

get_or_beyond : (bs : List ℕ) (i v : ℕ) → length bs ≤ i → get_or bs i v ≡ v
get_or_beyond [] i v h = refl
get_or_beyond (b ∷ bs) zero v h = absurd (omega arith)
get_or_beyond (b ∷ bs) (suc i) v h = get_or_beyond bs i v (omega arith)

pub write_bytes_outside :
    (d : Disk) (p : ℕ) (bs : List ℕ) (a : ℕ)
    → (a < p) ⊎ (p + length bs ≤ a)
    → write_bytes d p bs a ≡ d a
unfolding write_bytes
write_bytes_outside d p bs a (inl h) = ground arith
write_bytes_outside d p bs a (inr h) = elim (Bool-cases (leb p a)) [
  | inl le ↦ rw le (get_or_beyond bs (a - p) (d a) (omega arith))
  | inr gt ↦ rw gt
]

-- A write apart from a range does not change what is read there.
pub read-write_apart :
    (d : Disk) (p : ℕ) (bs : List ℕ) (q n : ℕ)
    → (q + n ≤ p) ⊎ (p + length bs ≤ q)
    → read_bytes (write_bytes d p bs) q n ≡ read_bytes d q n
read-write_apart d p bs q n (inl h) =
    read_bytes_congr (write_bytes d p bs) d q n
      (λ a lo hi. write_bytes_outside d p bs a (inl (omega arith)))
read-write_apart d p bs q n (inr h) =
    read_bytes_congr (write_bytes d p bs) d q n
      (λ a lo hi. write_bytes_outside d p bs a (inr (omega arith)))

get_or-cons : (b : ℕ) (bs : List ℕ) (i v : ℕ) → 0 < i → get_or (b ∷ bs) i v ≡ get_or bs (i - 1) v
get_or-cons b bs zero v h = absurd (omega arith)
get_or-cons b bs (suc i) v h = ap (λ k. get_or bs k v) (omega arith)

pub write_bytes_before :
    (d : Disk) (p : ℕ) (bs : List ℕ) (a : ℕ) → a < p → write_bytes d p bs a ≡ d a
unfolding write_bytes
write_bytes_before d p bs a h = ground arith

pub write_bytes_from :
    (d : Disk) (p : ℕ) (bs : List ℕ) (a : ℕ)
    → p ≤ a
    → write_bytes d p bs a ≡ get_or bs (a - p) (d a)
unfolding write_bytes
write_bytes_from d p bs a h = ground arith

write_bytes-cons :
    (d : Disk) (p b : ℕ) (bs : List ℕ) (a : ℕ)
    → write_bytes d p (b ∷ bs) a ≡ write_bytes (write_bytes d p (b ∷ [])) (p + 1) bs a
write_bytes-cons d p b bs a = elim (dec_lt a p) [
  | yes h ↦
      write_bytes_before d p (b ∷ bs) a h
      ∙ sym (
          write_bytes_before (write_bytes d p (b ∷ [])) (p + 1) bs a (omega arith)
          ∙ write_bytes_before d p (b ∷ []) a h)
  | no h ↦ elim (ℕ_discrete a p) [
    | yes e ↦
        let at_start : a - p ≡ 0 = omega arith in
        write_bytes_from d p (b ∷ bs) a (omega arith)
        ∙ rw at_start (
            sym (
              write_bytes_before (write_bytes d p (b ∷ [])) (p + 1) bs a (omega arith)
              ∙ write_bytes_from d p (b ∷ []) a (omega arith)
              ∙ ap (λ i. get_or (b ∷ []) i (d a)) at_start))
    | no ne ↦
        let off : a - (p + 1) ≡ a - p - 1 = omega arith in
        write_bytes_from d p (b ∷ bs) a (omega arith)
        ∙ get_or-cons b bs (a - p) (d a) (omega arith)
        ∙ sym (
            write_bytes_from (write_bytes d p (b ∷ [])) (p + 1) bs a (omega arith)
            ∙ ap₂ (get_or bs) off (write_bytes_outside d p (b ∷ []) a (inr (omega arith))))
  ]
]

write_bytes_one : (d : Disk) (p b : ℕ) (bs : List ℕ) → write_bytes d p (b ∷ bs) p ≡ b
unfolding write_bytes
write_bytes_one d p b bs =
    let zero_off : p - p ≡ 0 = omega arith in
    let here : leb p p ≡ true = ground arith in rw (here, zero_off)

-- What was written is read back.
pub read-write :
    (d : Disk) (p : ℕ) (bs : List ℕ) → read_bytes (write_bytes d p bs) p (length bs) ≡ bs
unfolding read_bytes
read-write d p [] = refl
read-write d p (b ∷ bs) = ap₂ ◌∷◌ (write_bytes_one d p b bs) (
    ap (λ e. read_bytes e (p + 1) (length bs)) (fun_ext (write_bytes-cons d p b bs))
    ∙ read-write (write_bytes d p (b ∷ [])) (p + 1) bs)

write_bytes-nil : (d : Disk) (p : ℕ) → write_bytes d p [] ≡ d
unfolding write_bytes
write_bytes-nil d p = fun_ext (λ a. ground arith)

-- A write in two parts, one behind the other.
pub write_bytes-append :
    (d : Disk) (p : ℕ) (xs ys : List ℕ)
    → write_bytes d p (xs ++ ys) ≡ write_bytes (write_bytes d p xs) (p + length xs) ys
write_bytes-append d p [] ys = rw (write_bytes-nil, add-zero)
write_bytes-append d p (x ∷ xs) ys =
    let shift : p + suc (length xs) ≡ p + 1 + length xs = omega arith in
    rw (shift, fun_ext (write_bytes-cons d p x (xs ++ ys)), fun_ext (write_bytes-cons d p x xs))
      (write_bytes-append (write_bytes d p (x ∷ [])) (p + 1) xs ys)
