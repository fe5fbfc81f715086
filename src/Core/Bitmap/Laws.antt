-- ===== src/Core/Bitmap/Laws.antt =====
-- core/bitmap.cpp: the word-wise search and the first clear bit of the buffer.
use cpp_lkm.Prelude.{
  ℕ, zero, suc, ◌+◌, ◌*◌, ◌/◌, ◌%◌, ◌≤◌, ◌<◌, ◌≡◌, refl, sym, ap, ap₂, ◌∙◌, Bool, true, false, List,
  [], ◌∷◌, ◌++◌, Option, none, some, Option-cases, Bool-cases, inl, inr, length, get_or, set, take,
  drop, arith, Result, ok, err, not_found, length-append, length-take, length-drop,
  take-append-drop, take-all, length-set, take-append, drop-append, fun_ext, subst, ltb, leb,
}
use cpp_lkm.Core.Bitmap.{
  all_ones, scan, of_scan, find_in_word, next_word, find_from, find_set_zero_bit,
  test_and_clear_bit,
}
use cpp_lkm.Core.Bitmap.FirstZero.{
  later, first_zero, first_zero-some, or_shift, shift, first_zero-append,
}

set_same : (bits : List Bool) (j : ℕ) → get_or bits j false ≡ true → set bits j true ≡ bits
set_same [] j h = refl
set_same (b ∷ bits) zero h = ap (λ t. t ∷ bits) (sym h)
set_same (b ∷ bits) (suc j) h = ap (λ t. b ∷ t) (set_same bits j h)

set-append_left :
    (xs ys : List Bool) (j : ℕ) (v : Bool) → j < length xs → set (xs ++ ys) j v ≡ set xs j v ++ ys
set-append_left [] ys j v h = absurd (omega arith)
set-append_left (x ∷ xs) ys zero v h = refl
set-append_left (x ∷ xs) ys (suc j) v h = ap (λ t. x ∷ t) (set-append_left xs ys j v (omega arith))

set-append_right :
    (xs ys : List Bool) (j : ℕ) (v : Bool) → set (xs ++ ys) (length xs + j) v ≡ xs ++ set ys j v
set-append_right [] ys j v = ap (λ k. set ys k v) (omega arith)
set-append_right (x ∷ xs) ys j v =
    let e : suc (length xs) + j ≡ suc (length xs + j) = omega arith in
    rw e (ap (λ t. x ∷ t) (set-append_right xs ys j v))

drop_of_lt : (w : List Bool) (i : ℕ) → i < length w → drop i w ≡ get_or w i false ∷ drop (i + 1) w
drop_of_lt [] i h = absurd (omega arith)
drop_of_lt (x ∷ w) zero h = refl
drop_of_lt (x ∷ w) (suc i) h =
    drop_of_lt w i (omega arith) ∙ ap (λ k. get_or w i false ∷ k) (ap (λ k. drop k (x ∷ w)) up)
  where
    up : suc (i + 1) ≡ suc i + 1
    up = omega arith

take-take : (m n : ℕ) (xs : List Bool) → m ≤ n → take m (take n xs) ≡ take m xs
take-take zero n xs h = refl
take-take (suc m) zero xs h = absurd (omega arith)
take-take (suc m) (suc n) [] h = refl
take-take (suc m) (suc n) (x ∷ xs) h = ap (λ t. x ∷ t) (take-take m n xs (omega arith))

take-add : (m n : ℕ) (xs : List Bool) → take (m + n) xs ≡ take m xs ++ take n (drop m xs)
take-add zero n xs = ap (λ k. take k xs) (omega arith)
take-add (suc m) n [] = let e : suc m + n ≡ suc (m + n) = omega arith in rw e (sym (take-nil n))
  where
    take-nil : (k : ℕ) → take {A = Bool} k [] ≡ []
    take-nil zero = refl
    take-nil (suc k) = refl
take-add (suc m) n (x ∷ xs) =
    let e : suc m + n ≡ suc (m + n) = omega arith in rw e (ap (λ t. x ∷ t) (take-add m n xs))

all_ones-first_zero : (w : List Bool) (m : ℕ) → all_ones w ≡ true → first_zero (take m w) ≡ none
unfolding all_ones first_zero
all_ones-first_zero w zero h = refl
all_ones-first_zero [] (suc m) h = refl
all_ones-first_zero (true ∷ w) (suc m) h = ap later (all_ones-first_zero w m h)
all_ones-first_zero (false ∷ w) (suc m) h = cc

-- the result for the first clear bit, if there is one
abbrev pub outcome : (ℕ → ℕ × List Bool) → Option ℕ → Result (ℕ × List Bool)
outcome f none = err not_found
outcome f (some b) = ok (f b)

outcome-later :
    (f g : ℕ → ℕ × List Bool) (o : Option ℕ)
    → ((b : ℕ) → f b ≡ g (suc b))
    → outcome f o ≡ outcome g (later o)
unfolding later
outcome-later f g none h = refl
outcome-later f g (some b) h = ap ok (h b)

scan_lem :
    (r i : ℕ) (w : List Bool)
    → i + r ≤ length w
    → of_scan (scan r i w)
      ≡ outcome (λ b. (i + b, set w (i + b) true)) (first_zero (take r (drop i w)))
unfolding scan of_scan first_zero
scan_lem zero i w h = refl
scan_lem (suc r) i w h = elim (Bool-cases (get_or w i false)) [
  | inl old ↦
      rw (drop_of_lt w i (omega arith), old, set_same w i old)
        (scan_lem r (i + 1) w (omega arith)
          ∙ outcome-later (λ b. (i + 1 + b, set w (i + 1 + b) true))
              (λ b. (i + b, set w (i + b) true)) (first_zero (take r (drop (i + 1) w)))
              (λ b. ap (λ (k : ℕ). (k, set w k true)) (omega arith)))
  | inr old ↦ rw (drop_of_lt w i (omega arith), old) (ap (λ k. ok (k, set w k true)) (omega arith))
]

find_in_word_lem :
    (w : List Bool) (m : ℕ)
    → m ≤ 64
    → m ≤ length w
    → find_in_word w m ≡ outcome (λ b. (b, set w b true)) (first_zero (take m w))
unfolding find_in_word
find_in_word_lem w m h k =
    let fits : ltb 64 m ≡ false = ground arith in
    elim (Bool-cases (all_ones w)) [
      | inl full ↦ rw (fits, full, all_ones-first_zero w m full)
      | inr free ↦
          rw (fits, free)
            (scan_lem m 0 w (omega arith) ∙ ap (λ f. outcome f (first_zero (take m w))) start)
    ]
  where
    start : ◌≡◌ {A = ℕ → ℕ × List Bool} (λ b. (0 + b, set w (0 + b) true)) (λ b. (b, set w b true))
    start = fun_ext (λ b. ap (λ (k : ℕ). (k, set w k true)) (omega arith))

-- the result of the loop that stands at word `i`, for the first clear bit from there on
abbrev placed : ℕ → List Bool → Option ℕ → Result (ℕ × List Bool)
placed i memory o = outcome (λ b. (i * 64 + b, set memory b true)) o

skip :
    (i : ℕ) (w r : List Bool) (o : Option ℕ)
    → length w ≡ 64
    → next_word (err not_found) i (w ++ r) (placed (i + 1) r o) ≡ placed i (w ++ r) (shift 64 o)
unfolding next_word shift
skip i w r none h = refl
skip i w r (some b) h = ap ok (
    ap₂ (λ (a : ℕ) (c : List Bool). (a, c)) (omega arith)
      (ap (λ t. t ++ set r b true) (take-append 64 w r h)
        ∙ sym (set-append_right w r b true)
        ∙ ap (λ k. set (w ++ r) (k + b) true) h))

found_here :
    (i b : ℕ) (w r : List Bool) (q : Result (ℕ × List Bool))
    → length w ≡ 64
    → b < 64
    → next_word (ok (b, set w b true)) i (w ++ r) q ≡ placed i (w ++ r) (some b)
unfolding next_word
found_here i b w r q h lt =
    ap (λ t. ok (i * 64 + b, t))
      (ap (λ t. set w b true ++ t) (drop-append 64 w r h)
        ∙ sym (set-append_left w r b true (omega arith)))

last_word :
    (m i : ℕ) (w r : List Bool)
    → m < 64
    → length w ≡ 64
    → next_word (find_in_word w m) i (w ++ r) (err not_found)
      ≡ placed i (w ++ r) (first_zero (take m (w ++ r)))
unfolding next_word
last_word m i w r lt h =
    let same : take m (w ++ r) ≡ take m w =
      sym (take-take m 64 (w ++ r) (omega arith)) ∙ ap (take m) (take-append 64 w r h) in
    elim (Option-cases (first_zero (take m w))) [
      | inl e ↦ rw (same, find_in_word_lem w m (omega arith) (omega arith), e)
      | inr (b, e) ↦
          let inside = (first_zero-some (take m w) b e).1 in
          rw (same, find_in_word_lem w m (omega arith) (omega arith), e)
            (found_here i b w r (err not_found) h (omega (arith, inside, length-take m w)))
    ]

whole_word :
    (i : ℕ) (w r : List Bool) (o : Option ℕ)
    → length w ≡ 64
    → next_word (find_in_word w 64) i (w ++ r) (placed (i + 1) r o)
      ≡ placed i (w ++ r) (or_shift (first_zero w) (length w) o)
unfolding or_shift
whole_word i w r o h = elim (Option-cases (first_zero w)) [
  | inl e ↦
      rw (find_in_word_lem w 64 (omega arith) (omega arith), take-all 64 w (omega arith), e, h)
        (skip i w r o h)
  | inr (b, e) ↦
      rw (find_in_word_lem w 64 (omega arith) (omega arith), take-all 64 w (omega arith), e)
        (found_here i b w r (placed (i + 1) r o) h (omega (arith, (first_zero-some w b e).1)))
]

find_from_lem :
    (words rest_bits i : ℕ) (memory : List Bool)
    → rest_bits < 64
    → words * 64 + 64 ≤ length memory
    → find_from words rest_bits i memory
      ≡ placed i memory (first_zero (take (words * 64 + rest_bits) memory))
unfolding find_from
find_from_lem zero m i memory lt enough =
    let zero_bits : 0 * 64 + m ≡ m = omega arith in
    rw zero_bits (
      subst
        (λ t.
          next_word (find_in_word (take 64 memory) m) i t (err not_found)
          ≡ placed i t (first_zero (take m t)))
        (take-append-drop 64 memory)
        (last_word m i (take 64 memory) (drop 64 memory) lt (omega (arith, length-take 64 memory))))
find_from_lem (suc words) m i memory lt enough =
    let w = take 64 memory in
    let r = drop 64 memory in
    let long : length w ≡ 64 = omega (arith, length-take 64 memory) in
    let ih = find_from_lem words m (i + 1) r lt (omega (arith, length-drop 64 memory)) in
    let bits : suc words * 64 + m ≡ 64 + (words * 64 + m) = omega arith in
    rw
      (ih, bits, take-add 64 (words * 64 + m) memory, first_zero-append w (take (words * 64 + m) r))
      (subst
        (λ t.
          next_word (find_in_word w 64) i t
            (placed (i + 1) r (first_zero (take (words * 64 + m) r)))
          ≡ placed i t (or_shift (first_zero w) (length w) (first_zero (take (words * 64 + m) r))))
        (take-append-drop 64 memory) (whole_word i w r (first_zero (take (words * 64 + m) r)) long))

-- Where the memory behind the buffer fills up its last word, the search sets the first clear bit of
-- the buffer and returns its number, or fails with `NotFound` if there is none. The memory behind
-- the buffer is not changed.
pub find_set_zero_bit_lem :
    (bits beyond : List Bool)
    → 64 ≤ length bits % 64 + length beyond
    → find_set_zero_bit bits beyond
      ≡ outcome (λ b. (b, set bits b true ++ beyond)) (first_zero bits)
unfolding find_set_zero_bit
find_set_zero_bit_lem bits beyond enough =
    let n = length bits in
    let all : n / 64 * 64 + n % 64 ≡ n = omega arith in
    rw
      (
        find_from_lem (n / 64) (n % 64) 0 (bits ++ beyond) (omega arith)
            (omega (arith, length-append bits beyond)),
        all,
        take-append n bits beyond refl,
      )
      (elim (Option-cases (first_zero bits)) [
        | inl e ↦ rw e
        | inr (b, e) ↦
            rw (e, set-append_left bits beyond b true (first_zero-some bits b e).1)
              (ap (λ (k : ℕ). ok (k, set bits b true ++ beyond)) (omega arith))
      ])

set-set_back :
    (bits : List Bool) (b : ℕ) → get_or bits b true ≡ false → set (set bits b true) b false ≡ bits
set-set_back [] b h = refl
set-set_back (x ∷ bits) zero h = ap (λ t. t ∷ bits) (sym h)
set-set_back (x ∷ bits) (suc b) h = ap (λ t. x ∷ t) (set-set_back bits b h)

get_or-set_self :
    (bits : List Bool) (b : ℕ) → b < length bits → get_or (set bits b true) b false ≡ true
get_or-set_self [] b h = absurd (omega arith)
get_or-set_self (x ∷ bits) zero h = refl
get_or-set_self (x ∷ bits) (suc b) h = get_or-set_self bits b (omega arith)

cleared :
    (bits beyond : List Bool) (b : ℕ)
    → first_zero bits ≡ some b
    → test_and_clear_bit b (take (length bits) (set bits b true ++ beyond)) ≡ ok (true, bits)
unfolding test_and_clear_bit
cleared bits beyond b e =
    let (clear, inside, before) = first_zero-some bits b e in
    let fits : leb (length bits) b ≡ false = ground arith in
    rw (
      take-append (length bits) (set bits b true) beyond (length-set bits b true),
      length-set,
      fits,
      get_or-set_self bits b inside,
      set-set_back bits b clear,
    )

first_zero-outcome :
    (bits beyond memory : List Bool) (b : ℕ) (o : Option ℕ)
    → outcome (λ k. (k, set bits k true ++ beyond)) o ≡ ok (b, memory)
    → (o ≡ some b) × (memory ≡ set bits b true ++ beyond)
first_zero-outcome bits beyond memory b none h = absurd (cc h)
first_zero-outcome bits beyond memory b (some k) h =
    let same : k ≡ b = cc h in (ap some same, sym (cc h) ∙ ap (λ t. set bits t true ++ beyond) same)

-- Where the memory behind the buffer fills up its last word, clearing the bit that a search found
-- reports that it was set, and gives the buffer back as it was before the search.
pub test_and_clear-find :
    (bits beyond memory : List Bool) (b : ℕ)
    → 64 ≤ length bits % 64 + length beyond
    → find_set_zero_bit bits beyond ≡ ok (b, memory)
    → test_and_clear_bit b (take (length bits) memory) ≡ ok (true, bits)
unfolding test_and_clear_bit
test_and_clear-find bits beyond memory b enough found =
    let (first, is_memory) =
      first_zero-outcome bits beyond memory b (first_zero bits)
        (sym (find_set_zero_bit_lem bits beyond enough) ∙ found) in
    rw is_memory (cleared bits beyond b first)
