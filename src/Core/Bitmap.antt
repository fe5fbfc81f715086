-- ===== src/Core/Bitmap.antt =====
-- core/bitmap.cpp over core/bitops.cpp. The buffer is the list of its bits, in the order in which
-- the kernel's bit functions number them, 64 to an `unsigned long`.
pub mod FirstZero
pub mod Laws
use cpp_lkm.Prelude.{
  ℕ, zero, suc, ◌+◌, ◌*◌, ◌/◌, ◌%◌, Bool, true, false, ◌&&◌, List, [], ◌∷◌, ◌++◌, ltb, leb,
  if◌then◌else◌, Option, none, some, length, get_or, set, take, drop, Error, Result, ok, err,
  overflow, not_found,
}

-- `BitOps::TestAndSetBit` and `BitOps::TestAndClearBit`: the old bit and the new bits.
unfoldable pub test_and_set : ℕ → List Bool → Bool × List Bool
test_and_set nr bits = (get_or bits nr false, set bits nr true)

unfoldable pub test_and_clear : ℕ → List Bool → Bool × List Bool
test_and_clear nr bits = (get_or bits nr false, set bits nr false)

-- The methods of `Bitmap`: `BitSize` is the number of the buffer's bits.
unfoldable pub set_bit : ℕ → List Bool → Result (List Bool)
set_bit bit bits = if leb (length bits) bit then err overflow else ok (set bits bit true)

unfoldable pub clear_bit : ℕ → List Bool → Result (List Bool)
clear_bit bit bits = if leb (length bits) bit then err overflow else ok (set bits bit false)

unfoldable pub test_and_set_bit : ℕ → List Bool → Result (Bool × List Bool)
unfolding test_and_set
test_and_set_bit bit bits =
    if leb (length bits) bit then err overflow else ok (test_and_set bit bits)

unfoldable pub test_and_clear_bit : ℕ → List Bool → Result (Bool × List Bool)
unfolding test_and_clear
test_and_clear_bit bit bits =
    if leb (length bits) bit then err overflow else ok (test_and_clear bit bits)

-- `*value == ~0ul`
unfoldable pub all_ones : List Bool → Bool
all_ones [] = true
all_ones (b ∷ bits) = b && all_ones bits

-- The loop over the bits `i`, ... of a word, `rounds` of them: the bit that was clear, and the word.
unfoldable pub scan : ℕ → ℕ → List Bool → Option (ℕ × List Bool)
unfolding test_and_set
scan zero i value = none
scan (suc rounds) i value =
    let (old, value') = test_and_set i value in
    let rest = scan rounds (i + 1) value' in if old then rest else some (i, value')

unfoldable pub of_scan : Option (ℕ × List Bool) → Result (ℕ × List Bool)
of_scan none = err not_found
of_scan (some found) = ok found

-- The private `FindSetZeroBit(value, maxBits, bit)`.
unfoldable pub find_in_word : List Bool → ℕ → Result (ℕ × List Bool)
unfolding scan of_scan all_ones
find_in_word value max_bits =
    if ltb 64 max_bits
    then err overflow
    else if all_ones value
    then err not_found
    else of_scan (scan max_bits 0 value)

-- One round of the loop over the words: go on behind the word, return its error, or its bit.
unfoldable pub next_word :
    Result (ℕ × List Bool) → ℕ → List Bool → Result (ℕ × List Bool) → Result (ℕ × List Bool)
next_word (err not_found) i memory (err e) = err e
next_word (err not_found) i memory (ok (bit, rest)) = ok (bit, take 64 memory ++ rest)
next_word (err e) i memory _ = err e
next_word (ok (found, value)) i memory _ = ok (i * 64 + found, value ++ drop 64 memory)

-- The loop from word `i` on, with `words` whole words left and `rest_bits` bits behind them.
-- `memory` holds the bits from that word on, those behind the buffer too.
unfoldable pub find_from : ℕ → ℕ → ℕ → List Bool → Result (ℕ × List Bool)
find_from zero rest_bits i memory =
    next_word (find_in_word (take 64 memory) rest_bits) i memory (err not_found)
find_from (suc words) rest_bits i memory =
    let rest = find_from words rest_bits (i + 1) (drop 64 memory) in
    next_word (find_in_word (take 64 memory) 64) i memory rest

-- `FindSetZeroBit(bit)` on a buffer of `bits`, followed in memory by `beyond`.
unfoldable pub find_set_zero_bit : List Bool → List Bool → Result (ℕ × List Bool)
find_set_zero_bit bits beyond = find_from (length bits / 64) (length bits % 64) 0 (bits ++ beyond)
