-- ===== src/Core/Tests.antt =====
-- core/ on concrete inputs.
mod Btrees
use cpp_lkm.Prelude.{
  ℕ, ◌+◌, ◌%◌, ◌≤◌, ◌<◌, ◌≡◌, ◌≢◌, ◌↔◌, ◌⊎◌, refl, Bool, true, false, none, some, if◌then◌else◌,
  ◌==◌, ==_iff, List, [], ◌∷◌, ◌++◌, length, take, replicate, length-replicate, set, ◌∙◌, All,
  arith, success, is_ok, ok,
}
use cpp_lkm.Core.Bio.{Io, Device, add_io, submit_wait_result}
use cpp_lkm.Core.Bio.Laws.{
  IsHealthy, write_all, submit_wait_result-healthy, submit_barrier, add_io_lem,
}
use cpp_lkm.Core.Bitmap.{find_set_zero_bit, test_and_clear_bit}
use cpp_lkm.Core.Bitmap.FirstZero.{first_zero}
use cpp_lkm.Core.Bitmap.Laws.{outcome, find_set_zero_bit_lem, test_and_clear-find}
use cpp_lkm.Core.Bytes.{encode, decode, decode-encode}
use cpp_lkm.Core.Disk.{Disk, read_bytes, write_bytes}
use cpp_lkm.Core.HashTable.{HashKey, HashTable, find, insert, insert_move, insert_err, delete}
use cpp_lkm.Core.HashTable.Chain.{count, is_some}
use cpp_lkm.Core.HashTable.Laws.{
  view, IsValid, insert-new, delete-view, insert-present, insert-no_memory,
}
use cpp_lkm.Core.Memory.{check_intersection, Common, check_intersection-Common}
use cpp_lkm.Core.RingBuffer.{RingBuffer, reset, push_back, pop_front, erase}
use cpp_lkm.Core.RingBuffer.Contents
use cpp_lkm.Core.RingBuffer.Contents.{contents}
use cpp_lkm.Core.RingBuffer.Laws.{
  ring, pushed, popped, push_back_lem, pop_front_lem, reset_lem, erase_lem,
}

-- five indices of seven, around the end
abbrev log : RingBuffer
log = record { start_index = 5; end_index = 3; size = 5; capacity = 7 }

log-IsValid : Contents.IsValid log
log-IsValid = record {
  small = omega arith;
  start_in = omega arith;
  size_in = omega arith;
  end_at = refl;
}

push_back_lem_example :
    (push_back log ≡ ok (3, pushed log))
    × (contents (pushed log) ≡ 5 ∷ 6 ∷ 0 ∷ 1 ∷ 2 ∷ 3 ∷ [])
    × All (λ (i : ℕ). i ≢ 3) (5 ∷ 6 ∷ 0 ∷ 1 ∷ 2 ∷ [])
    × (3 < 7)
    × Contents.IsValid (pushed log)
push_back_lem_example = push_back_lem log log-IsValid (omega arith)

pop_front_lem_example :
    (pop_front log ≡ ok (5, popped log))
    × (contents log ≡ 5 ∷ contents (popped log))
    × Contents.IsValid (popped log)
pop_front_lem_example = pop_front_lem log log-IsValid (omega arith)

erase_lem_example :
    ((rest : List ℕ) × (r' : RingBuffer) × (erase (5 ∷ 6 ∷ []) log ≡ (true, r'))
      × (contents log ≡ (5 ∷ 6 ∷ []) ++ rest)
      × (contents r' ≡ rest)
      × (r'.end_index ≡ 3)
      × Contents.IsValid r')
    ⊎ ((erase (5 ∷ 6 ∷ []) log ≡ (false, log))
        × ((rest : List ℕ) → contents log ≢ (5 ∷ 6 ∷ []) ++ rest))
erase_lem_example = erase_lem (5 ∷ 6 ∷ []) log log-IsValid

reset_lem_example :
    ((reset 5 3 5 7 log ≡ (true, ring 5 3 5 7)) × Contents.IsValid (ring 5 3 5 7) × (5 < 7))
    ⊎ ((reset 5 3 5 7 log ≡ (false, log)) × ¬ (Contents.IsValid (ring 5 3 5 7) × (5 < 7)))
reset_lem_example = reset_lem 5 3 5 7 log (omega arith)

-- a bitmap of three bits, and the rest of the word that holds them
abbrev bits : List Bool
bits = true ∷ false ∷ true ∷ []

abbrev beyond : List Bool
beyond = replicate 61 false

beyond_long : 64 ≤ length bits % 64 + length beyond
beyond_long = omega (arith, length-replicate 61 false)

find_set_zero_bit_lem_example :
    find_set_zero_bit bits beyond ≡ outcome (λ b. (b, set bits b true ++ beyond)) (first_zero bits)
find_set_zero_bit_lem_example = find_set_zero_bit_lem bits beyond beyond_long

bits-found : find_set_zero_bit bits beyond ≡ ok (1, (true ∷ true ∷ true ∷ []) ++ beyond)
unfolding first_zero
bits-found = find_set_zero_bit_lem bits beyond beyond_long

instance number_key : HashKey ℕ
number_key = record { hash = λ k. k; equal = λ a b. a == b; equal_iff = ==_iff }

abbrev empty_table : HashTable ℕ ℕ
empty_table = record { bucket = λ i. []; empty_value = 0 }

empty_table-IsValid : IsValid 4 empty_table
unfolding count
empty_table-IsValid = record { once = λ k i. omega arith; at_home = λ k i away. refl }

empty_table-view : (k : ℕ) → view 4 empty_table k ≡ none
unfolding view find
empty_table-view k = refl

insert-new_example :
    let (done, t') = insert 4 true 3 30 empty_table in
    (done ≡ true)
    × ((q : ℕ) → view 4 t' q ≡ (if 3 == q then some 30 else view 4 empty_table q))
    × IsValid 4 t'
unfolding number_key
insert-new_example = insert-new 4 3 30 empty_table empty_table-IsValid (empty_table-view 3)

-- a table with one entry
abbrev one_entry : HashTable ℕ ℕ
one_entry = (insert 4 true 3 30 empty_table).1

one_entry-IsValid : IsValid 4 one_entry
one_entry-IsValid = (insert-new 4 3 30 empty_table empty_table-IsValid (empty_table-view 3)).2

one_entry-view : view 4 one_entry 3 ≡ some 30
unfolding number_key
one_entry-view = (insert-new 4 3 30 empty_table empty_table-IsValid (empty_table-view 3)).1 3

one_entry-view_other : view 4 one_entry 7 ≡ none
unfolding view number_key find
one_entry-view_other =
    (insert-new 4 3 30 empty_table empty_table-IsValid (empty_table-view 3)).1 7
    ∙ empty_table-view 7

delete-view_example :
    let (done, t') = delete 4 3 one_entry in
    (done ≡ is_some (view 4 one_entry 3))
    × ((q : ℕ) → view 4 t' q ≡ (if 3 == q then none else view 4 one_entry q))
    × IsValid 4 t'
unfolding number_key
delete-view_example = delete-view 4 3 one_entry one_entry-IsValid

insert-no_memory_example :
    ((insert 4 false 7 70 one_entry).0 ≡ true)
    × ((insert_move 4 false 7 70 one_entry).0 ≡ false)
    × ((q : ℕ) → view 4 (insert 4 false 7 70 one_entry).1 q ≡ view 4 one_entry q)
    × ((q : ℕ) → view 4 (insert_move 4 false 7 70 one_entry).1 q ≡ view 4 one_entry q)
insert-no_memory_example = insert-no_memory 4 7 70 one_entry one_entry-view_other

-- a device that never fails
abbrev device : Device
device = record {
  write = λ d io. (success, write_bytes d io.position io.bytes);
  read = λ d p n. ok (read_bytes d p n);
}

device-IsHealthy : IsHealthy device
device-IsHealthy = record { writes = λ d io. refl; reads = λ d p n. refl }

abbrev blank : Disk
blank a = 0

decode-encode_example : decode (encode 4 300) ≡ 300
decode-encode_example = decode-encode 4 300 (omega arith)
