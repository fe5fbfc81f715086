-- ===== src/Core/RingBuffer.antt =====
-- core/ring_buffer.h: the indices of a ring, without storage.
pub mod Contents
pub mod Laws
use cpp_lkm.Prelude.{
  ℕ, ◌%◌, Bool, true, false, List, [], ◌∷◌, ltb, leb, not, ◌==◌, if◌then◌else◌, add64, sub64,
  Result, ok, err, no_memory, not_found,
}

pub record RingBuffer : Type 0 where
  pub start_index : ℕ
  pub end_index : ℕ
  pub size : ℕ
  pub capacity : ℕ

-- The distance from the start to the end, as `Reset` computes it.
unfoldable pub distance : ℕ → ℕ → ℕ → ℕ
distance start_index end_index capacity =
    if leb start_index end_index
    then sub64 end_index start_index
    else sub64 (add64 end_index capacity) start_index

-- `Reset`: the returned flag, and the ring, which a refusal leaves as it was.
unfoldable pub reset : ℕ → ℕ → ℕ → ℕ → RingBuffer → Bool × RingBuffer
reset start_index end_index size capacity r =
    if capacity == 0
    then (false, r)
    else if leb capacity size
    then (false, r)
    else if leb capacity start_index
    then (false, r)
    else if leb capacity end_index
    then (false, r)
    else if not (distance start_index end_index capacity == size)
    then (false, r)
    else (
      true,
      record { start_index = start_index; end_index = end_index; size = size; capacity = capacity },
    )

unfoldable pub push_back : RingBuffer → Result (ℕ × RingBuffer)
push_back r =
    if r.size == r.capacity
    then err no_memory
    else ok (
      r.end_index,
      record r { end_index = add64 r.end_index 1 % r.capacity; size = add64 r.size 1 },
    )

unfoldable pub pop_front : RingBuffer → Result (ℕ × RingBuffer)
pop_front r =
    if r.size == 0
    then err not_found
    else ok (
      r.start_index,
      record r { start_index = add64 r.start_index 1 % r.capacity; size = sub64 r.size 1 },
    )

-- The loop of `Erase` over its local `startIndex` and `size`.
unfoldable pub erase_from : ℕ → List ℕ → ℕ → ℕ → Bool × ℕ × ℕ
erase_from capacity [] start size = (true, start, size)
erase_from capacity (index ∷ rest) start size =
    let next = erase_from capacity rest (add64 start 1 % capacity) (sub64 size 1) in
    if size == 0
    then (false, start, size)
    else if not (index == start)
    then (false, start, size)
    else next

-- `Erase`: all of the list from the front, or nothing.
unfoldable pub erase : List ℕ → RingBuffer → Bool × RingBuffer
unfolding erase_from
erase index_list r =
    let (done, start, size) = erase_from r.capacity index_list r.start_index r.size in
    if done then (true, record r { start_index = start; size = size }) else (false, r)
