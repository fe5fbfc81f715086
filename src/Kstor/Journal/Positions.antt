-- ===== src/Kstor/Journal/Positions.antt =====
-- kstor/journal.cpp, `IndexToPosition` and `CheckPosition`: where the blocks of the log stand, and where a transaction may write.
use cpp_lkm.Prelude.{
  ℕ, ◌+◌, ◌*◌, ◌^◌, ◌%◌, ◌≤◌, ◌<◌, ◌≡◌, ◌⊎◌, inl, inr, refl, false, not, ltb, leb, ◌==◌, arith,
  add64, mul64, ok, err, overflow, ◌>>◌, reject, Bool, invalid_value, overlap,
}
use cpp_lkm.Core.Memory.{check_intersection, apart}
use cpp_lkm.Kstor.Journal.{
  Journal, block_size, check_position, index_to_position, position_to_index,
}

-- A journal that lies within a volume of less than 2^63 bytes, with a log of one block less.
pub record IsPlaced (j : Journal) : Type 0 where
  pub volume_small : j.volume_size < 2 ^ 63
  pub start_in : 1 ≤ j.start
  pub size_in : 2 ≤ j.size
  pub end_in : (j.start + j.size) * block_size ≤ j.volume_size
  pub log_size : j.log_rb.capacity + 1 ≡ j.size

-- the position of log block `index`
abbrev pub log_position : Journal → ℕ → ℕ
log_position j index = (j.start + 1 + index) * block_size

-- In a journal that lies within its volume, an index below the log's capacity is given the position
-- of its block, and this block lies behind the journal's header and within the journal.
pub index_to_position_lem :
    (j : Journal) (index : ℕ)
    → IsPlaced j
    → index < j.log_rb.capacity
    → (index_to_position j index ≡ ok (log_position j index))
      × ((j.start + 1) * block_size ≤ log_position j index)
      × (log_position j index + block_size ≤ (j.start + j.size) * block_size)
unfolding index_to_position
index_to_position_lem j index placed h = (ground arith, omega arith, omega arith)

passed :
    (a b c d e : Bool)
    → (reject a invalid_value
        >> (reject b overlap >> (reject c overlap >> (reject d overflow >> reject e overflow))))
      ≡ ok tt
    → (a ≡ false) × (b ≡ false) × (c ≡ false) × (d ≡ false) × (e ≡ false)
passed a b c d e h = ground arith

-- In a journal that lies within its volume: a position that `CheckPosition` accepts for 1 to 4096
-- bytes is a sector, and these bytes lie behind the volume's header, within the volume and apart
-- from the journal.
pub check_position_lem :
    (j : Journal) (position size : ℕ)
    → IsPlaced j
    → size ≤ block_size
    → 0 < size
    → check_position j position size ≡ ok tt
    → (position % 512 ≡ 0)
      × (block_size ≤ position)
      × (position + size ≤ j.volume_size)
      × ((position + size ≤ j.start * block_size) ⊎ ((j.start + j.size) * block_size ≤ position))
unfolding check_position
check_position_lem j position size placed small some_bytes h =
    let end : mul64 (add64 j.start j.size) block_size ≡ (j.start + j.size) * block_size =
      omega arith in
    let start : mul64 j.start block_size ≡ j.start * block_size = omega arith in
    let (sector, behind, off_journal, inside, end_inside) =
      passed (not (position % 512 == 0)) (ltb position block_size)
        (check_intersection position (add64 position size) (mul64 j.start block_size)
          (mul64 (add64 j.start j.size) block_size))
        (leb j.volume_size position) (ltb j.volume_size (add64 position size)) h in
    let exact : add64 position size ≡ position + size = ground arith in
    (
      ground arith,
      ground arith,
      ground arith,
      apart position (position + size) (j.start * block_size) ((j.start + j.size) * block_size)
          (rw (exact, start, end) at off_journal) (omega arith) (omega arith),
    )

not_common : (s1 e1 s2 e2 : ℕ) → (e1 ≤ s2) ⊎ (e2 ≤ s1) → check_intersection s1 e1 s2 e2 ≡ false
unfolding check_intersection
not_common s1 e1 s2 e2 (inl before) = ground arith
not_common s1 e1 s2 e2 (inr behind) = ground arith

-- `CheckPosition` accepts every such position.
check_position-ok :
    (j : Journal) (position size : ℕ)
    → IsPlaced j
    → size ≤ block_size
    → 0 < size
    → position % 512 ≡ 0
    → block_size ≤ position
    → position + size ≤ j.volume_size
    → ((position + size ≤ j.start * block_size) ⊎ ((j.start + j.size) * block_size ≤ position))
    → check_position j position size ≡ ok tt
unfolding check_position
check_position-ok j position size placed small some_bytes sector behind inside off_journal =
    let end : mul64 (add64 j.start j.size) block_size ≡ (j.start + j.size) * block_size =
      omega arith in
    let start : mul64 j.start block_size ≡ j.start * block_size = omega arith in
    let exact : add64 position size ≡ position + size = omega arith in
    let apart_from : check_intersection position (add64 position size) (mul64 j.start block_size)
          (mul64 (add64 j.start j.size) block_size)
        ≡ false =
      rw (exact, start, end)
        (not_common position (position + size) (j.start * block_size)
          ((j.start + j.size) * block_size) off_journal) in
    let first : ltb position block_size ≡ false = ground arith in
    let third : leb j.volume_size position ≡ false = ground arith in
    let fourth : ltb j.volume_size (add64 position size) ≡ false = ground arith in
    rw (sector, first, apart_from, third, fourth) refl

-- A part of whole sectors of what is accepted is accepted.
pub check_position-part :
    (j : Journal) (position size off part : ℕ)
    → IsPlaced j
    → size ≤ block_size
    → 0 < part
    → off % 512 ≡ 0
    → off + part ≤ size
    → check_position j position size ≡ ok tt
    → check_position j (position + off) part ≡ ok tt
check_position-part j position size off part placed small some_bytes whole fits h =
    let (sector, behind, inside, off_journal) =
      check_position_lem j position size placed small (omega arith) h in
    check_position-ok j (position + off) part placed (omega arith) some_bytes (omega arith)
      (omega arith) (omega arith)
      (elim off_journal [ inl a ↦ inl (omega arith) | inr b ↦ inr (omega arith) ])

-- `PositionToIndex` compares a position in bytes with a number of blocks: in a journal that lies
-- within its volume and has at most 4095 * start + 4096 blocks, it refuses the position of every
-- block of the log.
pub position_to_index_refuses :
    (j : Journal) (index : ℕ)
    → IsPlaced j
    → index < j.log_rb.capacity
    → j.size ≤ 4095 * j.start + 4096
    → position_to_index j (log_position j index) ≡ err overflow
unfolding position_to_index
position_to_index_refuses j index placed h small = ground arith
