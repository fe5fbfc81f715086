-- ===== src/Kstor/Journal/Replay/Held.antt =====
-- kstor/journal.cpp: a log on disk that holds blocks, and writes that leave it alone.
use cpp_lkm.Prelude.{
  ℕ, ◌+◌, ◌*◌, ◌≤◌, ◌<◌, ◌≡◌, ◌⊎◌, inl, inr, ◌∙◌, List, [], ◌∷◌, length, All, All-append, arith,
  take, length-take,
}
use cpp_lkm.Core.Bio.{Io, page_size}
use cpp_lkm.Core.Bio.Laws.{write_all}
use cpp_lkm.Core.Disk.{Disk, read_bytes, write_bytes, read-write_apart}
use cpp_lkm.Kstor.Journal.{Journal, block_size}
use cpp_lkm.Kstor.Journal.Positions.{
  IsPlaced, log_position, index_to_position_lem, check_position_lem,
}
use cpp_lkm.Kstor.Journal.Replay.Apply.{AcceptedBody, AllAccepted, body_ios, data_ios}
use cpp_lkm.Kstor.Layout.TxBlock.{
  Body, tx_begin, tx_data, tx_commit, TxBlock, write_tx_block_prepare,
}

-- what lies apart from the journal may be written
abbrev pub IsOutside : Journal → Io → Type 0
IsOutside j io =
    (io.position + length io.bytes ≤ j.start * block_size)
    ⊎ ((j.start + j.size) * block_size ≤ io.position)

module _ (sum : List ℕ → List ℕ) (j : Journal) where
  -- The log blocks at some indices are the pages of some blocks, in order.
  abbrev pub Holds : Disk → List ℕ → List TxBlock → Type 0
  Holds d [] [] = Unit {0}
  Holds d [] (block ∷ blocks) = ⊥
  Holds d (index ∷ indices) [] = ⊥
  Holds d (index ∷ indices) (block ∷ blocks) =
      (read_bytes d (log_position j index) page_size ≡ write_tx_block_prepare sum block)
      × Holds d indices blocks

  pub Holds-write :
      (d : Disk) (io : Io) (indices : List ℕ) (blocks : List TxBlock)
      → IsPlaced j
      → IsOutside j io
      → All (λ i. i < j.log_rb.capacity) indices
      → Holds d indices blocks
      → Holds (write_bytes d io.position io.bytes) indices blocks
  Holds-write d io [] [] placed out inside h = h
  Holds-write d io [] (block ∷ blocks) placed out inside h = h
  Holds-write d io (index ∷ indices) [] placed out inside h = h
  Holds-write d io (index ∷ indices) (block ∷ blocks) placed out inside h =
      let (found, lo, hi) = index_to_position_lem j index placed inside.0 in
      (
        read-write_apart d io.position io.bytes (log_position j index) page_size (sides out lo hi)
            ∙ h.0,
        Holds-write d io indices blocks placed out inside.1 h.1,
      )
    where
      sides :
          IsOutside j io
          → (j.start + 1) * block_size ≤ log_position j index
          → log_position j index + block_size ≤ (j.start + j.size) * block_size
          → (log_position j index + page_size ≤ io.position)
            ⊎ (io.position + length io.bytes ≤ log_position j index)
      sides (inl before) lo hi = inr (omega arith)
      sides (inr behind) lo hi = inl (omega arith)

  pub Holds-write_all :
      (list : List Io) (d : Disk) (indices : List ℕ) (blocks : List TxBlock)
      → IsPlaced j
      → All (IsOutside j) list
      → All (λ i. i < j.log_rb.capacity) indices
      → Holds d indices blocks
      → Holds (write_all list d) indices blocks
  unfolding write_all
  Holds-write_all [] d indices blocks placed out inside h = h
  Holds-write_all (io ∷ list) d indices blocks placed out inside h =
      Holds-write_all list (write_bytes d io.position io.bytes) indices blocks placed out.1 inside
        (Holds-write d io indices blocks placed out.0 inside h)

-- accepted data blocks stand apart from the journal
body-IsOutside :
    (j : Journal) (body : Body)
    → IsPlaced j
    → AcceptedBody j body
    → All (IsOutside j) (body_ios body)
body-IsOutside j tx_begin placed h = tt
body-IsOutside j (tx_data index size position bytes) placed h =
    let exact : length (take size bytes) ≡ size = omega (arith, length-take size bytes) in
    (rw exact (check_position_lem j position size placed (omega arith) h.0 h.3).3, tt)
body-IsOutside j (tx_commit state block_count time) placed h = tt

pub data-IsOutside :
    (j : Journal) (list : List TxBlock)
    → IsPlaced j
    → AllAccepted j list
    → All (IsOutside j) (data_ios list)
data-IsOutside j [] placed h = tt
data-IsOutside j (block ∷ list) placed h =
    All-append (IsOutside j) (body_ios block.body) (data_ios list)
      (body-IsOutside j block.body placed h.0) (data-IsOutside j list placed h.1)
