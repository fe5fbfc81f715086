-- ===== src/Kstor/Journal/Replay.antt =====
-- kstor/journal.cpp: reading the log back and applying the transactions that it holds.
pub mod Apply
pub mod Check
pub mod Held
pub mod Loop
pub mod Written
pub mod Recovery
pub mod Commit
pub mod Empty
pub mod Page
use cpp_lkm.Prelude.{
  ℕ, zero, suc, ◌+◌, ◌%◌, Bool, true, false, not, List, [], ◌∷◌, ◌++◌, Option, none, some, length,
  ltb, ◌==◌, if◌then◌else◌, u32_mod, Error, success, is_ok, Result, ok, err, invalid_value,
  no_memory, not_found, data_corrupt, unsuccessful, reject, ◌>>=◌, ◌>>◌,
}
use cpp_lkm.Core.Bio.{Io, Device, add_io, submit_wait_result, page_size}
use cpp_lkm.Core.Disk.{Disk}
use cpp_lkm.Core.RingBuffer.{RingBuffer, pop_front}
use cpp_lkm.Kstor.Guid.{equal}
use cpp_lkm.Kstor.Journal.{Journal, JournalState, check_position, index_to_position}
use cpp_lkm.Kstor.Journal.Transaction.{TxState, state_code}
use cpp_lkm.Kstor.Layout.TxBlock.{
  Body, tx_begin, tx_data, tx_commit, TxBlock, read_tx_block_complete,
}

-- The last element of a list and those before it: `Tail` and `PopTail`.
unfoldable pub pop_tail {ℓ} : {A : Type ℓ} → List A → Option (List A × A)
pop_tail [] = none
pop_tail (x ∷ list) = elim (pop_tail list) [
  | none ↦ some ([], x)
  | some (before, last) ↦ some (x ∷ before, last)
]

-- The loop over the data blocks in `Replay(blockList)`, from `index` on.
unfoldable pub check_data : List ℕ → ℕ → List TxBlock → Result (Unit {0})
check_data tx_id index [] = ok tt
check_data tx_id index (block ∷ list) = elim block.body [
  | tx_data block_index data_size position bytes ↦ do
    reject (not (equal tx_id block.tx_id)) data_corrupt
    reject (not (block_index == index)) data_corrupt
    check_data tx_id ((index + 1) % u32_mod) list
  | _ ↦ err data_corrupt
]

-- `Replay(blockList)` up to `ApplyBlocks`: the data blocks of a whole, committed transaction.
unfoldable pub check_commit : TxBlock → List TxBlock → TxBlock → Result (List TxBlock)
check_commit first list last = elim first.body [
  | tx_begin ↦ elim last.body [
    | tx_commit state block_count time ↦ do
      reject (not (state == state_code TxState.commited)) data_corrupt
      reject (not (equal first.tx_id last.tx_id)) data_corrupt
      reject (not (block_count == length list)) data_corrupt
      check_data first.tx_id 0 list
      ok list
    | _ ↦ err data_corrupt
  ]
  | _ ↦ err data_corrupt
]

unfoldable pub check_tx : List TxBlock → Result (List TxBlock)
check_tx [] = err data_corrupt
check_tx (first ∷ rest) =
    if ltb (length (first ∷ rest)) 3 then err data_corrupt else elim (pop_tail rest) [
      | none ↦ err data_corrupt
      | some (list, last) ↦ check_commit first list last
    ]

-- Memory that the code reads without having set it: what a newly allocated page holds, and what stands
-- behind the data of a block, which are its hash and the memory behind the block.
pub record Leftover : Type 0 where
  pub page : List ℕ
  pub behind : TxBlock → List ℕ

-- `dev` is the block device, and `memory n` says whether the allocations for the `n`-th block succeed:
-- its page, its object or request, and its node in the list. If it does not hold, the error is
-- `NoMemory`.
module _ (dev : Device) (fresh : Leftover) (memory : ℕ → Bool) where
  -- The loop of `ApplyBlocks`: the requests for the blocks. The size in a block is not compared with
  -- that of its data, and what is behind them is copied for a larger one.
  unfoldable pub gather_blocks : Journal → List TxBlock → List Io → Result (List Io)
  gather_blocks j [] bios = ok bios
  gather_blocks j (block ∷ list) bios = elim block.body [
    | tx_data index data_size position bytes ↦ do
      check_position j position data_size
      more ←
          add_io (memory (length bios)) fresh.page (bytes ++ fresh.behind block) data_size position
            bios
      gather_blocks j list more
    | _ ↦ err invalid_value
  ]

  -- `ApplyBlocks`
  unfoldable pub apply_blocks : Journal → List TxBlock → Bool → Disk → Error × Disk
  apply_blocks j list preflush_fua d = elim (gather_blocks j list []) [
    | err e ↦ (e, d)
    | ok bios ↦ submit_wait_result dev preflush_fua bios d
  ]

  -- `Replay(blockList)`
  unfoldable pub replay_tx : Journal → List TxBlock → Disk → Error × Disk
  replay_tx j list d = elim (check_tx list) [
    | err e ↦ (e, d)
    | ok data_blocks ↦ apply_blocks j data_blocks true d
  ]

  -- The switch of the loop of `Replay()` on the block that was read: the error, the list of blocks,
  -- and the device. A commit block moves the list away.
  unfoldable pub take_block : Journal → TxBlock → List TxBlock → Disk → Error × List TxBlock × Disk
  take_block j block list d = elim block.body [
    | tx_begin ↦
        if length list == 0 then (success, list ++ (block ∷ []), d) else (data_corrupt, list, d)
    | tx_data _ _ _ _ ↦
        if length list == 0 then (data_corrupt, list, d) else (success, list ++ (block ∷ []), d)
    | tx_commit _ _ _ ↦
        if ltb (length list) 2
        then (data_corrupt, list, d)
        else (let (e, d') = replay_tx j (list ++ (block ∷ [])) d in (e, [], d'))
  ]

  module _ (sum : List ℕ → List ℕ) where
    -- `ReadTxBlock`
    unfoldable pub read_tx_block : Journal → ℕ → Disk → Result TxBlock
    read_tx_block j index d = do
      position ← index_to_position j index
      reject (not (memory index)) no_memory
      reject (not (position % 512 == 0)) invalid_value
      page ← dev.read d position page_size
      read_tx_block_complete sum page

    -- The loop of `Replay()`: what it returns, the journal, and the device.
    unfoldable pub replay_loop : ℕ → Journal → List TxBlock → Disk → Error × Journal × Disk
    replay_loop zero j list d = (unsuccessful, j, d)
    replay_loop (suc fuel) j list d = elim (pop_front j.log_rb) [
      | err not_found ↦ (success, j, d)
      | err e ↦ (e, j, d)
      | ok (index, ring) ↦
          let j' : Journal = record j { log_rb = ring } in
          elim (read_tx_block j' index d) [
            | err e ↦ (e, j', d)
            | ok block ↦
                let (e, list', d') = take_block j' block list d in
                let rest = replay_loop fuel j' list' d' in if is_ok e then rest else (e, j', d')
          ]
    ]

    -- `Replay()`: the fuel is one round more than the ring holds indices.
    unfoldable pub replay : Journal → Disk → Error × Journal × Disk
    replay j d = replay_loop (suc j.log_rb.size) (record j { state = JournalState.replaying }) [] d
