-- ===== src/Kstor/Journal/Log.antt =====
-- kstor/journal.cpp: writing a committing transaction to the log.
pub mod Blocks
pub mod Outcome
use cpp_lkm.Prelude.{
  ℕ, ◌%◌, Bool, true, false, not, List, [], ◌∷◌, ◌++◌, length, ◌==◌, if◌then◌else◌, u32_mod, Error,
  success, is_ok, Result, ok, err, invalid_state, no_memory, reject, ◌>>=◌, ◌>>◌,
}
use cpp_lkm.Core.Bio.{Io, add_page}
use cpp_lkm.Core.HashTable.{HashTable, lookup, delete}
use cpp_lkm.Core.RingBuffer.{RingBuffer, push_back}
use cpp_lkm.Kstor.Guid.{Guid, guid_key}
use cpp_lkm.Kstor.Journal.{Journal, index_to_position}
use cpp_lkm.Kstor.Journal.Transaction.{TxState, Transaction, state_code}
use cpp_lkm.Kstor.Layout.TxBlock.{
  Body, tx_begin, tx_data, tx_commit, TxBlock, write_tx_block_prepare,
}

-- `TxTable`: 512 buckets, from identifiers to objects, given by their addresses.
abbrev pub TxTable : Type 0
TxTable = HashTable Guid ℕ

abbrev pub bucket_count : ℕ
bucket_count = 512

-- What `WriteTx` works on: the journal, its table, and the list of requests of the batch.
pub record Log : Type 0 where
  pub journal : Journal
  pub table : TxTable
  pub bios : List Io

-- `UnlinkTx`: only the object that the table holds is removed.
unfoldable pub unlink_tx : Transaction → TxTable → TxTable
unlink_tx tx table =
    let (address, exist) = lookup bucket_count tx.tx_id table in
    if not exist
    then table
    else if not (address == tx.address)
    then table
    else (delete bucket_count tx.tx_id table).1

-- `GetNextIndex`
unfoldable pub get_next_index : Journal → Result (ℕ × Journal)
get_next_index j = elim (push_back j.log_rb) [
  | err e ↦ err e
  | ok (index, ring) ↦ ok (index, record j { log_rb = ring })
]

-- `OnCommitCompleteLocked`
unfoldable pub on_commit_complete : Error → Transaction → TxTable → Transaction × TxTable
unfolding unlink_tx
on_commit_complete result tx table =
    if is_ok result
    then (
      record tx { state = TxState.commited; commit_result = result; commit_event = true },
      table,
    )
    else (
      record tx { state = TxState.canceled; commit_result = result; commit_event = true },
      unlink_tx tx table,
    )

-- `sum` is `XXHash::Sum`; `memory index` says whether the allocations for the block at `index`
-- succeed: its node in `IndexList`, its page and its request. If it does not hold, the first that is
-- asked for fails, with `NoMemory`.
module _ (sum : List ℕ → List ℕ) (memory : ℕ → Bool) where
  -- `WriteTxBlock`
  unfoldable pub write_tx_block : Journal → ℕ → TxBlock → List Io → Result (List Io)
  write_tx_block j index block bios = do
    position ← index_to_position j index
    reject (not (memory index)) no_memory
    add_page true (write_tx_block_prepare sum block) position 0 bios

  -- One block of `WriteTx`: an index of the ring, its node in `IndexList`, and the request. The ring
  -- keeps the index also where a later step fails; `fail` clears the list then.
  unfoldable pub put_block : TxBlock → Log → List ℕ → Error × Log × List ℕ
  put_block block log index_list = elim (get_next_index log.journal) [
    | err e ↦ (e, log, index_list)
    | ok (index, j) ↦
        elim (reject (not (memory index)) no_memory >> write_tx_block j index block log.bios) [
          | err e ↦ (e, record log { journal = j }, index_list)
          | ok bios ↦ (success, record log { journal = j; bios = bios }, index_list ++ (index ∷ []))
        ]
  ]

  -- The blocks one after the other, up to the first error.
  unfoldable pub put_blocks : List TxBlock → Log → List ℕ → Error × Log × List ℕ
  put_blocks [] log index_list = (success, log, index_list)
  put_blocks (block ∷ blocks) log index_list =
      let (e, log', list) = put_block block log index_list in
      let rest = put_blocks blocks log' list in if is_ok e then rest else (e, log', list)

-- `BeginBlock`, and `CommitBlock` as `WriteTx` completes it; `Time` is left 0.
abbrev pub begin_block : Transaction → TxBlock
begin_block tx = record { tx_id = tx.tx_id; body = tx_begin }

abbrev pub commit_block : Transaction → TxBlock
commit_block tx = record {
  tx_id = tx.tx_id;
  body = tx_commit (state_code TxState.commited) (length tx.data_block_list % u32_mod) 0;
}

-- the blocks of a transaction in the log
abbrev pub tx_blocks : Transaction → List TxBlock
tx_blocks tx = begin_block tx ∷ (tx.data_block_list ++ (commit_block tx ∷ []))

-- `fail:` of `WriteTx`
unfoldable pub fail : Error → Transaction → Log → Error × Transaction × Log
unfolding on_commit_complete
fail e tx log =
    let (tx', table) = on_commit_complete e (record tx { index_list = [] }) log.table in
    (e, tx', record log { table = table })

-- `Transaction::WriteTx`
unfoldable pub write_tx :
    (List ℕ → List ℕ) → (ℕ → Bool) → Transaction → Log → Error × Transaction × Log
write_tx sum memory tx log = elim tx.state [
  | TxState.commiting ↦
      let (e, log', list) = put_blocks sum memory (tx_blocks tx) log tx.index_list in
      if is_ok e then (e, record tx { index_list = list }, log') else fail e tx log'
  | _ ↦ fail invalid_state tx log
]
