-- ===== src/Kstor/Journal/Session.antt =====
-- kstor/journal.cpp: a running journal. Clients begin, commit and cancel transactions; the thread
-- writes the transactions that wait to the log, flushes it, and drops those that are applied.
pub mod Compact
pub mod Batch
pub mod Durable
pub mod Canceled
use cpp_lkm.Prelude.{
  ℕ, zero, suc, ◌+◌, ◌%◌, Bool, true, false, not, List, [], ◌∷◌, ◌++◌, Option, none, some, ◌==◌,
  if◌then◌else◌, mul64, length, Error, success, is_ok, Result, ok, err, invalid_state, not_found,
  no_memory, cancelled, reject, ◌>>=◌, ◌>>◌,
}
use cpp_lkm.Core.Bio.{Io, Device, add_page, submit_wait_result}
use cpp_lkm.Core.Disk.{Disk}
use cpp_lkm.Core.HashTable.{HashTable, lookup, insert}
use cpp_lkm.Core.RingBuffer.{RingBuffer, erase}
use cpp_lkm.Kstor.Guid.{Guid, guid_key}
use cpp_lkm.Kstor.Journal.{Journal, JournalState, block_size}
use cpp_lkm.Kstor.Journal.Header.{flush_header}
use cpp_lkm.Kstor.Journal.Log.{Log, TxTable, bucket_count, unlink_tx, on_commit_complete, write_tx}
use cpp_lkm.Kstor.Journal.Replay.{Leftover, apply_blocks}
use cpp_lkm.Kstor.Journal.Transaction.{TxState, Transaction, new_transaction}
use cpp_lkm.Kstor.Layout.Header.{header_page}

-- The journal with its table and its lists: `TxList`, the transactions that wait for their commit,
-- and `TxToErase`, those that are applied.
pub record Session : Type 0 where
  pub log : Log
  pub tx_list : List Transaction
  pub tx_to_erase : List Transaction

-- `BeginTx`, for a transaction that is allocated at `address` with the identifier `tx_id`, if there
-- is memory for it; `node` says whether the table's entry can be allocated.
unfoldable pub begin_tx : Option (ℕ × List ℕ) → Bool → Session → Option Transaction × Session
begin_tx none node s = (none, s)
begin_tx (some (address, tx_id)) node s = elim s.log.journal.state [
  | JournalState.running ↦
      let (inserted, table) = insert bucket_count node tx_id address s.log.table in
      let s' : Session = record s { log = record s.log { table = table } } in
      if inserted then (some (new_transaction address tx_id), s') else (none, s')
  | _ ↦ (none, s)
]

-- Whether the table holds this very object.
unfoldable pub is_linked : Transaction → TxTable → Bool
is_linked tx table =
    let (address, exist) = lookup bucket_count tx.tx_id table in
    if not exist then false else address == tx.address

-- `StartCommitTx`; `node` says whether the list's node can be allocated.
unfoldable pub start_commit_tx : Bool → Transaction → Session → Error × Session
start_commit_tx node tx s =
    if not (is_linked tx s.log.table)
    then (not_found, s)
    else if not node
    then (no_memory, s)
    else (success, record s { tx_list = s.tx_list ++ (tx ∷ []) })

-- `Commit` up to the wait: the transaction waits in `TxList`, or it is canceled.
unfoldable pub commit : Bool → Transaction → Session → Error × Transaction × Session
commit node tx s = elim tx.state [
  | TxState.new ↦
      let tx' : Transaction = record tx { state = TxState.commiting } in
      let (e, s') = start_commit_tx node tx' s in
      if is_ok e then (success, tx', s') else (
        e,
        record tx' { state = TxState.canceled },
        record s' { log = record s'.log { table = unlink_tx tx' s'.log.table } },
      )
  | _ ↦ (invalid_state, tx, s)
]

-- `Cancel`
unfoldable pub cancel : Transaction → Session → Transaction × Session
cancel tx s = (
  record tx { state = TxState.canceled; commit_result = cancelled },
  record s { log = record s.log { table = unlink_tx tx s.log.table } },
)

-- `EraseTx`; `node` says whether the list's node can be allocated.
unfoldable pub erase_tx : Bool → Transaction → Session → Error × Session
erase_tx node tx s =
    if not (is_linked tx s.log.table)
    then (not_found, s)
    else if not node
    then (no_memory, s)
    else (success, record s { tx_to_erase = s.tx_to_erase ++ (tx ∷ []) })

-- `CompactLog`'s inner loop. `it.Erase()` moves the iterator on, and the loop's `it.Next()` moves it
-- once more: the transaction behind one that was erased is not looked at. The ring, the transactions
-- that are left, and the count of those that were erased.
unfoldable pub compact_pass : List Transaction → RingBuffer → RingBuffer × List Transaction × ℕ
compact_pass [] r = (r, [], 0)
compact_pass (tx ∷ []) r =
    let (erased, r') = erase tx.index_list r in if erased then (r', [], 1) else (r, tx ∷ [], 0)
compact_pass (tx ∷ next ∷ list) r =
    let (erased, r') = erase tx.index_list r in
    let (skipped, left, count) = compact_pass list r' in
    let (same, left', count') = compact_pass (next ∷ list) r in
    if erased then (skipped, next ∷ left, count + 1) else (same, tx ∷ left', count')

-- `CompactLog`'s outer loop: passes until one erases nothing.
unfoldable pub compact_passes : ℕ → List Transaction → RingBuffer → RingBuffer × List Transaction
compact_passes zero list r = (r, list)
compact_passes (suc fuel) list r =
    let (r', left, count) = compact_pass list r in
    let rest = compact_passes fuel left r' in if count == 0 then (r', left) else rest

-- `CompactLog`: the fuel is one pass more than there are transactions; what is left is dropped.
unfoldable pub compact_log : Session → Session
compact_log s =
    let (r, left) =
      compact_passes (suc (length s.tx_to_erase)) s.tx_to_erase s.log.journal.log_rb in
    record s {
      log = record s.log { journal = record s.log.journal { log_rb = r } };
      tx_to_erase = [];
    }

-- The batch that was written, with a transaction's handler called for each: `OnCommitComplete`.
unfoldable pub complete_all : Error → List Transaction → TxTable → List Transaction × TxTable
complete_all e [] table = ([], table)
complete_all e (tx ∷ txs) table =
    let (tx', table') = on_commit_complete e tx table in
    let (txs', table'') = complete_all e txs table' in (tx' ∷ txs', table'')

-- What `Unload` does with the transactions that still wait.
unfoldable pub cancel_all : List Transaction → Session → List Transaction × Session
cancel_all [] s = ([], s)
cancel_all (tx ∷ txs) s =
    let (tx', s') = cancel tx s in let (txs', s'') = cancel_all txs s' in (tx' ∷ txs', s'')

-- `dev` is the block device and `sum` is `XXHash::Sum`. `memory` says whether the allocations for a
-- block of the log or of a request succeed, `page_memory` whether those for the header do.
module _ (dev : Device) (sum : List ℕ → List ℕ) (memory : ℕ → Bool) where
  -- `Flush`, on the requests in `bios`
  unfoldable pub flush : Bool → Session → Disk → Error × Session × Disk
  flush page_memory s d =
      let j = s.log.journal in
      elim (add_page page_memory (header_page sum (flush_header j)) (mul64 j.start block_size) 0
        s.log.bios) [
          | err e ↦ (e, s, d)
          | ok bios ↦
              let (e, d') = submit_wait_result dev true bios d in
              let s' : Session = record s { log = record s.log { bios = bios } } in
              if is_ok e then (success, compact_log s', d') else (e, s', d')
        ]

  -- `Run`'s loop over the transactions of a batch: it stops at the first error.
  unfoldable pub write_batch : List Transaction → Log → Error × List Transaction × Log
  write_batch [] log = (success, [], log)
  write_batch (tx ∷ txs) log =
      let (e, tx', log') = write_tx sum memory tx log in
      let (e', txs', log'') = write_batch txs log' in
      if is_ok e then (e', tx' ∷ txs', log'') else (e, tx' ∷ txs, log')

  -- One round of `Run` with transactions waiting: the batch as it is completed.
  unfoldable pub run_batch : Bool → Session → Disk → Error × List Transaction × Session × Disk
  run_batch page_memory s d =
      let (e, txs, log) = write_batch s.tx_list (record s.log { bios = [] }) in
      let s' : Session = record s { log = log; tx_list = [] } in
      let (e', s'', d') = if is_ok e then flush page_memory s' d else (e, s', d) in
      let (done, table) = complete_all e' txs s''.log.table in
      (e', done, record s'' { log = record s''.log { table = table } }, d')

  -- `Commit` from the wait on, `fresh` being memory that is not set: the transaction is applied and
  -- left to be erased, and errors of that are not reported.
  unfoldable pub finish_commit :
      Leftover → Bool → Transaction → Session → Disk → Error × Session × Disk
  finish_commit fresh node tx s d =
      if not (is_ok tx.commit_result) then (tx.commit_result, s, d) else elim tx.state [
        | TxState.commited ↦
            let (e, d') = apply_blocks dev fresh memory s.log.journal tx.data_block_list false d in
            if is_ok e then (success, (erase_tx node tx s).1, d') else (success, s, d')
        | _ ↦ (invalid_state, s, d)
      ]

  -- `Unload`, with the thread stopped: the transactions that it cancels.
  unfoldable pub unload : Bool → Session → Disk → Error × List Transaction × Session × Disk
  unload page_memory s d = elim s.log.journal.state [
    | JournalState.running ↦
        let (txs, s') = cancel_all s.tx_list (record s { tx_list = [] }) in
        let (e, s'', d') = flush page_memory (record s' { log = record s'.log { bios = [] } }) d in
        let stopped : Journal = record s''.log.journal { state = JournalState.stopped } in
        (e, txs, record s'' { log = record s''.log { journal = stopped } }, d')
    | JournalState.stopped ↦ (success, [], s, d)
    | _ ↦ (invalid_state, [], s, d)
  ]
