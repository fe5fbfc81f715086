-- ===== src/Kstor/Journal/Replay/Commit.antt =====
-- kstor/journal.cpp: a transaction that `WriteTx` writes, as part of what the log holds.
use cpp_lkm.Prelude.{
  ℕ, ◌+◌, ◌≤◌, ◌<◌, ◌≡◌, refl, sym, ap, subst, ◌∙◌, Bool, true, List, [], ◌∷◌, ◌++◌, append-nil,
  append_assoc, length, length-append, arith, success,
}
use cpp_lkm.Core.Bio.{Device, submit_wait_result}
use cpp_lkm.Core.Bio.Laws.{IsHealthy, write_all, write_all-append, submit_wait_result-healthy}
use cpp_lkm.Core.Disk.{Disk}
use cpp_lkm.Core.RingBuffer.Contents.{contents, run}
use cpp_lkm.Kstor.Journal.{Journal}
use cpp_lkm.Kstor.Journal.Log
use cpp_lkm.Kstor.Journal.Log.{begin_block, commit_block, tx_blocks, write_tx, put_blocks}
use cpp_lkm.Kstor.Journal.Log.Blocks.{block_ios, put_blocks_lem, Put}
use cpp_lkm.Kstor.Journal.Replay.Check.{IsReplayable}
use cpp_lkm.Kstor.Journal.Replay.Held.{Holds}
use cpp_lkm.Kstor.Journal.Replay.Written.{Holds-blocks}
use cpp_lkm.Kstor.Journal.Transaction.{TxState, Transaction}
use cpp_lkm.Kstor.Journal.Replay.Recovery.{
  log_blocks, Commits, AllReplayable, tx-Fits, AllReplayable-moved, Holds-moved,
}

AllReplayable-append :
    (j : Journal) (txs : List Transaction) (tx : Transaction)
    → AllReplayable j txs
    → IsReplayable j tx
    → 0 < length tx.data_block_list
    → AllReplayable j (txs ++ (tx ∷ []))
AllReplayable-append j [] tx h k some_data = (k, some_data, tt)
AllReplayable-append j (t ∷ txs) tx h k some_data =
    (h.0, h.1, AllReplayable-append j txs tx h.2 k some_data)

log_blocks-append :
    (txs : List Transaction) (tx : Transaction)
    → log_blocks txs ++ tx_blocks tx ≡ log_blocks (txs ++ (tx ∷ []))
log_blocks-append [] tx = sym (append-nil (tx_blocks tx))
log_blocks-append (t ∷ txs) tx =
    append_assoc (tx_blocks t) (log_blocks txs) (tx_blocks tx)
    ∙ ap (λ l. tx_blocks t ++ l) (log_blocks-append txs tx)

-- a committing transaction for which there is room is put into the log, and nothing else happens
write_tx_lem :
    (sum : List ℕ → List ℕ) (memory : ℕ → Bool) (tx : Transaction) (log : Log.Log)
    → tx.state ≡ TxState.commiting
    → (put_blocks sum memory (tx_blocks tx) log tx.index_list).0 ≡ success
    → let out = put_blocks sum memory (tx_blocks tx) log tx.index_list in
      write_tx sum memory tx log ≡ (success, record tx { index_list = out.2 }, out.1)
unfolding write_tx
write_tx_lem sum memory tx log committing =
    subst
      (λ t.
        (put_blocks sum memory (tx_blocks t) log t.index_list).0 ≡ success
        → write_tx sum memory t log ≡ (
          success,
          record t { index_list = (put_blocks sum memory (tx_blocks t) log t.index_list).2 },
          (put_blocks sum memory (tx_blocks t) log t.index_list).1,
        ))
      (ap (λ (s : TxState). record tx { state = s }) (sym committing)) (λ put. rw put refl)

module _ {dev : Device} (healthy : IsHealthy dev) (memory : ℕ → Bool)
    (enough : (n : ℕ) → memory n ≡ true) (sum : List ℕ → List ℕ)
    (sum_size : (bytes : List ℕ) → length (sum bytes) ≡ 8) where
  -- a transaction that is written behind the requests that wait already
  pub commit_step :
      (tx : Transaction) (log : Log.Log) (txs : List Transaction) (d : Disk)
      → Commits sum log.journal (write_all log.bios d) txs
      → tx.state ≡ TxState.commiting
      → IsReplayable log.journal tx
      → 0 < length tx.data_block_list
      → log.journal.log_rb.size + length tx.data_block_list + 2 ≤ log.journal.log_rb.capacity
      → let out = put_blocks sum memory (tx_blocks tx) log tx.index_list in
        (write_tx sum memory tx log ≡ (success, record tx { index_list = out.2 }, out.1))
        × Put sum memory (tx_blocks tx) log tx.index_list out
        × Commits sum out.1.journal (write_all out.1.bios d) (txs ++ (tx ∷ []))
  commit_step tx log txs d commits committing ready some_data room =
      let size : length (tx_blocks tx) ≡ length tx.data_block_list + 2 =
        omega (arith, length-append tx.data_block_list (commit_block tx ∷ [])) in
      let put =
        put_blocks_lem sum memory (tx_blocks tx) log tx.index_list commits.ready (omega arith)
          enough in
      let (_, log', _) = put_blocks sum memory (tx_blocks tx) log tx.index_list in
      let requests = block_ios sum memory log.journal log.journal.log_rb.end_index (tx_blocks tx) in
      let held =
        contents log.journal.log_rb
        ++ run log.journal.log_rb.capacity log.journal.log_rb.end_index (length (tx_blocks tx)) in
      (
        write_tx_lem sum memory tx log committing put.succeeded,
        put,
        record {
          ready = put.ready;
          held =
              rw
                (
                  put.held,
                  put.requests,
                  write_all-append log.bios requests d,
                  sym (log_blocks-append txs tx),
                )
                (subst
                  (λ j.
                    Holds sum j (write_all requests (write_all log.bios d)) held
                      (log_blocks txs ++ tx_blocks tx))
                  (sym put.frame)
                  (Holds-moved sum log.journal log'.journal.log_rb log.journal.state _ held _ (
                    Holds-blocks sum sum_size memory log.journal (tx_blocks tx) (log_blocks txs)
                      log.journal.log_rb (write_all log.bios d) commits.ready.ring (omega arith)
                      (tx-Fits log.journal tx ready) commits.held)));
          replayable =
              subst (λ j. AllReplayable j (txs ++ (tx ∷ []))) (sym put.frame)
                (AllReplayable-moved log.journal log'.journal.log_rb log.journal.state
                  (txs ++ (tx ∷ []))
                  (AllReplayable-append log.journal txs tx commits.replayable ready some_data));
        },
      )

  -- With memory, a committing transaction with data that the journal can replay is written to a log
  -- with room for it, behind transactions that the log holds once the requests before are carried
  -- out. When all requests are carried out on a device without failures, the log holds those
  -- transactions, and the new one behind them.
  pub commit_lem :
      (tx : Transaction) (log : Log.Log) (txs : List Transaction) (d : Disk)
      → Commits sum log.journal (write_all log.bios d) txs
      → tx.state ≡ TxState.commiting
      → IsReplayable log.journal tx
      → 0 < length tx.data_block_list
      → log.journal.log_rb.size + length tx.data_block_list + 2 ≤ log.journal.log_rb.capacity
      → let (e, tx', log') = write_tx sum memory tx log in
        let (e', d') = submit_wait_result dev true log'.bios d in
        (e ≡ success)
        × (e' ≡ success)
        × (tx'.state ≡ TxState.commiting)
        × Commits sum log'.journal d' (txs ++ (tx ∷ []))
  commit_lem tx log txs d commits committing ready some_data room =
      let (written, _, commits') =
        commit_step tx log txs d commits committing ready some_data room in
      let (_, log', _) = put_blocks sum memory (tx_blocks tx) log tx.index_list in
      rw (written, submit_wait_result-healthy healthy true log'.bios d)
        (refl, refl, committing, commits')
