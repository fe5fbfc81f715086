-- ===== src/Kstor/Journal/Session/Batch.antt =====
-- kstor/journal.cpp: a batch of transactions that `Run` writes to the log, flushes and completes.
use cpp_lkm.Prelude.{
  ℕ, suc, ◌+◌, ◌*◌, ◌%◌, ◌≤◌, ◌<◌, ◌≡◌, refl, sym, ap, subst, ◌∙◌, Bool, true, List, [], ◌∷◌, ◌++◌,
  append-nil, append_assoc, length, length-append, All, arith, ◌==◌, mul64, success, ok,
}
use cpp_lkm.Core.Bio.{Io, Device, add_page}
use cpp_lkm.Core.Bio.Laws.{IsHealthy, write_all, write_all-append, submit_wait_result-healthy}
use cpp_lkm.Core.Disk.{Disk, write_bytes}
use cpp_lkm.Core.RingBuffer.{RingBuffer}
use cpp_lkm.Kstor.Journal.{Journal, block_size}
use cpp_lkm.Kstor.Journal.Header.{flush_header}
use cpp_lkm.Kstor.Journal.Log.{
  Log, TxTable, tx_blocks, commit_block, on_commit_complete, put_blocks,
}
use cpp_lkm.Kstor.Journal.Positions.{IsPlaced}
use cpp_lkm.Kstor.Journal.Replay.Check.{IsReplayable}
use cpp_lkm.Kstor.Journal.Replay.Commit.{commit_step}
use cpp_lkm.Kstor.Journal.Replay.Recovery.{Commits, log_blocks, IsReplayable-tx}
use cpp_lkm.Kstor.Journal.Session.{
  Session, compact_log, complete_all, flush, write_batch, run_batch,
}
use cpp_lkm.Kstor.Journal.Transaction.{TxState, Transaction}
use cpp_lkm.Kstor.Layout.Header.{header_page}

-- transactions with data that wait for their commit, and that the journal can replay
abbrev pub AllPending : Journal → List Transaction → Type 0
AllPending j [] = Unit {0}
AllPending j (tx ∷ txs) =
    (tx.state ≡ TxState.commiting)
    × IsReplayable j tx
    × (0 < length tx.data_block_list)
    × AllPending j txs

pending-ring :
    (j : Journal) (r : RingBuffer) (txs : List Transaction)
    → AllPending j txs
    → AllPending (record j { log_rb = r }) txs
pending-ring j r [] h = tt
pending-ring j r (tx ∷ txs) h =
    (h.0, IsReplayable-tx j r j.state tx h.1, h.2, pending-ring j r txs h.3)

-- a batch that succeeded is committed, as a whole
pub complete_all-success :
    (txs : List Transaction) (table : TxTable)
    → All (λ tx. tx.state ≡ TxState.commited) (complete_all success txs table).0
      × (length (complete_all success txs table).0 ≡ length txs)
unfolding complete_all on_commit_complete
complete_all-success [] table = (tt, refl)
complete_all-success (tx ∷ txs) table =
    let (all, count) = complete_all-success txs table in ((refl, all), ap suc count)

module _ {dev : Device} (healthy : IsHealthy dev) (memory : ℕ → Bool)
    (enough : (n : ℕ) → memory n ≡ true) (sum : List ℕ → List ℕ)
    (sum_size : (bytes : List ℕ) → length (sum bytes) ≡ 8) where
  -- what `write_batch` has done
  pub record Batch (log : Log) (d : Disk) (txs pending : List Transaction) : Type 0 where
    pub done : List Transaction
    pub after : Log
    pub written : write_batch dev sum memory pending log ≡ (success, done, after)
    pub count : length done ≡ length pending
    pub frame : after.journal ≡ record log.journal { log_rb = after.journal.log_rb }
    pub size : after.journal.log_rb.size ≡ log.journal.log_rb.size + length (log_blocks pending)
    pub capacity : after.journal.log_rb.capacity ≡ log.journal.log_rb.capacity
    pub commits : Commits sum after.journal (write_all after.bios d) (txs ++ pending)

  pub write_batch_lem :
      (pending : List Transaction) (log : Log) (txs : List Transaction) (d : Disk)
      → Commits sum log.journal (write_all log.bios d) txs
      → AllPending log.journal pending
      → log.journal.log_rb.size + length (log_blocks pending) ≤ log.journal.log_rb.capacity
      → Batch log d txs pending
  unfolding write_batch
  write_batch_lem [] log txs d commits all room = record {
    done = [];
    after = log;
    written = refl;
    count = refl;
    frame = refl;
    size = omega arith;
    capacity = refl;
    commits = rw (append-nil txs) commits;
  }
  write_batch_lem (tx ∷ pending) log txs d commits all room =
      let blocks : length (log_blocks (tx ∷ pending))
          ≡ length tx.data_block_list + 2 + length (log_blocks pending) =
        omega (
          arith,
          length-append (tx_blocks tx) (log_blocks pending),
          length-append tx.data_block_list (commit_block tx ∷ []),
        ) in
      let (wrote, put, commits') =
        commit_step healthy memory enough sum sum_size tx log txs d commits all.0 all.1 all.2
          (omega arith) in
      let (_, log', list) = put_blocks sum memory (tx_blocks tx) log tx.index_list in
      let size : log'.journal.log_rb.size ≡ log.journal.log_rb.size + length (tx_blocks tx) =
        put.size in
      let ih =
        write_batch_lem pending log' (txs ++ (tx ∷ [])) d commits'
          (subst (λ j. AllPending j pending) (sym put.frame)
            (pending-ring log.journal log'.journal.log_rb pending all.3))
          (omega (
            arith,
            put.size,
            put.capacity,
            blocks,
            length-append tx.data_block_list (commit_block tx ∷ []),
          )) in
      record {
        done = record tx { index_list = list } ∷ ih.done;
        after = ih.after;
        written = rw (wrote, ih.written) refl;
        count = ap suc ih.count;
        frame =
            ih.frame
            ∙ ap (λ (j : Journal). record j { log_rb = ih.after.journal.log_rb }) put.frame;
        size = omega (
          arith,
          ih.size,
          put.size,
          blocks,
          length-append tx.data_block_list (commit_block tx ∷ []),
        );
        capacity = ih.capacity ∙ put.capacity;
        commits =
            subst (λ l. Commits sum ih.after.journal (write_all ih.after.bios d) l)
              (append_assoc txs (tx ∷ []) pending) ih.commits;
      }

  -- the request for the header
  abbrev pub header_io : Journal → Io
  header_io j = record { position = j.start * block_size; bytes = header_page sum (flush_header j) }

  header_request :
      (j : Journal) (bios : List Io)
      → IsPlaced j
      → add_page true (header_page sum (flush_header j)) (mul64 j.start block_size) 0 bios
        ≡ ok (bios ++ (header_io j ∷ []))
  unfolding add_page
  header_request j bios placed =
      let exact : mul64 j.start block_size ≡ j.start * block_size = omega (arith, placed.end_in) in
      let sector : (j.start * block_size % 512 == 0) ≡ true = ground arith in
      rw (exact, sector) refl

  pub flush_lem :
      (s : Session) (d : Disk)
      → IsPlaced s.log.journal
      → flush dev sum memory true s d ≡ (
        success,
        compact_log (record s {
          log = record s.log { bios = s.log.bios ++ (header_io s.log.journal ∷ []) };
        }),
        write_bytes
            (write_all s.log.bios d)
            (s.log.journal.start * block_size)
            (header_page sum (flush_header s.log.journal)),
      )
  unfolding flush write_all
  flush_lem s d placed =
      rw (header_request s.log.journal s.log.bios placed, flush)
        (rw
          (
            submit_wait_result-healthy healthy true (s.log.bios ++ (header_io s.log.journal ∷ []))
                d,
            write_all-append s.log.bios (header_io s.log.journal ∷ []) d,
          )
          refl)

  -- the session as the batch leaves it, up to the table
  pub run_batch_lem :
      (s : Session) (txs : List Transaction) (d : Disk)
      → (batch : Batch (record s.log { bios = [] }) d txs s.tx_list)
      → let s1 : Session = record s { log = batch.after; tx_list = [] } in
        let s2 = compact_log (record s1 {
          log = record batch.after {
            bios = batch.after.bios ++ (header_io batch.after.journal ∷ []);
          };
        }) in
        let (done, table) = complete_all success batch.done s2.log.table in
        run_batch dev sum memory true s d ≡ (
          success,
          done,
          record s2 { log = record s2.log { table = table } },
          write_bytes
              (write_all batch.after.bios d)
              (batch.after.journal.start * block_size)
              (header_page sum (flush_header batch.after.journal)),
        )
  unfolding run_batch
  run_batch_lem s txs d batch = rw (batch.written) (
      rw (flush_lem (record s { log = batch.after; tx_list = [] }) d batch.commits.ready.placed)
        refl)
