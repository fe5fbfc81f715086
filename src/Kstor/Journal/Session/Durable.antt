-- ===== src/Kstor/Journal/Session/Durable.antt =====
-- kstor/journal.cpp: a batch that `Run` commits, and a journal that is loaded from the device later.
use cpp_lkm.Kstor.Journal.Replay.{Leftover}
use cpp_lkm.Prelude.{
  ℕ, ◌+◌, ◌*◌, ◌<◌, ◌≤◌, ◌≡◌, refl, sym, ap, subst, ◌∙◌, inr, Bool, true, List, [], ◌∷◌, ◌++◌,
  length, All, arith, success,
}
use cpp_lkm.Core.Bio.{Device, page_size}
use cpp_lkm.Core.Bio.Laws.{IsHealthy, write_all}
use cpp_lkm.Core.Disk.{Disk, read_bytes, write_bytes, read-write, read-write_apart}
use cpp_lkm.Core.RingBuffer.Contents.{contents}
use cpp_lkm.Kstor.Journal.{Journal, JournalState, block_size}
use cpp_lkm.Kstor.Journal.Header.{flush_header, load}
use cpp_lkm.Kstor.Journal.Header.Reload.{load_lem}
use cpp_lkm.Kstor.Journal.Replay.Held.{Holds}
use cpp_lkm.Kstor.Journal.Replay.Recovery.{Commits, apply_all, log_blocks}
use cpp_lkm.Kstor.Journal.Session.{Session, run_batch}
use cpp_lkm.Kstor.Journal.Transaction.{TxState, Transaction}
use cpp_lkm.Kstor.Layout.Header.{header_page, length-header_page}
use cpp_lkm.Kstor.Layout.TxBlock.{TxBlock}
use cpp_lkm.Kstor.Journal.Session.Batch.{
  AllPending, complete_all-success, write_batch_lem, run_batch_lem,
}

-- what is written before the log leaves the log alone
pub Holds-before :
    (sum : List ℕ → List ℕ) (j : Journal) (d : Disk) (p : ℕ) (page : List ℕ) (indices : List ℕ)
    (blocks : List TxBlock)
    → p + length page ≤ (j.start + 1) * block_size
    → Holds sum j d indices blocks
    → Holds sum j (write_bytes d p page) indices blocks
Holds-before sum j d p page [] [] before h = h
Holds-before sum j d p page [] (b ∷ blocks) before h = h
Holds-before sum j d p page (i ∷ indices) [] before h = h
Holds-before sum j d p page (i ∷ indices) (b ∷ blocks) before h = (
  read-write_apart d p page ((j.start + 1 + i) * block_size) page_size (inr (omega arith)) ∙ h.0,
  Holds-before sum j d p page indices blocks before h.1,
)

pub Commits-before :
    (sum : List ℕ → List ℕ) (j : Journal) (d : Disk) (p : ℕ) (page : List ℕ)
    (txs : List Transaction)
    → p + length page ≤ (j.start + 1) * block_size
    → Commits sum j d txs
    → Commits sum j (write_bytes d p page) txs
Commits-before sum j d p page txs before commits = record {
  ready = commits.ready;
  held = Holds-before sum j d p page (contents j.log_rb) (log_blocks txs) before commits.held;
  replayable = commits.replayable;
}

module _ {dev : Device} (healthy : IsHealthy dev) (memory : ℕ → Bool)
    (enough : (n : ℕ) → memory n ≡ true) (sum : List ℕ → List ℕ)
    (sum_size : (bytes : List ℕ) → length (sum bytes) ≡ 8) where
  -- the header is on the device, and the log still holds the transactions
  pub header_written :
      (j : Journal) (d : Disk) (txs : List Transaction)
      → Commits sum j d txs
      → let d' = write_bytes d (j.start * block_size) (header_page sum (flush_header j)) in
        Commits sum j d' txs
        × (read_bytes d' (j.start * block_size) page_size ≡ header_page sum (flush_header j))
  header_written j d txs commits =
      let page = header_page sum (flush_header j) in
      let long = length-header_page sum sum_size (flush_header j) in
      (
        Commits-before sum j d (j.start * block_size) page txs (omega arith) commits,
        subst
            (λ n.
              read_bytes (write_bytes d (j.start * block_size) page) (j.start * block_size) n
              ≡ page)
            long (read-write d (j.start * block_size) page),
      )

  -- On a device without failures and with memory: a batch of committing transactions with data that
  -- the journal can replay, for which the log has room and a slot to spare, is committed as a
  -- whole; and a new journal of the same volume that is loaded from the device as the batch left it
  -- succeeds and runs, has an empty log, and has applied the transactions that the log held before
  -- and then those of the batch, in their order.
  pub durable_lem :
      (fresh : Leftover) (s : Session) (j0 : Journal) (txs : List Transaction) (d : Disk)
      → length fresh.page ≡ page_size
      → Commits sum s.log.journal d txs
      → AllPending s.log.journal s.tx_list
      → s.log.journal.log_rb.size + length (log_blocks s.tx_list) < s.log.journal.log_rb.capacity
      → j0.state ≡ JournalState.new
      → j0.volume_size ≡ s.log.journal.volume_size
      → let (e, done, s', d') = run_batch dev sum memory true s d in
        (e ≡ success)
        × All (λ tx. tx.state ≡ TxState.commited) done
        × (length done ≡ length s.tx_list)
        × (j' : Journal) × (load dev sum fresh memory true true s.log.journal.start j0 d'
            ≡ (success, j', apply_all (txs ++ s.tx_list) d'))
        × (j'.state ≡ JournalState.running)
        × (j'.log_rb.size ≡ 0)
  unfolding write_all
  durable_lem fresh s j0 txs d fresh_size commits all room new volume =
      let batch =
        write_batch_lem healthy memory enough sum sum_size s.tx_list (record s.log { bios = [] })
          txs d commits all (omega arith) in
      let j = batch.after.journal in
      let (commits', written) =
        header_written j (write_all batch.after.bios d) (txs ++ s.tx_list) batch.commits in
      let same_start : j.start ≡ s.log.journal.start = ap (λ (k : Journal). k.start) batch.frame in
      let same_volume : j.volume_size ≡ s.log.journal.volume_size =
        ap (λ (k : Journal). k.volume_size) batch.frame in
      let d' =
        write_bytes (write_all batch.after.bios d) (j.start * block_size)
          (header_page sum (flush_header j)) in
      let (j', loaded, runs, empty, _, _) =
        load_lem healthy fresh fresh_size memory enough sum sum_size j j0 (txs ++ s.tx_list) d'
          commits' (omega (arith, batch.size, batch.capacity)) written new
          (volume ∙ sym same_volume) in
      rw (run_batch_lem healthy memory enough sum sum_size s txs d batch) (
        refl,
        (complete_all-success batch.done _).0,
        (complete_all-success batch.done _).1 ∙ batch.count,
        j',
        subst
            (λ k.
              load dev sum fresh memory true true k j0 d'
              ≡ (success, j', apply_all (txs ++ s.tx_list) d'))
            same_start loaded,
        runs,
        empty,
      )
