-- ===== src/Kstor/Journal/Replay/Recovery.antt =====
-- kstor/journal.cpp: `Replay()` of a log that holds committed transactions.
use cpp_lkm.Kstor.Journal.Replay.{Leftover}
use cpp_lkm.Prelude.{
  ℕ, suc, ◌+◌, ◌<◌, ◌≡◌, refl, sym, ap, ◌∙◌, Bool, true, List, [], ◌∷◌, ◌++◌, length, length-append,
  All, All-append, arith, success,
}
use cpp_lkm.Core.Bio.{Device, page_size}
use cpp_lkm.Core.Bio.Laws.{IsHealthy, write_all}
use cpp_lkm.Core.Disk.{Disk}
use cpp_lkm.Core.RingBuffer.{RingBuffer, pop_front}
use cpp_lkm.Core.RingBuffer.Contents.{IsValid, contents, length-run}
use cpp_lkm.Kstor.Journal.{Journal, JournalState, check_position}
use cpp_lkm.Kstor.Journal.Log.{commit_block, tx_blocks}
use cpp_lkm.Kstor.Journal.Log.Blocks.{IsReady}
use cpp_lkm.Kstor.Journal.Positions.{IsPlaced}
use cpp_lkm.Kstor.Journal.Replay.{replay_loop, replay}
use cpp_lkm.Kstor.Journal.Replay.Apply.{data_ios, AcceptedBody, AllAccepted}
use cpp_lkm.Kstor.Journal.Replay.Check.{IsReplayable}
use cpp_lkm.Kstor.Journal.Replay.Held.{Holds}
use cpp_lkm.Kstor.Journal.Replay.Loop.{tx_loop, at}
use cpp_lkm.Kstor.Journal.Transaction.{Transaction}
use cpp_lkm.Kstor.Layout.TxBlock.{Body, TxBlock, Fits, tx_begin, tx_data, tx_commit}

-- the blocks of the transactions of a log, in order
abbrev pub log_blocks : List Transaction → List TxBlock
log_blocks [] = []
log_blocks (tx ∷ txs) = tx_blocks tx ++ log_blocks txs

-- the device after the transactions were applied in order
abbrev pub apply_all : List Transaction → Disk → Disk
apply_all [] d = d
apply_all (tx ∷ txs) d = apply_all txs (write_all (data_ios tx.data_block_list) d)

-- transactions with data, each of which the journal can replay
abbrev pub AllReplayable : Journal → List Transaction → Type 0
AllReplayable j [] = Unit {0}
AllReplayable j (tx ∷ txs) =
    IsReplayable j tx × (0 < length tx.data_block_list) × AllReplayable j txs

-- the state of a journal and its device that hold some transactions
pub record Commits (sum : List ℕ → List ℕ) (j : Journal) (d : Disk) (txs : List Transaction)
    : Type 0 where
  pub ready : IsReady j
  pub held : Holds sum j d (contents j.log_rb) (log_blocks txs)
  pub replayable : AllReplayable j txs

pub tx-Fits : (j : Journal) (tx : Transaction) → IsReplayable j tx → All Fits (tx_blocks tx)
tx-Fits j tx h = (
  record { id_size = h.id_size; body_fits = tt },
  All-append Fits tx.data_block_list (commit_block tx ∷ []) h.fits
      (record { id_size = h.id_size; body_fits = (omega arith, omega arith, omega arith) }, tt),
)

log-Fits : (j : Journal) (txs : List Transaction) → AllReplayable j txs → All Fits (log_blocks txs)
log-Fits j [] h = tt
log-Fits j (tx ∷ txs) h =
    All-append Fits (tx_blocks tx) (log_blocks txs) (tx-Fits j tx h.0) (log-Fits j txs h.2)

-- as many indices are held as there are blocks
pub Holds-length :
    (sum : List ℕ → List ℕ) (j : Journal) (d : Disk) (indices : List ℕ) (blocks : List TxBlock)
    → Holds sum j d indices blocks
    → length indices ≡ length blocks
Holds-length sum j d [] [] h = refl
Holds-length sum j d [] (b ∷ blocks) h = absurd h
Holds-length sum j d (i ∷ indices) [] h = absurd h
Holds-length sum j d (i ∷ indices) (b ∷ blocks) h = ap suc (Holds-length sum j d indices blocks h.1)

-- the journal's place is all that the positions of a transaction depend on
AcceptedBody-moved :
    (j : Journal) (r : RingBuffer) (s : JournalState) (body : Body)
    → AcceptedBody j body
    → AcceptedBody (record j { log_rb = r; state = s }) body
unfolding check_position
AcceptedBody-moved j r s tx_begin h = h
AcceptedBody-moved j r s (tx_data index size position bytes) h = h
AcceptedBody-moved j r s (tx_commit state block_count time) h = h

AllAccepted-moved :
    (j : Journal) (r : RingBuffer) (s : JournalState) (list : List TxBlock)
    → AllAccepted j list
    → AllAccepted (record j { log_rb = r; state = s }) list
AllAccepted-moved j r s [] h = tt
AllAccepted-moved j r s (block ∷ list) h =
    (AcceptedBody-moved j r s block.body h.0, AllAccepted-moved j r s list h.1)

pub IsReplayable-tx :
    (j : Journal) (r : RingBuffer) (s : JournalState) (tx : Transaction)
    → IsReplayable j tx
    → IsReplayable (record j { log_rb = r; state = s }) tx
IsReplayable-tx j r s tx h = record {
  id_size = h.id_size;
  count = h.count;
  accepted = AllAccepted-moved j r s tx.data_block_list h.accepted;
  numbered = h.numbered;
  fits = h.fits;
}

pub AllReplayable-moved :
    (j : Journal) (r : RingBuffer) (s : JournalState) (txs : List Transaction)
    → AllReplayable j txs
    → AllReplayable (record j { log_rb = r; state = s }) txs
AllReplayable-moved j r s [] h = tt
AllReplayable-moved j r s (tx ∷ txs) h =
    (IsReplayable-tx j r s tx h.0, h.1, AllReplayable-moved j r s txs h.2)

-- where the log lies is all that its blocks depend on
pub Holds-moved :
    (sum : List ℕ → List ℕ) (j : Journal) (r : RingBuffer) (s : JournalState) (d : Disk)
    (indices : List ℕ) (blocks : List TxBlock)
    → Holds sum j d indices blocks
    → Holds sum (record j { log_rb = r; state = s }) d indices blocks
Holds-moved sum j r s d [] [] h = h
Holds-moved sum j r s d [] (b ∷ blocks) h = h
Holds-moved sum j r s d (i ∷ indices) [] h = h
Holds-moved sum j r s d (i ∷ indices) (b ∷ blocks) h =
    (h.0, Holds-moved sum j r s d indices blocks h.1)

-- what a journal holds does not depend on its state
pub Commits-state :
    (sum : List ℕ → List ℕ) (j : Journal) (s : JournalState) (d : Disk) (txs : List Transaction)
    → Commits sum j d txs
    → Commits sum (record j { state = s }) d txs
Commits-state sum j s d txs commits = record {
  ready = record {
    ring = commits.ready.ring;
    placed = record {
      volume_small = commits.ready.placed.volume_small;
      start_in = commits.ready.placed.start_in;
      size_in = commits.ready.placed.size_in;
      end_in = commits.ready.placed.end_in;
      log_size = commits.ready.placed.log_size;
    };
  };
  held = Holds-moved sum j j.log_rb s d (contents j.log_rb) (log_blocks txs) commits.held;
  replayable = AllReplayable-moved j j.log_rb s txs commits.replayable;
}

module _ {dev : Device} (healthy : IsHealthy dev) (fresh : Leftover)
    (fresh_size : length fresh.page ≡ page_size) (memory : ℕ → Bool)
    (enough : (n : ℕ) → memory n ≡ true) (sum : List ℕ → List ℕ)
    (sum_size : (bytes : List ℕ) → length (sum bytes) ≡ 8) where
  empty_loop :
      (fuel : ℕ) (j : Journal) (d : Disk)
      → j.log_rb.size ≡ 0
      → replay_loop dev fresh memory sum (suc fuel) j [] d ≡ (success, j, d)
  unfolding replay_loop pop_front
  empty_loop fuel j d e = rw e

  txs_loop :
      (j : Journal) (placed : IsPlaced j) (txs : List Transaction) (r : RingBuffer) (d : Disk)
      → IsValid r
      → r.capacity ≡ j.log_rb.capacity
      → AllReplayable j txs
      → Holds sum j d (contents r) (log_blocks txs)
      → (r' : RingBuffer) × (replay_loop dev fresh memory sum
            (length (log_blocks txs) + 1)
            (at j r)
            []
            d
          ≡ (success, at j r', apply_all txs d))
        × (r'.size ≡ 0)
  txs_loop j placed [] r d valid e h held =
      let none_held : r.size ≡ 0 =
        sym (length-run r.capacity r.start_index r.size)
        ∙ Holds-length sum j d (contents r) [] held in
      (r, rw (one, empty_loop 0 (at j r) d none_held), none_held)
    where
      one : 0 + 1 ≡ suc 0
      one = refl
  txs_loop j placed (tx ∷ txs) r d valid e h held =
      let (r1, step, (ring, held1, fits1)) =
        tx_loop healthy fresh fresh_size memory enough sum sum_size j placed tx
          (length (log_blocks txs) + 1) r (log_blocks txs) d h.0 h.1
          ((valid, e), held, log-Fits j (tx ∷ txs) h) in
      let (r2, run_on, done) =
        txs_loop j placed txs r1 (write_all (data_ios tx.data_block_list) d) ring.0 ring.1 h.2
          held1 in
      let count : length (tx_blocks tx ++ log_blocks txs) + 1
          ≡ length (tx_blocks tx) + (length (log_blocks txs) + 1) =
        omega (arith, length-append (tx_blocks tx) (log_blocks txs)) in
      (r2, rw count (step ∙ run_on), done)

  -- On a device without failures and with memory, a replay of a log that holds committed
  -- transactions with data succeeds: it applies the data of every one, in the order of their
  -- commits, leaves the log empty, and keeps the sizes of the journal and of its volume.
  pub replay_lem :
      (j : Journal) (txs : List Transaction) (d : Disk)
      → Commits sum j d txs
      → (j' : Journal) × (replay dev fresh memory sum j d ≡ (success, j', apply_all txs d))
        × (j'.log_rb.size ≡ 0)
        × (j'.size ≡ j.size)
        × (j'.volume_size ≡ j.volume_size)
  unfolding replay
  replay_lem j txs d commits =
      let r = j.log_rb in
      let s = JournalState.replaying in
      let moved = Commits-state sum j s d txs commits in
      let (r', run_on, done) =
        txs_loop (record j { state = s }) moved.ready.placed txs r d moved.ready.ring refl
          moved.replayable moved.held in
      let fuel : suc r.size ≡ length (log_blocks txs) + 1 = omega (
        arith,
        length-run r.capacity r.start_index r.size,
        Holds-length sum j d (contents r) (log_blocks txs) commits.held,
      ) in
      (at (record j { state = s }) r', rw fuel run_on, done, refl, refl)
