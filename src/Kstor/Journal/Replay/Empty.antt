-- ===== src/Kstor/Journal/Replay/Empty.antt =====
-- kstor/journal.cpp: `Replay()` and the rest of `Load` on a log that begins with a transaction
-- without data.
use cpp_lkm.Kstor.Journal.Replay.{Leftover}
use cpp_lkm.Prelude.{
  ℕ, suc, ◌+◌, ◌≡◌, refl, ap, subst, ◌∙◌, Bool, true, List, [], ◌∷◌, ◌++◌, length, All, arith,
  success, data_corrupt,
}
use cpp_lkm.Core.Bio.{Device, page_size}
use cpp_lkm.Core.Bio.Laws.{IsHealthy}
use cpp_lkm.Core.Disk.{Disk}
use cpp_lkm.Core.RingBuffer.{RingBuffer}
use cpp_lkm.Core.RingBuffer.Contents.{contents, length-run}
use cpp_lkm.Core.RingBuffer.Laws.{popped, pop_front_lem}
use cpp_lkm.Kstor.Journal.{Journal, JournalState}
use cpp_lkm.Kstor.Journal.Header.{start_journal}
use cpp_lkm.Kstor.Journal.Log.{begin_block, commit_block, tx_blocks}
use cpp_lkm.Kstor.Journal.Log.Blocks.{IsReady}
use cpp_lkm.Kstor.Journal.Positions.{IsPlaced}
use cpp_lkm.Kstor.Journal.Replay.{take_block, replay_loop, replay}
use cpp_lkm.Kstor.Journal.Replay.Held.{Holds}
use cpp_lkm.Kstor.Journal.Replay.Loop.{at, Stored, read_lem, uncons, take_one, take_begin}
use cpp_lkm.Kstor.Journal.Replay.Recovery.{Holds-length, Holds-moved}
use cpp_lkm.Kstor.Journal.Transaction.{Transaction}
use cpp_lkm.Kstor.Layout.TxBlock.{TxBlock, Fits}

module _ {dev : Device} (healthy : IsHealthy dev) (fresh : Leftover)
    (fresh_size : length fresh.page ≡ page_size) (memory : ℕ → Bool)
    (enough : (n : ℕ) → memory n ≡ true) (sum : List ℕ → List ℕ)
    (sum_size : (bytes : List ℕ) → length (sum bytes) ≡ 8) where
  -- a block that is refused ends the loop
  refused :
      (j : Journal) (placed : IsPlaced j) (fuel : ℕ) (r : RingBuffer) (list : List TxBlock)
      (block : TxBlock) (blocks : List TxBlock) (d : Disk)
      → Stored healthy fresh fresh_size memory enough sum sum_size j placed d r (block ∷ blocks)
      → take_block dev fresh memory (at j (popped r)) block list d ≡ (data_corrupt, list, d)
      → replay_loop dev fresh memory sum (suc fuel) (at j r) list d
        ≡ (data_corrupt, at j (popped r), d)
  unfolding replay_loop
  refused j placed fuel r list block blocks d h taken =
      let (some_held, held, rest) =
        uncons healthy fresh fresh_size memory enough sum sum_size j placed d r block blocks h in
      let (pop, split, valid) = pop_front_lem r h.0.0 some_held in
      let got =
        read_lem healthy fresh fresh_size memory enough sum sum_size j placed (popped r)
          r.start_index block d (valid, h.0.1) h.0.0.start_in held h.2.0 in
      rw (pop, replay_loop) (rw (got, replay_loop) (rw (taken, replay_loop)))

  take_commit_empty :
      (j : Journal) (tx : Transaction) (d : Disk)
      → take_block dev fresh memory j (commit_block tx) (begin_block tx ∷ []) d
        ≡ (data_corrupt, begin_block tx ∷ [], d)
  unfolding take_block
  take_commit_empty j tx d = refl

  replay_empty :
      (j : Journal) (tx : Transaction) (more : List TxBlock) (d : Disk)
      → IsReady j
      → Holds sum j d (contents j.log_rb) (begin_block tx ∷ commit_block tx ∷ more)
      → All Fits (begin_block tx ∷ commit_block tx ∷ more)
      → (j' : Journal) × (replay dev fresh memory sum j d ≡ (data_corrupt, j', d))
  unfolding replay
  replay_empty j tx more d ready held fits =
      let j1 : Journal = record j { state = JournalState.replaying } in
      let placed : IsPlaced j1 = record {
        volume_small = ready.placed.volume_small;
        start_in = ready.placed.start_in;
        size_in = ready.placed.size_in;
        end_in = ready.placed.end_in;
        log_size = ready.placed.log_size;
      } in
      let moved = Holds-moved sum j j.log_rb JournalState.replaying d _ _ held in
      let (begun, rest) =
        take_one healthy fresh fresh_size memory enough sum sum_size j1 placed
          (suc (length more + 1)) j.log_rb [] (begin_block tx ∷ []) (begin_block tx)
          (commit_block tx ∷ more) d d ((ready.ring, refl), moved, fits)
          (take_begin healthy fresh fresh_size memory enough sum sum_size j1 placed
            (popped j.log_rb) tx d) in
      let ended =
        refused j1 placed (length more + 1) (popped j.log_rb) (begin_block tx ∷ [])
          (commit_block tx) more d rest
          (take_commit_empty (at j1 (popped (popped j.log_rb))) tx d) in
      let fuel : suc j.log_rb.size ≡ suc (suc (length more + 1)) = omega (
        arith,
        length-run j.log_rb.capacity j.log_rb.start_index j.log_rb.size,
        Holds-length sum j d (contents j.log_rb) (begin_block tx ∷ commit_block tx ∷ more) held,
      ) in
      (at j1 (popped (popped j.log_rb)), rw fuel (begun ∙ ended))

  -- A log whose first transaction was committed without data: its begin block is followed by its
  -- commit block. On a device without failures and with memory the replay stops there as if the log
  -- were corrupt, and `Load` goes on with success: whatever the log holds behind it is not applied.
  pub start_journal-empty :
      (j : Journal) (tx : Transaction) (more : List TxBlock) (d : Disk)
      → IsReady j
      → tx.data_block_list ≡ []
      → Holds sum j d (contents j.log_rb) (tx_blocks tx ++ more)
      → All Fits (tx_blocks tx ++ more)
      → (j' : Journal) × (replay dev fresh memory sum j d ≡ (data_corrupt, j', d))
        × (start_journal dev sum fresh memory true j d
            ≡ (success, record j' { state = JournalState.running }, d))
  unfolding start_journal
  start_journal-empty j tx more d ready none held fits =
      let blocks : tx_blocks tx ++ more ≡ begin_block tx ∷ commit_block tx ∷ more =
        ap (λ l. begin_block tx ∷ ((l ++ (commit_block tx ∷ [])) ++ more)) none in
      let (j', replayed) =
        replay_empty j tx more d ready
          (subst (λ l. Holds sum j d (contents j.log_rb) l) blocks held)
          (subst (λ l. All Fits l) blocks fits) in
      (j', replayed, rw replayed refl)
