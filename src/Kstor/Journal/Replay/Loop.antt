-- ===== src/Kstor/Journal/Replay/Loop.antt =====
-- kstor/journal.cpp: the loop of `Replay()` over a log that holds whole transactions.
use native.Mathlib.Decide.{ℕ_discrete}
use cpp_lkm.Kstor.Journal.Replay.{Leftover}
use cpp_lkm.Prelude.{
  ℕ, suc, ◌+◌, ◌%◌, ◌<◌, ◌≡◌, refl, ap, subst, ◌∙◌, Bool, true, false, List, [], ◌∷◌, ◌++◌,
  append-nil, append_assoc, length, length-append, All, arith, success, ok, Error, ltb, ◌==◌,
}
use cpp_lkm.Core.Bio.{Device, page_size}
use cpp_lkm.Core.Bio.Laws.{IsHealthy, write_all}
use cpp_lkm.Core.Disk.{Disk, read_bytes}
use cpp_lkm.Core.RingBuffer.{RingBuffer}
use cpp_lkm.Core.RingBuffer.Contents.{IsValid, contents, run, run-All-lt}
use cpp_lkm.Core.RingBuffer.Laws.{popped, pop_front_lem}
use cpp_lkm.Kstor.Journal.{Journal, check_position}
use cpp_lkm.Kstor.Journal.Replay.Held.{Holds, Holds-write_all, data-IsOutside}
use cpp_lkm.Kstor.Journal.Log.{begin_block, commit_block, tx_blocks}
use cpp_lkm.Kstor.Journal.Positions.{IsPlaced, log_position, index_to_position_lem}
use cpp_lkm.Kstor.Journal.Replay.{replay_tx, take_block, read_tx_block, replay_loop}
use cpp_lkm.Kstor.Journal.Replay.Apply.{AcceptedBody, AllAccepted, data_ios, apply_blocks_lem}
use cpp_lkm.Kstor.Journal.Replay.Check.{IsReplayable, NumberedBody, Numbered, check_tx_lem}
use cpp_lkm.Kstor.Journal.Transaction.{Transaction}
use cpp_lkm.Kstor.Layout.Codec.{read-write_tx_block}
use cpp_lkm.Kstor.Layout.TxBlock.{
  Body, tx_begin, tx_data, tx_commit, TxBlock, Fits, write_tx_block_prepare,
}

-- the journal with another ring
abbrev pub at : Journal → RingBuffer → Journal
at j r = record j { log_rb = r }

AcceptedBody-at :
    (j : Journal) (r : RingBuffer) (body : Body) → AcceptedBody j body → AcceptedBody (at j r) body
unfolding check_position
AcceptedBody-at j r tx_begin h = h
AcceptedBody-at j r (tx_data index size position bytes) h = h
AcceptedBody-at j r (tx_commit state block_count time) h = h

accepted_at :
    (j : Journal) (r : RingBuffer) (list : List TxBlock)
    → AllAccepted j list
    → AllAccepted (at j r) list
accepted_at j r [] h = tt
accepted_at j r (block ∷ list) h = (AcceptedBody-at j r block.body h.0, accepted_at j r list h.1)

IsReplayable-at :
    (j : Journal) (r : RingBuffer) (tx : Transaction) → IsReplayable j tx → IsReplayable (at j r) tx
IsReplayable-at j r tx h = record {
  id_size = h.id_size;
  count = h.count;
  accepted = accepted_at j r tx.data_block_list h.accepted;
  numbered = h.numbered;
  fits = h.fits;
}

module _ {dev : Device} (healthy : IsHealthy dev) (fresh : Leftover)
    (fresh_size : length fresh.page ≡ page_size) (memory : ℕ → Bool)
    (enough : (n : ℕ) → memory n ≡ true) (sum : List ℕ → List ℕ)
    (sum_size : (bytes : List ℕ) → length (sum bytes) ≡ 8) (j : Journal) (placed : IsPlaced j) where
  -- a ring of the journal's capacity
  abbrev pub Ring : RingBuffer → Type 0
  Ring r = IsValid r × (r.capacity ≡ j.log_rb.capacity)

  abbrev pub loop : ℕ → RingBuffer → List TxBlock → Disk → Error × Journal × Disk
  loop fuel r list d = replay_loop dev fresh memory sum fuel (at j r) list d

  pub read_lem :
      (r : RingBuffer) (index : ℕ) (block : TxBlock) (d : Disk)
      → Ring r
      → index < r.capacity
      → read_bytes d (log_position j index) page_size ≡ write_tx_block_prepare sum block
      → Fits block
      → read_tx_block dev fresh memory sum (at j r) index d ≡ ok block
  unfolding read_tx_block
  read_lem r index block d ring inside held fits =
      let placed' : IsPlaced (at j r) = record {
        volume_small = placed.volume_small;
        start_in = placed.start_in;
        size_in = placed.size_in;
        end_in = placed.end_in;
        log_size = rw ring.1 placed.log_size;
      } in
      let found = (index_to_position_lem (at j r) index placed' inside).0 in
      let aligned : log_position j index % 512 ≡ 0 = omega arith in
      rw (found, enough index, read_tx_block)
        (rw (aligned, healthy.reads d (log_position j index) page_size, held)
          (read-write_tx_block sum sum_size block fits))

  -- one round: the oldest index is popped, its block read and taken
  round :
      (fuel : ℕ) (r : RingBuffer) (list list' : List TxBlock) (block : TxBlock) (d d' : Disk)
      → Ring r
      → 0 < r.size
      → read_bytes d (log_position j r.start_index) page_size ≡ write_tx_block_prepare sum block
      → Fits block
      → take_block dev fresh memory (at j (popped r)) block list d ≡ (success, list', d')
      → loop (suc fuel) r list d ≡ loop fuel (popped r) list' d'
  unfolding replay_loop
  round fuel r list list' block d d' ring some_held held fits taken =
      let (pop, split, valid) = pop_front_lem r ring.0 some_held in
      let got =
        read_lem (popped r) r.start_index block d (valid, ring.1) ring.0.start_in held fits in
      rw (pop, replay_loop) (rw (got, replay_loop) (rw (taken, replay_loop)))

  -- the log blocks of a ring are the pages of some blocks, each of which fits
  abbrev pub Stored : Disk → RingBuffer → List TxBlock → Type 0
  Stored d r blocks = Ring r × Holds sum j d (contents r) blocks × All Fits blocks

  pub uncons :
      (d : Disk) (r : RingBuffer) (block : TxBlock) (blocks : List TxBlock)
      → Stored d r (block ∷ blocks)
      → (0 < r.size)
        × (read_bytes d (log_position j r.start_index) page_size ≡ write_tx_block_prepare sum block)
        × Stored d (popped r) blocks
  uncons d r block blocks h = elim (ℕ_discrete r.size 0) [
    | yes e ↦
        absurd (subst (λ k. Holds sum j d (run r.capacity r.start_index k) (block ∷ blocks)) e h.1)
    | no ne ↦
        let some_held : 0 < r.size = omega arith in
        let (pop, split, valid) = pop_front_lem r h.0.0 some_held in
        let held = subst (λ l. Holds sum j d l (block ∷ blocks)) split h.1 in
        (some_held, held.0, ((valid, h.0.1), held.1, h.2.1))
  ]

  -- the block is taken: the loop goes on with the rest of the log
  pub take_one :
      (fuel : ℕ) (r : RingBuffer) (list list' : List TxBlock) (block : TxBlock)
      (blocks : List TxBlock) (d d' : Disk)
      → Stored d r (block ∷ blocks)
      → take_block dev fresh memory (at j (popped r)) block list d ≡ (success, list', d')
      → (loop (suc fuel) r list d ≡ loop fuel (popped r) list' d') × Stored d (popped r) blocks
  take_one fuel r list list' block blocks d d' h taken =
      let (some_held, held, rest) = uncons d r block blocks h in
      (round fuel r list list' block d d' h.0 some_held held h.2.0 taken, rest)

  take_data :
      (r : RingBuffer) (n : ℕ) (body : Body) (id : List ℕ) (list : List TxBlock) (d : Disk)
      → 0 < length list
      → NumberedBody n body
      → take_block dev fresh memory (at j r) (record { tx_id = id; body = body }) list d
        ≡ (success, list ++ (record { tx_id = id; body = body } ∷ []), d)
  unfolding take_block
  take_data r n tx_begin id list d open_tx h = absurd h
  take_data r n (tx_data index size position bytes) id list d open_tx h =
      let begun : (length list == 0) ≡ false = ground arith in rw begun
  take_data r n (tx_commit state block_count time) id list d open_tx h = absurd h

  -- the data blocks of a transaction are gathered
  data_loop :
      (blocks : List TxBlock) (id : List ℕ) (n fuel : ℕ) (r : RingBuffer) (list more : List TxBlock)
      (d : Disk)
      → Numbered id n blocks
      → 0 < length list
      → Stored d r (blocks ++ more)
      → (r' : RingBuffer) × (loop (length blocks + fuel) r list d ≡ loop fuel r' (list ++ blocks) d)
        × Stored d r' more
  data_loop [] id n fuel r list more d numbered open_tx h =
      let none_left : 0 + fuel ≡ fuel = omega arith in (r, rw (none_left, append-nil), h)
  data_loop (block ∷ blocks) id n fuel r list more d numbered open_tx h =
      let (step, rest) =
        take_one (length blocks + fuel) r list (list ++ (block ∷ [])) block (blocks ++ more) d d h
          (take_data (popped r) n block.body block.tx_id list d open_tx numbered.1) in
      let (r', run_on, held) =
        data_loop blocks id (n + 1) fuel (popped r) (list ++ (block ∷ [])) more d numbered.2
          (omega (arith, length-append list (block ∷ []))) rest in
      let count : suc (length blocks) + fuel ≡ suc (length blocks + fuel) = omega arith in
      (
        r',
        rw count
            (step ∙ run_on ∙ ap (λ l. loop fuel r' l d) (append_assoc list (block ∷ []) blocks)),
        held,
      )

  placed_at : (r : RingBuffer) → r.capacity ≡ j.log_rb.capacity → IsPlaced (at j r)
  placed_at r e = record {
    volume_small = placed.volume_small;
    start_in = placed.start_in;
    size_in = placed.size_in;
    end_in = placed.end_in;
    log_size = rw e placed.log_size;
  }

  -- the device after the data blocks of a transaction were applied
  abbrev pub applied : Transaction → Disk → Disk
  applied tx d = write_all (data_ios tx.data_block_list) d

  pub take_begin :
      (r : RingBuffer) (tx : Transaction) (d : Disk)
      → take_block dev fresh memory (at j r) (begin_block tx) [] d
        ≡ (success, begin_block tx ∷ [], d)
  unfolding take_block
  take_begin r tx d = refl

  take_commit :
      (r : RingBuffer) (tx : Transaction) (d : Disk)
      → r.capacity ≡ j.log_rb.capacity
      → IsReplayable j tx
      → 0 < length tx.data_block_list
      → take_block dev fresh memory
          (at j r)
          (commit_block tx)
          (begin_block tx ∷ tx.data_block_list)
          d
        ≡ (success, [], applied tx d)
  unfolding take_block replay_tx
  take_commit r tx d e ready some_data =
      let long : ltb (suc (length tx.data_block_list)) 2 ≡ false = ground arith in
      let checked = check_tx_lem (at j r) tx (IsReplayable-at j r tx ready) some_data in
      let done =
        apply_blocks_lem healthy fresh fresh_size memory enough (at j r) (placed_at r e)
          tx.data_block_list true d (accepted_at j r tx.data_block_list ready.accepted) in
      rw (long, checked, replay_tx) (rw done)

  Stored-applied :
      (tx : Transaction) (d : Disk) (r : RingBuffer) (blocks : List TxBlock)
      → IsReplayable j tx
      → Stored d r blocks
      → Stored (applied tx d) r blocks
  Stored-applied tx d r blocks ready h = (
    h.0,
    Holds-write_all sum j (data_ios tx.data_block_list) d (contents r) blocks placed
        (data-IsOutside j tx.data_block_list placed ready.accepted)
        (subst (λ c. All (λ i. i < c) (contents r)) h.0.1
          (run-All-lt r.capacity r.start_index r.size h.0.0.start_in))
        h.1,
    h.2,
  )

  -- the blocks of one transaction are read and its data blocks applied
  pub tx_loop :
      (tx : Transaction) (fuel : ℕ) (r : RingBuffer) (more : List TxBlock) (d : Disk)
      → IsReplayable j tx
      → 0 < length tx.data_block_list
      → Stored d r (tx_blocks tx ++ more)
      → (r' : RingBuffer) × (loop (length (tx_blocks tx) + fuel) r [] d
          ≡ loop fuel r' [] (applied tx d))
        × Stored (applied tx d) r' more
  tx_loop tx fuel r more d ready some_data h =
      let list = tx.data_block_list in
      let assoc = append_assoc list (commit_block tx ∷ []) more in
      let h' = subst (λ l. Stored d r (begin_block tx ∷ l)) assoc h in
      let (s1, l1) =
        take_one (length list + suc fuel) r [] (begin_block tx ∷ []) (begin_block tx)
          (list ++ (commit_block tx ∷ more)) d d h' (take_begin (popped r) tx d) in
      let (r2, s2, l2) =
        data_loop list tx.tx_id 0 (suc fuel) (popped r) (begin_block tx ∷ [])
          (commit_block tx ∷ more) d ready.numbered (omega arith) l1 in
      let (s3, l3) =
        take_one fuel r2 (begin_block tx ∷ list) [] (commit_block tx) more d (applied tx d) l2
          (take_commit (popped r2) tx d l2.0.1 ready some_data) in
      let count : length (tx_blocks tx) + fuel ≡ suc (length list + suc fuel) =
        omega (arith, length-append list (commit_block tx ∷ [])) in
      (popped r2, rw count (s1 ∙ s2 ∙ s3), Stored-applied tx d (popped r2) more ready l3)
