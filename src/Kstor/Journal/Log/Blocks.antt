-- ===== src/Kstor/Journal/Log/Blocks.antt =====
-- kstor/journal.cpp, `WriteTx`: what the blocks of a transaction occupy in the log, and what is written there.
use cpp_lkm.Prelude.{
  ℕ, ◌+◌, ◌%◌, ◌≤◌, ◌<◌, ◌≡◌, refl, sym, ◌∙◌, Bool, true, List, [], ◌∷◌, ◌++◌, append-nil,
  append_assoc, length, arith, Error, success, ok,
}
use cpp_lkm.Core.Bio.{Io, add_page}
use cpp_lkm.Core.RingBuffer.Contents.{IsValid, run, contents}
use cpp_lkm.Core.RingBuffer.Laws.{pushed, push_back_lem}
use cpp_lkm.Kstor.Journal.{Journal}
use cpp_lkm.Kstor.Journal.Positions.{IsPlaced, log_position, index_to_position_lem}
use cpp_lkm.Kstor.Journal.Log.{Log, get_next_index, write_tx_block, put_block, put_blocks}
use cpp_lkm.Kstor.Layout.TxBlock.{TxBlock, write_tx_block_prepare}

-- A journal whose ring is valid and whose place is right.
pub record IsReady (j : Journal) : Type 0 where
  pub ring : IsValid j.log_rb
  pub placed : IsPlaced j

-- the journal after one more index was handed out
abbrev pub next : Journal → Journal
next j = record j { log_rb = pushed j.log_rb }

pub next-IsReady : (j : Journal) → IsReady j → j.log_rb.size < j.log_rb.capacity → IsReady (next j)
next-IsReady j ready room = record {
  ring = (push_back_lem j.log_rb ready.ring room).4;
  placed = record {
    volume_small = ready.placed.volume_small;
    start_in = ready.placed.start_in;
    size_in = ready.placed.size_in;
    end_in = ready.placed.end_in;
    log_size = ready.placed.log_size;
  };
}

module _ (sum : List ℕ → List ℕ) (memory : ℕ → Bool) where
  -- the request that writes a block at an index
  abbrev pub block_io : Journal → ℕ → TxBlock → Io
  block_io j index block = record {
    position = log_position j index;
    bytes = write_tx_block_prepare sum block;
  }

  -- the requests for blocks at successive indices
  abbrev pub block_ios : Journal → ℕ → List TxBlock → List Io
  block_ios j index [] = []
  block_ios j index (block ∷ blocks) =
      block_io j index block ∷ block_ios j ((index + 1) % j.log_rb.capacity) blocks

  write_tx_block_lem :
      (j : Journal) (index : ℕ) (block : TxBlock) (bios : List Io)
      → IsPlaced j
      → index < j.log_rb.capacity
      → memory index ≡ true
      → write_tx_block sum memory j index block bios ≡ ok (bios ++ (block_io j index block ∷ []))
  unfolding write_tx_block add_page
  write_tx_block_lem j index block bios placed inside enough =
      let (at_position, lo, hi) = index_to_position_lem j index placed inside in
      let aligned : log_position j index % 512 ≡ 0 = omega arith in
      rw (at_position, enough) (rw aligned)

  get_next_index_lem :
      (j : Journal)
      → IsReady j
      → j.log_rb.size < j.log_rb.capacity
      → get_next_index j ≡ ok (j.log_rb.end_index, next j)
  unfolding get_next_index
  get_next_index_lem j ready room = rw ((push_back_lem j.log_rb ready.ring room).0, get_next_index)

  put_block_lem :
      (block : TxBlock) (log : Log) (list : List ℕ)
      → IsReady log.journal
      → log.journal.log_rb.size < log.journal.log_rb.capacity
      → memory log.journal.log_rb.end_index ≡ true
      → put_block sum memory block log list ≡ (
        success,
        record log {
          journal = next log.journal;
          bios = log.bios ++ (block_io log.journal log.journal.log_rb.end_index block ∷ []);
        },
        list ++ (log.journal.log_rb.end_index ∷ []),
      )
  unfolding put_block
  put_block_lem block log list ready room enough =
      let inside = (push_back_lem log.journal.log_rb ready.ring room).3 in
      let written =
        write_tx_block_lem (next log.journal) log.journal.log_rb.end_index block log.bios
          (next-IsReady log.journal ready room).placed inside enough in
      rw (get_next_index_lem log.journal ready room, put_block) (rw (enough, written, put_block))

  -- what `put_blocks` has done
  pub record Put (blocks : List TxBlock) (log : Log) (list : List ℕ) (out : Error × Log × List ℕ)
      : Type 0 where
    pub succeeded : out.0 ≡ success
    pub ready : IsReady out.1.journal
    pub held :
        contents out.1.journal.log_rb
        ≡ contents log.journal.log_rb
          ++ run log.journal.log_rb.capacity log.journal.log_rb.end_index (length blocks)
    pub indices :
        out.2 ≡ list ++ run log.journal.log_rb.capacity log.journal.log_rb.end_index (length blocks)
    pub requests :
        out.1.bios ≡ log.bios ++ block_ios log.journal log.journal.log_rb.end_index blocks
    pub table : out.1.table ≡ log.table
    pub frame : out.1.journal ≡ record log.journal { log_rb = out.1.journal.log_rb }
    pub capacity : out.1.journal.log_rb.capacity ≡ log.journal.log_rb.capacity
    pub size : out.1.journal.log_rb.size ≡ log.journal.log_rb.size + length blocks

  -- with room in the ring and memory, all blocks are put into the log one behind the other
  pub put_blocks_lem :
      (blocks : List TxBlock) (log : Log) (list : List ℕ)
      → IsReady log.journal
      → log.journal.log_rb.size + length blocks ≤ log.journal.log_rb.capacity
      → ((index : ℕ) → memory index ≡ true)
      → Put blocks log list (put_blocks sum memory blocks log list)
  unfolding put_blocks
  put_blocks_lem [] log list ready room enough = record {
    succeeded = refl;
    ready = ready;
    held = sym (append-nil (contents log.journal.log_rb));
    indices = sym (append-nil list);
    requests = sym (append-nil log.bios);
    table = refl;
    frame = refl;
    capacity = refl;
    size = omega arith;
  }
  put_blocks_lem (block ∷ blocks) log list ready room enough =
      let now =
        put_block_lem block log list ready (omega arith) (enough log.journal.log_rb.end_index) in
      let log' : Log = record log {
        journal = next log.journal;
        bios = log.bios ++ (block_io log.journal log.journal.log_rb.end_index block ∷ []);
      } in
      let ih =
        put_blocks_lem blocks log' (list ++ (log.journal.log_rb.end_index ∷ []))
          (next-IsReady log.journal ready (omega arith)) (omega arith) enough in
      rw now (record {
        succeeded = ih.succeeded;
        ready = ih.ready;
        held =
            ih.held
            ∙ rw (push_back_lem log.journal.log_rb ready.ring (omega arith)).1
                (append_assoc (contents log.journal.log_rb) (log.journal.log_rb.end_index ∷ []) _);
        indices = ih.indices ∙ append_assoc list (log.journal.log_rb.end_index ∷ []) _;
        requests = ih.requests ∙ append_assoc log.bios _ _;
        table = ih.table;
        frame = ih.frame;
        capacity = ih.capacity;
        size = omega (arith, ih.size);
      })
