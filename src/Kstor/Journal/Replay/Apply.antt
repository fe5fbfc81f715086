-- ===== src/Kstor/Journal/Replay/Apply.antt =====
-- kstor/journal.cpp: what `ApplyBlocks` does to the device.
use cpp_lkm.Kstor.Journal.Replay.{Leftover}
use cpp_lkm.Prelude.{
  ℕ, ◌≤◌, ◌<◌, ◌≡◌, ap, ◌∙◌, Bool, true, List, [], ◌∷◌, ◌++◌, append-nil, append_assoc, length,
  take, take-append_inside, length-append, arith, success, ok,
}
use cpp_lkm.Core.Bio.{Io, Device, page_size}
use cpp_lkm.Core.Bio.Laws.{IsHealthy, write_all, submit_wait_result-healthy, add_io_lem}
use cpp_lkm.Core.Disk.{Disk}
use cpp_lkm.Kstor.Journal.{Journal, check_position}
use cpp_lkm.Kstor.Journal.Positions.{IsPlaced, check_position_lem}
use cpp_lkm.Kstor.Journal.Replay.{gather_blocks, apply_blocks}
use cpp_lkm.Kstor.Layout.TxBlock.{Body, tx_begin, tx_data, tx_commit, TxBlock}

-- A data block that holds at least one byte, at a position that the journal accepts.
abbrev pub AcceptedBody : Journal → Body → Type 0
AcceptedBody j tx_begin = ⊥
AcceptedBody j (tx_data index data_size position bytes) =
    (0 < data_size)
    × (data_size ≤ 4052)
    × (length bytes ≡ 4052)
    × (check_position j position data_size ≡ ok tt)
AcceptedBody j (tx_commit state block_count time) = ⊥

abbrev pub AllAccepted : Journal → List TxBlock → Type 0
AllAccepted j [] = Unit {0}
AllAccepted j (block ∷ list) = AcceptedBody j block.body × AllAccepted j list

-- the write that a data block stands for
abbrev pub body_ios : Body → List Io
body_ios tx_begin = []
body_ios (tx_data index data_size position bytes) =
    record { position = position; bytes = take data_size bytes } ∷ []
body_ios (tx_commit state block_count time) = []

abbrev pub data_ios : List TxBlock → List Io
data_ios [] = []
data_ios (block ∷ list) = body_ios block.body ++ data_ios list

module _ {dev : Device} (healthy : IsHealthy dev) (fresh : Leftover)
    (fresh_size : length fresh.page ≡ page_size) (memory : ℕ → Bool)
    (enough : (n : ℕ) → memory n ≡ true) (j : Journal) (placed : IsPlaced j) where
  gather_block :
      (body : Body) (id : List ℕ) (list : List TxBlock) (bios : List Io)
      → AcceptedBody j body
      → gather_blocks dev fresh memory j (record { tx_id = id; body = body } ∷ list) bios
        ≡ gather_blocks dev fresh memory j list (bios ++ body_ios body)
  unfolding gather_blocks
  gather_block tx_begin id list bios h = absurd h
  gather_block (tx_data index size position bytes) id list bios h =
      let sector = (check_position_lem j position size placed (omega arith) h.0 h.3).0 in
      let all =
        bytes ++ fresh.behind (record { tx_id = id; body = tx_data index size position bytes }) in
      rw (
        h.3,
        enough (length bios),
        add_io_lem fresh.page all size position bios fresh_size h.0 (omega arith)
            (omega (arith, length-append bytes (fresh.behind _))) sector,
        take-append_inside size bytes (fresh.behind _) (omega arith),
      )
  gather_block (tx_commit state block_count time) id list bios h = absurd h

  gather_blocks_lem :
      (list : List TxBlock) (bios : List Io)
      → AllAccepted j list
      → gather_blocks dev fresh memory j list bios ≡ ok (bios ++ data_ios list)
  unfolding gather_blocks
  gather_blocks_lem [] bios h = rw append-nil
  gather_blocks_lem (block ∷ list) bios h =
      gather_block block.body block.tx_id list bios h.0
      ∙ gather_blocks_lem list (bios ++ body_ios block.body) h.1
      ∙ ap ok (append_assoc bios (body_ios block.body) (data_ios list))

  -- On a device without failures and with memory, in a journal that lies within its volume,
  -- `ApplyBlocks` of accepted data blocks succeeds and writes the bytes of each block at its
  -- position, in order.
  pub apply_blocks_lem :
      (list : List TxBlock) (preflush_fua : Bool) (d : Disk)
      → AllAccepted j list
      → apply_blocks dev fresh memory j list preflush_fua d ≡ (success, write_all (data_ios list) d)
  unfolding apply_blocks
  apply_blocks_lem list preflush_fua d h =
      rw (gather_blocks_lem list [] h, apply_blocks)
        (submit_wait_result-healthy healthy preflush_fua (data_ios list) d)
