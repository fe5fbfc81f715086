-- ===== src/Kstor/Tests/Edges.antt =====
-- kstor/ on concrete inputs at its edges: a transaction without data, a log without room, a journal
-- that is new.
use cpp_lkm.Prelude.{
  ◌≡◌, ◌⊎◌, refl, true, false, ok, [], ◌++◌, All, arith, success, err, bad_size, data_corrupt,
}
use cpp_lkm.Core.Bio.Laws.{write_all}
use cpp_lkm.Core.Memory.{check_intersection}
use cpp_lkm.Core.Disk.{Disk, write_bytes}
use cpp_lkm.Core.RingBuffer.{RingBuffer}
use cpp_lkm.Core.RingBuffer.Contents.{contents}
use cpp_lkm.Kstor.Journal.{Journal, JournalState, check_position}
use cpp_lkm.Kstor.Journal.Header.{flush_header, accept_header, load, format, start_journal}
use cpp_lkm.Kstor.Journal.Header.Formatted.{load-format}
use cpp_lkm.Kstor.Journal.Header.Reload.{accept_header-full}
use cpp_lkm.Kstor.Journal.Log.{Log, tx_blocks, write_tx}
use cpp_lkm.Kstor.Journal.Log.Blocks.{IsReady, block_ios}
use cpp_lkm.Kstor.Journal.Log.Outcome.{Written, Failed, write_tx_outcome}
use cpp_lkm.Kstor.Journal.Replay.{replay, apply_blocks}
use cpp_lkm.Kstor.Journal.Replay.Empty.{start_journal-empty}
use cpp_lkm.Kstor.Journal.Replay.Held.{Holds}
use cpp_lkm.Kstor.Journal.Replay.Page.{apply_blocks-write}
use cpp_lkm.Kstor.Journal.Replay.Recovery.{Holds-moved}
use cpp_lkm.Kstor.Journal.Replay.Written.{Holds-blocks}
use cpp_lkm.Kstor.Journal.Transaction.{Transaction, TxState, write}
use cpp_lkm.Kstor.Layout.Fields.{length-zeros}
use cpp_lkm.Kstor.Layout.TxBlock.{Fits}
use cpp_lkm.Kstor.Tests.{
  device, device-IsHealthy, plenty, plenty-enough, sum, sum_size, page, fresh, journal-IsPlaced,
  transaction-IsReplayable, empty_log, empty_log-IsValid, journal, blank, transaction, session,
  new_journal,
}

-- a transaction without data, and the log that its two blocks are
abbrev empty_transaction : Transaction
empty_transaction = record transaction { data_block_list = [] }

abbrev two_log : RingBuffer
two_log = record { start_index = 0; end_index = 2; size = 2; capacity = 7 }

abbrev two_journal : Journal
two_journal = record journal { log_rb = two_log }

two_journal-IsReady : IsReady two_journal
two_journal-IsReady = record {
  ring = record {
    small = omega arith;
    start_in = omega arith;
    size_in = omega arith;
    end_at = refl;
  };
  placed = record {
    volume_small = omega arith;
    start_in = omega arith;
    size_in = omega arith;
    end_in = omega arith;
    log_size = refl;
  };
}

two_blocks-Fits : All Fits (tx_blocks empty_transaction)
two_blocks-Fits = (
  record { id_size = length-zeros 16; body_fits = tt },
  (record { id_size = length-zeros 16; body_fits = (omega arith, omega arith, omega arith) }, tt),
)

abbrev two_disk : Disk
two_disk = write_all (block_ios sum plenty journal 0 (tx_blocks empty_transaction)) blank

two_disk-Holds :
    Holds sum two_journal two_disk (contents two_log) (tx_blocks empty_transaction ++ [])
two_disk-Holds =
    Holds-moved sum journal two_log JournalState.running two_disk (contents two_log)
      (tx_blocks empty_transaction)
      (Holds-blocks sum sum_size plenty journal (tx_blocks empty_transaction) [] empty_log blank
        empty_log-IsValid (omega arith) two_blocks-Fits tt)

start_journal-empty_example :
    (j' : Journal) × (replay device fresh plenty sum two_journal two_disk
      ≡ (data_corrupt, j', two_disk))
    × (start_journal device sum fresh plenty true two_journal two_disk
        ≡ (success, record j' { state = JournalState.running }, two_disk))
start_journal-empty_example =
    start_journal-empty device-IsHealthy fresh (length-zeros 4096) plenty plenty-enough sum sum_size
      two_journal empty_transaction [] two_disk two_journal-IsReady refl two_disk-Holds
      two_blocks-Fits

load-format_example :
    let (e, j1, d') = format device sum true 1 8 new_journal blank in
    (e ≡ success)
    × (j' : Journal) × (load device sum fresh plenty true true 1 j1 d' ≡ (success, j', d'))
    × (j'.state ≡ JournalState.running)
    × (j'.log_rb.size ≡ 0)
load-format_example =
    load-format device-IsHealthy fresh (length-zeros 4096) plenty plenty-enough sum sum_size 1 8
      new_journal blank refl (omega arith, omega arith, omega arith, omega arith)

-- a log without room
abbrev full_log : Log
full_log = record session.log {
  journal = record journal {
    log_rb = record { start_index = 0; end_index = 0; size = 7; capacity = 7 };
  };
}

write_tx_outcome_example :
    let (e, tx', log') = write_tx sum plenty transaction full_log in
    Written e transaction full_log tx' log' ⊎ Failed e transaction full_log tx' log'
write_tx_outcome_example = write_tx_outcome sum plenty transaction full_log

-- a new transaction with a block already
abbrev writing : Transaction
writing = record transaction { state = TxState.new }

page_accepted : check_position journal 40960 4096 ≡ ok tt
unfolding check_position check_intersection
page_accepted = refl

apply_blocks-write_example :
    let (e, tx') = write journal plenty page 40960 writing in
    let (before, d1) =
      apply_blocks device fresh plenty journal writing.data_block_list false blank in
    (e ≡ success)
    × (apply_blocks device fresh plenty journal tx'.data_block_list false blank
        ≡ (success, write_bytes d1 40960 page))
apply_blocks-write_example =
    apply_blocks-write device-IsHealthy fresh (length-zeros 4096) plenty plenty-enough journal page
      40960 writing false blank journal-IsPlaced refl transaction-IsReplayable.accepted
      (omega arith) (length-zeros 4096) page_accepted

full_log-IsReady : IsReady full_log.journal
full_log-IsReady = record {
  ring = record {
    small = omega arith;
    start_in = omega arith;
    size_in = omega arith;
    end_at = refl;
  };
  placed = record {
    volume_small = omega arith;
    start_in = omega arith;
    size_in = omega arith;
    end_in = omega arith;
    log_size = refl;
  };
}

accept_header-full_example : accept_header (flush_header full_log.journal) empty_log ≡ err bad_size
accept_header-full_example = accept_header-full full_log.journal empty_log full_log-IsReady refl
