-- ===== src/Kstor/Tests.antt =====
-- kstor/ on concrete inputs: a journal of 8 blocks behind the header of a volume of 16, a device that
-- never fails, and a transaction that writes one sector.
mod Edges
mod Chunks
mod Volumes
mod Blocks
mod Waiting
use mathlib.Core.List.{Perm}
use cpp_lkm.Prelude.{
  ℕ, ◌+◌, ◌*◌, ◌%◌, ◌≤◌, ◌≡◌, ◌⊎◌, refl, subst, Bool, true, false, List, [], ◌∷◌, ◌++◌, length, All,
  arith, success, ok, err, overflow, cancelled,
}
use cpp_lkm.Core.Bio.{Device, page_size, submit_wait_result}
use cpp_lkm.Core.Bio.Laws.{IsHealthy, write_all}
use cpp_lkm.Core.Disk.{Disk, read_bytes, write_bytes, read-write}
use cpp_lkm.Core.Memory.{check_intersection}
use cpp_lkm.Core.RingBuffer.{RingBuffer}
use cpp_lkm.Core.RingBuffer.Contents.{IsValid, contents}
use cpp_lkm.Kstor.Journal.{
  Journal, JournalState, check_position, index_to_position, position_to_index,
}
use cpp_lkm.Kstor.Journal.Header.{load, flush_header}
use cpp_lkm.Kstor.Journal.Header.Reload.{load_lem}
use cpp_lkm.Kstor.Journal.Log.{Log, tx_blocks, write_tx}
use cpp_lkm.Kstor.Journal.Positions.{
  IsPlaced, index_to_position_lem, check_position_lem, position_to_index_refuses,
}
use cpp_lkm.Kstor.Journal.Replay.{Leftover, check_tx, apply_blocks, replay}
use cpp_lkm.Kstor.Journal.Replay.Apply.{data_ios, apply_blocks_lem}
use cpp_lkm.Kstor.Journal.Replay.Check.{IsReplayable, check_tx_lem}
use cpp_lkm.Kstor.Journal.Replay.Commit.{commit_lem}
use cpp_lkm.Kstor.Journal.Replay.Recovery.{Commits, apply_all, replay_lem}
use cpp_lkm.Kstor.Journal.Session.{Session, run_batch, compact_passes}
use cpp_lkm.Kstor.Journal.Session.Compact.{indices, compact_passes_lem, NoneErased}
use cpp_lkm.Kstor.Journal.Session.Durable.{durable_lem}
use cpp_lkm.Kstor.Journal.Transaction.{TxState, Transaction, write}
use cpp_lkm.Kstor.Journal.Transaction.Chunks.{two_blocks, write_lem}
use cpp_lkm.Kstor.Layout.Codec.{read-write_tx_block}
use cpp_lkm.Kstor.Layout.Fields.{zeros, length-zeros}
use cpp_lkm.Kstor.Layout.Header.{
  JournalHeader, HeaderFits, header_page, length-header_page, read_header, read-header_page,
}
use cpp_lkm.Kstor.Layout.TxBlock.{
  tx_data, TxBlock, Fits, write_tx_block_prepare, read_tx_block_complete,
}

abbrev device : Device
device = record {
  write = λ d io. (success, write_bytes d io.position io.bytes);
  read = λ d p n. ok (read_bytes d p n);
}

device-IsHealthy : IsHealthy device
device-IsHealthy = record { writes = λ d io. refl; reads = λ d p n. refl }

abbrev plenty : ℕ → Bool
plenty n = true

plenty-enough : (n : ℕ) → plenty n ≡ true
plenty-enough n = refl

abbrev sum : List ℕ → List ℕ
sum bytes = zeros 8

sum_size : (bytes : List ℕ) → length (sum bytes) ≡ 8
sum_size bytes = length-zeros 8

abbrev page : List ℕ
page = zeros 4096

abbrev fresh : Leftover
fresh = record { page = page; behind = λ block. [] }

abbrev empty_log : RingBuffer
empty_log = record { start_index = 0; end_index = 0; size = 0; capacity = 7 }

abbrev journal : Journal
journal = record {
  start = 1;
  size = 8;
  volume_size = 65536;
  log_rb = empty_log;
  state = JournalState.running;
}

abbrev blank : Disk
blank a = 0

abbrev sector : TxBlock
sector = record { tx_id = zeros 16; body = tx_data 0 512 36864 (zeros 4052) }

abbrev transaction : Transaction
transaction = record {
  address = 5;
  state = TxState.commiting;
  tx_id = zeros 16;
  data_block_list = sector ∷ [];
  index_list = [];
  commit_result = success;
  commit_event = false;
}

empty_log-IsValid : IsValid empty_log
empty_log-IsValid = record {
  small = omega arith;
  start_in = omega arith;
  size_in = omega arith;
  end_at = refl;
}

journal-IsPlaced : IsPlaced journal
journal-IsPlaced = record {
  volume_small = omega arith;
  start_in = omega arith;
  size_in = omega arith;
  end_in = omega arith;
  log_size = refl;
}

pub journal-Commits : Commits sum journal blank []
journal-Commits = record {
  ready = record { ring = empty_log-IsValid; placed = journal-IsPlaced };
  held = tt;
  replayable = tt;
}

sector_accepted : check_position journal 36864 512 ≡ ok tt
unfolding check_position check_intersection
sector_accepted = refl

sector-Fits : Fits sector
sector-Fits = record {
  id_size = length-zeros 16;
  body_fits = (omega arith, omega arith, omega arith, length-zeros 4052);
}

transaction-IsReplayable : IsReplayable journal transaction
transaction-IsReplayable = record {
  id_size = length-zeros 16;
  count = omega arith;
  accepted = ((omega arith, omega arith, length-zeros 4052, sector_accepted), tt);
  numbered = (refl, refl, tt);
  fits = (sector-Fits, tt);
}

abbrev session : Session
session = record {
  log = record {
    journal = journal;
    table = record { bucket = λ i. []; empty_value = 0 };
    bios = [];
  };
  tx_list = transaction ∷ [];
  tx_to_erase = [];
}

abbrev new_journal : Journal
new_journal = record {
  start = 0;
  size = 0;
  volume_size = 65536;
  log_rb = empty_log;
  state = JournalState.new;
}

abbrev header : JournalHeader
header = record { size = 8; log_start_index = 0; log_end_index = 0; log_size = 0; log_capacity = 7 }

header-HeaderFits : HeaderFits header
header-HeaderFits = record {
  size_fits = omega arith;
  start_fits = omega arith;
  end_fits = omega arith;
  log_size_fits = omega arith;
  capacity_fits = omega arith;
}

durable_lem_example :
    let (e, done, s', d') = run_batch device sum plenty true session blank in
    (e ≡ success)
    × All (λ (tx : Transaction). tx.state ≡ TxState.commited) done
    × (length done ≡ 1)
    × (j' : Journal) × (load device sum fresh plenty true true 1 new_journal d'
        ≡ (success, j', apply_all (transaction ∷ []) d'))
    × (j'.state ≡ JournalState.running)
    × (j'.log_rb.size ≡ 0)
durable_lem_example =
    durable_lem device-IsHealthy plenty plenty-enough sum sum_size fresh session new_journal []
      blank (length-zeros 4096) journal-Commits (refl, transaction-IsReplayable, omega arith, tt)
      (omega arith) refl refl

-- the log with the transaction in it
abbrev written_log : Log
written_log = (write_tx sum plenty transaction session.log).2

abbrev written_disk : Disk
written_disk = (submit_wait_result device true written_log.bios blank).1

written_log-Commits : Commits sum written_log.journal written_disk (transaction ∷ [])
unfolding write_all
written_log-Commits =
    (commit_lem device-IsHealthy plenty plenty-enough sum sum_size transaction session.log [] blank
      journal-Commits refl transaction-IsReplayable (omega arith) (omega arith)).3

replay_lem_example :
    (j' : Journal) × (replay device fresh plenty sum written_log.journal written_disk
      ≡ (success, j', apply_all (transaction ∷ []) written_disk))
    × (j'.log_rb.size ≡ 0)
    × (j'.size ≡ written_log.journal.size)
    × (j'.volume_size ≡ written_log.journal.volume_size)
replay_lem_example =
    replay_lem device-IsHealthy fresh (length-zeros 4096) plenty plenty-enough sum sum_size
      written_log.journal (transaction ∷ []) written_disk written_log-Commits

-- a device with the header of a journal
abbrev pub header_disk : Disk
header_disk = write_bytes blank 4096 (header_page sum (flush_header journal))

pub header_disk-read :
    read_bytes header_disk 4096 page_size ≡ header_page sum (flush_header journal)
header_disk-read =
    subst (λ n. read_bytes header_disk 4096 n ≡ header_page sum (flush_header journal))
      (length-header_page sum sum_size (flush_header journal))
      (read-write blank 4096 (header_page sum (flush_header journal)))

pub header_disk-Commits : Commits sum journal header_disk []
header_disk-Commits = record { ready = journal-Commits.ready; held = tt; replayable = tt }

load_lem_example :
    (j' : Journal) × (load device sum fresh plenty true true 1 new_journal header_disk
      ≡ (success, j', header_disk))
    × (j'.state ≡ JournalState.running)
    × (j'.log_rb.size ≡ 0)
    × (j'.size ≡ 8)
    × (j'.volume_size ≡ 65536)
load_lem_example =
    load_lem device-IsHealthy fresh (length-zeros 4096) plenty plenty-enough sum sum_size journal
      new_journal [] header_disk header_disk-Commits (omega arith) header_disk-read refl refl

commit_lem_example :
    let (e, tx', log') = write_tx sum plenty transaction session.log in
    let (e', d') = submit_wait_result device true log'.bios blank in
    (e ≡ success)
    × (e' ≡ success)
    × (tx'.state ≡ TxState.commiting)
    × Commits sum log'.journal d' (transaction ∷ [])
unfolding write_all
commit_lem_example =
    commit_lem device-IsHealthy plenty plenty-enough sum sum_size transaction session.log [] blank
      journal-Commits refl transaction-IsReplayable (omega arith) (omega arith)

read-write_tx_block_example :
    read_tx_block_complete sum (write_tx_block_prepare sum sector) ≡ ok sector
read-write_tx_block_example = read-write_tx_block sum sum_size sector sector-Fits

read-header_page_example : read_header sum (header_page sum header) ≡ ok header
read-header_page_example = read-header_page sum sum_size header header-HeaderFits

-- a log that begins with the transaction's three blocks
abbrev used_log : RingBuffer
used_log = record { start_index = 5; end_index = 2; size = 4; capacity = 7 }

used_log-IsValid : IsValid used_log
used_log-IsValid = record {
  small = omega arith;
  start_in = omega arith;
  size_in = omega arith;
  end_at = refl;
}

-- the second of them is at the front of the ring, the first behind it
abbrev applied : List Transaction
applied =
    record transaction { index_list = 0 ∷ [] } ∷ record transaction { index_list = 5 ∷ 6 ∷ [] } ∷ []

compact_passes_lem_example :
    let (r', left) = compact_passes 3 applied used_log in
    ((erased : List Transaction) × Perm applied (erased ++ left)
      × (contents used_log ≡ indices erased ++ contents r'))
    × IsValid r'
    × NoneErased r' left
compact_passes_lem_example = compact_passes_lem applied 3 used_log used_log-IsValid (omega arith)

check_position_lem_example :
    (36864 % 512 ≡ 0)
    × (4096 ≤ 36864)
    × (36864 + 512 ≤ 65536)
    × ((36864 + 512 ≤ 1 * 4096) ⊎ (9 * 4096 ≤ 36864))
check_position_lem_example =
    check_position_lem journal 36864 512 journal-IsPlaced (omega arith) (omega arith)
      sector_accepted

position_to_index_refuses_example : position_to_index journal 32768 ≡ err overflow
position_to_index_refuses_example =
    position_to_index_refuses journal 6 journal-IsPlaced (omega arith) (omega arith)

abbrev fresh_transaction : Transaction
fresh_transaction = record transaction { state = TxState.new; data_block_list = [] }

page_accepted : check_position journal 36864 4096 ≡ ok tt
unfolding check_position check_intersection
page_accepted = refl

write_lem_example :
    write journal plenty page 36864 fresh_transaction
    ≡ (success, record fresh_transaction { data_block_list = two_blocks (zeros 16) page 36864 0 })
write_lem_example =
    write_lem journal plenty page 36864 fresh_transaction refl (length-zeros 4096) refl
      (omega arith) (omega arith) refl refl page_accepted
