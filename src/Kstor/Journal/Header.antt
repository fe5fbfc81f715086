-- ===== src/Kstor/Journal/Header.antt =====
-- kstor/journal.cpp: `Format`, `Load` and the header that `Flush` writes.
pub mod Reload
pub mod Formatted
use cpp_lkm.Prelude.{
  ℕ, ◌-◌, ◌%◌, Bool, true, false, not, List, [], ◌∷◌, ltb, leb, ◌==◌, ◌||◌, if◌then◌else◌, mul64,
  sub64, Error, success, is_ok, Result, ok, err, invalid_state, invalid_value, no_memory, bad_size,
  data_corrupt, reject, ◌>>=◌, ◌>>◌,
}
use cpp_lkm.Core.Bio.{Io, Device, page_size, add_page, submit_wait_result}
use cpp_lkm.Core.Disk.{Disk}
use cpp_lkm.Core.RingBuffer.{RingBuffer, reset}
use cpp_lkm.Kstor.Journal.{Journal, JournalState, block_size}
use cpp_lkm.Kstor.Journal.Replay.{Leftover, replay}
use cpp_lkm.Kstor.Layout.Header.{JournalHeader, header_page, read_header}

-- The fields that `Flush` writes.
unfoldable pub flush_header : Journal → JournalHeader
flush_header j = record {
  size = j.size;
  log_start_index = j.log_rb.start_index;
  log_end_index = j.log_rb.end_index;
  log_size = j.log_rb.size;
  log_capacity = j.log_rb.capacity;
}

-- The fields that `Format` writes.
unfoldable pub format_header : ℕ → JournalHeader
format_header size = record {
  size = size;
  log_start_index = 0;
  log_end_index = 0;
  log_size = 0;
  log_capacity = sub64 size 1;
}

-- The checks of `Load` on the fields, and the ring that `LogRb.Reset` leaves.
unfoldable pub accept_header : JournalHeader → RingBuffer → Result RingBuffer
accept_header h r = do
  reject (leb h.size 1) bad_size
  reject (not (h.log_capacity == sub64 h.size 1)) bad_size
  let (done, ring) = reset h.log_start_index h.log_end_index h.log_size h.log_capacity r
  if done then ok ring else err bad_size

-- `err == Core::Error::DataCorrupt`
abbrev pub is_corrupt : Error → Bool
is_corrupt data_corrupt = true
is_corrupt _ = false

-- `dev` is the block device, and `sum` is `XXHash::Sum`.
module _ (dev : Device) (sum : List ℕ → List ℕ) where
  -- `Load` up to `Replay`: the journal at `start`, with its size and its ring. `page_memory` says
  -- whether the page and the request can be allocated.
  unfoldable pub open_journal : Bool → ℕ → Journal → Disk → Result Journal
  open_journal page_memory start j d = do
    reject (not page_memory) no_memory
    reject (not (mul64 start block_size % 512 == 0)) invalid_value
    page ← dev.read d (mul64 start block_size) page_size
    h ← read_header sum page
    ring ← accept_header h j.log_rb
    ok (record j { start = start; size = h.size; log_rb = ring })

  -- `Load` from `Replay` on. `thread` says whether the thread and its name can be allocated; a log
  -- that is corrupt is replayed up to there.
  unfoldable pub start_journal :
      Leftover → (ℕ → Bool) → Bool → Journal → Disk → Error × Journal × Disk
  start_journal fresh memory thread j d =
      let (e, j', d') = replay dev fresh memory sum j d in
      if is_ok e || is_corrupt e
      then if thread
        then (success, record j' { state = JournalState.running }, d')
        else (no_memory, j', d')
      else (e, j', d')

  -- `Journal::Load`
  unfoldable pub load :
      Leftover → (ℕ → Bool) → Bool → Bool → ℕ → Journal → Disk → Error × Journal × Disk
  load fresh memory page_memory thread start j d = elim j.state [
    | JournalState.new ↦ elim (open_journal page_memory start j d) [
      | err e ↦ (e, j, d)
      | ok j' ↦ start_journal fresh memory thread j' d
    ]
    | _ ↦ (invalid_state, j, d)
  ]

  -- `Format` up to the request for the header's page
  unfoldable pub format_requests : Bool → ℕ → ℕ → Journal → Result (List Io)
  format_requests page_memory start size j = do
    reject (leb size 1) invalid_value
    elim j.state [
      | JournalState.new ↦
          add_page page_memory (header_page sum (format_header size)) (mul64 start block_size) 0 []
      | _ ↦ err invalid_state
    ]

  -- `Journal::Format`
  unfoldable pub format : Bool → ℕ → ℕ → Journal → Disk → Error × Journal × Disk
  format page_memory start size j d = elim (format_requests page_memory start size j) [
    | err e ↦ (e, j, d)
    | ok bios ↦
        let (e, d') = submit_wait_result dev true bios d in
        if is_ok e then (success, record j { start = start; size = size }, d') else (e, j, d')
  ]
