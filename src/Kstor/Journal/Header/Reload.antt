-- ===== src/Kstor/Journal/Header/Reload.antt =====
-- kstor/journal.cpp: `Load` of a journal whose header and log are on the device.
use cpp_lkm.Kstor.Journal.Replay.{Leftover}
use cpp_lkm.Prelude.{
  ℕ, ◌*◌, ◌%◌, ◌<◌, ◌≡◌, refl, sym, ap, ◌∙◌, inl, inr, Bool, true, false, List, leb, ◌==◌, ==_refl,
  length, mul64, sub64, arith, success, ok, err, bad_size, subst,
}
use cpp_lkm.Core.Bio.{Device, page_size}
use cpp_lkm.Core.Bio.Laws.{IsHealthy}
use cpp_lkm.Core.Disk.{Disk, read_bytes}
use cpp_lkm.Core.RingBuffer.{RingBuffer, reset}
use cpp_lkm.Core.RingBuffer.Laws.{reset_lem}
use cpp_lkm.Kstor.Journal.{Journal, JournalState, block_size}
use cpp_lkm.Kstor.Journal.Header.{flush_header, accept_header, open_journal, start_journal, load}
use cpp_lkm.Kstor.Journal.Log.Blocks.{IsReady}
use cpp_lkm.Kstor.Journal.Replay.Recovery.{Commits, apply_all, replay_lem, Commits-state}
use cpp_lkm.Kstor.Journal.Transaction.{Transaction}
use cpp_lkm.Kstor.Layout.Header.{header_page, HeaderFits, read-header_page}

-- the fields of a journal's header are accepted, and give its ring back
accept_header_lem :
    (j : Journal) (r : RingBuffer)
    → IsReady j
    → j.log_rb.size < j.log_rb.capacity
    → accept_header (flush_header j) r ≡ ok j.log_rb
unfolding accept_header flush_header
accept_header_lem j r ready room =
    let grown : leb j.size 1 ≡ false = ground (arith, ready.placed.log_size) in
    let capacity : (j.log_rb.capacity == sub64 j.size 1) ≡ true =
      let exact : sub64 j.size 1 ≡ j.log_rb.capacity = omega (arith, ready.placed.log_size) in
      rw exact (==_refl j.log_rb.capacity) in
    let done : reset j.log_rb.start_index j.log_rb.end_index j.log_rb.size j.log_rb.capacity r
        ≡ (true, j.log_rb) =
      elim (reset_lem j.log_rb.start_index j.log_rb.end_index j.log_rb.size j.log_rb.capacity r
        ready.ring.small) [
          | inl (done, _, _) ↦ done
          | inr (_, bad) ↦ absurd (bad (ready.ring, room))
        ] in
    rw (grown, capacity, done)

-- The header that a journal with a full log writes is refused with `BadSize` when it is loaded.
pub accept_header-full :
    (j : Journal) (r : RingBuffer)
    → IsReady j
    → j.log_rb.size ≡ j.log_rb.capacity
    → accept_header (flush_header j) r ≡ err bad_size
unfolding accept_header flush_header
accept_header-full j r ready full =
    let grown : leb j.size 1 ≡ false = ground (arith, ready.placed.log_size) in
    let exact : sub64 j.size 1 ≡ j.log_rb.capacity = omega (arith, ready.placed.log_size) in
    let refused : reset j.log_rb.start_index j.log_rb.end_index j.log_rb.size j.log_rb.capacity r
        ≡ (false, r) =
      elim (reset_lem j.log_rb.start_index j.log_rb.end_index j.log_rb.size j.log_rb.capacity r
        ready.ring.small) [
          | inl (_, _, room) ↦ absurd (omega arith)
          | inr (refused, _) ↦ refused
        ] in
    rw (grown, exact, ==_refl j.log_rb.capacity) (rw refused refl)

-- the fields of a journal's header fit
flush_header-HeaderFits :
    (j : Journal) → IsReady j → j.log_rb.size < j.log_rb.capacity → HeaderFits (flush_header j)
unfolding flush_header
flush_header-HeaderFits j ready room = record {
  size_fits = omega arith;
  start_fits = omega arith;
  end_fits = omega arith;
  log_size_fits = omega arith;
  capacity_fits = omega arith;
}

module _ {dev : Device} (healthy : IsHealthy dev) (fresh : Leftover)
    (fresh_size : length fresh.page ≡ page_size) (memory : ℕ → Bool)
    (enough : (n : ℕ) → memory n ≡ true) (sum : List ℕ → List ℕ)
    (sum_size : (bytes : List ℕ) → length (sum bytes) ≡ 8) where
  -- the header on the device names the journal's ring
  open_journal_lem :
      (j j0 : Journal) (d : Disk)
      → IsReady j
      → j.log_rb.size < j.log_rb.capacity
      → read_bytes d (j.start * block_size) page_size ≡ header_page sum (flush_header j)
      → open_journal dev sum true j.start j0 d
        ≡ ok (record j0 { start = j.start; size = j.size; log_rb = j.log_rb })
  unfolding open_journal flush_header
  open_journal_lem j j0 d ready room written =
      let exact : mul64 j.start block_size ≡ j.start * block_size =
        omega (arith, ready.placed.end_in) in
      let sector : (mul64 j.start block_size % 512 == 0) ≡ true = ground arith in
      rw
        (
          sector,
          exact,
          healthy.reads d (j.start * block_size) page_size,
          written,
          read-header_page sum sum_size (flush_header j) (flush_header-HeaderFits j ready room),
        )
        (rw (accept_header_lem j j0.log_rb ready room))

  load_opened :
      (start : ℕ) (j0 j1 : Journal) (d : Disk)
      → j0.state ≡ JournalState.new
      → open_journal dev sum true start j0 d ≡ ok j1
      → load dev sum fresh memory true true start j0 d
        ≡ start_journal dev sum fresh memory true j1 d
  unfolding load
  load_opened start j0 j1 d new =
      subst
        (λ k.
          open_journal dev sum true start k d ≡ ok j1
          → load dev sum fresh memory true true start k d
            ≡ start_journal dev sum fresh memory true j1 d)
        (ap (λ (s : JournalState). record j0 { state = s }) (sym new))
        (λ opened. rw (opened, load) refl)

  -- On a device without failures and with memory: a new journal that is loaded where the device
  -- holds the header of a journal of the same volume, whose log is not full, and committed
  -- transactions in that log, succeeds and runs, has an empty log and the sizes of that journal and
  -- its volume, and has applied the data of every transaction, in order.
  pub load_lem :
      (j j0 : Journal) (txs : List Transaction) (d : Disk)
      → Commits sum j d txs
      → j.log_rb.size < j.log_rb.capacity
      → read_bytes d (j.start * block_size) page_size ≡ header_page sum (flush_header j)
      → j0.state ≡ JournalState.new
      → j0.volume_size ≡ j.volume_size
      → (j' : Journal) × (load dev sum fresh memory true true j.start j0 d
          ≡ (success, j', apply_all txs d))
        × (j'.state ≡ JournalState.running)
        × (j'.log_rb.size ≡ 0)
        × (j'.size ≡ j.size)
        × (j'.volume_size ≡ j.volume_size)
  unfolding start_journal
  load_lem j j0 txs d commits room written new volume =
      let j1 : Journal = record j0 { start = j.start; size = j.size; log_rb = j.log_rb } in
      let there : Commits sum j1 d txs =
        subst
          (λ v.
            Commits sum
              (record {
                start = j.start;
                size = j.size;
                volume_size = v;
                log_rb = j.log_rb;
                state = j0.state;
              })
              d txs)
          (sym volume) (Commits-state sum j j0.state d txs commits) in
      let (j', replayed, empty, same_size, same_volume) =
        replay_lem healthy fresh fresh_size memory enough sum sum_size j1 txs d there in
      (
        record j' { state = JournalState.running },
        load_opened j.start j0 j1 d new (open_journal_lem j j0 d commits.ready room written)
            ∙ rw replayed refl,
        refl,
        empty,
        same_size,
        same_volume ∙ volume,
      )
