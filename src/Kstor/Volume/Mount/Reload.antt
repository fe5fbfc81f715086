-- ===== src/Kstor/Volume/Mount/Reload.antt =====
-- kstor/volume.cpp: `Load` of a volume whose header and journal are on the device.
use cpp_lkm.Kstor.Journal.Replay.{Leftover}
use cpp_lkm.Prelude.{
  ℕ, ◌*◌, ◌%◌, ◌<◌, ◌≡◌, refl, sym, ap, ◌∙◌, subst, Bool, true, false, List, [], ◌∷◌, inr, ◌==◌,
  ==_refl, length, arith, success, ok,
}
use cpp_lkm.Core.Bio.{Device, page_size, add_page}
use cpp_lkm.Core.Bio.Laws.{IsHealthy, write_all, submit_wait_result-healthy}
use cpp_lkm.Core.Disk.{Disk, read_bytes, write_bytes, read-write, read-write_apart}
use cpp_lkm.Kstor.Journal.{Journal, JournalState, block_size}
use cpp_lkm.Kstor.Journal.Header.{flush_header}
use cpp_lkm.Kstor.Journal.Header.Reload.{load_lem}
use cpp_lkm.Kstor.Journal.Replay.Recovery.{Commits, apply_all}
use cpp_lkm.Kstor.Journal.Session.Durable.{Commits-before}
use cpp_lkm.Kstor.Journal.Transaction.{Transaction}
use cpp_lkm.Kstor.Layout.Header.{header_page}
use cpp_lkm.Kstor.Layout.VolumeHeader.{
  VolumeHeader, VolumeHeaderFits, volume_page, read-volume_page, length-volume_page,
}
use cpp_lkm.Kstor.Volume.{Volume, VolumeState}
use cpp_lkm.Kstor.Volume.Mount.{
  with_journal, journal_of, set_size, open_volume, mount, volume_load, write_header, current_header,
}

-- A device of `device_size` bytes that holds a volume: its header, and its journal `j` with
-- committed transactions and a log that is not full.
pub record HoldsVolume (sum : List ℕ → List ℕ) (device_size : ℕ) (h : VolumeHeader) (j : Journal)
    (txs : List Transaction) (d : Disk) : Type 0 where
  pub fits : VolumeHeaderFits h
  pub whole_blocks : device_size % block_size ≡ 0
  pub same_size : h.size ≡ device_size
  pub same_journal : h.journal_size ≡ j.size
  pub header : read_bytes d 0 page_size ≡ volume_page sum h
  pub place : j.start ≡ 1
  pub volume : j.volume_size ≡ device_size
  pub journal_header :
      read_bytes d (j.start * block_size) page_size ≡ header_page sum (flush_header j)
  pub commits : Commits sum j d txs
  pub room : j.log_rb.size < j.log_rb.capacity

module _ {dev : Device} (healthy : IsHealthy dev) (fresh : Leftover)
    (fresh_size : length fresh.page ≡ page_size) (memory : ℕ → Bool)
    (enough : (n : ℕ) → memory n ≡ true) (sum : List ℕ → List ℕ)
    (sum_size : (bytes : List ℕ) → length (sum bytes) ≡ 8) (device_size : ℕ) where
  open_volume_lem :
      (h : VolumeHeader) (j : Journal) (txs : List Transaction) (d : Disk)
      → HoldsVolume sum device_size h j txs d
      → 0 < device_size
      → open_volume dev device_size sum true d ≡ ok h
  unfolding open_volume
  open_volume_lem h j txs d held some_bytes =
      let whole : (h.size % block_size == 0) ≡ true =
        ground (arith, held.whole_blocks, held.same_size) in
      let no_zero : (h.size == 0) ≡ false = ground (arith, held.same_size) in
      let exact : (h.size == device_size) ≡ true = ground (arith, held.same_size) in
      rw (
        healthy.reads d 0 page_size,
        held.header,
        read-volume_page sum sum_size h held.fits,
        whole,
        no_zero,
        exact,
      )

  load_opened :
      (h : VolumeHeader) (v : Volume) (d : Disk)
      → v.state ≡ VolumeState.new
      → open_volume dev device_size sum true d ≡ ok h
      → volume_load dev device_size sum fresh memory true true true v d
        ≡ mount dev device_size sum fresh memory true true h (set_size h.size v) d
  unfolding volume_load
  load_opened h v d new opened =
      subst
        (λ k.
          volume_load dev device_size sum fresh memory true true true k d
          ≡ mount dev device_size sum fresh memory true true h (set_size h.size k) d)
        (ap (λ (s : VolumeState). record v { state = s }) (sym new)) (rw (opened, volume_load) refl)

  -- On a device without failures and with memory: a new volume that is loaded from a device that
  -- holds a volume, with its header and a journal whose log is not full, succeeds and runs, with the
  -- identifier of the header and the device's size; its journal runs with an empty log, and the
  -- data of every committed transaction are applied, in order.
  pub volume_load_lem :
      (h : VolumeHeader) (v : Volume) (j : Journal) (txs : List Transaction) (d : Disk)
      → HoldsVolume sum device_size h j txs d
      → 0 < device_size
      → v.state ≡ VolumeState.new
      → (journal_of v).state ≡ JournalState.new
      → (v' : Volume) × (volume_load dev device_size sum fresh memory true true true v d
          ≡ (success, v', apply_all txs d))
        × (v'.state ≡ VolumeState.running)
        × (v'.volume_id ≡ h.volume_id)
        × ((journal_of v').volume_size ≡ device_size)
        × ((journal_of v').state ≡ JournalState.running)
        × ((journal_of v').log_rb.size ≡ 0)
  unfolding mount set_size
  volume_load_lem h v j txs d held some_bytes new new_journal =
      let j0 : Journal = record (journal_of v) { volume_size = h.size } in
      let (j', loaded, runs, empty, size, volume) =
        load_lem healthy fresh fresh_size memory enough sum sum_size j j0 txs d held.commits
          held.room held.journal_header new_journal (held.same_size ∙ sym held.volume) in
      let same : (j'.size == h.journal_size) ≡ true =
        rw (size, held.same_journal) (==_refl j.size) in
      (
        record (with_journal j' v) { volume_id = h.volume_id; state = VolumeState.running },
        load_opened h v d new (open_volume_lem h j txs d held some_bytes)
            ∙ rw (sym held.place, loaded) (rw same refl),
        refl,
        refl,
        volume ∙ held.volume,
        runs,
        empty,
      )

-- A header that is written at the start of a device, in front of a journal, makes it hold a volume.
pub written-HoldsVolume :
    (sum : List ℕ → List ℕ) (sum_size : (bytes : List ℕ) → length (sum bytes) ≡ 8) (device_size : ℕ)
    (h : VolumeHeader) (j : Journal) (txs : List Transaction) (d : Disk)
    → VolumeHeaderFits h
    → device_size % block_size ≡ 0
    → h.size ≡ device_size
    → h.journal_size ≡ j.size
    → j.start ≡ 1
    → j.volume_size ≡ device_size
    → read_bytes d (j.start * block_size) page_size ≡ header_page sum (flush_header j)
    → Commits sum j d txs
    → j.log_rb.size < j.log_rb.capacity
    → HoldsVolume sum device_size h j txs (write_bytes d 0 (volume_page sum h))
written-HoldsVolume sum sum_size device_size h j txs d fits whole size journal place volume written
      commits room =
    let page = volume_page sum h in
    let long = length-volume_page sum sum_size h fits.id_fits in
    record {
      fits = fits;
      whole_blocks = whole;
      same_size = size;
      same_journal = journal;
      header = subst (λ n. read_bytes (write_bytes d 0 page) 0 n ≡ page) long (read-write d 0 page);
      place = place;
      volume = volume;
      journal_header =
          read-write_apart d 0 page (j.start * block_size) page_size (inr (omega arith)) ∙ written;
      commits = Commits-before sum j d 0 page txs (omega arith) commits;
      room = room;
    }

module _ {dev : Device} (healthy : IsHealthy dev) (sum : List ℕ → List ℕ) (device_size : ℕ) where
  -- On a device without failures and with memory the header is written at the device's start.
  pub write_header_lem :
      (v : Volume) (d : Disk)
      → write_header dev device_size sum true v d
        ≡ (success, write_bytes d 0 (volume_page sum (current_header v)))
  unfolding write_header add_page write_all
  write_header_lem v d =
      submit_wait_result-healthy healthy true
        (record { position = 0; bytes = volume_page sum (current_header v) } ∷ []) d
