-- ===== src/Kstor/Volume/Mount/Formatted.antt =====
-- kstor/volume.cpp: `Format` of a volume, and its `Load` afterwards.
use cpp_lkm.Kstor.Journal.Replay.{Leftover}
use cpp_lkm.Prelude.{
  ℕ, ◌*◌, ◌/◌, ◌%◌, ◌^◌, ◌≤◌, ◌<◌, ◌≡◌, refl, sym, ap, ◌∙◌, subst, Bool, true, false, List, [],
  ◌==◌, length, arith, success,
}
use cpp_lkm.Core.Bio.{Device, page_size}
use cpp_lkm.Core.Bio.Laws.{IsHealthy}
use cpp_lkm.Core.Disk.{Disk, read_bytes, write_bytes, read-write}
use cpp_lkm.Kstor.Guid.{Guid}
use cpp_lkm.Kstor.Journal.{Journal, JournalState, block_size}
use cpp_lkm.Kstor.Journal.Header.{flush_header, format_header}
use cpp_lkm.Kstor.Journal.Header.Formatted.{
  HasPlace, formatted, formatted-Commits, header_disk, format_lem,
}
use cpp_lkm.Kstor.Layout.Header.{header_page, length-header_page}
use cpp_lkm.Kstor.Layout.VolumeHeader.{volume_page}
use cpp_lkm.Kstor.Volume.{Volume, VolumeState}
use cpp_lkm.Kstor.Volume.Mount.{
  with_journal, journal_of, set_size, current_header, write_volume, volume_format, volume_load,
}
use cpp_lkm.Kstor.Volume.Mount.Reload.{
  HoldsVolume, written-HoldsVolume, write_header_lem, volume_load_lem,
}

-- the blocks that `Format` gives the journal
abbrev pub journal_blocks : ℕ → ℕ
journal_blocks device_size = device_size / 10 / block_size

-- the members after `Format`
abbrev formatted_volume : ℕ → Guid → Volume → Volume
formatted_volume device_size generated v =
    let j = journal_of v in
    record (with_journal
      (record {
        start = 1;
        size = journal_blocks device_size;
        volume_size = device_size;
        log_rb = j.log_rb;
        state = j.state;
      })
      v) { volume_id = generated }

module _ {dev : Device} (healthy : IsHealthy dev) (fresh : Leftover)
    (fresh_size : length fresh.page ≡ page_size) (memory : ℕ → Bool)
    (enough : (n : ℕ) → memory n ≡ true) (sum : List ℕ → List ℕ)
    (sum_size : (bytes : List ℕ) → length (sum bytes) ≡ 8) (device_size : ℕ)
    (large : 81920 ≤ device_size) (small : device_size < 2 ^ 63)
    (whole : device_size % block_size ≡ 0) where
  -- the device with the header of the journal and that of the volume
  abbrev volume_disk : Guid → Volume → Disk → Disk
  volume_disk generated v d =
      write_bytes
        (header_disk healthy fresh fresh_size memory enough sum sum_size 1
          (journal_blocks device_size) d)
        0 (volume_page sum (current_header (formatted_volume device_size generated v)))

  journal-HasPlace :
      (j : Journal) → j.volume_size ≡ device_size → HasPlace 1 (journal_blocks device_size) j
  journal-HasPlace j volume = (omega arith, omega arith, omega arith, omega arith)

  volume_disk-HoldsVolume :
      (v : Volume) (generated : Guid) (d : Disk)
      → length generated ≡ 16
      → HoldsVolume sum device_size
          (current_header (formatted_volume device_size generated v))
          (formatted 1 (journal_blocks device_size) (journal_of (set_size device_size v)))
          []
          (volume_disk generated v d)
  unfolding set_size current_header flush_header format_header
  volume_disk-HoldsVolume v generated d id =
      let j = journal_of (set_size device_size v) in
      let size = journal_blocks device_size in
      let page = header_page sum (format_header size) in
      let d' = write_bytes d (1 * block_size) page in
      written-HoldsVolume sum sum_size device_size
        (current_header (formatted_volume device_size generated v)) (formatted 1 size j) [] d'
        (record { id_fits = id; size_fits = omega arith; journal_fits = omega arith }) whole refl
        refl refl refl
        (subst (λ n. read_bytes d' (1 * block_size) n ≡ page)
          (length-header_page sum sum_size (format_header size))
          (read-write d (1 * block_size) page))
        (formatted-Commits sum 1 size j d' (journal-HasPlace j refl)) (omega arith)

  write_volume_lem :
      (v : Volume) (generated : Guid) (d : Disk)
      → (journal_of v).state ≡ JournalState.new
      → write_volume dev device_size sum true true true generated (set_size device_size v) d
        ≡ (success, formatted_volume device_size generated v, volume_disk generated v d)
  unfolding write_volume set_size
  write_volume_lem v generated d new =
      let j = journal_of (set_size device_size v) in
      rw
        (
          format_lem healthy fresh fresh_size memory enough sum sum_size 1
              (journal_blocks device_size) j d new (journal-HasPlace j refl),
          write_header_lem healthy sum device_size (formatted_volume device_size generated v) (
              header_disk healthy fresh fresh_size memory enough sum sum_size 1
                (journal_blocks device_size) d),
        )
        refl

  volume_format_lem :
      (v : Volume) (generated : Guid) (d : Disk)
      → v.state ≡ VolumeState.new
      → (journal_of v).state ≡ JournalState.new
      → volume_format dev device_size sum true true true generated v d
        ≡ (success, formatted_volume device_size generated v, volume_disk generated v d)
  unfolding volume_format
  volume_format_lem v generated d new new_journal =
      let some_bytes : (device_size == 0) ≡ false = ground arith in
      let blocks : (device_size % block_size == 0) ≡ true = ground arith in
      let checked : volume_format dev device_size sum true true true generated v d
          ≡ write_volume dev device_size sum true true true generated (set_size device_size v) d =
        subst
          (λ k.
            volume_format dev device_size sum true true true generated k d
            ≡ write_volume dev device_size sum true true true generated (set_size device_size k) d)
          (ap (λ (s : VolumeState). record v { state = s }) (sym new))
          (rw (some_bytes, blocks) refl) in
      checked ∙ write_volume_lem v generated d new_journal

  -- On a device of 81920 bytes or more and less than 2^63, whole blocks of 4096, without failures,
  -- and with memory: a new volume that is formatted can be loaded. The format succeeds, and a new
  -- volume that is loaded afterwards succeeds and runs, with the identifier that was generated and
  -- the device's size, with a journal that runs and whose log is
  -- empty; the device is as the format left it.
  pub volume_load-volume_format :
      (v v0 : Volume) (generated : Guid) (d : Disk)
      → length generated ≡ 16
      → v.state ≡ VolumeState.new
      → (journal_of v).state ≡ JournalState.new
      → v0.state ≡ VolumeState.new
      → (journal_of v0).state ≡ JournalState.new
      → let (e, v1, d') = volume_format dev device_size sum true true true generated v d in
        (e ≡ success)
        × (v' : Volume) × (volume_load dev device_size sum fresh memory true true true v0 d'
            ≡ (success, v', d'))
        × (v'.state ≡ VolumeState.running)
        × (v'.volume_id ≡ generated)
        × ((journal_of v').volume_size ≡ device_size)
        × ((journal_of v').state ≡ JournalState.running)
        × ((journal_of v').log_rb.size ≡ 0)
  unfolding current_header
  volume_load-volume_format v v0 generated d id new new_journal new0 new_journal0 =
      let (v', loaded, runs, id', size, journal_runs, empty) =
        volume_load_lem healthy fresh fresh_size memory enough sum sum_size device_size
          (current_header (formatted_volume device_size generated v)) v0
          (formatted 1 (journal_blocks device_size) (journal_of (set_size device_size v))) []
          (volume_disk generated v d) (volume_disk-HoldsVolume v generated d id) (omega arith) new0
          new_journal0 in
      rw (volume_format_lem v generated d new new_journal)
        (refl, v', loaded, runs, id', size, journal_runs, empty)
