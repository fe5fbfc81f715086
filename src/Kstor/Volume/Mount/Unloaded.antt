-- ===== src/Kstor/Volume/Mount/Unloaded.antt =====
-- kstor/volume.cpp: `Unload` of a running volume, and a `Load` afterwards.
use cpp_lkm.Kstor.Journal.Replay.{Leftover}
use cpp_lkm.Prelude.{
  ℕ, ◌*◌, ◌%◌, ◌<◌, ◌≡◌, refl, sym, ap, ◌∙◌, subst, Bool, true, List, [], ◌∷◌, length, arith,
  success, Error,
}
use cpp_lkm.Core.Bio.{Io, Device, page_size}
use cpp_lkm.Core.Bio.Laws.{IsHealthy, write_all}
use cpp_lkm.Core.Disk.{Disk, write_bytes}
use cpp_lkm.Kstor.Journal.{Journal, JournalState, block_size}
use cpp_lkm.Kstor.Journal.Header.{flush_header}
use cpp_lkm.Kstor.Journal.Positions.{IsPlaced}
use cpp_lkm.Kstor.Journal.Replay.Recovery.{Commits, apply_all}
use cpp_lkm.Kstor.Journal.Session.{Session, cancel, cancel_all, compact_log, flush, unload}
use cpp_lkm.Kstor.Journal.Session.Batch.{flush_lem}
use cpp_lkm.Kstor.Journal.Session.Durable.{header_written}
use cpp_lkm.Kstor.Journal.Transaction.{Transaction}
use cpp_lkm.Kstor.Layout.Header.{header_page}
use cpp_lkm.Kstor.Layout.VolumeHeader.{volume_page}
use cpp_lkm.Kstor.Volume.{Volume, VolumeState}
use cpp_lkm.Kstor.Volume.Mount.{
  journal_of, current_header, write_header, volume_unload, volume_load,
}
use cpp_lkm.Kstor.Volume.Mount.Reload.{
  HoldsVolume, written-HoldsVolume, write_header_lem, volume_load_lem,
}

-- canceling leaves the journal's members alone
cancel_all-journal :
    (txs : List Transaction) (s : Session) → (cancel_all txs s).1.log.journal ≡ s.log.journal
unfolding cancel_all cancel
cancel_all-journal [] s = refl
cancel_all-journal (tx ∷ txs) s = cancel_all-journal txs (cancel tx s).1

-- the session that `Unload` of the journal flushes
abbrev quiet : Session → Session
quiet s =
    let s' = (cancel_all s.tx_list (record s { tx_list = [] })).1 in
    record s' { log = record s'.log { bios = [] } }

quiet-journal : (s : Session) → (quiet s).log.journal ≡ s.log.journal
quiet-journal s = cancel_all-journal s.tx_list (record s { tx_list = [] })

module _ {dev : Device} (healthy : IsHealthy dev) (fresh : Leftover)
    (fresh_size : length fresh.page ≡ page_size) (memory : ℕ → Bool)
    (enough : (n : ℕ) → memory n ≡ true) (sum : List ℕ → List ℕ)
    (sum_size : (bytes : List ℕ) → length (sum bytes) ≡ 8) where
  -- the session is flushed, and its header is on the device
  flush-quiet :
      (s : Session) (d : Disk)
      → IsPlaced s.log.journal
      → (s' : Session) × (flush dev sum memory true (quiet s) d ≡ (
        success,
        s',
        write_bytes d
            (s.log.journal.start * block_size)
            (header_page sum (flush_header s.log.journal)),
      ))
        × (s'.log.journal.size ≡ s.log.journal.size)
        × (s'.log.journal.volume_size ≡ s.log.journal.volume_size)
  unfolding compact_log write_all
  flush-quiet s d placed =
      let same = quiet-journal s in
      let j = (quiet s).log.journal in
      let io : Io = record {
        position = j.start * block_size;
        bytes = header_page sum (flush_header j);
      } in
      (
        compact_log (record (quiet s) { log = record (quiet s).log { bios = io ∷ [] } }),
        flush_lem healthy memory enough sum sum_size (quiet s) d (subst IsPlaced (sym same) placed)
            ∙ ap
                (λ k. (
                  success,
                  compact_log (record (quiet s) { log = record (quiet s).log { bios = io ∷ [] } }),
                  write_bytes d (k.start * block_size) (header_page sum (flush_header k)),
                ))
                same,
        ap (λ (k : Journal). k.size) same,
        ap (λ (k : Journal). k.volume_size) same,
      )

  -- what `Unload` of a running journal does
  abbrev unloaded : Session → Disk → Error × List Transaction × Session × Disk
  unloaded s d =
      let (e, s'', d') = flush dev sum memory true (quiet s) d in
      let stopped : Journal = record s''.log.journal { state = JournalState.stopped } in
      (
        e,
        (cancel_all s.tx_list (record s { tx_list = [] })).0,
        record s'' { log = record s''.log { journal = stopped } },
        d',
      )

  unload_running :
      (s : Session) (d : Disk)
      → s.log.journal.state ≡ JournalState.running
      → unload dev sum memory true s d ≡ unloaded s d
  unfolding unload
  unload_running s d runs =
      subst (λ (k : Session). unload dev sum memory true k d ≡ unloaded k d)
        (ap
          (λ (state : JournalState). record s {
            log = record s.log { journal = record s.log.journal { state = state } };
          })
          (sym runs))
        refl

  -- `Unload` of a running journal writes its header, and keeps its sizes
  unload_lem :
      (s : Session) (d : Disk)
      → s.log.journal.state ≡ JournalState.running
      → IsPlaced s.log.journal
      → (txs : List Transaction) × (s' : Session) × (unload dev sum memory true s d ≡ (
        success,
        txs,
        s',
        write_bytes d
            (s.log.journal.start * block_size)
            (header_page sum (flush_header s.log.journal)),
      ))
        × (s'.log.journal.size ≡ s.log.journal.size)
        × (s'.log.journal.volume_size ≡ s.log.journal.volume_size)
  unload_lem s d runs placed =
      let (s', flushed, size, volume) = flush-quiet s d placed in
      let stopped : Journal = record s'.log.journal { state = JournalState.stopped } in
      (
        (cancel_all s.tx_list (record s { tx_list = [] })).0,
        record s' { log = record s'.log { journal = stopped } },
        unload_running s d runs ∙ rw flushed refl,
        size,
        volume,
      )

  -- what `Unload` of a running volume does behind the journal's part
  abbrev stopped : ℕ → List Transaction → Volume → Disk → Error × List Transaction × Volume × Disk
  stopped device_size txs v d =
      let (e, d') = write_header dev device_size sum true v d in
      (e, txs, record v { state = VolumeState.stopped }, d')

  -- the volume between its journal's `Unload` and its own end
  abbrev stopping : Session → Volume → Volume
  stopping s v = record v { state = VolumeState.stopping; session = s }

  volume_unload_running :
      (device_size : ℕ) (v : Volume) (txs : List Transaction) (s : Session) (d d1 : Disk)
      → v.state ≡ VolumeState.running
      → unload dev sum memory true v.session d ≡ (success, txs, s, d1)
      → volume_unload dev device_size sum memory true true true v d
        ≡ stopped device_size txs (stopping s v) d1
  unfolding volume_unload
  volume_unload_running device_size v txs s d d1 runs done =
      subst
        (λ (k : Volume).
          volume_unload dev device_size sum memory true true true k d
          ≡ stopped device_size txs (stopping s k) d1)
        (ap (λ (state : VolumeState). record v { state = state }) (sym runs))
        (rw (done, volume_unload) refl)

  -- On a device without failures and with memory: a running volume that fills the device, whose
  -- journal runs behind the volume's header, and holds committed transactions in a log that is not
  -- full, is unloaded with success and stopped. A new volume that is loaded from the device
  -- afterwards succeeds and runs with the same identifier, and has applied the data of the
  -- transactions, in order; its journal's log is empty.
  pub volume_load-volume_unload :
      (device_size : ℕ) (v v0 : Volume) (txs : List Transaction) (d : Disk)
      → v.state ≡ VolumeState.running
      → (journal_of v).state ≡ JournalState.running
      → length v.volume_id ≡ 16
      → device_size % block_size ≡ 0
      → (journal_of v).volume_size ≡ device_size
      → (journal_of v).start ≡ 1
      → Commits sum (journal_of v) d txs
      → (journal_of v).log_rb.size < (journal_of v).log_rb.capacity
      → v0.state ≡ VolumeState.new
      → (journal_of v0).state ≡ JournalState.new
      → let (e, canceled, v1, d') = volume_unload dev device_size sum memory true true true v d in
        (e ≡ success)
        × (v1.state ≡ VolumeState.stopped)
        × (v' : Volume) × (volume_load dev device_size sum fresh memory true true true v0 d'
            ≡ (success, v', apply_all txs d'))
        × (v'.state ≡ VolumeState.running)
        × (v'.volume_id ≡ v.volume_id)
        × ((journal_of v').log_rb.size ≡ 0)
  unfolding current_header
  volume_load-volume_unload device_size v v0 txs d runs journal_runs id whole volume place commits
        room new0 new_journal0 =
      let j = journal_of v in
      let placed = commits.ready.placed in
      let (txs', s, done, size, same_volume) = unload_lem v.session d journal_runs placed in
      let (commits', written) = header_written healthy memory enough sum sum_size j d txs commits in
      let v1 = stopping s v in
      let d1 = write_bytes d (j.start * block_size) (header_page sum (flush_header j)) in
      let h = current_header v1 in
      let held : HoldsVolume sum device_size h j txs (write_bytes d1 0 (volume_page sum h)) =
        written-HoldsVolume sum sum_size device_size h j txs d1
          (record { id_fits = id; size_fits = omega arith; journal_fits = omega arith }) whole
          (same_volume ∙ volume) size place volume written commits' room in
      let (v', loaded, runs', id', _, _, empty) =
        volume_load_lem healthy fresh fresh_size memory enough sum sum_size device_size h v0 j txs
          (write_bytes d1 0 (volume_page sum h)) held (omega arith) new0 new_journal0 in
      rw
        (
          volume_unload_running device_size v txs' s d d1 runs done,
          write_header_lem healthy sum device_size v1 d1,
        )
        (refl, refl, v', loaded, runs', id', empty)
