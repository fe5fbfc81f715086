-- ===== src/Kstor/Volume/Mount.antt =====
-- kstor/volume.cpp: `Format`, `Load` and `Unload` of a volume, over those of its journal.
pub mod Reload
pub mod Formatted
pub mod Unloaded
use cpp_lkm.Prelude.{
  ℕ, ◌/◌, ◌%◌, Bool, true, false, not, List, [], ◌==◌, ◌||◌, if◌then◌else◌, Error, success, is_ok,
  Result, ok, err, invalid_state, invalid_value, no_memory, bad_size, reject, ◌>>=◌, ◌>>◌,
}
use cpp_lkm.Core.Bio.{Device, page_size, add_page, submit_wait_result}
use cpp_lkm.Core.Disk.{Disk}
use cpp_lkm.Kstor.Guid.{Guid}
use cpp_lkm.Kstor.Journal.{Journal, block_size}
use cpp_lkm.Kstor.Journal.Header.{format, load}
use cpp_lkm.Kstor.Journal.Replay.{Leftover}
use cpp_lkm.Kstor.Journal.Session.{Session, unload}
use cpp_lkm.Kstor.Journal.Transaction.{Transaction}
use cpp_lkm.Kstor.Layout.VolumeHeader.{VolumeHeader, volume_page, read_volume_header}
use cpp_lkm.Kstor.Volume.{Volume, VolumeState}

-- The volume with another value of its journal's members.
abbrev pub with_journal : Journal → Volume → Volume
with_journal j v = record v {
  session = record v.session { log = record v.session.log { journal = j } };
}

abbrev pub journal_of : Volume → Journal
journal_of v = v.session.log.journal

-- `Size = size;`
unfoldable pub set_size : ℕ → Volume → Volume
set_size size v = with_journal (record (journal_of v) { volume_size = size }) v

-- The header of a volume as it is.
unfoldable pub current_header : Volume → VolumeHeader
current_header v = record {
  volume_id = v.volume_id;
  size = (journal_of v).volume_size;
  journal_size = (journal_of v).size;
}

-- `dev` is the block device of `device_size` bytes, and `sum` is `XXHash::Sum`.
module _ (dev : Device) (device_size : ℕ) (sum : List ℕ → List ℕ) where
  -- The header written at the start of the device, behind a barrier.
  unfoldable pub write_header : Bool → Volume → Disk → Error × Disk
  write_header memory v d = elim (add_page memory (volume_page sum (current_header v)) 0 0 []) [
    | err e ↦ (e, d)
    | ok bios ↦ submit_wait_result dev true bios d
  ]

  -- `Format` behind its checks. `journal_memory`, `page_memory` and `memory` say whether the
  -- allocations of the journal's header, of the page and of its request succeed, and `generated` is
  -- the identifier after `Generate`, whose error is dropped.
  unfoldable pub write_volume : Bool → Bool → Bool → Guid → Volume → Disk → Error × Volume × Disk
  write_volume journal_memory page_memory memory generated v d =
      let (e, j, d1) =
        format dev sum journal_memory 1 (device_size / 10 / block_size) (journal_of v) d in
      let v1 = with_journal j v in
      if not (is_ok e)
      then (e, v1, d1)
      else if not page_memory
      then (no_memory, v1, d1)
      else let v2 : Volume = record v1 { volume_id = generated } in
        let (e', d2) = write_header memory v2 d1 in (e', v2, d2)

  -- `Volume::Format`
  unfoldable pub volume_format : Bool → Bool → Bool → Guid → Volume → Disk → Error × Volume × Disk
  volume_format journal_memory page_memory memory generated v d = elim v.state [
    | VolumeState.new ↦
        if (device_size == 0) || not (device_size % block_size == 0)
        then (invalid_value, v, d)
        else write_volume journal_memory page_memory memory generated (set_size device_size v) d
    | _ ↦ (invalid_state, v, d)
  ]

  -- `Load` up to the journal: the header, if it can be read and is accepted.
  unfoldable pub open_volume : Bool → Disk → Result VolumeHeader
  open_volume page_memory d = do
    reject (not page_memory) no_memory
    page ← dev.read d 0 page_size
    h ← read_volume_header sum page
    reject (not (h.size % block_size == 0)) bad_size
    reject ((h.size == 0) || not (h.size == device_size)) bad_size
    ok h

  -- `Load` from the journal on; the arguments before the header are those of the journal's `Load`.
  unfoldable pub mount :
      Leftover → (ℕ → Bool) → Bool → Bool → VolumeHeader → Volume → Disk → Error × Volume × Disk
  mount fresh memory journal_memory thread h v d =
      let (e, j, d') = load dev sum fresh memory journal_memory thread 1 (journal_of v) d in
      let v' = with_journal j v in
      if not (is_ok e)
      then (e, v', d')
      else if not (j.size == h.journal_size)
      then (bad_size, v', d')
      else (success, record v' { volume_id = h.volume_id; state = VolumeState.running }, d')

  -- `Volume::Load`; `page_memory` says whether the page and its request can be allocated.
  unfoldable pub volume_load :
      Leftover → (ℕ → Bool) → Bool → Bool → Bool → Volume → Disk → Error × Volume × Disk
  volume_load fresh memory page_memory journal_memory thread v d = elim v.state [
    | VolumeState.new ↦ elim (open_volume page_memory d) [
      | err e ↦ (e, v, d)
      | ok h ↦ mount fresh memory journal_memory thread h (set_size h.size v) d
    ]
    | _ ↦ (invalid_state, v, d)
  ]

  -- `Volume::Unload`, with the transactions that the journal cancels.
  unfoldable pub volume_unload :
      (ℕ → Bool) → Bool → Bool → Bool → Volume → Disk → Error × List Transaction × Volume × Disk
  volume_unload memory journal_memory page_memory request_memory v d = elim v.state [
    | VolumeState.stopped ↦ (success, [], v, d)
    | VolumeState.running ↦
        let (e, txs, s, d1) = unload dev sum memory journal_memory v.session d in
        let v1 : Volume = record v { state = VolumeState.stopping; session = s } in
        if not (is_ok e)
        then (e, txs, v1, d1)
        else if not page_memory
        then (no_memory, txs, v1, d1)
        else let (e', d2) = write_header request_memory v1 d1 in
          (e', txs, record v1 { state = VolumeState.stopped }, d2)
    | _ ↦ (invalid_state, [], v, d)
  ]
