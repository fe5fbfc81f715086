-- ===== src/Kstor/Tests/Volumes.antt =====
-- kstor/volume.cpp on concrete inputs: a volume that is formatted, one that is loaded, and one that is
-- unloaded.
use cpp_lkm.Prelude.{◌≡◌, refl, true, [], arith, success}
use cpp_lkm.Core.Disk.{Disk, write_bytes}
use cpp_lkm.Kstor.Journal.{JournalState}
use cpp_lkm.Kstor.Layout.Fields.{zeros, length-zeros}
use cpp_lkm.Kstor.Layout.VolumeHeader.{VolumeHeader, volume_page}
use cpp_lkm.Kstor.Tests.{
  device, device-IsHealthy, plenty, plenty-enough, sum, sum_size, fresh, journal, blank,
  new_journal, header_disk, header_disk-read, header_disk-Commits, journal-Commits,
}
use cpp_lkm.Kstor.Tests.Chunks.{volume}
use cpp_lkm.Kstor.Volume.{Volume, VolumeState}
use cpp_lkm.Kstor.Volume.Mount.{with_journal, journal_of, volume_format, volume_load, volume_unload}
use cpp_lkm.Kstor.Volume.Mount.Formatted.{volume_load-volume_format}
use cpp_lkm.Kstor.Volume.Mount.Reload.{written-HoldsVolume, volume_load_lem}
use cpp_lkm.Kstor.Volume.Mount.Unloaded.{volume_load-volume_unload}

abbrev new_volume : Volume
new_volume = record (with_journal new_journal volume) { state = VolumeState.new }

abbrev header : VolumeHeader
header = record { volume_id = zeros 16; size = 65536; journal_size = 8 }

-- the device with both headers
abbrev volume_disk : Disk
volume_disk = write_bytes header_disk 0 (volume_page sum header)

volume_load_lem_example :
    (v' : Volume) × (volume_load device 65536 sum fresh plenty true true true new_volume volume_disk
      ≡ (success, v', volume_disk))
    × (v'.state ≡ VolumeState.running)
    × (v'.volume_id ≡ zeros 16)
    × ((journal_of v').volume_size ≡ 65536)
    × ((journal_of v').state ≡ JournalState.running)
    × ((journal_of v').log_rb.size ≡ 0)
volume_load_lem_example =
    volume_load_lem device-IsHealthy fresh (length-zeros 4096) plenty plenty-enough sum sum_size
      65536 header new_volume journal [] volume_disk
      (written-HoldsVolume sum sum_size 65536 header journal [] header_disk
        (record { id_fits = length-zeros 16; size_fits = omega arith; journal_fits = omega arith })
        refl refl refl refl refl header_disk-read header_disk-Commits (omega arith))
      (omega arith) refl refl

volume_load-volume_format_example :
    let (e, v1, d') = volume_format device 81920 sum true true true (zeros 16) new_volume blank in
    (e ≡ success)
    × (v' : Volume) × (volume_load device 81920 sum fresh plenty true true true new_volume d'
        ≡ (success, v', d'))
    × (v'.state ≡ VolumeState.running)
    × (v'.volume_id ≡ zeros 16)
    × ((journal_of v').volume_size ≡ 81920)
    × ((journal_of v').state ≡ JournalState.running)
    × ((journal_of v').log_rb.size ≡ 0)
volume_load-volume_format_example =
    volume_load-volume_format device-IsHealthy fresh (length-zeros 4096) plenty plenty-enough sum
      sum_size 81920 (omega arith) (omega arith) refl new_volume new_volume (zeros 16) blank
      (length-zeros 16) refl refl refl refl

volume_load-volume_unload_example :
    let (e, canceled, v1, d') = volume_unload device 65536 sum plenty true true true volume blank in
    (e ≡ success)
    × (v1.state ≡ VolumeState.stopped)
    × (v' : Volume) × (volume_load device 65536 sum fresh plenty true true true new_volume d'
        ≡ (success, v', d'))
    × (v'.state ≡ VolumeState.running)
    × (v'.volume_id ≡ zeros 16)
    × ((journal_of v').log_rb.size ≡ 0)
volume_load-volume_unload_example =
    volume_load-volume_unload device-IsHealthy fresh (length-zeros 4096) plenty plenty-enough sum
      sum_size 65536 volume new_volume [] blank refl refl (length-zeros 16) refl refl refl
      journal-Commits (omega arith) refl refl
