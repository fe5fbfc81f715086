-- ===== src/Kstor/Journal/Header/Formatted.antt =====
-- kstor/journal.cpp: `Format`, and the `Load` of a journal that was formatted.
use native.Mathlib.Nat.{mod-eq_of_lt}
use cpp_lkm.Kstor.Journal.Replay.{Leftover}
use cpp_lkm.Prelude.{
  ℕ, ◌+◌, ◌-◌, ◌*◌, ◌^◌, ◌%◌, ◌≤◌, ◌<◌, ◌≡◌, refl, sym, subst, Bool, true, false, List, [], ◌∷◌,
  leb, ◌==◌, length, mul64, sub64, arith, success, ok,
}
use cpp_lkm.Core.Bio.{Device, page_size, add_page}
use cpp_lkm.Core.Bio.Laws.{IsHealthy, write_all, submit_wait_result-healthy}
use cpp_lkm.Core.Disk.{Disk, read_bytes, write_bytes, read-write}
use cpp_lkm.Kstor.Journal.{Journal, JournalState, block_size}
use cpp_lkm.Kstor.Journal.Header.{flush_header, format_header, format_requests, format, load}
use cpp_lkm.Kstor.Journal.Header.Reload.{load_lem}
use cpp_lkm.Kstor.Journal.Replay.Recovery.{Commits}
use cpp_lkm.Kstor.Layout.Header.{header_page, length-header_page}

-- the journal that a formatted header describes
abbrev pub formatted : ℕ → ℕ → Journal → Journal
formatted start size j = record {
  start = start;
  size = size;
  volume_size = j.volume_size;
  log_rb = record { start_index = 0; end_index = 0; size = 0; capacity = sub64 size 1 };
  state = j.state;
}

-- where a journal may be formatted: behind the header of a volume of less than 2^63 bytes
abbrev pub HasPlace : ℕ → ℕ → Journal → Type 0
HasPlace start size j =
    (1 ≤ start)
    × (2 ≤ size)
    × ((start + size) * block_size ≤ j.volume_size)
    × (j.volume_size < 2 ^ 63)

pub formatted-Commits :
    (sum : List ℕ → List ℕ) (start size : ℕ) (j : Journal) (d : Disk)
    → HasPlace start size j
    → Commits sum (formatted start size j) d []
formatted-Commits sum start size j d place =
    let capacity : sub64 size 1 ≡ size - 1 = omega arith in
    record {
      ready = record {
        ring = record {
          small = omega arith;
          start_in = omega arith;
          size_in = omega arith;
          end_at = sym (mod-eq_of_lt {n = 0} {m = sub64 size 1} (omega arith));
        };
        placed = record {
          volume_small = place.3;
          start_in = place.0;
          size_in = place.1;
          end_in = place.2;
          log_size = omega arith;
        };
      };
      held = tt;
      replayable = tt;
    }

module _ {dev : Device} (healthy : IsHealthy dev) (fresh : Leftover)
    (fresh_size : length fresh.page ≡ page_size) (memory : ℕ → Bool)
    (enough : (n : ℕ) → memory n ≡ true) (sum : List ℕ → List ℕ)
    (sum_size : (bytes : List ℕ) → length (sum bytes) ≡ 8) where
  -- the device with the header
  abbrev pub header_disk : ℕ → ℕ → Disk → Disk
  header_disk start size d =
      write_bytes d (start * block_size) (header_page sum (format_header size))

  format_requests_lem :
      (start size : ℕ) (j : Journal)
      → j.state ≡ JournalState.new
      → HasPlace start size j
      → format_requests dev sum true start size j
        ≡ ok (
            record { position = start * block_size; bytes = header_page sum (format_header size) }
            ∷ [])
  unfolding format_requests add_page
  format_requests_lem start size j new place =
      let grown : leb size 1 ≡ false = ground arith in
      let exact : mul64 start block_size ≡ start * block_size = omega arith in
      let sector : (start * block_size % 512 == 0) ≡ true = ground arith in
      rw (grown, new) (rw (exact, sector) refl)

  pub format_lem :
      (start size : ℕ) (j : Journal) (d : Disk)
      → j.state ≡ JournalState.new
      → HasPlace start size j
      → format dev sum true start size j d
        ≡ (success, record j { start = start; size = size }, header_disk start size d)
  unfolding format write_all
  format_lem start size j d new place =
      rw (format_requests_lem start size j new place, format)
        (rw (
          submit_wait_result-healthy healthy true
            (record { position = start * block_size; bytes = header_page sum (format_header size) }
              ∷ [])
            d))

  -- On a device without failures and with memory, a new journal that is formatted where there is
  -- place for it behind the volume's header can be loaded: it runs, its log is empty, and the
  -- device is as the format left it.
  pub load-format :
      (start size : ℕ) (j : Journal) (d : Disk)
      → j.state ≡ JournalState.new
      → HasPlace start size j
      → let (e, j1, d') = format dev sum true start size j d in
        (e ≡ success)
        × (j' : Journal) × (load dev sum fresh memory true true start j1 d' ≡ (success, j', d'))
        × (j'.state ≡ JournalState.running)
        × (j'.log_rb.size ≡ 0)
  unfolding flush_header format_header
  load-format start size j d new place =
      let d' = header_disk start size d in
      let written : read_bytes d' (start * block_size) page_size
          ≡ header_page sum (format_header size) =
        subst (λ n. read_bytes d' (start * block_size) n ≡ header_page sum (format_header size))
          (length-header_page sum sum_size (format_header size))
          (read-write d (start * block_size) (header_page sum (format_header size))) in
      let (j', loaded, runs, empty, _, _) =
        load_lem healthy fresh fresh_size memory enough sum sum_size (formatted start size j)
          (record j { start = start; size = size }) [] d'
          (formatted-Commits sum start size j d' place) (omega arith) written new refl in
      rw (format_lem start size j d new place) (refl, j', loaded, runs, empty)
