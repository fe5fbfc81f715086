-- ===== src/Kstor/Journal.antt =====
-- kstor/journal.cpp, kstor/journal.h: the write-ahead log of a volume. Block 0 of the volume is its
-- header; the journal has `size` blocks from `start` on, its own header first and then the log.
pub mod Positions
pub mod Transaction
pub mod Log
pub mod Replay
pub mod Header
pub mod Session
use cpp_lkm.Prelude.{
  ℕ, ◌%◌, ◌/◌, not, Bool, true, false, ltb, leb, ◌==◌, ◌||◌, if◌then◌else◌, add64, sub64, mul64,
  Error, Result, ok, err, invalid_value, overlap, overflow, reject, ◌>>=◌, ◌>>◌,
}
use cpp_lkm.Core.Memory.{check_intersection}
use cpp_lkm.Core.RingBuffer.{RingBuffer}

-- `JournalStateStopping` has the value of `JournalStateStopped`.
pub data JournalState : Type 0 where
  new replaying running stopped : JournalState

-- The members that the log needs: `volume_size` is `VolumeRef.GetSize()`.
pub record Journal : Type 0 where
  pub start : ℕ
  pub size : ℕ
  pub volume_size : ℕ
  pub log_rb : RingBuffer
  pub state : JournalState

-- `GetBlockSize()`: a volume's blocks are pages.
abbrev pub block_size : ℕ
block_size = 4096

unfoldable pub check_position : Journal → ℕ → ℕ → Result (Unit {0})
check_position j position size = do
  reject (not (position % 512 == 0)) invalid_value
  reject (ltb position block_size) overlap
  reject
      (check_intersection position (add64 position size) (mul64 j.start block_size)
        (mul64 (add64 j.start j.size) block_size))
      overlap
  reject (leb j.volume_size position) overflow
  reject (ltb j.volume_size (add64 position size)) overflow

unfoldable pub index_to_position : Journal → ℕ → Result ℕ
index_to_position j index =
    if leb j.size (add64 index 1)
    then err overflow
    else ok (mul64 (add64 (add64 j.start 1) index) block_size)

unfoldable pub position_to_index : Journal → ℕ → Result ℕ
position_to_index j position =
    if not (position % block_size == 0)
    then err invalid_value
    else let local_index = position / block_size in
      if ltb local_index (add64 j.start 1) || leb (add64 j.start j.size) position
      then err overflow
      else ok (sub64 local_index (add64 j.start 1))
