-- ===== src/Core/Bio.antt =====
-- core/bio.h: a list of write requests, built by `AddIo` and carried out by `SubmitWaitResult`. The
-- block layer is the record `Device`. Allocation enters as a flag of each call.

pub mod Laws
use cpp_lkm.Prelude.{
  ℕ, ◌%◌, Bool, true, false, not, List, [], ◌∷◌, ◌++◌, ltb, ◌==◌, if◌then◌else◌, length, take,
  Error, success, is_ok, Result, ok, err, invalid_value, no_memory, overflow, reject, ◌>>=◌, ◌>>◌,
}
use cpp_lkm.Core.Disk.{Disk}

-- `get_page_size()`
abbrev pub page_size : ℕ
page_size = 4096

-- A request: a byte position of the device, and what is written there.
pub record Io : Type 0 where
  pub position : ℕ
  pub bytes : List ℕ

-- The kernel's block layer: a bio that is submitted and waited for.
pub record Device : Type 0 where
  pub write : Disk → Io → Error × Disk
  pub read : Disk → ℕ → ℕ → Result (List ℕ)

-- `AddIo(page, position, true, len)`; a length of 0 stands for the whole page.
unfoldable pub add_page : Bool → List ℕ → ℕ → ℕ → List Io → Result (List Io)
add_page allocated page position len list = do
  reject (not (position % 512 == 0)) invalid_value
  reject (not allocated) no_memory
  let bytes = if len == 0 then page else take len page
  ok (list ++ (record { position = position; bytes = bytes } ∷ []))

-- `Page::Write` at offset 0: the bytes of the page that the new ones do not cover stay.
unfoldable pub overwrite : List ℕ → List ℕ → List ℕ
overwrite old [] = old
overwrite [] (b ∷ new) = []
overwrite (a ∷ old) (b ∷ new) = b ∷ overwrite old new

-- `AddIo(data, dataSize, position, true)`: `fresh` is what a newly allocated page holds.
unfoldable pub add_io : Bool → List ℕ → List ℕ → ℕ → ℕ → List Io → Result (List Io)
unfolding add_page
add_io allocated fresh bytes data_size position list = do
  reject (not allocated) no_memory
  reject (ltb page_size data_size) overflow
  add_page allocated (overwrite fresh (take data_size bytes)) position data_size list

-- `Submit` and `Wait`: every request is carried out, and the first error is kept.
unfoldable pub submit : Device → List Io → Error → Disk → Error × Disk
submit dev [] result d = (result, d)
submit dev (io ∷ list) result d =
    let (e, d') = dev.write d io in submit dev list (if is_ok result then e else result) d'

-- `SubmitWait(true)` from its last but one request on: the last waits for the others' success.
unfoldable pub submit_last : Device → List Io → Error → Disk → Error × Disk
submit_last dev [] result d = (result, d)
submit_last dev (io ∷ []) result d =
    let written = dev.write d io in if is_ok result then written else (result, d)
submit_last dev (io ∷ next ∷ list) result d =
    let (e, d') = dev.write d io in
    submit_last dev (next ∷ list) (if is_ok result then e else result) d'

-- `SubmitWaitResult(preflushFua)`
unfoldable pub submit_wait_result : Device → Bool → List Io → Disk → Error × Disk
unfolding submit submit_last
submit_wait_result dev preflush_fua list d =
    if preflush_fua then submit_last dev list success d else submit dev list success d
