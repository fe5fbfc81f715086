-- ===== src/Kstor/Layout/TxBlock.antt =====
-- kstor/api.h, kstor/journal.cpp: `JournalTxBlock` and its three readings: in memory with its fields in the processor's order, and
-- as the page that the journal writes and reads. The hash is that of `XXHash::Sum`, a parameter.
use cpp_lkm.Prelude.{
  ℕ, ◌<◌, ◌≡◌, not, List, ◌++◌, length, ◌==◌, if◌then◌else◌, Result, ok, err, bad_size,
  data_corrupt, reject, ◌>>=◌, ◌>>◌, u32_mod, u64_mod,
}
use cpp_lkm.Core.Bytes.{cpu_to_le32, cpu_to_le64, le32_to_cpu, le64_to_cpu}
use cpp_lkm.Core.Memory.{array_equal}
use cpp_lkm.Kstor.Layout.Fields.{field, zeros}

-- What the block's `Type` selects, with the fields that it has.
pub data Body : Type 0 where
  tx_begin : Body
  tx_data : (index data_size position : ℕ) (bytes : List ℕ) → Body
  tx_commit : (state block_count time : ℕ) → Body

pub record TxBlock : Type 0 where
  pub tx_id : List ℕ
  pub body : Body

-- `JournalBlockTypeTxBegin`, `JournalBlockTypeTxData`, `JournalBlockTypeTxCommit`
abbrev pub block_type : Body → ℕ
block_type tx_begin = 1
block_type (tx_data index data_size position bytes) = 2
block_type (tx_commit state block_count time) = 3

-- the bytes between `Type` and `Hash`
unfoldable pub rest_image : Body → List ℕ
rest_image tx_begin = zeros 4068
rest_image (tx_data index data_size position bytes) =
    cpu_to_le32 index ++ (cpu_to_le32 data_size ++ (cpu_to_le64 position ++ bytes))
rest_image (tx_commit state block_count time) =
    cpu_to_le32 state ++ (cpu_to_le32 block_count ++ (cpu_to_le64 time ++ zeros 4052))

-- the bytes before `Hash`
unfoldable pub image : TxBlock → List ℕ
image b = b.tx_id ++ (cpu_to_le32 (block_type b.body) ++ rest_image b.body)

-- The sizes of the fields.
abbrev pub BodyFits : Body → Type 0
BodyFits tx_begin = Unit {0}
BodyFits (tx_data index data_size position bytes) =
    (index < u32_mod) × (data_size < u32_mod) × (position < u64_mod) × (length bytes ≡ 4052)
BodyFits (tx_commit state block_count time) =
    (state < u32_mod) × (block_count < u32_mod) × (time < u64_mod)

pub record Fits (b : TxBlock) : Type 0 where
  pub id_size : length b.tx_id ≡ 16
  pub body_fits : BodyFits b.body

-- the body that a page of some type holds
unfoldable pub read_body : ℕ → List ℕ → Result Body
read_body type page =
    if type == 1
    then ok tx_begin
    else if type == 2
    then ok (
        tx_data (le32_to_cpu (field 20 4 page)) (le32_to_cpu (field 24 4 page))
          (le64_to_cpu (field 28 8 page)) (field 36 4052 page))
    else if type == 3
    then ok (
        tx_commit (le32_to_cpu (field 20 4 page)) (le32_to_cpu (field 24 4 page))
          (le64_to_cpu (field 28 8 page)))
    else err data_corrupt

module _ (sum : List ℕ → List ℕ) where
  -- `WriteTxBlockPrepare`, with the `page->Write` before it: the page of a block in memory, whose
  -- `Type` is one of the three.
  unfoldable pub write_tx_block_prepare : TxBlock → List ℕ
  write_tx_block_prepare b = image b ++ sum (image b)

  -- `ReadTxBlockComplete`, with the `page->Read` behind it
  unfoldable pub read_tx_block_complete : List ℕ → Result TxBlock
  read_tx_block_complete page = do
    reject (not (length page == 4096)) bad_size
    reject (not (array_equal (sum (field 0 4088 page)) (field 4088 8 page))) data_corrupt
    body ← read_body (le32_to_cpu (field 16 4 page)) page
    ok (record { tx_id = field 0 16 page; body = body })
