-- ===== src/Kstor/Journal/Transaction.antt =====
-- kstor/journal.cpp: `Transaction`, the part that gathers the blocks to be written.
pub mod Chunks
use cpp_lkm.Prelude.{
  ℕ, zero, suc, ◌+◌, ◌-◌, ◌*◌, ◌/◌, ◌%◌, min, not, Bool, true, false, ltb, ◌==◌, if◌then◌else◌,
  List, [], ◌∷◌, ◌++◌, length, take, drop, add64, u32_mod, Error, success, Result, ok, err,
  invalid_value, invalid_state, no_memory, unsuccessful, reject, ◌>>=◌, ◌>>◌,
}
use cpp_lkm.Kstor.Layout.Fields.{zeros}
use cpp_lkm.Kstor.Layout.TxBlock.{Body, tx_begin, tx_data, tx_commit, TxBlock}
use cpp_lkm.Kstor.Journal.{Journal, check_position}

-- `JournalTxStateNew` and the others
pub data TxState : Type 0 where
  new commiting commited canceled finished : TxState

abbrev pub state_code : TxState → ℕ
state_code new = 1
state_code commiting = 2
state_code commited = 3
state_code canceled = 4
state_code finished = 5

-- `BeginBlock` and `CommitBlock` are made from the identifier when they are written.
-- `address` is the object's, by which the journal tells transactions apart.
pub record Transaction : Type 0 where
  pub address : ℕ
  pub state : TxState
  pub tx_id : List ℕ
  pub data_block_list : List TxBlock
  pub index_list : List ℕ
  pub commit_result : Error
  pub commit_event : Bool

-- The constructor, once it has its identifier and its two blocks.
unfoldable pub new_transaction : ℕ → List ℕ → Transaction
new_transaction address tx_id = record {
  address = address;
  state = new;
  tx_id = tx_id;
  data_block_list = [];
  index_list = [];
  commit_result = success;
  commit_event = false;
}

-- `sizeof(block->Data)`, and the whole sectors of it
abbrev pub data_capacity : ℕ
data_capacity = 4052

abbrev pub size_to_read : ℕ
size_to_read = data_capacity / 512 * 512

-- `Page::Read`: the bytes read
unfoldable pub read_page : List ℕ → ℕ → ℕ → List ℕ
read_page page len off =
    if ltb off (length page) then take (min len (length page - off)) (drop off page) else []

-- The data block of one round; `CreateTxBlock` fills the block with zeros.
unfoldable pub data_block : List ℕ → ℕ → ℕ → List ℕ → TxBlock
data_block tx_id index position bytes = record {
  tx_id = tx_id;
  body = tx_data index (length bytes) position (bytes ++ zeros (data_capacity - length bytes));
}

-- The loop of `Write` from `off`, `position` and `index` on, with `fuel` rounds at most; round `index`
-- allocates its block and its node if `memory index` holds. The fuel is shown to be enough.
unfoldable pub split_page : (ℕ → Bool) → List ℕ → List ℕ → ℕ → ℕ → ℕ → ℕ → Result (List TxBlock)
split_page memory tx_id page zero off position index = err unsuccessful
split_page memory tx_id page (suc fuel) off position index =
    let bytes = read_page page size_to_read off in
    let rest =
      split_page memory tx_id page fuel (add64 off (length bytes)) (add64 position (length bytes))
        ((index + 1) % u32_mod) in
    let round = (do
      reject (not (position % 512 == 0)) invalid_value
      reject (not (memory index)) no_memory
      blocks ← rest
      ok (data_block tx_id index position bytes ∷ blocks)) in
    if ltb off (length page) then round else ok []

-- `Write` up to the blocks that it adds
unfoldable pub write_blocks :
    Journal → (ℕ → Bool) → List ℕ → ℕ → Transaction → Result (List TxBlock)
write_blocks j memory page position tx = do
  check_position j position (length page)
  split_page memory tx.tx_id page (suc (length page)) 0 position
      (length tx.data_block_list % u32_mod)

-- `Transaction::Write`
unfoldable pub write : Journal → (ℕ → Bool) → List ℕ → ℕ → Transaction → Error × Transaction
write j memory page position tx = elim tx.state [
  | new ↦ elim (write_blocks j memory page position tx) [
    | err e ↦ (e, tx)
    | ok blocks ↦ (success, record tx { data_block_list = tx.data_block_list ++ blocks })
  ]
  | _ ↦ (invalid_state, tx)
]
