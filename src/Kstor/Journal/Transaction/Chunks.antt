-- ===== src/Kstor/Journal/Transaction/Chunks.antt =====
-- kstor/journal.cpp: the blocks that `Transaction::Write` makes of a page.
use cpp_lkm.Prelude.{
  ℕ, suc, ◌+◌, ◌-◌, ◌%◌, ◌≤◌, ◌<◌, ◌≡◌, ap, ◌∙◌, Bool, true, false, List, [], ◌∷◌, ◌++◌, length,
  take, drop, add64, u32_mod, u64_mod, ok, arith, min, length-take, length-drop, take-all, ltb,
  ◌>>=◌, success,
}
use cpp_lkm.Kstor.Journal.{Journal, check_position}
use cpp_lkm.Kstor.Layout.TxBlock.{TxBlock}
use cpp_lkm.Kstor.Journal.Transaction.{
  TxState, Transaction, split_page, write_blocks, read_page, data_block, size_to_read, write,
}

module _ (memory : ℕ → Bool) (tx_id page : List ℕ) where
  round :
      (fuel off position index : ℕ)
      → off < length page
      → position % 512 ≡ 0
      → memory index ≡ true
      → let bytes = read_page page size_to_read off in
        split_page memory tx_id page (suc fuel) off position index ≡ (
          split_page memory tx_id page fuel
            (add64 off (length bytes))
            (add64 position (length bytes))
            ((index + 1) % u32_mod)
          >>= λ blocks. ok (data_block tx_id index position bytes ∷ blocks))
  unfolding split_page
  round fuel off position index inside sector enough =
      let more : ltb off (length page) ≡ true = ground arith in rw (more, sector, enough)

  finish :
      (fuel off position index : ℕ)
      → length page ≤ off
      → split_page memory tx_id page (suc fuel) off position index ≡ ok []
  unfolding split_page
  finish fuel off position index done =
      let no_more : ltb off (length page) ≡ false = ground arith in rw no_more

read_page-first :
    (page : List ℕ) → length page ≡ 4096 → read_page page size_to_read 0 ≡ take size_to_read page
unfolding read_page
read_page-first page h =
    let more : ltb 0 (length page) ≡ true = ground arith in
    let whole : min size_to_read (length page - 0) ≡ size_to_read = omega arith in rw (more, whole)

read_page-second :
    (page : List ℕ)
    → length page ≡ 4096
    → read_page page size_to_read size_to_read ≡ drop size_to_read page
unfolding read_page
read_page-second page h =
    let more : ltb size_to_read (length page) ≡ true = ground arith in
    let whole : min size_to_read (length page - size_to_read) ≡ 512 = omega arith in
    rw (more, whole)
      (take-all 512 (drop size_to_read page) (omega (arith, length-drop size_to_read page)))

-- the two blocks of a page: seven sectors and the last one
abbrev pub two_blocks : List ℕ → List ℕ → ℕ → ℕ → List TxBlock
two_blocks tx_id page position index =
    data_block tx_id index position (take size_to_read page)
    ∷ data_block tx_id (index + 1) (position + size_to_read) (drop size_to_read page)
    ∷ []

split_page-two :
    (memory : ℕ → Bool) (tx_id page : List ℕ) (fuel position index : ℕ)
    → length page ≡ 4096
    → position % 512 ≡ 0
    → position + 4096 < u64_mod
    → index + 2 < u32_mod
    → memory index ≡ true
    → memory (index + 1) ≡ true
    → split_page memory tx_id page (suc (suc (suc fuel))) 0 position index
      ≡ ok (two_blocks tx_id page position index)
split_page-two memory tx_id page fuel position index long sector small count m0 m1 =
    let len1 : length (take size_to_read page) ≡ size_to_read =
      omega (arith, length-take size_to_read page) in
    let len2 : length (drop size_to_read page) ≡ 512 =
      omega (arith, length-drop size_to_read page) in
    let first = round memory tx_id page (suc (suc fuel)) 0 position index (omega arith) sector m0 in
    let pos1 : add64 position size_to_read ≡ position + size_to_read = omega arith in
    let index1 : (index + 1) % u32_mod ≡ index + 1 = omega arith in
    let second =
      round memory tx_id page (suc fuel) size_to_read (position + size_to_read) (index + 1)
        (omega arith) (omega arith) m1 in
    let last =
      finish memory tx_id page fuel 4096 (add64 (position + size_to_read) 512)
        ((index + 1 + 1) % u32_mod) (omega arith) in
    rw (first, read_page-first page long, len1, pos1, index1)
      (rw (second, read_page-second page long, len2) (rw last))

write_blocks-two :
    (j : Journal) (memory : ℕ → Bool) (page : List ℕ) (position : ℕ) (tx : Transaction)
    → length page ≡ 4096
    → position % 512 ≡ 0
    → position + 4096 < u64_mod
    → length tx.data_block_list + 2 < u32_mod
    → memory (length tx.data_block_list) ≡ true
    → memory (length tx.data_block_list + 1) ≡ true
    → check_position j position 4096 ≡ ok tt
    → write_blocks j memory page position tx
      ≡ ok (two_blocks tx.tx_id page position (length tx.data_block_list))
unfolding write_blocks
write_blocks-two j memory page position tx long sector small count m0 m1 accepted =
    let n = length tx.data_block_list in
    let fuel : suc (length page) ≡ suc (suc (suc (length page - 2))) = omega arith in
    let number : n % u32_mod ≡ n = omega arith in
    let passes = ap (check_position j position) long ∙ accepted in
    rw (passes, number, fuel)
      (split_page-two memory tx.tx_id page (length page - 2) position n long sector small count m0
        m1)

-- A write of a page of 4096 bytes at the position of a sector, which the journal accepts, with
-- memory for two blocks and no overflow of the position or of the block numbers, succeeds and adds
-- two blocks to a new transaction: the page's first seven sectors at the position, and the last one
-- behind them, numbered on from the blocks that were there.
pub write_lem :
    (j : Journal) (memory : ℕ → Bool) (page : List ℕ) (position : ℕ) (tx : Transaction)
    → tx.state ≡ TxState.new
    → length page ≡ 4096
    → position % 512 ≡ 0
    → position + 4096 < u64_mod
    → length tx.data_block_list + 2 < u32_mod
    → memory (length tx.data_block_list) ≡ true
    → memory (length tx.data_block_list + 1) ≡ true
    → check_position j position 4096 ≡ ok tt
    → write j memory page position tx ≡ (
      success,
      record tx {
        data_block_list =
            tx.data_block_list ++ two_blocks tx.tx_id page position (length tx.data_block_list);
      },
    )
unfolding write
write_lem j memory page position tx fresh long sector small count m0 m1 accepted =
    rw
      (
        fresh,
        write_blocks-two j memory page position tx long sector small count m0 m1 accepted,
        write,
      )
      (ap
        (λ (s : TxState). (
          success,
          record tx {
            state = s;
            data_block_list =
                tx.data_block_list ++ two_blocks tx.tx_id page position (length tx.data_block_list);
          },
        ))
        fresh)
