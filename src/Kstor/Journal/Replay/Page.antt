-- ===== src/Kstor/Journal/Replay/Page.antt =====
-- kstor/journal.cpp: a page that `Transaction::Write` took, when its blocks are applied.
use native.Mathlib.Nat.{add-zero}
use cpp_lkm.Prelude.{
  ◌<◌, subst, Bool, true, length-append, length-drop, u32_mod, success, ok, append_assoc, ℕ, ◌+◌,
  ◌-◌, ◌≡◌, refl, sym, ap, ◌∙◌, List, [], ◌∷◌, ◌++◌, length, length-take, take, drop, take-append,
  take-append-drop, arith,
}
use cpp_lkm.Core.Bio.{Device, page_size}
use cpp_lkm.Core.Bio.Laws.{IsHealthy, write_all, write_all-append}
use cpp_lkm.Core.Disk.{Disk, write_bytes, write_bytes-append}
use cpp_lkm.Kstor.Journal.{Journal, check_position}
use cpp_lkm.Kstor.Journal.Positions.{IsPlaced, check_position_lem, check_position-part}
use cpp_lkm.Kstor.Journal.Replay.{Leftover, apply_blocks}
use cpp_lkm.Kstor.Journal.Replay.Apply.{AllAccepted, body_ios, data_ios, apply_blocks_lem}
use cpp_lkm.Kstor.Journal.Transaction.{
  TxState, Transaction, write, size_to_read, data_block, data_capacity,
}
use cpp_lkm.Kstor.Journal.Transaction.Chunks.{two_blocks, write_lem}
use cpp_lkm.Kstor.Layout.Fields.{zeros, length-zeros}
use cpp_lkm.Kstor.Layout.TxBlock.{TxBlock}

block_ios_of :
    (id : List ℕ) (index position : ℕ) (bytes : List ℕ) (list : List TxBlock)
    → data_ios (data_block id index position bytes ∷ list)
      ≡ record { position = position; bytes = bytes } ∷ data_ios list
unfolding data_block
block_ios_of id index position bytes list =
    ap (λ (l : List ℕ). record { position = position; bytes = l } ∷ data_ios list)
      (take-append (length bytes) bytes (zeros (data_capacity - length bytes)) refl)

-- the two blocks of a page, written one after the other
two_blocks_lem :
    (tx_id page : List ℕ) (position index : ℕ) (d : Disk)
    → length page ≡ 4096
    → write_all (data_ios (two_blocks tx_id page position index)) d ≡ write_bytes d position page
unfolding write_all
two_blocks_lem tx_id page position index d long =
    let xs = take size_to_read page in
    let ys = drop size_to_read page in
    let whole : xs ++ ys ≡ page = take-append-drop size_to_read page in
    let head : length xs ≡ size_to_read = omega (arith, length-take size_to_read page) in
    let joined =
      write_bytes-append d position xs ys
      ∙ ap (λ n. write_bytes (write_bytes d position xs) (position + n) ys) head in
    ap (λ l. write_all l d)
      (block_ios_of tx_id index position xs
        (data_block tx_id (index + 1) (position + size_to_read) ys ∷ []))
    ∙ ap (λ l. write_all l (write_bytes d position xs))
        (block_ios_of tx_id (index + 1) (position + size_to_read) ys [])
    ∙ sym joined
    ∙ ap (write_bytes d position) whole

-- both blocks are accepted if the page is
two_blocks-AllAccepted :
    (j : Journal) (tx_id page : List ℕ) (position index : ℕ)
    → IsPlaced j
    → length page ≡ 4096
    → check_position j position 4096 ≡ ok tt
    → AllAccepted j (two_blocks tx_id page position index)
unfolding data_block
two_blocks-AllAccepted j tx_id page position index placed long accepted =
    let xs = take size_to_read page in
    let ys = drop size_to_read page in
    let head : length xs ≡ 3584 = omega (arith, length-take size_to_read page) in
    let tail : length ys ≡ 512 = omega (arith, length-drop size_to_read page) in
    let first : check_position j position (length xs) ≡ ok tt = rw head (
      subst (λ p. check_position j p 3584 ≡ ok tt) (add-zero position)
        (check_position-part j position 4096 0 3584 placed (omega arith) (omega arith) refl
          (omega arith) accepted)) in
    let second : check_position j (position + size_to_read) (length ys) ≡ ok tt = rw tail (
      check_position-part j position 4096 size_to_read 512 placed (omega arith) (omega arith) refl
        (omega arith) accepted) in
    (
      (
        omega arith,
        omega arith,
        omega (
          arith,
          length-append xs (zeros (data_capacity - length xs)),
          length-zeros (data_capacity - length xs),
        ),
        first,
      ),
      (
        (
          omega arith,
          omega arith,
          omega (
            arith,
            length-append ys (zeros (data_capacity - length ys)),
            length-zeros (data_capacity - length ys),
          ),
          second,
        ),
        tt,
      ),
    )

AllAccepted-append :
    (j : Journal) (xs ys : List TxBlock)
    → AllAccepted j xs
    → AllAccepted j ys
    → AllAccepted j (xs ++ ys)
AllAccepted-append j [] ys h k = k
AllAccepted-append j (x ∷ xs) ys h k = (h.0, AllAccepted-append j xs ys h.1 k)

data_ios-append : (xs ys : List TxBlock) → data_ios (xs ++ ys) ≡ data_ios xs ++ data_ios ys
data_ios-append [] ys = refl
data_ios-append (x ∷ xs) ys =
    ap (λ l. body_ios x.body ++ l) (data_ios-append xs ys)
    ∙ sym (append_assoc (body_ios x.body) (data_ios xs) (data_ios ys))

module _ {dev : Device} (healthy : IsHealthy dev) (fresh : Leftover)
    (fresh_size : length fresh.page ≡ page_size) (memory : ℕ → Bool)
    (enough : (n : ℕ) → memory n ≡ true) where
  -- On a device without failures and with memory, in a journal that lies within its volume: a
  -- `Write` of a page of 4096 bytes to a new transaction, at a position that the journal accepts for
  -- the page, succeeds; and `ApplyBlocks` of the transaction's blocks then succeeds, and leaves on
  -- the device what it left with the blocks that were there before, which the journal accepts, with
  -- the page written at its position behind that. There are less than 2^32 - 2 blocks.
  pub apply_blocks-write :
      (j : Journal) (page : List ℕ) (position : ℕ) (tx : Transaction) (preflush_fua : Bool)
      (d : Disk)
      → IsPlaced j
      → tx.state ≡ TxState.new
      → AllAccepted j tx.data_block_list
      → length tx.data_block_list + 2 < u32_mod
      → length page ≡ 4096
      → check_position j position 4096 ≡ ok tt
      → let (e, tx') = write j memory page position tx in
        let (before, d1) = apply_blocks dev fresh memory j tx.data_block_list preflush_fua d in
        (e ≡ success)
        × (apply_blocks dev fresh memory j tx'.data_block_list preflush_fua d
            ≡ (success, write_bytes d1 position page))
  apply_blocks-write j page position tx preflush_fua d placed new_tx held count long accepted =
      let place = check_position_lem j position 4096 placed (omega arith) (omega arith) accepted in
      let n = length tx.data_block_list in
      let blocks = two_blocks tx.tx_id page position n in
      let written =
        write_lem j memory page position tx new_tx long place.0
          (omega (arith, place.2, placed.volume_small)) count (enough n) (enough (n + 1))
          accepted in
      let all =
        AllAccepted-append j tx.data_block_list blocks held
          (two_blocks-AllAccepted j tx.tx_id page position n placed long accepted) in
      let first =
        apply_blocks_lem healthy fresh fresh_size memory enough j placed tx.data_block_list
          preflush_fua d held in
      rw written (
        refl,
        apply_blocks_lem healthy fresh fresh_size memory enough j placed
              (tx.data_block_list ++ blocks) preflush_fua d all
            ∙ ap (λ l. (success, write_all l d)) (data_ios-append tx.data_block_list blocks)
            ∙ ap (λ x. (success, x))
                (write_all-append (data_ios tx.data_block_list) (data_ios blocks) d
                  ∙ two_blocks_lem tx.tx_id page position n
                      (write_all (data_ios tx.data_block_list) d) long
                  ∙ ap (λ x. write_bytes x position page) (sym (ap (λ r. r.1) first))),
      )
