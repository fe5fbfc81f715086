-- ===== src/Kstor/Journal/Replay/Written.antt =====
-- kstor/journal.cpp: the log on the device after the requests of `WriteTx` are carried out.
use cpp_lkm.Prelude.{
  ℕ, ◌+◌, ◌%◌, ◌≤◌, ◌≡◌, ◌≢◌, ◌⊎◌, inl, inr, sym, ap, subst, ◌∙◌, Bool, List, [], ◌∷◌, ◌++◌,
  append-nil, append_assoc, length, All, arith,
}
use native.Mathlib.Decide.{dec_lt}
use cpp_lkm.Core.Bio.{page_size}
use cpp_lkm.Core.Bio.Laws.{write_all}
use cpp_lkm.Core.Disk.{Disk, read_bytes, write_bytes, read-write, read-write_apart}
use cpp_lkm.Core.RingBuffer.{RingBuffer}
use cpp_lkm.Core.RingBuffer.Contents.{IsValid, contents, run}
use cpp_lkm.Core.RingBuffer.Laws.{pushed, push_back_lem}
use cpp_lkm.Kstor.Journal.{Journal}
use cpp_lkm.Kstor.Journal.Log.Blocks.{block_ios}
use cpp_lkm.Kstor.Journal.Positions.{log_position}
use cpp_lkm.Kstor.Journal.Replay.Held.{Holds}
use cpp_lkm.Kstor.Layout.Codec.{length-write_tx_block}
use cpp_lkm.Kstor.Layout.TxBlock.{TxBlock, Fits, write_tx_block_prepare}

positions_apart :
    (j : Journal) (a b n : ℕ)
    → n ≡ page_size
    → a ≢ b
    → (log_position j a + page_size ≤ log_position j b) ⊎ (log_position j b + n ≤ log_position j a)
positions_apart j a b n e ne = elim (dec_lt a b) [
  | yes h ↦ inl (omega arith)
  | no h ↦ inr (omega arith)
]

module _ (sum : List ℕ → List ℕ) (sum_size : (bytes : List ℕ) → length (sum bytes) ≡ 8)
    (memory : ℕ → Bool) (j : Journal) where
  -- a block at another index is not touched, and the new one stands at its index
  Holds-block :
      (d : Disk) (e : ℕ) (block : TxBlock) (indices : List ℕ) (blocks : List TxBlock)
      → Fits block
      → All (λ i. i ≢ e) indices
      → Holds sum j d indices blocks
      → Holds sum j
          (write_bytes d (log_position j e) (write_tx_block_prepare sum block))
          (indices ++ (e ∷ []))
          (blocks ++ (block ∷ []))
  Holds-block d e block [] [] fits away h =
      let long = length-write_tx_block sum sum_size block fits in
      (
        subst
            (λ n.
              read_bytes (write_bytes d (log_position j e) (write_tx_block_prepare sum block))
                (log_position j e) n
              ≡ write_tx_block_prepare sum block)
            long (read-write d (log_position j e) (write_tx_block_prepare sum block)),
        tt,
      )
  Holds-block d e block [] (b ∷ blocks) fits away h = absurd h
  Holds-block d e block (i ∷ indices) [] fits away h = absurd h
  Holds-block d e block (i ∷ indices) (b ∷ blocks) fits away h =
      let long = length-write_tx_block sum sum_size block fits in
      (
        read-write_apart d (log_position j e) (write_tx_block_prepare sum block) (log_position j i)
              page_size (positions_apart j i e _ long away.0)
            ∙ h.0,
        Holds-block d e block indices blocks fits away.1 h.1,
      )

  pub Holds-blocks :
      (blocks before : List TxBlock) (r : RingBuffer) (d : Disk)
      → IsValid r
      → r.size + length blocks ≤ r.capacity
      → All Fits blocks
      → Holds sum j d (contents r) before
      → Holds sum j
          (write_all (block_ios sum memory (record j { log_rb = r }) r.end_index blocks) d)
          (contents r ++ run r.capacity r.end_index (length blocks))
          (before ++ blocks)
  unfolding write_all
  Holds-blocks [] before r d valid room fits h = rw (append-nil (contents r), append-nil before) h
  Holds-blocks (block ∷ blocks) before r d valid room fits h =
      let (pop, held, away, inside, valid') = push_back_lem r valid (omega arith) in
      let d' = write_bytes d (log_position j r.end_index) (write_tx_block_prepare sum block) in
      let one =
        subst (λ l. Holds sum j d' l (before ++ (block ∷ []))) (sym held)
          (Holds-block d r.end_index block (contents r) before fits.0 away h) in
      let ih =
        Holds-blocks blocks (before ++ (block ∷ [])) (pushed r) d' valid' (omega arith) fits.1
          one in
      let rest = run r.capacity ((r.end_index + 1) % r.capacity) (length blocks) in
      let after : Disk =
        write_all
          (block_ios sum memory (record j { log_rb = pushed r }) ((r.end_index + 1) % r.capacity)
            blocks)
          d' in
      subst (λ l. Holds sum j after l (before ++ (block ∷ blocks)))
        (ap (λ l. l ++ rest) held ∙ append_assoc (contents r) (r.end_index ∷ []) rest)
        (subst (λ b. Holds sum j after (contents (pushed r) ++ rest) b)
          (append_assoc before (block ∷ []) blocks) ih)
