-- ===== src/Kstor/Journal/Log/Outcome.antt =====
-- kstor/journal.cpp: how `WriteTx` leaves a transaction, with success or an error.
use cpp_lkm.Prelude.{
  reject, not, no_memory, ◌>>◌, ℕ, ◌≡◌, ◌⊎◌, inl, inr, refl, ◌∙◌, Bool, true, false, Bool-cases,
  List, [], ◌∷◌, Error, is_ok, invalid_state, Result-cases,
}
use cpp_lkm.Kstor.Journal.Log.{
  Log, unlink_tx, get_next_index, on_commit_complete, write_tx_block, put_block, put_blocks,
  tx_blocks, fail, write_tx,
}
use cpp_lkm.Kstor.Journal.Transaction.{TxState, Transaction}
use cpp_lkm.Kstor.Layout.TxBlock.{TxBlock}

module _ (sum : List ℕ → List ℕ) (memory : ℕ → Bool) where
  put_block-table :
      (block : TxBlock) (log : Log) (list : List ℕ)
      → (put_block sum memory block log list).1.table ≡ log.table
  unfolding put_block
  put_block-table block log list = elim (Result-cases (get_next_index log.journal)) [
    | inl (e, failed) ↦ rw (failed, put_block)
    | inr ((index, j), went) ↦
        elim (Result-cases (
          reject (not (memory index)) no_memory
          >> write_tx_block sum memory j index block log.bios)) [
            | inl (e, failed) ↦ rw (went, put_block) (rw (failed, put_block))
            | inr (bios, written) ↦ rw (went, put_block) (rw (written, put_block))
          ]
  ]

  put_blocks-table :
      (blocks : List TxBlock) (log : Log) (list : List ℕ)
      → (put_blocks sum memory blocks log list).1.table ≡ log.table
  unfolding put_blocks
  put_blocks-table [] log list = refl
  put_blocks-table (block ∷ blocks) log list =
      let (e, log', list') = put_block sum memory block log list in
      let one = put_block-table block log list in
      elim (Bool-cases (is_ok e)) [
        | inl good ↦ rw good (put_blocks-table blocks log' list' ∙ one)
        | inr bad ↦ rw bad one
      ]

-- how a failed write leaves the transaction, and the table
abbrev pub Failed : Error → Transaction → Log → Transaction → Log → Type 0
Failed e tx log tx' log' =
    (is_ok e ≡ false)
    × (tx'.state ≡ TxState.canceled)
    × (tx'.commit_result ≡ e)
    × (tx'.commit_event ≡ true)
    × (tx'.index_list ≡ [])
    × (log'.table ≡ unlink_tx tx log.table)

-- how a write that succeeds leaves them: the transaction is not completed yet
abbrev pub Written : Error → Transaction → Log → Transaction → Log → Type 0
Written e tx log tx' log' =
    (is_ok e ≡ true)
    × (tx.state ≡ TxState.commiting)
    × (tx'.state ≡ TxState.commiting)
    × (tx'.commit_event ≡ tx.commit_event)
    × (log'.table ≡ log.table)

fail_lem :
    (e : Error) (tx : Transaction) (log log' : Log)
    → is_ok e ≡ false
    → log'.table ≡ log.table
    → let (e', tx', log'') = fail e tx log' in Failed e' tx log tx' log''
unfolding fail on_commit_complete unlink_tx
fail_lem e tx log log' bad same = rw (bad, same) (refl, refl, refl, refl, refl, refl)

-- the outcome of `WriteTx` on a transaction that is in a given state
in_state :
    (sum : List ℕ → List ℕ) (memory : ℕ → Bool) (tx0 : Transaction) (s : TxState) (log : Log)
    → let tx : Transaction = record tx0 { state = s } in
      let (e, tx', log') = write_tx sum memory tx log in
      Written e tx log tx' log' ⊎ Failed e tx log tx' log'
unfolding write_tx
in_state sum memory tx0 TxState.commiting log =
    let tx : Transaction = record tx0 { state = TxState.commiting } in
    let (e, log', list) = put_blocks sum memory (tx_blocks tx) log tx.index_list in
    let same = put_blocks-table sum memory (tx_blocks tx) log tx.index_list in
    elim (Bool-cases (is_ok e)) [
      | inl good ↦ inl (rw good (good, refl, refl, refl, same))
      | inr bad ↦ inr (rw bad (fail_lem e tx log log' bad same))
    ]
in_state sum memory tx0 s log =
    inr (fail_lem invalid_state (record tx0 { state = s }) log log refl refl)

-- `WriteTx` either succeeds and leaves the transaction committing, for its completion to come, with the
-- table as it was; or it fails, and then the transaction is canceled with the error as its result, its
-- waiting client is woken, its indices are forgotten and the table is as `UnlinkTx` leaves it. Only a committing
-- transaction succeeds.
pub write_tx_outcome :
    (sum : List ℕ → List ℕ) (memory : ℕ → Bool) (tx : Transaction) (log : Log)
    → let (e, tx', log') = write_tx sum memory tx log in
      Written e tx log tx' log' ⊎ Failed e tx log tx' log'
write_tx_outcome sum memory tx log = in_state sum memory tx tx.state log
