-- ===== src/Kstor/Journal/Replay/Check.antt =====
-- kstor/journal.cpp: the checks of `Replay(blockList)` on the blocks of a transaction.
use cpp_lkm.Prelude.{
  ℕ, suc, ◌+◌, ◌%◌, ◌<◌, ◌≡◌, refl, sym, ap, ◌∙◌, true, List, [], ◌∷◌, ◌++◌, some, length,
  length-append, ltb, ◌==◌, ==_iff, u32_mod, arith, ok, false, All,
}
use cpp_lkm.Kstor.Guid.{equal, equal_iff}
use cpp_lkm.Kstor.Journal.{Journal}
use cpp_lkm.Kstor.Journal.Log.{commit_block, tx_blocks}
use cpp_lkm.Kstor.Journal.Replay.{pop_tail, check_data, check_commit, check_tx}
use cpp_lkm.Kstor.Journal.Replay.Apply.{AllAccepted}
use cpp_lkm.Kstor.Journal.Transaction.{Transaction}
use cpp_lkm.Kstor.Layout.TxBlock.{Body, tx_begin, tx_data, tx_commit, TxBlock, Fits}

-- The index that a data block has, and none that another block has.
abbrev pub NumberedBody : ℕ → Body → Type 0
NumberedBody n tx_begin = ⊥
NumberedBody n (tx_data index data_size position bytes) = index ≡ n
NumberedBody n (tx_commit state block_count time) = ⊥

-- data blocks of one transaction, numbered from `n` on
abbrev pub Numbered : List ℕ → ℕ → List TxBlock → Type 0
Numbered id n [] = Unit {0}
Numbered id n (block ∷ list) =
    (block.tx_id ≡ id) × NumberedBody n block.body × Numbered id (n + 1) list

-- A transaction whose blocks the journal can write, read back and apply.
pub record IsReplayable (j : Journal) (tx : Transaction) : Type 0 where
  pub id_size : length tx.tx_id ≡ 16
  pub count : length tx.data_block_list < u32_mod
  pub accepted : AllAccepted j tx.data_block_list
  pub numbered : Numbered tx.tx_id 0 tx.data_block_list
  pub fits : All Fits tx.data_block_list

pop_tail-append {ℓ} :
    {A : Type ℓ} (list : List A) (x : A) → pop_tail (list ++ (x ∷ [])) ≡ some (list, x)
unfolding pop_tail
pop_tail-append [] x = refl
pop_tail-append (y ∷ list) x = rw (pop_tail-append list x, pop_tail)

check_block :
    (id block_id : List ℕ) (n : ℕ) (body : Body) (list : List TxBlock)
    → block_id ≡ id
    → NumberedBody n body
    → check_data id n (record { tx_id = block_id; body = body } ∷ list)
      ≡ check_data id ((n + 1) % u32_mod) list
unfolding check_data
check_block id block_id n tx_begin list same h = absurd h
check_block id block_id n (tx_data index size position bytes) list same h =
    let agrees : equal id block_id ≡ true = (equal_iff id block_id).1 (sym same) in
    let index_agrees : (index == n) ≡ true = (==_iff index n).1 h in rw (agrees, index_agrees)
check_block id block_id n (tx_commit state block_count time) list same h = absurd h

check_data_lem :
    (id : List ℕ) (n : ℕ) (list : List TxBlock)
    → n + length list < u32_mod
    → Numbered id n list
    → check_data id n list ≡ ok tt
unfolding check_data
check_data_lem id n [] small h = refl
check_data_lem id n (block ∷ list) small h =
    let next : (n + 1) % u32_mod ≡ n + 1 = omega arith in
    check_block id block.tx_id n block.body list h.0 h.1
    ∙ ap (λ k. check_data id k list) next
    ∙ check_data_lem id (n + 1) list (omega arith) h.2

-- The blocks that `WriteTx` puts into the log for a replayable transaction with data pass the checks
-- of a replay, which give the data blocks back.
pub check_tx_lem :
    (j : Journal) (tx : Transaction)
    → IsReplayable j tx
    → 0 < length tx.data_block_list
    → check_tx (tx_blocks tx) ≡ ok tx.data_block_list
unfolding check_tx check_commit
check_tx_lem j tx ready some_data =
    let list = tx.data_block_list in
    let long : ltb (suc (length (list ++ (commit_block tx ∷ [])))) 3 ≡ false =
      ground (arith, length-append list (commit_block tx ∷ [])) in
    let same : equal tx.tx_id tx.tx_id ≡ true = (equal_iff tx.tx_id tx.tx_id).1 refl in
    let counted : (length list % u32_mod == length list) ≡ true =
      (==_iff (length list % u32_mod) (length list)).1 (omega (arith, ready.count)) in
    rw (long, pop_tail-append list (commit_block tx), check_tx)
      (rw
        (same, counted, check_data_lem tx.tx_id 0 list (omega (arith, ready.count)) ready.numbered))
