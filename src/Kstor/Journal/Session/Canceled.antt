-- ===== src/Kstor/Journal/Session/Canceled.antt =====
-- kstor/journal.cpp: the transactions that `Unload` cancels.
use cpp_lkm.Prelude.{
  ℕ, ◌≡◌, ◌≢◌, inl, inr, refl, sym, ap, ◌∙◌, subst, Bool, true, false, Bool-cases, List, [], ◌∷◌,
  Option, none, some, Option-cases, All, ◌==◌, ==_iff, if◌then◌else◌, mul64, Error, cancelled,
  is_ok, Result-cases,
}
use cpp_lkm.Core.Bio.{Device, add_page, submit_wait_result}
use cpp_lkm.Core.Disk.{Disk}
use cpp_lkm.Core.HashTable.{delete}
use cpp_lkm.Core.HashTable.Laws.{view, IsValid, lookup-view, delete-view}
use cpp_lkm.Kstor.Guid.{Guid, guid_key, equal, equal_iff}
use cpp_lkm.Kstor.Journal.{JournalState, block_size}
use cpp_lkm.Kstor.Journal.Header.{flush_header}
use cpp_lkm.Kstor.Journal.Log.{TxTable, bucket_count, unlink_tx}
use cpp_lkm.Kstor.Journal.Session.{Session, cancel, cancel_all, compact_log, flush, unload}
use cpp_lkm.Kstor.Journal.Transaction.{Transaction, TxState}
use cpp_lkm.Kstor.Layout.Header.{header_page}

-- the address of the transaction that the table holds for an identifier
abbrev pub linked : TxTable → Guid → Option ℕ
linked table id = view bucket_count table id

-- what `UnlinkTx` does to the table: the object goes, and every other one stays
record Unlinked (tx : Transaction) (table table' : TxTable) : Type 0 where
  pub valid : IsValid bucket_count table'
  pub gone : linked table' tx.tx_id ≢ some tx.address
  pub no_more : (q : Guid) (a : ℕ) → linked table' q ≡ some a → linked table q ≡ some a
  pub kept :
      (q : Guid) (a : ℕ)
      → linked table q ≡ some a
      → (tx.tx_id ≡ q → tx.address ≢ a)
      → linked table' q ≡ some a

unlink_tx-none :
    (tx : Transaction) (table : TxTable) → linked table tx.tx_id ≡ none → unlink_tx tx table ≡ table
unfolding unlink_tx
unlink_tx-none tx table absent =
    rw ((lookup-view bucket_count tx.tx_id table).0, absent, unlink_tx) refl

unlink_tx-other :
    (tx : Transaction) (table : TxTable) (a : ℕ)
    → linked table tx.tx_id ≡ some a
    → (a == tx.address) ≡ false
    → unlink_tx tx table ≡ table
unfolding unlink_tx
unlink_tx-other tx table a there other =
    rw ((lookup-view bucket_count tx.tx_id table).0, there, other, unlink_tx) refl

unlink_tx-same :
    (tx : Transaction) (table : TxTable) (a : ℕ)
    → linked table tx.tx_id ≡ some a
    → (a == tx.address) ≡ true
    → unlink_tx tx table ≡ (delete bucket_count tx.tx_id table).1
unfolding unlink_tx
unlink_tx-same tx table a there same =
    rw ((lookup-view bucket_count tx.tx_id table).0, there, same, unlink_tx) refl

unchanged :
    (tx : Transaction) (table : TxTable)
    → IsValid bucket_count table
    → linked table tx.tx_id ≢ some tx.address
    → Unlinked tx table table
unchanged tx table valid gone = record {
  valid = valid;
  gone = gone;
  no_more = λ q a h. h;
  kept = λ q a h other. h;
}

deleted :
    (tx : Transaction) (table table' : TxTable)
    → IsValid bucket_count table'
    → linked table tx.tx_id ≡ some tx.address
    → ((q : Guid) → linked table' q ≡ (if equal tx.tx_id q then none else linked table q))
    → Unlinked tx table table'
deleted tx table table' valid there viewed = record {
  valid = valid;
  gone = λ h.
      (let same : equal tx.tx_id tx.tx_id ≡ true = (equal_iff tx.tx_id tx.tx_id).1 refl in
        let absent : linked table' tx.tx_id ≡ none = viewed tx.tx_id ∙ rw same refl in
        absurd (cc (absent, h)));
  no_more = λ q a h. elim (Bool-cases (equal tx.tx_id q)) [
    | inl same ↦
        let absent : linked table' q ≡ none = viewed q ∙ rw same refl in absurd (cc (absent, h))
    | inr other ↦
        let stays : linked table' q ≡ linked table q = viewed q ∙ rw other refl in sym stays ∙ h
  ];
  kept = λ q a h apart. elim (Bool-cases (equal tx.tx_id q)) [
    | inr other ↦ viewed q ∙ rw other h
    | inl same ↦
        let e : tx.tx_id ≡ q = (equal_iff tx.tx_id q).0 same in
        let at_q : linked table q ≡ some tx.address = ap (linked table) (sym e) ∙ there in
        let hit : tx.address ≡ a = cc (at_q, h) in absurd (apart e hit)
  ];
}

-- `UnlinkTx` on a valid table
unlink_tx_lem :
    (tx : Transaction) (table : TxTable)
    → IsValid bucket_count table
    → Unlinked tx table (unlink_tx tx table)
unlink_tx_lem tx table valid = elim (Option-cases (linked table tx.tx_id)) [
  | inl absent ↦
      subst (Unlinked tx table) (sym (unlink_tx-none tx table absent))
        (unchanged tx table valid (λ h. absurd (cc (absent, h))))
  | inr (a, there) ↦ elim (Bool-cases (a == tx.address)) [
    | inr other ↦ subst (Unlinked tx table) (sym (unlink_tx-other tx table a there other)) (
        unchanged tx table valid (λ h.
          let same : a ≡ tx.address = cc (there, h) in
          absurd (cc (other, (==_iff a tx.address).1 same))))
    | inl same ↦
        let (_, viewed, valid') = delete-view bucket_count tx.tx_id table valid in
        subst (Unlinked tx table) (sym (unlink_tx-same tx table a there same))
          (deleted tx table _ valid' (there ∙ ap some ((==_iff a tx.address).0 same)) viewed)
  ]
]

-- The transactions of one list, one by one, canceled in another.
abbrev pub AreCanceled : List Transaction → List Transaction → Type 0
AreCanceled [] [] = Unit {0}
AreCanceled [] (tx' ∷ txs') = ⊥
AreCanceled (tx ∷ txs) [] = ⊥
AreCanceled (tx ∷ txs) (tx' ∷ txs') =
    ((tx'.address ≡ tx.address)
      × (tx'.tx_id ≡ tx.tx_id)
      × (tx'.state ≡ TxState.canceled)
      × (tx'.commit_result ≡ cancelled)
      × (tx'.commit_event ≡ tx.commit_event))
    × AreCanceled txs txs'

-- What a table is after transactions were unlinked from one: none of them is linked, and no other
-- entry is gone.
pub record AllUnlinked (txs : List Transaction) (table table' : TxTable) : Type 0 where
  pub valid : IsValid bucket_count table'
  pub gone : All (λ (tx : Transaction). linked table' tx.tx_id ≢ some tx.address) txs
  pub no_more : (q : Guid) (a : ℕ) → linked table' q ≡ some a → linked table q ≡ some a
  pub kept :
      (q : Guid) (a : ℕ)
      → linked table q ≡ some a
      → All (λ (tx : Transaction). tx.tx_id ≡ q → tx.address ≢ a) txs
      → linked table' q ≡ some a

cancel_all_lem :
    (txs : List Transaction) (s : Session)
    → IsValid bucket_count s.log.table
    → AreCanceled txs (cancel_all txs s).0
      × AllUnlinked txs s.log.table ((cancel_all txs s).1).log.table
unfolding cancel_all cancel
cancel_all_lem [] s valid =
    (tt, record { valid = valid; gone = tt; no_more = λ q a h. h; kept = λ q a h all. h })
cancel_all_lem (tx ∷ txs) s valid =
    let one = unlink_tx_lem tx s.log.table valid in
    let (canceled, rest) = cancel_all_lem txs (cancel tx s).1 one.valid in
    (
      ((refl, refl, refl, refl, refl), canceled),
      record {
        valid = rest.valid;
        gone = (λ h. one.gone (rest.no_more tx.tx_id tx.address h), rest.gone);
        no_more = λ q a h. one.no_more q a (rest.no_more q a h);
        kept = λ q a h all. rest.kept q a (one.kept q a h all.0) all.1;
      },
    )

cancel_all-tx_list :
    (txs : List Transaction) (s : Session) → ((cancel_all txs s).1).tx_list ≡ s.tx_list
unfolding cancel_all cancel
cancel_all-tx_list [] s = refl
cancel_all-tx_list (tx ∷ txs) s = cancel_all-tx_list txs (cancel tx s).1

module _ (dev : Device) (sum : List ℕ → List ℕ) (memory : ℕ → Bool) where
  -- `Flush` leaves the table and the waiting transactions alone, whether it succeeds or fails
  abbrev Keeps : Session → Error × Session × Disk → Type 0
  Keeps s (e, s', d') = (s'.log.table ≡ s.log.table) × (s'.tx_list ≡ s.tx_list)

  flush_elsewhere :
      (page_memory : Bool) (s : Session) (d : Disk) → Keeps s (flush dev sum memory page_memory s d)
  unfolding flush compact_log
  flush_elsewhere page_memory s d =
      let j = s.log.journal in
      elim (Result-cases (
        add_page page_memory (header_page sum (flush_header j)) (mul64 j.start block_size) 0
          s.log.bios)) [
            | inl (e, refused) ↦ rw (refused, flush) (refl, refl)
            | inr (bios, added) ↦ elim (Bool-cases (is_ok (submit_wait_result dev true bios d).0)) [
              | inl done ↦ rw (added, flush, done) (refl, refl)
              | inr failed ↦ rw (added, flush, failed) (refl, refl)
            ]
          ]

  -- `Unload` of a running journal whose table is valid, whether its flush succeeds or fails, stops
  -- the journal and leaves no transaction waiting. It cancels every transaction that waited, in
  -- their order: each has the result `Cancelled` and the commit event that it had, so that none is
  -- signalled here. None of them is linked in the table any more, every other transaction that was
  -- linked still is, and no other entry of the table is new.
  pub unload-Unlinked :
      (page_memory : Bool) (s : Session) (d : Disk)
      → s.log.journal.state ≡ JournalState.running
      → IsValid bucket_count s.log.table
      → let (e, txs, s', d') = unload dev sum memory page_memory s d in
        AreCanceled s.tx_list txs
        × AllUnlinked s.tx_list s.log.table s'.log.table
        × (s'.tx_list ≡ [])
        × (s'.log.journal.state ≡ JournalState.stopped)
  unfolding unload
  unload-Unlinked page_memory s d runs valid =
      let waiting : Session = record s { tx_list = [] } in
      let out = cancel_all s.tx_list waiting in
      let s1 : Session = record out.1 { log = record (out.1).log { bios = [] } } in
      let (canceled, unlinked) = cancel_all_lem s.tx_list waiting valid in
      let (table, list) = flush_elsewhere page_memory s1 d in
      rw (runs, unload)
        (
          canceled,
          subst (AllUnlinked s.tx_list s.log.table) (sym table) unlinked,
          list ∙ cancel_all-tx_list s.tx_list waiting,
          refl,
        )
