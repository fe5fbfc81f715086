-- ===== src/Kstor/Tests/Waiting.antt =====
-- kstor/journal.cpp on concrete inputs: a transaction that waits when the journal is unloaded.
use cpp_lkm.Prelude.{◌≡◌, none, refl, true, [], arith}
use cpp_lkm.Core.HashTable.{insert}
use cpp_lkm.Core.HashTable.Chain.{count}
use cpp_lkm.Core.HashTable.Laws.{IsValid, view, insert-new}
use cpp_lkm.Core.HashTable.{find}
use cpp_lkm.Kstor.Guid.{guid_key}
use cpp_lkm.Kstor.Journal.{JournalState}
use cpp_lkm.Kstor.Journal.Log.{TxTable, bucket_count}
use cpp_lkm.Kstor.Journal.Session.{Session, unload}
use cpp_lkm.Kstor.Journal.Session.Canceled.{AreCanceled, AllUnlinked, unload-Unlinked}
use cpp_lkm.Kstor.Tests.{device, plenty, sum, blank, transaction, session}

empty_table-IsValid : IsValid bucket_count session.log.table
unfolding count
empty_table-IsValid = record { once = λ k i. omega arith; at_home = λ k i away. refl }

empty_table-view : view bucket_count session.log.table transaction.tx_id ≡ none
unfolding view find
empty_table-view = refl

-- the journal's table with the transaction that waits
abbrev one_table : TxTable
one_table = (insert bucket_count true transaction.tx_id transaction.address session.log.table).1

one_table-IsValid : IsValid bucket_count one_table
one_table-IsValid =
    (insert-new bucket_count transaction.tx_id transaction.address session.log.table
      empty_table-IsValid empty_table-view).2

abbrev waiting : Session
waiting = record session { log = record session.log { table = one_table } }

unload-Unlinked_example :
    let (e, txs, s', d') = unload device sum plenty true waiting blank in
    AreCanceled waiting.tx_list txs
    × AllUnlinked waiting.tx_list waiting.log.table s'.log.table
    × (s'.tx_list ≡ [])
    × (s'.log.journal.state ≡ JournalState.stopped)
unload-Unlinked_example =
    unload-Unlinked device sum plenty true waiting blank refl one_table-IsValid
