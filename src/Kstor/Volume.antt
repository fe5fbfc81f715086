-- ===== src/Kstor/Volume.antt =====
-- kstor/volume.cpp, kstor/chunk.h: a volume and its chunks. The table holds pointers to chunk objects,
-- whose data stand in a heap.
pub mod Chunks
pub mod Reads
pub mod Mount
use cpp_lkm.Prelude.{
  ℕ, Bool, true, false, not, List, Option, none, some, if◌then◌else◌, Error, success, invalid_state,
  already_exists, no_memory, not_found, Result, ok, err, ◌≡◌, refl,
}
use cpp_lkm.Core.HashTable.{HashTable, put_bucket, lookup, insert, delete, check_exist}
use cpp_lkm.Kstor.Guid.{Guid, guid_key}
use cpp_lkm.Kstor.Journal.Session.{Session}

pub data VolumeState : Type 0 where
  new running stopping stopped : VolumeState

-- The members, and the heap: the data of the chunk object at an address. `session` is `TxJournal`, and
-- `Size` is the `volume_size` that it sees; `BlockSize` is the page's size.
pub record Volume : Type 0 where
  pub state : VolumeState
  pub volume_id : Guid
  pub session : Session
  pub chunk_table : HashTable Guid ℕ
  pub heap : ℕ → List ℕ

-- the buckets of `ChunkTable`
abbrev pub bucket_count : ℕ
bucket_count = 512

-- `if (State != VolumeStateRunning) return ...;`
unfoldable pub when_running {ℓ} : {A : Type ℓ} → A → (Volume → A) → Volume → A
when_running bad rest v = elim v.state [ VolumeState.running ↦ rest v | _ ↦ bad ]

pub when_running_lem {ℓ} :
    {A : Type ℓ} (bad : A) (rest : Volume → A) (v : Volume)
    → v.state ≡ VolumeState.running
    → when_running bad rest v ≡ rest v
unfolding when_running
when_running_lem bad rest v h = rw h refl

-- `ChunkCreate` from the lookup on. The new object has an address and what the memory held there, if
-- there is memory for it: the constructor does not set `Data`. `node` says whether the table's entry
-- can be allocated.
unfoldable pub create : Option (ℕ × List ℕ) → Bool → Guid → Volume → Error × Volume
create allocated node id v =
    if (lookup bucket_count id v.chunk_table).1 then (already_exists, v) else elim allocated [
      | none ↦ (no_memory, v)
      | some (address, bytes) ↦
          let (inserted, table) = insert bucket_count node id address v.chunk_table in
          if inserted
          then (success, record v { chunk_table = table; heap = put_bucket v.heap address bytes })
          else (no_memory, v)
    ]

-- `Volume::ChunkCreate`
unfoldable pub chunk_create : Option (ℕ × List ℕ) → Bool → Guid → Volume → Error × Volume
unfolding when_running
chunk_create allocated node id v = when_running (invalid_state, v) (create allocated node id) v

-- `ChunkWrite` from the lookup on
unfoldable pub put : Guid → List ℕ → Volume → Error × Volume
put id bytes v =
    let (address, exist) = lookup bucket_count id v.chunk_table in
    if exist then (success, record v { heap = put_bucket v.heap address bytes }) else (not_found, v)

-- `Volume::ChunkWrite`
unfoldable pub chunk_write : Guid → List ℕ → Volume → Error × Volume
unfolding when_running
chunk_write id bytes v = when_running (invalid_state, v) (put id bytes) v

-- `ChunkRead` from the lookup on
unfoldable pub get : Guid → Volume → Result (List ℕ)
get id v =
    let (address, exist) = lookup bucket_count id v.chunk_table in
    if exist then ok (v.heap address) else err not_found

-- `Volume::ChunkRead`
unfoldable pub chunk_read : Guid → Volume → Result (List ℕ)
unfolding when_running
chunk_read id v = when_running (err invalid_state) (get id) v

-- `ChunkDelete` from the table on
unfoldable pub remove : Guid → Volume → Error × Volume
remove id v =
    let (done, table) = delete bucket_count id v.chunk_table in
    if done then (success, record v { chunk_table = table }) else (not_found, v)

-- `Volume::ChunkDelete`
unfoldable pub chunk_delete : Guid → Volume → Error × Volume
unfolding when_running
chunk_delete id v = when_running (invalid_state, v) (remove id) v

-- `ChunkLookup` from the table on
unfoldable pub look_up : Guid → Volume → Error
look_up id v = if not (check_exist bucket_count id v.chunk_table) then not_found else success

-- `Volume::ChunkLookup`
unfoldable pub chunk_lookup : Guid → Volume → Error
unfolding when_running
chunk_lookup id v = when_running invalid_state (look_up id) v
