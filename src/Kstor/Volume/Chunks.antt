-- ===== src/Kstor/Volume/Chunks.antt =====
-- kstor/volume.cpp: the chunks as a map from identifiers to data.
use cpp_lkm.Prelude.{
  ℕ, ◌≡◌, ◌≢◌, ◌⊎◌, inl, inr, refl, sym, ap, ◌∙◌, Bool, true, false, Bool-cases, List, Option, none,
  some, Option-cases, if◌then◌else◌, ◌==◌, ==_iff, ==_refl, success, ok, err, not_found,
  already_exists, invalid_state,
}
use cpp_lkm.Core.HashTable.{HashTable, put_bucket, lookup, insert, delete}
use cpp_lkm.Core.HashTable.Chain.{is_some}
use cpp_lkm.Core.HashTable.Laws.{view, IsValid, lookup-view, insert-new, delete-view}
use cpp_lkm.Kstor.Guid.{Guid, guid_key, equal, equal_iff}
use cpp_lkm.Kstor.Volume.{
  Volume, VolumeState, bucket_count, when_running, when_running_lem, chunk_lookup, look_up, create,
  chunk_create, put, chunk_write, get, chunk_read, remove, chunk_delete,
}

-- where the chunk of an identifier is
abbrev pub place : Volume → Guid → Option ℕ
place v id = view bucket_count v.chunk_table id

abbrev pub data_at : (ℕ → List ℕ) → Option ℕ → Option (List ℕ)
data_at heap none = none
data_at heap (some a) = some (heap a)

-- the data of the chunk of an identifier
abbrev pub content : Volume → Guid → Option (List ℕ)
content v id = data_at v.heap (place v id)

-- a running volume whose table is valid and whose chunks are objects of their own
pub record IsGood (v : Volume) : Type 0 where
  pub running : v.state ≡ VolumeState.running
  pub table : IsValid bucket_count v.chunk_table
  pub apart : (p q : Guid) (a : ℕ) → place v p ≡ some a → place v q ≡ some a → p ≡ q

lookup_absent :
    (v : Volume) (id : Guid)
    → place v id ≡ none
    → lookup bucket_count id v.chunk_table ≡ (v.chunk_table.empty_value, false)
lookup_absent v id h = (lookup-view bucket_count id v.chunk_table).0 ∙ rw h refl

lookup_present :
    (v : Volume) (id : Guid) (a : ℕ)
    → place v id ≡ some a
    → lookup bucket_count id v.chunk_table ≡ (a, true)
lookup_present v id a h = (lookup-view bucket_count id v.chunk_table).0 ∙ rw h refl

-- in a good volume, a read returns the data of the chunk, or `NotFound` if there is none
pub chunk_read_lem :
    (v : Volume) (id : Guid)
    → IsGood v
    → chunk_read id v ≡ elim (content v id) [ none ↦ err not_found | some bytes ↦ ok bytes ]
unfolding chunk_read get
chunk_read_lem v id good =
    when_running_lem (err invalid_state) (get id) v good.running
    ∙ elim (Option-cases (place v id)) [
      | inl absent ↦ rw (absent, lookup_absent v id absent) refl
      | inr (a, present) ↦ rw (present, lookup_present v id a present) refl
    ]

-- the data of the chunk at an address changes for the identifier that stands there, and for no other
heap_put :
    (v : Volume) (id : Guid) (a : ℕ) (bytes : List ℕ) (q : Guid)
    → IsGood v
    → place v id ≡ some a
    → content (record v { heap = put_bucket v.heap a bytes }) q
      ≡ (if equal id q then some bytes else content v q)
unfolding put_bucket
heap_put v id a bytes q good present = elim (Bool-cases (equal id q)) [
  | inl same ↦
      let there : place v q ≡ some a = ap (place v) (sym ((equal_iff id q).0 same)) ∙ present in
      rw (same, there, ==_refl a) refl
  | inr other ↦ elim (Option-cases (place v q)) [
    | inl absent ↦ rw (other, absent) refl
    | inr (b, there) ↦ elim (Bool-cases (b == a)) [
      | inl e ↦
          let shared : place v q ≡ some a = there ∙ ap some ((==_iff b a).0 e) in
          absurd (cc (other, (equal_iff id q).1 (good.apart id q a present shared)))
      | inr ne ↦ rw (other, there, ne) refl
    ]
  ]
]

-- In a running volume whose table is valid and whose chunks are objects of their own: a write of a
-- chunk that is there succeeds and changes its data alone; of one that is not there it fails with
-- `NotFound` and changes nothing. The volume stays as supposed.
pub chunk_write_lem :
    (v : Volume) (id : Guid) (bytes : List ℕ)
    → IsGood v
    → let (e, v') = chunk_write id bytes v in
      IsGood v'
      × (((place v id ≢ none)
            × (e ≡ success)
            × ((q : Guid) → content v' q ≡ (if equal id q then some bytes else content v q)))
          ⊎ ((place v id ≡ none) × (e ≡ not_found) × (v' ≡ v)))
unfolding chunk_write put
chunk_write_lem v id bytes good =
    rw (when_running_lem (invalid_state, v) (put id bytes) v good.running)
      (elim (Option-cases (place v id)) [
        | inl absent ↦ rw (lookup_absent v id absent) (good, inr (absent, refl, refl))
        | inr (a, present) ↦ rw (lookup_present v id a present) (
          record { running = good.running; table = good.table; apart = good.apart },
          inl (λ h. cc (h, present), refl, λ q. heap_put v id a bytes q good present),
        )
      ])

-- what `if` chooses, for identifiers that are equal and for those that are not
chosen {ℓ} : {A : Type ℓ} (b : Bool) (x y z : A) → b ≡ true → z ≡ (if b then x else y) → z ≡ x
chosen b x y z h e = e ∙ rw h refl

passed_over {ℓ} : {A : Type ℓ} (b : Bool) (x y z : A) → b ≡ false → z ≡ (if b then x else y) → z ≡ y
passed_over b x y z h e = e ∙ rw h refl

-- the object at a new address belongs to the new identifier, and the others keep theirs
module _ (v : Volume) (id : Guid) (a : ℕ) (bytes : List ℕ) (table : HashTable Guid ℕ)
    (good : IsGood v) (fresh : (q : Guid) → place v q ≢ some a)
    (viewed : (q : Guid)
      → view bucket_count table q ≡ (if equal id q then some a else place v q)) where
  abbrev created : Volume
  created = record v { chunk_table = table; heap = put_bucket v.heap a bytes }

  created-place : (q : Guid) → equal id q ≡ true → place created q ≡ some a
  created-place q h = chosen (equal id q) (some a) (place v q) (place created q) h (viewed q)

  created-place_other : (q : Guid) → equal id q ≡ false → place created q ≡ place v q
  created-place_other q h =
      passed_over (equal id q) (some a) (place v q) (place created q) h (viewed q)

  created-content :
      (q : Guid) → content created q ≡ (if equal id q then some bytes else content v q)
  unfolding put_bucket
  created-content q = elim (Bool-cases (equal id q)) [
    | inl same ↦ rw (same, created-place q same, ==_refl a) refl
    | inr other ↦ elim (Option-cases (place v q)) [
      | inl absent ↦ rw (other, created-place_other q other, absent) refl
      | inr (b, there) ↦ elim (Bool-cases (b == a)) [
        | inl e ↦ absurd (fresh q (there ∙ ap some ((==_iff b a).0 e)))
        | inr ne ↦ rw (other, created-place_other q other, there, ne) refl
      ]
    ]
  ]

  created-apart : (p q : Guid) (c : ℕ) → place created p ≡ some c → place created q ≡ some c → p ≡ q
  created-apart p q c hp hq = elim (Bool-cases (equal id p)) [
    | inl same_p ↦ elim (Bool-cases (equal id q)) [
      | inl same_q ↦ sym ((equal_iff id p).0 same_p) ∙ (equal_iff id q).0 same_q
      | inr other_q ↦
          absurd
            (fresh q (sym (created-place_other q other_q) ∙ hq ∙ sym hp ∙ created-place p same_p))
    ]
    | inr other_p ↦ elim (Bool-cases (equal id q)) [
      | inl same_q ↦
          absurd
            (fresh p (sym (created-place_other p other_p) ∙ hp ∙ sym hq ∙ created-place q same_q))
      | inr other_q ↦
          good.apart p q c (sym (created-place_other p other_p) ∙ hp)
            (sym (created-place_other q other_q) ∙ hq)
    ]
  ]

-- In a running volume whose table is valid and whose chunks are objects of their own: a create of a
-- chunk that is not there, with memory for its object at an address that no chunk has and for the
-- table's entry, succeeds; the chunk's data are what the memory held, and no other chunk changes. A
-- create of one that is there fails with `AlreadyExists` and changes nothing. The volume stays as
-- supposed.
pub chunk_create_lem :
    (v : Volume) (id : Guid) (a : ℕ) (bytes : List ℕ)
    → IsGood v
    → ((q : Guid) → place v q ≢ some a)
    → let (e, v') = chunk_create (some (a, bytes)) true id v in
      IsGood v'
      × (((place v id ≡ none)
            × (e ≡ success)
            × ((q : Guid) → content v' q ≡ (if equal id q then some bytes else content v q)))
          ⊎ ((place v id ≢ none) × (e ≡ already_exists) × (v' ≡ v)))
unfolding chunk_create create
chunk_create_lem v id a bytes good fresh =
    rw (when_running_lem (invalid_state, v) (create (some (a, bytes)) true id) v good.running)
      (elim (Option-cases (place v id)) [
        | inl absent ↦
            let (done, viewed, valid) =
              insert-new bucket_count id a v.chunk_table good.table absent in
            let table = (insert bucket_count true id a v.chunk_table).1 in
            rw (lookup_absent v id absent, done)
              (
                record {
                  running = good.running;
                  table = valid;
                  apart = created-apart v id a bytes table good fresh viewed;
                },
                inl (absent, refl, created-content v id a bytes table good fresh viewed),
              )
        | inr (b, present) ↦
            rw (lookup_present v id b present) (good, inr (λ h. cc (h, present), refl, refl))
      ])

-- without one identifier, the others keep their objects
module _ (v : Volume) (id : Guid) (table : HashTable Guid ℕ) (good : IsGood v)
    (viewed : (q : Guid)
      → view bucket_count table q ≡ (if equal id q then none else place v q)) where
  abbrev removed : Volume
  removed = record v { chunk_table = table }

  removed-place : (q : Guid) (c : ℕ) → place removed q ≡ some c → place v q ≡ some c
  removed-place q c h = elim (Bool-cases (equal id q)) [
    | inl same ↦
        absurd (cc (sym h ∙ chosen (equal id q) none (place v q) (place removed q) same (viewed q)))
    | inr other ↦
        sym (passed_over (equal id q) none (place v q) (place removed q) other (viewed q)) ∙ h
  ]

  removed-content : (q : Guid) → content removed q ≡ (if equal id q then none else content v q)
  removed-content q = elim (Bool-cases (equal id q)) [
    | inl same ↦
        rw (same, chosen (equal id q) none (place v q) (place removed q) same (viewed q)) refl
    | inr other ↦
        rw (other, passed_over (equal id q) none (place v q) (place removed q) other (viewed q))
          refl
  ]

  removed-apart : (p q : Guid) (c : ℕ) → place removed p ≡ some c → place removed q ≡ some c → p ≡ q
  removed-apart p q c hp hq = good.apart p q c (removed-place p c hp) (removed-place q c hq)

-- In a running volume whose table is valid and whose chunks are objects of their own: a delete of a
-- chunk that is there succeeds and removes it alone; of one that is not there it fails with
-- `NotFound` and changes nothing. The volume stays as supposed.
pub chunk_delete_lem :
    (v : Volume) (id : Guid)
    → IsGood v
    → let (e, v') = chunk_delete id v in
      IsGood v'
      × (((place v id ≢ none)
            × (e ≡ success)
            × ((q : Guid) → content v' q ≡ (if equal id q then none else content v q)))
          ⊎ ((place v id ≡ none) × (e ≡ not_found) × (v' ≡ v)))
unfolding chunk_delete remove
chunk_delete_lem v id good =
    let (done, viewed, valid) = delete-view bucket_count id v.chunk_table good.table in
    let table = (delete bucket_count id v.chunk_table).1 in
    rw (when_running_lem (invalid_state, v) (remove id) v good.running)
      (elim (Option-cases (place v id)) [
        | inl absent ↦ rw (done ∙ ap is_some absent) (good, inr (absent, refl, refl))
        | inr (b, present) ↦ rw (done ∙ ap is_some present) (
          record {
            running = good.running;
            table = valid;
            apart = removed-apart v id table good viewed;
          },
          inl (λ h. cc (h, present), refl, removed-content v id table good viewed),
        )
      ])

refused_in {ℓ} :
    {A : Type ℓ} (bad : A) (rest : Volume → A) (v : Volume) (s : VolumeState)
    → s ≢ VolumeState.running
    → when_running bad rest (record v { state = s }) ≡ bad
unfolding when_running
refused_in bad rest v VolumeState.running h = absurd (h refl)
refused_in bad rest v s h = refl

-- Every operation on the chunks of a volume that does not run fails with `InvalidState` and changes
-- nothing.
pub chunk_refused :
    (v : Volume) (allocated : Option (ℕ × List ℕ)) (node : Bool) (id : Guid) (bytes : List ℕ)
    → v.state ≢ VolumeState.running
    → (chunk_create allocated node id v ≡ (invalid_state, v))
      × (chunk_write id bytes v ≡ (invalid_state, v))
      × (chunk_read id v ≡ err invalid_state)
      × (chunk_delete id v ≡ (invalid_state, v))
      × (chunk_lookup id v ≡ invalid_state)
unfolding chunk_create chunk_write chunk_read chunk_delete chunk_lookup
chunk_refused v allocated node id bytes h = (
  refused_in (invalid_state, v) (create allocated node id) v v.state h,
  refused_in (invalid_state, v) (put id bytes) v v.state h,
  refused_in (err invalid_state) (get id) v v.state h,
  refused_in (invalid_state, v) (remove id) v v.state h,
  refused_in invalid_state (look_up id) v v.state h,
)
