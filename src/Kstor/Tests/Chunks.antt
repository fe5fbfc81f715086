-- ===== src/Kstor/Tests/Chunks.antt =====
-- kstor/volume.cpp on concrete inputs: a running volume without chunks, and one with one.
use cpp_lkm.Kstor.Volume.Reads.{chunks_read_back}
use cpp_lkm.Prelude.{
  ℕ, List, sym, ap, ◌∙◌, Bool-cases, inl, inr, ◌≡◌, ◌≢◌, ◌⊎◌, refl, true, if◌then◌else◌, [], ◌∷◌,
  none, some, success, not_found, already_exists, ok, err, arith,
}
use cpp_lkm.Core.HashTable.{find, insert}
use cpp_lkm.Core.HashTable.Chain.{count}
use cpp_lkm.Core.HashTable.Laws.{view, insert-new}
use cpp_lkm.Kstor.Guid.{Guid, guid_key, equal, equal_iff}
use cpp_lkm.Kstor.Layout.Fields.{zeros}
use cpp_lkm.Kstor.Tests.{session}
use cpp_lkm.Kstor.Volume.{
  Volume, VolumeState, bucket_count, chunk_create, chunk_write, chunk_read, chunk_delete,
}
use cpp_lkm.Kstor.Volume.Chunks.{
  place, content, IsGood, chunk_create_lem, chunk_write_lem, chunk_delete_lem,
}

abbrev pub volume : Volume
volume = record {
  state = VolumeState.running;
  volume_id = zeros 16;
  session = session;
  chunk_table = record { bucket = λ i. []; empty_value = 0 };
  heap = λ a. [];
}

volume-place : (q : Guid) → place volume q ≡ none
unfolding view find
volume-place q = refl

volume-IsGood : IsGood volume
unfolding count
volume-IsGood = record {
  running = refl;
  table = record { once = λ k i. omega arith; at_home = λ k i away. refl };
  apart = λ p q a h k. absurd (cc (h, volume-place p));
}

abbrev id : Guid
id = zeros 16

chunk_create_lem_example :
    let (e, v') = chunk_create (some (7, 1 ∷ [])) true id volume in
    IsGood v'
    × (((place volume id ≡ none)
          × (e ≡ success)
          × ((q : Guid) → content v' q ≡ (if equal id q then some (1 ∷ []) else content volume q)))
        ⊎ ((place volume id ≢ none) × (e ≡ already_exists) × (v' ≡ volume)))
chunk_create_lem_example =
    chunk_create_lem volume id 7 (1 ∷ []) volume-IsGood (λ q h. cc (h, volume-place q))

-- the volume with the chunk
abbrev one_chunk : Volume
one_chunk = (chunk_create (some (7, 1 ∷ [])) true id volume).1

one_chunk-IsGood : IsGood one_chunk
one_chunk-IsGood =
    (chunk_create_lem volume id 7 (1 ∷ []) volume-IsGood (λ q h. cc (h, volume-place q))).0

chunk_write_lem_example :
    let (e, v') = chunk_write id (2 ∷ []) one_chunk in
    IsGood v'
    × (((place one_chunk id ≢ none)
          × (e ≡ success)
          × ((q : Guid)
              → content v' q ≡ (if equal id q then some (2 ∷ []) else content one_chunk q)))
        ⊎ ((place one_chunk id ≡ none) × (e ≡ not_found) × (v' ≡ one_chunk)))
chunk_write_lem_example = chunk_write_lem one_chunk id (2 ∷ []) one_chunk-IsGood

-- a volume whose table holds the chunk at address 7
abbrev held : Volume
held = record volume {
  chunk_table = (insert bucket_count true id 7 volume.chunk_table).1;
  heap = λ a. 1 ∷ [];
}

held-place : (q : Guid) → place held q ≡ (if equal id q then some 7 else none)
held-place q =
    (insert-new bucket_count id 7 volume.chunk_table volume-IsGood.table (volume-place id)).1 q
    ∙ ap (λ x. if equal id q then some 7 else x) (volume-place q)

-- no other address and no other identifier is in it
held-only : (q : Guid) (a : ℕ) → place held q ≡ some a → (a ≡ 7) × (id ≡ q)
held-only q a h = elim (Bool-cases (equal id q)) [
  | inl same ↦
      let there : place held q ≡ some 7 = held-place q ∙ rw same refl in
      let e : a ≡ 7 = cc (there, h) in (e, (equal_iff id q).0 same)
  | inr other ↦
      let absent : place held q ≡ none = held-place q ∙ rw other refl in absurd (cc (absent, h))
]

held-IsGood : IsGood held
held-IsGood = record {
  running = refl;
  table = (insert-new bucket_count id 7 volume.chunk_table volume-IsGood.table (volume-place id)).2;
  apart = λ p q a h k. sym (held-only p a h).1 ∙ (held-only q a k).1;
}

held-place_free : (q : Guid) → place held q ≢ some 9
held-place_free q h = absurd (omega (arith, (held-only q 9 h).0))

chunks_read_back_example :
    let (e1, v1) = chunk_create (some (9, 2 ∷ [])) true id held in
    let (e2, v2) = chunk_write id (2 ∷ []) held in
    let (e3, v3) = chunk_delete id held in
    let written = λ (w : Volume).
      ((q : Guid) → chunk_read q w ≡ (if equal id q then ok (2 ∷ []) else chunk_read q held)) in
    (((chunk_read id held ≡ err not_found) × (e1 ≡ success) × written v1)
      ⊎ (((old : List ℕ) × (chunk_read id held ≡ ok old)) × (e1 ≡ already_exists) × (v1 ≡ held)))
    × ((((old : List ℕ) × (chunk_read id held ≡ ok old)) × (e2 ≡ success) × written v2)
        ⊎ ((chunk_read id held ≡ err not_found) × (e2 ≡ not_found) × (v2 ≡ held)))
    × ((((old : List ℕ) × (chunk_read id held ≡ ok old))
          × (e3 ≡ success)
          × ((q : Guid)
              → chunk_read q v3 ≡ (if equal id q then err not_found else chunk_read q held)))
        ⊎ ((chunk_read id held ≡ err not_found) × (e3 ≡ not_found) × (v3 ≡ held)))
chunks_read_back_example = chunks_read_back held id 9 (2 ∷ []) held-IsGood held-place_free

chunk_delete_lem_example :
    let (e, v') = chunk_delete id one_chunk in
    IsGood v'
    × (((place one_chunk id ≢ none)
          × (e ≡ success)
          × ((q : Guid) → content v' q ≡ (if equal id q then none else content one_chunk q)))
        ⊎ ((place one_chunk id ≡ none) × (e ≡ not_found) × (v' ≡ one_chunk)))
chunk_delete_lem_example = chunk_delete_lem one_chunk id one_chunk-IsGood

abbrev new_volume : Volume
new_volume = record volume { state = VolumeState.new }

new_volume-state : new_volume.state ≢ VolumeState.running
new_volume-state h = absurd (cc h)
