-- ===== src/Kstor/Volume/Reads.antt =====
-- kstor/volume.cpp: what a client reads after it created, wrote or deleted a chunk.
use cpp_lkm.Prelude.{
  ℕ, ◌≡◌, ◌≢◌, ◌⊎◌, inl, inr, refl, sym, ap, ◌∙◌, Bool, true, false, List, Option, none, some,
  Option-cases, if◌then◌else◌, success, Result, ok, err, not_found, already_exists,
}
use cpp_lkm.Kstor.Guid.{Guid, equal}
use cpp_lkm.Kstor.Volume.{Volume, chunk_create, chunk_write, chunk_read, chunk_delete}
use cpp_lkm.Kstor.Volume.Chunks.{
  place, content, data_at, IsGood, chunk_read_lem, chunk_create_lem, chunk_write_lem,
  chunk_delete_lem,
}

-- what a read makes of the data of a chunk
abbrev read_of : Option (List ℕ) → Result (List ℕ)
read_of none = err not_found
read_of (some bytes) = ok bytes

read_as : (v : Volume) (id : Guid) → IsGood v → chunk_read id v ≡ read_of (content v id)
read_as v id good = chunk_read_lem v id good ∙ same (content v id)
  where
    same :
        (c : Option (List ℕ)) → elim c [ none ↦ err not_found | some bytes ↦ ok bytes ] ≡ read_of c
    same none = refl
    same (some bytes) = refl

read_absent :
    (v : Volume) (id : Guid) → IsGood v → place v id ≡ none → chunk_read id v ≡ err not_found
read_absent v id good absent = read_as v id good ∙ ap (λ p. read_of (data_at v.heap p)) absent

read_present :
    (v : Volume) (id : Guid)
    → IsGood v
    → place v id ≢ none
    → (old : List ℕ) × (chunk_read id v ≡ ok old)
read_present v id good there = elim (Option-cases (place v id)) [
  | inl absent ↦ absurd (there absent)
  | inr (a, present) ↦ (v.heap a, read_as v id good ∙ ap (λ p. read_of (data_at v.heap p)) present)
]

-- reads of a volume that differs from another in one chunk
read_changed :
    (v v' : Volume) (id : Guid) (c : Option (List ℕ))
    → IsGood v
    → IsGood v'
    → ((q : Guid) → content v' q ≡ (if equal id q then c else content v q))
    → (q : Guid) → chunk_read q v' ≡ (if equal id q then read_of c else chunk_read q v)
read_changed v v' id c good good' changed q =
    read_as v' q good'
    ∙ ap read_of (changed q)
    ∙ choose (equal id q) (content v q)
    ∙ ap (λ x. if equal id q then read_of c else x) (sym (read_as v q good))
  where
    choose :
        (b : Bool) (x : Option (List ℕ))
        → read_of (if b then c else x) ≡ (if b then read_of c else read_of x)
    choose true x = refl
    choose false x = refl

-- In a running volume whose table is valid and whose chunks are objects of their own, by reads alone:
-- a create, with memory for the object at an address that no chunk has and for the table's entry,
-- fails with `AlreadyExists` and changes nothing if the chunk can be read, and otherwise succeeds, and
-- then the chunk reads as what the memory held; a write and a delete fail with `NotFound` and change
-- nothing if the chunk cannot be read, and otherwise succeed, and then it reads as the written bytes,
-- and is not found. Every other chunk reads as before.
pub chunks_read_back :
    (v : Volume) (id : Guid) (a : ℕ) (bytes : List ℕ)
    → IsGood v
    → ((q : Guid) → place v q ≢ some a)
    → let (e1, v1) = chunk_create (some (a, bytes)) true id v in
      let (e2, v2) = chunk_write id bytes v in
      let (e3, v3) = chunk_delete id v in
      let written = λ (w : Volume).
        ((q : Guid) → chunk_read q w ≡ (if equal id q then ok bytes else chunk_read q v)) in
      (((chunk_read id v ≡ err not_found) × (e1 ≡ success) × written v1)
        ⊎ (((old : List ℕ) × (chunk_read id v ≡ ok old)) × (e1 ≡ already_exists) × (v1 ≡ v)))
      × ((((old : List ℕ) × (chunk_read id v ≡ ok old)) × (e2 ≡ success) × written v2)
          ⊎ ((chunk_read id v ≡ err not_found) × (e2 ≡ not_found) × (v2 ≡ v)))
      × ((((old : List ℕ) × (chunk_read id v ≡ ok old))
            × (e3 ≡ success)
            × ((q : Guid)
                → chunk_read q v3 ≡ (if equal id q then err not_found else chunk_read q v)))
          ⊎ ((chunk_read id v ≡ err not_found) × (e3 ≡ not_found) × (v3 ≡ v)))
chunks_read_back v id a bytes good fresh =
    let (good1, made) = chunk_create_lem v id a bytes good fresh in
    let (good2, put) = chunk_write_lem v id bytes good in
    let (good3, gone) = chunk_delete_lem v id good in
    (
      elim made [
        | inl (absent, done, changed) ↦ inl (
          read_absent v id good absent,
          done,
          read_changed v _ id (some bytes) good good1 changed,
        )
        | inr (there, failed, same) ↦ inr (read_present v id good there, failed, same)
      ],
      elim put [
        | inl (there, done, changed) ↦ inl (
          read_present v id good there,
          done,
          read_changed v _ id (some bytes) good good2 changed,
        )
        | inr (absent, failed, same) ↦ inr (read_absent v id good absent, failed, same)
      ],
      elim gone [
        | inl (there, done, changed) ↦
            inl (read_present v id good there, done, read_changed v _ id none good good3 changed)
        | inr (absent, failed, same) ↦ inr (read_absent v id good absent, failed, same)
      ],
    )
