-- ===== src/Kstor/BlockAllocator/Laws.antt =====
-- kstor/block_allocator.cpp: the blocks of an allocator as a map from their indices.
use native.Mathlib.Decide.{ℕ_discrete}
use cpp_lkm.Prelude.{
  ℕ, ◌≡◌, ◌≢◌, inl, inr, sym, ap, ◌∙◌, Bool, true, List, Option, none, some, arith, ◌==◌,
  if◌then◌else◌, length,
}
use cpp_lkm.Core.Btree.Delete.Laws.{delete_lem, delete-IsBtree}
use cpp_lkm.Core.Btree.Insert.{insert, lookup}
use cpp_lkm.Core.Btree.Insert.Laws.{insert_lem, insert-IsBtree}
use cpp_lkm.Core.Btree.Insert.Root.{IsBtree}
use cpp_lkm.Kstor.BlockAllocator.{BlockAllocator, lookup_block, create_locked, delete_block}

abbrev pub IsValid : BlockAllocator → Type 0
IsValid a = IsBtree 2 a.block_tree

-- `DeleteBlock` takes the block of an index away, and no other.
delete_block_lem :
    (index q : ℕ) (a : BlockAllocator)
    → IsValid a
    → lookup_block q (delete_block index a) ≡ (if q == index then none else lookup_block q a)
unfolding lookup_block delete_block
delete_block_lem index q a h = (delete_lem 2 (omega arith) index a.block_tree h).0 q

-- the result of a creation, and what every lookup finds then
created_lem :
    (memory : ℕ → Bool) (bits : List Bool) (index : ℕ) (a : BlockAllocator)
    → ((m : ℕ) → memory m ≡ true)
    → IsValid a
    → let (r, a') = create_locked true true memory bits index a in
      IsValid a'
      × (r ≢ none)
      × ((q : ℕ) → lookup_block q a' ≡ (if q == index then r else lookup_block q a))
      × ((p : ℕ) → lookup_block index a ≡ some p → r ≡ some p)
unfolding create_locked lookup_block
created_lem memory bits index a enough h =
    let p = length a.heap in
    let r = insert 2 memory index p a.block_tree in
    let valid : IsBtree 2 r.1 = insert-IsBtree 2 (omega arith) memory index p a.block_tree h in
    elim (insert_lem 2 (omega arith) memory index p a.block_tree h enough) [
      | inl (free, done, found) ↦
          rw done (valid, λ no. absurd (cc no), found, λ q there. absurd (cc (free, there)))
      | inr (held, refused, same) ↦ rw refused (
        valid,
        λ no. held (sym (ap (lookup index) same) ∙ no),
        λ q. ap (lookup q) same ∙ elim (ℕ_discrete q index) [
          | yes e ↦ ap (λ k. lookup k a.block_tree) e ∙ sym (ap (lookup index) same) ∙ grind arith
          | no ne ↦ grind arith
        ],
        λ q there. ap (lookup index) same ∙ there,
      )
    ]

twice :
    (index q : ℕ) (r x : Option ℕ)
    → (if q == index then none else (if q == index then r else x))
      ≡ (if q == index then none else x)
twice index q r x = grind arith

-- With memory: under the exclusive lock of `CreateBlock`, even when another thread has created the
-- block since, the result is the block that every later `LookupBlock` of the index finds, the one
-- that was there before if there was one; the lookups of all other indices are as before. A
-- `DeleteBlock` of the index then leaves nothing for it and all other blocks. Both keep the
-- invariant of the tree.
pub create_locked_lem :
    (memory : ℕ → Bool) (bits : List Bool) (index : ℕ) (a : BlockAllocator)
    → ((m : ℕ) → memory m ≡ true)
    → IsValid a
    → let (r, a') = create_locked true true memory bits index a in
      let deleted = delete_block index a' in
      (IsValid a' × IsValid deleted)
      × (r ≢ none)
      × ((q : ℕ) → lookup_block q a' ≡ (if q == index then r else lookup_block q a))
      × ((p : ℕ) → lookup_block index a ≡ some p → r ≡ some p)
      × ((q : ℕ) → lookup_block q deleted ≡ (if q == index then none else lookup_block q a))
unfolding delete_block
create_locked_lem memory bits index a enough h =
    let (r, a') = create_locked true true memory bits index a in
    let (valid, there, found, kept) = created_lem memory bits index a enough h in
    (
      (valid, delete-IsBtree 2 (omega arith) index a'.block_tree valid),
      there,
      found,
      kept,
      λ q.
          delete_block_lem index q a' valid
          ∙ ap (λ x. if q == index then none else x) (found q)
          ∙ twice index q r (lookup_block q a),
    )
