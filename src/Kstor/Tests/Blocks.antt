-- ===== src/Kstor/Tests/Blocks.antt =====
-- kstor/block_allocator.cpp on concrete inputs: an allocator with one block.
use cpp_lkm.Prelude.{
  ℕ, ◌≡◌, ◌≢◌, refl, Bool, true, false, [], ◌∷◌, none, some, arith, ◌==◌, if◌then◌else◌,
  invalid_value, ok, err,
}
use cpp_lkm.Core.Btree.{btree_node, no_nodes, lookup_from, find_key_index, search}
use cpp_lkm.Core.Btree.Insert.{insert, lookup}
use cpp_lkm.Core.Btree.Shape.{entries}
use cpp_lkm.Kstor.BlockAllocator.{
  BlockAllocator, load_blocks, lookup_block, create_locked, create_block, delete_block,
}
use cpp_lkm.Kstor.BlockAllocator.Laws.{IsValid, create_locked_lem}

abbrev allocator : BlockAllocator
allocator = record {
  start = 0;
  size = 0;
  max_index = 0;
  block_tree = some (btree_node true ((7, 0) ∷ []) no_nodes);
  heap = record { index = 7; page = some (false ∷ true ∷ []) } ∷ [];
}

allocator-IsValid : IsValid allocator
unfolding entries
allocator-IsValid =
    (0, record { shape = (refl, refl, omega arith, omega arith); order = omega arith })

abbrev plenty : ℕ → Bool
plenty n = true

create_locked_lem_example :
    let (r, a') = create_locked true true plenty (false ∷ []) 9 allocator in
    let deleted = delete_block 9 a' in
    (IsValid a' × IsValid deleted)
    × (r ≢ none)
    × ((q : ℕ) → lookup_block q a' ≡ (if q == 9 then r else lookup_block q allocator))
    × ((p : ℕ) → lookup_block 9 allocator ≡ some p → r ≡ some p)
    × ((q : ℕ) → lookup_block q deleted ≡ (if q == 9 then none else lookup_block q allocator))
create_locked_lem_example =
    create_locked_lem plenty (false ∷ []) 9 allocator (λ m. refl) allocator-IsValid

-- a block that is there is found again
found_again : create_block true true plenty [] 7 allocator ≡ (some 0, allocator)
unfolding create_block create_locked lookup_block insert lookup lookup_from find_key_index search
found_again = refl

-- the index range of a part that starts behind its own size
loaded :
    load_blocks 4096 65536 8192 4096 allocator
    ≡ some (ok (record allocator { start = 8192; size = 4096; max_index = 2 }))
unfolding load_blocks
loaded = refl

-- a size of 0 passes the tests and divides
size_zero : load_blocks 4096 65536 8192 0 allocator ≡ none
unfolding load_blocks
size_zero = refl

unaligned : load_blocks 4096 65536 8192 4097 allocator ≡ some (err invalid_value)
unfolding load_blocks
unaligned = refl
