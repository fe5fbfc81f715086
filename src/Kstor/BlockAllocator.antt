-- ===== src/Kstor/BlockAllocator.antt =====
-- kstor/block_allocator.cpp: bitmap blocks, and the B-tree that an allocator finds them by.
pub mod Laws
use cpp_lkm.Prelude.{
  ℕ, ◌+◌, ◌*◌, ◌/◌, ◌%◌, Bool, true, false, not, List, [], ◌∷◌, ◌++◌, Option, none, some, map, ltb,
  ◌==◌, ◌||◌, if◌then◌else◌, length, take, add64, Result, ok, err, ◌>>=◌, ◌>>◌, reject,
  invalid_value, invalid_state,
}
use cpp_lkm.Core.Bitmap.{
  set_bit, clear_bit, test_and_set_bit, test_and_clear_bit, find_set_zero_bit,
}
use cpp_lkm.Core.Btree.{Node}
use cpp_lkm.Core.Btree.Delete.{delete}
use cpp_lkm.Core.Btree.Insert.{lookup, insert}

-- The bits of the page, which a block may lack.
pub record BitmapBlock : Type 0 where
  pub index : ℕ
  pub page : Option (List Bool)

-- `if (Page.Get() == nullptr) return MakeError(Core::Error::InvalidState);`
unfoldable pub on_page {ℓ} : {A : Type ℓ} → BitmapBlock → (List Bool → Result A) → Result A
on_page block run = elim block.page [ none ↦ err invalid_state | some bits ↦ run bits ]

abbrev pub with_page : BitmapBlock → List Bool → BitmapBlock
with_page block bits = record block { page = some bits }

unfoldable pub block_set_bit : ℕ → BitmapBlock → Result BitmapBlock
block_set_bit bit block = on_page block (λ bits. set_bit bit bits >>= λ b. ok (with_page block b))

unfoldable pub block_clear_bit : ℕ → BitmapBlock → Result BitmapBlock
block_clear_bit bit block =
    on_page block (λ bits. clear_bit bit bits >>= λ b. ok (with_page block b))

unfoldable pub block_test_and_set_bit : ℕ → BitmapBlock → Result (Bool × BitmapBlock)
block_test_and_set_bit bit block =
    on_page block (λ bits. test_and_set_bit bit bits >>= λ r. ok (r.0, with_page block r.1))

unfoldable pub block_test_and_clear_bit : ℕ → BitmapBlock → Result (Bool × BitmapBlock)
block_test_and_clear_bit bit block =
    on_page block (λ bits. test_and_clear_bit bit bits >>= λ r. ok (r.0, with_page block r.1))

-- `beyond` is what lies behind the page, as in the search of the bitmap; a bit that the search sets
-- there is none of the block's.
unfoldable pub block_find_set_zero_bit : List Bool → BitmapBlock → Result (ℕ × BitmapBlock)
block_find_set_zero_bit beyond block = on_page block (λ bits.
    find_set_zero_bit bits beyond >>= λ r. ok (r.0, with_page block (take (length bits) r.1)))

-- A pointer to a block is its place in `heap`; the tree has minimum degree 2.
pub record BlockAllocator : Type 0 where
  pub start : ℕ
  pub size : ℕ
  pub max_index : ℕ
  pub block_tree : Option (Node ℕ)
  pub heap : List BitmapBlock

abbrev pub degree : ℕ
degree = 2

-- `Load`, on a volume with a block size and a size; `none` is a division by zero.
unfoldable pub load_blocks : ℕ → ℕ → ℕ → ℕ → BlockAllocator → Option (Result BlockAllocator)
load_blocks block_size volume_size start size a =
    if not (start % block_size == 0) || not (size % block_size == 0)
    then some (err invalid_value)
    else if ltb volume_size (add64 start size)
    then some (err invalid_value)
    else if size == 0
    then none
    else some (
        reject (start / size == 0) invalid_value
        >> ok (record a { start = start; size = size; max_index = start / size }))

-- `LookupBlock`
unfoldable pub lookup_block : ℕ → BlockAllocator → Option ℕ
lookup_block index a = lookup index a.block_tree

-- What `CreateBlock` does under the exclusive lock. The flags say whether the block and its page
-- can be allocated, `memory` does for the nodes of the tree; `bits` is what the new page holds.
unfoldable pub create_locked :
    Bool → Bool → (ℕ → Bool) → List Bool → ℕ → BlockAllocator → Option ℕ × BlockAllocator
create_locked allocated paged memory bits index a =
    let p = length a.heap in
    let block : BitmapBlock = record { index = index; page = some bits } in
    let (done, tree) = insert degree memory index p a.block_tree in
    if not allocated || not paged
    then (none, a)
    else if done
    then (some p, record a { block_tree = tree; heap = a.heap ++ (block ∷ []) })
    else (lookup index tree, record a { block_tree = tree })

-- `CreateBlock`: first under the shared lock
unfoldable pub create_block :
    Bool → Bool → (ℕ → Bool) → List Bool → ℕ → BlockAllocator → Option ℕ × BlockAllocator
create_block allocated paged memory bits index a =
    let created = create_locked allocated paged memory bits index a in
    elim (lookup_block index a) [ some p ↦ (some p, a) | none ↦ created ]

-- `DeleteBlock`
unfoldable pub delete_block : ℕ → BlockAllocator → BlockAllocator
delete_block index a = record a { block_tree = (delete degree index a.block_tree).1 }
