-- ===== src/Lib.antt =====
-- cpp_lkm: a storage server inside the Linux kernel. A volume of fixed-size chunks lies on a block
-- device, with a write-ahead journal; clients reach it through a server and a control device. The
-- development models the journal (kstor/journal.cpp), the volume and its chunks (kstor/volume.cpp),
-- what these stand on in core/, and the B-tree (core/btree.h) with its client, the block allocator
-- (kstor/block_allocator.cpp).
--
-- How the parts interact: a client begins a transaction and adds page writes to it; its commit waits
-- in a list. The journal's thread takes the list, writes every transaction as a begin block, data
-- blocks and a commit block to the positions that the ring buffer hands out, then the journal's
-- header, as one list of requests whose last is behind a barrier. The client then applies its data
-- blocks to their places on the device, and the ring drops the indices of transactions that were
-- applied. Loading the journal reads the header and replays what the ring still holds.
--
-- Files and the code that they model:
--   Prelude, and Prelude/: names passed on from the libraries, Boolean tests, lists over the native
--     numbers, 64-bit arithmetic, and the codes of core/error.h.
--   Core/RingBuffer: core/ring_buffer.h. Fields as in the class; Contents has the invariant and the
--     indices that a ring holds as a list, Laws each operation against that list.
--   Core/HashTable: core/hash_table.h, with the chains of core/list.h as lists; Laws has the table
--     as a partial function from keys.
--   Core/Bitmap: core/bitmap.cpp and core/bitops.cpp on the list of the buffer's bits; FirstZero is
--     what the search is for.
--   Core/Memory, Core/Bytes: ranges and arrays of core/memory.h; the byte order of core/bitops.cpp.
--   Core/Disk, Core/Bio: the content of a device, and the lists of requests of core/bio.h. A record
--     stands for the kernel's block layer; Bio/Laws has the case of a device without failures.
--   Core/Btree: core/btree.h, with nodes as values. Search: the binary search in a node; Shape, Order,
--     Entries and Around: the invariant, and the entries of a tree in the order of their keys;
--     Lookup and Depth: Lookup, Check and the depths; Insert: Insert, with Split, Above, Step,
--     Rounds, Root and Laws from SplitChild up to the tree as a map. Delete: Delete, with Sibling,
--     View, Pair, Split and Balance for ChildGiveKey, ChildMerge and ChildBalance, Walk for
--     FindLeftMost and FindRightMost, Without, Round and Laws for what goes from the map; Clear: Clear.
--   Kstor/Layout: kstor/api.h and the reading and writing of journal blocks and of the journal's
--     header in kstor/journal.cpp, and of the volume's header in kstor/volume.cpp, byte by byte (WriteTxBlockPrepare is `write_tx_block_prepare`,
--     ReadTxBlockComplete is `read_tx_block_complete`, and so on).
--   Kstor/Guid: kstor/guid.cpp, the key of the journal's table.
--   Kstor/Journal: kstor/journal.cpp and kstor/journal.h. Positions: IndexToPosition and
--     CheckPosition; Transaction: Transaction::Write; Log: WriteTx and what it calls, with
--     Outcome for how it leaves a transaction; Replay: Replay and ApplyBlocks, with Check, Apply,
--     Page (a page from Write to the device), Loop, Recovery, Commit and Empty for what they do to a
--     log on the device; Header: Format and Load, with Reload and Formatted; Session, with Batch,
--     Durable, Compact and Canceled: BeginTx, Commit, Cancel, EraseTx, Run, Flush, CompactLog and
--     Unload.
--   Kstor/Volume: the chunk operations of kstor/volume.cpp; a pointer to a chunk is an address of a
--     heap, and Chunks has the volume as a map from identifiers to data, and
--     Reads what a client reads after each operation. Mount: Format, Load and
--     Unload, with Reload, Formatted and Unloaded for what a later Load makes of the device.
--   Kstor/BlockAllocator: kstor/block_allocator.cpp, a client of the B-tree; Laws has its blocks as a
--     map from indices.
--   Core/Tests, Kstor/Tests: runs on concrete inputs.
--
-- State: objects are records with the members of the class, passed on explicitly; a list of pointers
-- is a list of values, and a transaction carries the address of its object where the code compares
-- pointers. What takes a lock is one step. An error is a value of `Error`, and a function that has
-- out parameters returns a `Result`. `size_t` and `uint64_t` wrap at 2^64 and `unsigned int` at
-- 2^32, written out where the code computes.
--
-- Parameters: the block layer (`Device`), the sum of core/xxhash.cpp, which is a copy of another
-- project's code and of which only the length is used, what a newly allocated page holds and
-- what stands behind the data of a block of the log (`Leftover`), and the flags that say which
-- allocations succeed.
--
-- Fuel: `replay_loop` runs one round more than the ring holds indices, since every round takes one
-- away; `split_page` runs one round more than the page has bytes, since every round reads some;
-- `compact_passes` runs one pass more than there are transactions, since every pass but the last
-- takes one out.
--
-- An insertion into a B-tree runs two rounds for each level of the tree, since a child
-- that was split leaves none full on the way; a deletion has twice as many rounds as the tree has
-- levels, and needs one for each level; Clear has as many walks as the tree has nodes, since each
-- walk but the last takes nodes away.
--
-- Not modelled: allocation in the block allocator, which is not implemented, the server, the control
-- device, the vectors, strings and smart pointers of core/, the kernel's side in system/, the tools. Of the
-- journal: tracing, and the order in which the device completes the requests of one list, which
-- are carried out in the list's order.
pub mod Prelude
pub mod Core
pub mod Kstor
