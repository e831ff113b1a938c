-- ===== src/Lib.antt =====
-- c_specx is a C library of containers, allocators, locks and small parsers. This library models its
-- core and proves what makes each part correct. Paths are from the root of the repository.
--
-- Parts, and the files that model them:
--
-- * The circular buffer, include/c_specx/ds/cbuffer.h and src/ds/cbuffer.c. CBuffer.antt has the
--   handle, queries, cursor moves and the bulk read, copy and write; the prefix `cbuffer_` is the
--   module (`cbuffer_read` is `CBuffer.read`). CBuffer/Element.antt has the pushes, pops, peeks and
--   `cbuffer_get`, CBuffer/Transfer.antt the transfers between two buffers, CBuffer/FileIo.antt
--   those with a file. CBuffer/Inv.antt states what a valid buffer is and its contents, the list of
--   bytes that an operation's theorem speaks of: the ring refines a queue of bytes.
-- * The multi-granularity lock, src/concurrency/gr_lock.c. GrLock.antt has its table of modes, the
--   lists of waiters and one function per critical section: `gr_lock` is `lock_enter`, up to its
--   return or its first wait, and `lock_resume`, from a return of the wait on. GrLock/System.antt
--   runs any number of threads over one lock in any order, with spurious wake-ups. GrLock/Safety.antt
--   has the theorems on the states they reach, over the invariants of GrLock/Invariant.antt (the
--   counters) and GrLock/Line.antt (the list of waiters).
-- * The allocators and byte streams of src/memory: Memory/Lalloc.antt (lalloc.c),
--   Memory/ChunkAlloc.antt (chunk_alloc.c), which allocates from a list of linear allocators,
--   Memory/SlabAlloc.antt (slab_alloc.c), which hands out slots of slabs, Memory/Serial.antt
--   (serializer.c and deserializer.c) and Memory/MallocPlan.antt (malloc_plan.c). Of the slab
--   allocator, Memory/SlabAlloc/Slots.antt and Slabs.antt say which slots are handed out, Alloc.antt
--   and Free.antt are about its two calls, and Separate.antt about any sequence of them.
-- * The slices of src/ds/stride.c and include/c_specx/ds/stride.h: Stride.antt.
-- * The extendable array of src/ds/ext_array.c: ExtArray.antt. It reads, writes and removes by a
--   resolved stride.
-- * The block array of src/ds/block_array.c, a list of blocks that holds bytes: BlockArray.antt.
--   BlockArray/Inv.antt says what its contents are, BlockArray/Agree.antt compares it with the
--   extendable array.
-- * The double buffer of src/ds/dbl_buffer.c, an array that grows: DblBuffer.antt.
-- * The chained hash table of src/ds/hash_table.c: HashTable.antt.
-- * The Robin Hood hash table of include/c_specx/ds/robin_hood_ht.h: RobinHood.antt. The macros of
--   the header that name its functions are functions here (`HT_INSERT` is `ht_insert`).
--   RobinHood/Inv.antt has the invariant of the probes, RobinHood/Map.antt the finite map that the
--   table implements.
-- * The decimal parsers of src/core/numbers.c: Numbers.antt.
-- * Base.antt passes on the names that all parts share: Base/Tests.antt Boolean tests, Base/Lists.antt
--   and Base/Bytes.antt lists as byte arrays, Base/Words.antt 32-bit words, Base/Ints.antt signed
--   numbers. A module called Tests has runs on small inputs, and its part's theorems at such inputs.
--
-- Conventions. A number of the source is a natural number. Arithmetic on uint32_t that can wrap is
-- written with `add32`, `sub32` and `mul32`. A pointer into an array is an index, and what a call
-- copies out is a list. A function that updates an object returns the new one. A latch is held for a
-- whole call, so that a call is one step. `ASSERT` is no code in a release build: what it checks is in
-- the invariants and in the premises of the theorems.
--
-- Fuel. The loops of `cbuffer_read`, `cbuffer_copy`, `cbuffer_write` and of the two fillers of an I/O
-- vector run on fuel, which is the number of bytes to move. Each round moves one byte at least, so
-- that is enough; the theorems on these calls say how many bytes they have moved, which shows it.
-- `ext_array_remove` runs on the length of the array, as each round takes an element of a byte at least
-- on. `ext_array_read` and `ext_array_write` run on the number of elements, and have no result where a
-- uint32_t counter has wrapped before it reaches that number, as the loop then does not end. The loops of
-- `block_array_insert` run on the number of bytes to write; that of `block_array_read` on the length
-- of the contents and the number of blocks, as a round moves over a byte or leaves a block. Those of
-- the Robin Hood table run on the capacity, which is the bound of the loops in the source. The
-- theorems on these calls say what they return for all inputs, so that the fuel is enough.
-- All other loops recurse on a list or on the number of elements that are left.
--
-- Parameters. `i_malloc`, `i_realloc_right`, `i_readv_all` and `i_writev_all` stand for the layer of the operating
-- system; the product of a size and the float `target_chunk_mult` is a parameter of the settings.
--
-- Not modelled: the layer of the operating system and its logging (src/intf), error reporting and the
-- test harness (src/dev), src/net, robin_hood_manual_ht.h, strings, streams, writes to and removals
-- from a block array, latches and periodic tasks, random numbers, checksums, hashes and floats. They
-- are glue, or they are not covered yet.

pub mod Base
pub mod BlockArray
pub mod CBuffer
pub mod DblBuffer
pub mod ExtArray
pub mod GrLock
pub mod HashTable
pub mod Memory
pub mod Numbers
pub mod RobinHood
pub mod Stride
