-- ===== src/Memory.antt =====
-- The allocators and byte streams of src/memory. A pointer is an index into a list of bytes; each
-- function holds its object's latch from start to end, and is one step here.
pub mod Lalloc
pub mod Serial
pub mod MallocPlan
pub mod ChunkAlloc
pub mod SlabAlloc
mod Tests
