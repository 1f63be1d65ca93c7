-- ===== src/Slab.antt =====
-- mem/slab.c: an allocator of pages, and on top of it zones of chunks of one size.
pub mod Pages
pub mod Freeing
pub mod Taking
pub mod Zones
pub mod Classes
pub mod Chunks
pub mod Heap
pub mod Blocks
