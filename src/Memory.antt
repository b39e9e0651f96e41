-- ===== src/Memory.antt =====
-- kernel/src/memory: addresses and page table entries, the page table, and the memory behind an
-- area.
pub mod Error
pub mod Addr
pub mod Entry
pub mod Table
pub mod Backend
pub mod Pma
pub mod Area
pub mod Set
