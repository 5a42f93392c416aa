-- ===== src/MemManagement.antt =====
-- The memory manager of lab02/zad1/src: a store of C nodes, the two containers, the manager.
pub mod Heap
pub mod BlockList
pub mod Bst
pub mod Manager
mod Examples
