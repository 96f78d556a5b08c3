-- ===== src/Mm.antt =====
-- kernel/mm: pages, the physical page allocator, and the address space of the kernel.
pub mod Page
pub mod Pmm
pub mod Platform
pub mod AddressSpace
pub mod Interface
