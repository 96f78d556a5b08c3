-- ===== src/Ds.antt =====
-- kernel/lib/ds: the data structures that the rest of the kernel is built on.
pub mod Bitmap
pub mod Heap
pub mod List
pub mod Queue
