-- ===== src/Time.antt =====
-- kernel/time: the timer of the kernel.
pub mod Timer
