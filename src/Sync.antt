-- ===== src/Sync.antt =====
-- include/mscclpp/concurrency_device.hpp and include/mscclpp/semaphore_device.hpp: semaphores and a barrier.
pub mod Semaphore
pub mod Barrier
pub mod Tokens
