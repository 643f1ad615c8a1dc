-- ===== src/Tests/Atomic.antt =====
-- Instances for the operations as bodies under the semaphore.
