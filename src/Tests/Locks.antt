-- ===== src/Tests/Locks.antt =====
-- The deadlock of the two mutexes in a small class.
