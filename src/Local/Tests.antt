-- ===== src/Local/Tests.antt =====
-- The theorems at concrete data.
