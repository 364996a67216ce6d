-- ===== src/Flusher/Tests.antt =====
-- A burst of modifications, and then nothing.
