-- ===== src/Errors/Tests.antt =====
-- The theorem on mapped errors at a concrete input.
