-- ===== src/Errors/Tests.antt =====
-- The theorem on the codes of errors at one error.
