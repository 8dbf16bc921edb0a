-- ===== src/Cmd/Warned.antt =====
-- The warning when the service starts, and its health.
