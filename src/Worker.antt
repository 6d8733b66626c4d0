-- ===== src/Worker.antt =====
-- The background worker of internal/worker that removes old ACME files, and the directories of
-- internal/storage/acme.go.
pub mod Cleanup
