-- ===== src/Pit/Pages.antt =====
-- The memory that a program sees after its turn has come.
