-- ===== src/Persistence.antt =====
-- services/engine/internal/persistence: the records that the API keeps, and the repository that
-- keeps them in memory.
pub mod Records
pub mod Repository
