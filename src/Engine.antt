-- ===== src/Engine.antt =====
-- The engine command, services/engine/cmd/engine: the providers that it plays a table with.
pub mod Providers
