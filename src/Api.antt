-- ===== src/Api.antt =====
-- services/engine/internal/api: the HTTP server of server.go.
pub mod Access
pub mod Routes
pub mod Replay
pub mod Analytics
pub mod Manage
pub mod Start
pub mod Run
pub mod Status
