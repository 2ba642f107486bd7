-- ===== src/AgentClient.antt =====
-- services/engine/internal/agentclient: asking an agent over HTTP for the action of its seat.
pub mod Cards
pub mod Protocol
pub mod Client
