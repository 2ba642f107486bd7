-- ===== src/Tests.antt =====
-- Concrete hands: runs of the code on them, and each theorem with a hypothesis at one of them.
mod Hands
mod Cards
mod Betting
mod Runs
mod Providers
mod Repository
mod Agent
mod Server
mod Recorded
