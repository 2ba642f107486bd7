-- ===== src/TableRunner.antt =====
-- tablerunner/runner.go: playing hands with an action provider.
pub mod Seating
pub mod Hand
pub mod Table
