-- ===== src/StateMachine.antt =====
-- statemachine/state_machine.go: starting a hand and applying an action to it. `cloneState` copies
-- what the model's values never share, and so is the identity here.
pub mod Seats
pub mod Action
pub mod Start
