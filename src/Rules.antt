-- ===== src/Rules.antt =====
-- rules/: dealing, hand evaluation and pots.
pub mod Dealer
pub mod HandCategory
pub mod Evaluator
pub mod Payout
