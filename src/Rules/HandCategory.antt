-- ===== src/Rules/HandCategory.antt =====
-- The constants of `HandCategory` in rules/evaluator.go, from 1 up.
use poker_arena.Common.{ℕ}

abbrev pub high_card : ℕ
high_card = 1

abbrev pub one_pair : ℕ
one_pair = 2

abbrev pub two_pair : ℕ
two_pair = 3

abbrev pub three_of_a_kind : ℕ
three_of_a_kind = 4

abbrev pub straight : ℕ
straight = 5

abbrev pub flush : ℕ
flush = 6

abbrev pub full_house : ℕ
full_house = 7

abbrev pub four_of_a_kind : ℕ
four_of_a_kind = 8

abbrev pub straight_flush : ℕ
straight_flush = 9
