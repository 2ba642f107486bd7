-- ===== src/Tests/Betting.antt =====
-- Betting in concrete hands.
use poker_arena.Common.{
  ℕ, ◌<◌, ◌≡◌, ◌↔◌, refl, inl, none, some, [], ◌∷◌, length, false, true, arith, sub32, add32,
  sort_by, rotated,
}
use poker_arena.Domain.{
  ok, err, SeatState, active, HandState, showdown, ActionKind, call, bad_board_size,
  standard52_deck,
}
use poker_arena.Rules.Payout.{resolve_pots}
use poker_arena.Rules.Payout.Chips.{stacks, chips}
use poker_arena.StateMachine.Seats.{seat_index, next_seat}
use poker_arena.StateMachine.Action.{advance_street, apply_action}
use poker_arena.StateMachine.Action.AllIn.{advance_street_unresolved}
use poker_arena.StateMachine.Action.Legal.{Legal}
use poker_arena.StateMachine.Action.Valid.{IsSound, IsValid}
use poker_arena.StateMachine.Action.Apply.{
  apply_action-IsValid, apply_action-chips, apply_action-ok_iff,
}
use poker_arena.StateMachine.Start.Started.{start_new_hand-IsValid}
use poker_arena.Rules.Dealer.{
  init_hand, deal_preflop, active_seats_in_deal_order, deal_round, draw_card,
}
use poker_arena.StateMachine.Seats.{sort_seats}
use poker_arena.Domain.{new_hand_state, survey_seats, validate}
use poker_arena.StateMachine.Start.{
  start_new_hand, small_blind_seat, post_blinds, post_blind, open_betting,
}
use poker_arena.Tests.Hands.{
  called, called_ok, no_chance, hand_of, three_seats, act, seat_after, sample, or_else,
  sample-IsValid, sample-acting, no_chance-KeepsLength,
}

apply_action-IsValid_example : IsValid called
apply_action-IsValid_example = apply_action-IsValid sample (act call none) sample-IsValid called_ok

apply_action-chips_example : chips called ≡ chips sample
apply_action-chips_example =
    apply_action-chips sample (act call none) sample-IsValid (omega arith) called_ok

apply_action-ok_iff_example :
    ((t : HandState) × (apply_action sample (act ActionKind.raise (some 200)) ≡ ok t))
    ↔ Legal sample (seat_after 1 0) ActionKind.raise (some 200)
apply_action-ok_iff_example =
    apply_action-ok_iff sample (act ActionKind.raise (some 200)) 0 (seat_after 1 0) sample-IsValid
      refl sample-acting

abbrev all_in_seat : ℕ → SeatState
all_in_seat n = record {
  seat_no = n;
  stack = 0;
  total_committed = 1000;
  committed_in_round = 1000;
  folded = false;
  has_acted_this_round = true;
  status = active;
}

-- Before the flop, the three seats are all-in.
abbrev all_in_preflop : HandState
all_in_preflop = record sample {
  pot = 3000;
  current_bet = 1000;
  seats = all_in_seat 1 ∷ all_in_seat 2 ∷ all_in_seat 3 ∷ [];
}

all_in_preflop-IsSound : IsSound all_in_preflop
unfolding standard52_deck
all_in_preflop-IsSound = record {
  distinct = omega arith;
  full_deck = refl;
  room = omega arith;
  board = refl;
}

advance_street_unresolved_example :
    (t : HandState) × (advance_street all_in_preflop ≡ ok t)
    × (t.phase ≡ showdown)
    × (length t.board < 5)
    × (resolve_pots t ≡ (t, err (bad_board_size (length t.board))))
advance_street_unresolved_example =
    advance_street_unresolved all_in_preflop all_in_preflop-IsSound (inl refl)
      (refl, (refl, (refl, tt))) (omega arith)

-- The hand of three seats, with the deck as it is.
abbrev started : HandState
unfolding start_new_hand
started = or_else sample (start_new_hand no_chance (hand_of three_seats))

started_ok : start_new_hand no_chance (hand_of three_seats) ≡ ok started
unfolding start_new_hand sort_seats small_blind_seat next_seat seat_index new_hand_state validate
    survey_seats init_hand deal_preflop active_seats_in_deal_order deal_round draw_card post_blinds
    post_blind open_betting sort_by rotated sub32 add32 standard52_deck
started_ok = refl

start_new_hand-IsValid_example : IsValid started × (chips started ≡ stacks three_seats)
start_new_hand-IsValid_example =
    start_new_hand-IsValid no_chance (hand_of three_seats) no_chance-KeepsLength (omega arith)
      started_ok
