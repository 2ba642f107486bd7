-- ===== src/Tests/Hands.antt =====
-- The hands that the tests share.
use poker_arena.Common.{
  ℕ, ◌-◌, ◌≡◌, refl, ap, sym, Option, none, some, List, [], ◌∷◌, length, leb, if◌then◌else◌, false,
  arith,
}
use poker_arena.Domain.{
  Result, ok, err, Card, Suit, clubs, diamonds, hearts, spades, SeatState, active, HandState,
  preflop, betting, new_seat_state, default_v0_table_config, Action, ActionKind, check, call,
  standard52_deck,
}
use poker_arena.Domain.Results.{ok-injective}
use poker_arena.StateMachine.Action.{apply_action, play_call}
use poker_arena.Common.{sub32, add32, sort_by, rotated}
use poker_arena.StateMachine.Seats.{compute_to_call, is_betting_round_closed, next_seat}
use poker_arena.Domain.{call}
use poker_arena.StateMachine.Seats.{seat_index}
use poker_arena.StateMachine.Action.{acting}
use poker_arena.StateMachine.Action.Valid.{IsValid}
use poker_arena.StateMachine.Start.{Chance, StartNewHandInput}
use poker_arena.StateMachine.Start.Started.{KeepsLength}
use poker_arena.TableRunner.Hand.{World}

-- The deck as it is, and one id for every hand.
abbrev pub no_chance : Chance
no_chance = record { entropy = some "00"; shuffle = λ deck. ok deck }

abbrev pub hand_of : List SeatState → StartNewHandInput
hand_of seats = record {
  table_id = "table";
  hand_no = 1;
  seats = seats;
  button_seat = 1;
  config = default_v0_table_config;
}

abbrev pub three_seats : List SeatState
three_seats = new_seat_state 1 1000 ∷ new_seat_state 2 1000 ∷ new_seat_state 3 1000 ∷ []

abbrev pub act : ActionKind → Option ℕ → Action
act kind amount = record { kind = kind; amount = amount }

abbrev pub or_else : HandState → Result HandState → HandState
or_else s (ok t) = t
or_else s (err e) = s

-- A seat after a blind, or after none.
abbrev pub seat_after : ℕ → ℕ → SeatState
seat_after n blind = record {
  seat_no = n;
  stack = 1000 - blind;
  total_committed = blind;
  committed_in_round = blind;
  folded = false;
  has_acted_this_round = false;
  status = active;
}

-- Three seats after the blinds: seat 1 is to act and owes 100.
abbrev pub sample : HandState
sample = record {
  hand_id = "00";
  table_id = "table";
  hand_no = 1;
  button_seat = 1;
  small_blind = 50;
  big_blind = 100;
  acting_seat = 1;
  action_order_start_seat = 1;
  last_aggressor_seat = some 3;
  phase = betting;
  street = preflop;
  pot = 150;
  current_bet = 100;
  min_raise_to = 200;
  last_full_raise = 100;
  board = [];
  deck = standard52_deck;
  next_card_index = 6;
  hole_cards = [];
  showdown_awards = [];
  seats = seat_after 1 0 ∷ seat_after 2 50 ∷ seat_after 3 100 ∷ [];
}

-- Everybody calls or checks.
abbrev pub callers : World
callers = record {
  next_action = λ n s. some (act (if leb 1 n then check else call) none);
  is_cancelled = λ n at. false;
}

abbrev pub card : ℕ → Suit → Card
card rank suit = record { rank = rank; suit = suit }

abbrev pub board : List Card
board = card 2 clubs ∷ card 7 diamonds ∷ card 9 hearts ∷ card 12 spades ∷ card 13 clubs ∷ []

abbrev pub aces : List Card
aces = card 14 hearts ∷ card 14 spades ∷ []

abbrev pub kings : List Card
kings = card 13 hearts ∷ card 13 spades ∷ []

pub sample-IsValid : IsValid sample
unfolding acting seat_index standard52_deck
sample-IsValid = record {
  distinct = omega arith;
  full_deck = refl;
  room = omega arith;
  board = refl;
  turn_ready = λ e. (0, seat_after 1 0, refl);
}

pub sample-acting : acting sample ≡ ok (0, seat_after 1 0)
unfolding acting seat_index
sample-acting = refl

pub no_chance-KeepsLength : KeepsLength no_chance.shuffle
no_chance-KeepsLength deck shuffled e = ap (λ cards. length cards) (sym (ok-injective e))

abbrev pub called : HandState
unfolding apply_action
called = or_else sample (apply_action sample (act call none))

pub called_ok : apply_action sample (act call none) ≡ ok called
unfolding apply_action seat_index standard52_deck play_call compute_to_call is_betting_round_closed
    sub32 add32 next_seat sort_by rotated
called_ok = refl
