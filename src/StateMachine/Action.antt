-- ===== src/StateMachine/Action.antt =====
-- `ApplyAction` of state_machine.go, and `advanceStreet`.
pub mod Chips
pub mod Valid
pub mod Settle
pub mod Legal
pub mod Apply
pub mod AllIn
pub mod Same
use poker_arena.Common.{
  ℕ, ◌-◌, true, false, not, ◌||◌, Option, none, some, map, ltb, leb, ◌==◌, if◌then◌else◌, get_elem?,
  modify, add32, sub32,
}
use Prim.Native.Nat.{min}
use poker_arena.Domain.{
  Result, ok, err, ◌>>=◌, ◌>>◌, fail_if, SeatState, HandState, HandPhase, betting, dealing,
  showdown, complete, Street, preflop, flop, turn, river, Action, ActionKind, fold, check, call,
  bet, raise, illegal_action, not_acting_seat, insufficient_chips, hand_already_complete,
  invalid_transition,
}
use poker_arena.Rules.Dealer.{deal_flop_turn_river}
use poker_arena.Rules.Payout.{award_uncontested}
use poker_arena.StateMachine.Seats.{
  seat_index, next_seat, is_eligible_to_act, count_non_folded_active_seats, compute_to_call, acted,
  mark_round_response_pending, is_betting_round_closed,
}

abbrev pub next_round : SeatState → SeatState
next_round s = record s { committed_in_round = 0; has_acted_this_round = false }

-- The assignments at the head of `advanceStreet`.
unfoldable pub reset_round : HandState → HandState
reset_round state = record state {
  seats = map next_round state.seats;
  current_bet = 0;
  last_aggressor_seat = none;
  last_full_raise = state.big_blind;
  min_raise_to = state.big_blind;
}

-- The end of `advanceStreet`: who acts first on the new street.
unfoldable pub open_street : HandState → HandState
open_street state = elim (next_seat state.seats state.button_seat is_eligible_to_act) [
  | some start ↦ record state {
    acting_seat = start;
    action_order_start_seat = start;
    phase = betting;
  }
  | none ↦
      if leb (count_non_folded_active_seats state.seats) 1
      then award_uncontested state
      else record state { phase = showdown }
]

-- The street after this one, if cards are dealt for it.
abbrev pub next_street : Street → Option Street
next_street preflop = some flop
next_street flop = some turn
next_street turn = some river
next_street _ = none

-- `advanceStreet`
unfoldable pub advance_street : HandState → Result HandState
unfolding reset_round open_street
advance_street state = elim (next_street state.street) [
  | none ↦ ok (record (reset_round state) { phase = showdown })
  | some street ↦ do
    dealt ← deal_flop_turn_river (reset_round state)
    ok (open_street (record dealt { street = street }))
]

-- `next.Seats[idx].X += chips` for both commitments, and the stack.
abbrev pub commit : ℕ → SeatState → SeatState
commit chips s = record s {
  stack = sub32 s.stack chips;
  total_committed = add32 s.total_committed chips;
  committed_in_round = add32 s.committed_in_round chips;
}

abbrev pub fold_seat : SeatState → SeatState
fold_seat s = record s { folded = true; has_acted_this_round = true }

unfoldable pub play_fold : HandState → ℕ → HandState
play_fold state idx = record state { seats = modify state.seats idx fold_seat }

unfoldable pub play_check : HandState → ℕ → SeatState → Result HandState
play_check state idx seat = do
  fail_if (not (compute_to_call seat state.current_bet == 0)) illegal_action
  ok (record state { seats = modify state.seats idx acted })

unfoldable pub play_call : HandState → ℕ → SeatState → Result HandState
play_call state idx seat = do
  fail_if (compute_to_call seat state.current_bet == 0) illegal_action
  let pay = min (compute_to_call seat state.current_bet) seat.stack
  ok (record state {
    seats = modify state.seats idx (λ s. acted (commit pay s));
    pot = add32 state.pot pay;
  })

-- `CurrentBet`, `LastFullRaise`, `MinRaiseTo` and the last aggressor after a bet or raise, with the
-- chips that the seat put in.
abbrev pub open_bet : HandState → ℕ → SeatState → ℕ → ℕ → ℕ → HandState
open_bet state idx seat chips bet_to full_raise = record state {
  seats = mark_round_response_pending (modify state.seats idx (commit chips)) idx;
  pot = add32 state.pot chips;
  current_bet = bet_to;
  last_full_raise = full_raise;
  min_raise_to = add32 bet_to full_raise;
  last_aggressor_seat = some seat.seat_no;
}

unfoldable pub play_bet : HandState → ℕ → SeatState → Option ℕ → Result HandState
play_bet state idx seat none = err illegal_action
play_bet state idx seat (some amount) = do
  fail_if (not (state.current_bet == 0) || amount == 0) illegal_action
  fail_if (ltb seat.stack amount) insufficient_chips
  ok (open_bet state idx seat amount (add32 seat.committed_in_round amount) amount)

unfoldable pub play_raise : HandState → ℕ → SeatState → Option ℕ → Result HandState
play_raise state idx seat none = err illegal_action
play_raise state idx seat (some raise_to) = do
  fail_if (state.current_bet == 0) illegal_action
  fail_if (leb raise_to state.current_bet || ltb raise_to state.min_raise_to) illegal_action
  fail_if (leb raise_to seat.committed_in_round) illegal_action
  let delta = raise_to - seat.committed_in_round
  fail_if (ltb seat.stack delta) insufficient_chips
  ok (open_bet state idx seat delta raise_to (raise_to - state.current_bet))

-- The `switch` of `ApplyAction`; the last clause is `default`.
unfoldable pub play_action : HandState → ℕ → SeatState → ActionKind → Option ℕ → Result HandState
play_action state idx seat fold amount = ok (play_fold state idx)
play_action state idx seat check amount = play_check state idx seat
play_action state idx seat call amount = play_call state idx seat
play_action state idx seat bet amount = play_bet state idx seat amount
play_action state idx seat raise amount = play_raise state idx seat amount
play_action state idx seat (ActionKind.other name) amount = err illegal_action

-- What follows the `switch`, for the seat number that acted.
unfoldable pub settle : HandState → ℕ → Result HandState
settle state seat_no =
    if leb (count_non_folded_active_seats state.seats) 1
    then ok (award_uncontested state)
    else if is_betting_round_closed state
    then advance_street state
    else elim (next_seat state.seats seat_no is_eligible_to_act) [
      | none ↦ advance_street state
      | some next ↦ ok (record state { acting_seat = next })
    ]

-- The seat that is to act, with its index.
unfoldable pub acting : HandState → Result (ℕ × SeatState)
acting state = elim (seat_index state.seats state.acting_seat) [
  | none ↦ err invalid_transition
  | some idx ↦ elim (get_elem? state.seats idx) [
    | none ↦ err invalid_transition
    | some seat ↦ if is_eligible_to_act seat then ok (idx, seat) else err not_acting_seat
  ]
]

-- The checks of the phase at the head of `ApplyAction`.
abbrev pub check_phase : HandPhase → Result (Unit {0})
check_phase complete = err hand_already_complete
check_phase showdown = err hand_already_complete
check_phase betting = ok tt
check_phase dealing = err invalid_transition

-- `ApplyAction`
unfoldable pub apply_action : HandState → Action → Result HandState
unfolding acting play_action settle
apply_action state action = do
  check_phase state.phase
  (idx, seat) ← acting state
  played ← play_action state idx seat action.kind action.amount
  settle played seat.seat_no
