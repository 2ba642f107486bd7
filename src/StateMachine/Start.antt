-- ===== src/StateMachine/Start.antt =====
-- `StartNewHand` of state_machine.go.
pub mod Fresh
pub mod Blinds
pub mod Started
use Prim.Native.Nat.{min}
use Prim.Native.String.{String}
use poker_arena.Common.{
  ℕ, Bool, ◌&&◌, Option, none, some, List, ◌==◌, if◌then◌else◌, leb, get_elem?, modify, add32,
}
use poker_arena.Domain.{
  Error, Result, ok, err, ◌>>=◌, ◌>>◌, fail_if, Card, SeatState, TableConfig, HandState, betting,
  showdown, new_hand_state, is_active, no_active_seats, invalid_transition,
}
use poker_arena.Rules.Dealer.{init_hand, deal_preflop}
use poker_arena.Rules.Payout.{award_uncontested}
use poker_arena.StateMachine.Seats.{
  sort_seats, seat_index, next_seat, is_eligible_to_act, count_non_folded_active_seats,
}
use poker_arena.StateMachine.Action.{commit}

-- The system's random source: the hand's id, and the shuffler of the cards.
pub record Chance : Type 0 where
  pub entropy : Option String
  pub shuffle : List Card → Result (List Card)

pub record StartNewHandInput : Type 0 where
  pub table_id : String
  pub hand_no : ℕ
  pub seats : List SeatState
  pub button_seat : ℕ
  pub config : TableConfig

abbrev pub or_fail {ℓ} : {A : Type ℓ} → Option A → Error → Result A
or_fail none e = err e
or_fail (some a) e = ok a

-- `buttonIdx >= 0 && isActiveSeat(seats[buttonIdx])`
unfoldable pub button_is_active : List SeatState → ℕ → Bool
button_is_active seats button = elim (seat_index seats button) [
  | none ↦ Bool.false
  | some i ↦ elim (get_elem? seats i) [ none ↦ Bool.false | some s ↦ is_active s ]
]

-- The small blind: heads-up the button itself, if it plays, and else the next active seat.
unfoldable pub small_blind_seat : List SeatState → ℕ → Result ℕ
unfolding button_is_active
small_blind_seat seats button =
    if count_non_folded_active_seats seats == 2 && button_is_active seats button
    then ok button
    else or_fail (next_seat seats button is_active) no_active_seats

-- `postBlind`: the new state, and what was posted.
unfoldable pub post_blind : HandState → ℕ → ℕ → HandState × ℕ
post_blind state seat_no amount = elim (seat_index state.seats seat_no) [
  | none ↦ (state, 0)
  | some i ↦ elim (get_elem? state.seats i) [
    | none ↦ (state, 0)
    | some s ↦
        if is_active s
        then (
          record state {
            seats = modify state.seats i (commit (min s.stack amount));
            pot = add32 state.pot (min s.stack amount);
          },
          min s.stack amount,
        )
        else (state, 0)
  ]
]

-- The end of `StartNewHand`, once the blinds stand.
unfoldable pub open_betting : HandState → ℕ → HandState
open_betting state bb_seat =
    if leb (count_non_folded_active_seats state.seats) 1
    then award_uncontested state
    else elim (next_seat state.seats bb_seat is_eligible_to_act) [
      | some next ↦ record state { acting_seat = next; action_order_start_seat = next }
      | none ↦ record state { phase = showdown }
    ]

-- The blinds and what they set, from `state.Phase = HandPhaseBetting` on.
unfoldable pub post_blinds : HandState → ℕ → ℕ → ℕ → TableConfig → Result HandState
unfolding post_blind open_betting
post_blinds state acting_seat sb_seat bb_seat config = do
  let opened : HandState = record state { phase = betting; action_order_start_seat = acting_seat }
  let (small, post_sb) = post_blind opened sb_seat config.small_blind
  let (big, post_bb) = post_blind small bb_seat config.big_blind
  fail_if (post_sb == 0 && post_bb == 0) invalid_transition
  ok (
      open_betting
        (record big {
          current_bet = post_bb;
          last_full_raise = config.big_blind;
          min_raise_to = add32 post_bb config.big_blind;
          last_aggressor_seat = some bb_seat;
        })
        bb_seat)

abbrev pub first_to_act : Option ℕ → ℕ → ℕ
first_to_act (some n) sb_seat = n
first_to_act none sb_seat = sb_seat

-- `StartNewHand`
unfoldable pub start_new_hand : Chance → StartNewHandInput → Result HandState
unfolding small_blind_seat post_blinds
start_new_hand chance input = do
  let seats = sort_seats input.seats
  fail_if (count_non_folded_active_seats seats == 0) no_active_seats
  sb_seat ← small_blind_seat seats input.button_seat
  bb_seat ← or_fail (next_seat seats sb_seat is_active) no_active_seats
  let acting_seat = first_to_act (next_seat seats bb_seat is_eligible_to_act) sb_seat
  fresh ←
      new_hand_state chance.entropy input.table_id input.hand_no input.button_seat acting_seat seats
        input.config
  ready ← init_hand chance.shuffle fresh
  dealt ← deal_preflop ready
  post_blinds dealt acting_seat sb_seat bb_seat input.config
