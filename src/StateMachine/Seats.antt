-- ===== src/StateMachine/Seats.antt =====
-- The helpers of state_machine.go on the seats of a hand.
pub mod Find
use mathlib.Core.Option
use poker_arena.Common.{
  ℕ, ◌+◌, ◌-◌, Bool, true, false, not, ◌&&◌, ◌||◌, Option, none, some, List, [], ◌∷◌, map, ltb, leb,
  ◌==◌, if◌then◌else◌, length, modify, count_if, sort_by, first_index, first_where, rotated,
}
use poker_arena.Domain.{SeatState, HandState, is_active}

abbrev pub before_seat : SeatState → SeatState → Bool
before_seat a b = ltb a.seat_no b.seat_no

-- `sortSeats`
unfoldable pub sort_seats : List SeatState → List SeatState
sort_seats seats = sort_by before_seat seats

-- `seatIndex`: nothing for -1.
unfoldable pub seat_index : List SeatState → ℕ → Option ℕ
seat_index seats n = first_index (λ s. s.seat_no == n) seats

-- `nextSeat` with `includeFrom` false: the search starts one after `from`, and ends at it.
unfoldable pub next_seat : List SeatState → ℕ → (SeatState → Bool) → Option ℕ
unfolding sort_seats
next_seat seats from filter =
    let ordered = sort_seats seats in
    elim (first_index (λ s. s.seat_no == from) ordered) [
      | none ↦ none
      | some start ↦
          Option.map (λ s. s.seat_no)
            (first_where filter (rotated ordered (start + 1) (length ordered)))
    ]

-- `isEligibleToAct`
abbrev pub is_eligible_to_act : SeatState → Bool
is_eligible_to_act s = is_active s && ltb 0 s.stack

-- `countNonFoldedActiveSeats`
abbrev pub count_non_folded_active_seats : List SeatState → ℕ
count_non_folded_active_seats = count_if is_active

-- `countEligibleToActSeats`
abbrev pub count_eligible_to_act_seats : List SeatState → ℕ
count_eligible_to_act_seats = count_if is_eligible_to_act

-- `computeToCall`
unfoldable pub compute_to_call : SeatState → ℕ → ℕ
compute_to_call s current_bet =
    if leb current_bet s.committed_in_round then 0 else current_bet - s.committed_in_round

abbrev pub pend : SeatState → SeatState
pend s = record s { has_acted_this_round = false }

abbrev pub acted : SeatState → SeatState
acted s = record s { has_acted_this_round = true }

-- `markRoundResponsePending`
unfoldable pub mark_round_response_pending : List SeatState → ℕ → List SeatState
mark_round_response_pending seats aggressor = modify (map pend seats) aggressor acted

-- What one eligible seat asks of a closed round.
abbrev pub has_responded : ℕ → SeatState → Bool
has_responded current_bet s =
    s.has_acted_this_round && not (ltb 0 current_bet && not (s.committed_in_round == current_bet))

-- The loop of `isBettingRoundClosed`.
unfoldable pub all_responded : ℕ → List SeatState → Bool
all_responded current_bet [] = true
all_responded current_bet (s ∷ seats) =
    let rest = all_responded current_bet seats in
    if not (is_eligible_to_act s) then rest else if has_responded current_bet s then rest else false

-- `isBettingRoundClosed`
unfoldable pub is_betting_round_closed : HandState → Bool
unfolding all_responded
is_betting_round_closed state =
    leb (count_eligible_to_act_seats state.seats) 1 || all_responded state.current_bet state.seats
