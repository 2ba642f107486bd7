-- ===== src/TableRunner/Seating.antt =====
-- The helpers of runner.go on the seats between two hands.
pub mod Button
use poker_arena.Common.{
  ℕ, zero, suc, ◌+◌, Bool, true, false, not, ◌&&◌, Option, none, some, List, [], ◌∷◌, map, ltb,
  ◌==◌, if◌then◌else◌, length, count_if, first_index, first_where, rotated,
}
use poker_arena.Domain.{
  Result, ok, err, SeatState, SeatStatus, busted, has_active_status, insufficient_active_seats,
}

abbrev pub prepare_seat : SeatState → SeatState
prepare_seat s = record s {
  total_committed = 0;
  committed_in_round = 0;
  folded = false;
  has_acted_this_round = false;
  status = if s.stack == 0 then busted else s.status;
}

-- `prepareSeatsForNextHand`
unfoldable pub prepare_seats_for_next_hand : List SeatState → List SeatState
prepare_seats_for_next_hand seats = map prepare_seat seats

-- `countActivePlayableSeats`
abbrev pub count_active_playable_seats : List SeatState → ℕ
count_active_playable_seats = count_if (λ s. has_active_status s.status && ltb 0 s.stack)

abbrev pub behind : SeatState → SeatState × List SeatState → SeatState × List SeatState
behind s (first, rest) = (first, s ∷ rest)

-- The inner loop of `sortSeatsBySeatNo` for one `i`: the seat left at `i`, and those behind it.
unfoldable pub exchange_pass : SeatState → List SeatState → SeatState × List SeatState
exchange_pass x [] = (x, [])
exchange_pass x (y ∷ ys) = elim (ltb y.seat_no x.seat_no) [
  | true ↦ behind x (exchange_pass y ys)
  | false ↦ behind y (exchange_pass x ys)
]

exchange_sort : ℕ → List SeatState → List SeatState
unfolding exchange_pass
exchange_sort zero seats = seats
exchange_sort (suc n) [] = []
exchange_sort (suc n) (x ∷ xs) = (exchange_pass x xs).0 ∷ exchange_sort n (exchange_pass x xs).1

-- `sortSeatsBySeatNo`: one pass for each index.
unfoldable pub sort_seats_by_seat_no : List SeatState → List SeatState
unfolding exchange_sort
sort_seats_by_seat_no seats = exchange_sort (length seats) seats

abbrev pub is_busted : SeatStatus → Bool
is_busted busted = true
is_busted _ = false

abbrev pub can_hold_button : SeatState → Bool
can_hold_button s = not (is_busted s.status) && ltb 0 s.stack

abbrev pub button_of : Option SeatState → Result ℕ
button_of none = err insufficient_active_seats
button_of (some s) = ok s.seat_no

-- `nextButtonSeat`
unfoldable pub next_button_seat : ℕ → List SeatState → Result ℕ
unfolding sort_seats_by_seat_no
next_button_seat current seats =
    let ordered = sort_seats_by_seat_no seats in
    elim (first_index (λ s. s.seat_no == current) ordered) [
      | none ↦ err insufficient_active_seats
      | some start ↦
          button_of (first_where can_hold_button (rotated ordered (start + 1) (length ordered)))
    ]

-- `isButtonEligible`
unfoldable pub is_button_eligible : ℕ → List SeatState → Bool
is_button_eligible n [] = false
is_button_eligible n (s ∷ seats) =
    if s.seat_no == n && can_hold_button s then true else is_button_eligible n seats

-- `normalizeButton`
unfoldable pub normalize_button : ℕ → List SeatState → Result ℕ
unfolding is_button_eligible next_button_seat
normalize_button current seats =
    if is_button_eligible current seats then ok current else next_button_seat current seats
