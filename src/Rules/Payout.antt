-- ===== src/Rules/Payout.antt =====
-- rules/payout.go: the main pot and the side pots of a showdown, and the pot that nobody contests.
-- `ResolvePots` writes the stacks in place, so its seats are returned beside an error too.
pub mod Chips
pub mod Split
pub mod Winners
pub mod Ladder
pub mod Levels
pub mod Resolve
pub mod Total
use mathlib.Core.Option
use Prim.Native.String.{String}
use poker_arena.Common.{
  joined, decimal, ℕ, zero, suc, ◌/◌, ◌%◌, not, ◌||◌, Option, none, some, List, [], ◌∷◌, ◌++◌, map,
  ltb, leb, ◌==◌, if◌then◌else◌, length, get_elem?, modify, sort_by, first_index, rotated, add32,
  sub32, mul32,
}
use poker_arena.Domain.{
  Result, ok, err, ◌>>=◌, Card, SeatState, SeatCards, PotAward, HandState, complete,
  has_active_status, is_active, contains, bad_board_size, missing_hole_cards,
}
use poker_arena.Rules.Evaluator.{
  HandRank, zero_rank, compare_hand_rank, evaluate_best_hand, is_gt, is_eq,
}

-- The loop of `contributionLevels`: every nonzero commitment once.
unfoldable pub distinct_commitments : List SeatState → List ℕ → List ℕ
distinct_commitments [] seen = []
distinct_commitments (s ∷ seats) seen =
    if s.total_committed == 0 || contains s.total_committed seen
    then distinct_commitments seats seen
    else s.total_committed ∷ distinct_commitments seats (s.total_committed ∷ seen)

-- `contributionLevels`
unfoldable pub contribution_levels : List SeatState → List ℕ
unfolding distinct_commitments
contribution_levels seats = sort_by ltb (distinct_commitments seats [])

-- `for seatIdx, seat := range state.Seats`: the indices of the seats that reach the level.
unfoldable pub contributors_from : ℕ → ℕ → List SeatState → List ℕ
contributors_from level idx [] = []
contributors_from level idx (s ∷ seats) =
    let rest = contributors_from level (suc idx) seats in
    if leb level s.total_committed then idx ∷ rest else rest

-- `holeBySeat[seatNo]`: the last entry for a seat counts, and a missing one has no cards.
abbrev pub hole_of : ℕ → List SeatCards → List Card → List Card
hole_of n [] found = found
hole_of n (h ∷ hs) found = hole_of n hs (if h.seat_no == n then h.cards else found)

-- What the loop over the contributors does with one that may win.
abbrev pub challenge : ℕ → HandRank → List ℕ × HandRank → List ℕ × HandRank
challenge idx rank (winners, best) =
    if length winners == 0 || is_gt (compare_hand_rank rank best)
    then (idx ∷ [], rank)
    else if is_eq (compare_hand_rank rank best)
    then (winners ++ idx ∷ [], best)
    else (winners, best)

-- The loop over the contributors of one level.
unfoldable pub find_winners :
    HandState → List SeatState → List ℕ → List ℕ × HandRank → Result (List ℕ × HandRank)
find_winners state seats [] acc = ok acc
find_winners state seats (idx ∷ idxs) acc = elim (get_elem? seats idx) [
  | none ↦ find_winners state seats idxs acc
  | some seat ↦
      if seat.folded || not (has_active_status seat.status)
      then find_winners state seats idxs acc
      else (let hole = hole_of seat.seat_no state.hole_cards [] in
          if not (length hole == 2)
          then err (missing_hole_cards seat.seat_no)
          else find_winners state seats idxs
              (challenge idx (evaluate_best_hand hole state.board) acc))
]

abbrev pub pay : ℕ → SeatState → SeatState
pay amount s = record s { stack = add32 s.stack amount }

-- `for _, i := range idxs { seats[i].Stack += amount }`
unfoldable pub pay_all : ℕ → List ℕ → List SeatState → List SeatState
pay_all amount [] seats = seats
pay_all amount (i ∷ idxs) seats = pay_all amount idxs (modify seats i (pay amount))

abbrev pub take {ℓ} : {A : Type ℓ} → ℕ → List A → List A
take zero xs = []
take (suc n) [] = []
take (suc n) (x ∷ xs) = x ∷ take n xs

-- The seats of the winners with their indices, in the order of `winnerIdx`.
abbrev pub seat_no_at : List SeatState → ℕ → ℕ
seat_no_at seats i = elim (get_elem? seats i) [ none ↦ 0 | some s ↦ s.seat_no ]

-- `winnerBySeat[seatNo]`: the last index with that seat number.
abbrev pub winner_by_seat : List SeatState → ℕ → List ℕ → ℕ → ℕ
winner_by_seat seats n [] found = found
winner_by_seat seats n (i ∷ idxs) found =
    winner_by_seat seats n idxs (if seat_no_at seats i == n then i else found)

-- `orderWinnersForOddChip`: by seat number, from the first seat after the button.
unfoldable pub order_winners_for_odd_chip : ℕ → List ℕ → List SeatState → List ℕ
order_winners_for_odd_chip button winner_idx seats =
    let ordered = sort_by ltb (map (seat_no_at seats) winner_idx) in
    let start = Option.get_or (first_index (λ n. ltb button n) ordered) 0 in
    if leb (length winner_idx) 1
    then winner_idx
    else map (λ n. winner_by_seat seats n winner_idx 0) (rotated ordered start (length ordered))

-- The reason of the award at level `i`.
abbrev pub reason_of : ℕ → String
reason_of zero = "main_pot"
reason_of (suc i) = joined "side_pot_" (decimal (suc i))

-- What one pot pays: a share to every winner, and the odd chips one by one in odd-chip order.
unfoldable pub split_pot : ℕ → ℕ → List ℕ → List SeatState → List SeatState
unfolding pay_all order_winners_for_odd_chip
split_pot button pot_amount winners seats =
    let shared = pay_all (pot_amount / length winners) winners seats in
    pay_all 1
      (take (pot_amount % length winners) (order_winners_for_odd_chip button winners shared)) shared

unfoldable pub award_for : ℕ → ℕ → List ℕ → List SeatState → PotAward
award_for i pot_amount winners seats = record {
  amount = pot_amount;
  seats = sort_by ltb (map (seat_no_at seats) winners);
  reason = reason_of i;
}

-- `(level - prev) * uint32(len(contributors))`
unfoldable pub pot_at : ℕ → ℕ → List SeatState → ℕ
unfolding contributors_from
pot_at prev level seats = mul32 (sub32 level prev) (length (contributors_from level 0 seats))

-- What one level pays to its winners, and the award that records it; nothing if nobody may win.
unfoldable pub award_level :
    HandState → ℕ → ℕ → List ℕ → List SeatState → List SeatState × List PotAward
unfolding split_pot award_for
award_level state i pot_amount winners seats = if length winners == 0 then (seats, []) else (
  split_pot state.button_seat pot_amount winners seats,
  award_for i pot_amount winners (split_pot state.button_seat pot_amount winners seats) ∷ [],
)

-- The body of the loop over the levels, for a level with a pot: the seats after it and its award.
unfoldable pub play_level :
    HandState → ℕ → ℕ → ℕ → List SeatState → Result (List SeatState × List PotAward)
unfolding contributors_from find_winners award_level
play_level state i level pot_amount seats = do
  (winners, best) ← find_winners state seats (contributors_from level 0 seats) ([], zero_rank)
  ok (award_level state i pot_amount winners seats)

-- The loop over the levels: `i` counts them, `prev` is the last one paid. The seats come back
-- beside the error as they stand in the shared slice at that point.
unfoldable pub levels_loop :
    HandState
    → ℕ
    → ℕ
    → List ℕ
    → List SeatState
    → List PotAward
    → List SeatState × Result (List PotAward)
unfolding play_level pot_at
levels_loop state i prev [] seats awards = (seats, ok awards)
levels_loop state i prev (level ∷ levels) seats awards =
    let skip = levels_loop state (suc i) prev levels seats awards in
    let empty = levels_loop state (suc i) level levels seats awards in
    if leb level prev
    then skip
    else if pot_at prev level seats == 0
    then empty
    else elim (play_level state i level (pot_at prev level seats) seats) [
      | err e ↦ (seats, err e)
      | ok (paid, award) ↦ levels_loop state (suc i) level levels paid (awards ++ award)
    ]

-- The assignments after the loop.
abbrev pub finish_pots :
    HandState → List SeatState × Result (List PotAward) → HandState × Result (List PotAward)
finish_pots state (seats, err e) = (record state { seats = seats }, err e)
finish_pots state (seats, ok awards) =
    (record state { seats = seats; pot = 0; showdown_awards = awards; phase = complete }, ok awards)

-- `ResolvePots`
unfoldable pub resolve_pots : HandState → HandState × Result (List PotAward)
unfolding contribution_levels levels_loop
resolve_pots state =
    if not (length state.board == 5)
    then (state, err (bad_board_size (length state.board)))
    else finish_pots state (levels_loop state 0 0 (contribution_levels state.seats) state.seats [])

-- The two searches of `AwardUncontested`.
abbrev pub uncontested_winner : List SeatState → Option ℕ
uncontested_winner seats = elim (first_index is_active seats) [
  | some i ↦ some i
  | none ↦ first_index (λ s. has_active_status s.status) seats
]

-- `AwardUncontested`
unfoldable pub award_uncontested : HandState → HandState
award_uncontested state =
    if state.pot == 0
    then record state { showdown_awards = []; phase = complete }
    else elim (uncontested_winner state.seats) [
      | none ↦ record state { showdown_awards = []; phase = complete }
      | some i ↦ record state {
        seats = modify state.seats i (pay state.pot);
        pot = 0;
        showdown_awards =
            record {
              amount = state.pot;
              seats = seat_no_at state.seats i ∷ [];
              reason = "uncontested";
            }
            ∷ [];
        phase = complete;
      }
    ]
