-- ===== src/StateMachine/Action/AllIn.antt =====
-- A hand in which nobody can act any more goes to the showdown with the next street, however many
-- board cards are missing.
use poker_arena.Common.{
  ℕ, suc, ◌+◌, ◌≤◌, ◌<◌, ◌≡◌, ◌⊎◌, refl, ap, inl, inr, Bool, true, false, not, none, some, List, [],
  ◌∷◌, map, length, All, Option-cases, arith, leb, ◌==◌, first_where, first_where-All, first_index,
  rotated, rotated-All, sort_by-All,
}
use poker_arena.Domain.{
  ok, err, SeatState, HandState, Street, preflop, flop, turn, showdown, bad_board_size,
}
use poker_arena.Rules.Dealer.Board.{deal_flop_turn_river_lem, with_cards}
use poker_arena.Rules.Payout.{resolve_pots}
use poker_arena.StateMachine.Seats.{
  next_seat, sort_seats, before_seat, is_eligible_to_act, count_non_folded_active_seats,
}
use poker_arena.StateMachine.Action.{
  next_round, next_street, reset_round, open_street, advance_street,
}
use poker_arena.StateMachine.Action.Valid.{IsSound, street_step, reset_round-IsSound, board_size}

-- Where no seat passes the filter, `nextSeat` finds none.
next_seat-none :
    (seats : List SeatState) (from : ℕ) (p : SeatState → Bool)
    → All (λ x. p x ≡ false) seats
    → next_seat seats from p ≡ none
unfolding next_seat sort_seats
next_seat-none seats from p h =
    let ordered = sort_seats seats in
    elim (Option-cases (first_index (λ s. s.seat_no == from) ordered)) [
      | inl missing ↦ rw (missing, next_seat) refl
      | inr (start, found) ↦
          let round = rotated ordered (start + 1) (length ordered) in
          elim (Option-cases (first_where p round)) [
            | inl nobody ↦ rw (found, next_seat) (rw nobody refl)
            | inr (x, hit) ↦
                let (miss, pass) =
                  first_where-All (λ x. p x ≡ false) p round
                    (rotated-All (λ x. p x ≡ false) ordered (start + 1) (length ordered)
                      (sort_by-All before_seat (λ x. p x ≡ false) seats h))
                    hit in
                absurd (cc (miss, pass))
          ]
    ]

reset_ineligible :
    (seats : List SeatState)
    → All (λ x. is_eligible_to_act x ≡ false) seats
    → All (λ x. is_eligible_to_act x ≡ false) (map next_round seats)
reset_ineligible [] h = tt
reset_ineligible (x ∷ seats) h = (h.0, reset_ineligible seats h.1)

reset-count :
    (seats : List SeatState)
    → count_non_folded_active_seats (map next_round seats) ≡ count_non_folded_active_seats seats
reset-count [] = refl
reset-count (x ∷ seats) = ground (arith, reset-count seats)

abbrev Stuck : HandState → Type 0
Stuck s =
    (t : HandState) × (advance_street s ≡ ok t)
    × (t.phase ≡ showdown)
    × (length t.board < 5)
    × (resolve_pots t ≡ (t, err (bad_board_size (length t.board))))

stuck :
    (s : HandState) (next : Street)
    → IsSound s
    → next_street s.street ≡ some next
    → board_size next < 5
    → All (λ x. is_eligible_to_act x ≡ false) s.seats
    → 2 ≤ count_non_folded_active_seats s.seats
    → Stuck s
unfolding advance_street resolve_pots
stuck s next v e few all_in contested =
    let reset = reset_round-IsSound s v in
    let (n, draw, cards, size) = street_step s.street next e in
    let (b, len, dealt) =
      deal_flop_turn_river_lem (reset_round s) n draw reset.full_deck
        (omega (arith, cards, v.room)) in
    let u : HandState = record (with_cards (reset_round s) (suc n) b) { street = next } in
    let nobody =
      next_seat-none u.seats u.button_seat is_eligible_to_act (reset_ineligible s.seats all_in) in
    let many : leb (count_non_folded_active_seats u.seats) 1 ≡ false =
      ground (arith, reset-count s.seats) in
    let opened : open_street u ≡ record u { phase = showdown } =
      rw (nobody, open_street) (rw many refl) in
    let short : length b < 5 = omega (arith, len, size, v.board) in
    let missing : not (length b == 5) ≡ true = ground arith in
    (
      record u { phase = showdown },
      rw (e, advance_street) (rw dealt (ap ok opened)),
      refl,
      short,
      rw (missing, resolve_pots) refl,
    )

-- In a sound hand before or on the flop in which no seat can act any more and two or more are still
-- in it, advancing the street goes to a showdown with fewer than five board cards, and `ResolvePots`
-- fails on it.
pub advance_street_unresolved :
    (s : HandState)
    → IsSound s
    → (s.street ≡ preflop) ⊎ (s.street ≡ flop)
    → All (λ x. is_eligible_to_act x ≡ false) s.seats
    → 2 ≤ count_non_folded_active_seats s.seats
    → (t : HandState) × (advance_street s ≡ ok t)
      × (t.phase ≡ showdown)
      × (length t.board < 5)
      × (resolve_pots t ≡ (t, err (bad_board_size (length t.board))))
advance_street_unresolved s v (inl e) all_in contested =
    stuck s flop v (ap next_street e) (omega arith) all_in contested
advance_street_unresolved s v (inr e) all_in contested =
    stuck s turn v (ap next_street e) (omega arith) all_in contested
