-- ===== src/StateMachine/Action/Valid.antt =====
-- The invariant of a hand between two actions, and that advancing the street keeps it.
use poker_arena.Common.{
  ℕ, suc, ◌+◌, ◌≤◌, ◌<◌, ◌≡◌, refl, inl, inr, ◌∙◌, true, some, get_elem?, length, sum_by-map,
  Bool-cases, Option-cases, u32_size, arith, ◌==◌, leb,
}
use poker_arena.Domain.{
  ok, SeatState, HandState, betting, showdown, complete, Street, preflop, flop, turn, river,
}
use poker_arena.Rules.Dealer.{board_draw}
use poker_arena.Rules.Dealer.Board.{deal_flop_turn_river_lem, with_cards}
use poker_arena.Rules.Payout.{pay, award_uncontested, uncontested_winner}
use poker_arena.Rules.Payout.Chips.{chips, award_uncontested-chips}
use poker_arena.StateMachine.Seats.{
  next_seat, seat_index, is_eligible_to_act, count_non_folded_active_seats,
}
use poker_arena.StateMachine.Seats.Find.{Distinct, Distinct-map, Distinct-modify, next_seat_sound}
use poker_arena.StateMachine.Action.{
  acting, next_round, next_street, reset_round, open_street, advance_street,
}

-- The cards that the streets to come take from the deck, the burnt ones included.
abbrev pub cards_to_come : Street → ℕ
cards_to_come preflop = 8
cards_to_come flop = 4
cards_to_come turn = 2
cards_to_come _ = 0

abbrev pub board_size : Street → ℕ
board_size flop = 3
board_size turn = 4
board_size river = 5
board_size _ = 0

-- The seat that is to act exists and may act.
abbrev pub Ready : HandState → Type 0
Ready s = (i : ℕ) × (x : SeatState) × (acting s ≡ ok (i, x))

pub record IsValid (s : HandState) : Type 0 where
  pub distinct : Distinct s.seats
  pub full_deck : length s.deck ≡ 52
  pub room : s.next_card_index + cards_to_come s.street ≤ 52
  pub board : length s.board ≡ board_size s.street
  pub turn_ready : s.phase ≡ betting → Ready s

-- A seat found by its number, which may act, is the acting seat.
pub acting-Ready :
    (s : HandState) (i : ℕ) (x : SeatState)
    → seat_index s.seats s.acting_seat ≡ some i
    → get_elem? s.seats i ≡ some x
    → is_eligible_to_act x ≡ true
    → Ready s
unfolding acting
acting-Ready s i x at here pass = (i, x, rw (at, acting) (rw (here, acting) (rw (pass, acting))))

-- What `nextSeat` returns for the seats that may act is ready to act.
pub next_seat-Ready :
    (s : HandState) (from n : ℕ)
    → Distinct s.seats
    → next_seat s.seats from is_eligible_to_act ≡ some n
    → s.acting_seat ≡ n
    → Ready s
next_seat-Ready s from n d e k =
    let (i, x, at, here, pass, number) = next_seat_sound s.seats from is_eligible_to_act n d e in
    acting-Ready s i x (rw k at) here pass

award_uncontested_rest :
    (s : HandState)
    → ((award_uncontested s).deck ≡ s.deck)
      × ((award_uncontested s).next_card_index ≡ s.next_card_index)
      × ((award_uncontested s).street ≡ s.street)
      × ((award_uncontested s).board ≡ s.board)
      × ((award_uncontested s).phase ≡ complete)
unfolding award_uncontested
award_uncontested_rest s = ground arith

award_uncontested-Distinct :
    (s : HandState) → Distinct s.seats → Distinct (award_uncontested s).seats
unfolding award_uncontested
award_uncontested-Distinct s d = elim (Bool-cases (s.pot == 0)) [
  | inl empty ↦ rw empty d
  | inr full ↦ elim (Option-cases (uncontested_winner s.seats)) [
    | inl nobody ↦ rw (full, nobody) d
    | inr (i, someone) ↦ rw (full, someone) (Distinct-modify s.seats i (pay s.pot) (λ a. refl) d)
  ]
]

-- The parts of the invariant that no phase touches.
pub record IsSound (s : HandState) : Type 0 where
  pub distinct : Distinct s.seats
  pub full_deck : length s.deck ≡ 52
  pub room : s.next_card_index + cards_to_come s.street ≤ 52
  pub board : length s.board ≡ board_size s.street

pub award_uncontested-IsValid : (s : HandState) → IsSound s → IsValid (award_uncontested s)
award_uncontested-IsValid s v =
    let (deck, index, street, board, phase) = award_uncontested_rest s in
    record {
      distinct = award_uncontested-Distinct s v.distinct;
      full_deck = rw deck v.full_deck;
      room = rw (index, street) v.room;
      board = rw (board, street) v.board;
      turn_ready = λ e. absurd (cc (e, phase));
    }

pub open_street-IsValid : (s : HandState) → IsSound s → IsValid (open_street s)
unfolding open_street
open_street-IsValid s v = elim (Option-cases (next_seat s.seats s.button_seat is_eligible_to_act)) [
  | inr (n, found) ↦
      let opened : HandState = record s {
        acting_seat = n;
        action_order_start_seat = n;
        phase = betting;
      } in
      rw (found, open_street)
        (record {
          distinct = v.distinct;
          full_deck = v.full_deck;
          room = v.room;
          board = v.board;
          turn_ready = λ e. next_seat-Ready opened s.button_seat n v.distinct found refl;
        })
  | inl nobody ↦ elim (Bool-cases (leb (count_non_folded_active_seats s.seats) 1)) [
    | inl alone ↦ rw (nobody, open_street) (rw alone (award_uncontested-IsValid s v))
    | inr contested ↦
        rw (nobody, open_street)
          (rw contested (record {
            distinct = v.distinct;
            full_deck = v.full_deck;
            room = v.room;
            board = v.board;
            turn_ready = λ e. absurd (cc e);
          }))
  ]
]

pub reset_round-IsSound : (s : HandState) → IsSound s → IsSound (reset_round s)
unfolding reset_round
reset_round-IsSound s v = record {
  distinct = Distinct-map s.seats next_round (λ a. refl) v.distinct;
  full_deck = v.full_deck;
  room = v.room;
  board = v.board;
}

-- Each street before the river deals the cards of the next, within what is left of the deck.
pub street_step :
    (street next : Street)
    → next_street street ≡ some next
    → (n : ℕ) × (board_draw street ≡ some n)
      × (suc n + cards_to_come next ≡ cards_to_come street)
      × (board_size street + n ≡ board_size next)
street_step preflop flop e = (3, refl, refl, refl)
street_step flop turn e = (1, refl, refl, refl)
street_step turn river e = (1, refl, refl, refl)
street_step street next e = absurd (cc e)

open_street-chips : (s : HandState) → chips s < u32_size → chips (open_street s) ≡ chips s
unfolding open_street
open_street-chips s h = ground (arith, award_uncontested-chips s)

reset_round-chips : (s : HandState) → chips (reset_round s) ≡ chips s
unfolding reset_round
reset_round-chips s = omega (arith, sum_by-map (λ x. x.stack) next_round s.seats)

-- Advancing the street never fails on a sound hand, and leaves a valid one with the same chips.
pub advance_street_lem :
    (s : HandState)
    → IsSound s
    → (t : HandState) × (advance_street s ≡ ok t)
      × IsValid t
      × (chips s < u32_size → chips t ≡ chips s)
unfolding advance_street
advance_street_lem s v =
    let reset = reset_round-IsSound s v in
    elim (Option-cases (next_street s.street)) [
      | inl last ↦ (
        record (reset_round s) { phase = showdown },
        rw (last, advance_street),
        record {
          distinct = reset.distinct;
          full_deck = reset.full_deck;
          room = reset.room;
          board = reset.board;
          turn_ready = λ e. absurd (cc e);
        },
        λ h. reset_round-chips s,
      )
      | inr (next, e) ↦
          let (n, draw, cards, size) = street_step s.street next e in
          let (b, len, dealt) =
            deal_flop_turn_river_lem (reset_round s) n draw reset.full_deck
              (omega (arith, cards, v.room)) in
          let u : HandState = record (with_cards (reset_round s) (suc n) b) { street = next } in
          let sound : IsSound u = record {
            distinct = reset.distinct;
            full_deck = reset.full_deck;
            room = omega (arith, cards, v.room);
            board = omega (arith, len, size, v.board);
          } in
          (
            open_street u,
            rw (e, advance_street) (rw dealt refl),
            open_street-IsValid u sound,
            λ h. open_street-chips u (omega (arith, reset_round-chips s)) ∙ reset_round-chips s,
          )
    ]
