-- ===== src/StateMachine/Start/Blinds.antt =====
-- Posting a blind, and opening the betting, in `StartNewHand` of state_machine.go.
use Prim.Native.Nat.{min}
use poker_arena.Common.{
  ℕ, ◌<◌, ◌≡◌, refl, some, Option-cases, Bool-cases, inl, inr, get_elem?, modify, sum_by-get_le,
  arith, u32_size, add32, add32-exact, leb,
}
use poker_arena.Domain.{SeatState, HandState, is_active}
use poker_arena.Rules.Payout.Chips.{chips, award_uncontested-chips}
use poker_arena.StateMachine.Seats.{
  seat_index, next_seat, is_eligible_to_act, count_non_folded_active_seats,
}
use poker_arena.StateMachine.Seats.Find.{Distinct-modify}
use poker_arena.StateMachine.Action.{commit}
use poker_arena.StateMachine.Action.Chips.{stacks-commit}
use poker_arena.StateMachine.Action.Valid.{
  IsSound, IsValid, next_seat-Ready, award_uncontested-IsValid,
}
use poker_arena.StateMachine.Start.{post_blind, open_betting}

-- A sound hand stays sound, and the chips stay together, where they fit in 32 bits.
pub record Kept (s t : HandState) : Type 0 where
  pub sound : IsSound s → IsSound t
  pub same_chips : chips s < u32_size → chips t ≡ chips s

Kept-refl : (s : HandState) → Kept s s
Kept-refl s = record { sound = λ v. v; same_chips = λ h. refl }

posted : HandState → ℕ → SeatState → ℕ → HandState
posted s i x amount = record s {
  seats = modify s.seats i (commit (min x.stack amount));
  pot = add32 s.pot (min x.stack amount);
}

posted-Kept :
    (s : HandState) (i : ℕ) (x : SeatState) (amount : ℕ)
    → get_elem? s.seats i ≡ some x
    → Kept s (posted s i x amount)
unfolding posted
posted-Kept s i x amount here = record {
  sound = λ v. record {
    distinct = Distinct-modify s.seats i (commit (min x.stack amount)) (λ a. refl) v.distinct;
    full_deck = v.full_deck;
    room = v.room;
    board = v.board;
  };
  same_chips = λ h.
      let paid = min x.stack amount in
      omega (
        arith,
        stacks-commit s i x here h paid (commit paid) (omega arith) refl,
        sum_by-get_le (λ s. s.stack) s.seats i here,
        add32-exact s.pot paid,
      );
}

-- A blind moves chips from a stack to the pot, or does nothing.
pub post_blind-Kept : (s : HandState) (seat_no amount : ℕ) → Kept s (post_blind s seat_no amount).0
unfolding post_blind posted
post_blind-Kept s seat_no amount = elim (Option-cases (seat_index s.seats seat_no)) [
  | inl missing ↦ rw (missing, post_blind) (Kept-refl s)
  | inr (i, at) ↦ elim (Option-cases (get_elem? s.seats i)) [
    | inl gone ↦ rw (at, post_blind) (rw (gone, post_blind) (Kept-refl s))
    | inr (x, here) ↦ elim (Bool-cases (is_active x)) [
      | inl plays ↦
          rw (at, post_blind) (rw (here, post_blind) (rw plays (posted-Kept s i x amount here)))
      | inr out ↦ rw (at, post_blind) (rw (here, post_blind) (rw out (Kept-refl s)))
    ]
  ]
]

-- Where the betting opens, the seat that is to act may act.
pub open_betting-IsValid :
    (s : HandState) (bb_seat : ℕ) → IsSound s → IsValid (open_betting s bb_seat)
unfolding open_betting
open_betting-IsValid s bb_seat v =
    elim (Bool-cases (leb (count_non_folded_active_seats s.seats) 1)) [
      | inl alone ↦ rw alone (award_uncontested-IsValid s v)
      | inr contested ↦ elim (Option-cases (next_seat s.seats bb_seat is_eligible_to_act)) [
        | inl nobody ↦ rw contested (
            rw (nobody, open_betting)
              (record {
                distinct = v.distinct;
                full_deck = v.full_deck;
                room = v.room;
                board = v.board;
                turn_ready = λ e. absurd (cc e);
              }))
        | inr (n, found) ↦
            let opened : HandState = record s { acting_seat = n; action_order_start_seat = n } in
            rw contested (
              rw (found, open_betting)
                (record {
                  distinct = v.distinct;
                  full_deck = v.full_deck;
                  room = v.room;
                  board = v.board;
                  turn_ready = λ e. next_seat-Ready opened bb_seat n v.distinct found refl;
                }))
      ]
    ]

pub open_betting-chips :
    (s : HandState) (bb_seat : ℕ) → chips s < u32_size → chips (open_betting s bb_seat) ≡ chips s
unfolding open_betting
open_betting-chips s bb_seat h = ground (arith, award_uncontested-chips s)
