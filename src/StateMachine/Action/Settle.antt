-- ===== src/StateMachine/Action/Settle.antt =====
-- What follows the `switch` of `ApplyAction`: it never fails on a sound hand.
use poker_arena.Common.{
  ℕ, ◌-◌, add32, ◌<◌, ◌≡◌, refl, subst, inl, inr, Option, none, some, map, modify, Bool-cases,
  Option-cases, u32_size, leb,
}
use poker_arena.Domain.{Result, ok, SeatState, HandState, ActionKind, fold, check, call, bet, raise}
use poker_arena.Domain.Results.{ok-injective, fail_if-eq_ok}
use poker_arena.Rules.Payout.{award_uncontested}
use poker_arena.Rules.Payout.Chips.{chips, award_uncontested-chips}
use poker_arena.StateMachine.Seats.{
  next_seat, is_eligible_to_act, count_non_folded_active_seats, is_betting_round_closed, acted,
  pend, mark_round_response_pending,
}
use poker_arena.StateMachine.Seats.Find.{Distinct-map, Distinct-modify}
use poker_arena.StateMachine.Action.{
  settle, commit, fold_seat, open_bet, play_fold, play_check, play_call, play_bet, play_raise,
  play_action,
}
use poker_arena.StateMachine.Action.Legal.{play_bet-eq_ok, play_raise-eq_ok}
use poker_arena.StateMachine.Action.Valid.{
  IsSound, IsValid, award_uncontested-IsValid, advance_street_lem, next_seat-Ready,
}

-- A hand that goes on: what the checks leave is valid, with the same chips.
abbrev pub Succeeds : HandState → Result HandState → Type 0
Succeeds s r = (t : HandState) × (r ≡ ok t) × IsValid t × (chips s < u32_size → chips t ≡ chips s)

pub settle_lem : (s : HandState) (n : ℕ) → IsSound s → Succeeds s (settle s n)
unfolding settle
settle_lem s n v = elim (Bool-cases (leb (count_non_folded_active_seats s.seats) 1)) [
  | inl alone ↦
      (award_uncontested s, rw alone, award_uncontested-IsValid s v, award_uncontested-chips s)
  | inr contested ↦ elim (Bool-cases (is_betting_round_closed s)) [
    | inl closed ↦
        let (t, e, valid, keep) = advance_street_lem s v in
        (t, rw contested (rw closed e), valid, keep)
    | inr running ↦ elim (Option-cases (next_seat s.seats n is_eligible_to_act)) [
      | inl nobody ↦
          let (t, e, valid, keep) = advance_street_lem s v in
          (t, rw contested (rw running (rw (nobody, settle) e)), valid, keep)
      | inr (next, found) ↦
          let t : HandState = record s { acting_seat = next } in
          (
            t,
            rw contested (rw running (rw (found, settle) refl)),
            record {
              distinct = v.distinct;
              full_deck = v.full_deck;
              room = v.room;
              board = v.board;
              turn_ready = λ e. next_seat-Ready t n next v.distinct found refl;
            },
            λ h. refl,
          )
    ]
  ]
]

module _ (s : HandState) (i : ℕ) (x : SeatState) (v : IsSound s) where
  modified-IsSound :
      (f : SeatState → SeatState)
      → ((a : SeatState) → (f a).seat_no ≡ a.seat_no)
      → IsSound (record s { seats = modify s.seats i f })
  modified-IsSound f keep = record {
    distinct = Distinct-modify s.seats i f keep v.distinct;
    full_deck = v.full_deck;
    room = v.room;
    board = v.board;
  }

  repotted-IsSound :
      (f : SeatState → SeatState) (pot : ℕ)
      → ((a : SeatState) → (f a).seat_no ≡ a.seat_no)
      → IsSound (record s { seats = modify s.seats i f; pot = pot })
  repotted-IsSound f pot keep = record {
    distinct = Distinct-modify s.seats i f keep v.distinct;
    full_deck = v.full_deck;
    room = v.room;
    board = v.board;
  }

  open_bet-IsSound : (c bet_to full_raise : ℕ) → IsSound (open_bet s i x c bet_to full_raise)
  unfolding mark_round_response_pending
  open_bet-IsSound c bet_to full_raise = record {
    distinct =
        Distinct-modify (map pend (modify s.seats i (commit c))) i acted (λ a. refl)
          (Distinct-map (modify s.seats i (commit c)) pend (λ a. refl)
            (Distinct-modify s.seats i (commit c) (λ a. refl) v.distinct));
    full_deck = v.full_deck;
    room = v.room;
    board = v.board;
  }

  -- No action touches the cards or the seat numbers.
  pub play_action-IsSound :
      (kind : ActionKind) (amount : Option ℕ) {t : HandState}
      → play_action s i x kind amount ≡ ok t
      → IsSound t
  unfolding play_action play_fold play_check play_call play_bet play_raise
  play_action-IsSound fold amount e =
      subst IsSound (ok-injective e) (modified-IsSound fold_seat (λ a. refl))
  play_action-IsSound check amount e =
      let (legal, e') = fail_if-eq_ok _ _ _ e in
      subst IsSound (ok-injective e') (modified-IsSound acted (λ a. refl))
  play_action-IsSound call amount e =
      let (legal, e') = fail_if-eq_ok _ _ _ e in
      subst IsSound (ok-injective e') (repotted-IsSound _ _ (λ a. refl))
  play_action-IsSound bet none e = absurd (cc e)
  play_action-IsSound bet (some n) e =
      let (legal, e') = play_bet-eq_ok s i x n e in
      subst IsSound e' (open_bet-IsSound n (add32 x.committed_in_round n) n)
  play_action-IsSound raise none e = absurd (cc e)
  play_action-IsSound raise (some n) e =
      let (legal, e') = play_raise-eq_ok s i x n e in
      subst IsSound e' (open_bet-IsSound (n - x.committed_in_round) n (n - s.current_bet))
  play_action-IsSound (ActionKind.other name) amount e = absurd (cc e)
