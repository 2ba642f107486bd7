-- ===== src/StateMachine/Action/Same.antt =====
-- The hand that an action is played in stays the same hand.
use poker_arena.Common.{ℕ, subst, ◌≡◌, ◌∙◌, refl, inl, inr, Option, none, some, Option-cases, arith}
use poker_arena.Domain.{
  Result, ok, err, SeatState, HandState, Action, ActionKind, fold, check, call, bet, raise,
}
use poker_arena.Domain.Results.{Result-cases}
use poker_arena.Rules.Dealer.{deal_flop_turn_river}
use poker_arena.Rules.Payout.{award_uncontested}
use poker_arena.StateMachine.Action.{
  reset_round, open_street, advance_street, next_street, play_fold, play_check, play_call, play_bet,
  play_raise, play_action, settle, acting, apply_action, check_phase,
}

abbrev Same : HandState → Result HandState → Type 0
Same s (err e) = Unit
Same s (ok t) = t.hand_id ≡ s.hand_id

award_uncontested-Same : (s : HandState) → (award_uncontested s).hand_id ≡ s.hand_id
unfolding award_uncontested
award_uncontested-Same s = ground arith

deal_flop_turn_river-Same : (s : HandState) → Same s (deal_flop_turn_river s)
unfolding deal_flop_turn_river
deal_flop_turn_river-Same s = ground arith

open_street-Same : (s : HandState) → (open_street s).hand_id ≡ s.hand_id
unfolding open_street
open_street-Same s = ground (arith, award_uncontested-Same s)

play_action-Same :
    (s : HandState) (i : ℕ) (x : SeatState) (kind : ActionKind) (amount : Option ℕ)
    → Same s (play_action s i x kind amount)
unfolding play_action play_fold play_check play_call play_bet play_raise
play_action-Same s i x fold amount = refl
play_action-Same s i x check amount = ground arith
play_action-Same s i x call amount = ground arith
play_action-Same s i x bet none = tt
play_action-Same s i x bet (some n) = ground arith
play_action-Same s i x raise none = tt
play_action-Same s i x raise (some n) = ground arith
play_action-Same s i x (ActionKind.other name) amount = tt

advance_street-Same : (s : HandState) → Same s (advance_street s)
unfolding advance_street reset_round
advance_street-Same s = elim (Option-cases (next_street s.street)) [
  | inl last ↦ rw (last, advance_street) refl
  | inr (street, on) ↦ elim (Result-cases (deal_flop_turn_river (reset_round s))) [
    | inr (e, stuck) ↦ rw (on, advance_street) (rw (stuck, advance_street) tt)
    | inl (dealt, fine) ↦
        let same : Same (reset_round s) (ok dealt) =
          subst (Same (reset_round s)) fine (deal_flop_turn_river-Same (reset_round s)) in
        rw (on, advance_street)
          (rw (fine, advance_street) (open_street-Same (record dealt { street = street }) ∙ same))
  ]
]

settle-Same : (s : HandState) (n : ℕ) → Same s (settle s n)
unfolding settle
settle-Same s n = ground (arith, award_uncontested-Same s, advance_street-Same s)

-- An action that is accepted does not change the hand's id.
pub apply_action-hand_id :
    (s : HandState) (a : Action) {t : HandState} → apply_action s a ≡ ok t → t.hand_id ≡ s.hand_id
unfolding apply_action
apply_action-hand_id s a {t} e = elim (Result-cases (check_phase s.phase)) [
  | inr (why, bad) ↦ absurd (cc (rw (bad, apply_action) at e))
  | inl (done, fine) ↦ elim (Result-cases (acting s)) [
    | inr (why, bad) ↦ absurd (cc (rw (bad, apply_action) at (rw (fine, apply_action) at e)))
    | inl ((i, x), turn) ↦ elim (Result-cases (play_action s i x a.kind a.amount)) [
      | inr (why, bad) ↦ absurd (
          cc
            (rw (bad, apply_action) at (rw (turn, apply_action) at (rw (fine, apply_action) at e))))
      | inl (p, played) ↦
          let settled =
            rw (played, apply_action) at
              (rw (turn, apply_action) at (rw (fine, apply_action) at e)) in
          let before : Same s (ok p) =
            subst (Same s) played (play_action-Same s i x a.kind a.amount) in
          let after : Same p (ok t) = subst (Same p) settled (settle-Same p x.seat_no) in
          after ∙ before
    ]
  ]
]
