-- ===== src/StateMachine/Action/Chips.antt =====
-- Chips are neither made nor lost by an action of `ApplyAction`.
use Prim.Native.Nat.{min}
use poker_arena.Common.{
  ℕ, ◌+◌, ◌-◌, ◌≤◌, ◌<◌, ◌≡◌, refl, Option, none, some, map, get_elem?, modify, sum_by-modify,
  sum_by-get_le, sum_by-map, sum_by-modify_keep, add32, sub32, add32-exact, sub32-exact, u32_size,
  arith,
}
use poker_arena.Domain.{ok, SeatState, HandState, ActionKind, fold, check, call, bet, raise}
use poker_arena.Rules.Payout.Chips.{stacks, chips}
use poker_arena.StateMachine.Seats.{acted, pend, mark_round_response_pending, compute_to_call}
use poker_arena.StateMachine.Action.{
  commit, fold_seat, open_bet, play_fold, play_check, play_call, play_bet, play_raise, play_action,
}

module _ (s : HandState) (i : ℕ) (x : SeatState) (here : get_elem? s.seats i ≡ some x)
    (small : chips s < u32_size) where
  -- Committing chips takes them from the stack.
  pub stacks-commit :
      (c : ℕ) (f : SeatState → SeatState)
      → c ≤ x.stack
      → (f x).stack ≡ sub32 x.stack c
      → stacks (modify s.seats i f) + c ≡ stacks s.seats
  stacks-commit c f h e = omega (
    arith,
    e,
    sum_by-modify (λ s. s.stack) s.seats i f here,
    sum_by-get_le (λ s. s.stack) s.seats i here,
    sub32-exact x.stack c,
  )

  stacks-keep :
      (f : SeatState → SeatState)
      → (f x).stack ≡ x.stack
      → stacks (modify s.seats i f) ≡ stacks s.seats
  stacks-keep f e = omega (arith, e, sum_by-modify (λ s. s.stack) s.seats i f here)

  play_fold-chips : chips (play_fold s i) ≡ chips s
  unfolding play_fold
  play_fold-chips = omega (arith, stacks-keep fold_seat refl)

  play_check-chips : {t : HandState} → play_check s i x ≡ ok t → chips t ≡ chips s
  unfolding play_check
  play_check-chips e = ground (arith, stacks-keep acted refl)

  play_call-chips : {t : HandState} → play_call s i x ≡ ok t → chips t ≡ chips s
  unfolding play_call
  play_call-chips e =
      let paid = min (compute_to_call x s.current_bet) x.stack in
      ground (
        arith,
        stacks-commit paid (λ s. acted (commit paid s)) (omega arith) refl,
        sum_by-get_le (λ s. s.stack) s.seats i here,
        add32-exact s.pot paid,
      )

  open_bet-chips :
      (c bet_to full_raise : ℕ) → c ≤ x.stack → chips (open_bet s i x c bet_to full_raise) ≡ chips s
  unfolding mark_round_response_pending
  open_bet-chips c bet_to full_raise h =
      let committed = modify s.seats i (commit c) in
      omega (
        arith,
        stacks-commit c (commit c) h refl,
        sum_by-modify_keep (λ s. s.stack) (map pend committed) i acted (λ a. refl),
        sum_by-map (λ s. s.stack) pend committed,
        sum_by-get_le (λ s. s.stack) s.seats i here,
        add32-exact s.pot c,
      )

  play_bet-chips :
      (amount : Option ℕ) {t : HandState} → play_bet s i x amount ≡ ok t → chips t ≡ chips s
  unfolding play_bet
  play_bet-chips none e = absurd (cc e)
  play_bet-chips (some n) e = ground (arith, open_bet-chips n (add32 x.committed_in_round n) n)

  play_raise-chips :
      (amount : Option ℕ) {t : HandState} → play_raise s i x amount ≡ ok t → chips t ≡ chips s
  unfolding play_raise
  play_raise-chips none e = absurd (cc e)
  play_raise-chips (some n) e =
      ground (arith, open_bet-chips (n - x.committed_in_round) n (n - s.current_bet))

  pub play_action-chips :
      (kind : ActionKind) (amount : Option ℕ) {t : HandState}
      → play_action s i x kind amount ≡ ok t
      → chips t ≡ chips s
  unfolding play_action
  play_action-chips fold amount e = ground (arith, play_fold-chips)
  play_action-chips check amount e = play_check-chips e
  play_action-chips call amount e = play_call-chips e
  play_action-chips bet amount e = play_bet-chips amount e
  play_action-chips raise amount e = play_raise-chips amount e
  play_action-chips (ActionKind.other name) amount e = absurd (cc e)
