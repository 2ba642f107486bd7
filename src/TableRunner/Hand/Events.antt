-- ===== src/TableRunner/Hand/Events.antt =====
-- What one round of the loop of `RunHand` did.
use poker_arena.Common.{
  ℕ, ◌≡◌, refl, inl, inr, true, false, Option-cases, List, [], not, ◌==◌, length, Bool-cases,
}
use poker_arena.Domain.{
  SeatState, Result, ok, err, HandState, HandPhase, PotAward, dealing, betting, showdown, complete,
}
use poker_arena.Domain.Results.{Result-cases}
use poker_arena.Rules.Payout.{resolve_pots, finish_pots, levels_loop, contribution_levels}
use poker_arena.StateMachine.Action.{apply_action}
use poker_arena.TableRunner.Hand.{
  before_provider, after_provider_error, after_provider, after_illegal_action, World, Round,
  finished, failed, played, play_round, apply_fallback, finish_hand, fallback_round,
  finish_showdown, fallback_action_check, fallback_action_fold, is_terminal,
}

-- A round that goes on applied the action of its event to the state before it.
abbrev pub Applied : HandState → Round → Type 0
Applied s (finished final) = final.phase ≡ complete
Applied s (failed last e) = Unit
Applied s (played next event) = (event.before ≡ s) × (apply_action s event.action ≡ ok next)

finish_pots-Applied :
    (s : HandState) (out : List SeatState × Result (List PotAward))
    → Applied s (finish_showdown (finish_pots s out))
finish_pots-Applied s (seats, err e) = tt
finish_pots-Applied s (seats, ok awards) = refl

resolve_pots-Applied : (s : HandState) → Applied s (finish_showdown (resolve_pots s))
unfolding resolve_pots
resolve_pots-Applied s = elim (Bool-cases (not (length s.board == 5))) [
  | inl short ↦ rw short tt
  | inr whole ↦
      rw whole (finish_pots-Applied s (levels_loop s 0 0 (contribution_levels s.seats) s.seats []))
]

finish_hand-Applied :
    (s : HandState) (p : HandPhase)
    → s.phase ≡ p
    → is_terminal p ≡ true
    → Applied s (finish_hand s p)
finish_hand-Applied s complete e h = e
finish_hand-Applied s showdown e h = resolve_pots-Applied s
finish_hand-Applied s dealing e h = absurd (cc h)
finish_hand-Applied s betting e h = absurd (cc h)

fallback_round-Applied : (s : HandState) → Applied s (fallback_round s (apply_fallback s))
unfolding apply_fallback
fallback_round-Applied s = elim (Result-cases (apply_action s fallback_action_check)) [
  | inl (t, checked) ↦ rw (checked, apply_fallback) (refl, checked)
  | inr (e, refused) ↦ elim (Result-cases (apply_action s fallback_action_fold)) [
    | inl (t, folded) ↦ rw (refused, apply_fallback) (rw (folded, apply_fallback) (refl, folded))
    | inr (e', stuck) ↦ rw (refused, apply_fallback) (rw (stuck, apply_fallback) tt)
  ]
]

-- The answer of the provider, played or replaced.
answer-Applied :
    (world : World) (n : ℕ) (s : HandState)
    → is_terminal s.phase ≡ false
    → world.is_cancelled n before_provider ≡ false
    → Applied s (play_round world n s)
unfolding play_round
answer-Applied world n s on live = elim (Option-cases (world.next_action n s)) [
  | inl failed_answer ↦ elim (Bool-cases (world.is_cancelled n after_provider_error)) [
    | inl stopped ↦ rw on (rw live (rw (failed_answer, play_round) (rw stopped tt)))
    | inr going ↦
        rw on (rw live (rw (failed_answer, play_round) (rw going (fallback_round-Applied s))))
  ]
  | inr (action, answered) ↦ elim (Bool-cases (world.is_cancelled n after_provider)) [
    | inl stopped ↦ rw on (rw live (rw (answered, play_round) (rw stopped tt)))
    | inr going ↦ elim (Result-cases (apply_action s action)) [
      | inl (t, accepted) ↦ rw on (
          rw live
            (rw (answered, play_round) (rw going (rw (accepted, play_round) (refl, accepted)))))
      | inr (e, refused) ↦ elim (Bool-cases (world.is_cancelled n after_illegal_action)) [
        | inl late ↦
            rw on (
              rw live
                (rw (answered, play_round) (rw going (rw (refused, play_round) (rw late tt)))))
        | inr early ↦ rw on (
            rw live (
              rw (answered, play_round)
                (rw going (rw (refused, play_round) (rw early (fallback_round-Applied s))))))
      ]
    ]
  ]
]

pub play_round-Applied : (world : World) (n : ℕ) (s : HandState) → Applied s (play_round world n s)
unfolding play_round
play_round-Applied world n s = elim (Bool-cases (is_terminal s.phase)) [
  | inl over ↦ rw over (finish_hand-Applied s s.phase refl over)
  | inr on ↦ elim (Bool-cases (world.is_cancelled n before_provider)) [
    | inl stopped ↦ rw on (rw stopped tt)
    | inr live ↦ answer-Applied world n s on live
  ]
]
