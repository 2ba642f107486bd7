-- ===== src/Tests/Providers.antt =====
-- The providers of the engine command, at the hand that waits for seat 1.
use poker_arena.Common.{◌≡◌, ◌↔◌, refl, true, some, none, arith}
use poker_arena.Domain.{ok, HandState, Action, ActionKind, call}
use poker_arena.StateMachine.Action.{apply_action}
use poker_arena.Engine.Providers.{validate_human_action, is_action_allowed_for_prompt}
use poker_arena.Engine.Providers.Accepted.{
  validate_human_action-ok_iff, apply_action-is_action_allowed,
}
use poker_arena.Common.{false}
use poker_arena.TableRunner.Hand.{RunHandResult, run_hand}
use poker_arena.Engine.Providers.Bot.{bot_world, run_hand_by_bot}
use poker_arena.Tests.Hands.{
  no_chance, hand_of, three_seats, no_chance-KeepsLength, called_ok, act, seat_after, sample,
  sample-IsValid, sample-acting,
}

validate_human_action-ok_iff_example :
    (validate_human_action sample (act ActionKind.raise (some 200)) ≡ none)
    ↔ ((t : HandState) × (apply_action sample (act ActionKind.raise (some 200)) ≡ ok t))
validate_human_action-ok_iff_example =
    validate_human_action-ok_iff sample (act ActionKind.raise (some 200)) 0 (seat_after 1 0)
      sample-IsValid refl sample-acting (omega arith)

apply_action-is_action_allowed_example : is_action_allowed_for_prompt call true 100 ≡ true
apply_action-is_action_allowed_example =
    apply_action-is_action_allowed sample (act call none) 0 (seat_after 1 0) sample-IsValid refl
      sample-acting called_ok

run_hand_by_bot_example :
    (r : RunHandResult) × (run_hand
        (record { provider = some (bot_world (λ n at. false)); max_actions_per_hand = 20 })
        no_chance
        (hand_of three_seats)
      ≡ some r)
    × (r.fallback_count ≡ 0)
run_hand_by_bot_example =
    run_hand_by_bot (λ n at. false) 20 no_chance (hand_of three_seats) no_chance-KeepsLength
      (omega arith)
