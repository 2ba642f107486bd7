-- ===== src/Tests/Runs.antt =====
-- Whole hands and tables, with providers that call.
use poker_arena.Common.{◌≡◌, refl, Option, some, false, arith}
use poker_arena.Domain.{Error, ok, HandState, default_v0_table_config}
use poker_arena.StateMachine.Action.Valid.{IsValid}
use poker_arena.TableRunner.Hand.{RunHandResult, run_hand, apply_fallback, fallback_action_fold}
use poker_arena.TableRunner.Hand.Rounds.{Counted, run_hand_total}
use poker_arena.TableRunner.Hand.Fallback.{apply_fallback_total}
use poker_arena.TableRunner.Hand.Accepted.{WellPlayed, run_hand_accepted}
use poker_arena.TableRunner.Table.{TableRunner, RunTableInput, RunTableResult, run_table}
use poker_arena.TableRunner.Table.Total.{Tallied, run_table_total}
use poker_arena.Common.{true, [], ◌∷◌, rotated}
use poker_arena.Domain.{new_seat_state, ok}
use poker_arena.TableRunner.Seating.{
  normalize_button, next_button_seat, is_button_eligible, exchange_pass,
}
use poker_arena.TableRunner.Seating.Button.{normalize_button-eligible}
use poker_arena.Tests.Hands.{
  no_chance, hand_of, three_seats, seat_after, sample, callers, sample-IsValid, sample-acting,
  no_chance-KeepsLength,
}

apply_fallback_total_example :
    (t : HandState) × (apply_fallback sample ≡ ok (t, fallback_action_fold)) × IsValid t
apply_fallback_total_example =
    apply_fallback_total sample 0 (seat_after 1 0) sample-IsValid refl sample-acting

run_hand_total_example :
    (r : RunHandResult) × (run_hand
        (record { provider = some callers; max_actions_per_hand = 20 })
        no_chance
        (hand_of three_seats)
      ≡ some r)
    × Counted 20 0 0 r
run_hand_total_example =
    run_hand_total (record { provider = some callers; max_actions_per_hand = 20 }) no_chance
      (hand_of three_seats)

abbrev two_hands : RunTableInput
two_hands = record {
  table_id = "table";
  starting_hand = 7;
  hands_to_run = 2;
  button_seat = 1;
  seats = three_seats;
  config = default_v0_table_config;
}

abbrev callers_table : TableRunner
callers_table = record {
  provider = some (record {
    world = λ i. callers;
    chance = λ i. no_chance;
    is_cancelled = λ i. false;
    is_cancelled_at_start = false;
  });
  max_actions_per_hand = 20;
}

run_table_total_example :
    (out : RunTableResult × Option Error) × (run_table callers_table two_hands ≡ some out)
    × Tallied 2 out.0
run_table_total_example = run_table_total callers_table two_hands

run_hand_accepted_example :
    (r : RunHandResult) × (run_hand
        (record { provider = some callers; max_actions_per_hand = 20 })
        no_chance
        (hand_of three_seats)
      ≡ some r)
    × WellPlayed 3000 r
run_hand_accepted_example =
    run_hand_accepted (record { provider = some callers; max_actions_per_hand = 20 }) no_chance
      (hand_of three_seats) no_chance-KeepsLength (omega arith)

-- The button moves on from a seat without chips.
button_moved : normalize_button 1 (new_seat_state 1 0 ∷ new_seat_state 2 1000 ∷ []) ≡ ok 2
unfolding normalize_button next_button_seat is_button_eligible exchange_pass rotated
button_moved = refl

normalize_button-eligible_example :
    is_button_eligible 2 (new_seat_state 1 0 ∷ new_seat_state 2 1000 ∷ []) ≡ true
normalize_button-eligible_example =
    normalize_button-eligible 1 2 (new_seat_state 1 0 ∷ new_seat_state 2 1000 ∷ []) button_moved
