-- ===== src/Tests/Recorded.antt =====
-- A hand that ends with a fold, and what is stored of it.
use poker_arena.Common.{◌≡◌, refl, false, Option, none, some, List, [], ◌∷◌, map, find, string_key}
use poker_arena.Domain.{ok, SeatState, new_seat_state, default_v0_table_config, HandState, fold}
use poker_arena.StateMachine.Start.{start_new_hand}
use poker_arena.TableRunner.Hand.{World, ActionEvent, Runner, RunHandResult, run_hand, run_failed}
use poker_arena.Domain.{runner_misconfigured, new_hand_state, validate, standard52_deck}
use poker_arena.Common.{sort_by, rotated, sub32, add32}
use poker_arena.StateMachine.Seats.{sort_seats, seat_index, next_seat}
use poker_arena.StateMachine.Action.{apply_action, play_fold}
use poker_arena.Rules.Dealer.{init_hand, deal_preflop}
use poker_arena.Rules.Payout.{award_uncontested}
use poker_arena.Api.Run.{fresh_status}
use poker_arena.Api.Run.Callbacks.{Recording}
use poker_arena.Persistence.Records.{Time}
use poker_arena.Persistence.Repository.{
  new_in_memory_repository, list_actions, get_hand, get_table_run,
}
use poker_arena.Api.Run.Callbacks.{action_record, final_record}
use poker_arena.Api.Run.Recorded.{on_hand, after_hand}
use poker_arena.Api.Run.Played.{summary_of, run_hand-recorded}
use poker_arena.Tests.Hands.{no_chance, hand_of, act, sample, or_else}

abbrev folders : World
folders = record { next_action = λ n s. some (act fold none); is_cancelled = λ n at. false }

abbrev two_seated : List SeatState
two_seated = new_seat_state 1 1000 ∷ new_seat_state 2 1000 ∷ []

abbrev begun : HandState
unfolding start_new_hand
begun = or_else sample (start_new_hand no_chance (hand_of two_seated))

begun_ok : start_new_hand no_chance (hand_of two_seated) ≡ ok begun
unfolding start_new_hand sort_seats sort_by seat_index next_seat rotated new_hand_state validate
    init_hand deal_preflop standard52_deck
begun_ok = refl

abbrev folding : Runner
folding = record { provider = some folders; max_actions_per_hand = 20 }

abbrev or_failed : Option RunHandResult → RunHandResult
or_failed none = run_failed runner_misconfigured
or_failed (some r) = r

abbrev outcome : RunHandResult
unfolding run_hand
outcome = or_failed (run_hand folding no_chance (hand_of two_seated))

outcome-some : run_hand folding no_chance (hand_of two_seated) ≡ some outcome
unfolding run_hand start_new_hand sort_seats sort_by seat_index next_seat rotated new_hand_state
    validate init_hand deal_preflop standard52_deck sub32 apply_action play_fold award_uncontested
    add32
outcome-some = refl

abbrev or_sample : Option HandState → HandState
or_sample none = sample
or_sample (some s) = s

abbrev ended_in : HandState
ended_in = or_sample outcome.final_state

ended_ok : outcome.final_state ≡ some ended_in
unfolding run_hand start_new_hand sort_seats sort_by seat_index next_seat rotated new_hand_state
    validate init_hand deal_preflop standard52_deck sub32 apply_action play_fold award_uncontested
    add32
ended_ok = refl

-- One action was reported, the fold of the button.
abbrev stamped : List (ActionEvent × Time)
stamped = (record { before = begun; action = act fold none; is_fallback = false }, 9) ∷ []

stamped_ok : map (λ e. e.0) stamped ≡ outcome.events
unfolding run_hand start_new_hand sort_seats sort_by seat_index next_seat rotated new_hand_state
    validate init_hand deal_preflop standard52_deck sub32 apply_action play_fold award_uncontested
    add32
stamped_ok = refl

abbrev empty_recording : Recording
empty_recording = record {
  repo = new_in_memory_repository;
  status = fresh_status "table" 7 (record {
    table_id = "table";
    starting_hand = 1;
    hands_to_run = 1;
    button_seat = 1;
    seats = two_seated;
    config = default_v0_table_config;
  });
  hand_started_at = [];
}

no_hand : find begun.hand_id new_in_memory_repository.hands ≡ none
unfolding find
no_hand = refl

no_actions : find begun.hand_id new_in_memory_repository.actions ≡ none
unfolding find
no_actions = refl

run_hand-recorded_example :
    let summary = summary_of (hand_of two_seated) outcome ended_in in
    let y = on_hand empty_recording (begun, 8) stamped (summary, 10) in
    let status =
      after_hand (record empty_recording.status { current_hand_no = begun.hand_no }) summary in
    (list_actions y.repo begun.hand_id ≡ map (λ e. action_record e.0 e.1) stamped)
    × (get_hand y.repo begun.hand_id ≡ some (final_record summary 8 10))
    × (get_table_run y.repo "table" ≡ some status)
    × (y.status ≡ status)
run_hand-recorded_example =
    run_hand-recorded folding no_chance (hand_of two_seated) begun outcome ended_in empty_recording
      8 stamped 10 begun_ok outcome-some ended_ok stamped_ok no_hand no_actions
