-- ===== src/TableRunner/Table.antt =====
-- `RunTable` of runner.go: hand after hand, with the seats and the button carried over.
pub mod Total
use poker_arena.Common.{
  ℕ, zero, suc, ◌+◌, ◌%◌, Bool, true, false, Option, none, some, List, [], ◌∷◌, ◌++◌, ltb, ◌==◌,
  if◌then◌else◌,
}
use Prim.Native.String.{String}
use poker_arena.Domain.{
  Error, Result, ok, err, SeatState, TableConfig, HandState, HandPhase, invalid_hands_to_run,
  runner_misconfigured, context_cancelled, insufficient_active_seats,
}
use poker_arena.StateMachine.Start.{Chance, StartNewHandInput}
use poker_arena.TableRunner.Seating.{
  prepare_seats_for_next_hand, count_active_playable_seats, next_button_seat, normalize_button,
}
use poker_arena.TableRunner.Hand.{World, RunHandResult, Runner, run_hand}

abbrev pub u64_size : ℕ
u64_size = 18446744073709551616

-- The world of each hand of a run, by the hand's index; and whether the context is done when the
-- hand is about to start, and at the start of the run.
pub record TableWorld : Type 0 where
  pub world : ℕ → World
  pub chance : ℕ → Chance
  pub is_cancelled : ℕ → Bool
  pub is_cancelled_at_start : Bool

pub record TableRunner : Type 0 where
  pub provider : Option TableWorld
  pub max_actions_per_hand : ℕ

pub record RunTableInput : Type 0 where
  pub table_id : String
  pub starting_hand : ℕ  -- uint64
  pub hands_to_run : ℕ  -- 0 for every number that is not positive
  pub button_seat : ℕ
  pub seats : List SeatState
  pub config : TableConfig

pub record HandSummary : Type 0 where
  pub hand_no : ℕ
  pub final_phase : HandPhase
  pub action_count : ℕ
  pub fallback_count : ℕ
  pub final_state : HandState

pub record RunTableResult : Type 0 where
  pub hands_completed : ℕ
  pub final_button : ℕ
  pub final_seats : List SeatState
  pub total_actions : ℕ
  pub total_fallbacks : ℕ
  pub hand_summaries : List HandSummary

abbrev pub no_result : RunTableResult
no_result = record {
  hands_completed = 0;
  final_button = 0;
  final_seats = [];
  total_actions = 0;
  total_fallbacks = 0;
  hand_summaries = [];
}

abbrev pub stop_at :
    RunTableResult → ℕ → List SeatState → Option Error → RunTableResult × Option Error
stop_at result button seats e = (record result { final_button = button; final_seats = seats }, e)

-- The updates of the result after a hand without an error.
abbrev pub add_hand : RunTableResult → ℕ → ℕ → ℕ → HandState → RunTableResult
add_hand result hand_no actions fallbacks final = record result {
  hands_completed = suc result.hands_completed;
  total_actions = result.total_actions + actions;
  total_fallbacks = result.total_fallbacks + fallbacks;
  hand_summaries =
      result.hand_summaries
      ++ record {
        hand_no = hand_no;
        final_phase = final.phase;
        action_count = actions;
        fallback_count = fallbacks;
        final_state = final;
      }
        ∷ [];
}

-- The checks before a hand: the button that it is played with.
unfoldable pub hand_button : Bool → TableConfig → ℕ → List SeatState → Result ℕ
hand_button cancelled config button seats =
    if cancelled
    then err context_cancelled
    else if ltb (count_active_playable_seats seats) config.min_players_to_start
    then err insufficient_active_seats
    else normalize_button button seats

-- What a hand leaves: its final state and counters, or the error that ends the run. A hand without
-- an error has a final state.
pub data Played : Type 0 where
  unplayed : Error → Played
  played : HandState → ℕ → ℕ → Played

abbrev pub outcome : Option Error → Option HandState → ℕ → ℕ → Played
outcome (some e) final actions fallbacks = unplayed e
outcome none (some final) actions fallbacks = played final actions fallbacks
outcome none none actions fallbacks = unplayed runner_misconfigured

-- The input of the hand with index `i`.
abbrev pub hand_input : RunTableInput → ℕ → ℕ → List SeatState → StartNewHandInput
hand_input input i button seats = record {
  table_id = input.table_id;
  hand_no = (input.starting_hand + i) % u64_size;
  seats = seats;
  button_seat = button;
  config = input.config;
}

abbrev pub hand_runner : TableWorld → ℕ → ℕ → Runner
hand_runner world max_actions i = record {
  provider = some (world.world i);
  max_actions_per_hand = max_actions;
}

-- The loop over the hands: those left, and the index of the next. Nothing if a hand does not end.
unfoldable pub run_hands :
    TableWorld
    → ℕ
    → RunTableInput
    → ℕ
    → ℕ
    → ℕ
    → List SeatState
    → RunTableResult
    → Option (RunTableResult × Option Error)
run_hands world max_actions input zero i button seats result =
    some (stop_at result button seats none)
run_hands world max_actions input (suc left) i button seats result =
    elim (hand_button (world.is_cancelled i) input.config button seats) [
      | err e ↦ some (stop_at result button seats (some e))
      | ok current ↦
          elim (run_hand (hand_runner world max_actions i) (world.chance i)
            (hand_input input i current seats)) [
              | none ↦ none
              | some r ↦ elim (outcome r.error r.final_state r.action_count r.fallback_count) [
                | unplayed e ↦ some (stop_at result current seats (some e))
                | played final actions fallbacks ↦
                    elim (next_button_seat current (prepare_seats_for_next_hand final.seats)) [
                      | err e ↦ some (
                          stop_at
                            (add_hand result ((input.starting_hand + i) % u64_size) actions
                              fallbacks final)
                            current (prepare_seats_for_next_hand final.seats) (some e))
                      | ok next ↦
                          run_hands world max_actions input left (suc i) next
                            (prepare_seats_for_next_hand final.seats)
                            (add_hand result ((input.starting_hand + i) % u64_size) actions
                              fallbacks final)
                    ]
              ]
            ]
    ]

-- `RunTable`
unfoldable pub run_table : TableRunner → RunTableInput → Option (RunTableResult × Option Error)
unfolding run_hands
run_table runner input =
    if input.hands_to_run == 0
    then some (no_result, some invalid_hands_to_run)
    else elim runner.provider [
      | none ↦ some (no_result, some runner_misconfigured)
      | some world ↦
          if world.is_cancelled_at_start
          then some (no_result, some context_cancelled)
          else run_hands world runner.max_actions_per_hand input input.hands_to_run 0
              input.button_seat (prepare_seats_for_next_hand input.seats) no_result
    ]
