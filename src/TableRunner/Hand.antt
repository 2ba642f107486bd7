-- ===== src/TableRunner/Hand.antt =====
-- `RunHand` of runner.go. The provider, the context and the random source are arguments, which may
-- answer differently in each round of the loop; the callbacks become the list of their calls.
pub mod Fallback
pub mod Rounds
pub mod Events
pub mod Accepted
pub mod Same
use poker_arena.Common.{
  ℕ, zero, suc, Bool, true, false, Option, none, some, List, [], ◌∷◌, ltb, if◌then◌else◌,
}
use poker_arena.Domain.{
  Error, PotAward, Result, ok, err, HandState, HandPhase, showdown, complete, Action, fold, check,
  fallback_failed, action_limit_exceeded, runner_misconfigured, context_cancelled,
}
use poker_arena.Rules.Payout.{resolve_pots}
use poker_arena.StateMachine.Action.{apply_action}
use poker_arena.StateMachine.Start.{Chance, StartNewHandInput, start_new_hand}

abbrev pub default_max_actions_per_hand : ℕ
default_max_actions_per_hand = 512

-- The four places of the loop at which the context is looked at.
pub data CheckPoint : Type 0 where
  before_provider after_provider_error after_provider after_illegal_action : CheckPoint

-- The world of one hand, by the number of the round: the provider's answer (nothing for an error),
-- and whether the context is done.
pub record World : Type 0 where
  pub next_action : ℕ → HandState → Option Action
  pub is_cancelled : ℕ → CheckPoint → Bool

-- `isTerminal`
abbrev pub is_terminal : HandPhase → Bool
is_terminal complete = true
is_terminal showdown = true
is_terminal _ = false

abbrev pub fallback_action_check : Action
fallback_action_check = record { kind = check; amount = none }

abbrev pub fallback_action_fold : Action
fallback_action_fold = record { kind = fold; amount = none }

-- `applyFallback`: a check, and where that is refused a fold.
unfoldable pub apply_fallback : HandState → Result (HandState × Action)
apply_fallback state = elim (apply_action state fallback_action_check) [
  | ok next ↦ ok (next, fallback_action_check)
  | err e ↦ elim (apply_action state fallback_action_fold) [
    | ok next ↦ ok (next, fallback_action_fold)
    | err e' ↦ err (fallback_failed e e')
  ]
]

-- A call of `OnAction`: the state before the action, the action, and whether it is a fallback.
pub record ActionEvent : Type 0 where
  pub before : HandState
  pub action : Action
  pub is_fallback : Bool

-- How one round of the loop ends: the hand is over, or an error, or an action was applied.
pub data Round : Type 0 where
  finished : HandState → Round
  failed : HandState → Error → Round
  played : HandState → ActionEvent → Round

abbrev pub fallback_round : HandState → Result (HandState × Action) → Round
fallback_round state (err e) = failed state e
fallback_round state (ok (next, action)) =
    played next (record { before = state; action = action; is_fallback = true })

-- The showdown at the end of a hand.
abbrev pub finish_showdown : HandState × Result (List PotAward) → Round
finish_showdown (state, err e) = failed state e
finish_showdown (state, ok awards) = finished state

abbrev pub finish_hand : HandState → HandPhase → Round
finish_hand state showdown = finish_showdown (resolve_pots state)
finish_hand state _ = finished state

-- The body of the `for` of `RunHand`, in round `n`, up to the counters.
unfoldable pub play_round : World → ℕ → HandState → Round
unfolding apply_fallback
play_round world n state =
    if is_terminal state.phase
    then finish_hand state state.phase
    else if world.is_cancelled n before_provider
    then failed state context_cancelled
    else elim (world.next_action n state) [
      | none ↦
          if world.is_cancelled n after_provider_error
          then failed state context_cancelled
          else fallback_round state (apply_fallback state)
      | some action ↦
          if world.is_cancelled n after_provider
          then failed state context_cancelled
          else elim (apply_action state action) [
            | ok next ↦
                played next (record { before = state; action = action; is_fallback = false })
            | err e ↦
                if world.is_cancelled n after_illegal_action
                then failed state context_cancelled
                else fallback_round state (apply_fallback state)
          ]
    ]

-- `RunHandResult` with the error beside it; no final state is the zero `HandState`.
pub record RunHandResult : Type 0 where
  pub final_state : Option HandState
  pub action_count : ℕ
  pub fallback_count : ℕ
  pub error : Option Error
  pub events : List ActionEvent

abbrev pub prepend_event : ActionEvent → Option RunHandResult → Option RunHandResult
prepend_event e none = none
prepend_event e (some r) = some (record r { events = e ∷ r.events })

abbrev pub stop : HandState → ℕ → ℕ → Option Error → Option RunHandResult
stop state actions fallbacks error = some (record {
  final_state = some state;
  action_count = actions;
  fallback_count = fallbacks;
  error = error;
  events = [];
})

abbrev pub bump_fallbacks : Bool → ℕ → ℕ
bump_fallbacks true n = suc n
bump_fallbacks false n = n

-- The loop on fuel; nothing if the fuel runs out.
unfoldable pub run_rounds : World → ℕ → ℕ → HandState → ℕ → ℕ → Option RunHandResult
unfolding play_round
run_rounds world zero max_actions state actions fallbacks = none
run_rounds world (suc fuel) max_actions state actions fallbacks =
    elim (play_round world actions state) [
      | finished final ↦ stop final actions fallbacks none
      | failed last e ↦ stop last actions fallbacks (some e)
      | played next event ↦ prepend_event event (elim (ltb max_actions (suc actions)) [
        | true ↦
            stop next (suc actions) (bump_fallbacks event.is_fallback fallbacks)
              (some (action_limit_exceeded (suc actions) max_actions))
        | false ↦
            run_rounds world fuel max_actions next (suc actions)
              (bump_fallbacks event.is_fallback fallbacks)
      ])
    ]

-- `RunnerConfig.MaxActionsPerHand`, where 0 stands for every number that is not positive.
abbrev pub max_actions_of : ℕ → ℕ
max_actions_of zero = default_max_actions_per_hand
max_actions_of (suc n) = suc n

pub record Runner : Type 0 where
  pub provider : Option World
  pub max_actions_per_hand : ℕ

abbrev pub run_failed : Error → RunHandResult
run_failed e = record {
  final_state = none;
  action_count = 0;
  fallback_count = 0;
  error = some e;
  events = [];
}

-- `RunHand`, the loop with `max_actions + 1` rounds of fuel.
unfoldable pub run_hand : Runner → Chance → StartNewHandInput → Option RunHandResult
unfolding run_rounds
run_hand runner chance input = elim runner.provider [
  | none ↦ some (run_failed runner_misconfigured)
  | some world ↦ elim (start_new_hand chance input) [
    | err e ↦ some (run_failed e)
    | ok state ↦
        run_rounds world (suc (max_actions_of runner.max_actions_per_hand))
          (max_actions_of runner.max_actions_per_hand) state 0 0
  ]
]
