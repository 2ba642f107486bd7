-- ===== src/TableRunner/Hand/Rounds.antt =====
-- The loop of `RunHand`: it ends within the action limit, and its counters count its events.
use poker_arena.Common.{
  ℕ, zero, suc, ◌+◌, ◌≤◌, ◌<◌, ◌≡◌, refl, inl, inr, Option, none, some, [], ◌∷◌, length, count_if,
  arith, ltb, Bool-cases,
}
use poker_arena.Domain.{
  Error, Result, ok, err, HandState, action_limit_exceeded, runner_misconfigured,
}
use poker_arena.TableRunner.Hand.{
  World, Round, finished, failed, played, ActionEvent, RunHandResult, play_round, run_rounds, stop,
  bump_fallbacks, prepend_event, Runner, run_hand, run_failed, max_actions_of,
}
use poker_arena.StateMachine.Start.{Chance, StartNewHandInput, start_new_hand}

-- The counters of a result of the loop, which began with these counts.
pub record Counted (max_actions actions fallbacks : ℕ) (r : RunHandResult) : Type 0 where
  pub bounded : r.action_count ≤ suc max_actions
  pub actions_counted : r.action_count ≡ actions + length r.events
  pub fallbacks_counted : r.fallback_count ≡ fallbacks + count_if (λ e. e.is_fallback) r.events

abbrev Ends : ℕ → ℕ → ℕ → Option RunHandResult → Type 0
Ends max_actions actions fallbacks o =
    (r : RunHandResult) × (o ≡ some r) × Counted max_actions actions fallbacks r

stop-Ends :
    (max_actions actions fallbacks : ℕ) (state : HandState) (e : Option Error)
    → actions ≤ suc max_actions
    → Ends max_actions actions fallbacks (stop state actions fallbacks e)
stop-Ends max_actions actions fallbacks state e h = (
  record {
    final_state = some state;
    action_count = actions;
    fallback_count = fallbacks;
    error = e;
    events = [];
  },
  refl,
  record { bounded = h; actions_counted = omega arith; fallbacks_counted = omega arith },
)

prepend-Ends :
    (max_actions actions fallbacks : ℕ) (event : ActionEvent) {o : Option RunHandResult}
    → Ends max_actions (suc actions) (bump_fallbacks event.is_fallback fallbacks) o
    → Ends max_actions actions fallbacks (prepend_event event o)
prepend-Ends max_actions actions fallbacks event (r, e, c) =
    (record r { events = event ∷ r.events }, rw e refl, ground arith)

-- With fuel for the actions left the loop ends, and its counters are right.
run_rounds-Ends :
    (world : World) (fuel max_actions : ℕ) (state : HandState) (actions fallbacks : ℕ)
    → actions ≤ max_actions
    → max_actions < actions + fuel
    → Ends max_actions actions fallbacks (run_rounds world fuel max_actions state actions fallbacks)
unfolding run_rounds
run_rounds-Ends world zero max_actions state actions fallbacks h k = absurd (omega arith)
run_rounds-Ends world (suc fuel) max_actions state actions fallbacks h k =
    go
      (λ next fb below.
        run_rounds-Ends world fuel max_actions next (suc actions) fb below (omega arith))
      (play_round world actions state) refl
  where
    go :
        ((next : HandState) (fb : ℕ)
          → suc actions ≤ max_actions
          → Ends max_actions
              (suc actions)
              fb
              (run_rounds world fuel max_actions next (suc actions) fb))
        → (o : Round) → play_round world actions state ≡ o
        → Ends max_actions actions fallbacks
            (run_rounds world (suc fuel) max_actions state actions fallbacks)
    go ih (finished final) e =
        rw (e, run_rounds) (stop-Ends max_actions actions fallbacks final none (omega arith))
    go ih (failed last problem) e =
        rw (e, run_rounds)
          (stop-Ends max_actions actions fallbacks last (some problem) (omega arith))
    go ih (played next event) e = elim (Bool-cases (ltb max_actions (suc actions))) [
      | inl over ↦
          rw (e, run_rounds)
            (rw over (
              prepend-Ends max_actions actions fallbacks event (
                stop-Ends max_actions (suc actions) (bump_fallbacks event.is_fallback fallbacks)
                  next (some (action_limit_exceeded (suc actions) max_actions)) (omega arith))))
      | inr within ↦
          rw (e, run_rounds)
            (rw within (
              prepend-Ends max_actions actions fallbacks event
                (ih next (bump_fallbacks event.is_fallback fallbacks) (ground arith))))
    ]

-- A hand always ends, with the fuel of `run_hand`: it applies at most one action more than the
-- limit, its action count is the number of its action events, and its fallback count the number of
-- those that are fallbacks.
pub run_hand_total :
    (runner : Runner) (chance : Chance) (input : StartNewHandInput)
    → (r : RunHandResult) × (run_hand runner chance input ≡ some r)
      × Counted (max_actions_of runner.max_actions_per_hand) 0 0 r
unfolding run_hand
run_hand_total runner chance input = started runner.provider (start_new_hand chance input)
  where
    unstarted :
        (e : Error) → Ends (max_actions_of runner.max_actions_per_hand) 0 0 (some (run_failed e))
    unstarted e = (
      run_failed e,
      refl,
      record {
        bounded = omega arith;
        actions_counted = omega arith;
        fallbacks_counted = omega arith;
      },
    )

    started :
        (p : Option World) (o : Result HandState)
        → Ends (max_actions_of runner.max_actions_per_hand) 0 0 (elim p [
          | none ↦ some (run_failed runner_misconfigured)
          | some world ↦ elim o [
            | err e ↦ some (run_failed e)
            | ok state ↦
                run_rounds world
                  (suc (max_actions_of runner.max_actions_per_hand))
                  (max_actions_of runner.max_actions_per_hand)
                  state
                  0
                  0
          ]
        ])
    started none o = unstarted runner_misconfigured
    started (some world) (err e) = unstarted e
    started (some world) (ok state) =
        run_rounds-Ends world (suc (max_actions_of runner.max_actions_per_hand))
          (max_actions_of runner.max_actions_per_hand) state 0 0 (omega arith) (omega arith)
