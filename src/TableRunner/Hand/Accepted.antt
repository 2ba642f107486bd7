-- ===== src/TableRunner/Hand/Accepted.antt =====
-- The actions that `RunHand` reports, and the state that it ends in.
use poker_arena.Common.{
  ℕ, zero, suc, ◌<◌, ◌≡◌, ◌∙◌, ap, refl, sym, subst, inl, inr, Option, none, some, Option-cases,
  All, u32_size, arith, ltb, Bool-cases,
}
use poker_arena.Domain.{Error, ok, HandState, complete}
use poker_arena.Domain.Results.{Result-cases}
use poker_arena.Rules.Payout.Chips.{chips, stacks}
use poker_arena.StateMachine.Action.{apply_action}
use poker_arena.StateMachine.Action.Valid.{IsValid}
use poker_arena.StateMachine.Action.Apply.{apply_action-IsValid, apply_action-chips}
use poker_arena.StateMachine.Start.{Chance, StartNewHandInput, start_new_hand}
use poker_arena.StateMachine.Start.Started.{KeepsLength, start_new_hand-IsValid}
use poker_arena.Domain.{action_limit_exceeded, runner_misconfigured}
use poker_arena.TableRunner.Hand.{
  World, Round, finished, failed, played, ActionEvent, RunHandResult, play_round, run_rounds, stop,
  bump_fallbacks, prepend_event, Runner, run_hand, run_failed, max_actions_of,
}
use mathlib.Core.Option.{some-injective}
use poker_arena.TableRunner.Hand.Events.{Applied, play_round-Applied}
use poker_arena.TableRunner.Hand.Rounds.{run_hand_total}

-- A reported action was accepted in a valid hand with these chips in play.
pub record Accepted (total : ℕ) (e : ActionEvent) : Type 0 where
  pub valid : IsValid e.before
  pub together : chips e.before ≡ total
  pub accepted : (t : HandState) × (apply_action e.before e.action ≡ ok t)

-- Every reported action was accepted, and without an error the hand is complete.
pub record WellPlayed (total : ℕ) (r : RunHandResult) : Type 0 where
  pub actions_accepted : All (Accepted total) r.events
  pub completed :
      r.error ≡ none → (final : HandState) × (r.final_state ≡ some final) × (final.phase ≡ complete)

abbrev Plays : ℕ → Option RunHandResult → Type 0
Plays total o = (r : RunHandResult) → o ≡ some r → WellPlayed total r

stop-Plays :
    (total actions fallbacks : ℕ) (state : HandState) (e : Option Error)
    → (e ≡ none → state.phase ≡ complete)
    → Plays total (stop state actions fallbacks e)
stop-Plays total actions fallbacks state e over r h =
    subst (WellPlayed total) (some-injective _ _ h)
      (record { actions_accepted = tt; completed = λ fine. (state, refl, over fine) })

prepend_event-Plays :
    (total : ℕ) (event : ActionEvent) (o : Option RunHandResult)
    → Accepted total event
    → Plays total o
    → Plays total (prepend_event event o)
prepend_event-Plays total event none a rest r h = absurd (cc h)
prepend_event-Plays total event (some q) a rest r h =
    let w = rest q refl in
    subst (WellPlayed total) (some-injective _ _ h)
      (record { actions_accepted = (a, w.actions_accepted); completed = w.completed })

run_rounds-Plays :
    (world : World) (fuel max_actions total : ℕ) (s : HandState) (actions fallbacks : ℕ)
    → IsValid s
    → chips s ≡ total
    → total < u32_size
    → Plays total (run_rounds world fuel max_actions s actions fallbacks)
unfolding run_rounds
run_rounds-Plays world zero max_actions total s actions fallbacks v h small = λ r e. absurd (cc e)
run_rounds-Plays world (suc fuel) max_actions total s actions fallbacks v h small =
    go
      (λ next fb v' h'.
        run_rounds-Plays world fuel max_actions total next (suc actions) fb v' h' small)
      (play_round world actions s) refl (play_round-Applied world actions s)
  where
    go :
        ((next : HandState) (fb : ℕ)
          → IsValid next
          → chips next ≡ total
          → Plays total (run_rounds world fuel max_actions next (suc actions) fb))
        → (o : Round) → play_round world actions s ≡ o
        → Applied s o
        → Plays total (run_rounds world (suc fuel) max_actions s actions fallbacks)
    go ih (finished final) e over =
        rw (e, run_rounds) (stop-Plays total actions fallbacks final none (λ fine. over))
    go ih (failed last problem) e over =
        rw (e, run_rounds)
          (stop-Plays total actions fallbacks last (some problem) (λ fine. absurd (cc fine)))
    go ih (played next event) e (before, applied) =
        let v' = apply_action-IsValid s event.action v applied in
        let h' = apply_action-chips s event.action v (omega (arith, h)) applied ∙ h in
        let a : Accepted total event = record {
          valid = subst IsValid (sym before) v;
          together = ap chips before ∙ h;
          accepted = (next, rw before applied);
        } in
        elim (Bool-cases (ltb max_actions (suc actions))) [
          | inl over ↦
              rw (e, run_rounds)
                (rw over (
                  prepend_event-Plays total event
                    (stop next (suc actions) (bump_fallbacks event.is_fallback fallbacks)
                      (some (action_limit_exceeded (suc actions) max_actions)))
                    a
                    (stop-Plays total (suc actions) (bump_fallbacks event.is_fallback fallbacks)
                      next (some (action_limit_exceeded (suc actions) max_actions))
                      (λ fine. absurd (cc fine)))))
          | inr within ↦
              rw (e, run_rounds)
                (rw within (
                  prepend_event-Plays total event
                    (run_rounds world fuel max_actions next (suc actions)
                      (bump_fallbacks event.is_fallback fallbacks))
                    a (ih next (bump_fallbacks event.is_fallback fallbacks) v' h')))
        ]

unstarted-Plays : (total : ℕ) (e : Error) → Plays total (some (run_failed e))
unstarted-Plays total e r h =
    subst (WellPlayed total) (some-injective _ _ h)
      (record { actions_accepted = tt; completed = λ fine. absurd (cc fine) })

started-Plays :
    (runner : Runner) (chance : Chance) (input : StartNewHandInput)
    → KeepsLength chance.shuffle
    → stacks input.seats < u32_size
    → Plays (stacks input.seats) (run_hand runner chance input)
unfolding run_hand
started-Plays runner chance input keep small = elim (Option-cases runner.provider) [
  | inl missing ↦ rw (missing, run_hand) (unstarted-Plays (stacks input.seats) runner_misconfigured)
  | inr (world, given) ↦ elim (Result-cases (start_new_hand chance input)) [
    | inr (e, refused) ↦
        rw (given, run_hand) (rw (refused, run_hand) (unstarted-Plays (stacks input.seats) e))
    | inl (s, started) ↦
        let (v, h) = start_new_hand-IsValid chance input keep small started in
        rw (given, run_hand)
          (rw (started, run_hand)
            (run_rounds-Plays world (suc (max_actions_of runner.max_actions_per_hand))
              (max_actions_of runner.max_actions_per_hand) (stacks input.seats) s 0 0 v h small))
  ]
]

-- Whatever the provider answers, a hand ends with a result in which every reported action, a
-- fallback or not, was accepted by `ApplyAction` in a valid hand, with the chips of the seats that
-- were given on the stacks and in the pot; and without an error the hand is complete. The stacks
-- fit in 32 bits, and the shuffler returns as many cards as it gets.
pub run_hand_accepted :
    (runner : Runner) (chance : Chance) (input : StartNewHandInput)
    → KeepsLength chance.shuffle
    → stacks input.seats < u32_size
    → (r : RunHandResult) × (run_hand runner chance input ≡ some r)
      × WellPlayed (stacks input.seats) r
run_hand_accepted runner chance input keep small =
    let (r, ran, counted) = run_hand_total runner chance input in
    (r, ran, started-Plays runner chance input keep small r ran)
