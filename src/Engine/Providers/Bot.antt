-- ===== src/Engine/Providers/Bot.antt =====
-- A hand in which every seat is the bot of the engine command, `deterministicProvider`.
use poker_arena.Common.{
  ℕ, zero, suc, ◌<◌, ◌≡◌, ◌≢◌, refl, ap, subst, inl, inr, ◌⊎◌, Bool, false, Option, none, some,
  Bool-cases, List, [], ◌∷◌, All, count_if, u32_size, arith, ltb,
}
use mathlib.Core.Option.{some-injective}
use poker_arena.Domain.{
  Error, Result, ok, err, HandState, HandPhase, dealing, betting, showdown, complete, Action,
  action_limit_exceeded,
}
use poker_arena.Domain.Results.{Result-cases}
use poker_arena.Rules.Payout.Chips.{stacks}
use poker_arena.StateMachine.Action.Valid.{IsValid}
use poker_arena.StateMachine.Action.Apply.{apply_action-betting}
use poker_arena.StateMachine.Start.{Chance, StartNewHandInput, start_new_hand}
use poker_arena.StateMachine.Start.Started.{KeepsLength, start_new_hand-IsValid}
use poker_arena.TableRunner.Hand.{
  CheckPoint, before_provider, after_provider, World, Round, finished, failed, played, ActionEvent,
  RunHandResult, play_round, run_rounds, stop, bump_fallbacks, prepend_event, Runner, run_hand,
  max_actions_of, is_terminal,
}
use poker_arena.TableRunner.Hand.Events.{Applied, play_round-Applied}
use poker_arena.TableRunner.Hand.Rounds.{run_hand_total}
use poker_arena.Engine.Providers.{deterministic_action}
use poker_arena.Engine.Providers.Accepted.{deterministic_action_accepted}

abbrev pub answer : Result Action → Option Action
answer (ok action) = some action
answer (err e) = none

-- The bot at every seat; the context may be done at any point.
abbrev pub bot_world : (ℕ → CheckPoint → Bool) → World
bot_world is_cancelled = record {
  next_action = λ n state. answer (deterministic_action state);
  is_cancelled = is_cancelled;
}

-- A round in which an action of the bot was played, if any.
abbrev ByBot : Round → Type 0
ByBot (finished final) = Unit
ByBot (failed last e) = Unit
ByBot (played next event) = (event.is_fallback ≡ false) × IsValid next

not_betting-ByBot : (s : HandState) (o : Round) → s.phase ≢ betting → Applied s o → ByBot o
not_betting-ByBot s (finished final) off a = tt
not_betting-ByBot s (failed last e) off a = tt
not_betting-ByBot s (played next event) off (before, applied) =
    absurd (off (apply_action-betting s event.action applied))

betting-ByBot :
    (is_cancelled : ℕ → CheckPoint → Bool) (n : ℕ) (s : HandState)
    → IsValid s
    → s.phase ≡ betting
    → ByBot (play_round (bot_world is_cancelled) n s)
unfolding play_round
betting-ByBot is_cancelled n s v phase =
    let (i, x, turn) = v.turn_ready phase in
    let on = ap is_terminal phase in
    let (a, t, answered, accepted, valid) = deterministic_action_accepted s i x v phase turn in
    elim (Bool-cases (is_cancelled n before_provider)) [
      | inl stopped ↦ rw on (rw stopped tt)
      | inr live ↦ elim (Bool-cases (is_cancelled n after_provider)) [
        | inl late ↦ rw on (rw live (rw (answered, play_round) (rw late tt)))
        | inr going ↦ rw on (
            rw live
              (rw (answered, play_round) (rw going (rw (accepted, play_round) (refl, valid)))))
      ]
    ]

phase-cases : (p : HandPhase) → (p ≡ betting) ⊎ (p ≢ betting)
phase-cases dealing = inr (λ e. cc e)
phase-cases betting = inl refl
phase-cases showdown = inr (λ e. cc e)
phase-cases complete = inr (λ e. cc e)

play_round-ByBot :
    (is_cancelled : ℕ → CheckPoint → Bool) (n : ℕ) (s : HandState)
    → IsValid s
    → ByBot (play_round (bot_world is_cancelled) n s)
play_round-ByBot is_cancelled n s v = elim (phase-cases s.phase) [
  | inl phase ↦ betting-ByBot is_cancelled n s v phase
  | inr off ↦
      not_betting-ByBot s (play_round (bot_world is_cancelled) n s) off
        (play_round-Applied (bot_world is_cancelled) n s)
]

-- No event of the result is a fallback.
abbrev NoFallbacks : Option RunHandResult → Type 0
NoFallbacks o = (r : RunHandResult) → o ≡ some r → All (λ e. e.is_fallback ≡ false) r.events

stop-NoFallbacks :
    (s : HandState) (actions fallbacks : ℕ) (e : Option Error)
    → NoFallbacks (stop s actions fallbacks e)
stop-NoFallbacks s actions fallbacks e r h =
    subst (λ q. All (λ e. e.is_fallback ≡ false) q.events) (some-injective _ _ h) tt

prepend_event-NoFallbacks :
    (event : ActionEvent) (o : Option RunHandResult)
    → event.is_fallback ≡ false
    → NoFallbacks o
    → NoFallbacks (prepend_event event o)
prepend_event-NoFallbacks event none own rest r h = absurd (cc h)
prepend_event-NoFallbacks event (some q) own rest r h =
    subst (λ q. All (λ e. e.is_fallback ≡ false) q.events) (some-injective _ _ h) (own, rest q refl)

run_rounds-NoFallbacks :
    (is_cancelled : ℕ → CheckPoint → Bool) (fuel max_actions : ℕ) (s : HandState)
    (actions fallbacks : ℕ)
    → IsValid s
    → NoFallbacks (run_rounds (bot_world is_cancelled) fuel max_actions s actions fallbacks)
unfolding run_rounds
run_rounds-NoFallbacks is_cancelled zero max_actions s actions fallbacks v = λ r e. absurd (cc e)
run_rounds-NoFallbacks is_cancelled (suc fuel) max_actions s actions fallbacks v =
    go (λ next fb v'. run_rounds-NoFallbacks is_cancelled fuel max_actions next (suc actions) fb v')
      (play_round (bot_world is_cancelled) actions s) refl
      (play_round-ByBot is_cancelled actions s v)
  where
    go :
        ((next : HandState) (fb : ℕ)
          → IsValid next
          → NoFallbacks
              (run_rounds (bot_world is_cancelled) fuel max_actions next (suc actions) fb))
        → (o : Round) → play_round (bot_world is_cancelled) actions s ≡ o
        → ByBot o
        → NoFallbacks
            (run_rounds (bot_world is_cancelled) (suc fuel) max_actions s actions fallbacks)
    go ih (finished final) e b = rw (e, run_rounds) (stop-NoFallbacks final actions fallbacks none)
    go ih (failed last problem) e b =
        rw (e, run_rounds) (stop-NoFallbacks last actions fallbacks (some problem))
    go ih (played next event) e (own, v') = elim (Bool-cases (ltb max_actions (suc actions))) [
      | inl over ↦
          rw (e, run_rounds)
            (rw over (
              prepend_event-NoFallbacks event
                (stop next (suc actions) (bump_fallbacks event.is_fallback fallbacks)
                  (some (action_limit_exceeded (suc actions) max_actions)))
                own
                (stop-NoFallbacks next (suc actions) (bump_fallbacks event.is_fallback fallbacks)
                  (some (action_limit_exceeded (suc actions) max_actions)))))
      | inr within ↦
          rw (e, run_rounds)
            (rw within (
              prepend_event-NoFallbacks event
                (run_rounds (bot_world is_cancelled) fuel max_actions next (suc actions)
                  (bump_fallbacks event.is_fallback fallbacks))
                own (ih next (bump_fallbacks event.is_fallback fallbacks) v')))
    ]

bot_runner : (ℕ → CheckPoint → Bool) → ℕ → Runner
bot_runner is_cancelled max_actions = record {
  provider = some (bot_world is_cancelled);
  max_actions_per_hand = max_actions;
}

run_hand-NoFallbacks :
    (is_cancelled : ℕ → CheckPoint → Bool) (max_actions : ℕ) (chance : Chance)
    (input : StartNewHandInput)
    → KeepsLength chance.shuffle
    → stacks input.seats < u32_size
    → NoFallbacks (run_hand (bot_runner is_cancelled max_actions) chance input)
unfolding run_hand bot_runner
run_hand-NoFallbacks is_cancelled max_actions chance input keep small =
    elim (Result-cases (start_new_hand chance input)) [
      | inr (e, refused) ↦
          rw (refused, run_hand)
            (λ r h.
              subst (λ q. All (λ e. e.is_fallback ≡ false) q.events) (some-injective _ _ h) tt)
      | inl (s, started) ↦
          rw (started, run_hand)
            (run_rounds-NoFallbacks is_cancelled (suc (max_actions_of max_actions))
              (max_actions_of max_actions) s 0 0
              (start_new_hand-IsValid chance input keep small started).0)
    ]

count_if-none :
    (events : List ActionEvent)
    → All (λ e. e.is_fallback ≡ false) events
    → count_if (λ e. e.is_fallback) events ≡ 0
count_if-none [] h = refl
count_if-none (e ∷ events) h = rw (h.0) (count_if-none events h.1)

-- With the bot at every seat a hand ends without a single fallback, whenever the context is done.
-- The stacks fit in 32 bits, and the shuffler returns as many cards as it gets.
pub run_hand_by_bot :
    (is_cancelled : ℕ → CheckPoint → Bool) (max_actions : ℕ) (chance : Chance)
    (input : StartNewHandInput)
    → KeepsLength chance.shuffle
    → stacks input.seats < u32_size
    → (r : RunHandResult) × (run_hand
          (record { provider = some (bot_world is_cancelled); max_actions_per_hand = max_actions })
          chance
          input
        ≡ some r)
      × (r.fallback_count ≡ 0)
unfolding bot_runner
run_hand_by_bot is_cancelled max_actions chance input keep small =
    let (r, ran, counted) = run_hand_total (bot_runner is_cancelled max_actions) chance input in
    let none_fell = run_hand-NoFallbacks is_cancelled max_actions chance input keep small r ran in
    (r, ran, omega (arith, counted.fallbacks_counted, count_if-none r.events none_fell))
