-- ===== src/TableRunner/Hand/Same.antt =====
-- The hand that `RunHand` reports on is the one that it started.
use Prim.Native.String.{String}
use mathlib.Core.Option.{some-injective}
use poker_arena.Common.{
  ℕ, zero, suc, ◌≡◌, ◌∙◌, ap, refl, sym, subst, inl, inr, ◌⊎◌, Bool, not, true, false, Option, none,
  some, Option-cases, All, if◌then◌else◌, arith, Bool-cases, List, [], ltb, ◌==◌, length,
}
use poker_arena.Domain.{
  Error, Result, ok, err, HandState, HandPhase, SeatState, PotAward, Action, context_cancelled,
  complete, showdown, betting, dealing, action_limit_exceeded,
}
use poker_arena.Domain.Results.{Result-cases}
use poker_arena.Rules.Payout.{resolve_pots, finish_pots, levels_loop, contribution_levels}
use poker_arena.StateMachine.Action.{apply_action}
use poker_arena.StateMachine.Action.Same.{apply_action-hand_id}
use poker_arena.StateMachine.Start.{Chance, StartNewHandInput, start_new_hand}
use poker_arena.TableRunner.Hand.{
  World, Round, finished, failed, played, ActionEvent, RunHandResult, play_round, finish_hand,
  finish_showdown, run_rounds, stop, bump_fallbacks, prepend_event, Runner, run_hand,
  max_actions_of, fallback_round, apply_fallback, fallback_action_check, fallback_action_fold,
  after_provider, after_illegal_action,
}

-- The round once the provider has answered.
abbrev answered_round : World → ℕ → HandState → Action → Round
answered_round world n state action =
    if world.is_cancelled n after_provider
    then failed state context_cancelled
    else elim (apply_action state action) [
      | ok next ↦ played next (record { before = state; action = action; is_fallback = false })
      | err e ↦
          if world.is_cancelled n after_illegal_action
          then failed state context_cancelled
          else fallback_round state (apply_fallback state)
    ]

-- The actions that are reported, and the final state, are of this hand.
pub record OneHand (id : String) (r : RunHandResult) : Type 0 where
  pub events_of : All (λ e. e.before.hand_id ≡ id) r.events
  pub final_of : (final : HandState) → r.final_state ≡ some final → final.hand_id ≡ id

abbrev FinishedAs : String → Round → Type 0
FinishedAs id (finished final) = final.hand_id ≡ id
FinishedAs id (failed last e) = last.hand_id ≡ id
FinishedAs id (played next event) = (event.before.hand_id ≡ id) × (next.hand_id ≡ id)

finish_pots-FinishedAs :
    (s : HandState) (out : List SeatState × Result (List PotAward))
    → FinishedAs s.hand_id (finish_showdown (finish_pots s out))
finish_pots-FinishedAs s (seats, err e) = refl
finish_pots-FinishedAs s (seats, ok awards) = refl

resolve_pots-FinishedAs : (s : HandState) → FinishedAs s.hand_id (finish_showdown (resolve_pots s))
unfolding resolve_pots
resolve_pots-FinishedAs s = elim (Bool-cases (not (length s.board == 5))) [
  | inl short ↦ rw short refl
  | inr whole ↦
      rw whole
        (finish_pots-FinishedAs s (levels_loop s 0 0 (contribution_levels s.seats) s.seats []))
]

finish_hand-FinishedAs : (s : HandState) (p : HandPhase) → FinishedAs s.hand_id (finish_hand s p)
finish_hand-FinishedAs s complete = refl
finish_hand-FinishedAs s showdown = resolve_pots-FinishedAs s
finish_hand-FinishedAs s dealing = refl
finish_hand-FinishedAs s betting = refl

applied-FinishedAs :
    (s t : HandState) (a : Action) (fallback : Bool)
    → apply_action s a ≡ ok t
    → FinishedAs s.hand_id (played t (record { before = s; action = a; is_fallback = fallback }))
applied-FinishedAs s t a fallback e = (refl, apply_action-hand_id s a e)

fallback-FinishedAs : (s : HandState) → FinishedAs s.hand_id (fallback_round s (apply_fallback s))
unfolding apply_fallback
fallback-FinishedAs s = elim (Result-cases (apply_action s fallback_action_check)) [
  | inl (t, checked) ↦
      rw (checked, apply_fallback) (applied-FinishedAs s t fallback_action_check true checked)
  | inr (e, refused) ↦ elim (Result-cases (apply_action s fallback_action_fold)) [
    | inl (t, folded) ↦
        rw (refused, apply_fallback)
          (rw (folded, apply_fallback) (applied-FinishedAs s t fallback_action_fold true folded))
    | inr (e', stuck) ↦ rw (refused, apply_fallback) (rw (stuck, apply_fallback) refl)
  ]
]

answer-FinishedAs :
    (world : World) (n : ℕ) (s : HandState) (action : Action)
    → FinishedAs s.hand_id (answered_round world n s action)
answer-FinishedAs world n s action = elim (Result-cases (apply_action s action)) [
  | inl (t, accepted) ↦
      let done = applied-FinishedAs s t action false accepted in rw accepted (ground (arith, done))
  | inr (e, refused) ↦ rw refused (ground (arith, fallback-FinishedAs s))
]

play_round-FinishedAs :
    (world : World) (n : ℕ) (s : HandState) → FinishedAs s.hand_id (play_round world n s)
unfolding play_round
play_round-FinishedAs world n s = elim (Option-cases (world.next_action n s)) [
  | inl silent ↦
      rw (silent, play_round)
        (ground (arith, finish_hand-FinishedAs s s.phase, fallback-FinishedAs s))
  | inr (action, answered) ↦
      rw (answered, play_round)
        (ground (arith, finish_hand-FinishedAs s s.phase, answer-FinishedAs world n s action))
]

abbrev Keeps : String → Option RunHandResult → Type 0
Keeps id o = (r : RunHandResult) → o ≡ some r → OneHand id r

stop-Keeps :
    (id : String) (state : HandState) (actions fallbacks : ℕ) (e : Option Error)
    → state.hand_id ≡ id
    → Keeps id (stop state actions fallbacks e)
stop-Keeps id state actions fallbacks e same r h =
    subst (OneHand id) (some-injective _ _ h) (record {
      events_of = tt;
      final_of = λ final is. ap (λ s. s.hand_id) (sym (some-injective _ _ is)) ∙ same;
    })

prepend_event-Keeps :
    (id : String) (event : ActionEvent) (o : Option RunHandResult)
    → event.before.hand_id ≡ id
    → Keeps id o
    → Keeps id (prepend_event event o)
prepend_event-Keeps id event none same rest r h = absurd (cc h)
prepend_event-Keeps id event (some q) same rest r h =
    let w = rest q refl in
    subst (OneHand id) (some-injective _ _ h)
      (record { events_of = (same, w.events_of); final_of = w.final_of })

Round-cases :
    (o : Round)
    → ((final : HandState) × (o ≡ finished final))
      ⊎ (((last : HandState) × (e : Error) × (o ≡ failed last e))
          ⊎ ((next : HandState) × (event : ActionEvent) × (o ≡ played next event)))
Round-cases (finished final) = inl (final, refl)
Round-cases (failed last e) = inr (inl (last, e, refl))
Round-cases (played next event) = inr (inr (next, event, refl))

run_rounds-Keeps :
    (world : World) (fuel max_actions : ℕ) (s : HandState) (actions fallbacks : ℕ) (id : String)
    → s.hand_id ≡ id
    → Keeps id (run_rounds world fuel max_actions s actions fallbacks)
unfolding run_rounds
run_rounds-Keeps world zero max_actions s actions fallbacks id same = λ r e. absurd (cc e)
run_rounds-Keeps world (suc fuel) max_actions s actions fallbacks id same =
    let as_one = play_round-FinishedAs world actions s in
    elim (Round-cases (play_round world actions s)) [
      | inl (final, e) ↦
          let here : FinishedAs s.hand_id (finished final) =
            subst (FinishedAs s.hand_id) e as_one in
          rw (e, run_rounds) (stop-Keeps id final actions fallbacks none (here ∙ same))
      | inr (inl (last, problem, e)) ↦
          let here : FinishedAs s.hand_id (failed last problem) =
            subst (FinishedAs s.hand_id) e as_one in
          rw (e, run_rounds) (stop-Keeps id last actions fallbacks (some problem) (here ∙ same))
      | inr (inr (next, event, e)) ↦
          let here : FinishedAs s.hand_id (played next event) =
            subst (FinishedAs s.hand_id) e as_one in
          let count = bump_fallbacks event.is_fallback fallbacks in
          let over = some (action_limit_exceeded (suc actions) max_actions) in
          elim (Bool-cases (ltb max_actions (suc actions))) [
            | inl beyond ↦
                rw (e, run_rounds)
                  (rw beyond (
                    prepend_event-Keeps id event (stop next (suc actions) count over)
                      (here.0 ∙ same)
                      (stop-Keeps id next (suc actions) count over (here.1 ∙ same))))
            | inr within ↦
                rw (e, run_rounds)
                  (rw within (
                    prepend_event-Keeps id event
                      (run_rounds world fuel max_actions next (suc actions) count) (here.0 ∙ same)
                      (run_rounds-Keeps world fuel max_actions next (suc actions) count id
                        (here.1 ∙ same))))
          ]
    ]

-- What `RunHand` reports is of the hand that `StartNewHand` made.
pub run_hand-OneHand :
    (runner : Runner) (chance : Chance) (input : StartNewHandInput) {s : HandState}
    {r : RunHandResult}
    → start_new_hand chance input ≡ ok s
    → run_hand runner chance input ≡ some r
    → OneHand s.hand_id r
unfolding run_hand
run_hand-OneHand runner chance input {s} {r} started ran = elim (Option-cases runner.provider) [
  | inl missing ↦
      subst (OneHand s.hand_id) (some-injective _ _ (rw (missing, run_hand) at ran))
        (record { events_of = tt; final_of = λ final is. absurd (cc is) })
  | inr (world, given) ↦
      let max = max_actions_of runner.max_actions_per_hand in
      run_rounds-Keeps world (suc max) max s 0 0 s.hand_id refl r
        (rw (started, run_hand) at (rw (given, run_hand) at ran))
]
