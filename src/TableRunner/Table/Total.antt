-- ===== src/TableRunner/Table/Total.antt =====
-- `RunTable` ends, and counts the hands that it lists.
use poker_arena.Common.{
  ℕ, zero, suc, ◌+◌, ◌%◌, ◌⊎◌, ◌≤◌, ◌≡◌, subst, refl, inl, inr, Option, none, some, List, [], ◌∷◌,
  ◌++◌, length, length-append, arith, Bool-cases, Option-cases, sum_by, ◌==◌,
}
use poker_arena.Domain.{
  Error, SeatState, HandState, invalid_hands_to_run, runner_misconfigured, context_cancelled,
}
use poker_arena.Domain.Results.{Result-cases}
use native.Mathlib.Nat.{zero-add, add-suc, suc-add}
use poker_arena.TableRunner.Seating.{prepare_seats_for_next_hand, next_button_seat}
use poker_arena.TableRunner.Hand.Rounds.{run_hand_total}
use poker_arena.TableRunner.Table.{
  TableWorld, TableRunner, RunTableInput, RunTableResult, HandSummary, Played, unplayed, played,
  outcome, no_result, stop_at, add_hand, hand_button, hand_input, hand_runner, run_hands, run_table,
  u64_size,
}

-- The totals of a result are those of its summaries.
pub record Tallied (limit : ℕ) (r : RunTableResult) : Type 0 where
  pub within : r.hands_completed ≤ limit
  pub hands_counted : r.hands_completed ≡ length r.hand_summaries
  pub actions_counted : r.total_actions ≡ sum_by (λ h. h.action_count) r.hand_summaries
  pub fallbacks_counted : r.total_fallbacks ≡ sum_by (λ h. h.fallback_count) r.hand_summaries

sum_by-append :
    {A : Type 0} (w : A → ℕ) (xs ys : List A) → sum_by w (xs ++ ys) ≡ sum_by w xs + sum_by w ys
sum_by-append w [] ys = omega arith
sum_by-append w (x ∷ xs) ys = omega (arith, sum_by-append w xs ys)

add_hand-Tallied :
    (limit hand_no actions fallbacks : ℕ) (r : RunTableResult) (final : HandState)
    → Tallied limit r
    → Tallied (suc limit) (add_hand r hand_no actions fallbacks final)
add_hand-Tallied limit hand_no actions fallbacks r final t =
    let summary : HandSummary = record {
      hand_no = hand_no;
      final_phase = final.phase;
      action_count = actions;
      fallback_count = fallbacks;
      final_state = final;
    } in
    record {
      within = omega (arith, t.within);
      hands_counted = omega (arith, t.hands_counted, length-append r.hand_summaries (summary ∷ []));
      actions_counted = omega (
        arith,
        t.actions_counted,
        sum_by-append (λ h. h.action_count) r.hand_summaries (summary ∷ []),
      );
      fallbacks_counted = omega (
        arith,
        t.fallbacks_counted,
        sum_by-append (λ h. h.fallback_count) r.hand_summaries (summary ∷ []),
      );
    }

abbrev Runs : ℕ → Option (RunTableResult × Option Error) → Type 0
Runs limit o = (out : RunTableResult × Option Error) × (o ≡ some out) × Tallied limit out.0

stop_at-Runs :
    (n limit button : ℕ) (r : RunTableResult) (seats : List SeatState) (e : Option Error)
    → n ≤ limit
    → Tallied n r
    → Runs limit (some (stop_at r button seats e))
stop_at-Runs n limit button r seats e h t = (
  stop_at r button seats e,
  refl,
  record {
    within = omega (arith, t.within);
    hands_counted = t.hands_counted;
    actions_counted = t.actions_counted;
    fallbacks_counted = t.fallbacks_counted;
  },
)

Played-cases :
    (p : Played)
    → ((e : Error) × (p ≡ unplayed e))
      ⊎ ((final : HandState) × (a : ℕ) × (f : ℕ) × (p ≡ played final a f))
Played-cases (unplayed e) = inl (e, refl)
Played-cases (played final a f) = inr (final, a, f, refl)

run_hands-Runs :
    (world : TableWorld) (max_actions : ℕ) (input : RunTableInput) (left i n button : ℕ)
    (seats : List SeatState) (r : RunTableResult)
    → Tallied n r
    → Runs (n + left) (run_hands world max_actions input left i button seats r)
unfolding run_hands
run_hands-Runs world max_actions input zero i n button seats r t =
    stop_at-Runs n (n + 0) button r seats none (omega arith) t
run_hands-Runs world max_actions input (suc left) i n button seats r t =
    elim (Result-cases (hand_button (world.is_cancelled i) input.config button seats)) [
      | inr (e, refused) ↦
          rw (refused, run_hands)
            (stop_at-Runs n (n + suc left) button r seats (some e) (omega arith) t)
      | inl (current, allowed) ↦
          let (hand, ran, counted) =
            run_hand_total (hand_runner world max_actions i) (world.chance i)
              (hand_input input i current seats) in
          elim (Played-cases
            (outcome hand.error hand.final_state hand.action_count hand.fallback_count)) [
              | inl (e, stopped) ↦
                  rw (allowed, run_hands)
                    (rw ran (
                      rw stopped
                        (stop_at-Runs n (n + suc left) current r seats (some e) (omega arith) t)))
              | inr (final, a, f, over) ↦
                  let hand_no = (input.starting_hand + i) % u64_size in
                  let t' = add_hand-Tallied n hand_no a f r final t in
                  let next_seats = prepare_seats_for_next_hand final.seats in
                  elim (Result-cases (next_button_seat current next_seats)) [
                    | inr (e, no_button) ↦
                        rw (allowed, run_hands)
                          (rw ran (
                            rw over (
                              rw no_button (
                                stop_at-Runs (suc n) (n + suc left) current
                                  (add_hand r hand_no a f final) next_seats (some e) (omega arith)
                                  t'))))
                    | inl (next, moved) ↦
                        rw (allowed, run_hands)
                          (rw ran (
                            rw over (
                              rw moved (
                                rw (add-suc n left, ← suc-add n left)
                                  (run_hands-Runs world max_actions input left (suc i) (suc n) next
                                    next_seats (add_hand r hand_no a f final) t')))))
                  ]
            ]
    ]

no_result-Tallied : (limit : ℕ) → Tallied limit no_result
no_result-Tallied limit = record {
  within = omega arith;
  hands_counted = refl;
  actions_counted = refl;
  fallbacks_counted = refl;
}

refused-Runs : (limit : ℕ) (e : Error) → Runs limit (some (no_result, some e))
refused-Runs limit e = ((no_result, some e), refl, no_result-Tallied limit)

-- A run of a table always ends. It completes at most the hands that were asked for, lists a
-- summary for each completed hand, and its totals are the sums over the summaries.
pub run_table_total :
    (runner : TableRunner) (input : RunTableInput)
    → (out : RunTableResult × Option Error) × (run_table runner input ≡ some out)
      × Tallied input.hands_to_run out.0
unfolding run_table
run_table_total runner input = elim (Bool-cases (input.hands_to_run == 0)) [
  | inl invalid ↦ rw invalid (refused-Runs input.hands_to_run invalid_hands_to_run)
  | inr valid ↦ elim (Option-cases runner.provider) [
    | inl missing ↦
        rw valid (rw (missing, run_table) (refused-Runs input.hands_to_run runner_misconfigured))
    | inr (world, given) ↦ elim (Bool-cases world.is_cancelled_at_start) [
      | inl cancelled ↦
          rw valid (
            rw (given, run_table)
              (rw cancelled (refused-Runs input.hands_to_run context_cancelled)))
      | inr live ↦
          let runs =
            subst
              (λ k. Runs k (
                run_hands world runner.max_actions_per_hand input input.hands_to_run 0
                  input.button_seat (prepare_seats_for_next_hand input.seats) no_result))
              (zero-add input.hands_to_run)
              (run_hands-Runs world runner.max_actions_per_hand input input.hands_to_run 0 0
                input.button_seat (prepare_seats_for_next_hand input.seats) no_result
                (no_result-Tallied 0)) in
          rw valid (rw (given, run_table) (simp live runs))
    ]
  ]
]
