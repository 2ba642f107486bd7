-- ===== src/Api/Run/Played.antt =====
-- The hands that `RunHand` plays, as the server's callbacks record them.
use poker_arena.Common.{◌≡◌, sym, subst, none, some, List, [], ◌∷◌, map, All, find, string_key}
use poker_arena.Domain.{ok, HandState}
use poker_arena.StateMachine.Start.{Chance, StartNewHandInput, start_new_hand}
use poker_arena.TableRunner.Hand.{ActionEvent, Runner, RunHandResult, run_hand}
use poker_arena.TableRunner.Hand.Same.{run_hand-OneHand}
use poker_arena.TableRunner.Table.{HandSummary}
use poker_arena.Persistence.Records.{Time}
use poker_arena.Persistence.Repository.{list_actions, get_hand, get_table_run}
use poker_arena.Api.Run.Callbacks.{Recording, action_record, final_record}
use poker_arena.Api.Run.Recorded.{on_hand, after_hand, on_hand-recorded}

-- The summary that `RunTable` reports of a hand.
abbrev pub summary_of : StartNewHandInput → RunHandResult → HandState → HandSummary
summary_of input r final = record {
  hand_no = input.hand_no;
  final_phase = final.phase;
  action_count = r.action_count;
  fallback_count = r.fallback_count;
  final_state = final;
}

All-from_map {ℓ κ μ} :
    {A : Type ℓ} {B : Type κ} (P : B → Type μ) (f : A → B) (xs : List A)
    → All P (map f xs)
    → All (λ a. P (f a)) xs
All-from_map P f [] h = tt
All-from_map P f (x ∷ xs) h = (h.0, All-from_map P f xs h.1)

-- Where `RunHand` plays a hand to a final state, and the repository has neither a hand nor actions under
-- the new hand's id, the callbacks leave it with exactly the actions that `RunHand` reported, in
-- their order, as the log of the hand, with the final state as its record, and with the status of the
-- run, which counts the hand and its actions and is also the stored one.
pub run_hand-recorded :
    (runner : Runner) (chance : Chance) (input : StartNewHandInput) (s : HandState)
    (r : RunHandResult) (final : HandState) (x : Recording) (began : Time)
    (events : List (ActionEvent × Time)) (ended : Time)
    → start_new_hand chance input ≡ ok s
    → run_hand runner chance input ≡ some r
    → r.final_state ≡ some final
    → map (λ e. e.0) events ≡ r.events
    → find s.hand_id x.repo.hands ≡ none
    → find s.hand_id x.repo.actions ≡ none
    → let summary = summary_of input r final in
      let y = on_hand x (s, began) events (summary, ended) in
      let status = after_hand (record x.status { current_hand_no = s.hand_no }) summary in
      (list_actions y.repo s.hand_id ≡ map (λ e. action_record e.0 e.1) events)
      × (get_hand y.repo s.hand_id ≡ some (final_record summary began ended))
      × (get_table_run y.repo x.status.table_id ≡ some status)
      × (y.status ≡ status)
run_hand-recorded runner chance input s r final x began events ended started ran over reported new
      unlogged =
    let one = run_hand-OneHand runner chance input started ran in
    on_hand-recorded x s began events (summary_of input r final) ended new unlogged
      (All-from_map {A = ActionEvent × Time} (λ e. e.before.hand_id ≡ s.hand_id) (λ e. e.0) events
        (subst (All (λ e. e.before.hand_id ≡ s.hand_id)) (sym reported) one.events_of))
      (one.final_of final over)
