-- ===== src/Api/Run/Recorded.antt =====
-- What the callbacks leave of a hand in the repository.
use Prim.Native.String.{String}
use mathlib.Core.List.{append-nil, append_assoc}
use poker_arena.Common.{
  suc, ◌+◌, ◌≡◌, refl, sym, ◌∙◌, ap, subst, true, Option, none, some, List, [], ◌∷◌, ◌++◌, map, All,
  find, put, find-put_self, remove, string_key,
}
use poker_arena.Domain.{HandState}
use poker_arena.TableRunner.Hand.{ActionEvent}
use poker_arena.TableRunner.Table.{HandSummary}
use poker_arena.Persistence.Records.{Time, HandRecord, ActionRecord, TableRunRecord}
use poker_arena.Persistence.Repository.{
  Repository, upsert_table_run, create_hand, complete_hand, append_action, list_actions, get_hand,
  get_table_run, has, or_empty,
}
use poker_arena.Api.Run.Callbacks.{
  Recording, store_status, on_hand_start, action_record, on_action, or_start, final_record,
  on_hand_complete,
}

-- The actions of a hand, each with its time, are recorded one by one.
unfoldable pub on_actions : Recording → List (ActionEvent × Time) → Recording
on_actions x [] = x
on_actions x ((event, now) ∷ events) = on_actions (on_action x event now) events

-- A hand from its start to its end.
abbrev pub on_hand :
    Recording → HandState × Time → List (ActionEvent × Time) → HandSummary × Time → Recording
on_hand x (initial, began) events (summary, ended) =
    on_hand_complete (on_actions (on_hand_start x initial began) events) summary ended

abbrev recorded : ActionEvent × Time → ActionRecord
recorded e = action_record e.0 e.1

-- The record of a hand that starts.
abbrev initial_record : HandState → Time → HandRecord
initial_record initial now = record {
  hand_id = initial.hand_id;
  table_id = initial.table_id;
  hand_no = initial.hand_no;
  started_at = now;
  ended_at = none;
  final_phase = initial.phase;
  final_state = initial;
  winner_summary = [];
}

abbrev numbered : TableRunRecord → HandState → TableRunRecord
numbered status initial = record status { current_hand_no = initial.hand_no }

create_hand-new :
    (r : Repository) (x : HandRecord)
    → find x.hand_id r.hands ≡ none
    → create_hand r x ≡ (record r { hands = put x.hand_id x r.hands }, none)
unfolding create_hand
create_hand-new r x new = rw (new, create_hand) refl

on_hand_start-new :
    (x : Recording) (initial : HandState) (now : Time)
    → find initial.hand_id x.repo.hands ≡ none
    → on_hand_start x initial now ≡ record {
      repo = record x.repo {
        hands = put initial.hand_id (initial_record initial now) x.repo.hands;
        table_runs = put x.status.table_id (numbered x.status initial) x.repo.table_runs;
      };
      status = numbered x.status initial;
      hand_started_at = put initial.hand_id now x.hand_started_at;
    }
unfolding on_hand_start store_status upsert_table_run
on_hand_start-new x initial now new =
    rw
      (
        create_hand-new x.repo (initial_record initial now) new,
        on_hand_start,
        create_hand-new x.repo (initial_record initial now) new,
      )
      refl

append_action-there :
    (r : Repository) (x : ActionRecord)
    → has (find x.hand_id r.hands) ≡ true
    → append_action r x ≡ (
      record r {
        actions = put x.hand_id (or_empty (find x.hand_id r.actions) ++ x ∷ []) r.actions;
      },
      none,
    )
unfolding append_action
append_action-there r x there = rw (there, append_action) refl

on_action-there :
    (x : Recording) (event : ActionEvent) (now : Time)
    → has (find event.before.hand_id x.repo.hands) ≡ true
    → on_action x event now ≡ record x {
      repo = record x.repo {
        actions =
            put event.before.hand_id
              (or_empty (find event.before.hand_id x.repo.actions) ++ action_record event now ∷ [])
              x.repo.actions;
      };
    }
unfolding on_action
on_action-there x event now there =
    rw
      (
        append_action-there x.repo (action_record event now) there,
        on_action,
        append_action-there x.repo (action_record event now) there,
      )
      refl

-- From x to y the log of the hand has grown by these actions, and nothing else of the hand and the
-- run is changed.
record Logged (id : String) (x : Recording) (events : List (ActionEvent × Time)) (y : Recording)
    : Type 0 where
  hands : y.repo.hands ≡ x.repo.hands
  started : y.hand_started_at ≡ x.hand_started_at
  status : y.status ≡ x.status
  log : or_empty (find id y.repo.actions) ≡ or_empty (find id x.repo.actions) ++ map recorded events

on_action-Logged :
    (id : String) (x : Recording) (event : ActionEvent) (now : Time)
    → has (find id x.repo.hands) ≡ true
    → event.before.hand_id ≡ id
    → Logged id x ((event, now) ∷ []) (on_action x event now)
on_action-Logged id x event now there same =
    let eq = on_action-there x event now (rw same there) in
    let k = event.before.hand_id in
    record {
      hands = ap (λ y. y.repo.hands) eq;
      started = ap (λ y. y.hand_started_at) eq;
      status = ap (λ y. y.status) eq;
      log =
          subst
            (λ j.
              or_empty (find j (on_action x event now).repo.actions)
              ≡ or_empty (find j x.repo.actions) ++ action_record event now ∷ [])
            same
            (ap (λ y. or_empty (find k y.repo.actions)) eq
              ∙ ap or_empty (
                  find-put_self k (or_empty (find k x.repo.actions) ++ action_record event now ∷ [])
                    x.repo.actions));
    }

on_actions-Logged :
    (id : String) (x : Recording) (events : List (ActionEvent × Time))
    → has (find id x.repo.hands) ≡ true
    → All (λ e. e.0.before.hand_id ≡ id) events
    → Logged id x events (on_actions x events)
unfolding on_actions
on_actions-Logged id x [] there same = record {
  hands = refl;
  started = refl;
  status = refl;
  log = sym (append-nil (or_empty (find id x.repo.actions)));
}
on_actions-Logged id x ((event, now) ∷ events) there (same, all) =
    let one = on_action-Logged id x event now there same in
    let rest = on_actions-Logged id (on_action x event now) events (rw one.hands there) all in
    record {
      hands = rest.hands ∙ one.hands;
      started = rest.started ∙ one.started;
      status = rest.status ∙ one.status;
      log =
          rest.log
          ∙ ap (λ l. l ++ map recorded events) one.log
          ∙ append_assoc (or_empty (find id x.repo.actions)) (action_record event now ∷ [])
              (map recorded events);
    }

complete_hand-there :
    (r : Repository) (id : String) (x : HandRecord)
    → has (find id r.hands) ≡ true
    → complete_hand r id x ≡ (record r { hands = put id (record x { hand_id = id }) r.hands }, none)
unfolding complete_hand
complete_hand-there r id x there = rw (there, complete_hand) refl

-- The status of a run after a hand.
abbrev pub after_hand : TableRunRecord → HandSummary → TableRunRecord
after_hand status summary = record status {
  hands_completed = suc status.hands_completed;
  total_actions = status.total_actions + summary.action_count;
  total_fallbacks = status.total_fallbacks + summary.fallback_count;
}

on_hand_complete-there :
    (x : Recording) (summary : HandSummary) (now started : Time)
    → let id = summary.final_state.hand_id in
      has (find id x.repo.hands) ≡ true
      → find id x.hand_started_at ≡ some started
      → on_hand_complete x summary now ≡ record {
        repo = record x.repo {
          hands = put id (final_record summary started now) x.repo.hands;
          table_runs = put x.status.table_id (after_hand x.status summary) x.repo.table_runs;
        };
        status = after_hand x.status summary;
        hand_started_at = remove id x.hand_started_at;
      }
unfolding on_hand_complete store_status upsert_table_run
on_hand_complete-there x summary now started there began =
    let id = summary.final_state.hand_id in
    let kept = or_start (find id x.hand_started_at) x.status in
    let stored = complete_hand-there x.repo id (final_record summary kept now) there in
    rw (stored, on_hand_complete, stored, began) refl

-- A hand whose id is new, and whose actions and summary have this id, is recorded without an error:
-- its log is the actions that the runner reported, in their order, its record is the final one, with
-- the time at which it started, and the status of the run counts the hand, stored and in the server.
pub on_hand-recorded :
    (x : Recording) (initial : HandState) (began : Time) (events : List (ActionEvent × Time))
    (summary : HandSummary) (ended : Time)
    → let id = initial.hand_id in
      find id x.repo.hands ≡ none
      → find id x.repo.actions ≡ none
      → All (λ e. e.0.before.hand_id ≡ id) events
      → summary.final_state.hand_id ≡ id
      → let y = on_hand x (initial, began) events (summary, ended) in
        let status = after_hand (record x.status { current_hand_no = initial.hand_no }) summary in
        (list_actions y.repo id ≡ map (λ e. action_record e.0 e.1) events)
        × (get_hand y.repo id ≡ some (final_record summary began ended))
        × (get_table_run y.repo x.status.table_id ≡ some status)
        × (y.status ≡ status)
unfolding list_actions get_hand get_table_run
on_hand-recorded x initial began events summary ended new unlogged all same =
    let id = initial.hand_id in
    let a = on_hand_start x initial began in
    let start = on_hand_start-new x initial began new in
    let there : has (find id a.repo.hands) ≡ true =
      rw start (rw (find-put_self id (initial_record initial began) x.repo.hands) refl) in
    let b = on_actions a events in
    let l = on_actions-Logged id a events there all in
    let at : Option Time → Type 0 = λ t. t ≡ some began in
    let began_at : find id b.hand_started_at ≡ some began =
      rw (l.started) (rw start (find-put_self id began x.hand_started_at)) in
    let done =
      on_hand_complete-there b summary ended began (rw (same, l.hands) there) (rw same began_at) in
    let fid = summary.final_state.hand_id in
    let status : b.status ≡ numbered x.status initial = l.status ∙ ap (λ y. y.status) start in
    let tid = b.status.table_id in
    let final = final_record summary began ended in
    (
      ap (λ y. or_empty (find id y.repo.actions)) done
          ∙ l.log
          ∙ ap (λ y. or_empty (find id y.repo.actions) ++ map recorded events) start
          ∙ ap (λ o. or_empty o ++ map recorded events) unlogged,
      ap (λ y. find id y.repo.hands) done
          ∙ subst (λ j. find j (put fid final b.repo.hands) ≡ some final) same
              (find-put_self fid final b.repo.hands),
      ap (λ y. find x.status.table_id y.repo.table_runs) done
          ∙ subst
              (λ s.
                find s.table_id (put tid (after_hand b.status summary) b.repo.table_runs)
                ≡ some (after_hand s summary))
              status (find-put_self tid (after_hand b.status summary) b.repo.table_runs),
      ap (λ y. y.status) done ∙ ap (λ s. after_hand s summary) status,
    )
