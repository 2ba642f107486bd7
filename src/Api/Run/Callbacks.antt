-- ===== src/Api/Run/Callbacks.antt =====
-- The callbacks of `handleStart`, which record a run in the repository, and `failRun`.
use Prim.Native.String.{String}
use poker_arena.Common.{
  suc, ◌+◌, joined, Option, none, some, List, [], find, put, remove, string_key,
}
use poker_arena.Domain.{HandState}
use poker_arena.TableRunner.Hand.{ActionEvent}
use poker_arena.TableRunner.Table.{HandSummary}
use poker_arena.Persistence.Records.{Time, HandRecord, ActionRecord, TableRunRecord}
use poker_arena.Persistence.Repository.{
  Repository, upsert_table_run, create_hand, complete_hand, append_action,
}
use poker_arena.Api.Run.{error_text, failed_status}

-- What the callbacks share: the repository, the status of the run, and when its hands started.
pub record Recording : Type 0 where
  pub repo : Repository
  pub status : TableRunRecord
  pub hand_started_at : List (String × Time)

-- `failRun`; it also cancels the run.
unfoldable pub fail_run : Recording → Time → String → Recording
fail_run x now why =
    let status = failed_status x.status now why in
    record x { repo = (upsert_table_run x.repo status).0; status = status }

-- The status is stored, or the run fails.
unfoldable pub store_status : Recording → Time → String → Recording
unfolding fail_run
store_status x now prefix = elim (upsert_table_run x.repo x.status).1 [
  | none ↦ record x { repo = (upsert_table_run x.repo x.status).0 }
  | some e ↦ fail_run x now (joined prefix (error_text e))
]

-- `OnHandStart`
unfoldable pub on_hand_start : Recording → HandState → Time → Recording
unfolding fail_run store_status
on_hand_start x initial now =
    let written = create_hand x.repo (record {
      hand_id = initial.hand_id;
      table_id = initial.table_id;
      hand_no = initial.hand_no;
      started_at = now;
      ended_at = none;
      final_phase = initial.phase;
      final_state = initial;
      winner_summary = [];
    }) in
    elim written.1 [
      | some e ↦
          fail_run (record x { repo = written.0 }) now
            (joined "create hand record: " (error_text e))
      | none ↦
          store_status
            (record {
              repo = written.0;
              status = record x.status { current_hand_no = initial.hand_no };
              hand_started_at = put initial.hand_id now x.hand_started_at;
            })
            now "update run on hand start: "
    ]

-- The record that `OnAction` makes.
abbrev pub action_record : ActionEvent → Time → ActionRecord
action_record event now = record {
  hand_id = event.before.hand_id;
  street = event.before.street;
  acting_seat = event.before.acting_seat;
  action = event.action.kind;
  amount = event.action.amount;
  is_fallback = event.is_fallback;
  at_time = now;
}

-- `OnAction`
unfoldable pub on_action : Recording → ActionEvent → Time → Recording
unfolding fail_run
on_action x event now =
    let written = append_action x.repo (action_record event now) in
    elim written.1 [
      | none ↦ record x { repo = written.0 }
      | some e ↦
          fail_run (record x { repo = written.0 }) now
            (joined "append action record: " (error_text e))
    ]

abbrev pub or_start : Option Time → TableRunRecord → Time
or_start none status = status.started_at
or_start (some t) status = t

-- The record that `OnHandComplete` makes.
abbrev pub final_record : HandSummary → Time → Time → HandRecord
final_record summary started now = record {
  hand_id = summary.final_state.hand_id;
  table_id = summary.final_state.table_id;
  hand_no = summary.hand_no;
  started_at = started;
  ended_at = some now;
  final_phase = summary.final_phase;
  final_state = summary.final_state;
  winner_summary = summary.final_state.showdown_awards;
}

-- `OnHandComplete`
unfoldable pub on_hand_complete : Recording → HandSummary → Time → Recording
unfolding fail_run store_status
on_hand_complete x summary now =
    let id = summary.final_state.hand_id in
    let started = or_start (find id x.hand_started_at) x.status in
    let y = record x { hand_started_at = remove id x.hand_started_at } in
    let written = complete_hand x.repo id (final_record summary started now) in
    elim written.1 [
      | some e ↦
          fail_run (record y { repo = written.0 }) now
            (joined "complete hand record: " (error_text e))
      | none ↦
          store_status
            (record y {
              repo = written.0;
              status = record x.status {
                hands_completed = suc x.status.hands_completed;
                total_actions = x.status.total_actions + summary.action_count;
                total_fallbacks = x.status.total_fallbacks + summary.fallback_count;
              };
            })
            now "update run on hand complete: "
    ]
