-- ===== src/Api/Run.antt =====
-- A run of a table under the server: `handleStart` up to its callbacks, which are in `Callbacks`, its
-- end in `runTable`, and `handleStop`. Each step is one function; the locks make the steps atomic.
pub mod Callbacks
pub mod Played
pub mod Recorded
pub mod Launched
pub mod Ended
use Prim.Native.String.{String}
use poker_arena.Common.{
  joined, ℕ, suc, zero, ◌+◌, ◌%◌, Bool, true, false, not, Option, none, some, List, [], ◌∷◌,
  if◌then◌else◌, find, put, remove, string_key,
}
use poker_arena.Domain.{Error, context_cancelled, HandState, Action, dealing}
use poker_arena.TableRunner.Hand.{ActionEvent}
use poker_arena.TableRunner.Table.{RunTableInput, RunTableResult, HandSummary, u64_size}
use poker_arena.Persistence.Records.{
  RepositoryError, hand_not_found, hand_already_exists, user_not_found, agent_not_found,
  agent_version_exists, agent_version_not_found, table_not_found, Time, TableRunStatus, idle,
  running, stopped, failed, completed, HandRecord, ActionRecord, TableRunRecord,
}
use poker_arena.Persistence.Repository.{
  Repository, upsert_table_run, create_hand, complete_hand, append_action, get_table_run, has,
}
use poker_arena.Api.Access.{ServerConfig}
use poker_arena.Api.Replay.{Response, payload}
use poker_arena.Api.Manage.{Url}
use poker_arena.Api.Start.{
  StartRequest, Checked, invalid, valid, hydrate_start_request, validate_start_request,
}

-- The texts of the errors of the repository.
abbrev pub error_text : RepositoryError → String
error_text hand_not_found = "hand not found"
error_text hand_already_exists = "hand already exists"
error_text user_not_found = "user not found"
error_text agent_not_found = "agent not found"
error_text agent_version_exists = "agent version already exists"
error_text agent_version_not_found = "agent version not found"
error_text table_not_found = "table not found"

-- The server: its repository, and the runs by table, each with its status.
pub record Control : Type 0 where
  pub repo : Repository
  pub runs : List (String × TableRunRecord)

-- What is read of the body of a request to start.
pub data StartBody : Type 0 where
  undecodable too_large : StartBody
  decoded : StartRequest → StartBody

-- The status that a run starts with.
abbrev pub fresh_status : String → Time → RunTableInput → TableRunRecord
fresh_status table_id now input = record {
  table_id = table_id;
  status = running;
  started_at = now;
  ended_at = none;
  error = "";
  hands_requested = input.hands_to_run;
  hands_completed = 0;
  total_actions = 0;
  total_fallbacks = 0;
  current_hand_no = input.starting_hand;
}

abbrev pub failed_status : TableRunRecord → Time → String → TableRunRecord
failed_status status now why = record status { status = failed; ended_at = some now; error = why }

-- `failBeforeRun`
unfoldable pub fail_before_run : Control → String → TableRunRecord → Time → String → Control
fail_before_run c table_id status now why = record {
  repo = (upsert_table_run c.repo (failed_status status now why)).0;
  runs = remove table_id c.runs;
}

-- `handleStart` once its request is checked. Whether there is a provider is an argument, and so is
-- the text of the error where there is none.
unfoldable pub launch :
    Control → String → Time → RunTableInput → Option String → Control × Response RunTableInput
unfolding fail_before_run
launch c table_id now input provider_error = elim (has (find table_id c.runs)) [
  | true ↦ (c, Response.failed 409)
  | false ↦
      let status = fresh_status table_id now input in
      let runs = put table_id status c.runs in
      elim (upsert_table_run c.repo status).1 [
        | some e ↦ (
          record { repo = (upsert_table_run c.repo status).0; runs = remove table_id runs },
          Response.failed 500,
        )
        | none ↦
            let started : Control = record {
              repo = (upsert_table_run c.repo status).0;
              runs = runs;
            } in
            elim provider_error [
              | some why ↦ (
                fail_before_run started table_id status now
                    (joined "resolve action provider: " why),
                Response.failed 500,
              )
              | none ↦ (started, payload input)
            ]
      ]
]

-- `handleStart`; the provider factory is an argument, with the text of its error.
unfoldable pub handle_start :
    ServerConfig
    → (String → Option Url)
    → (StartRequest → Option String)
    → Control
    → Time
    → String
    → StartBody
    → Control × Response RunTableInput
unfolding launch
handle_start config parse_url factory c now table_id undecodable = (c, Response.failed 400)
handle_start config parse_url factory c now table_id too_large = (c, Response.failed 413)
handle_start config parse_url factory c now table_id (decoded req) =
    elim (hydrate_start_request c.repo table_id req) [
      | Response.failed code ↦ (c, Response.failed code)
      | payload resolved ↦ elim (validate_start_request config parse_url table_id resolved) [
        | invalid why ↦ (c, Response.failed 400)
        | valid input ↦ launch c table_id now input (factory resolved)
      ]
    ]

abbrev pub has_failed : TableRunStatus → Bool
has_failed failed = true
has_failed s = false

abbrev pub is_cancellation : Error → Bool
is_cancellation context_cancelled = true
is_cancellation e = false

-- The `switch` of `runTable`: the status of the end, and the text of the error.
abbrev pub ending : (Error → String) → TableRunRecord → Option Error → TableRunStatus × String
ending text run problem = if has_failed run.status then (failed, run.error) else elim problem [
  | none ↦ (completed, run.error)
  | some e ↦ if is_cancellation e then (stopped, text e) else (failed, text e)
]

-- The final status of `runTable`.
unfoldable pub final_status :
    (Error → String)
    → TableRunRecord
    → RunTableInput
    → RunTableResult × Option Error
    → Time
    → TableRunRecord
final_status text run input out now =
    let (result, problem) = out in
    let end = ending text run problem in
    record run {
      hands_completed = result.hands_completed;
      total_actions = result.total_actions;
      total_fallbacks = result.total_fallbacks;
      current_hand_no = (input.starting_hand + result.hands_completed) % u64_size;
      ended_at = some now;
      status = end.0;
      error = end.1;
    }

-- The end of `runTable`.
unfoldable pub finish_run :
    (Error → String)
    → Control
    → String
    → TableRunRecord
    → RunTableInput
    → RunTableResult × Option Error
    → Time
    → Control
unfolding final_status
finish_run text c table_id run input out now = record {
  repo = (upsert_table_run c.repo (final_status text run input out now)).0;
  runs = remove table_id c.runs;
}

-- `handleStop`: the repository once the run is done, nothing where this takes too long.
unfoldable pub handle_stop : Control → Option Repository → String → Response TableRunStatus
handle_stop c after table_id = elim (find table_id c.runs) [
  | none ↦ Response.failed 409
  | some run ↦ elim after [
    | none ↦ Response.failed 504
    | some repo ↦ elim (get_table_run repo table_id) [
      | none ↦ Response.failed 500
      | some status ↦ payload status.status
    ]
  ]
]
