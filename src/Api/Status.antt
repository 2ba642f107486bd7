-- ===== src/Api/Status.antt =====
-- What an administrator is told of a table: `handleStatus` and `handleTableState`.
use Prim.Native.String.{String}
use poker_arena.Common.{ℕ, ◌+◌, Option, none, some, List, [], ◌∷◌, length}
use poker_arena.Persistence.Records.{HandRecord, TableRecord, SeatRecord, TableRunRecord}
use poker_arena.Persistence.Repository.{
  Repository, get_table, get_table_run, list_seats, list_hands, list_actions,
}
use poker_arena.Api.Replay.{Response, failed, payload}

-- The loop that counts the actions of the hands.
unfoldable pub count_persisted : Repository → List HandRecord → ℕ
count_persisted r [] = 0
count_persisted r (h ∷ hs) = length (list_actions r h.hand_id) + count_persisted r hs

-- `tableStatusResponse`
pub record TableStatusResponse : Type 0 where
  pub run : TableRunRecord
  pub hands_persisted : ℕ
  pub actions_persisted : ℕ

-- `handleStatus`
unfoldable pub handle_status : Repository → String → Response TableStatusResponse
unfolding count_persisted
handle_status r table_id = elim (get_table_run r table_id) [
  | none ↦ failed 404
  | some run ↦ payload (record {
    run = run;
    hands_persisted = length (list_hands r table_id);
    actions_persisted = count_persisted r (list_hands r table_id);
  })
]

-- `tableStateResponse`
pub record TableStateResponse : Type 0 where
  pub table : TableRecord
  pub seats : List SeatRecord
  pub latest_run : Option TableRunRecord
  pub hands_count : ℕ
  pub actions_count : ℕ

-- `handleTableState`; the seats and the table have the fields of their records.
unfoldable pub handle_table_state : Repository → String → Response TableStateResponse
unfolding count_persisted
handle_table_state r table_id = elim (get_table r table_id) [
  | none ↦ failed 404
  | some table ↦ payload (record {
    table = table;
    seats = list_seats r table_id;
    latest_run = get_table_run r table_id;
    hands_count = length (list_hands r table_id);
    actions_count = count_persisted r (list_hands r table_id);
  })
]
