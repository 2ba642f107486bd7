-- ===== src/Persistence/Repository.antt =====
-- `inMemoryRepository` of repository.go. Its lock makes each method one step; the records that are
-- cloned on the way in and out are values. A method that writes returns the repository and its
-- error, and one that reads never fails.
pub mod Operations
pub mod Integrity
pub mod View
pub mod Refinement
pub mod Listing
pub mod Log
pub mod OneEach
use Prim.Native.String.{String, compare}
use Prim.Native.Nat.Ordering.{lt}
use text.Mathlib.Text.{◌==◌ as same_text, is_lt}
use poker_arena.Common.{
  ℕ, Bool, true, false, not, ◌&&◌, ◌||◌, Option, none, some, List, [], ◌∷◌, ◌++◌, map, select, ltb,
  ◌==◌, if◌then◌else◌, sort_by, find, put, text_before, number_key, string_key,
}
use poker_arena.Persistence.Records.{
  RepositoryError, hand_not_found, hand_already_exists, user_not_found, agent_not_found,
  agent_version_exists, agent_version_not_found, table_not_found, HandRecord, ActionRecord,
  TableRunRecord, UserRecord, AgentRecord, AgentVersionRecord, TableRecord, SeatRecord,
}

pub record Repository : Type 0 where
  pub table_runs : List (String × TableRunRecord)
  pub hands : List (String × HandRecord)
  pub actions : List (String × List ActionRecord)
  pub users : List (String × UserRecord)
  pub agents : List (String × AgentRecord)
  pub versions : List (String × AgentVersionRecord)
  pub tables : List (String × TableRecord)
  pub seats : List (String × List (ℕ × SeatRecord))

-- `NewInMemoryRepository`
abbrev pub new_in_memory_repository : Repository
new_in_memory_repository = record {
  table_runs = [];
  hands = [];
  actions = [];
  users = [];
  agents = [];
  versions = [];
  tables = [];
  seats = [];
}

abbrev pub Written : Type 0
Written = Repository × Option RepositoryError

abbrev pub has {ℓ} : {A : Type ℓ} → Option A → Bool
has none = false
has (some a) = true

-- `slice := m[key]`, nil for a missing key.
abbrev pub or_empty {ℓ} : {A : Type ℓ} → Option (List A) → List A
or_empty none = []
or_empty (some xs) = xs

-- `UpsertTableRun`
unfoldable pub upsert_table_run : Repository → TableRunRecord → Written
upsert_table_run r x = (record r { table_runs = put x.table_id x r.table_runs }, none)

-- `GetTableRun`
unfoldable pub get_table_run : Repository → String → Option TableRunRecord
get_table_run r table_id = find table_id r.table_runs

-- `CreateHand`
unfoldable pub create_hand : Repository → HandRecord → Written
create_hand r x =
    if has (find x.hand_id r.hands)
    then (r, some hand_already_exists)
    else (record r { hands = put x.hand_id x r.hands }, none)

-- `GetHand`
unfoldable pub get_hand : Repository → String → Option HandRecord
get_hand r hand_id = find hand_id r.hands

-- `CompleteHand`
unfoldable pub complete_hand : Repository → String → HandRecord → Written
complete_hand r hand_id final =
    if has (find hand_id r.hands)
    then (record r { hands = put hand_id (record final { hand_id = hand_id }) r.hands }, none)
    else (r, some hand_not_found)

-- `AppendAction`
unfoldable pub append_action : Repository → ActionRecord → Written
append_action r x =
    if has (find x.hand_id r.hands)
    then (
      record r {
        actions = put x.hand_id (or_empty (find x.hand_id r.actions) ++ x ∷ []) r.actions;
      },
      none,
    )
    else (r, some hand_not_found)

-- The order of `ListHands`: by number, and where these are equal by id.
abbrev pub hand_before : HandRecord → HandRecord → Bool
hand_before a b =
    if a.hand_no == b.hand_no then text_before a.hand_id b.hand_id else ltb a.hand_no b.hand_no

-- `ListHands`, over the entries of the map in the order in which `range` visits them.
unfoldable pub list_visited_hands : List (String × HandRecord) → String → List HandRecord
list_visited_hands visited table_id =
    sort_by hand_before (select (λ x. same_text x.table_id table_id) (map (λ e. e.1) visited))

unfoldable pub list_hands : Repository → String → List HandRecord
unfolding list_visited_hands
list_hands r table_id = list_visited_hands r.hands table_id

-- `ListActions`
unfoldable pub list_actions : Repository → String → List ActionRecord
list_actions r hand_id = or_empty (find hand_id r.actions)

-- `CreateUser`
unfoldable pub create_user : Repository → UserRecord → Written
create_user r x = (record r { users = put x.id x r.users }, none)

-- `CreateAgent`
unfoldable pub create_agent : Repository → AgentRecord → Written
create_agent r x =
    if has (find x.user_id r.users)
    then (record r { agents = put x.id x r.agents }, none)
    else (r, some user_not_found)

-- The loop of `CreateAgentVersion`: some version has this agent and number.
unfoldable pub version_taken : String → ℕ → List (String × AgentVersionRecord) → Bool
version_taken agent_id version [] = false
version_taken agent_id version ((id, x) ∷ versions) =
    same_text x.agent_id agent_id && x.version == version || version_taken agent_id version versions

-- `CreateAgentVersion`
unfoldable pub create_agent_version : Repository → AgentVersionRecord → Written
unfolding version_taken
create_agent_version r x =
    if not (has (find x.agent_id r.agents))
    then (r, some agent_not_found)
    else if version_taken x.agent_id x.version r.versions
    then (r, some agent_version_exists)
    else (record r { versions = put x.id x r.versions }, none)

-- `CreateTable`
unfoldable pub create_table : Repository → TableRecord → Written
create_table r x = (record r { tables = put x.id x r.tables }, none)

-- The guards of `UpsertSeat`, in their order.
unfoldable pub seat_error : Repository → SeatRecord → Option RepositoryError
seat_error r x =
    if not (has (find x.table_id r.tables))
    then some table_not_found
    else if not (has (find x.agent_id r.agents))
    then some agent_not_found
    else elim (find x.agent_version_id r.versions) [
      | none ↦ some agent_version_not_found
      | some v ↦ if same_text v.agent_id x.agent_id then none else some agent_version_not_found
    ]

-- `UpsertSeat`
unfoldable pub upsert_seat : Repository → SeatRecord → Written
unfolding seat_error
upsert_seat r x = elim (seat_error r x) [
  | some e ↦ (r, some e)
  | none ↦ (
    record r {
      seats = put x.table_id (put x.seat_no x (or_empty (find x.table_id r.seats))) r.seats;
    },
    none,
  )
]

-- `GetTable`
unfoldable pub get_table : Repository → String → Option TableRecord
get_table r table_id = find table_id r.tables

abbrev pub table_before : TableRecord → TableRecord → Bool
table_before a b = text_before a.id b.id

-- `ListTables`, over the entries in the order of the visit.
unfoldable pub list_visited_tables : List (String × TableRecord) → List TableRecord
list_visited_tables visited = sort_by table_before (map (λ e. e.1) visited)

unfoldable pub list_tables : Repository → List TableRecord
unfolding list_visited_tables
list_tables r = list_visited_tables r.tables

abbrev pub seat_before : SeatRecord → SeatRecord → Bool
seat_before a b = ltb a.seat_no b.seat_no

-- `ListSeats`, over the entries of the table's map in the order of the visit.
unfoldable pub list_visited_seats : List (ℕ × SeatRecord) → List SeatRecord
list_visited_seats visited = sort_by seat_before (map (λ e. e.1) visited)

unfoldable pub list_seats : Repository → String → List SeatRecord
unfolding list_visited_seats
list_seats r table_id = list_visited_seats (or_empty (find table_id r.seats))

-- `GetAgentVersion`
unfoldable pub get_agent_version : Repository → String → Option AgentVersionRecord
get_agent_version r version_id = find version_id r.versions
