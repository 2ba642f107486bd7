-- ===== src/Api/Manage.antt =====
-- The handlers by which an administrator sets up users, agents, tables and seats. The decoded body is
-- nothing where the code cannot decode it; a new id and the time are arguments, and so is what
-- `url.Parse` makes of a text, nothing for an error.
pub mod Versions
use Prim.Native.String.{String}
use poker_arena.Common.{
  ℕ, suc, zero, ◌+◌, Bool, true, false, not, ◌&&◌, ◌||◌, Option, none, some, List, [], ◌∷◌, map,
  length, if◌then◌else◌, is_empty, trim_space, ◌==◌,
}
use text.Mathlib.Text.{◌==◌ as same_text}
use poker_arena.Domain.{
  Result, ok, err, SeatStatus, active, TableConfig, default_v0_table_config, validate, new_seat_no,
}
use poker_arena.Persistence.Records.{
  RepositoryError, user_not_found, agent_not_found, agent_version_exists, agent_version_not_found,
  table_not_found, Time, TableRunRecord, HandRecord, UserRecord, AgentRecord, AgentVersionRecord,
  TableRecord, SeatRecord,
}
use poker_arena.Persistence.Repository.{
  Repository, create_user, create_agent, create_agent_version, create_table, upsert_seat, get_table,
  get_table_run, list_tables, list_seats, list_hands, list_actions,
}
use poker_arena.Api.Access.{ServerConfig, includes, no_entries}
use poker_arena.Api.Replay.{Response, failed, payload}

-- What the code reads of a parsed URL.
pub record Url : Type 0 where
  pub host : String
  pub scheme : String

-- A seat's status in a request: absent, one of the constants, or another string.
pub data RequestedStatus : Type 0 where
  blank : RequestedStatus
  known : SeatStatus → RequestedStatus
  unknown : String → RequestedStatus

-- `createUserRequest`
pub record CreateUserRequest : Type 0 where
  pub name : String
  pub token : String

-- `createAgentRequest`
pub record CreateAgentRequest : Type 0 where
  pub user_id : String
  pub name : String

-- `createAgentVersionRequest`
pub record CreateAgentVersionRequest : Type 0 where
  pub endpoint_url : String
  pub config_json : List ℕ

-- `createTableRequest`
pub record CreateTableRequest : Type 0 where
  pub name : String
  pub max_seats : Option ℕ
  pub small_blind : Option ℕ
  pub big_blind : Option ℕ

-- `joinTableRequest`
pub record JoinTableRequest : Type 0 where
  pub seat_no : ℕ
  pub agent_id : String
  pub agent_version_id : String
  pub stack : ℕ
  pub status : RequestedStatus

-- `handleCreateUser`
unfoldable pub handle_create_user :
    Repository → String → Time → Option CreateUserRequest → Repository × Response UserRecord
handle_create_user r id now none = (r, failed 400)
handle_create_user r id now (some req) =
    let name = trim_space req.name in
    let token = trim_space req.token in
    if is_empty name || is_empty token
    then (r, failed 400)
    else let x : UserRecord = record { id = id; name = name; token = token; created_at = now } in
      elim (create_user r x).1 [
        | none ↦ ((create_user r x).0, payload x)
        | some e ↦ ((create_user r x).0, failed 500)
      ]

abbrev pub create_agent_status : RepositoryError → ℕ
create_agent_status user_not_found = 400
create_agent_status e = 500

-- `handleCreateAgent`
unfoldable pub handle_create_agent :
    Repository → String → Time → Option CreateAgentRequest → Repository × Response AgentRecord
handle_create_agent r id now none = (r, failed 400)
handle_create_agent r id now (some req) =
    let user_id = trim_space req.user_id in
    let name = trim_space req.name in
    if is_empty user_id || is_empty name
    then (r, failed 400)
    else let x : AgentRecord = record {
      id = id;
      user_id = user_id;
      name = name;
      created_at = now;
    } in
      elim (create_agent r x).1 [
        | none ↦ ((create_agent r x).0, payload x)
        | some e ↦ ((create_agent r x).0, failed (create_agent_status e))
      ]

-- The scheme is http or https.
abbrev pub is_web : Url → Bool
is_web u = same_text u.scheme "http" || same_text u.scheme "https"

-- The checks of an address, which all answer with 400 or with an error of the request to start.
unfoldable pub is_endpoint_allowed : ServerConfig → Option Url → Bool
is_endpoint_allowed config none = false
is_endpoint_allowed config (some u) =
    if is_empty u.host
    then false
    else if not (is_web u)
    then false
    else no_entries config.allowed_agent_hosts || includes u.host config.allowed_agent_hosts

-- What the loop of `handleCreateAgentVersion` ends with.
pub data Allocation : Type 0 where
  allocated : AgentVersionRecord → Allocation
  rejected : ℕ → Allocation
  exhausted : Allocation

-- The version that the loop tries.
abbrev pub candidate : (ℕ → String) → (ℕ → Time) → String → String → List ℕ → ℕ → AgentVersionRecord
candidate ids times agent_id endpoint_url config_json version = record {
  id = ids version;
  agent_id = agent_id;
  version = version;
  endpoint_url = endpoint_url;
  config_json = config_json;
  created_at = times version;
}

abbrev pub is_taken : RepositoryError → Bool
is_taken agent_version_exists = true
is_taken e = false

abbrev pub version_status : RepositoryError → ℕ
version_status agent_not_found = 400
version_status e = 500

-- The loop of `handleCreateAgentVersion`, with the number of rounds left.
unfoldable pub allocate_version :
    Repository → (ℕ → AgentVersionRecord) → ℕ → ℕ → Repository × Allocation
allocate_version r tried zero version = (r, exhausted)
allocate_version r tried (suc left) version =
    let done = create_agent_version r (tried version) in
    elim done.1 [
      | none ↦ (done.0, allocated (tried version))
      | some e ↦ elim (is_taken e) [
        | true ↦ allocate_version done.0 tried left (suc version)
        | false ↦ (done.0, rejected (version_status e))
      ]
    ]

abbrev pub max_versions : ℕ
max_versions = 10_000

-- `{}` in bytes.
abbrev pub or_braces : List ℕ → List ℕ
or_braces [] = b'{' ∷ b'}' ∷ []
or_braces (x ∷ xs) = x ∷ xs

abbrev pub version_response : Allocation → Response AgentVersionRecord
version_response (rejected code) = failed code
version_response exhausted = failed 500
version_response (allocated x) = if is_empty x.id then failed 500 else payload x

-- `handleCreateAgentVersion`
unfoldable pub handle_create_agent_version :
    ServerConfig
    → (String → Option Url)
    → Repository
    → (ℕ → String)
    → (ℕ → Time)
    → String
    → Option CreateAgentVersionRequest
    → Repository × Response AgentVersionRecord
unfolding allocate_version is_endpoint_allowed
handle_create_agent_version config parse_url r ids times agent_id none = (r, failed 400)
handle_create_agent_version config parse_url r ids times agent_id (some req) =
    let endpoint_url = trim_space req.endpoint_url in
    if not (is_endpoint_allowed config (parse_url endpoint_url))
    then (r, failed 400)
    else let done =
        allocate_version r (candidate ids times agent_id endpoint_url (or_braces req.config_json))
          max_versions 1 in
      (done.0, version_response done.1)

abbrev pub or_default : ℕ → Option ℕ → ℕ
or_default d none = d
or_default d (some n) = n

-- The configuration that `handleCreateTable` checks.
abbrev pub requested_config : CreateTableRequest → TableConfig
requested_config req = record default_v0_table_config {
  max_seats = or_default default_v0_table_config.max_seats req.max_seats;
  small_blind = or_default default_v0_table_config.small_blind req.small_blind;
  big_blind = or_default default_v0_table_config.big_blind req.big_blind;
}

-- `handleCreateTable`; the response has the fields of the record.
unfoldable pub handle_create_table :
    Repository → String → Time → Option CreateTableRequest → Repository × Response TableRecord
handle_create_table r id now none = (r, failed 400)
handle_create_table r id now (some req) = elim (validate (requested_config req)) [
  | err e ↦ (r, failed 400)
  | ok done ↦
      let name = trim_space req.name in
      let config = requested_config req in
      let x : TableRecord = record {
        id = id;
        name = if is_empty name then id else name;
        max_seats = config.max_seats;
        small_blind = config.small_blind;
        big_blind = config.big_blind;
        status = "idle";
        created_at = now;
      } in
      elim (create_table r x).1 [
        | none ↦ ((create_table r x).0, payload x)
        | some e ↦ ((create_table r x).0, failed 500)
      ]
]

-- `handleListTables`
unfoldable pub handle_list_tables : Repository → Response (List TableRecord)
handle_list_tables r = payload (list_tables r)

-- The status of a new seat: active for a blank one, and nothing for one that
-- `isSeatStatusAllowed` refuses.
abbrev pub status_of : RequestedStatus → Option SeatStatus
status_of blank = some active
status_of (known s) = some s
status_of (unknown s) = none

abbrev pub join_status : RepositoryError → ℕ
join_status table_not_found = 404
join_status agent_not_found = 400
join_status agent_version_not_found = 400
join_status e = 500

-- `handleJoinTable`; the response has the fields of the record.
unfoldable pub handle_join_table :
    Repository → String → Time → String → Option JoinTableRequest → Repository × Response SeatRecord
handle_join_table r id now table_id none = (r, failed 400)
handle_join_table r id now table_id (some req) = elim (get_table r table_id) [
  | none ↦ (r, failed 404)
  | some table ↦ elim (new_seat_no req.seat_no table.max_seats) [
    | err e ↦ (r, failed 400)
    | ok seat_no ↦ elim (status_of req.status) [
      | none ↦ (r, failed 400)
      | some status ↦
          let x : SeatRecord = record {
            id = id;
            table_id = table_id;
            seat_no = seat_no;
            agent_id = trim_space req.agent_id;
            agent_version_id = trim_space req.agent_version_id;
            stack = req.stack;
            status = status;
            created_at = now;
          } in
          if req.stack == 0 || is_empty x.agent_id || is_empty x.agent_version_id
          then (r, failed 400)
          else elim (upsert_seat r x).1 [
            | none ↦ ((upsert_seat r x).0, payload x)
            | some e ↦ ((upsert_seat r x).0, failed (join_status e))
          ]
    ]
  ]
]
