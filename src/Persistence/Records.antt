-- ===== src/Persistence/Records.antt =====
-- The records of repository.go. An instant is a number, and JSON text that is only kept is the list
-- of its bytes.
use Prim.Native.String.{String}
use poker_arena.Common.{ℕ, Bool, Option, List}
use poker_arena.Domain.{HandState, HandPhase, PotAward, Street, ActionKind, SeatStatus}

-- The errors of the repository.
pub data RepositoryError : Type 0 where
  hand_not_found hand_already_exists user_not_found agent_not_found : RepositoryError
  agent_version_exists agent_version_not_found table_not_found : RepositoryError

abbrev pub Time : Type 0
Time = ℕ

pub data TableRunStatus : Type 0 where
  idle running stopped failed completed : TableRunStatus

pub record HandRecord : Type 0 where
  pub hand_id : String
  pub table_id : String
  pub hand_no : ℕ
  pub started_at : Time
  pub ended_at : Option Time
  pub final_phase : HandPhase
  pub final_state : HandState
  pub winner_summary : List PotAward

pub record ActionRecord : Type 0 where
  pub hand_id : String
  pub street : Street
  pub acting_seat : ℕ
  pub action : ActionKind
  pub amount : Option ℕ
  pub is_fallback : Bool
  pub at_time : Time

-- `Error` is the text of the error, "" for none.
pub record TableRunRecord : Type 0 where
  pub table_id : String
  pub status : TableRunStatus
  pub started_at : Time
  pub ended_at : Option Time
  pub error : String
  pub hands_requested : ℕ
  pub hands_completed : ℕ
  pub total_actions : ℕ
  pub total_fallbacks : ℕ
  pub current_hand_no : ℕ

pub record UserRecord : Type 0 where
  pub id : String
  pub name : String
  pub token : String
  pub created_at : Time

pub record AgentRecord : Type 0 where
  pub id : String
  pub user_id : String
  pub name : String
  pub created_at : Time

pub record AgentVersionRecord : Type 0 where
  pub id : String
  pub agent_id : String
  pub version : ℕ
  pub endpoint_url : String
  pub config_json : List ℕ
  pub created_at : Time

pub record TableRecord : Type 0 where
  pub id : String
  pub name : String
  pub max_seats : ℕ
  pub small_blind : ℕ
  pub big_blind : ℕ
  pub status : String
  pub created_at : Time

pub record SeatRecord : Type 0 where
  pub id : String
  pub table_id : String
  pub seat_no : ℕ
  pub agent_id : String
  pub agent_version_id : String
  pub stack : ℕ
  pub status : SeatStatus
  pub created_at : Time
