-- ===== src/Persistence/Repository/View.antt =====
-- What the repository promises, without its representation: each collection is a function of its
-- keys, and every operation changes one of them at one key or fails and changes nothing.
use Prim.Native.String.{String}
use poker_arena.Common.{
  ℕ, ◌≡◌, ◌≢◌, Option, none, some, List, [], ◌∷◌, ◌++◌, Key, number_key, string_key, find,
  if◌then◌else◌,
}
use poker_arena.Persistence.Records.{
  RepositoryError, hand_not_found, hand_already_exists, user_not_found, agent_not_found,
  agent_version_exists, agent_version_not_found, table_not_found, HandRecord, ActionRecord,
  TableRunRecord, UserRecord, AgentRecord, AgentVersionRecord, TableRecord, SeatRecord,
}
use poker_arena.Persistence.Repository.{Repository, or_empty}
use poker_arena.Persistence.Repository.Operations.{
  Operation, upserting_table_run, creating_hand, completing_hand, appending_action, creating_user,
  creating_agent, creating_agent_version, creating_table, upserting_seat,
}

pub record View : Type 0 where
  pub table_run : String → Option TableRunRecord
  pub hand : String → Option HandRecord
  pub actions : String → List ActionRecord
  pub user : String → Option UserRecord
  pub agent : String → Option AgentRecord
  pub version : String → Option AgentVersionRecord
  pub table : String → Option TableRecord
  pub seat : String → ℕ → Option SeatRecord

abbrev pub view : Repository → View
view r = record {
  table_run = λ k. find k r.table_runs;
  hand = λ k. find k r.hands;
  actions = λ k. or_empty (find k r.actions);
  user = λ k. find k r.users;
  agent = λ k. find k r.agents;
  version = λ k. find k r.versions;
  table = λ k. find k r.tables;
  seat = λ t n. find n (or_empty (find t r.seats));
}

-- A function, changed at one key.
abbrev pub changed {ℓ κ} : {K : Type ℓ} {W : Type κ} ⦃key : Key K⦄ → K → W → (K → W) → K → W
changed ⦃key⦄ k w f j = if key.same k j then w else f j

-- No version of the agent has the number.
abbrev pub Free : View → AgentVersionRecord → Type 0
Free v x =
    (k : String) (w : AgentVersionRecord)
    → v.version k ≡ some w
    → w.agent_id ≡ x.agent_id
    → w.version ≢ x.version

-- What each operation may do, with its error.
pub data Promised : View → Operation → View → Option RepositoryError → Type 0 where
  run_upserted :
      {v : View} {x : TableRunRecord}
      → Promised v
          (upserting_table_run x)
          (record v { table_run = changed x.table_id (some x) v.table_run })
          none
  hand_created :
      {v : View} {x : HandRecord}
      → v.hand x.hand_id ≡ none
      → Promised v (creating_hand x) (record v { hand = changed x.hand_id (some x) v.hand }) none
  hand_exists :
      {v : View} {x h : HandRecord}
      → v.hand x.hand_id ≡ some h
      → Promised v (creating_hand x) v (some hand_already_exists)
  hand_completed :
      {v : View} {id : String} {x h : HandRecord}
      → v.hand id ≡ some h
      → Promised v
          (completing_hand id x)
          (record v { hand = changed id (some (record x { hand_id = id })) v.hand })
          none
  nothing_to_complete :
      {v : View} {id : String} {x : HandRecord}
      → v.hand id ≡ none
      → Promised v (completing_hand id x) v (some hand_not_found)
  action_appended :
      {v : View} {x : ActionRecord} {h : HandRecord}
      → v.hand x.hand_id ≡ some h
      → Promised v
          (appending_action x)
          (record v { actions = changed x.hand_id (v.actions x.hand_id ++ x ∷ []) v.actions })
          none
  nothing_to_append_to :
      {v : View} {x : ActionRecord}
      → v.hand x.hand_id ≡ none
      → Promised v (appending_action x) v (some hand_not_found)
  user_created :
      {v : View} {x : UserRecord}
      → Promised v (creating_user x) (record v { user = changed x.id (some x) v.user }) none
  agent_created :
      {v : View} {x : AgentRecord} {u : UserRecord}
      → v.user x.user_id ≡ some u
      → Promised v (creating_agent x) (record v { agent = changed x.id (some x) v.agent }) none
  agent_unowned :
      {v : View} {x : AgentRecord}
      → v.user x.user_id ≡ none
      → Promised v (creating_agent x) v (some user_not_found)
  version_created :
      {v : View} {x : AgentVersionRecord} {a : AgentRecord}
      → v.agent x.agent_id ≡ some a
      → Free v x
      → Promised v
          (creating_agent_version x)
          (record v { version = changed x.id (some x) v.version })
          none
  version_unowned :
      {v : View} {x : AgentVersionRecord}
      → v.agent x.agent_id ≡ none
      → Promised v (creating_agent_version x) v (some agent_not_found)
  version_exists :
      {v : View} {x w : AgentVersionRecord} {a : AgentRecord} (k : String)
      → v.agent x.agent_id ≡ some a
      → v.version k ≡ some w
      → w.agent_id ≡ x.agent_id
      → w.version ≡ x.version
      → Promised v (creating_agent_version x) v (some agent_version_exists)
  table_created :
      {v : View} {x : TableRecord}
      → Promised v (creating_table x) (record v { table = changed x.id (some x) v.table }) none
  seat_taken :
      {v : View} {x : SeatRecord} {t : TableRecord} {a : AgentRecord} {w : AgentVersionRecord}
      → v.table x.table_id ≡ some t
      → v.agent x.agent_id ≡ some a
      → v.version x.agent_version_id ≡ some w
      → w.agent_id ≡ x.agent_id
      → Promised v
          (upserting_seat x)
          (record v {
            seat = changed x.table_id (changed x.seat_no (some x) (v.seat x.table_id)) v.seat;
          })
          none
  no_table :
      {v : View} {x : SeatRecord}
      → v.table x.table_id ≡ none
      → Promised v (upserting_seat x) v (some table_not_found)
  no_agent :
      {v : View} {x : SeatRecord} {t : TableRecord}
      → v.table x.table_id ≡ some t
      → v.agent x.agent_id ≡ none
      → Promised v (upserting_seat x) v (some agent_not_found)
  no_version :
      {v : View} {x : SeatRecord} {t : TableRecord} {a : AgentRecord}
      → v.table x.table_id ≡ some t
      → v.agent x.agent_id ≡ some a
      → v.version x.agent_version_id ≡ none
      → Promised v (upserting_seat x) v (some agent_version_not_found)
  foreign_version :
      {v : View} {x : SeatRecord} {t : TableRecord} {a : AgentRecord} {w : AgentVersionRecord}
      → v.table x.table_id ≡ some t
      → v.agent x.agent_id ≡ some a
      → v.version x.agent_version_id ≡ some w
      → w.agent_id ≢ x.agent_id
      → Promised v (upserting_seat x) v (some agent_version_not_found)
