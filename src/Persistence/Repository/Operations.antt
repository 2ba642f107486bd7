-- ===== src/Persistence/Repository/Operations.antt =====
-- The methods of the repository that write, as one type of operations.
use Prim.Native.String.{String}
use poker_arena.Common.{List, [], ◌∷◌}
use poker_arena.Persistence.Records.{
  HandRecord, ActionRecord, TableRunRecord, UserRecord, AgentRecord, AgentVersionRecord,
  TableRecord, SeatRecord,
}
use poker_arena.Persistence.Repository.{
  Repository, Written, upsert_table_run, create_hand, complete_hand, append_action, create_user,
  create_agent, create_agent_version, create_table, upsert_seat,
}

pub data Operation : Type 0 where
  upserting_table_run : TableRunRecord → Operation
  creating_hand : HandRecord → Operation
  completing_hand : String → HandRecord → Operation
  appending_action : ActionRecord → Operation
  creating_user : UserRecord → Operation
  creating_agent : AgentRecord → Operation
  creating_agent_version : AgentVersionRecord → Operation
  creating_table : TableRecord → Operation
  upserting_seat : SeatRecord → Operation

unfoldable pub perform : Repository → Operation → Written
perform r (upserting_table_run x) = upsert_table_run r x
perform r (creating_hand x) = create_hand r x
perform r (completing_hand id x) = complete_hand r id x
perform r (appending_action x) = append_action r x
perform r (creating_user x) = create_user r x
perform r (creating_agent x) = create_agent r x
perform r (creating_agent_version x) = create_agent_version r x
perform r (creating_table x) = create_table r x
perform r (upserting_seat x) = upsert_seat r x

-- One operation after the other, whatever their errors.
unfoldable pub perform_all : Repository → List Operation → Repository
perform_all r [] = r
perform_all r (op ∷ ops) = perform_all (perform r op).0 ops
