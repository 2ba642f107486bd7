-- ===== src/Tests/Repository.antt =====
-- The repository with two hands and a seated agent.
use Prim.Native.String.{String}
use mathlib.Core.List.{Permᴰ}
use poker_arena.Common.{
  ℕ, false, ◌≡◌, refl, subst, none, some, List, [], ◌∷◌, ◌++◌, find, put, number_key, string_key,
}
use poker_arena.Domain.{betting, active, flop, ActionKind}
use poker_arena.Persistence.Records.{HandRecord, ActionRecord, AgentVersionRecord, SeatRecord}
use poker_arena.Persistence.Repository.{
  Repository, new_in_memory_repository, list_hands, list_visited_hands, list_seats,
  list_visited_seats, list_actions, create_hand, append_action, create_user, create_agent,
  version_taken, create_agent_version, create_table, seat_error, upsert_seat,
}
use poker_arena.Persistence.Repository.Operations.{
  Operation, perform, perform_all, creating_hand, appending_action, creating_user, creating_agent,
  creating_agent_version, creating_table, upserting_seat,
}
use poker_arena.Persistence.Repository.Integrity.{Integrity, new_in_memory_repository-Integrity}
use poker_arena.Persistence.Repository.Integrity.Seats.{perform-Integrity, perform_all-Integrity}
use poker_arena.Persistence.Repository.View.{view, Promised}
use poker_arena.Persistence.Repository.Refinement.{reached-Promised}
use poker_arena.Persistence.Repository.Listing.{list_hands_order, list_seats_order}
use poker_arena.Persistence.Repository.Log.{list_actions-perform_all, logged_all}
use poker_arena.Persistence.Repository.OneEach.{OneEach, reached-OneEach}
use poker_arena.Tests.Hands.{sample}

abbrev pub hand_numbered : String → ℕ → HandRecord
hand_numbered id n = record {
  hand_id = id;
  table_id = "table";
  hand_no = n;
  started_at = 0;
  ended_at = none;
  final_phase = betting;
  final_state = sample;
  winner_summary = [];
}

abbrev pub called_in : String → ActionRecord
called_in id = record {
  hand_id = id;
  street = flop;
  acting_seat = 1;
  action = ActionKind.call;
  amount = none;
  is_fallback = false;
  at_time = 5;
}

abbrev pub seated_at : ℕ → SeatRecord
seated_at n = record {
  id = "seat";
  table_id = "table";
  seat_no = n;
  agent_id = "agent";
  agent_version_id = "version";
  stack = 1000;
  status = active;
  created_at = 0;
}

abbrev pub first_version : AgentVersionRecord
first_version = record {
  id = "version";
  agent_id = "agent";
  version = 1;
  endpoint_url = "http://agent";
  config_json = [];
  created_at = 0;
}

abbrev setup : List Operation
setup =
    creating_user (record { id = "user"; name = "user"; token = "token"; created_at = 0 })
    ∷ creating_agent (record { id = "agent"; user_id = "user"; name = "agent"; created_at = 0 })
    ∷ creating_agent_version first_version
    ∷ creating_table (record {
      id = "table";
      name = "table";
      max_seats = 6;
      small_blind = 50;
      big_blind = 100;
      status = "idle";
      created_at = 0;
    })
    ∷ upserting_seat (seated_at 3)
    ∷ upserting_seat (seated_at 1)
    ∷ creating_hand (hand_numbered "b" 2)
    ∷ creating_hand (hand_numbered "a" 1)
    ∷ appending_action (called_in "a")
    ∷ []

abbrev pub filled : Repository
filled = record {
  table_runs = [];
  hands = ("b", hand_numbered "b" 2) ∷ ("a", hand_numbered "a" 1) ∷ [];
  actions = ("a", called_in "a" ∷ []) ∷ [];
  users = ("user", record { id = "user"; name = "user"; token = "token"; created_at = 0 }) ∷ [];
  agents =
      ("agent", record { id = "agent"; user_id = "user"; name = "agent"; created_at = 0 }) ∷ [];
  versions = ("version", first_version) ∷ [];
  tables =
      (
        "table",
        record {
          id = "table";
          name = "table";
          max_seats = 6;
          small_blind = 50;
          big_blind = 100;
          status = "idle";
          created_at = 0;
        },
      )
      ∷ [];
  seats = ("table", (3, seated_at 3) ∷ (1, seated_at 1) ∷ []) ∷ [];
}

setup_done : perform_all new_in_memory_repository setup ≡ filled
unfolding perform_all perform create_user create_agent create_agent_version version_taken
    create_table upsert_seat seat_error create_hand append_action find put
setup_done = refl

filled-Integrity : Integrity filled
unfolding perform create_user create_agent create_agent_version version_taken find put
filled-Integrity = subst Integrity setup_done (
    perform_all-Integrity new_in_memory_repository setup new_in_memory_repository-Integrity
      (tt, (tt, (refl, (tt, (tt, (tt, (tt, (tt, (tt, tt))))))))))

perform-Integrity_example : Integrity (perform filled (upserting_seat (seated_at 2))).0
perform-Integrity_example =
    perform-Integrity filled (upserting_seat (seated_at 2)) filled-Integrity tt

reached-Promised_example :
    Promised
      (view (perform_all new_in_memory_repository setup))
      (upserting_seat (seated_at 2))
      (view (perform (perform_all new_in_memory_repository setup) (upserting_seat (seated_at 2))).0)
      (perform (perform_all new_in_memory_repository setup) (upserting_seat (seated_at 2))).1
reached-Promised_example = reached-Promised setup (upserting_seat (seated_at 2))

filled-OneEach : OneEach filled
filled-OneEach = subst OneEach setup_done (reached-OneEach setup)

list_hands_order_example :
    list_visited_hands (("a", hand_numbered "a" 1) ∷ ("b", hand_numbered "b" 2) ∷ []) "table"
    ≡ list_hands filled "table"
list_hands_order_example =
    list_hands_order filled (("a", hand_numbered "a" 1) ∷ ("b", hand_numbered "b" 2) ∷ []) "table"
      filled-Integrity filled-OneEach.hands (Permᴰ.swap refl refl)

table_seats : find "table" filled.seats ≡ some ((3, seated_at 3) ∷ (1, seated_at 1) ∷ [])
unfolding find
table_seats = refl

list_seats_order_example :
    list_visited_seats ((1, seated_at 1) ∷ (3, seated_at 3) ∷ []) ≡ list_seats filled "table"
list_seats_order_example =
    list_seats_order filled ((1, seated_at 1) ∷ (3, seated_at 3) ∷ [])
      ((3, seated_at 3) ∷ (1, seated_at 1) ∷ []) "table" filled-Integrity table_seats
      (filled-OneEach.seats "table" _ table_seats) (Permᴰ.swap refl refl)

list_actions-perform_all_example :
    list_actions (perform_all filled (appending_action (called_in "a") ∷ [])) "a"
    ≡ list_actions filled "a" ++ logged_all "a" filled (appending_action (called_in "a") ∷ [])
list_actions-perform_all_example =
    list_actions-perform_all filled (appending_action (called_in "a") ∷ []) "a"
