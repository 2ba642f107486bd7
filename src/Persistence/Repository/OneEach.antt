-- ===== src/Persistence/Repository/OneEach.antt =====
-- No map of the repository has two entries for one key.
use Prim.Native.String.{String}
use poker_arena.Common.{
  ℕ, ◌≡◌, subst, inl, inr, some, List, [], ◌∷◌, Bool-cases, Option-cases, find, put, find-put_cases,
  Keyed, put-Keyed, number_key, string_key,
}
use poker_arena.Persistence.Records.{
  HandRecord, ActionRecord, AgentRecord, AgentVersionRecord, SeatRecord,
}
use poker_arena.Persistence.Repository.{
  Repository, new_in_memory_repository, has, or_empty, version_taken, seat_error, upsert_table_run,
  create_hand, complete_hand, append_action, create_user, create_agent, create_agent_version,
  create_table, upsert_seat,
}
use poker_arena.Persistence.Repository.Operations.{
  Operation, perform, perform_all, upserting_table_run, creating_hand, completing_hand,
  appending_action, creating_user, creating_agent, creating_agent_version, creating_table,
  upserting_seat,
}

pub record OneEach (r : Repository) : Type 0 where
  pub hands : Keyed r.hands
  pub versions : Keyed r.versions
  pub seats : (t : String) (m : List (ℕ × SeatRecord)) → find t r.seats ≡ some m → Keyed m

pub new_in_memory_repository-OneEach : OneEach new_in_memory_repository
unfolding find
new_in_memory_repository-OneEach = record {
  hands = tt;
  versions = tt;
  seats = λ t m e. absurd (cc e);
}

module _ (r : Repository) (o : OneEach r) where
  put_hand-OneEach : (k : String) (x : HandRecord) → OneEach (record r { hands = put k x r.hands })
  put_hand-OneEach k x = record {
    hands = put-Keyed k x r.hands o.hands;
    versions = o.versions;
    seats = o.seats;
  }

  seats-Keyed : (t : String) → Keyed (or_empty (find t r.seats))
  seats-Keyed t = elim (Option-cases (find t r.seats)) [
    | inl nobody ↦ rw nobody tt
    | inr (m, there) ↦ rw there (o.seats t m there)
  ]

  put_seat-OneEach :
      (x : SeatRecord)
      → OneEach (record r {
        seats = put x.table_id (put x.seat_no x (or_empty (find x.table_id r.seats))) r.seats;
      })
  put_seat-OneEach x =
      let seated = put x.seat_no x (or_empty (find x.table_id r.seats)) in
      record {
        hands = o.hands;
        versions = o.versions;
        seats = λ t m e. elim (find-put_cases x.table_id t seated r.seats e) [
          | inl (same, new) ↦
              subst Keyed new (
                put-Keyed x.seat_no x (or_empty (find x.table_id r.seats)) (seats-Keyed x.table_id))
          | inr old ↦ o.seats t m old
        ];
      }

  create_hand-OneEach : (x : HandRecord) → OneEach (create_hand r x).0
  unfolding create_hand
  create_hand-OneEach x = elim (Bool-cases (has (find x.hand_id r.hands))) [
    | inl there ↦ rw there o
    | inr fresh ↦ rw fresh (put_hand-OneEach x.hand_id x)
  ]

  complete_hand-OneEach : (k : String) (x : HandRecord) → OneEach (complete_hand r k x).0
  unfolding complete_hand
  complete_hand-OneEach k x = elim (Bool-cases (has (find k r.hands))) [
    | inl there ↦ rw there (put_hand-OneEach k (record x { hand_id = k }))
    | inr missing ↦ rw missing o
  ]

  append_action-OneEach : (x : ActionRecord) → OneEach (append_action r x).0
  unfolding append_action
  append_action-OneEach x = elim (Bool-cases (has (find x.hand_id r.hands))) [
    | inl there ↦ rw there (record { hands = o.hands; versions = o.versions; seats = o.seats })
    | inr missing ↦ rw missing o
  ]

  create_agent-OneEach : (x : AgentRecord) → OneEach (create_agent r x).0
  unfolding create_agent
  create_agent-OneEach x = elim (Bool-cases (has (find x.user_id r.users))) [
    | inl there ↦ rw there (record { hands = o.hands; versions = o.versions; seats = o.seats })
    | inr missing ↦ rw missing o
  ]

  create_agent_version-OneEach : (x : AgentVersionRecord) → OneEach (create_agent_version r x).0
  unfolding create_agent_version
  create_agent_version-OneEach x = elim (Bool-cases (has (find x.agent_id r.agents))) [
    | inr missing ↦ rw missing o
    | inl there ↦ elim (Bool-cases (version_taken x.agent_id x.version r.versions)) [
      | inl taken ↦ rw there (rw taken o)
      | inr free ↦ rw there (
          rw free (record {
            hands = o.hands;
            versions = put-Keyed x.id x r.versions o.versions;
            seats = o.seats;
          }))
    ]
  ]

  upsert_seat-OneEach : (x : SeatRecord) → OneEach (upsert_seat r x).0
  unfolding upsert_seat
  upsert_seat-OneEach x = elim (Option-cases (seat_error r x)) [
    | inl fine ↦ rw (fine, upsert_seat) (put_seat-OneEach x)
    | inr (e, refused) ↦ rw (refused, upsert_seat) o
  ]

-- Every operation keeps one entry for each key.
pub perform-OneEach : (r : Repository) (op : Operation) → OneEach r → OneEach (perform r op).0
unfolding perform upsert_table_run create_user create_table
perform-OneEach r (upserting_table_run x) o = record {
  hands = o.hands;
  versions = o.versions;
  seats = o.seats;
}
perform-OneEach r (creating_hand x) o = create_hand-OneEach r o x
perform-OneEach r (completing_hand k x) o = complete_hand-OneEach r o k x
perform-OneEach r (appending_action x) o = append_action-OneEach r o x
perform-OneEach r (creating_user x) o = record {
  hands = o.hands;
  versions = o.versions;
  seats = o.seats;
}
perform-OneEach r (creating_agent x) o = create_agent-OneEach r o x
perform-OneEach r (creating_agent_version x) o = create_agent_version-OneEach r o x
perform-OneEach r (creating_table x) o = record {
  hands = o.hands;
  versions = o.versions;
  seats = o.seats;
}
perform-OneEach r (upserting_seat x) o = upsert_seat-OneEach r o x

perform_all-OneEach :
    (r : Repository) (ops : List Operation) → OneEach r → OneEach (perform_all r ops)
unfolding perform_all
perform_all-OneEach r [] o = o
perform_all-OneEach r (op ∷ ops) o =
    perform_all-OneEach (perform r op).0 ops (perform-OneEach r op o)

-- The repository that operations make of a new one has one entry for each key.
pub reached-OneEach : (ops : List Operation) → OneEach (perform_all new_in_memory_repository ops)
reached-OneEach ops =
    perform_all-OneEach new_in_memory_repository ops new_in_memory_repository-OneEach
