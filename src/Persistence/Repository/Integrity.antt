-- ===== src/Persistence/Repository/Integrity.antt =====
-- What holds of every repository: references lead to records, and records stand under their keys.
pub mod Seats
use Prim.Native.String.{String}
use text.Mathlib.Text.{◌==◌ as same_text}
use text.Mathlib.TextEquality.{eq_iff}
use poker_arena.Common.{
  ℕ, ◌≡◌, ◌⊎◌, refl, ◌∙◌, sym, ap, subst, inl, inr, Bool, true, false, not, ◌&&◌, Option, none,
  some, List, [], ◌∷◌, ◌++◌, Bool-cases, Option-cases, find, put, find-put, find-put_self,
  find-put_cases, number_key, string_key, Key, ◌==◌, arith,
}
use poker_arena.Persistence.Records.{
  RepositoryError, HandRecord, ActionRecord, TableRunRecord, UserRecord, AgentRecord,
  AgentVersionRecord, TableRecord, SeatRecord,
}
use poker_arena.Persistence.Repository.{
  Repository, new_in_memory_repository, Written, has, or_empty, version_taken, seat_error,
  upsert_table_run, create_hand, complete_hand, append_action, create_user, create_agent,
  create_agent_version, create_table, upsert_seat,
}
use poker_arena.Persistence.Repository.Operations.{
  Operation, perform, perform_all, upserting_table_run, creating_hand, completing_hand,
  appending_action, creating_user, creating_agent, creating_agent_version, creating_table,
  upserting_seat,
}

-- A key that is there stays there.
pub has-put {ℓ κ} :
    {K : Type ℓ} {V : Type κ} ⦃key : Key K⦄ (k j : K) (v : V) (m : List (K × V))
    → has (find j m) ≡ true
    → has (find j (put k v m)) ≡ true
has-put ⦃key⦄ k j v m h = elim (Bool-cases (key.same k j)) [
  | inl e ↦ rw (find-put k j v m) (rw e refl)
  | inr e ↦ rw (find-put k j v m) (rw e h)
]

pub has-put_self {ℓ κ} :
    {K : Type ℓ} {V : Type κ} ⦃key : Key K⦄ (k : K) (v : V) (m : List (K × V))
    → has (find k (put k v m)) ≡ true
has-put_self k v m = rw (find-put_self k v m) refl

-- The agent and the version that a seat names are there, and the version is the agent's.
pub record SeatedWell (agents : List (String × AgentRecord))
    (versions : List (String × AgentVersionRecord)) (s : SeatRecord) : Type 0 where
  pub agent_there : has (find s.agent_id agents) ≡ true
  pub version_there :
      (v : AgentVersionRecord) × (find s.agent_version_id versions ≡ some v)
      × (v.agent_id ≡ s.agent_id)

pub record Integrity (r : Repository) : Type 0 where
  pub agents_owned :
      (k : String) (a : AgentRecord)
      → find k r.agents ≡ some a
      → has (find a.user_id r.users) ≡ true
  pub versions_owned :
      (k : String) (v : AgentVersionRecord)
      → find k r.versions ≡ some v
      → has (find v.agent_id r.agents) ≡ true
  pub versions_numbered :
      (i j : String) (v w : AgentVersionRecord)
      → find i r.versions ≡ some v
      → find j r.versions ≡ some w
      → v.agent_id ≡ w.agent_id
      → v.version ≡ w.version
      → i ≡ j
  pub actions_of_hands :
      (k : String) (xs : List ActionRecord)
      → find k r.actions ≡ some xs
      → has (find k r.hands) ≡ true
  pub hands_keyed : (k : String) (h : HandRecord) → find k r.hands ≡ some h → h.hand_id ≡ k
  pub seats_at_tables :
      (t : String) (m : List (ℕ × SeatRecord))
      → find t r.seats ≡ some m
      → has (find t r.tables) ≡ true
  pub seats_well :
      (t : String) (m : List (ℕ × SeatRecord)) (n : ℕ) (s : SeatRecord)
      → find t r.seats ≡ some m
      → find n m ≡ some s
      → (s.table_id ≡ t) × (s.seat_no ≡ n) × SeatedWell r.agents r.versions s

-- The id of a new agent version is not in use.
abbrev pub IsFresh : Repository → Operation → Type 0
IsFresh r (creating_agent_version x) = find x.id r.versions ≡ none
IsFresh r _ = Unit

pub new_in_memory_repository-Integrity : Integrity new_in_memory_repository
unfolding find
new_in_memory_repository-Integrity = record {
  agents_owned = λ k a e. absurd (cc e);
  versions_owned = λ k v e. absurd (cc e);
  versions_numbered = λ i j v w e. absurd (cc e);
  actions_of_hands = λ k xs e. absurd (cc e);
  hands_keyed = λ k h e. absurd (cc e);
  seats_at_tables = λ t m e. absurd (cc e);
  seats_well = λ t m n s e. absurd (cc e);
}

module _ (r : Repository) (v : Integrity r) where
  pub put_hand-Integrity :
      (x : HandRecord) → Integrity (record r { hands = put x.hand_id x r.hands })
  put_hand-Integrity x = record {
    agents_owned = v.agents_owned;
    versions_owned = v.versions_owned;
    versions_numbered = v.versions_numbered;
    actions_of_hands = λ k xs e. has-put x.hand_id k x r.hands (v.actions_of_hands k xs e);
    hands_keyed = λ k h e. elim (find-put_cases x.hand_id k x r.hands e) [
      | inl (same, new) ↦ ap (λ z. z.hand_id) (sym new) ∙ same
      | inr old ↦ v.hands_keyed k h old
    ];
    seats_at_tables = v.seats_at_tables;
    seats_well = v.seats_well;
  }

  pub append_action-Integrity : (x : ActionRecord) → Integrity (append_action r x).0
  unfolding append_action
  append_action-Integrity x = elim (Bool-cases (has (find x.hand_id r.hands))) [
    | inr missing ↦ rw missing v
    | inl there ↦ rw there (record {
      agents_owned = v.agents_owned;
      versions_owned = v.versions_owned;
      versions_numbered = v.versions_numbered;
      actions_of_hands = λ k xs e.
          elim (find-put_cases x.hand_id k (or_empty (find x.hand_id r.actions) ++ x ∷ []) r.actions
            e) [ inl (same, new) ↦ rw (← same) there | inr old ↦ v.actions_of_hands k xs old ];
      hands_keyed = v.hands_keyed;
      seats_at_tables = v.seats_at_tables;
      seats_well = v.seats_well;
    })
  ]

  pub upsert_table_run-Integrity : (x : TableRunRecord) → Integrity (upsert_table_run r x).0
  unfolding upsert_table_run
  upsert_table_run-Integrity x = record {
    agents_owned = v.agents_owned;
    versions_owned = v.versions_owned;
    versions_numbered = v.versions_numbered;
    actions_of_hands = v.actions_of_hands;
    hands_keyed = v.hands_keyed;
    seats_at_tables = v.seats_at_tables;
    seats_well = v.seats_well;
  }

  pub create_hand-Integrity : (x : HandRecord) → Integrity (create_hand r x).0
  unfolding create_hand
  create_hand-Integrity x = elim (Bool-cases (has (find x.hand_id r.hands))) [
    | inl there ↦ rw there v
    | inr missing ↦ rw missing (put_hand-Integrity x)
  ]

  pub complete_hand-Integrity : (id : String) (x : HandRecord) → Integrity (complete_hand r id x).0
  unfolding complete_hand
  complete_hand-Integrity id x = elim (Bool-cases (has (find id r.hands))) [
    | inl there ↦ rw there (put_hand-Integrity (record x { hand_id = id }))
    | inr missing ↦ rw missing v
  ]

  pub create_user-Integrity : (x : UserRecord) → Integrity (create_user r x).0
  unfolding create_user
  create_user-Integrity x = record {
    agents_owned = λ k a e. has-put x.id a.user_id x r.users (v.agents_owned k a e);
    versions_owned = v.versions_owned;
    versions_numbered = v.versions_numbered;
    actions_of_hands = v.actions_of_hands;
    hands_keyed = v.hands_keyed;
    seats_at_tables = v.seats_at_tables;
    seats_well = v.seats_well;
  }

  pub create_table-Integrity : (x : TableRecord) → Integrity (create_table r x).0
  unfolding create_table
  create_table-Integrity x = record {
    agents_owned = v.agents_owned;
    versions_owned = v.versions_owned;
    versions_numbered = v.versions_numbered;
    actions_of_hands = v.actions_of_hands;
    hands_keyed = v.hands_keyed;
    seats_at_tables = λ t m e. has-put x.id t x r.tables (v.seats_at_tables t m e);
    seats_well = v.seats_well;
  }

  pub put_agent-Integrity :
      (x : AgentRecord)
      → has (find x.user_id r.users) ≡ true
      → Integrity (record r { agents = put x.id x r.agents })
  put_agent-Integrity x owned = record {
    agents_owned = λ k a e. elim (find-put_cases x.id k x r.agents e) [
      | inl (same, new) ↦ subst (λ z. has (find z.user_id r.users) ≡ true) new owned
      | inr old ↦ v.agents_owned k a old
    ];
    versions_owned = λ k w e. has-put x.id w.agent_id x r.agents (v.versions_owned k w e);
    versions_numbered = v.versions_numbered;
    actions_of_hands = v.actions_of_hands;
    hands_keyed = v.hands_keyed;
    seats_at_tables = v.seats_at_tables;
    seats_well = λ t m n s e f.
        let (a, b, c) = v.seats_well t m n s e f in
        (
          a,
          b,
          record {
            agent_there = has-put x.id s.agent_id x r.agents c.agent_there;
            version_there = c.version_there;
          },
        );
  }

  pub create_agent-Integrity : (x : AgentRecord) → Integrity (create_agent r x).0
  unfolding create_agent
  create_agent-Integrity x = elim (Bool-cases (has (find x.user_id r.users))) [
    | inl there ↦ rw there (put_agent-Integrity x there)
    | inr missing ↦ rw missing v
  ]
