-- ===== src/Persistence/Repository/Integrity/Seats.antt =====
-- The writes that check several references, `CreateAgentVersion` and `UpsertSeat`, and with them
-- every operation.
use Prim.Native.String.{String}
use text.Mathlib.Text.{◌==◌ as same_text}
use text.Mathlib.TextEquality.{eq_iff}
use mathlib.Core.Option.{some-injective}
use poker_arena.Common.{
  ℕ, ◌≡◌, ◌≢◌, ◌∙◌, sym, ap, subst, inl, inr, true, false, none, some, List, [], ◌∷◌, Bool-cases,
  Option-cases, find, put, find-put_other, find-put_cases, number_key, string_key, ==_iff, arith,
}
use poker_arena.Persistence.Records.{AgentVersionRecord, SeatRecord}
use poker_arena.Persistence.Repository.{
  Repository, has, or_empty, version_taken, seat_error, create_agent_version, upsert_seat,
}
use poker_arena.Persistence.Repository.Operations.{
  Operation, perform, perform_all, upserting_table_run, creating_hand, completing_hand,
  appending_action, creating_user, creating_agent, creating_agent_version, creating_table,
  upserting_seat,
}
use poker_arena.Persistence.Repository.Integrity.{
  Integrity, SeatedWell, IsFresh, append_action-Integrity, upsert_table_run-Integrity,
  create_hand-Integrity, complete_hand-Integrity, create_user-Integrity, create_table-Integrity,
  create_agent-Integrity,
}

-- Where no version is taken, none that is found has this agent and number.
pub version_taken-find :
    (agent_id : String) (n : ℕ) (m : List (String × AgentVersionRecord)) (k : String)
    {w : AgentVersionRecord}
    → version_taken agent_id n m ≡ false
    → find k m ≡ some w
    → w.agent_id ≡ agent_id
    → w.version ≢ n
unfolding version_taken find
version_taken-find agent_id n [] k free e same number = cc e
version_taken-find agent_id n ((i, x) ∷ m) k {w} free e same number =
    elim (Bool-cases (same_text i k)) [
      | inl here ↦
          let f : x ≡ w = some-injective _ _ (rw here at e) in
          let a = (eq_iff x.agent_id agent_id).1 (ap (λ z. z.agent_id) f ∙ same) in
          let b = (==_iff x.version n).1 (ap (λ z. z.version) f ∙ number) in
          cc (rw b at (rw a at free))
      | inr later ↦
          version_taken-find agent_id n m k (ground (arith, free)) (rw later at e) same number
    ]

module _ (r : Repository) (v : Integrity r) where
  SeatedWell-put_version :
      (x : AgentVersionRecord) (s : SeatRecord)
      → find x.id r.versions ≡ none
      → SeatedWell r.agents r.versions s
      → SeatedWell r.agents (put x.id x r.versions) s
  SeatedWell-put_version x s fresh c =
      let (w, e, own) = c.version_there in
      record {
        agent_there = c.agent_there;
        version_there = (
          w,
          find-put_other x.id s.agent_version_id x r.versions (λ f. cc (e, fresh, f)) ∙ e,
          own,
        );
      }

  put_version-Integrity :
      (x : AgentVersionRecord)
      → find x.id r.versions ≡ none
      → has (find x.agent_id r.agents) ≡ true
      → version_taken x.agent_id x.version r.versions ≡ false
      → Integrity (record r { versions = put x.id x r.versions })
  put_version-Integrity x fresh owned free = record {
    agents_owned = v.agents_owned;
    versions_owned = λ k w e. elim (find-put_cases x.id k x r.versions e) [
      | inl (same, new) ↦ subst (λ z. has (find z.agent_id r.agents) ≡ true) new owned
      | inr old ↦ v.versions_owned k w old
    ];
    versions_numbered = λ i j a b e f agent number. elim (find-put_cases x.id i x r.versions e) [
      | inl (same, new) ↦ elim (find-put_cases x.id j x r.versions f) [
        | inl (same', new') ↦ sym same ∙ same'
        | inr old ↦ absurd (
            version_taken-find x.agent_id x.version r.versions j free old
              (sym (ap (λ z. z.agent_id) new ∙ agent)) (sym (ap (λ z. z.version) new ∙ number)))
      ]
      | inr old ↦ elim (find-put_cases x.id j x r.versions f) [
        | inl (same', new') ↦ absurd (
            version_taken-find x.agent_id x.version r.versions i free old
              (agent ∙ sym (ap (λ z. z.agent_id) new')) (number ∙ sym (ap (λ z. z.version) new')))
        | inr old' ↦ v.versions_numbered i j a b old old' agent number
      ]
    ];
    actions_of_hands = v.actions_of_hands;
    hands_keyed = v.hands_keyed;
    seats_at_tables = v.seats_at_tables;
    seats_well = λ t m n s e f.
        let (a, b, c) = v.seats_well t m n s e f in (a, b, SeatedWell-put_version x s fresh c);
  }

  create_agent_version-Integrity :
      (x : AgentVersionRecord)
      → find x.id r.versions ≡ none
      → Integrity (create_agent_version r x).0
  unfolding create_agent_version
  create_agent_version-Integrity x fresh = elim (Bool-cases (has (find x.agent_id r.agents))) [
    | inr missing ↦ rw missing v
    | inl there ↦ elim (Bool-cases (version_taken x.agent_id x.version r.versions)) [
      | inl taken ↦ rw there (rw taken v)
      | inr free ↦ rw there (rw free (put_version-Integrity x fresh there free))
    ]
  ]

  -- Where `UpsertSeat` has no error, the table is there and the seat names what is there.
  seat_error-none :
      (x : SeatRecord)
      → seat_error r x ≡ none
      → (has (find x.table_id r.tables) ≡ true) × SeatedWell r.agents r.versions x
  unfolding seat_error
  seat_error-none x e = elim (Bool-cases (has (find x.table_id r.tables))) [
    | inr no_table ↦ absurd (cc (rw no_table at e))
    | inl table ↦ elim (Bool-cases (has (find x.agent_id r.agents))) [
      | inr no_agent ↦ absurd (cc (rw no_agent at (rw table at e)))
      | inl agent ↦ elim (Option-cases (find x.agent_version_id r.versions)) [
        | inl gone ↦ absurd (cc (rw gone at (rw agent at (rw table at e))))
        | inr (w, there) ↦
            let e' = rw there at (rw agent at (rw table at e)) in
            elim (Bool-cases (same_text w.agent_id x.agent_id)) [
              | inl own ↦ (
                table,
                record {
                  agent_there = agent;
                  version_there = (w, there, (eq_iff w.agent_id x.agent_id).0 own);
                },
              )
              | inr foreign ↦ absurd (cc (rw foreign at e'))
            ]
      ]
    ]
  ]

  -- What stands in the map of a table, or in no map.
  or_empty-find :
      (t : String) (n : ℕ) {s : SeatRecord}
      → find n (or_empty (find t r.seats)) ≡ some s
      → (m : List (ℕ × SeatRecord)) × (find t r.seats ≡ some m) × (find n m ≡ some s)
  unfolding find
  or_empty-find t n e = elim (Option-cases (find t r.seats)) [
    | inl nobody ↦ absurd (cc (rw nobody at e))
    | inr (m, there) ↦ (m, there, rw there at e)
  ]

  put_seat-Integrity :
      (x : SeatRecord)
      → has (find x.table_id r.tables) ≡ true
      → SeatedWell r.agents r.versions x
      → Integrity (record r {
        seats = put x.table_id (put x.seat_no x (or_empty (find x.table_id r.seats))) r.seats;
      })
  put_seat-Integrity x table well =
      let seated = put x.seat_no x (or_empty (find x.table_id r.seats)) in
      record {
        agents_owned = v.agents_owned;
        versions_owned = v.versions_owned;
        versions_numbered = v.versions_numbered;
        actions_of_hands = v.actions_of_hands;
        hands_keyed = v.hands_keyed;
        seats_at_tables = λ t m e. elim (find-put_cases x.table_id t seated r.seats e) [
          | inl (same, new) ↦ rw (← same) table
          | inr old ↦ v.seats_at_tables t m old
        ];
        seats_well = λ t m n s e f. elim (find-put_cases x.table_id t seated r.seats e) [
          | inr old ↦ v.seats_well t m n s old f
          | inl (same, new) ↦
              elim (find-put_cases x.seat_no n x (or_empty (find x.table_id r.seats))
                (subst (λ z. find n z ≡ some s) (sym new) f)) [
                  | inl (number, written) ↦ (
                    ap (λ z. z.table_id) (sym written) ∙ same,
                    ap (λ z. z.seat_no) (sym written) ∙ number,
                    subst (SeatedWell r.agents r.versions) written well,
                  )
                  | inr earlier ↦
                      let (m', there, here) = or_empty-find x.table_id n earlier in
                      let (a, b, c) = v.seats_well x.table_id m' n s there here in (a ∙ same, b, c)
                ]
        ];
      }

  upsert_seat-Integrity : (x : SeatRecord) → Integrity (upsert_seat r x).0
  unfolding upsert_seat
  upsert_seat-Integrity x = elim (Option-cases (seat_error r x)) [
    | inr (e, refused) ↦ rw (refused, upsert_seat) v
    | inl fine ↦
        let (table, well) = seat_error-none x fine in
        rw (fine, upsert_seat) (put_seat-Integrity x table well)
  ]

-- Every operation of the repository keeps its references intact, whether it fails or not: each agent
-- has its user, each version its agent and a number of its own with that agent, each list of actions
-- its hand, each table of seats its table, and each seat its agent and a version of this agent; hands
-- and seats stand under their own keys. The id of a new agent version is not in use.
pub perform-Integrity :
    (r : Repository) (op : Operation) → Integrity r → IsFresh r op → Integrity (perform r op).0
unfolding perform
perform-Integrity r (upserting_table_run x) v h = upsert_table_run-Integrity r v x
perform-Integrity r (creating_hand x) v h = create_hand-Integrity r v x
perform-Integrity r (completing_hand id x) v h = complete_hand-Integrity r v id x
perform-Integrity r (appending_action x) v h = append_action-Integrity r v x
perform-Integrity r (creating_user x) v h = create_user-Integrity r v x
perform-Integrity r (creating_agent x) v h = create_agent-Integrity r v x
perform-Integrity r (creating_agent_version x) v h = create_agent_version-Integrity r v x h
perform-Integrity r (creating_table x) v h = create_table-Integrity r v x
perform-Integrity r (upserting_seat x) v h = upsert_seat-Integrity r v x

-- The ids of the agent versions that a sequence creates are not in use.
abbrev pub AllFresh : Repository → List Operation → Type 0
AllFresh r [] = Unit
AllFresh r (op ∷ ops) = IsFresh r op × AllFresh (perform r op).0 ops

pub perform_all-Integrity :
    (r : Repository) (ops : List Operation)
    → Integrity r
    → AllFresh r ops
    → Integrity (perform_all r ops)
unfolding perform_all
perform_all-Integrity r [] v h = v
perform_all-Integrity r (op ∷ ops) v h =
    perform_all-Integrity (perform r op).0 ops (perform-Integrity r op v h.0) h.1
