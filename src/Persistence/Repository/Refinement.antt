-- ===== src/Persistence/Repository/Refinement.antt =====
-- The repository keeps what it promises.
use Prim.Native.String.{String}
use text.Mathlib.Text.{◌==◌ as same_text}
use text.Mathlib.TextEquality.{eq_iff}
use mathlib.Core.Path.{fun_ext}
use poker_arena.Common.{
  ℕ, ◌≡◌, refl, sym, ap, subst, inl, inr, true, false, ◌&&◌, Option, none, some, List, [], ◌∷◌,
  ◌++◌, All, Bool-cases, Option-cases, Key, Keyed, Keyed-find, find, put, find-put, number_key,
  string_key, ◌==◌, ==_iff, &&-split,
}
use poker_arena.Persistence.Records.{
  RepositoryError, AgentRecord, AgentVersionRecord, SeatRecord, HandRecord, ActionRecord,
}
use poker_arena.Persistence.Repository.{
  Repository, new_in_memory_repository, Written, has, or_empty, version_taken, seat_error,
  upsert_table_run, create_hand, complete_hand, append_action, create_user, create_agent,
  create_agent_version, create_table, upsert_seat,
}
use poker_arena.Persistence.Repository.Operations.{
  Operation, perform, perform_all, upserting_table_run, creating_hand, completing_hand,
  appending_action, creating_user, creating_agent, creating_agent_version, creating_table,
  upserting_seat,
}
use poker_arena.Persistence.Repository.View.{View, view, changed, Promised}
use poker_arena.Persistence.Repository.Integrity.Seats.{version_taken-find}
use poker_arena.Persistence.Repository.OneEach.{reached-OneEach}

find-changed {ℓ κ} :
    {K : Type ℓ} {V : Type κ} ⦃key : Key K⦄ (k : K) (v : V) (m : List (K × V))
    → (λ j. find j (put k v m)) ≡ changed k (some v) (λ j. find j m)
find-changed k v m = fun_ext (λ j. find-put k j v m)

has-some {ℓ} : {A : Type ℓ} (o : Option A) → has o ≡ true → (a : A) × (o ≡ some a)
has-some none h = absurd (cc h)
has-some (some a) h = (a, refl)

has-none {ℓ} : {A : Type ℓ} (o : Option A) → has o ≡ false → o ≡ none
has-none none h = refl
has-none (some a) h = absurd (cc h)

-- The outcome of an operation is one that was promised.
abbrev Keeps : Repository → Operation → Written → Type 0
Keeps r op out = Promised (view r) op (view out.0) out.1

module _ (r : Repository) where
  keeps :
      (op : Operation) (s : Repository) {v : View} {e : Option RepositoryError}
      → v ≡ view s
      → Promised (view r) op v e
      → Keeps r op (s, e)
  keeps op s {v} {e} same p = subst (λ w. Promised (view r) op w e) same p

  create_hand-Promised : (x : HandRecord) → Keeps r (creating_hand x) (create_hand r x)
  unfolding create_hand
  create_hand-Promised x = elim (Bool-cases (has (find x.hand_id r.hands))) [
    | inl there ↦ rw there (Promised.hand_exists (has-some (find x.hand_id r.hands) there).1)
    | inr fresh ↦ rw fresh (
        keeps (creating_hand x) (record r { hands = put x.hand_id x r.hands })
          (ap (λ f. record (view r) { hand = f }) (sym (find-changed x.hand_id x r.hands)))
          (Promised.hand_created (has-none (find x.hand_id r.hands) fresh)))
  ]

  complete_hand-Promised :
      (id : String) (x : HandRecord) → Keeps r (completing_hand id x) (complete_hand r id x)
  unfolding complete_hand
  complete_hand-Promised id x = elim (Bool-cases (has (find id r.hands))) [
    | inl there ↦ rw there (
        keeps (completing_hand id x)
          (record r { hands = put id (record x { hand_id = id }) r.hands })
          (ap (λ f. record (view r) { hand = f })
            (sym (find-changed id (record x { hand_id = id }) r.hands)))
          (Promised.hand_completed (has-some (find id r.hands) there).1))
    | inr missing ↦ rw missing (Promised.nothing_to_complete (has-none (find id r.hands) missing))
  ]

  -- An appended action is the last one of its hand.
  appended :
      (id : String) (xs : List ActionRecord)
      → (λ k. or_empty (find k (put id xs r.actions)))
        ≡ changed id xs (λ k. or_empty (find k r.actions))
  appended id xs = fun_ext (λ k. elim (Bool-cases (string_key.same id k)) [
    | inl hit ↦ rw (find-put id k xs r.actions) (rw hit refl)
    | inr miss ↦ rw (find-put id k xs r.actions) (rw miss refl)
  ])

  append_action-Promised : (x : ActionRecord) → Keeps r (appending_action x) (append_action r x)
  unfolding append_action
  append_action-Promised x = elim (Bool-cases (has (find x.hand_id r.hands))) [
    | inl there ↦
        let xs = or_empty (find x.hand_id r.actions) ++ x ∷ [] in
        rw there (
          keeps (appending_action x) (record r { actions = put x.hand_id xs r.actions })
            (ap (λ f. record (view r) { actions = f }) (sym (appended x.hand_id xs)))
            (Promised.action_appended (has-some (find x.hand_id r.hands) there).1))
    | inr missing ↦
        rw missing (Promised.nothing_to_append_to (has-none (find x.hand_id r.hands) missing))
  ]

  create_agent-Promised : (x : AgentRecord) → Keeps r (creating_agent x) (create_agent r x)
  unfolding create_agent
  create_agent-Promised x = elim (Bool-cases (has (find x.user_id r.users))) [
    | inl there ↦ rw there (
        keeps (creating_agent x) (record r { agents = put x.id x r.agents })
          (ap (λ f. record (view r) { agent = f }) (sym (find-changed x.id x r.agents)))
          (Promised.agent_created (has-some (find x.user_id r.users) there).1))
    | inr missing ↦ rw missing (Promised.agent_unowned (has-none (find x.user_id r.users) missing))
  ]

  -- A version that is taken is in the map.
  taken-entry :
      (agent_id : String) (n : ℕ) (m : List (String × AgentVersionRecord))
      → All (λ e. find e.0 r.versions ≡ some e.1) m
      → version_taken agent_id n m ≡ true
      → (k : String) × (w : AgentVersionRecord) × (find k r.versions ≡ some w)
        × (w.agent_id ≡ agent_id)
        × (w.version ≡ n)
  unfolding version_taken
  taken-entry agent_id n [] stored taken = absurd (cc taken)
  taken-entry agent_id n ((k, w) ∷ m) stored taken =
      elim (Bool-cases (same_text w.agent_id agent_id && w.version == n)) [
        | inl here ↦
            let (a, b) = &&-split (same_text w.agent_id agent_id) (w.version == n) here in
            (k, w, stored.0, (eq_iff w.agent_id agent_id).0 a, (==_iff w.version n).0 b)
        | inr later ↦ taken-entry agent_id n m stored.1 (rw later at taken)
      ]

  create_agent_version-Promised :
      (x : AgentVersionRecord)
      → Keyed r.versions
      → Keeps r (creating_agent_version x) (create_agent_version r x)
  unfolding create_agent_version
  create_agent_version-Promised x keyed = elim (Bool-cases (has (find x.agent_id r.agents))) [
    | inr missing ↦
        rw missing (Promised.version_unowned (has-none (find x.agent_id r.agents) missing))
    | inl there ↦
        let (a, owner) = has-some (find x.agent_id r.agents) there in
        elim (Bool-cases (version_taken x.agent_id x.version r.versions)) [
          | inl taken ↦
              let (k, w, stored, same, number) =
                taken-entry x.agent_id x.version r.versions (Keyed-find r.versions keyed) taken in
              rw there (rw taken (Promised.version_exists k owner stored same number))
          | inr free ↦ rw there (
              rw free (
                keeps (creating_agent_version x) (record r { versions = put x.id x r.versions })
                  (ap (λ f. record (view r) { version = f }) (sym (find-changed x.id x r.versions)))
                  (Promised.version_created owner (λ k w e same.
                    version_taken-find x.agent_id x.version r.versions k free e same))))
        ]
  ]

  -- One seat of one table is written.
  seated :
      (t : String) (n : ℕ) (x : SeatRecord)
      → (λ u m. find m (or_empty (find u (put t (put n x (or_empty (find t r.seats))) r.seats))))
        ≡ changed t
            (changed n (some x) (λ m. find m (or_empty (find t r.seats))))
            (λ u m. find m (or_empty (find u r.seats)))
  seated t n x =
      let here = put n x (or_empty (find t r.seats)) in
      fun_ext (λ u. elim (Bool-cases (string_key.same t u)) [
        | inl hit ↦
            rw (find-put t u here r.seats) (rw hit (find-changed n x (or_empty (find t r.seats))))
        | inr miss ↦ rw (find-put t u here r.seats) (rw miss refl)
      ])

  upsert_seat-Promised : (x : SeatRecord) → Keeps r (upserting_seat x) (upsert_seat r x)
  unfolding upsert_seat seat_error
  upsert_seat-Promised x = elim (Bool-cases (has (find x.table_id r.tables))) [
    | inr gone ↦
        rw (gone, upsert_seat) (Promised.no_table (has-none (find x.table_id r.tables) gone))
    | inl open_table ↦
        let (t, table) = has-some (find x.table_id r.tables) open_table in
        elim (Bool-cases (has (find x.agent_id r.agents))) [
          | inr gone ↦
              rw (open_table, upsert_seat)
                (rw gone (Promised.no_agent table (has-none (find x.agent_id r.agents) gone)))
          | inl known ↦
              let (a, agent) = has-some (find x.agent_id r.agents) known in
              elim (Option-cases (find x.agent_version_id r.versions)) [
                | inl gone ↦
                    rw (open_table, upsert_seat)
                      (rw known (rw (gone, upsert_seat) (Promised.no_version table agent gone)))
                | inr (w, there) ↦ elim (Bool-cases (same_text w.agent_id x.agent_id)) [
                  | inr foreign ↦
                      rw (open_table, upsert_seat)
                        (rw known (
                          rw (there, upsert_seat)
                            (rw foreign (
                              Promised.foreign_version table agent there
                                (λ e. cc (foreign, (eq_iff w.agent_id x.agent_id).1 e))))))
                  | inl own ↦
                      rw (open_table, upsert_seat)
                        (rw known (
                          rw (there, upsert_seat)
                            (rw own (
                              keeps (upserting_seat x)
                                (record r {
                                  seats =
                                      put x.table_id
                                        (put x.seat_no x (or_empty (find x.table_id r.seats)))
                                        r.seats;
                                })
                                (ap (λ f. record (view r) { seat = f })
                                  (sym (seated x.table_id x.seat_no x)))
                                (Promised.seat_taken table agent there
                                  ((eq_iff w.agent_id x.agent_id).0 own))))))
                ]
              ]
        ]
  ]

-- What each operation does to the functions, and its error, is what was promised.
perform-Promised :
    (r : Repository) (op : Operation)
    → Keyed r.versions
    → Promised (view r) op (view (perform r op).0) (perform r op).1
unfolding perform upsert_table_run create_user create_table
perform-Promised r (upserting_table_run x) keyed =
    keeps r (upserting_table_run x) (record r { table_runs = put x.table_id x r.table_runs })
      (ap (λ f. record (view r) { table_run = f }) (sym (find-changed x.table_id x r.table_runs)))
      Promised.run_upserted
perform-Promised r (creating_hand x) keyed = create_hand-Promised r x
perform-Promised r (completing_hand id x) keyed = complete_hand-Promised r id x
perform-Promised r (appending_action x) keyed = append_action-Promised r x
perform-Promised r (creating_user x) keyed =
    keeps r (creating_user x) (record r { users = put x.id x r.users })
      (ap (λ f. record (view r) { user = f }) (sym (find-changed x.id x r.users)))
      Promised.user_created
perform-Promised r (creating_agent x) keyed = create_agent-Promised r x
perform-Promised r (creating_agent_version x) keyed = create_agent_version-Promised r x keyed
perform-Promised r (creating_table x) keyed =
    keeps r (creating_table x) (record r { tables = put x.id x r.tables })
      (ap (λ f. record (view r) { table = f }) (sym (find-changed x.id x r.tables)))
      Promised.table_created
perform-Promised r (upserting_seat x) keyed = upsert_seat-Promised r x

-- The repository is a refinement of functions from keys to records: after any operations on a new
-- repository, the next operation changes the functions as promised, at one key and no other, or fails
-- with the promised error and changes nothing.
pub reached-Promised :
    (ops : List Operation) (op : Operation)
    → let r = perform_all new_in_memory_repository ops in
      Promised (view r) op (view (perform r op).0) (perform r op).1
reached-Promised ops op =
    perform-Promised (perform_all new_in_memory_repository ops) op (reached-OneEach ops).versions
