-- ===== src/Persistence/Repository/Log.antt =====
-- What `ListActions` answers after any sequence of operations.
use Prim.Native.String.{String}
use text.Mathlib.Text.{◌==◌ as same_text}
use mathlib.Core.List.{append-nil, append_assoc}
use poker_arena.Common.{
  ◌≡◌, ◌∙◌, sym, ap, inl, inr, Option, none, some, List, [], ◌∷◌, ◌++◌, Bool-cases, find, find-put,
  number_key, string_key, if◌then◌else◌, arith,
}
use poker_arena.Persistence.Records.{RepositoryError, ActionRecord}
use poker_arena.Persistence.Repository.{
  Repository, has, or_empty, list_actions, append_action, upsert_table_run, create_hand,
  complete_hand, create_user, create_agent, create_agent_version, create_table, upsert_seat,
}
use poker_arena.Persistence.Repository.Operations.{
  Operation, perform, perform_all, upserting_table_run, creating_hand, completing_hand,
  appending_action, creating_user, creating_agent, creating_agent_version, creating_table,
  upserting_seat,
}

-- The action that an operation with this error appended to the hand, if any.
abbrev pub logged : String → Operation → Option RepositoryError → List ActionRecord
logged id (appending_action x) none = if same_text x.hand_id id then x ∷ [] else []
logged id (appending_action x) (some e) = []
logged id op e = []

-- The actions that a sequence of operations appended to the hand, without those that failed.
pub logged_all : String → Repository → List Operation → List ActionRecord
logged_all id r [] = []
logged_all id r (op ∷ ops) = logged id op (perform r op).1 ++ logged_all id (perform r op).0 ops

append_action-logged :
    (r : Repository) (x : ActionRecord) (id : String)
    → list_actions (append_action r x).0 id
      ≡ list_actions r id ++ logged id (appending_action x) (append_action r x).1
unfolding append_action list_actions
append_action-logged r x id = elim (Bool-cases (has (find x.hand_id r.hands))) [
  | inr missing ↦ rw missing (sym (append-nil (or_empty (find id r.actions))))
  | inl there ↦ elim (Bool-cases (string_key.same x.hand_id id)) [
    | inl same ↦
        let k = (string_key.same_iff x.hand_id id).0 same in
        rw (there, find-put x.hand_id id (or_empty (find x.hand_id r.actions) ++ x ∷ []) r.actions)
          (rw same (ap (λ z. or_empty (find z r.actions) ++ x ∷ []) k))
    | inr other ↦
        rw (there, find-put x.hand_id id (or_empty (find x.hand_id r.actions) ++ x ∷ []) r.actions)
          (rw other (sym (append-nil (or_empty (find id r.actions)))))
  ]
]

perform-logged :
    (r : Repository) (op : Operation) (id : String)
    → list_actions (perform r op).0 id ≡ list_actions r id ++ logged id op (perform r op).1
unfolding perform list_actions upsert_table_run create_hand complete_hand create_user create_agent
    create_agent_version create_table upsert_seat
perform-logged r (appending_action x) id = append_action-logged r x id
perform-logged r (upserting_table_run x) id = sym (append-nil _)
perform-logged r (creating_hand x) id = ground (arith, append-nil (or_empty (find id r.actions)))
perform-logged r (completing_hand k x) id =
    ground (arith, append-nil (or_empty (find id r.actions)))
perform-logged r (creating_user x) id = sym (append-nil _)
perform-logged r (creating_agent x) id = ground (arith, append-nil (or_empty (find id r.actions)))
perform-logged r (creating_agent_version x) id =
    ground (arith, append-nil (or_empty (find id r.actions)))
perform-logged r (creating_table x) id = sym (append-nil _)
perform-logged r (upserting_seat x) id = ground (arith, append-nil (or_empty (find id r.actions)))

-- After any sequence of operations, those that failed included, a hand's list of actions is what it
-- was, then every action that was appended to the hand without an error, in their order.
pub list_actions-perform_all :
    (r : Repository) (ops : List Operation) (id : String)
    → list_actions (perform_all r ops) id ≡ list_actions r id ++ logged_all id r ops
unfolding perform_all logged_all
list_actions-perform_all r [] id = sym (append-nil (list_actions r id))
list_actions-perform_all r (op ∷ ops) id =
    list_actions-perform_all (perform r op).0 ops id
    ∙ ap (λ xs. xs ++ logged_all id (perform r op).0 ops) (perform-logged r op id)
    ∙ append_assoc (list_actions r id) (logged id op (perform r op).1)
        (logged_all id (perform r op).0 ops)
