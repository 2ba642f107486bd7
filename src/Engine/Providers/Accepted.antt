-- ===== src/Engine/Providers/Accepted.antt =====
-- What the providers of the engine command answer, against the rules of `ApplyAction`.
use poker_arena.Common.{
  ℕ, zero, suc, ◌<◌, ◌≡◌, ◌↔◌, refl, ◌∙◌, inl, inr, Bool, true, Option, none, some, Option-cases,
  Bool-cases, List, [], ◌∷◌, get_elem?, first_index, first_where, map-eq_some, ap, ltb, ltb→lt,
  arith, ◌==◌,
}
use poker_arena.Domain.{
  ok, SeatState, HandState, betting, Action, ActionKind, fold, check, call, bet, raise,
}
use poker_arena.Domain.{new_action}
use poker_arena.Domain.Results.{ok-injective}
use poker_arena.StateMachine.Seats.{seat_index, is_eligible_to_act}
use poker_arena.StateMachine.Action.{acting, apply_action}
use poker_arena.StateMachine.Action.Legal.{Legal}
use poker_arena.StateMachine.Action.Valid.{IsValid}
use poker_arena.StateMachine.Action.Apply.{apply_action-ok_iff, apply_action-IsValid}
use poker_arena.Engine.Providers.{
  acting_seat_of, deterministic_action, validate_kind, validate_raise, validate_human_action, owed,
  is_action_allowed_for_prompt,
}

first_where-index :
    {A : Type 0} (p : A → Bool) (xs : List A) (i : ℕ) {x : A}
    → first_index p xs ≡ some i
    → get_elem? xs i ≡ some x
    → first_where p xs ≡ some x
first_where-index p [] i e here = absurd (cc e)
first_where-index p (y ∷ xs) zero e here = elim (Bool-cases (p y)) [
  | inl hit ↦ rw hit here
  | inr miss ↦
      let (k, found, same) = map-eq_some suc (first_index p xs) (rw miss at e) in
      absurd (omega (arith, same))
]
first_where-index p (y ∷ xs) (suc i) e here = elim (Bool-cases (p y)) [
  | inl hit ↦ absurd (cc (rw hit at e))
  | inr miss ↦
      let (k, found, same) = map-eq_some suc (first_index p xs) (rw miss at e) in
      let same' : k ≡ i = omega (arith, same) in
      rw miss (first_where-index p xs i (rw same' at found) here)
]

-- The acting seat of `ApplyAction` is the one that the providers find.
pub acting-acting_seat_of :
    (s : HandState) (i : ℕ) (x : SeatState) → acting s ≡ ok (i, x) → acting_seat_of s ≡ some x
unfolding acting acting_seat_of seat_index
acting-acting_seat_of s i x e =
    let p : SeatState → Bool = λ y. y.seat_no == s.acting_seat in
    elim (Option-cases (seat_index s.seats s.acting_seat)) [
      | inl missing ↦ absurd (cc (rw (missing, acting) at e))
      | inr (j, at) ↦ elim (Option-cases (get_elem? s.seats j)) [
        | inl gone ↦ absurd (cc (rw (gone, acting) at (rw (at, acting) at e)))
        | inr (y, here) ↦
            let e' = rw (here, acting) at (rw (at, acting) at e) in
            elim (Bool-cases (is_eligible_to_act y)) [
              | inl plays ↦
                  let same = ap (λ q. q.1) (ok-injective (rw plays at e')) in
                  first_where-index p s.seats j at here ∙ ap some same
              | inr out ↦ absurd (cc (rw out at e'))
            ]
      ]
    ]

validate_kind-Legal :
    (s : HandState) (x : SeatState) (kind : ActionKind) (amount : Option ℕ)
    → s.current_bet < s.min_raise_to
    → (validate_kind s x kind amount ≡ none) ↔ Legal s x kind amount
unfolding validate_kind validate_raise
validate_kind-Legal s x fold amount h = (λ e. tt, λ l. refl)
validate_kind-Legal s x check amount h = (λ e. ground arith, λ l. ground arith)
validate_kind-Legal s x call amount h = (λ e. ground arith, λ l. ground arith)
validate_kind-Legal s x bet none h = (λ e. ground arith, λ l. ground arith)
validate_kind-Legal s x bet (some n) h = (λ e. ground arith, λ l. ground arith)
validate_kind-Legal s x raise none h = (λ e. ground arith, λ l. ground arith)
validate_kind-Legal s x raise (some n) h = (λ e. ground arith, λ l. ground arith)
validate_kind-Legal s x (ActionKind.other name) amount h = (λ e. ground arith, λ l. ground arith)

-- In the betting phase of a valid hand, where the least raise is above the current bet, the check of
-- what a player at the prompt asks for passes exactly the actions that `ApplyAction` accepts.
pub validate_human_action-ok_iff :
    (s : HandState) (a : Action) (i : ℕ) (x : SeatState)
    → IsValid s
    → s.phase ≡ betting
    → acting s ≡ ok (i, x)
    → s.current_bet < s.min_raise_to
    → (validate_human_action s a ≡ none) ↔ ((t : HandState) × (apply_action s a ≡ ok t))
unfolding validate_human_action
validate_human_action-ok_iff s a i x v phase turn above =
    let legal = validate_kind-Legal s x a.kind a.amount above in
    let applied = apply_action-ok_iff s a i x v phase turn in
    rw (acting-acting_seat_of s i x turn, validate_human_action)
      ((λ e. applied.1 (legal.0 e)), (λ t. legal.1 (applied.0 t)))

pub deterministic_action_accepted :
    (s : HandState) (i : ℕ) (x : SeatState)
    → IsValid s
    → s.phase ≡ betting
    → acting s ≡ ok (i, x)
    → (a : Action) × (t : HandState) × (deterministic_action s ≡ ok a)
      × (apply_action s a ≡ ok t)
      × IsValid t
unfolding deterministic_action new_action
deterministic_action_accepted s i x v phase turn =
    elim (Bool-cases (ltb x.committed_in_round s.current_bet)) [
      | inl owes ↦
          let a : Action = record { kind = call; amount = none } in
          let (t, played) = (apply_action-ok_iff s a i x v phase turn).1 (ltb→lt _ _ owes) in
          (
            a,
            t,
            rw (acting-acting_seat_of s i x turn, deterministic_action) (rw owes refl),
            played,
            apply_action-IsValid s a v played,
          )
      | inr free ↦
          let a : Action = record { kind = check; amount = none } in
          let (t, played) = (apply_action-ok_iff s a i x v phase turn).1 (ground (arith, free)) in
          (
            a,
            t,
            rw (acting-acting_seat_of s i x turn, deterministic_action) (rw free refl),
            played,
            apply_action-IsValid s a v played,
          )
    ]

Legal-allowed :
    (s : HandState) (x : SeatState) (kind : ActionKind) (amount : Option ℕ)
    → Legal s x kind amount
    → is_action_allowed_for_prompt kind (ltb 0 s.current_bet) (owed x s.current_bet) ≡ true
Legal-allowed s x fold amount l = refl
Legal-allowed s x check amount l = ground arith
Legal-allowed s x call amount l = ground arith
Legal-allowed s x bet (some n) l = ground arith
Legal-allowed s x bet none l = ground arith
Legal-allowed s x raise (some n) l = ground arith
Legal-allowed s x raise none l = ground arith
Legal-allowed s x (ActionKind.other name) amount l = ground arith

-- In the betting phase of a valid hand the prompt offers the kind of every action that
-- `ApplyAction` accepts.
pub apply_action-is_action_allowed :
    (s : HandState) (a : Action) (i : ℕ) (x : SeatState) {t : HandState}
    → IsValid s
    → s.phase ≡ betting
    → acting s ≡ ok (i, x)
    → apply_action s a ≡ ok t
    → is_action_allowed_for_prompt a.kind (ltb 0 s.current_bet) (owed x s.current_bet) ≡ true
apply_action-is_action_allowed s a i x {t} v phase turn e =
    Legal-allowed s x a.kind a.amount ((apply_action-ok_iff s a i x v phase turn).0 (t, e))
