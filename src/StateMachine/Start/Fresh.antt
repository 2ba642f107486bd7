-- ===== src/StateMachine/Start/Fresh.antt =====
-- What `NewHandState` of domain.go checks of the seats of a new hand.
use Prim.Native.String.{String}
use poker_arena.Common.{
  ℕ, ◌≤◌, ◌≡◌, ◌≢◌, refl, false, Option, List, [], ◌∷◌, length, All, All-mono, ltb, ◌==◌, not,
  arith, Bool-cases, inl, inr,
}
use poker_arena.Domain.{
  ok, SeatState, HandState, preflop, TableConfig, contains, survey_seats, validate, new_hand_state,
  new_hand_id, too_few_active_seats, too_many_seats, missing_button_seat, missing_acting_seat,
  duplicate_seat,
}
use poker_arena.Domain.Results.{ok-injective, Result-cases, fail_if-eq_ok, bind-eq_ok, check-eq_ok}
use poker_arena.StateMachine.Seats.Find.{Distinct}

-- Not among the numbers seen.
abbrev Unseen : List ℕ → SeatState → Type 0
Unseen seen x = contains x.seat_no seen ≡ false

Unseen-cons :
    (n : ℕ) (seen : List ℕ) (y : SeatState) → Unseen (n ∷ seen) y → (n ≢ y.seat_no) × Unseen seen y
Unseen-cons n seen y h = elim (Bool-cases (y.seat_no == n)) [
  | inl same ↦ absurd (cc (rw same at h))
  | inr other ↦ ((λ e. ground (arith, e)), rw other at h)
]

survey_seats-Distinct :
    (seats : List SeatState) (n : ℕ) (seen : List ℕ) {r : ℕ × List ℕ}
    → survey_seats seats n seen ≡ ok r
    → Distinct seats × All (Unseen seen) seats
unfolding survey_seats
survey_seats-Distinct [] n seen e = (tt, tt)
survey_seats-Distinct (x ∷ seats) n seen e =
    let (new, rest) = fail_if-eq_ok (contains x.seat_no seen) duplicate_seat _ e in
    let (d, unseen) = survey_seats-Distinct seats _ (x.seat_no ∷ seen) rest in
    (
      (
        All-mono (Unseen (x.seat_no ∷ seen)) (λ y. x.seat_no ≢ y.seat_no)
            (λ y h. (Unseen-cons x.seat_no seen y h).0) seats unseen,
        d,
      ),
      (
        new,
        All-mono (Unseen (x.seat_no ∷ seen)) (Unseen seen)
            (λ y h. (Unseen-cons x.seat_no seen y h).1) seats unseen,
      ),
    )

validate-max_seats : (c : TableConfig) → validate c ≡ ok tt → c.max_seats ≤ 6
unfolding validate
validate-max_seats c e = ground arith

-- The seats of a new hand are distinct and at most six, and are the seats of its state.
pub new_hand_state_lem :
    (entropy : Option String) (table_id : String) (hand_no button acting : ℕ)
    (seats : List SeatState) (c : TableConfig) {t : HandState}
    → new_hand_state entropy table_id hand_no button acting seats c ≡ ok t
    → Distinct seats × (length seats ≤ 6) × (t.seats ≡ seats) × (t.pot ≡ 0) × (t.street ≡ preflop)
unfolding new_hand_state
new_hand_state_lem entropy table_id hand_no button acting seats c e =
    let (valid, e₁) = check-eq_ok (validate c) _ e in
    let ((active_count, seen), surveyed, e₂) = bind-eq_ok (survey_seats seats 0 []) _ e₁ in
    let (enough, e₃) =
      fail_if-eq_ok (ltb active_count c.min_players_to_start)
        (too_few_active_seats c.min_players_to_start active_count) _ e₂ in
    let (few, e₄) =
      fail_if-eq_ok (ltb c.max_seats (length seats)) (too_many_seats c.max_seats (length seats)) _
        e₃ in
    let (on_button, e₅) =
      fail_if-eq_ok (not (contains button seen)) (missing_button_seat button) _ e₄ in
    let (to_act, e₆) =
      fail_if-eq_ok (not (contains acting seen)) (missing_acting_seat acting) _ e₅ in
    let most = validate-max_seats c valid in
    elim (Result-cases (new_hand_id entropy)) [
      | inr (problem, refused) ↦ absurd (cc (rw refused at e₆))
      | inl (id, drawn) ↦
          let same = ok-injective (rw drawn at e₆) in
          (
            (survey_seats-Distinct seats 0 [] surveyed).0,
            ground (arith, most, few),
            rw (← same) refl,
            rw (← same) refl,
            rw (← same) refl,
          )
    ]
