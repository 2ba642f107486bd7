-- ===== src/StateMachine/Action/Apply.antt =====
-- `ApplyAction` as a whole: what it keeps, and when it refuses.
use poker_arena.Common.{
  ℕ, ◌<◌, ◌≡◌, ◌↔◌, refl, subst, inl, inr, sym, ◌∙◌, true, some, get_elem?, u32_size, arith,
}
use poker_arena.Domain.{
  Result, ok, ◌>>=◌, ◌>>◌, SeatState, HandState, HandPhase, dealing, betting, showdown, complete,
  Action,
}
use poker_arena.Domain.Results.{ok-injective, Result-cases}
use poker_arena.Rules.Payout.Chips.{chips}
use poker_arena.StateMachine.Seats.{is_eligible_to_act}
use poker_arena.StateMachine.Action.{acting, settle, play_action, apply_action, check_phase}
use poker_arena.StateMachine.Action.Chips.{play_action-chips}
use poker_arena.StateMachine.Action.Valid.{IsSound, IsValid}
use poker_arena.StateMachine.Action.Legal.{Legal, play_action_succeeds, play_action-Legal}
use poker_arena.StateMachine.Action.Settle.{Succeeds, settle_lem, play_action-IsSound}

pub IsValid-IsSound : {s : HandState} → IsValid s → IsSound s
IsValid-IsSound v = record {
  distinct = v.distinct;
  full_deck = v.full_deck;
  room = v.room;
  board = v.board;
}

-- The acting seat is at its index, and may act.
pub acting-get :
    (s : HandState) (i : ℕ) (x : SeatState)
    → acting s ≡ ok (i, x)
    → (get_elem? s.seats i ≡ some x) × (is_eligible_to_act x ≡ true)
unfolding acting
acting-get s i x e = ground arith

module _ (s : HandState) (a : Action) (v : IsValid s) where
  -- In the betting phase the outcome is decided by the action itself.
  apply_action_lem :
      (i : ℕ) (x : SeatState)
      → s.phase ≡ betting
      → acting s ≡ ok (i, x)
      → apply_action s a ≡ (play_action s i x a.kind a.amount >>= λ t. settle t x.seat_no)
  unfolding apply_action
  apply_action_lem i x phase turn = rw (phase, apply_action) (rw (turn, apply_action) refl)

  applied-Succeeds :
      (i : ℕ) (x : SeatState) {played : HandState}
      → acting s ≡ ok (i, x)
      → play_action s i x a.kind a.amount ≡ ok played
      → Succeeds played (settle played x.seat_no)
  applied-Succeeds i x {played} turn e =
      settle_lem played x.seat_no (play_action-IsSound s i x (IsValid-IsSound v) a.kind a.amount e)

pub apply_action-betting :
    (s : HandState) (a : Action) {t : HandState} → apply_action s a ≡ ok t → s.phase ≡ betting
unfolding apply_action
apply_action-betting s a e = started s.phase _ e
  where
    started :
        (p : HandPhase) (k : Result HandState) {t : HandState}
        → (check_phase p >> k) ≡ ok t
        → p ≡ betting
    started dealing k e = absurd (cc e)
    started betting k e = refl
    started showdown k e = absurd (cc e)
    started complete k e = absurd (cc e)

apply_action-Kept :
    (s : HandState) (a : Action) {t : HandState}
    → IsValid s
    → apply_action s a ≡ ok t
    → IsValid t × (chips s < u32_size → chips t ≡ chips s)
apply_action-Kept s a {t} v e =
    let phase = apply_action-betting s a e in
    let (i, x, turn) = v.turn_ready phase in
    let e' = sym (apply_action_lem s a v i x phase turn) ∙ e in
    elim (Result-cases (play_action s i x a.kind a.amount)) [
      | inr (problem, refused) ↦ absurd (cc (rw refused at e'))
      | inl (p, played) ↦
          let (u, settled, valid, keep) = applied-Succeeds s a v i x turn played in
          let same : u ≡ t = ok-injective (sym settled ∙ (rw played at e')) in
          let (here, eligible) = acting-get s i x turn in
          (
            subst IsValid same valid,
            λ small.
                let kept = play_action-chips s i x here small a.kind a.amount played in
                subst (λ z. chips z ≡ chips s) same (keep (omega (arith, kept)) ∙ kept),
          )
    ]

-- A successful action on a valid hand leaves a valid hand: distinct seat numbers, a deck of 52 with
-- enough cards for the streets to come, a board of the street's size, and, where betting goes on,
-- an acting seat that exists and may act.
pub apply_action-IsValid :
    (s : HandState) (a : Action) {t : HandState} → IsValid s → apply_action s a ≡ ok t → IsValid t
apply_action-IsValid s a v e = (apply_action-Kept s a v e).0

-- A successful action on a valid hand neither makes nor loses chips: stacks and pot have the same
-- sum before and after, where that sum fits in 32 bits.
pub apply_action-chips :
    (s : HandState) (a : Action) {t : HandState}
    → IsValid s
    → chips s < u32_size
    → apply_action s a ≡ ok t
    → chips t ≡ chips s
apply_action-chips s a v small e = (apply_action-Kept s a v e).1 small

-- In the betting phase of a valid hand an action succeeds exactly when the rules of betting allow
-- it for the acting seat.
pub apply_action-ok_iff :
    (s : HandState) (a : Action) (i : ℕ) (x : SeatState)
    → IsValid s
    → s.phase ≡ betting
    → acting s ≡ ok (i, x)
    → ((t : HandState) × (apply_action s a ≡ ok t)) ↔ Legal s x a.kind a.amount
apply_action-ok_iff s a i x v phase turn = (accepted, allowed)
  where
    accepted : (t : HandState) × (apply_action s a ≡ ok t) → Legal s x a.kind a.amount
    accepted (t, e) = elim (Result-cases (play_action s i x a.kind a.amount)) [
      | inl (p, played) ↦ play_action-Legal s i x a.kind a.amount played
      | inr (problem, refused) ↦
          let e' = sym (apply_action_lem s a v i x phase turn) ∙ e in absurd (cc (rw refused at e'))
    ]

    allowed : Legal s x a.kind a.amount → (t : HandState) × (apply_action s a ≡ ok t)
    allowed l =
        let (p, played) = play_action_succeeds s i x a.kind a.amount l in
        let (t, settled, valid, keep) = applied-Succeeds s a v i x turn played in
        (t, apply_action_lem s a v i x phase turn ∙ (rw played settled))
