-- ===== src/Rules/Payout/Chips.antt =====
-- The chips on the seats, and the two ways in which a pot is paid out.
use poker_arena.Common.{
  ℕ, ◌+◌, ◌<◌, ◌≡◌, inl, inr, some, List, get_elem?, modify, sum_by, sum_by-modify, sum_by-get_le,
  first_index, first_index-get, Bool-cases, Option-cases, add32-exact, u32_size, arith, ◌==◌,
}
use poker_arena.Domain.{SeatState, HandState, is_active, has_active_status}
use poker_arena.Rules.Payout.{pay, award_uncontested, uncontested_winner}

abbrev pub stacks : List SeatState → ℕ
stacks = sum_by (λ s. s.stack)

-- The chips of a hand: those in front of the seats and those in the pot.
abbrev pub chips : HandState → ℕ
chips s = stacks s.seats + s.pot

pub stacks-pay :
    (seats : List SeatState) (i amount : ℕ) {x : SeatState}
    → get_elem? seats i ≡ some x
    → stacks seats + amount < u32_size
    → stacks (modify seats i (pay amount)) ≡ stacks seats + amount
stacks-pay seats i amount {x} e h = omega (
  arith,
  sum_by-modify (λ s. s.stack) seats i (pay amount) e,
  sum_by-get_le (λ s. s.stack) seats i e,
  add32-exact x.stack amount,
)

uncontested_winner-get :
    (seats : List SeatState) {i : ℕ}
    → uncontested_winner seats ≡ some i
    → (x : SeatState) × (get_elem? seats i ≡ some x)
uncontested_winner-get seats {i} e = elim (Option-cases (first_index is_active seats)) [
  | inl missing ↦
      let (x, here, p) =
        first_index-get (λ s. has_active_status s.status) seats
          (rw (missing, uncontested_winner) at e) in
      (x, here)
  | inr (j, found) ↦
      let (x, here, p) = first_index-get is_active seats found in
      let e' = rw (found, uncontested_winner) at e in let f : j ≡ i = cc in (x, rw (← f) here)
]

-- An uncontested pot goes to one stack, or stays where it is.
pub award_uncontested-chips :
    (s : HandState) → chips s < u32_size → chips (award_uncontested s) ≡ chips s
unfolding award_uncontested
award_uncontested-chips s h = elim (Bool-cases (s.pot == 0)) [
  | inl empty ↦ rw empty
  | inr full ↦ elim (Option-cases (uncontested_winner s.seats)) [
    | inl nobody ↦ rw (full, nobody)
    | inr (i, someone) ↦
        let (x, here) = uncontested_winner-get s.seats someone in
        rw (full, someone) (omega (arith, stacks-pay s.seats i s.pot here))
  ]
]
