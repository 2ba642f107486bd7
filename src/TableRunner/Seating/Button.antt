-- ===== src/TableRunner/Seating/Button.antt =====
-- The seat that gets the button in `RunTable` may hold it.
use poker_arena.Common.{
  ℕ, zero, suc, ◌+◌, ◌≡◌, refl, inl, inr, true, ◌&&◌, Bool-cases, Option-cases, List, [], ◌∷◌,
  length, All, All-mono, first_index, first_where, first_where-All, rotated, rotated-All, ltb, ◌==◌,
  ==_refl, subst,
}
use poker_arena.Domain.{ok, SeatState}
use poker_arena.Domain.Results.{ok-injective}
use poker_arena.TableRunner.Seating.{
  exchange_pass, exchange_sort, sort_seats_by_seat_no, can_hold_button, next_button_seat,
  is_button_eligible, normalize_button,
}

module _ (P : SeatState → Type 0) where
  exchange_pass-All :
      (x : SeatState) (xs : List SeatState)
      → P x
      → All P xs
      → P (exchange_pass x xs).0 × All P (exchange_pass x xs).1
  unfolding exchange_pass
  exchange_pass-All x [] h k = (h, tt)
  exchange_pass-All x (y ∷ ys) h k = elim (Bool-cases (ltb y.seat_no x.seat_no)) [
    | inl less ↦
        rw (less, exchange_pass) (let (a, b) = exchange_pass-All y ys k.0 k.1 in (a, (h, b)))
    | inr more ↦
        rw (more, exchange_pass) (let (a, b) = exchange_pass-All x ys h k.1 in (a, (k.0, b)))
  ]

  exchange_sort-All : (n : ℕ) (xs : List SeatState) → All P xs → All P (exchange_sort n xs)
  unfolding exchange_sort
  exchange_sort-All zero xs h = h
  exchange_sort-All (suc n) [] h = tt
  exchange_sort-All (suc n) (x ∷ xs) h =
      let (a, b) = exchange_pass-All x xs h.0 h.1 in
      (a, exchange_sort-All n (exchange_pass x xs).1 b)

abbrev Eligible : List SeatState → SeatState → Type 0
Eligible seats s = can_hold_button s ≡ true → is_button_eligible s.seat_no seats ≡ true

Eligible-cons :
    (x : SeatState) (xs : List SeatState) (s : SeatState) → Eligible xs s → Eligible (x ∷ xs) s
unfolding is_button_eligible
Eligible-cons x xs s h k = elim (Bool-cases (x.seat_no == s.seat_no && can_hold_button x)) [
  | inl here ↦ rw here refl
  | inr later ↦ rw later (h k)
]

All-Eligible : (seats : List SeatState) → All (Eligible seats) seats
unfolding is_button_eligible
All-Eligible [] = tt
All-Eligible (x ∷ xs) = (
  λ k. rw (==_refl x.seat_no) (rw k refl),
  All-mono (Eligible xs) (Eligible (x ∷ xs)) (Eligible-cons x xs) xs (All-Eligible xs),
)

next_button_seat-eligible :
    (current n : ℕ) (seats : List SeatState)
    → next_button_seat current seats ≡ ok n
    → is_button_eligible n seats ≡ true
unfolding next_button_seat sort_seats_by_seat_no
next_button_seat-eligible current n seats e =
    let ordered = sort_seats_by_seat_no seats in
    elim (Option-cases (first_index (λ s. s.seat_no == current) ordered)) [
      | inl missing ↦ absurd (cc (rw (missing, next_button_seat) at e))
      | inr (start, found) ↦
          let round = rotated ordered (start + 1) (length ordered) in
          let e' = rw (found, next_button_seat) at e in
          elim (Option-cases (first_where can_hold_button round)) [
            | inl nobody ↦ absurd (cc (rw nobody at e'))
            | inr (s, hit) ↦
                let (eligible, pass) =
                  first_where-All (Eligible seats) can_hold_button round
                    (rotated-All (Eligible seats) ordered (start + 1) (length ordered) (
                      exchange_sort-All (Eligible seats) (length seats) seats (All-Eligible seats)))
                    hit in
                subst (λ m. is_button_eligible m seats ≡ true) (ok-injective (rw hit at e'))
                  (eligible pass)
          ]
    ]

-- The button that a hand starts with, kept or moved on, is a seat of the table that is not busted
-- and has chips.
pub normalize_button-eligible :
    (current n : ℕ) (seats : List SeatState)
    → normalize_button current seats ≡ ok n
    → is_button_eligible n seats ≡ true
unfolding normalize_button
normalize_button-eligible current n seats e = elim (Bool-cases (is_button_eligible current seats)) [
  | inl kept ↦ subst (λ m. is_button_eligible m seats ≡ true) (ok-injective (rw kept at e)) kept
  | inr moved ↦ next_button_seat-eligible current n seats (rw moved at e)
]
