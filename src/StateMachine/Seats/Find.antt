-- ===== src/StateMachine/Seats/Find.antt =====
-- Finding seats by number: no two seats share one, and `nextSeat` returns a seat that `seatIndex`
-- finds and that passes the filter.
use poker_arena.Common.{
  ℕ, zero, suc, ◌+◌, ◌≡◌, ◌≢◌, refl, sym, Bool, true, inl, inr, some, List, [], ◌∷◌, map, length,
  All, All-mono, All-zip, All-modify, ◌∙◌, get_elem?, modify, first_index, rotated, first_where,
  rotated-All, first_where-All, sort_by-All, map-eq_some, Option-cases, ==-eq_false, ==_refl, ◌==◌,
}
use poker_arena.Domain.{SeatState}
use poker_arena.StateMachine.Seats.{seat_index, next_seat, sort_seats, before_seat}

-- No two seats have the same number.
abbrev pub Distinct : List SeatState → Type 0
Distinct [] = Unit
Distinct (x ∷ xs) = All (λ y. x.seat_no ≢ y.seat_no) xs × Distinct xs

-- `seat_index` finds this very seat.
abbrev pub Found : List SeatState → SeatState → Type 0
Found seats x = (i : ℕ) × (seat_index seats x.seat_no ≡ some i) × (get_elem? seats i ≡ some x)

Found-cons :
    (x : SeatState) (xs : List SeatState) (y : SeatState)
    → (x.seat_no ≢ y.seat_no) × Found xs y
    → Found (x ∷ xs) y
unfolding seat_index
Found-cons x xs y (ne, (i, e, g)) = (suc i, rw (==-eq_false _ _ ne) (rw e refl), g)

pub Distinct-Found : (seats : List SeatState) → Distinct seats → All (Found seats) seats
unfolding seat_index
Distinct-Found [] d = tt
Distinct-Found (x ∷ xs) d = (
  (0, rw (==_refl x.seat_no), refl),
  All-mono (λ y. (x.seat_no ≢ y.seat_no) × Found xs y) (Found (x ∷ xs)) (Found-cons x xs) xs
      (All-zip (λ y. x.seat_no ≢ y.seat_no) (Found xs) xs d.0 (Distinct-Found xs d.1)),
)

-- What `nextSeat` returns is the number of a seat that is found by it and passes the filter.
pub next_seat_sound :
    (seats : List SeatState) (from : ℕ) (p : SeatState → Bool) (n : ℕ)
    → Distinct seats
    → next_seat seats from p ≡ some n
    → (i : ℕ) × (x : SeatState) × (seat_index seats n ≡ some i)
      × (get_elem? seats i ≡ some x)
      × (p x ≡ true)
      × (x.seat_no ≡ n)
unfolding next_seat sort_seats
next_seat_sound seats from p n d e =
    let ordered = sort_seats seats in
    elim (Option-cases (first_index (λ s. s.seat_no == from) ordered)) [
      | inl missing ↦ absurd (cc (rw (missing, next_seat) at e))
      | inr (start, found) ↦
          let (x, hit, number) =
            map-eq_some (λ s. s.seat_no)
              (first_where p (rotated ordered (start + 1) (length ordered)))
              (rw (found, next_seat) at e) in
          let ((i, at, here), pass) =
            first_where-All (Found seats) p (rotated ordered (start + 1) (length ordered))
              (rotated-All (Found seats) ordered (start + 1) (length ordered)
                (sort_by-All before_seat (Found seats) seats (Distinct-Found seats d)))
              hit in
          (i, x, rw number at at, here, pass, number)
    ]

Distinct-modify-All :
    (x : SeatState) (seats : List SeatState) (i : ℕ) (f : SeatState → SeatState)
    → ((a : SeatState) → (f a).seat_no ≡ a.seat_no)
    → All (λ y. x.seat_no ≢ y.seat_no) seats
    → All (λ y. x.seat_no ≢ y.seat_no) (modify seats i f)
Distinct-modify-All x seats i f keep h =
    All-modify (λ y. x.seat_no ≢ y.seat_no) seats i f (λ a ne e. ne (e ∙ keep a)) h

-- A write that keeps the seat's number keeps the seats distinct.
pub Distinct-modify :
    (seats : List SeatState) (i : ℕ) (f : SeatState → SeatState)
    → ((a : SeatState) → (f a).seat_no ≡ a.seat_no)
    → Distinct seats
    → Distinct (modify seats i f)
Distinct-modify [] i f keep d = d
Distinct-modify (x ∷ xs) zero f keep d = (
  All-mono (λ y. x.seat_no ≢ y.seat_no) (λ y. (f x).seat_no ≢ y.seat_no)
      (λ y ne e. ne (sym (keep x) ∙ e)) xs d.0,
  d.1,
)
Distinct-modify (x ∷ xs) (suc i) f keep d =
    (Distinct-modify-All x xs i f keep d.0, Distinct-modify xs i f keep d.1)

Distinct-map-All :
    (x : SeatState) (seats : List SeatState) (f : SeatState → SeatState)
    → ((a : SeatState) → (f a).seat_no ≡ a.seat_no)
    → All (λ y. x.seat_no ≢ y.seat_no) seats
    → All (λ y. (f x).seat_no ≢ y.seat_no) (map f seats)
Distinct-map-All x [] f keep h = tt
Distinct-map-All x (y ∷ ys) f keep h =
    ((λ e. h.0 (sym (keep x) ∙ e ∙ keep y)), Distinct-map-All x ys f keep h.1)

pub Distinct-map :
    (seats : List SeatState) (f : SeatState → SeatState)
    → ((a : SeatState) → (f a).seat_no ≡ a.seat_no)
    → Distinct seats
    → Distinct (map f seats)
Distinct-map [] f keep d = tt
Distinct-map (x ∷ xs) f keep d = (Distinct-map-All x xs f keep d.0, Distinct-map xs f keep d.1)
