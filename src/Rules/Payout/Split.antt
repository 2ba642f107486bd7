-- ===== src/Rules/Payout/Split.antt =====
-- Splitting one pot: every chip of it reaches a winner, and only stacks change.
use mathlib.Core.Option
use native.Mathlib.Nat.{mod-lt, div-add-mod'}
use poker_arena.Common.{
  ℕ, zero, suc, ◌+◌, ◌*◌, ◌/◌, ◌%◌, ◌≤◌, ◌<◌, ◌≡◌, refl, sym, ap, ◌∙◌, subst, inl, inr, List, [],
  ◌∷◌, map, get_elem?_lt, modify, length, length-modify, All, Bool-cases, arith, ltb, leb, ◌==◌,
  sort_by, length-sort_by, rotated, first_index, u32_size, if◌then◌else◌,
}
use poker_arena.Domain.{SeatState}
use poker_arena.Rules.Payout.{
  pay, pay_all, take, split_pot, order_winners_for_odd_chip, winner_by_seat, seat_no_at,
}
use poker_arena.Rules.Payout.Chips.{stacks, stacks-pay}

-- A seat without its stack: what the shares depend on.
abbrev pub stake : SeatState → SeatState
stake s = record s { stack = 0 }

pub stakes-modify :
    (seats : List SeatState) (i amount : ℕ)
    → map stake (modify seats i (pay amount)) ≡ map stake seats
stakes-modify [] i amount = refl
stakes-modify (s ∷ seats) zero amount = refl
stakes-modify (s ∷ seats) (suc i) amount = ap (◌∷◌ (stake s)) (stakes-modify seats i amount)

pub stakes-pay_all :
    (amount : ℕ) (idxs : List ℕ) (seats : List SeatState)
    → map stake (pay_all amount idxs seats) ≡ map stake seats
unfolding pay_all
stakes-pay_all amount [] seats = refl
stakes-pay_all amount (i ∷ idxs) seats =
    stakes-pay_all amount idxs (modify seats i (pay amount)) ∙ stakes-modify seats i amount

pub length-pay_all :
    (amount : ℕ) (idxs : List ℕ) (seats : List SeatState)
    → length (pay_all amount idxs seats) ≡ length seats
unfolding pay_all
length-pay_all amount [] seats = refl
length-pay_all amount (i ∷ idxs) seats =
    length-pay_all amount idxs (modify seats i (pay amount)) ∙ length-modify seats i (pay amount)

-- The indices are those of seats.
abbrev pub InRange : ℕ → List ℕ → Type 0
InRange n = All (λ i. i < n)

pub stacks-pay_all :
    (amount : ℕ) (idxs : List ℕ) (seats : List SeatState)
    → InRange (length seats) idxs
    → stacks seats + amount * length idxs < u32_size
    → stacks (pay_all amount idxs seats) ≡ stacks seats + amount * length idxs
unfolding pay_all
stacks-pay_all amount [] seats r h = omega arith
stacks-pay_all amount (i ∷ idxs) seats r h =
    let (x, here) = get_elem?_lt seats i r.0 in
    let paid = stacks-pay seats i amount here (omega arith) in
    omega (
      arith,
      paid,
      stacks-pay_all amount idxs (modify seats i (pay amount))
          (subst (λ n. InRange n idxs) (sym (length-modify seats i (pay amount))) r.1)
          (omega (arith, paid)),
    )

length-rotated :
    {A : Type 0} (xs : List A) (pos k : ℕ) → 0 < length xs → length (rotated xs pos k) ≡ k
unfolding rotated
length-rotated xs pos zero h = refl
length-rotated xs pos (suc k) h =
    let (a, e) = get_elem?_lt xs (pos % length xs) (mod-lt pos h) in
    rw (e, rotated) (ap suc (length-rotated xs (suc pos) k h))

length-take : {A : Type 0} (n : ℕ) (xs : List A) → n ≤ length xs → length (take n xs) ≡ n
length-take zero xs h = refl
length-take (suc n) [] h = absurd (omega arith)
length-take (suc n) (x ∷ xs) h = ap suc (length-take n xs (omega arith))

take-All : {A : Type 0} (P : A → Type 0) (n : ℕ) (xs : List A) → All P xs → All P (take n xs)
take-All P zero xs h = tt
take-All P (suc n) [] h = tt
take-All P (suc n) (x ∷ xs) h = (h.0, take-All P n xs h.1)

All-map_any :
    {A B : Type 0} (P : B → Type 0) (f : A → B) (xs : List A)
    → ((a : A) → P (f a))
    → All P (map f xs)
All-map_any P f [] k = tt
All-map_any P f (x ∷ xs) k = (k x, All-map_any P f xs k)

length-map : {A B : Type 0} (f : A → B) (xs : List A) → length (map f xs) ≡ length xs
length-map f [] = refl
length-map f (x ∷ xs) = ap suc (length-map f xs)

winner_by_seat-lt :
    (seats : List SeatState) (n m : ℕ) (idxs : List ℕ) (found : ℕ)
    → found < m
    → InRange m idxs
    → winner_by_seat seats n idxs found < m
winner_by_seat-lt seats n m [] found h r = h
winner_by_seat-lt seats n m (i ∷ idxs) found h r =
    winner_by_seat-lt seats n m idxs (if seat_no_at seats i == n then i else found)
      (ground (arith, r.0)) r.1

module _ (button : ℕ) (winners : List ℕ) (seats : List SeatState)
    (some_win : 0 < length winners) where
  order-length : length (order_winners_for_odd_chip button winners seats) ≡ length winners
  unfolding order_winners_for_odd_chip
  order-length =
      let numbers = map (seat_no_at seats) winners in
      let ordered = sort_by ltb numbers in
      let start = Option.get_or (first_index (λ n. ltb button n) ordered) 0 in
      let size = length-sort_by ltb numbers ∙ length-map (seat_no_at seats) winners in
      let round = rotated ordered start (length ordered) in
      ground (
        arith,
        size,
        length-map (λ n. winner_by_seat seats n winners 0) round,
        length-rotated ordered start (length ordered),
      )

  order-InRange :
      InRange (length seats) winners
      → InRange (length seats) (order_winners_for_odd_chip button winners seats)
  unfolding order_winners_for_odd_chip
  order-InRange r = elim (Bool-cases (leb (length winners) 1)) [
    | inl one ↦ rw (one, order_winners_for_odd_chip) r
    | inr more ↦
        rw (more, order_winners_for_odd_chip)
          (All-map_any (λ i. i < length seats) (λ n. winner_by_seat seats n winners 0) _
            (λ n.
              winner_by_seat-lt seats n (length seats) winners 0 (nonempty winners some_win r) r))
  ]
    where
      nonempty : (ws : List ℕ) → 0 < length ws → InRange (length seats) ws → 0 < length seats
      nonempty [] h q = absurd (omega arith)
      nonempty (w ∷ ws) h q = omega (arith, q.0)

pub stakes-split_pot :
    (button amount : ℕ) (winners : List ℕ) (seats : List SeatState)
    → map stake (split_pot button amount winners seats) ≡ map stake seats
unfolding split_pot
stakes-split_pot button amount winners seats =
    let shared = pay_all (amount / length winners) winners seats in
    stakes-pay_all 1
      (take (amount % length winners) (order_winners_for_odd_chip button winners shared)) shared
    ∙ stakes-pay_all (amount / length winners) winners seats

pub length-split_pot :
    (button amount : ℕ) (winners : List ℕ) (seats : List SeatState)
    → length (split_pot button amount winners seats) ≡ length seats
unfolding split_pot
length-split_pot button amount winners seats =
    let shared = pay_all (amount / length winners) winners seats in
    length-pay_all 1
      (take (amount % length winners) (order_winners_for_odd_chip button winners shared)) shared
    ∙ length-pay_all (amount / length winners) winners seats

-- What the winners of one pot are paid, the shares and the odd chips together, is the pot. There is
-- a winner, the winners are seats of the table, and the stacks and the pot fit in 32 bits.
pub stacks-split_pot :
    (button amount : ℕ) (winners : List ℕ) (seats : List SeatState)
    → 0 < length winners
    → InRange (length seats) winners
    → stacks seats + amount < u32_size
    → stacks (split_pot button amount winners seats) ≡ stacks seats + amount
unfolding split_pot
stacks-split_pot button amount winners seats some_win r h =
    let w = length winners in
    let shared = pay_all (amount / w) winners seats in
    let odd = take (amount % w) (order_winners_for_odd_chip button winners shared) in
    let whole : amount / w * w + amount % w ≡ amount = div-add-mod' amount w in
    let first = stacks-pay_all (amount / w) winners seats r (omega (arith, whole)) in
    let range =
      subst (λ n. InRange n winners) (sym (length-pay_all (amount / w) winners seats)) r in
    let ordered = order_winners_for_odd_chip button winners shared in
    let count : length odd ≡ amount % w =
      length-take (amount % w) ordered
        (omega (arith, order-length button winners shared some_win, mod-lt amount some_win)) in
    let second =
      stacks-pay_all 1 odd shared
        (take-All (λ i. i < length shared) (amount % w) ordered
          (order-InRange button winners shared some_win range))
        (omega (arith, whole, first, count)) in
    omega (arith, whole, first, second, count)
