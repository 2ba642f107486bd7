-- ===== src/Rules/Dealer/Shuffle.antt =====
-- The shufflers of dealer.go only reorder the cards.
use poker_arena.Common.{
  ℕ, zero, suc, ◌-◌, ◌≡◌, ◌≢◌, refl, sym, ◌∙◌, ap, inl, inr, Option, some, Option-cases, Bool-cases,
  List, [], ◌∷◌, length, get_elem?, modify, sum_by, sum_by-modify, ◌==◌, ==_iff, arith,
}
use poker_arena.Domain.{ok}
use poker_arena.Domain.Results.{ok-injective}
use poker_arena.Rules.Dealer.{swap, shuffle_from, crypto_shuffle, seeded_shuffle}

module _ {ℓ} {A : Type ℓ} where
  get_elem?-modify_self :
      (xs : List A) (i : ℕ) (f : A → A) {a : A}
      → get_elem? xs i ≡ some a
      → get_elem? (modify xs i f) i ≡ some (f a)
  get_elem?-modify_self [] i f e = absurd (cc e)
  get_elem?-modify_self (x ∷ xs) zero f {a} e = ground arith
  get_elem?-modify_self (x ∷ xs) (suc i) f e = get_elem?-modify_self xs i f e

  get_elem?-modify_other :
      (xs : List A) (i j : ℕ) (f : A → A) → i ≢ j → get_elem? (modify xs i f) j ≡ get_elem? xs j
  get_elem?-modify_other [] i j f ne = refl
  get_elem?-modify_other (x ∷ xs) zero zero f ne = absurd (ne refl)
  get_elem?-modify_other (x ∷ xs) zero (suc j) f ne = refl
  get_elem?-modify_other (x ∷ xs) (suc i) zero f ne = refl
  get_elem?-modify_other (x ∷ xs) (suc i) (suc j) f ne =
      get_elem?-modify_other xs i j f (λ e. ne (ap suc e))

  -- After the first write of a swap the other place still has its entry, or the one written.
  swapped_entry :
      (xs : List A) (i j : ℕ) {a b : A}
      → get_elem? xs i ≡ some a
      → get_elem? xs j ≡ some b
      → get_elem? (modify xs i (λ _. b)) j ≡ some b
  swapped_entry xs i j {a} {b} here there = elim (Bool-cases (i == j)) [
    | inl same ↦ let e = (==_iff i j).0 same in rw (← e) (get_elem?-modify_self xs i (λ _. b) here)
    | inr other ↦ get_elem?-modify_other xs i j (λ _. b) (λ e. ground (arith, e)) ∙ there
  ]

  sum_by-swap : (w : A → ℕ) (xs : List A) (i j : ℕ) → sum_by w (swap xs i j) ≡ sum_by w xs
  unfolding swap
  sum_by-swap w xs i j = elim (Option-cases (get_elem? xs i)) [
    | inl none_here ↦ rw (none_here, swap) refl
    | inr (a, here) ↦ elim (Option-cases (get_elem? xs j)) [
      | inl none_there ↦ rw (here, swap) (rw (none_there, swap) refl)
      | inr (b, there) ↦
          rw (here, swap)
            (rw (there, swap)
              (omega (
                arith,
                sum_by-modify w xs i (λ _. b) here,
                sum_by-modify w (modify xs i (λ _. b)) j (λ _. a) (swapped_entry xs i j here there),
              )))
    ]
  ]

  sum_by-shuffle_from :
      (w : A → ℕ) (draw : ℕ → Option ℕ) (i : ℕ) (cards : List A) {shuffled : List A}
      → shuffle_from draw i cards ≡ ok shuffled
      → sum_by w shuffled ≡ sum_by w cards
  unfolding shuffle_from
  sum_by-shuffle_from w draw zero cards e = ap (sum_by w) (sym (ok-injective e))
  sum_by-shuffle_from w draw (suc i) cards e = elim (Option-cases (draw (suc i))) [
    | inl failed ↦ absurd (cc (rw (failed, shuffle_from) at e))
    | inr (j, drawn) ↦
        sum_by-shuffle_from w draw i (swap cards (suc i) j) (rw (drawn, shuffle_from) at e)
        ∙ sum_by-swap w cards (suc i) j
  ]

  sum_by-one : (xs : List A) → sum_by (λ _. 1) xs ≡ length xs
  sum_by-one [] = refl
  sum_by-one (x ∷ xs) = omega (arith, sum_by-one xs)

  -- Whatever numbers are drawn, where the shuffle succeeds it has only reordered the cards: they
  -- have the same sum for every weight, so each is there as often as before, and their number is
  -- the same.
  pub sum_by-crypto_shuffle :
      (draw : ℕ → Option ℕ) (cards : List A) {shuffled : List A}
      → crypto_shuffle draw cards ≡ ok shuffled
      → ((w : A → ℕ) → sum_by w shuffled ≡ sum_by w cards) × (length shuffled ≡ length cards)
  unfolding crypto_shuffle
  sum_by-crypto_shuffle draw cards {shuffled} e = (
    λ w. sum_by-shuffle_from w draw (length cards - 1) cards e,
    sym (sum_by-one shuffled)
        ∙ sum_by-shuffle_from (λ _. 1) draw (length cards - 1) cards e
        ∙ sum_by-one cards,
  )

  -- A shuffle fails only where a number cannot be drawn.
  shuffle_from_total :
      (draw : ℕ → Option ℕ) (i : ℕ) (cards : List A)
      → ((k : ℕ) → (j : ℕ) × (draw k ≡ some j))
      → (shuffled : List A) × (shuffle_from draw i cards ≡ ok shuffled)
  unfolding shuffle_from
  shuffle_from_total draw zero cards h = (cards, refl)
  shuffle_from_total draw (suc i) cards h =
      let (j, drawn) = h (suc i) in
      let (shuffled, e) = shuffle_from_total draw i (swap cards (suc i) j) h in
      (shuffled, rw (drawn, shuffle_from) e)

  -- The seeded shuffle always succeeds, and only reorders the cards.
  pub seeded_shuffle_total :
      (rng : ℕ → ℕ) (cards : List A)
      → (shuffled : List A) × (seeded_shuffle rng cards ≡ ok shuffled)
        × ((w : A → ℕ) → sum_by w shuffled ≡ sum_by w cards)
  unfolding seeded_shuffle
  seeded_shuffle_total rng cards =
      let (shuffled, e) =
        shuffle_from_total (λ i. some (rng i)) (length cards - 1) cards (λ k. (rng k, refl)) in
      (shuffled, e, λ w. sum_by-shuffle_from w (λ i. some (rng i)) (length cards - 1) cards e)
