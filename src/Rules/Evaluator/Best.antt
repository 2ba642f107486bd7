-- ===== src/Rules/Evaluator/Best.antt =====
-- `EvaluateBestHand` returns the largest rank of all choices of five cards.
use Prim.Native.Nat.{Ordering}
use mathlib.Core.List.{append_assoc, append-nil}
use poker_arena.Common.{
  ℕ, zero, suc, ◌+◌, ◌-◌, ◌≤◌, ◌<◌, ◌≡◌, ◌≢◌, refl, sym, subst, inl, inr, false, List, [], ◌∷◌,
  ◌++◌, map, length, All, Bool-cases, arith, ltb,
}
use poker_arena.Domain.{Card}
use poker_arena.Rules.Evaluator.{
  HandRank, compare_hand_rank, walk, range_from, gather, pick, best_candidate, evaluate_five_cards,
  evaluate_best_hand,
}
use poker_arena.Rules.Evaluator.Order.{NotAbove, best_of_max, best_of-All}

-- Rising indices from `start` on, below `n`.
abbrev pub Choice : ℕ → ℕ → List ℕ → Type 0
Choice start n [] = Unit
Choice start n (i ∷ is) = (start ≤ i) × (i < n) × Choice (suc i) n is

Choice-length : (start n : ℕ) (is : List ℕ) → start ≤ n → Choice start n is → start + length is ≤ n
Choice-length start n [] h c = omega arith
Choice-length start n (i ∷ is) h c = omega (arith, Choice-length (suc i) n is c.1 c.2, c.0)

module _ (P : List ℕ → Type 0) where
  All-append_left : (xs ys : List (List ℕ)) → All P (xs ++ ys) → All P xs × All P ys
  All-append_left [] ys h = (tt, h)
  All-append_left (x ∷ xs) ys h = let (l, r) = All-append_left xs ys h.1 in ((h.0, l), r)

  All-append : (xs ys : List (List ℕ)) → All P xs → All P ys → All P (xs ++ ys)
  All-append [] ys h k = k
  All-append (x ∷ xs) ys h k = (h.0, All-append xs ys h.1 k)

  All-gather_range :
      (f : ℕ → List (List ℕ)) (start k i : ℕ)
      → All P (gather f (range_from start k))
      → start ≤ i
      → i < start + k
      → All P (f i)
  All-gather_range f start zero i h a b = absurd (omega arith)
  All-gather_range f start (suc k) i h a b =
      let (l, r) = All-append_left (f start) (gather f (range_from (suc start) k)) h in
      elim (Bool-cases (ltb start i)) [
        | inl later ↦ All-gather_range f (suc start) k i r (ground arith) (omega arith)
        | inr now ↦ let same : start ≡ i = ground arith in subst (λ j. All P (f j)) same l
      ]

  gather_range-All :
      (f : ℕ → List (List ℕ)) (start k : ℕ)
      → ((i : ℕ) → start ≤ i → i < start + k → All P (f i))
      → All P (gather f (range_from start k))
  gather_range-All f start zero h = tt
  gather_range-All f start (suc k) h =
      All-append (f start) (gather f (range_from (suc start) k))
        (h start (omega arith) (omega arith))
        (gather_range-All f (suc start) k (λ i a b. h i (omega arith) (omega arith)))

  -- Every rising choice of indices is among the combinations.
  walk_complete :
      (left n start : ℕ) (combo is : List ℕ)
      → start ≤ n
      → Choice start n is
      → length is ≡ left
      → All P (walk left n start combo)
      → P (combo ++ is)
  unfolding walk
  walk_complete zero n start combo [] s c e h = subst P (sym (append-nil combo)) h.0
  walk_complete zero n start combo (i ∷ is) s c e h = absurd (omega arith)
  walk_complete (suc left) n start combo [] s c e h = absurd (omega arith)
  walk_complete (suc left) n start combo (i ∷ is) s c e h =
      subst P (append_assoc combo (i ∷ []) is) (
        walk_complete left n (suc i) (combo ++ i ∷ []) is c.1 c.2 (omega arith) (
          All-gather_range (λ j. walk left n (suc j) (combo ++ j ∷ [])) start (n - left - start) i h
            c.0 (omega (arith, Choice-length (suc i) n is c.1 c.2))))

  -- The combinations are rising choices of indices.
  walk_sound :
      (left n start : ℕ) (combo : List ℕ)
      → ((is : List ℕ) → Choice start n is → length is ≡ left → P (combo ++ is))
      → All P (walk left n start combo)
  unfolding walk
  walk_sound zero n start combo h = (subst P (append-nil combo) (h [] tt refl), tt)
  walk_sound (suc left) n start combo h =
      gather_range-All (λ j. walk left n (suc j) (combo ++ j ∷ [])) start (n - left - start)
        λ i a b. walk_sound left n (suc i) (combo ++ i ∷ []) λ is c e.
          subst P (sym (append_assoc combo (i ∷ []) is))
            (h (i ∷ is) (a, omega arith, c) (omega (arith, e)))

module _ (cards : List Card) where
  five : List ℕ → HandRank
  five is = evaluate_five_cards (pick cards is)

  All-map-five :
      (Q : HandRank → Type 0) (cs : List (List ℕ))
      → All (λ is. Q (five is)) cs
      → All Q (map five cs)
  All-map-five Q [] h = tt
  All-map-five Q (c ∷ cs) h = (h.0, All-map-five Q cs h.1)

  of_All-map-five :
      (Q : HandRank → Type 0) (cs : List (List ℕ))
      → All Q (map five cs)
      → All (λ is. Q (five is)) cs
  of_All-map-five Q [] h = tt
  of_All-map-five Q (c ∷ cs) h = (h.0, of_All-map-five Q cs h.1)

best_candidate_max : (ranks : List HandRank) → All (NotAbove (best_candidate ranks)) ranks
unfolding best_candidate
best_candidate_max [] = tt
best_candidate_max (r ∷ ranks) = best_of_max r ranks

best_candidate-All :
    (Q : HandRank → Type 0) (ranks : List HandRank)
    → 0 < length ranks
    → All Q ranks
    → Q (best_candidate ranks)
unfolding best_candidate
best_candidate-All Q [] s h = absurd (omega arith)
best_candidate-All Q (r ∷ ranks) s h = best_of-All Q r ranks h.0 h.1

evaluate_best_hand_lem :
    (hole board : List Card)
    → ltb (length (hole ++ board)) 5 ≡ false
    → evaluate_best_hand hole board
      ≡ best_candidate (map (five (hole ++ board)) (walk 5 (length (hole ++ board)) 0 []))
unfolding evaluate_best_hand five
evaluate_best_hand_lem hole board h = rw h refl

-- No choice of five of the cards, by rising indices, is better than what `EvaluateBestHand`
-- returns.
pub evaluate_best_hand_max :
    (hole board : List Card) (is : List ℕ)
    → Choice 0 (length (hole ++ board)) is
    → length is ≡ 5
    → compare_hand_rank
        (evaluate_five_cards (pick (hole ++ board) is))
        (evaluate_best_hand hole board)
      ≢ Ordering.gt
unfolding five
evaluate_best_hand_max hole board is c e =
    let cards = hole ++ board in
    let n = length cards in
    let choices = walk 5 n 0 [] in
    let enough : ltb n 5 ≡ false = ground (arith, Choice-length 0 n is (omega arith) c) in
    let best = best_candidate (map (five cards) choices) in
    subst (λ b. NotAbove b (five cards is)) (sym (evaluate_best_hand_lem hole board enough))
      (walk_complete (λ js. NotAbove best (five cards js)) 5 n 0 [] is (omega arith) c e
        (of_All-map-five cards (NotAbove best) choices
          (best_candidate_max (map (five cards) choices))))

abbrev ChosenRank : List Card → HandRank → Type 0
ChosenRank cards r =
    (is : List ℕ) × Choice 0 (length cards) is × (length is ≡ 5) × (five cards is ≡ r)

-- The first five indices are a choice.
walk-nonempty :
    (n : ℕ) (cs : List (List ℕ))
    → 5 ≤ n
    → All (λ js. js ≢ 0 ∷ 1 ∷ 2 ∷ 3 ∷ 4 ∷ []) cs
    → cs ≡ walk 5 n 0 []
    → ⊥
walk-nonempty n cs h none_of e =
    walk_complete (λ js. js ≢ 0 ∷ 1 ∷ 2 ∷ 3 ∷ 4 ∷ []) 5 n 0 [] (0 ∷ 1 ∷ 2 ∷ 3 ∷ 4 ∷ [])
      (omega arith) (omega arith) refl (subst (All (λ js. js ≢ 0 ∷ 1 ∷ 2 ∷ 3 ∷ 4 ∷ [])) e none_of)
      refl

map-nonempty :
    (cards : List Card) (n : ℕ) (cs : List (List ℕ))
    → 5 ≤ n
    → cs ≡ walk 5 n 0 []
    → 0 < length (map (five cards) cs)
map-nonempty cards n [] h e = absurd (walk-nonempty n [] h tt e)
map-nonempty cards n (c ∷ cs) h e = omega arith

-- With five cards or more, what `EvaluateBestHand` returns is the rank of some choice of five.
pub evaluate_best_hand_attained :
    (hole board : List Card)
    → 5 ≤ length (hole ++ board)
    → (is : List ℕ) × Choice 0 (length (hole ++ board)) is
      × (length is ≡ 5)
      × (evaluate_five_cards (pick (hole ++ board) is) ≡ evaluate_best_hand hole board)
unfolding five
evaluate_best_hand_attained hole board h =
    let cards = hole ++ board in
    let n = length cards in
    let choices = walk 5 n 0 [] in
    let enough : ltb n 5 ≡ false = ground arith in
    subst (ChosenRank cards) (sym (evaluate_best_hand_lem hole board enough)) (
      best_candidate-All (ChosenRank cards) (map (five cards) choices)
        (map-nonempty cards n choices h refl)
        (All-map-five cards (ChosenRank cards) choices (
          walk_sound (λ is. ChosenRank cards (five cards is)) 5 n 0 [] λ is c e. (is, c, e, refl))))
