-- ===== src/Rules/Evaluator/Order.antt =====
-- `CompareHandRank` is a total order on hand ranks, and the best hand is the largest candidate.
use Prim.Native.Nat.{Ordering}
use poker_arena.Common.{
  ℕ, ◌≡◌, ◌↔◌, ◌≢◌, refl, subst, Bool, true, false, List, [], ◌∷◌, All, arith, if◌then◌else◌,
}
use poker_arena.Rules.Evaluator.{HandRank, compare_hand_rank, compare_tiebreak, best_of, is_gt}

abbrev pub flip : Ordering → Ordering
flip Ordering.lt = Ordering.gt
flip Ordering.eq = Ordering.eq
flip Ordering.gt = Ordering.lt

compare_tiebreak-flip : (xs ys : List ℕ) → compare_tiebreak ys xs ≡ flip (compare_tiebreak xs ys)
unfolding compare_tiebreak
compare_tiebreak-flip [] [] = refl
compare_tiebreak-flip [] (y ∷ ys) = refl
compare_tiebreak-flip (x ∷ xs) [] = refl
compare_tiebreak-flip (x ∷ xs) (y ∷ ys) = ground (arith, compare_tiebreak-flip xs ys)

compare_tiebreak-eq : (xs ys : List ℕ) → compare_tiebreak xs ys ≡ Ordering.eq → xs ≡ ys
unfolding compare_tiebreak
compare_tiebreak-eq [] [] e = refl
compare_tiebreak-eq [] (y ∷ ys) e = absurd (cc e)
compare_tiebreak-eq (x ∷ xs) [] e = absurd (cc e)
compare_tiebreak-eq (x ∷ xs) (y ∷ ys) e = ground (arith, compare_tiebreak-eq xs ys)

compare_tiebreak_refl : (xs : List ℕ) → compare_tiebreak xs xs ≡ Ordering.eq
unfolding compare_tiebreak
compare_tiebreak_refl [] = refl
compare_tiebreak_refl (x ∷ xs) = ground (arith, compare_tiebreak_refl xs)

compare_tiebreak_trans :
    (xs ys zs : List ℕ)
    → compare_tiebreak xs ys ≢ Ordering.gt
    → compare_tiebreak ys zs ≢ Ordering.gt
    → compare_tiebreak xs zs ≢ Ordering.gt
unfolding compare_tiebreak
compare_tiebreak_trans [] [] zs h k = k
compare_tiebreak_trans [] (y ∷ ys) [] h k = λ e. cc e
compare_tiebreak_trans [] (y ∷ ys) (z ∷ zs) h k = λ e. cc e
compare_tiebreak_trans (x ∷ xs) [] zs h k = absurd (h refl)
compare_tiebreak_trans (x ∷ xs) (y ∷ ys) [] h k = absurd (k refl)
compare_tiebreak_trans (x ∷ xs) (y ∷ ys) (z ∷ zs) h k =
    ground (arith, compare_tiebreak_trans xs ys zs)

-- Comparing hand ranks is antisymmetric: the other way round the outcome is flipped, and ranks
-- compare as equal exactly when they are equal.
pub compare_hand_rank-flip :
    (a b : HandRank)
    → (compare_hand_rank b a ≡ flip (compare_hand_rank a b))
      × ((compare_hand_rank a b ≡ Ordering.eq) ↔ (a ≡ b))
unfolding compare_hand_rank
compare_hand_rank-flip a b =
    (flipped, (equal, λ e. subst (λ z. compare_hand_rank a z ≡ Ordering.eq) e (self a)))
  where
    flipped : compare_hand_rank b a ≡ flip (compare_hand_rank a b)
    flipped = ground (arith, compare_tiebreak-flip a.tiebreak b.tiebreak)

    equal : compare_hand_rank a b ≡ Ordering.eq → a ≡ b
    equal e = ground (arith, compare_tiebreak-eq a.tiebreak b.tiebreak)

    self : (c : HandRank) → compare_hand_rank c c ≡ Ordering.eq
    self c = ground (arith, compare_tiebreak_refl c.tiebreak)

-- Comparing hand ranks is transitive: where the second is not below the first, nor the third below
-- the second, the third is not below the first.
pub compare_hand_rank_trans :
    (a b c : HandRank)
    → compare_hand_rank a b ≢ Ordering.gt
    → compare_hand_rank b c ≢ Ordering.gt
    → compare_hand_rank a c ≢ Ordering.gt
unfolding compare_hand_rank
compare_hand_rank_trans a b c h k =
    ground (arith, compare_tiebreak_trans a.tiebreak b.tiebreak c.tiebreak)

-- `b` is at least as good as `a`.
abbrev pub NotAbove : HandRank → HandRank → Type 0
NotAbove b a = compare_hand_rank a b ≢ Ordering.gt

challenge_best :
    (best candidate : HandRank)
    → let next = if is_gt (compare_hand_rank candidate best) then candidate else best in
      NotAbove next best × NotAbove next candidate
challenge_best best candidate = ground (
  arith,
  (compare_hand_rank-flip candidate best).0,
  (compare_hand_rank-flip best best).1.1 refl,
  (compare_hand_rank-flip candidate candidate).1.1 refl,
)

-- The loop keeps the largest: it is at least the first rank and every candidate.
pub best_of_max :
    (best : HandRank) (candidates : List HandRank)
    → NotAbove (best_of best candidates) best × All (NotAbove (best_of best candidates)) candidates
unfolding best_of
best_of_max best [] = (λ e. cc (e, (compare_hand_rank-flip best best).1.1 refl), tt)
best_of_max best (candidate ∷ rest) =
    let next = if is_gt (compare_hand_rank candidate best) then candidate else best in
    let (above_next, above_rest) = best_of_max next rest in
    let (old, new) = challenge_best best candidate in
    (
      compare_hand_rank_trans best next (best_of next rest) old above_next,
      (compare_hand_rank_trans candidate next (best_of next rest) new above_next, above_rest),
    )

-- The loop returns one of the ranks that it is given.
pub best_of-All :
    (P : HandRank → Type 0) (best : HandRank) (candidates : List HandRank)
    → P best
    → All P candidates
    → P (best_of best candidates)
unfolding best_of
best_of-All P best [] p h = p
best_of-All P best (candidate ∷ rest) p h =
    best_of-All P (if is_gt (compare_hand_rank candidate best) then candidate else best) rest
      (pick_one (is_gt (compare_hand_rank candidate best))) h.1
  where
    pick_one : (b : Bool) → P (if b then candidate else best)
    pick_one true = h.0
    pick_one false = p
