-- ===== src/Rules/Evaluator.antt =====
-- rules/evaluator.go: the best five-card hand of up to seven cards. A Go map from ranks or suits is
-- an association list in the order of insertion. Ranks are uint8.
pub mod Order
pub mod Best
use Prim.Native.Nat.{Ordering, compare}
use poker_arena.Common.{
  ℕ, zero, suc, ◌+◌, ◌-◌, ◌%◌, Bool, true, false, ◌&&◌, Option, none, some, List, [], ◌∷◌, ◌++◌,
  map, ltb, ◌==◌, if◌then◌else◌, length, get_elem?, get_or, sort_by,
}
use poker_arena.Rules.HandCategory
use poker_arena.Domain.{Card, Suit, clubs, diamonds, hearts, spades, contains}

-- `HandRank{}` has category 0 and no tiebreak.
pub record HandRank : Type 0 where
  pub category : ℕ
  pub tiebreak : List ℕ

abbrev pub zero_rank : HandRank
zero_rank = record { category = 0; tiebreak = [] }

-- The two loops of `CompareHandRank`: the first difference decides, then the longer list.
unfoldable pub compare_tiebreak : List ℕ → List ℕ → Ordering
compare_tiebreak [] [] = Ordering.eq
compare_tiebreak [] (y ∷ ys) = Ordering.lt
compare_tiebreak (x ∷ xs) [] = Ordering.gt
compare_tiebreak (x ∷ xs) (y ∷ ys) = elim (compare x y) [
  | Ordering.lt ↦ Ordering.lt
  | Ordering.gt ↦ Ordering.gt
  | Ordering.eq ↦ compare_tiebreak xs ys
]

-- `CompareHandRank`: -1, 0 and 1 are `lt`, `eq` and `gt`.
unfoldable pub compare_hand_rank : HandRank → HandRank → Ordering
unfolding compare_tiebreak
compare_hand_rank a b = elim (compare a.category b.category) [
  | Ordering.lt ↦ Ordering.lt
  | Ordering.gt ↦ Ordering.gt
  | Ordering.eq ↦ compare_tiebreak a.tiebreak b.tiebreak
]

abbrev pub is_gt : Ordering → Bool
is_gt Ordering.gt = true
is_gt _ = false

abbrev pub is_eq : Ordering → Bool
is_eq Ordering.eq = true
is_eq _ = false

pub record RankGroup : Type 0 where
  pub rank : ℕ
  pub count : ℕ

-- `rankCounts[r]++`
abbrev pub count_rank : ℕ → List RankGroup → List RankGroup
count_rank r [] = record { rank = r; count = 1 } ∷ []
count_rank r (g ∷ gs) =
    if g.rank == r then record g { count = suc g.count } ∷ gs else g ∷ count_rank r gs

abbrev pub rank_counts : List Card → List RankGroup → List RankGroup
rank_counts [] counts = counts
rank_counts (c ∷ cs) counts = rank_counts cs (count_rank c.rank counts)

abbrev pub suit_eq : Suit → Suit → Bool
suit_eq clubs clubs = true
suit_eq diamonds diamonds = true
suit_eq hearts hearts = true
suit_eq spades spades = true
suit_eq _ _ = false

abbrev pub has_suit : Suit → List Suit → Bool
has_suit s [] = false
has_suit s (t ∷ ts) = if suit_eq s t then true else has_suit s ts

-- The keys of the map `suits`.
abbrev pub suits_of : List Card → List Suit → List Suit
suits_of [] seen = seen
suits_of (c ∷ cs) seen = suits_of cs (if has_suit c.suit seen then seen else c.suit ∷ seen)

-- The comparison of `rankGroups`: by count, then by rank, both falling.
abbrev pub group_before : RankGroup → RankGroup → Bool
group_before g h = if g.count == h.count then ltb h.rank g.rank else ltb h.count g.count

abbrev pub descending : ℕ → ℕ → Bool
descending a b = ltb b a

-- `rankGroups`
unfoldable pub rank_groups : List RankGroup → List RankGroup
rank_groups counts = sort_by group_before counts

-- The first loop of `straightHighRank`: each rank once.
abbrev pub unique_ranks : List ℕ → List ℕ → List ℕ
unique_ranks [] seen = []
unique_ranks (r ∷ rs) seen =
    if contains r seen then unique_ranks rs seen else r ∷ unique_ranks rs (r ∷ seen)

-- `r - 1` on uint8.
abbrev pub pred8 : ℕ → ℕ
pred8 r = (r + 255) % 256

-- The rest of `straightHighRank`, on the sorted ranks.
unfoldable pub straight_of : List ℕ → Option ℕ
straight_of (a ∷ b ∷ c ∷ d ∷ e ∷ []) =
    if a == 14 && (b == 5 && (c == 4 && (d == 3 && e == 2)))
    then some 5
    else if pred8 a == b && (pred8 b == c && (pred8 c == d && pred8 d == e))
    then some a
    else none
straight_of _ = none

-- `straightHighRank`
unfoldable pub straight_high_rank : List ℕ → Option ℕ
unfolding straight_of
straight_high_rank ranks = straight_of (sort_by descending (unique_ranks ranks []))

abbrev pub group_at : List RankGroup → ℕ → RankGroup
group_at gs i = get_or gs i (record { rank = 0; count = 0 })

abbrev pub group_ranks : List RankGroup → List ℕ
group_ranks = map (λ g. g.rank)

-- The ladder at the end of `evaluateFiveCards`, below the straight flush.
unfoldable pub classify : Bool → Option ℕ → List ℕ → List RankGroup → HandRank
classify is_flush straight_high ranks groups =
    let g₀ = group_at groups 0 in
    let g₁ = group_at groups 1 in
    let g₂ = group_at groups 2 in
    if g₀.count == 4
    then record { category = HandCategory.four_of_a_kind; tiebreak = g₀.rank ∷ g₁.rank ∷ [] }
    else if g₀.count == 3 && g₁.count == 2
    then record { category = HandCategory.full_house; tiebreak = g₀.rank ∷ g₁.rank ∷ [] }
    else if is_flush
    then record { category = HandCategory.flush; tiebreak = ranks }
    else elim straight_high [
      | some high ↦ record { category = HandCategory.straight; tiebreak = high ∷ [] }
      | none ↦
          if g₀.count == 3
          then record { category = HandCategory.three_of_a_kind; tiebreak = group_ranks groups }
          else if g₀.count == 2 && g₁.count == 2
          then record {
            category = HandCategory.two_pair;
            tiebreak =
                if ltb g₀.rank g₁.rank
                then g₁.rank ∷ g₀.rank ∷ g₂.rank ∷ []
                else g₀.rank ∷ g₁.rank ∷ g₂.rank ∷ [];
          }
          else if g₀.count == 2
          then record { category = HandCategory.one_pair; tiebreak = group_ranks groups }
          else record { category = HandCategory.high_card; tiebreak = ranks }
    ]

-- `evaluateFiveCards`
unfoldable pub evaluate_five_cards : List Card → HandRank
unfolding straight_high_rank rank_groups classify
evaluate_five_cards cards =
    let ranks = sort_by descending (map (λ c. c.rank) cards) in
    let is_flush : Bool = length (suits_of cards []) == 1 in
    let straight_high = straight_high_rank ranks in
    let other : HandRank =
      classify is_flush straight_high ranks (rank_groups (rank_counts cards [])) in
    elim straight_high [
      | none ↦ other
      | some high ↦
          if is_flush
          then record { category = HandCategory.straight_flush; tiebreak = high ∷ [] }
          else other
    ]

-- `start, start + 1, …`, as many as the second argument says.
abbrev pub range_from : ℕ → ℕ → List ℕ
range_from start zero = []
range_from start (suc n) = start ∷ range_from (suc start) n

abbrev pub gather {ℓ κ} : {A : Type ℓ} {B : Type κ} → (A → List B) → List A → List B
gather f [] = []
gather f (x ∷ xs) = f x ++ gather f xs

-- `walk` of `combinations`: `left` is `choose - depth`, so `i` runs from `start` to `n - left`.
unfoldable pub walk : ℕ → ℕ → ℕ → List ℕ → List (List ℕ)
walk zero n start combo = combo ∷ []
walk (suc left) n start combo =
    gather (λ i. walk left n (suc i) (combo ++ i ∷ [])) (range_from start (n - left - start))

-- `combinations`
unfoldable pub combinations : ℕ → ℕ → List (List ℕ)
unfolding walk
combinations n choose = walk choose n 0 []

abbrev pub pick_one {ℓ} : {A : Type ℓ} → Option A → List A → List A
pick_one none xs = xs
pick_one (some x) xs = x ∷ xs

-- `[]domain.Card{all[c[0]], …, all[c[4]]}`
abbrev pub pick {ℓ} : {A : Type ℓ} → List A → List ℕ → List A
pick xs [] = []
pick xs (i ∷ is) = pick_one (get_elem? xs i) (pick xs is)

-- The loop of `EvaluateBestHand` over the candidates after the first.
unfoldable pub best_of : HandRank → List HandRank → HandRank
best_of best [] = best
best_of best (candidate ∷ rest) =
    best_of (if is_gt (compare_hand_rank candidate best) then candidate else best) rest

abbrev pub best_candidate : List HandRank → HandRank
unfolding best_of
best_candidate [] = zero_rank
best_candidate (first ∷ rest) = best_of first rest

-- `EvaluateBestHand`
unfoldable pub evaluate_best_hand : List Card → List Card → HandRank
unfolding combinations evaluate_five_cards best_of compare_hand_rank
evaluate_best_hand hole board =
    let all = hole ++ board in
    if ltb (length all) 5
    then zero_rank
    else best_candidate (map (λ c. evaluate_five_cards (pick all c)) (combinations (length all) 5))
