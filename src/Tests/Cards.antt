-- ===== src/Tests/Cards.antt =====
-- Ranks and payouts on concrete cards.
use Prim.Native.Nat.{Ordering}
use poker_arena.Common.{
  ℕ, ◌+◌, ◌≡◌, ◌≢◌, ◌↔◌, refl, inl, inr, some, List, [], ◌∷◌, ◌++◌, length, Bool, false, true,
  arith, sub32, mul32, sort_by,
}
use poker_arena.Domain.{
  Result, ok, err, clubs, hearts, spades, SeatState, active, HandState, river, showdown, PotAward,
}
use poker_arena.Common.{sum_by}
use poker_arena.Rules.Dealer.{crypto_shuffle, swap}
use poker_arena.Rules.Dealer.Shuffle.{sum_by-crypto_shuffle}
use poker_arena.Rules.Evaluator.{
  evaluate_five_cards, evaluate_best_hand, compare_hand_rank, HandRank, pick,
}
use poker_arena.Rules.Evaluator.Order.{flip, compare_hand_rank-flip, compare_hand_rank_trans}
use poker_arena.Rules.Evaluator.Best.{Choice, evaluate_best_hand_max, evaluate_best_hand_attained}
use poker_arena.Rules.Payout.{resolve_pots, split_pot}
use poker_arena.Rules.Payout.Chips.{stacks}
use poker_arena.Rules.Payout.Winners.{live_best}
use poker_arena.Rules.Payout.Levels.{capped, awarded}
use poker_arena.Rules.Payout.Split.{stacks-split_pot}
use poker_arena.Rules.Payout.Resolve.{resolve_pots-chips}
use poker_arena.Rules.Payout.Total.{resolve_pots_total}
use poker_arena.Tests.Hands.{sample, card, board, aces, kings}

-- The wheel beats nothing but lower hands: a straight to the five.
wheel :
    evaluate_best_hand
      (card 14 hearts ∷ card 2 clubs ∷ [])
      (card 3 spades ∷ card 4 hearts ∷ card 5 hearts ∷ card 9 clubs ∷ card 9 hearts ∷ [])
    ≡ record { category = 5; tiebreak = 5 ∷ [] }
unfolding evaluate_best_hand sort_by
wheel = refl

compare_hand_rank-flip_example :
    (compare_hand_rank (evaluate_best_hand kings board) (evaluate_best_hand aces board)
      ≡ flip (compare_hand_rank (evaluate_best_hand aces board) (evaluate_best_hand kings board)))
    × ((compare_hand_rank (evaluate_best_hand aces board) (evaluate_best_hand kings board)
          ≡ Ordering.eq)
        ↔ (evaluate_best_hand aces board ≡ evaluate_best_hand kings board))
compare_hand_rank-flip_example =
    compare_hand_rank-flip (evaluate_best_hand aces board) (evaluate_best_hand kings board)

abbrev high_card_rank : ℕ → HandRank
high_card_rank n = record { category = 1; tiebreak = n ∷ [] }

compare_hand_rank_trans_example :
    compare_hand_rank (high_card_rank 9) (high_card_rank 12) ≢ Ordering.gt
unfolding compare_hand_rank
compare_hand_rank_trans_example =
    compare_hand_rank_trans (high_card_rank 9) (high_card_rank 10) (high_card_rank 12) (λ e. cc e)
      (λ e. cc e)

evaluate_best_hand_max_example :
    compare_hand_rank
      (evaluate_five_cards (pick (aces ++ board) (0 ∷ 1 ∷ 2 ∷ 3 ∷ 6 ∷ [])))
      (evaluate_best_hand aces board)
    ≢ Ordering.gt
evaluate_best_hand_max_example =
    evaluate_best_hand_max aces board (0 ∷ 1 ∷ 2 ∷ 3 ∷ 6 ∷ []) (omega arith) refl

evaluate_best_hand_attained_example :
    (is : List ℕ) × Choice 0 7 is
    × (length is ≡ 5)
    × (evaluate_five_cards (pick (aces ++ board) is) ≡ evaluate_best_hand aces board)
evaluate_best_hand_attained_example = evaluate_best_hand_attained aces board (omega arith)

-- A seat at the showdown: what it committed, and whether it folded.
abbrev seat_at_showdown : ℕ → ℕ → Bool → SeatState
seat_at_showdown n chips_in folds = record {
  seat_no = n;
  stack = 10;
  total_committed = chips_in;
  committed_in_round = 0;
  folded = folds;
  has_acted_this_round = false;
  status = active;
}

-- Seat 1 committed the most and folded: 40 of its 100 chips are matched by nobody.
abbrev folded_leader : HandState
folded_leader = record sample {
  phase = showdown;
  street = river;
  pot = 210;
  board = board;
  hole_cards = record { seat_no = 2; cards = aces } ∷ record { seat_no = 3; cards = kings } ∷ [];
  seats =
      seat_at_showdown 1 100 true ∷ seat_at_showdown 2 50 false ∷ seat_at_showdown 3 60 false ∷ [];
}

abbrev leader_awards : HandState × Result (List PotAward) → List PotAward
leader_awards (t, ok awards) = awards
leader_awards (t, err e) = []

leader_resolved :
    resolve_pots folded_leader
    ≡ ((resolve_pots folded_leader).0, ok (leader_awards (resolve_pots folded_leader)))
unfolding resolve_pots evaluate_best_hand sort_by mul32 sub32
leader_resolved = refl

resolve_pots-chips_example :
    let t = (resolve_pots folded_leader).0 in
    let awards = leader_awards (resolve_pots folded_leader) in
    (stacks t.seats ≡ 30 + awarded awards)
    × (awarded awards ≡ capped (live_best folded_leader.seats) folded_leader.seats)
    × (t.pot ≡ 0)
resolve_pots-chips_example =
    resolve_pots-chips folded_leader (resolve_pots folded_leader).0
      (leader_awards (resolve_pots folded_leader)) (omega arith) leader_resolved

-- So the stacks get 170 of the 210 chips of the pot.
leader_loses : stacks (resolve_pots folded_leader).0.seats ≡ 200
leader_loses = omega (arith, resolve_pots-chips_example)

resolve_pots_total_example :
    (t : HandState) × (awards : List PotAward) × (resolve_pots folded_leader ≡ (t, ok awards))
resolve_pots_total_example =
    resolve_pots_total folded_leader refl (inl refl, (inr refl, (inr refl, tt)))

stacks-split_pot_example : stacks (split_pot 1 101 (1 ∷ 2 ∷ []) folded_leader.seats) ≡ 30 + 101
stacks-split_pot_example =
    stacks-split_pot 1 101 (1 ∷ 2 ∷ []) folded_leader.seats (omega arith) (omega arith)
      (omega arith)

abbrev three_cards : List ℕ
three_cards = 1 ∷ 2 ∷ 3 ∷ []

abbrev shuffled_cards : List ℕ
shuffled_cards = 2 ∷ 3 ∷ 1 ∷ []

-- Each card changes its place with the first.
first_drawn : crypto_shuffle (λ i. some 0) three_cards ≡ ok shuffled_cards
unfolding crypto_shuffle swap
first_drawn = refl

sum_by-crypto_shuffle_example :
    ((w : ℕ → ℕ) → sum_by w shuffled_cards ≡ sum_by w three_cards)
    × (length shuffled_cards ≡ length three_cards)
sum_by-crypto_shuffle_example = sum_by-crypto_shuffle (λ i. some 0) three_cards first_drawn
