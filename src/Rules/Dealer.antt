-- ===== src/Rules/Dealer.antt =====
-- rules/dealer.go: shuffling and dealing. A shuffler's random source is a function from the bound
-- `i` of a draw to the drawn number, or to nothing where the system's source fails.
pub mod Board
pub mod Preflop
pub mod Shuffle
use mathlib.Core.Option
use poker_arena.Common.{
  ℕ, zero, suc, ◌-◌, Option, none, some, List, [], ◌∷◌, ◌++◌, map, ◌&&◌, ltb, ◌==◌, if◌then◌else◌,
  length, get_elem?, modify, select, sort_by, first_index, rotated, not,
}
use poker_arena.Domain.{
  Result, ok, err, ◌>>=◌, ◌>>◌, fail_if, Card, standard52_deck, SeatState, HandState, Street,
  preflop, flop, turn, has_active_status, shuffle_failed, bad_deck_size, too_few_to_deal,
  deck_exhausted, no_next_street,
}

-- `cards[i], cards[j] = cards[j], cards[i]`
unfoldable pub swap {ℓ} : {A : Type ℓ} → List A → ℕ → ℕ → List A
swap xs i j = elim (get_elem? xs i) [
  | none ↦ xs
  | some a ↦ elim (get_elem? xs j) [ none ↦ xs | some b ↦ modify (modify xs i (λ _. b)) j (λ _. a) ]
]

-- The loop `for i := len(cards) - 1; i > 0; i--`, from `i` down.
unfoldable pub shuffle_from {ℓ} : {A : Type ℓ} → (ℕ → Option ℕ) → ℕ → List A → Result (List A)
unfolding swap
shuffle_from draw zero cards = ok cards
shuffle_from draw (suc i) cards = elim (draw (suc i)) [
  | none ↦ err shuffle_failed
  | some j ↦ shuffle_from draw i (swap cards (suc i) j)
]

-- `cryptoShuffler.Shuffle`
unfoldable pub crypto_shuffle {ℓ} : {A : Type ℓ} → (ℕ → Option ℕ) → List A → Result (List A)
unfolding shuffle_from
crypto_shuffle draw cards = shuffle_from draw (length cards - 1) cards

-- `seededShuffler.Shuffle`: the generator never fails.
unfoldable pub seeded_shuffle {ℓ} : {A : Type ℓ} → (ℕ → ℕ) → List A → Result (List A)
unfolding shuffle_from
seeded_shuffle rng cards = shuffle_from (λ i. some (rng i)) (length cards - 1) cards

-- `InitHand`, over the shuffler of the dealer.
unfoldable pub init_hand : (List Card → Result (List Card)) → HandState → Result HandState
init_hand shuffle state = do
  deck ← shuffle standard52_deck
  ok (record state {
    deck = deck;
    next_card_index = 0;
    board = [];
    hole_cards = [];
    showdown_awards = [];
  })

-- `drawCard`
unfoldable pub draw_card : HandState → Result (Card × HandState)
draw_card state = elim (get_elem? state.deck state.next_card_index) [
  | none ↦ err (deck_exhausted state.next_card_index)
  | some card ↦ ok (card, record state { next_card_index = suc state.next_card_index })
]

-- `activeSeatsInDealOrder`: the playing seats in seat order, from the one after the button.
unfoldable pub active_seats_in_deal_order : List SeatState → ℕ → List ℕ
active_seats_in_deal_order seats button =
    let playing : List ℕ =
      map (λ s. s.seat_no) (select (λ s. has_active_status s.status && ltb 0 s.stack) seats) in
    let ordered = sort_by ltb playing in
    let button_idx = Option.get_or (first_index (λ n. n == button) ordered) 0 in
    rotated ordered (suc button_idx) (length ordered)

-- `hole[seatNo] = append(hole[seatNo], card)`
abbrev pub append_card : ℕ → Card → List (ℕ × List Card) → List (ℕ × List Card)
append_card n card [] = (n, card ∷ []) ∷ []
append_card n card ((m, cards) ∷ hole) =
    if m == n then (m, cards ++ card ∷ []) ∷ hole else (m, cards) ∷ append_card n card hole

-- `hole[seatNo]`: nothing for a missing key.
abbrev pub cards_at : ℕ → List (ℕ × List Card) → List Card
cards_at n [] = []
cards_at n ((m, cards) ∷ hole) = if m == n then cards else cards_at n hole

-- One round of the deal: a card for each seat in order.
unfoldable pub deal_round :
    List ℕ → HandState → List (ℕ × List Card) → Result (HandState × List (ℕ × List Card))
unfolding draw_card
deal_round [] state hole = ok (state, hole)
deal_round (n ∷ ordered) state hole = do
  (card, drawn) ← draw_card state
  deal_round ordered drawn (append_card n card hole)

-- `DealPreflop`
unfoldable pub deal_preflop : HandState → Result HandState
unfolding active_seats_in_deal_order deal_round
deal_preflop state = do
  fail_if (not (length state.deck == 52)) (bad_deck_size (length state.deck))
  let ordered = active_seats_in_deal_order state.seats state.button_seat
  fail_if (ltb (length ordered) 2) (too_few_to_deal (length ordered))
  (first, hole₁) ← deal_round ordered state []
  (second, hole₂) ← deal_round ordered first hole₁
  ok (record second {
    hole_cards = map (λ n. record { seat_no = n; cards = cards_at n hole₂ }) ordered;
  })

-- The cards that follow on the board after each street.
abbrev pub board_draw : Street → Option ℕ
board_draw preflop = some 3
board_draw flop = some 1
board_draw turn = some 1
board_draw _ = none

unfoldable pub draw_board : ℕ → HandState → Result HandState
unfolding draw_card
draw_board zero state = ok state
draw_board (suc n) state = do
  (card, drawn) ← draw_card state
  draw_board n (record drawn { board = drawn.board ++ card ∷ [] })

-- `DealFlopTurnRiver`: a burnt card, then the cards of the street.
unfoldable pub deal_flop_turn_river : HandState → Result HandState
unfolding draw_card draw_board
deal_flop_turn_river state = do
  fail_if (not (length state.deck == 52)) (bad_deck_size (length state.deck))
  (burnt, rest) ← draw_card state
  elim (board_draw state.street) [ none ↦ err no_next_street | some n ↦ draw_board n rest ]
