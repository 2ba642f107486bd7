-- ===== src/Rules/Dealer/Board.antt =====
-- What dealing a street of dealer.go changes, and that it does not fail while cards are left.
use poker_arena.Common.{
  ℕ, zero, suc, ◌+◌, ◌≤◌, ◌<◌, ◌≡◌, ◌∙◌, ap, some, List, ◌∷◌, [], ◌++◌, length, get_elem?_lt,
  length-append, arith,
}
use poker_arena.Domain.{ok, HandState, Card}
use poker_arena.Rules.Dealer.{draw_card, draw_board, deal_flop_turn_river, board_draw}

-- A state after more cards were taken from the deck.
abbrev pub with_cards : HandState → ℕ → List Card → HandState
with_cards s n board = record s { next_card_index = s.next_card_index + n; board = board }

at_index : HandState → List Card → ℕ → HandState
at_index s board n = record s { next_card_index = n; board = board }

at_index-eq :
    (s : HandState) (board : List Card) {m n : ℕ} → m ≡ n → at_index s board m ≡ at_index s board n
at_index-eq s board e = ap (at_index s board) e

pub draw_card_lem :
    (s : HandState)
    → s.next_card_index < length s.deck
    → (c : Card) × (draw_card s ≡ ok (c, record s { next_card_index = suc s.next_card_index }))
unfolding draw_card
draw_card_lem s h = let (c, e) = get_elem?_lt s.deck s.next_card_index h in (c, rw (e, draw_card))

pub draw_board_lem :
    (n : ℕ) (s : HandState)
    → s.next_card_index + n ≤ length s.deck
    → (b : List Card) × (length b ≡ length s.board + n) × (draw_board n s ≡ ok (with_cards s n b))
unfolding draw_board at_index
draw_board_lem zero s h =
    (s.board, omega arith, ap ok (at_index-eq s s.board {m = s.next_card_index} (omega arith)))
draw_board_lem (suc n) s h =
    let (c, e) = draw_card_lem s (omega arith) in
    let next : HandState = record s {
      next_card_index = suc s.next_card_index;
      board = s.board ++ c ∷ [];
    } in
    let (b, len, f) = draw_board_lem n next (omega arith) in
    (
      b,
      omega (arith, len, length-append s.board (c ∷ [])),
      rw e (f ∙ ap ok (at_index-eq s b {m = suc s.next_card_index + n} (omega arith))),
    )

-- Where the next street's cards are in the deck, they are dealt, and only the board and the place
-- in the deck change.
pub deal_flop_turn_river_lem :
    (s : HandState) (n : ℕ)
    → board_draw s.street ≡ some n
    → length s.deck ≡ 52
    → s.next_card_index + suc n ≤ 52
    → (b : List Card) × (length b ≡ length s.board + n)
      × (deal_flop_turn_river s ≡ ok (with_cards s (suc n) b))
unfolding deal_flop_turn_river at_index
deal_flop_turn_river_lem s n street deck room =
    let (c, e) = draw_card_lem s (omega arith) in
    let next : HandState = record s { next_card_index = suc s.next_card_index } in
    let (b, len, f) = draw_board_lem n next (omega arith) in
    (
      b,
      len,
      rw (deck, e, street)
          (f ∙ ap ok (at_index-eq s b {m = suc s.next_card_index + n} (omega arith))),
    )
