-- ===== src/StateMachine/Start/Started.antt =====
-- `StartNewHand` of state_machine.go makes a valid hand, with the chips of the seats.
use poker_arena.Common.{
  ℕ, ◌≤◌, ◌<◌, ◌≡◌, refl, sym, ap, ◌∙◌, subst, ◌==◌, ◌&&◌, List, length, arith, u32_size,
  sum_by-sort_by, add32, some, [],
}
use poker_arena.Domain.{
  Result, ok, Card, HandState, TableConfig, betting, standard52_deck, preflop, is_active,
  new_hand_state, invalid_transition, no_active_seats,
}
use poker_arena.Domain.Results.{ok-injective, fail_if-eq_ok, bind-eq_ok}
use poker_arena.Rules.Dealer.{init_hand, deal_preflop}
use poker_arena.Rules.Dealer.Preflop.{deal_preflop-Dealt}
use poker_arena.Rules.Payout.Chips.{stacks, chips}
use poker_arena.StateMachine.Seats.{
  sort_seats, before_seat, next_seat, is_eligible_to_act, count_non_folded_active_seats,
}
use poker_arena.StateMachine.Seats.Find.{Distinct}
use poker_arena.StateMachine.Action.Valid.{IsSound, IsValid}
use poker_arena.StateMachine.Start.{
  Chance, StartNewHandInput, or_fail, small_blind_seat, post_blind, post_blinds, first_to_act,
  start_new_hand,
}
use poker_arena.StateMachine.Start.Fresh.{new_hand_state_lem}
use poker_arena.StateMachine.Start.Blinds.{
  post_blind-Kept, open_betting-IsValid, open_betting-chips,
}

-- A shuffler returns as many cards as it gets.
abbrev pub KeepsLength : (List Card → Result (List Card)) → Type 0
KeepsLength shuffle =
    (deck shuffled : List Card) → shuffle deck ≡ ok shuffled → length shuffled ≡ length deck

-- What holds of a hand that was started from these chips.
abbrev pub Started : ℕ → HandState → Type 0
Started n t = IsValid t × (n < u32_size → chips t ≡ n)

post_blinds-Started :
    (s : HandState) (acting sb_seat bb_seat : ℕ) (c : TableConfig) {t : HandState}
    → IsSound s
    → post_blinds s acting sb_seat bb_seat c ≡ ok t
    → Started (chips s) t
unfolding post_blinds
post_blinds-Started s acting sb_seat bb_seat c {t} v e =
    let opened : HandState = record s { phase = betting; action_order_start_seat = acting } in
    let small = post_blind opened sb_seat c.small_blind in
    let big = post_blind small.0 bb_seat c.big_blind in
    let one = post_blind-Kept opened sb_seat c.small_blind in
    let two = post_blind-Kept small.0 bb_seat c.big_blind in
    let (some_posted, e₁) = fail_if-eq_ok (small.1 == 0 && big.1 == 0) invalid_transition _ e in
    let u : HandState = record big.0 {
      current_bet = big.1;
      last_full_raise = c.big_blind;
      min_raise_to = add32 big.1 c.big_blind;
      last_aggressor_seat = some bb_seat;
    } in
    let sound : IsSound opened = record {
      distinct = v.distinct;
      full_deck = v.full_deck;
      room = v.room;
      board = v.board;
    } in
    let w = two.sound (one.sound sound) in
    let w' : IsSound u = record {
      distinct = w.distinct;
      full_deck = w.full_deck;
      room = w.room;
      board = w.board;
    } in
    subst (Started (chips s)) (ok-injective e₁) (
      open_betting-IsValid u bb_seat w',
      λ h.
          let first = one.same_chips h in
          let second = two.same_chips (omega (arith, first)) in
          open_betting-chips u bb_seat (omega (arith, first, second)) ∙ second ∙ first,
    )

-- The hand of `InitHand`: the shuffled deck and no board, and else what it had.
init_hand_lem :
    (shuffle : List Card → Result (List Card)) (s : HandState) {t : HandState}
    → KeepsLength shuffle
    → init_hand shuffle s ≡ ok t
    → (length t.deck ≡ 52)
      × (t.next_card_index ≡ 0)
      × (t.board ≡ [])
      × (t.street ≡ s.street)
      × (t.seats ≡ s.seats)
      × (t.pot ≡ s.pot)
unfolding init_hand standard52_deck
init_hand_lem shuffle s keep e =
    let (deck, shuffled, e₁) = bind-eq_ok (shuffle standard52_deck) _ e in
    let same = ok-injective e₁ in
    (
      rw (← same) (keep standard52_deck deck shuffled),
      rw (← same) refl,
      rw (← same) refl,
      rw (← same) refl,
      rw (← same) refl,
      rw (← same) refl,
    )

dealt-Sound :
    (shuffle : List Card → Result (List Card)) (s : HandState) {t u : HandState}
    → KeepsLength shuffle
    → Distinct s.seats
    → length s.seats ≤ 6
    → s.pot ≡ 0
    → s.street ≡ preflop
    → init_hand shuffle s ≡ ok t
    → deal_preflop t ≡ ok u
    → IsSound u × (chips u ≡ stacks s.seats)
dealt-Sound shuffle s {t} {u} keep distinct few pot street ready dealt =
    let (deck, index, board, same_street, seats, same_pot) = init_hand_lem shuffle s keep ready in
    let (n, most, d) = deal_preflop-Dealt t dealt in
    let same = d.seats ∙ seats in
    let at_preflop : u.street ≡ preflop = d.street ∙ same_street ∙ street in
    (
      record {
        distinct = subst Distinct (sym same) distinct;
        full_deck = rw d.deck deck;
        room = rw at_preflop (omega (arith, d.index, index, most, few, ap (λ xs. length xs) seats));
        board = rw (at_preflop, d.board, board) refl;
      },
      omega (arith, ap stacks same, d.pot ∙ same_pot ∙ pot),
    )

-- A hand that is started is valid: its seats are distinct, its deck has 52 cards, enough for every
-- street to come, and where betting opens the seat that is to act may act. Its stacks and its pot
-- are together the stacks of the seats that it was given, where those fit in 32 bits. The shuffler
-- returns as many cards as it gets.
pub start_new_hand-IsValid :
    (chance : Chance) (input : StartNewHandInput) {t : HandState}
    → KeepsLength chance.shuffle
    → stacks input.seats < u32_size
    → start_new_hand chance input ≡ ok t
    → IsValid t × (chips t ≡ stacks input.seats)
unfolding start_new_hand sort_seats
start_new_hand-IsValid chance input keep small e =
    let seats = sort_seats input.seats in
    let (playing, e₁) =
      fail_if-eq_ok (count_non_folded_active_seats seats == 0) no_active_seats _ e in
    let (sb_seat, sb, e₂) = bind-eq_ok (small_blind_seat seats input.button_seat) _ e₁ in
    let (bb_seat, bb, e₃) =
      bind-eq_ok (or_fail (next_seat seats sb_seat is_active) no_active_seats) _ e₂ in
    let acting_seat = first_to_act (next_seat seats bb_seat is_eligible_to_act) sb_seat in
    let (fresh, made, e₄) =
      bind-eq_ok
        (new_hand_state chance.entropy input.table_id input.hand_no input.button_seat acting_seat
          seats input.config)
        _ e₃ in
    let (ready, inited, e₅) = bind-eq_ok (init_hand chance.shuffle fresh) _ e₄ in
    let (dealt, given, e₆) = bind-eq_ok (deal_preflop ready) _ e₅ in
    let (distinct, few, same, pot, street) =
      new_hand_state_lem chance.entropy input.table_id input.hand_no input.button_seat acting_seat
        seats input.config made in
    let (sound, total) =
      dealt-Sound chance.shuffle fresh keep (subst Distinct (sym same) distinct)
        (omega (arith, few, ap (λ xs. length xs) same)) pot street inited given in
    let (valid, kept) =
      post_blinds-Started dealt acting_seat sb_seat bb_seat input.config sound e₆ in
    let given_chips : chips dealt ≡ stacks input.seats =
      omega (arith, total, ap stacks same, sum_by-sort_by before_seat (λ s. s.stack) input.seats) in
    (valid, kept (omega (arith, given_chips)) ∙ given_chips)
