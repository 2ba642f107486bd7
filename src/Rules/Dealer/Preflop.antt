-- ===== src/Rules/Dealer/Preflop.antt =====
-- What dealing the hole cards in dealer.go changes, and how many cards it takes.
use poker_arena.Common.{
  ℕ, suc, ◌+◌, ◌≤◌, ◌≡◌, refl, ◌∙◌, ap, subst, length-rotated, Bool, Option-cases, List, [], ◌∷◌,
  length, map, inl, inr, get_elem?, select, Bool-cases, sort_by, length-sort_by, ltb, not, ◌&&◌,
  arith, first_index, ◌==◌,
}
use mathlib.Core.Option
use poker_arena.Domain.{
  Card, SeatState, HandState, ok, has_active_status, bad_deck_size, too_few_to_deal,
}
use poker_arena.Domain.Results.{ok-injective, fail_if-eq_ok, bind-eq_ok}
use poker_arena.Rules.Dealer.{draw_card, deal_round, deal_preflop, active_seats_in_deal_order}

-- Between the two states, only cards were taken from the deck, and hole cards given.
pub record Dealt (n : ℕ) (s t : HandState) : Type 0 where
  pub deck : t.deck ≡ s.deck
  pub index : t.next_card_index ≡ s.next_card_index + n
  pub board : t.board ≡ s.board
  pub street : t.street ≡ s.street
  pub seats : t.seats ≡ s.seats
  pub pot : t.pot ≡ s.pot

Dealt-then : {m n k : ℕ} {s t u : HandState} → Dealt m s t → Dealt n t u → m + n ≡ k → Dealt k s u
Dealt-then d e total = record {
  deck = e.deck ∙ d.deck;
  index = omega (arith, d.index, e.index, total);
  board = e.board ∙ d.board;
  street = e.street ∙ d.street;
  seats = e.seats ∙ d.seats;
  pot = e.pot ∙ d.pot;
}

draw_card-Dealt : (s : HandState) {c : Card} {t : HandState} → draw_card s ≡ ok (c, t) → Dealt 1 s t
unfolding draw_card
draw_card-Dealt s {c} {t} e = elim (Option-cases (get_elem? s.deck s.next_card_index)) [
  | inl missing ↦ absurd (cc (rw (missing, draw_card) at e))
  | inr (card, here) ↦
      let same = ap (λ p. p.1) (ok-injective (rw (here, draw_card) at e)) in
      subst (Dealt 1 s) same (record {
        deck = refl;
        index = omega arith;
        board = refl;
        street = refl;
        seats = refl;
        pot = refl;
      })
]

deal_round-Dealt :
    (ns : List ℕ) (s : HandState) (hole : List (ℕ × List Card)) {t : HandState}
    {hole' : List (ℕ × List Card)}
    → deal_round ns s hole ≡ ok (t, hole')
    → Dealt (length ns) s t
unfolding deal_round
deal_round-Dealt [] s hole {t} e = subst (Dealt 0 s) (ap (λ p. p.0) (ok-injective e)) (record {
  deck = refl;
  index = omega arith;
  board = refl;
  street = refl;
  seats = refl;
  pot = refl;
})
deal_round-Dealt (n ∷ ns) s hole e =
    let ((card, drawn), first, rest) = bind-eq_ok (draw_card s) _ e in
    Dealt-then (draw_card-Dealt s first) (deal_round-Dealt ns drawn _ rest) (omega arith)

length-select {ℓ} : {A : Type ℓ} (p : A → Bool) (xs : List A) → length (select p xs) ≤ length xs
length-select p [] = omega arith
length-select p (x ∷ xs) = elim (Bool-cases (p x)) [
  | inl kept ↦ rw kept (omega (arith, length-select p xs))
  | inr left ↦ rw left (omega (arith, length-select p xs))
]

length-map {ℓ κ} :
    {A : Type ℓ} {B : Type κ} (f : A → B) (xs : List A) → length (map f xs) ≡ length xs
length-map f [] = refl
length-map f (x ∷ xs) = ap suc (length-map f xs)

-- At most every seat gets cards.
length-active_seats_in_deal_order :
    (seats : List SeatState) (button : ℕ)
    → length (active_seats_in_deal_order seats button) ≤ length seats
unfolding active_seats_in_deal_order
length-active_seats_in_deal_order seats button =
    let playing : List SeatState =
      select (λ s. has_active_status s.status && ltb 0 s.stack) seats in
    let numbers : List ℕ = map (λ s. s.seat_no) playing in
    let ordered = sort_by ltb numbers in
    let start = suc (Option.get_or (first_index (λ n. n == button) ordered) 0) in
    omega (
      arith,
      length-rotated ordered start (length ordered),
      length-sort_by ltb numbers,
      length-map (λ s. s.seat_no) playing,
      length-select (λ s. has_active_status s.status && ltb 0 s.stack) seats,
    )

-- Dealing the hole cards takes two cards for each seat at most.
pub deal_preflop-Dealt :
    (s : HandState) {t : HandState}
    → deal_preflop s ≡ ok t
    → (n : ℕ) × (n ≤ length s.seats) × Dealt (n + n) s t
unfolding deal_preflop
deal_preflop-Dealt s e =
    let ordered = active_seats_in_deal_order s.seats s.button_seat in
    let (whole, e₁) =
      fail_if-eq_ok (not (length s.deck == 52)) (bad_deck_size (length s.deck)) _ e in
    let (enough, e₂) =
      fail_if-eq_ok (ltb (length ordered) 2) (too_few_to_deal (length ordered)) _ e₁ in
    let ((first, hole), one, e₃) = bind-eq_ok (deal_round ordered s []) _ e₂ in
    let ((second, hole'), two, e₄) = bind-eq_ok (deal_round ordered first hole) _ e₃ in
    let dealt =
      Dealt-then (deal_round-Dealt ordered s [] one) (deal_round-Dealt ordered first hole two)
        refl in
    let same = ok-injective e₄ in
    (
      length ordered,
      length-active_seats_in_deal_order s.seats s.button_seat,
      subst (Dealt (length ordered + length ordered) s) same (record {
        deck = dealt.deck;
        index = dealt.index;
        board = dealt.board;
        street = dealt.street;
        seats = dealt.seats;
        pot = dealt.pot;
      }),
    )
