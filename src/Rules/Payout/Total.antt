-- ===== src/Rules/Payout/Total.antt =====
-- `ResolvePots` does not fail where the board is complete and every seat that may win has its cards.
use poker_arena.Common.{
  ℕ, suc, ◌≡◌, refl, sym, subst, inl, inr, false, not, ◌||◌, ◌⊎◌, List, [], ◌∷◌, ◌++◌, map, length,
  get_elem?, All, All_get, Bool-cases, Option-cases, arith, leb, ◌==◌,
}
use poker_arena.Domain.{ok, SeatState, HandState, PotAward, is_active, has_active_status}
use poker_arena.Rules.Evaluator.{HandRank, zero_rank, evaluate_best_hand}
use poker_arena.Rules.Payout.{
  contributors_from, pot_at, play_level, levels_loop, award_level, find_winners, resolve_pots,
  contribution_levels, hole_of, challenge, finish_pots,
}
use poker_arena.Rules.Payout.Split.{stake, stakes-split_pot}

-- Every seat that may win has two hole cards.
abbrev pub HasCards : HandState → SeatState → Type 0
HasCards s x = (is_active x ≡ false) ⊎ (length (hole_of x.seat_no s.hole_cards []) ≡ 2)

find_winners_total :
    (s : HandState) (seats : List SeatState) (idxs : List ℕ) (acc : List ℕ × HandRank)
    → All (HasCards s) seats
    → (out : List ℕ × HandRank) × (find_winners s seats idxs acc ≡ ok out)
unfolding find_winners
find_winners_total s seats [] acc h = (acc, refl)
find_winners_total s seats (i ∷ idxs) acc h = elim (Option-cases (get_elem? seats i)) [
  | inl missing ↦
      let (out, e) = find_winners_total s seats idxs acc h in (out, rw (missing, find_winners) e)
  | inr (x, here) ↦ elim (Bool-cases (x.folded || not (has_active_status x.status))) [
    | inl out_of_it ↦
        let (out, e) = find_winners_total s seats idxs acc h in
        (out, rw (here, find_winners) (rw out_of_it e))
    | inr live ↦
        let hole = hole_of x.seat_no s.hole_cards [] in
        let cards = All_get (HasCards s) seats i h here in
        let dealt : not (length hole == 2) ≡ false = ground (arith, cards) in
        let (out, e) =
          find_winners_total s seats idxs (challenge i (evaluate_best_hand hole s.board) acc) h in
        (out, rw (here, find_winners) (rw live (rw dealt e)))
  ]
]

module _ (s : HandState) where
  to_stakes : (seats : List SeatState) → All (HasCards s) seats → All (HasCards s) (map stake seats)
  to_stakes [] h = tt
  to_stakes (x ∷ seats) h = (h.0, to_stakes seats h.1)

  of_stakes : (seats : List SeatState) → All (HasCards s) (map stake seats) → All (HasCards s) seats
  of_stakes [] h = tt
  of_stakes (x ∷ seats) h = (h.0, of_stakes seats h.1)

  award_level-HasCards :
      (i pot : ℕ) (winners : List ℕ) (seats : List SeatState)
      → All (HasCards s) seats
      → All (HasCards s) (award_level s i pot winners seats).0
  unfolding award_level
  award_level-HasCards i pot winners seats h = elim (Bool-cases (length winners == 0)) [
    | inl nobody ↦ rw nobody h
    | inr somebody ↦ rw somebody (
        of_stakes _ (
          subst (All (HasCards s)) (sym (stakes-split_pot s.button_seat pot winners seats))
            (to_stakes seats h)))
  ]

  levels_loop_total :
      (i prev : ℕ) (levels : List ℕ) (seats : List SeatState) (awards : List PotAward)
      → All (HasCards s) seats
      → (seats' : List SeatState) × (awards' : List PotAward) × (levels_loop s i prev levels seats
            awards
          ≡ (seats', ok awards'))
  unfolding levels_loop play_level
  levels_loop_total i prev [] seats awards h = (seats, awards, refl)
  levels_loop_total i prev (level ∷ levels) seats awards h = elim (Bool-cases (leb level prev)) [
    | inl old ↦
        let (x, y, e) = levels_loop_total (suc i) prev levels seats awards h in (x, y, rw old e)
    | inr new ↦ elim (Bool-cases (pot_at prev level seats == 0)) [
      | inl empty ↦
          let (x, y, e) = levels_loop_total (suc i) level levels seats awards h in
          (x, y, rw new (rw empty e))
      | inr full ↦
          let (won, found) =
            find_winners_total s seats (contributors_from level 0 seats) ([], zero_rank) h in
          let pot = pot_at prev level seats in
          let out = award_level s i pot won.0 seats in
          let (x, y, e) =
            levels_loop_total (suc i) level levels out.0 (awards ++ out.1)
              (award_level-HasCards i pot won.0 seats h) in
          (x, y, rw new (rw full (rw (found, play_level) e)))
    ]
  ]

-- A showdown with five board cards, in which every seat that may win has two hole cards, is
-- resolved without an error.
pub resolve_pots_total :
    (s : HandState)
    → length s.board ≡ 5
    → All (HasCards s) s.seats
    → (t : HandState) × (awards : List PotAward) × (resolve_pots s ≡ (t, ok awards))
unfolding resolve_pots
resolve_pots_total s five h =
    let (seats, awards, e) = levels_loop_total s 0 0 (contribution_levels s.seats) s.seats [] h in
    let whole : not (length s.board == 5) ≡ false = ground (arith, five) in
    ((finish_pots s (seats, ok awards)).0, awards, rw whole (rw e refl))
