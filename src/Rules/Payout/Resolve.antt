-- ===== src/Rules/Payout/Resolve.antt =====
-- `ResolvePots`: what it pays out of the commitments, and that every award reaches a stack.
use Prim.Native.Nat.{min}
use poker_arena.Common.{
  ℕ, suc, ◌+◌, ◌≤◌, ◌<◌, ◌≡◌, refl, ap, ◌∙◌, subst, inl, inr, ◌⊎◌, true, false, not, List, [], ◌∷◌,
  ◌++◌, map, All, All-mono, length, Bool-cases, arith, leb, ◌==◌, ==_iff, u32_size,
}
use poker_arena.Domain.{Result, ok, err, SeatState, HandState, PotAward, contains}
use poker_arena.Domain.Results.{ok-injective, Result-cases}
use poker_arena.Rules.Evaluator.{zero_rank}
use poker_arena.Rules.Payout.{
  contributors_from, pot_at, play_level, levels_loop, award_level, award_for, find_winners,
  resolve_pots, contribution_levels, finish_pots,
}
use poker_arena.Rules.Payout.Chips.{stacks}
use poker_arena.Rules.Payout.Split.{stake, InRange, stakes-split_pot, stacks-split_pot}
use poker_arena.Rules.Payout.Winners.{live_best, has_live-contributors, find_winners_lem}
use poker_arena.Rules.Payout.Ladder.{
  Rising, Covered, contribution_levels-Rising, contribution_levels-Covered, contribution_levels-All,
}
use poker_arena.Rules.Payout.Levels.{
  committed, capped, awarded, Gap, due, pot_at-exact, live_best-le, paid-live_best, paid-capped,
  paid-committed, paid-All, min_step, capped_mono, capped-le,
}

-- What playing one level does: only stacks change, by what is due.
abbrev Plays : ℕ → ℕ → List SeatState → List SeatState × List PotAward → Type 0
Plays level pot seats out =
    (map stake out.0 ≡ map stake seats)
    × (awarded out.1 ≡ due level pot seats)
    × (stacks out.0 ≡ stacks seats + awarded out.1)

award_level-Plays :
    (state : HandState) (i level pot : ℕ) (winners : List ℕ) (seats : List SeatState)
    → InRange (length seats) winners
    → (length winners == 0) ≡ not (leb level (live_best seats))
    → stacks seats + due level pot seats < u32_size
    → Plays level pot seats (award_level state i pot winners seats)
unfolding award_level award_for
award_level-Plays state i level pot winners seats r e small =
    elim (Bool-cases (length winners == 0)) [
      | inl nobody ↦ rw nobody (refl, ground arith, omega arith)
      | inr somebody ↦
          let due_all : due level pot seats ≡ pot = ground arith in
          rw somebody (
            stakes-split_pot state.button_seat pot winners seats,
            omega (arith, due_all),
            omega (
              arith,
              stacks-split_pot state.button_seat pot winners seats (ground arith) r
                  (omega (arith, due_all)),
            ),
          )
    ]

play_level-Plays :
    (state : HandState) (i level pot : ℕ) (seats : List SeatState)
    (out : List SeatState × List PotAward)
    → 0 < level
    → stacks seats + due level pot seats < u32_size
    → play_level state i level pot seats ≡ ok out
    → Plays level pot seats out
unfolding play_level
play_level-Plays state i level pot seats out h small e =
    elim (Result-cases
      (find_winners state seats (contributors_from level 0 seats) ([], zero_rank))) [
        | inr (problem, failed) ↦ absurd (cc (rw (failed, play_level) at e))
        | inl (won, found) ↦
            let (range, nobody) =
              find_winners_lem state seats (contributors_from level 0 seats) ([], zero_rank) won tt
                found in
            let same = ok-injective (rw (found, play_level) at e) in
            subst (Plays level pot seats) same (
              award_level-Plays state i level pot won.0 seats range
                (nobody ∙ ap not (has_live-contributors level seats h)) small)
      ]

awarded-append : (xs ys : List PotAward) → awarded (xs ++ ys) ≡ awarded xs + awarded ys
awarded-append [] ys = omega arith
awarded-append (x ∷ xs) ys = omega (arith, awarded-append xs ys)

Rising-above : (l : ℕ) (ls : List ℕ) (c : ℕ) → Rising l ls → contains c ls ≡ true → l < c
Rising-above l [] c r e = absurd (cc e)
Rising-above l (m ∷ ls) c r e = ground (arith, r.0, ==_iff c m, Rising-above m ls c r.1)

Covered-Gap :
    (prev l : ℕ) (ls : List ℕ) (c : ℕ)
    → Rising l ls
    → Covered prev (l ∷ ls) c
    → (c ≤ prev) ⊎ (l ≤ c)
Covered-Gap prev l ls c r h = ground (arith, ==_iff c l, Rising-above l ls c r)

Covered-next :
    (prev l : ℕ) (ls : List ℕ) (c : ℕ) → prev < l → Covered prev (l ∷ ls) c → Covered l ls c
Covered-next prev l ls c p h = ground (arith, ==_iff c l)

-- What is still to be paid from a level on, and what the rest of the loop makes of it.
record Ready (prev : ℕ) (levels : List ℕ) (seats : List SeatState) : Type 0 where
  rising : Rising prev levels
  small_levels : All (λ l. l < u32_size) levels
  covered : All (λ s. Covered prev levels s.total_committed) seats
  small : committed seats < u32_size
  fits :
      stacks seats + capped (live_best seats) seats
      < u32_size + capped (min prev (live_best seats)) seats

-- The facts at one level.
module _ (prev level : ℕ) (levels : List ℕ) (seats : List SeatState)
    (r : Ready prev (level ∷ levels) seats) where
  between_levels : Gap prev level seats
  between_levels =
      All-mono (λ s. Covered prev (level ∷ levels) s.total_committed)
        (λ s. (s.total_committed ≤ prev) ⊎ (level ≤ s.total_committed))
        (λ s h. Covered-Gap prev level levels s.total_committed r.rising.1 h) seats r.covered

  level_due :
      due level (pot_at prev level seats) seats + capped (min prev (live_best seats)) seats
      ≡ capped (min level (live_best seats)) seats
  level_due =
      min_step prev level (pot_at prev level seats) seats r.rising.0
        (pot_at-exact prev level seats r.rising.0 r.small_levels.0 r.small between_levels)
        between_levels

  level_room : stacks seats + due level (pot_at prev level seats) seats < u32_size
  level_room = omega (
    arith,
    level_due,
    r.fits,
    capped_mono (min level (live_best seats)) (live_best seats) seats (omega arith),
  )

  module _ (paid : List SeatState) (same : map stake paid ≡ map stake seats) where
    best_paid : capped (live_best paid) paid ≡ capped (live_best seats) seats
    best_paid =
        ap (λ m. capped m paid) (paid-live_best seats paid same)
        ∙ paid-capped seats paid same (live_best seats)

    level_paid :
        capped (min level (live_best paid)) paid ≡ capped (min level (live_best seats)) seats
    level_paid =
        ap (λ m. capped (min level m) paid) (paid-live_best seats paid same)
        ∙ paid-capped seats paid same (min level (live_best seats))

    next_Ready :
        stacks paid ≡ stacks seats + due level (pot_at prev level seats) seats
        → Ready level levels paid
    next_Ready e = record {
      rising = r.rising.1;
      small_levels = r.small_levels.1;
      covered = paid-All seats paid same (Covered level levels) (
          All-mono (λ s. Covered prev (level ∷ levels) s.total_committed)
            (λ s. Covered level levels s.total_committed)
            (λ s h. Covered-next prev level levels s.total_committed r.rising.0 h) seats r.covered);
      small = omega (arith, paid-committed seats paid same, r.small);
      fits = omega (arith, e, best_paid, level_paid, level_due, r.fits);
    }

-- Of the commitments up to that of the best seat that may win, the loop pays out what lies above
-- `prev`, and the stacks grow by the awards.
abbrev Pays : ℕ → List SeatState → List PotAward → List SeatState → List PotAward → Type 0
Pays prev seats awards seats' awards' =
    (awarded awards' + capped (min prev (live_best seats)) seats
      ≡ awarded awards + capped (live_best seats) seats)
    × (stacks seats' + awarded awards ≡ stacks seats + awarded awards')

levels_loop-Pays :
    (state : HandState) (i prev : ℕ) (levels : List ℕ) (seats : List SeatState)
    (awards : List PotAward) (seats' : List SeatState) (awards' : List PotAward)
    → Ready prev levels seats
    → levels_loop state i prev levels seats awards ≡ (seats', ok awards')
    → Pays prev seats awards seats' awards'
unfolding levels_loop
levels_loop-Pays state i prev [] seats awards seats' awards' r e =
    let best = live_best-le prev seats (
      All-mono (λ s. Covered prev [] s.total_committed) (λ s. s.total_committed ≤ prev)
        (λ s h. ground arith) seats r.covered) in
    let whole : min prev (live_best seats) ≡ live_best seats = omega arith in
    let same_seats : seats ≡ seats' = ap (λ p. p.0) e in
    let same_awards : awards ≡ awards' = ok-injective (ap (λ p. p.1) e) in
    subst (λ z. Pays prev seats awards z awards') same_seats
      (subst (λ z. Pays prev seats awards seats z) same_awards
        (ap (λ m. awarded awards + capped m seats) whole, refl))
levels_loop-Pays state i prev (level ∷ levels) seats awards seats' awards' r e =
    let rises : leb level prev ≡ false = ground (arith, r.rising) in
    let e₁ = rw rises at e in
    let pot = pot_at prev level seats in
    elim (Bool-cases (pot == 0)) [
      | inl empty ↦
          let nothing : due level pot seats ≡ 0 = ground arith in
          let (paid, grown) =
            levels_loop-Pays state (suc i) level levels seats awards seats' awards'
              (next_Ready prev level levels seats r seats refl (omega (arith, nothing)))
              (rw empty at e₁) in
          (omega (arith, paid, nothing, level_due prev level levels seats r), grown)
      | inr full ↦ elim (Result-cases (play_level state i level pot seats)) [
        | inr (problem, failed) ↦ absurd (cc (rw failed at (rw full at e₁)))
        | inl ((next, award), played) ↦
            let (same, amount, growth) =
              play_level-Plays state i level pot seats (next, award) (omega (arith, r.rising))
                (level_room prev level levels seats r) played in
            let (paid, grown) =
              levels_loop-Pays state (suc i) level levels next (awards ++ award) seats' awards'
                (next_Ready prev level levels seats r next same (omega (arith, amount, growth)))
                (rw played at (rw full at e₁)) in
            (
              omega (
                arith,
                paid,
                amount,
                awarded-append awards award,
                level_due prev level levels seats r,
                best_paid prev level levels seats r next same,
                level_paid prev level levels seats r next same,
              ),
              omega (arith, grown, growth, awarded-append awards award),
            )
      ]
    ]

committed-each : (seats : List SeatState) → All (λ s. s.total_committed ≤ committed seats) seats
committed-each [] = tt
committed-each (s ∷ seats) = (
  omega arith,
  All-mono (λ x. x.total_committed ≤ committed seats)
      (λ x. x.total_committed ≤ s.total_committed + committed seats) (λ x h. omega arith) seats
      (committed-each seats),
)

capped-zero : (seats : List SeatState) → capped 0 seats ≡ 0
capped-zero [] = refl
capped-zero (s ∷ seats) = omega (arith, capped-zero seats)

first_Ready :
    (seats : List SeatState)
    → stacks seats + committed seats < u32_size
    → Ready 0 (contribution_levels seats) seats
first_Ready seats h = record {
  rising = contribution_levels-Rising seats;
  small_levels =
      contribution_levels-All (λ l. l < u32_size) seats
        (All-mono (λ s. s.total_committed ≤ committed seats) (λ s. s.total_committed < u32_size)
          (λ s k. omega arith) seats (committed-each seats));
  covered = contribution_levels-Covered seats;
  small = omega arith;
  fits = omega (arith, capped-le (live_best seats) seats);
}

abbrev Settled : HandState → HandState → List PotAward → Type 0
Settled s t awards =
    (stacks t.seats ≡ stacks s.seats + awarded awards)
    × (awarded awards ≡ capped (live_best s.seats) s.seats)
    × (t.pot ≡ 0)

finish_pots-Settled :
    (s t : HandState) (awards : List PotAward) (out : List SeatState × Result (List PotAward))
    → stacks s.seats + committed s.seats < u32_size
    → levels_loop s 0 0 (contribution_levels s.seats) s.seats [] ≡ out
    → finish_pots s out ≡ (t, ok awards)
    → Settled s t awards
finish_pots-Settled s t awards (seats', err problem) small loop e = absurd (cc (ap (λ p. p.1) e))
finish_pots-Settled s t awards (seats', ok awards') small loop e =
    let (paid, grown) =
      levels_loop-Pays s 0 0 (contribution_levels s.seats) s.seats [] seats' awards'
        (first_Ready s.seats small) loop in
    let none_below : capped (min 0 (live_best s.seats)) s.seats ≡ 0 =
      ap (λ m. capped m s.seats) (omega arith) ∙ capped-zero s.seats in
    let same : awards' ≡ awards = ok-injective (ap (λ p. p.1) e) in
    subst (Settled s t) same (
      subst (λ z. Settled s z awards') (ap (λ p. p.0) e)
        (omega (arith, grown), omega (arith, paid, none_below), refl))

-- A showdown that is resolved pays every award into the stacks and empties the pot, and the awards
-- are the commitments up to the largest one of a seat that may win: what a seat that may not win
-- committed above it goes to nobody. Stacks and commitments together fit in 32 bits.
pub resolve_pots-chips :
    (s t : HandState) (awards : List PotAward)
    → stacks s.seats + committed s.seats < u32_size
    → resolve_pots s ≡ (t, ok awards)
    → (stacks t.seats ≡ stacks s.seats + awarded awards)
      × (awarded awards ≡ capped (live_best s.seats) s.seats)
      × (t.pot ≡ 0)
unfolding resolve_pots
resolve_pots-chips s t awards small e = elim (Bool-cases (not (length s.board == 5))) [
  | inl short ↦ absurd (cc (ap (λ p. p.1) (rw short at e)))
  | inr whole ↦
      finish_pots-Settled s t awards (levels_loop s 0 0 (contribution_levels s.seats) s.seats [])
        small refl (rw whole at e)
]
