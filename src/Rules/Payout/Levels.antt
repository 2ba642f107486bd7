-- ===== src/Rules/Payout/Levels.antt =====
-- The loop of `ResolvePots` over the levels: what the pots add up to.
use Prim.Native.Nat.{min}
use poker_arena.Common.{
  ℕ, suc, ◌+◌, ◌-◌, ◌*◌, ◌≤◌, ◌<◌, ◌≡◌, refl, sym, ap, ◌∙◌, subst, inl, inr, ◌⊎◌, true, false, List,
  [], ◌∷◌, map, All, sum_by, sum_by-map, count_if, length, Bool-cases, arith, leb, mul32-exact,
  sub32-exact, u32_size, if◌then◌else◌,
}
use poker_arena.Domain.{SeatState, PotAward}
use poker_arena.Rules.Payout.{contributors_from, pot_at}
use poker_arena.Rules.Payout.Split.{stake}
use poker_arena.Rules.Payout.Winners.{live_best}

abbrev pub committed : List SeatState → ℕ
committed = sum_by (λ s. s.total_committed)

-- The chips committed up to a level.
abbrev pub capped : ℕ → List SeatState → ℕ
capped level = sum_by (λ s. min s.total_committed level)

abbrev pub awarded : List PotAward → ℕ
awarded = sum_by (λ a. a.amount)

abbrev pub reach : ℕ → List SeatState → ℕ
reach level = count_if (λ s. leb level s.total_committed)

length-contributors_from :
    (level idx : ℕ) (seats : List SeatState)
    → length (contributors_from level idx seats) ≡ reach level seats
unfolding contributors_from
length-contributors_from level idx [] = refl
length-contributors_from level idx (s ∷ seats) =
    ground (arith, length-contributors_from level (suc idx) seats)

-- No commitment lies between two levels.
abbrev pub Gap : ℕ → ℕ → List SeatState → Type 0
Gap prev level = All (λ s. (s.total_committed ≤ prev) ⊎ (level ≤ s.total_committed))

capped-step :
    (prev d : ℕ) (seats : List SeatState)
    → Gap prev (prev + d) seats
    → capped (prev + d) seats ≡ capped prev seats + d * reach (prev + d) seats
capped-step prev d [] g = omega arith
capped-step prev d (s ∷ seats) g =
    let ih = capped-step prev d seats g.1 in
    elim (Bool-cases (leb (prev + d) s.total_committed)) [
      | inl high ↦ rw high (ground (arith, ih))
      | inr low ↦ rw low (ground (arith, ih, g.0))
    ]

pub capped-le : (level : ℕ) (seats : List SeatState) → capped level seats ≤ committed seats
capped-le level [] = omega arith
capped-le level (s ∷ seats) = omega (arith, capped-le level seats)

pub capped_mono : (a b : ℕ) (seats : List SeatState) → a ≤ b → capped a seats ≤ capped b seats
capped_mono a b [] h = omega arith
capped_mono a b (s ∷ seats) h = omega (arith, capped_mono a b seats h)

pub pot_at-exact :
    (prev level : ℕ) (seats : List SeatState)
    → prev < level
    → level < u32_size
    → committed seats < u32_size
    → Gap prev level seats
    → pot_at prev level seats + capped prev seats ≡ capped level seats
unfolding pot_at
pot_at-exact prev level seats h small total g =
    let d = level - prev in
    let whole : prev + d ≡ level = omega arith in
    let step =
      subst (λ l. Gap prev l seats → capped l seats ≡ capped prev seats + d * reach l seats) whole
        (capped-step prev d seats) g in
    rw (sub32-exact level prev (omega arith) small, length-contributors_from level 0 seats)
      (omega (
        arith,
        step,
        mul32-exact d (reach level seats) (omega (arith, step, capped-le level seats)),
      ))

pub live_best-le :
    (b : ℕ) (seats : List SeatState) → All (λ s. s.total_committed ≤ b) seats → live_best seats ≤ b
live_best-le b [] h = omega arith
live_best-le b (s ∷ seats) h = ground (arith, live_best-le b seats h.1, h.0)

live_best-Gap :
    (prev level : ℕ) (seats : List SeatState)
    → Gap prev level seats
    → (live_best seats ≤ prev) ⊎ (level ≤ live_best seats)
live_best-Gap prev level [] g = inl (omega arith)
live_best-Gap prev level (s ∷ seats) g =
    let ih = live_best-Gap prev level seats g.1 in ground (arith, ih, g.0)

live_best-stake : (seats : List SeatState) → live_best (map stake seats) ≡ live_best seats
live_best-stake [] = refl
live_best-stake (s ∷ seats) = ground (arith, live_best-stake seats)

module _ (P : ℕ → Type 0) where
  to_stakes :
      (seats : List SeatState)
      → All (λ s. P s.total_committed) seats
      → All (λ s. P s.total_committed) (map stake seats)
  to_stakes [] h = tt
  to_stakes (s ∷ seats) h = (h.0, to_stakes seats h.1)

  of_stakes :
      (seats : List SeatState)
      → All (λ s. P s.total_committed) (map stake seats)
      → All (λ s. P s.total_committed) seats
  of_stakes [] h = tt
  of_stakes (s ∷ seats) h = (h.0, of_stakes seats h.1)

-- What seats with the same stakes share.
module _ (seats paid : List SeatState) (same : map stake paid ≡ map stake seats) where
  pub paid-live_best : live_best paid ≡ live_best seats
  paid-live_best = sym (live_best-stake paid) ∙ ap live_best same ∙ live_best-stake seats

  pub paid-capped : (level : ℕ) → capped level paid ≡ capped level seats
  paid-capped level =
      sym (sum_by-map (λ s. min s.total_committed level) stake paid)
      ∙ ap (capped level) same
      ∙ sum_by-map (λ s. min s.total_committed level) stake seats

  pub paid-committed : committed paid ≡ committed seats
  paid-committed =
      sym (sum_by-map (λ s. s.total_committed) stake paid)
      ∙ ap committed same
      ∙ sum_by-map (λ s. s.total_committed) stake seats

  pub paid-All :
      (P : ℕ → Type 0) → All (λ s. P s.total_committed) seats → All (λ s. P s.total_committed) paid
  paid-All P h =
      of_stakes P paid (subst (All (λ s. P s.total_committed)) (sym same) (to_stakes P seats h))

-- What a level with this pot pays out.
abbrev pub due : ℕ → ℕ → List SeatState → ℕ
due level pot seats = if leb level (live_best seats) then pot else 0

pub min_step :
    (prev level pot : ℕ) (seats : List SeatState)
    → prev < level
    → pot + capped prev seats ≡ capped level seats
    → Gap prev level seats
    → due level pot seats + capped (min prev (live_best seats)) seats
      ≡ capped (min level (live_best seats)) seats
min_step prev level pot seats h e g = elim (live_best-Gap prev level seats g) [
  | inl under ↦
      let p : min prev (live_best seats) ≡ live_best seats = omega arith in
      let q : min level (live_best seats) ≡ live_best seats = omega arith in
      let z : leb level (live_best seats) ≡ false = ground arith in rw (p, q, z) (omega arith)
  | inr over ↦
      let p : min prev (live_best seats) ≡ prev = omega arith in
      let q : min level (live_best seats) ≡ level = omega arith in
      let z : leb level (live_best seats) ≡ true = ground arith in rw (p, q, z) e
]
