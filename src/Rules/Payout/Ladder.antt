-- ===== src/Rules/Payout/Ladder.antt =====
-- The contribution levels rise strictly, and every commitment is one of them.
use poker_arena.Common.{
  ℕ, ◌≤◌, ◌<◌, ◌≡◌, refl, ap, ◌∙◌, inl, inr, ◌⊎◌, true, false, ◌||◌, List, [], ◌∷◌, All, All-mono,
  Bool-cases, arith, ltb, ◌==◌, ==_iff, ==_refl, if◌then◌else◌, insert_by, sort_by, sort_by-All,
}
use poker_arena.Domain.{SeatState, contains}
use poker_arena.Rules.Payout.{distinct_commitments, contribution_levels}

-- Strictly rising from above a bound.
abbrev pub Rising : ℕ → List ℕ → Type 0
Rising prev [] = Unit
Rising prev (l ∷ ls) = (prev < l) × Rising l ls

abbrev NoRepeat : List ℕ → Type 0
NoRepeat [] = Unit
NoRepeat (x ∷ xs) = (contains x xs ≡ false) × NoRepeat xs

contains-insert_by :
    (c x : ℕ) (ls : List ℕ) → contains c (insert_by ltb x ls) ≡ (c == x || contains c ls)
unfolding insert_by
contains-insert_by c x [] = refl
contains-insert_by c x (l ∷ ls) = ground (arith, contains-insert_by c x ls)

contains-sort_by : (c : ℕ) (ls : List ℕ) → contains c (sort_by ltb ls) ≡ contains c ls
unfolding sort_by
contains-sort_by c [] = refl
contains-sort_by c (l ∷ ls) =
    contains-insert_by c l (sort_by ltb ls) ∙ ap (λ b. c == l || b) (contains-sort_by c ls)

insert_by-Rising :
    (prev x : ℕ) (ls : List ℕ)
    → prev < x
    → contains x ls ≡ false
    → Rising prev ls
    → Rising prev (insert_by ltb x ls)
unfolding insert_by
insert_by-Rising prev x [] h k r = (h, tt)
insert_by-Rising prev x (l ∷ ls) h k r = elim (Bool-cases (ltb l x)) [
  | inl below ↦ rw below (r.0, insert_by-Rising l x ls (ground arith) (ground arith) r.1)
  | inr above ↦ rw above (h, (ground arith, r.1))
]

sort_by-Rising :
    (prev : ℕ) (ls : List ℕ) → All (λ l. prev < l) ls → NoRepeat ls → Rising prev (sort_by ltb ls)
unfolding sort_by
sort_by-Rising prev [] h n = tt
sort_by-Rising prev (l ∷ ls) h n =
    insert_by-Rising prev l (sort_by ltb ls) h.0 (contains-sort_by l ls ∙ n.0)
      (sort_by-Rising prev ls h.1 n.1)

seen-distinct_commitments :
    (c : ℕ) (seats : List SeatState) (seen : List ℕ)
    → contains c seen ≡ true
    → contains c (distinct_commitments seats seen) ≡ false
unfolding distinct_commitments
seen-distinct_commitments c [] seen h = refl
seen-distinct_commitments c (s ∷ seats) seen h = ground (
  arith,
  seen-distinct_commitments c seats seen h,
  seen-distinct_commitments c seats (s.total_committed ∷ seen),
  ==_iff c s.total_committed,
)

distinct_commitments-NoRepeat :
    (seats : List SeatState) (seen : List ℕ) → NoRepeat (distinct_commitments seats seen)
unfolding distinct_commitments
distinct_commitments-NoRepeat [] seen = tt
distinct_commitments-NoRepeat (s ∷ seats) seen =
    elim (Bool-cases (s.total_committed == 0 || contains s.total_committed seen)) [
      | inl skip ↦ rw skip (distinct_commitments-NoRepeat seats seen)
      | inr new ↦ rw new (
        seen-distinct_commitments s.total_committed seats (s.total_committed ∷ seen)
            (ground (arith, ==_refl s.total_committed)),
        distinct_commitments-NoRepeat seats (s.total_committed ∷ seen),
      )
    ]

distinct_commitments-positive :
    (seats : List SeatState) (seen : List ℕ) → All (λ l. 0 < l) (distinct_commitments seats seen)
unfolding distinct_commitments
distinct_commitments-positive [] seen = tt
distinct_commitments-positive (s ∷ seats) seen =
    elim (Bool-cases (s.total_committed == 0 || contains s.total_committed seen)) [
      | inl skip ↦ rw skip (distinct_commitments-positive seats seen)
      | inr new ↦
          rw new (ground arith, distinct_commitments-positive seats (s.total_committed ∷ seen))
    ]

-- A commitment that the levels from `prev` on account for.
abbrev pub Covered : ℕ → List ℕ → ℕ → Type 0
Covered prev ls c = (c ≤ prev) ⊎ (contains c ls ≡ true)

abbrev Collected : List SeatState → List ℕ → ℕ → Type 0
Collected seats seen c =
    (c ≡ 0) ⊎ ((contains c seen || contains c (distinct_commitments seats seen)) ≡ true)

later :
    (s : SeatState) (seats : List SeatState) (seen : List ℕ) (c : ℕ)
    → Collected seats
        (if s.total_committed == 0 || contains s.total_committed seen
          then seen
          else s.total_committed ∷ seen)
        c
    → Collected (s ∷ seats) seen c
unfolding distinct_commitments
later s seats seen c h = ground arith

collected :
    (seats : List SeatState) (seen : List ℕ)
    → All (λ s. Collected seats seen s.total_committed) seats
unfolding distinct_commitments
collected [] seen = tt
collected (s ∷ seats) seen = (
  ground (arith, ==_refl s.total_committed),
  All-mono _ (λ x. Collected (s ∷ seats) seen x.total_committed)
      (λ x h. later s seats seen x.total_committed h) seats
      (collected seats (
        if s.total_committed == 0 || contains s.total_committed seen
        then seen
        else s.total_committed ∷ seen)),
)

-- The levels rise strictly from above 0, and cover every commitment.
pub contribution_levels-Rising : (seats : List SeatState) → Rising 0 (contribution_levels seats)
unfolding contribution_levels
contribution_levels-Rising seats =
    sort_by-Rising 0 (distinct_commitments seats []) (distinct_commitments-positive seats [])
      (distinct_commitments-NoRepeat seats [])

pub contribution_levels-Covered :
    (seats : List SeatState)
    → All (λ s. Covered 0 (contribution_levels seats) s.total_committed) seats
unfolding contribution_levels
contribution_levels-Covered seats =
    All-mono (λ s. Collected seats [] s.total_committed)
      (λ s. Covered 0 (contribution_levels seats) s.total_committed)
      (λ s h. ground (arith, contains-sort_by s.total_committed (distinct_commitments seats [])))
      seats (collected seats [])

distinct_commitments-All :
    (P : ℕ → Type 0) (seats : List SeatState) (seen : List ℕ)
    → All (λ s. P s.total_committed) seats
    → All P (distinct_commitments seats seen)
unfolding distinct_commitments
distinct_commitments-All P [] seen h = tt
distinct_commitments-All P (s ∷ seats) seen h =
    elim (Bool-cases (s.total_committed == 0 || contains s.total_committed seen)) [
      | inl skip ↦ rw skip (distinct_commitments-All P seats seen h.1)
      | inr new ↦ rw new (h.0, distinct_commitments-All P seats (s.total_committed ∷ seen) h.1)
    ]

pub contribution_levels-All :
    (P : ℕ → Type 0) (seats : List SeatState)
    → All (λ s. P s.total_committed) seats
    → All P (contribution_levels seats)
unfolding contribution_levels
contribution_levels-All P seats h =
    sort_by-All ltb P (distinct_commitments seats []) (distinct_commitments-All P seats [] h)
