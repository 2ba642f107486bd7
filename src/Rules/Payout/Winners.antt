-- ===== src/Rules/Payout/Winners.antt =====
-- Who wins a level: somebody, exactly when a seat that may win committed that much.
use Prim.Native.Nat.{max}
use poker_arena.Common.{
  ℕ, zero, suc, ◌+◌, ◌<◌, ◌≡◌, ap, subst, inl, inr, Bool, true, false, not, ◌&&◌, ◌||◌, none, some,
  List, [], ◌∷◌, ◌++◌, get_elem?, length, length-append, Bool-cases, Option-cases, arith, leb, ◌==◌,
  if◌then◌else◌,
}
use poker_arena.Domain.{ok, SeatState, HandState, is_active, has_active_status}
use poker_arena.Domain.Results.{ok-injective}
use poker_arena.Rules.Evaluator.{HandRank, evaluate_best_hand, compare_hand_rank, is_gt, is_eq}
use poker_arena.Rules.Payout.{find_winners, contributors_from, challenge, hole_of}
use poker_arena.Rules.Payout.Split.{InRange}

-- Whether one of the seats with these indices may win.
abbrev pub has_live : List SeatState → List ℕ → Bool
has_live seats [] = false
has_live seats (i ∷ idxs) =
    let rest = has_live seats idxs in
    elim (get_elem? seats i) [ none ↦ rest | some s ↦ if is_active s then true else rest ]

-- The largest commitment of a seat that may win.
abbrev pub live_best : List SeatState → ℕ
live_best [] = 0
live_best (s ∷ seats) =
    let rest = live_best seats in if is_active s then max s.total_committed rest else rest

has_live-from :
    (level idx : ℕ) (full seats : List SeatState)
    → 0 < level
    → ((j : ℕ) → get_elem? full (idx + j) ≡ get_elem? seats j)
    → has_live full (contributors_from level idx seats) ≡ leb level (live_best seats)
unfolding contributors_from
has_live-from level idx full [] h at = ground arith
has_live-from level idx full (s ∷ seats) h at =
    let ih =
      has_live-from level (suc idx) full seats h
        (λ j. subst (λ n. get_elem? full n ≡ get_elem? seats j) (shift j) (at (suc j))) in
    let here = subst (λ n. get_elem? full n ≡ some s) first (at 0) in ground (arith, ih, here)
  where
    shift : (j : ℕ) → idx + suc j ≡ suc idx + j
    shift j = omega arith

    first : idx + 0 ≡ idx
    first = omega arith

pub has_live-contributors :
    (level : ℕ) (seats : List SeatState)
    → 0 < level
    → has_live seats (contributors_from level 0 seats) ≡ leb level (live_best seats)
has_live-contributors level seats h =
    has_live-from level 0 seats seats h (λ j. ap (get_elem? seats) (omega arith))

abbrev no_winner : List ℕ → Bool
no_winner ws = length ws == 0

InRange-append : (n : ℕ) (xs ys : List ℕ) → InRange n xs → InRange n ys → InRange n (xs ++ ys)
InRange-append n [] ys h k = k
InRange-append n (x ∷ xs) ys h k = (h.0, InRange-append n xs ys h.1 k)

challenge-some :
    (i : ℕ) (rank best : HandRank) (ws : List ℕ) → no_winner (challenge i rank (ws, best)).0 ≡ false
challenge-some i rank best ws = ground (arith, length-append ws (i ∷ []))

challenge-InRange :
    (n i : ℕ) (rank best : HandRank) (ws : List ℕ)
    → i < n
    → InRange n ws
    → InRange n (challenge i rank (ws, best)).0
challenge-InRange n i rank best ws h r =
    elim (Bool-cases (length ws == 0 || is_gt (compare_hand_rank rank best))) [
      | inl first ↦ rw (first, challenge) (h, tt)
      | inr later ↦ elim (Bool-cases (is_eq (compare_hand_rank rank best))) [
        | inl tie ↦
            rw (later, challenge) (rw (tie, challenge) (InRange-append n ws (i ∷ []) r (h, tt)))
        | inr loses ↦ rw (later, challenge) (rw (loses, challenge) r)
      ]
    ]

get_elem?-lt_length :
    (seats : List SeatState) (i : ℕ) {s : SeatState} → get_elem? seats i ≡ some s → i < length seats
get_elem?-lt_length [] i e = absurd (cc e)
get_elem?-lt_length (x ∷ seats) zero e = omega arith
get_elem?-lt_length (x ∷ seats) (suc i) e = omega (arith, get_elem?-lt_length seats i e)

abbrev Search : List SeatState → List ℕ → List ℕ → List ℕ → Type 0
Search seats idxs ws ws' =
    InRange (length seats) ws' × (no_winner ws' ≡ (no_winner ws && not (has_live seats idxs)))

-- What the search for winners returns, when it does not fail.
pub find_winners_lem :
    (state : HandState) (seats : List SeatState) (idxs : List ℕ) (acc out : List ℕ × HandRank)
    → InRange (length seats) acc.0
    → find_winners state seats idxs acc ≡ ok out
    → Search seats idxs acc.0 out.0
unfolding find_winners
find_winners_lem state seats [] acc out r e =
    subst (λ z. Search seats [] acc.0 z.0) (ok-injective e) (r, ground arith)
find_winners_lem state seats (i ∷ idxs) acc out r e = elim (Option-cases (get_elem? seats i)) [
  | inl missing ↦
      let (range, ih) =
        find_winners_lem state seats idxs acc out r (rw (missing, find_winners) at e) in
      (range, ground (arith, ih, missing))
  | inr (s, here) ↦ elim (Bool-cases (s.folded || not (has_active_status s.status))) [
    | inl out_of_it ↦
        let (range, ih) =
          find_winners_lem state seats idxs acc out r
            (rw out_of_it at (rw (here, find_winners) at e)) in
        (range, ground (arith, ih, here))
    | inr live ↦
        let hole = hole_of s.seat_no state.hole_cards [] in
        let rank = evaluate_best_hand hole state.board in
        elim (Bool-cases (not (length hole == 2))) [
          | inl short ↦ absurd (cc (rw short at (rw live at (rw (here, find_winners) at e))))
          | inr dealt ↦
              let (range, ih) =
                find_winners_lem state seats idxs (challenge i rank acc) out
                  (challenge-InRange (length seats) i rank acc.1 acc.0
                    (get_elem?-lt_length seats i here) r)
                  (rw dealt at (rw live at (rw (here, find_winners) at e))) in
              (range, ground (arith, ih, here, challenge-some i rank acc.1 acc.0))
        ]
  ]
]
