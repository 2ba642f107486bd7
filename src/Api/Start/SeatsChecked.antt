-- ===== src/Api/Start/SeatsChecked.antt =====
-- What the loop of `validateStartRequest` has checked of the seats.
use Prim.Native.String.{String}
use poker_arena.Common.{
  ℕ, suc, ◌≤◌, ◌≡◌, ◌⊎◌, inl, inr, refl, sym, ◌∙◌, ap, subst, true, false, not, ◌&&◌, Option, some,
  Option-cases, Bool-cases, List, [], ◌∷◌, All, if◌then◌else◌, is_empty, trim_space, arith,
}
use poker_arena.Domain.{
  Error, Result, ok, err, SeatState, new_seat_state, new_seat_no, contains, survey_seats, is_active,
}
use poker_arena.Api.Access.{ServerConfig}
use poker_arena.Api.Manage.{Url, is_endpoint_allowed}
use poker_arena.Api.Start.{
  StartSeat, Checked-cases, invalid, valid, seat_status, is_seat_active_for_start, check_seat,
  check_seats, Lookup, provider_lookup,
}

pub valid-injective : {A : Type 0} {x y : A} → valid x ≡ valid y → x ≡ y
valid-injective {x} e = ap (λ c. elim c [ invalid r ↦ x | valid z ↦ z ]) e

pub Result-cases :
    {A : Type 0} (r : Result A) → ((e : Error) × (r ≡ err e)) ⊎ ((x : A) × (r ≡ ok x))
Result-cases (err e) = inl (e, refl)
Result-cases (ok x) = inr (x, refl)

pub new_seat_no-ok : (n max : ℕ) {m : ℕ} → new_seat_no n max ≡ ok m → (n ≡ m) × (1 ≤ m) × (m ≤ max)
unfolding new_seat_no
new_seat_no-ok n max e = ground arith

is_endpoint_allowed-not_blank :
    (server : ServerConfig) (parse_url : String → Option Url)
    → ((s : String) (u : Url)
        → parse_url s ≡ some u
        → is_empty u.host ≡ false
        → is_empty (trim_space s) ≡ false)
    → (s : String) → is_endpoint_allowed server (parse_url s) ≡ true
    → is_empty (trim_space s) ≡ false
unfolding is_endpoint_allowed
is_endpoint_allowed-not_blank server parse_url documented s allowed =
    elim (Option-cases (parse_url s)) [
      | inl bad ↦ absurd (cc (rw bad at allowed))
      | inr (u, parsed) ↦ elim (Bool-cases (is_empty u.host)) [
        | inl hostless ↦ absurd (cc (rw (parsed, hostless, is_endpoint_allowed) at allowed))
        | inr hosted ↦ documented s u parsed hosted
      ]
    ]

-- The seats of the run are those of the request, in its order: each with its number, its stack and its
-- status, active where the request has none, no chips committed and not folded.
abbrev pub Seated : List StartSeat → List SeatState → Type 0
Seated [] [] = Unit
Seated (x ∷ xs) (s ∷ ss) =
    (s ≡ record (new_seat_state x.seat_no x.stack) { status = s.status })
    × (seat_status x.status ≡ some s.status)
    × Seated xs ss
Seated _ _ = ⊥

module _ (server : ServerConfig) (parse_url : String → Option Url) (max : ℕ) where
  -- What a round of the loop over the seats has checked.
  pub record Passed (seen : List ℕ) (x : StartSeat) (s : SeatState) : Type 0 where
    numbered : new_seat_no x.seat_no max ≡ ok s.seat_no
    new : contains s.seat_no seen ≡ false
    status : seat_status x.status ≡ some s.status
    seated : s ≡ record (new_seat_state s.seat_no x.stack) { status = s.status }
    reachable :
        is_seat_active_for_start x.status ≡ true
        → is_endpoint_allowed server (parse_url x.agent_endpoint) ≡ true

  check_seat-Passed :
      (seen : List ℕ) (x : StartSeat) {s : SeatState}
      → check_seat server parse_url max seen x ≡ valid s
      → Passed seen x s
  unfolding check_seat
  check_seat-Passed seen x {s} e = elim (Result-cases (new_seat_no x.seat_no max)) [
    | inl (why, bad) ↦ absurd (cc (rw (bad, check_seat) at e))
    | inr (n, fine) ↦ elim (Bool-cases (contains n seen)) [
      | inl taken ↦ absurd (cc (rw (fine, taken, check_seat) at e))
      | inr new ↦ elim (Option-cases (seat_status x.status)) [
        | inl bad ↦ absurd (cc (rw (fine, new, bad, check_seat) at e))
        | inr (status, known) ↦
            let unreachable =
              is_seat_active_for_start x.status
              && not (is_endpoint_allowed server (parse_url x.agent_endpoint)) in
            elim (Bool-cases unreachable) [
              | inl bad ↦ absurd (cc (rw (fine, new, known, bad, check_seat) at e))
              | inr good ↦
                  subst (Passed seen x)
                    (valid-injective (rw (fine, new, known, good, check_seat) at e))
                    (record {
                      numbered = fine;
                      new = new;
                      status = known;
                      seated = refl;
                      reachable = λ here. ground (arith, here, good);
                    })
            ]
      ]
    ]
  ]

  -- The checks of the rounds, one after the other.
  abbrev pub AllPassed : List ℕ → List StartSeat → List SeatState → Type 0
  AllPassed seen [] [] = Unit
  AllPassed seen (x ∷ xs) (s ∷ ss) = Passed seen x s × AllPassed (s.seat_no ∷ seen) xs ss
  AllPassed seen _ _ = ⊥

  pub check_seats-AllPassed :
      (seen : List ℕ) (xs : List StartSeat) {ss : List SeatState}
      → check_seats server parse_url max seen xs ≡ valid ss
      → AllPassed seen xs ss
  unfolding check_seats
  check_seats-AllPassed seen [] {ss} e = subst (AllPassed seen []) (valid-injective e) tt
  check_seats-AllPassed seen (x ∷ xs) {ss} e =
      elim (Checked-cases (check_seat server parse_url max seen x)) [
        | inl (why, bad) ↦ absurd (cc (rw (bad, check_seats) at e))
        | inr (s, good) ↦
            elim (Checked-cases (check_seats server parse_url max (s.seat_no ∷ seen) xs)) [
              | inl (why, bad) ↦ absurd (cc (rw (good, bad, check_seats) at e))
              | inr (rest, fine) ↦
                  subst (AllPassed seen (x ∷ xs))
                    (valid-injective (rw (good, fine, check_seats) at e))
                    (
                      check_seat-Passed seen x good,
                      check_seats-AllPassed (s.seat_no ∷ seen) xs fine,
                    )
            ]
      ]

  -- The seat's number is from 1 to the most.
  abbrev pub InRange : SeatState → Type 0
  InRange s = (1 ≤ s.seat_no) × (s.seat_no ≤ max)

  pub AllPassed-Seated :
      (seen : List ℕ) (xs : List StartSeat) (ss : List SeatState)
      → AllPassed seen xs ss
      → Seated xs ss
  AllPassed-Seated seen [] [] p = tt
  AllPassed-Seated seen [] (s ∷ ss) p = absurd p
  AllPassed-Seated seen (x ∷ xs) [] p = absurd p
  AllPassed-Seated seen (x ∷ xs) (s ∷ ss) (p, ps) =
      let (same, low, high) = new_seat_no-ok x.seat_no max p.numbered in
      (
        p.seated ∙ ap (λ n. record (new_seat_state n x.stack) { status = s.status }) (sym same),
        p.status,
        AllPassed-Seated (s.seat_no ∷ seen) xs ss ps,
      )

  -- The address of a seat that will act is allowed.
  abbrev pub Reachable : StartSeat → Type 0
  Reachable x =
      is_seat_active_for_start x.status ≡ true
      → is_endpoint_allowed server (parse_url x.agent_endpoint) ≡ true

  pub AllPassed-InRange :
      (seen : List ℕ) (xs : List StartSeat) (ss : List SeatState)
      → AllPassed seen xs ss
      → All InRange ss
  AllPassed-InRange seen [] [] p = tt
  AllPassed-InRange seen [] (s ∷ ss) p = absurd p
  AllPassed-InRange seen (x ∷ xs) [] p = absurd p
  AllPassed-InRange seen (x ∷ xs) (s ∷ ss) (p, ps) =
      let (same, low, high) = new_seat_no-ok x.seat_no max p.numbered in
      ((low, high), AllPassed-InRange (s.seat_no ∷ seen) xs ss ps)

  pub AllPassed-Reachable :
      (seen : List ℕ) (xs : List StartSeat) (ss : List SeatState)
      → AllPassed seen xs ss
      → All Reachable xs
  AllPassed-Reachable seen [] [] p = tt
  AllPassed-Reachable seen [] (s ∷ ss) p = absurd p
  AllPassed-Reachable seen (x ∷ xs) [] p = absurd p
  AllPassed-Reachable seen (x ∷ xs) (s ∷ ss) (p, ps) =
      (p.reachable, AllPassed-Reachable (s.seat_no ∷ seen) xs ss ps)

  pub AllPassed-survey_seats :
      (seen : List ℕ) (xs : List StartSeat) (ss : List SeatState) (n : ℕ)
      → AllPassed seen xs ss
      → (found : ℕ × List ℕ) × (survey_seats ss n seen ≡ ok found)
  unfolding survey_seats
  AllPassed-survey_seats seen [] [] n p = ((n, seen), refl)
  AllPassed-survey_seats seen [] (s ∷ ss) n p = absurd p
  AllPassed-survey_seats seen (x ∷ xs) [] n p = absurd p
  AllPassed-survey_seats seen (x ∷ xs) (s ∷ ss) n (p, ps) =
      rw p.new
        (AllPassed-survey_seats (s.seat_no ∷ seen) xs ss (if is_active s then suc n else n) ps)

  pub provider_lookup-some :
      ((s : String) (u : Url)
        → parse_url s ≡ some u
        → is_empty u.host ≡ false
        → is_empty (trim_space s) ≡ false)
      → (seen : List ℕ) (xs : List StartSeat) (ss : List SeatState) (l : Lookup)
      → AllPassed seen xs ss
      → (found : Lookup) × (provider_lookup max xs l ≡ some found)
  unfolding provider_lookup
  provider_lookup-some documented seen [] ss l p = (l, refl)
  provider_lookup-some documented seen (x ∷ xs) [] l p = absurd p
  provider_lookup-some documented seen (x ∷ xs) (s ∷ ss) l (p, ps) =
      elim (Bool-cases (is_seat_active_for_start x.status)) [
        | inr out ↦
            rw (p.numbered, out, provider_lookup)
              (provider_lookup-some documented (s.seat_no ∷ seen) xs ss _ ps)
        | inl acts ↦
            let there =
              is_endpoint_allowed-not_blank server parse_url documented x.agent_endpoint
                (p.reachable acts) in
            rw (p.numbered, acts, there, provider_lookup)
              (provider_lookup-some documented (s.seat_no ∷ seen) xs ss _ ps)
      ]
