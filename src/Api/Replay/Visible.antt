-- ===== src/Api/Replay/Visible.antt =====
-- Whose cards a replay shows.
use Prim.Native.String.{String}
use poker_arena.Common.{
  ℕ, ◌≡◌, ◌≢◌, ◌⊎◌, refl, sym, ◌∙◌, subst, ap, Bool, true, false, not, ◌&&◌, ◌||◌, some,
  Option-cases, Bool-cases, inl, inr, List, [], ◌∷◌, map, All, ◌==◌, if◌then◌else◌, arith,
}
use mathlib.Core.List.{map-map}
use mathlib.Core.Option.{some-injective}
use poker_arena.Common.Permutations.{All-map_of}
use poker_arena.Domain.{SeatCards, HandState, contains}
use poker_arena.Persistence.Records.{HandRecord}
use poker_arena.Persistence.Repository.{Repository, get_hand, get_table, list_hands}
use poker_arena.Api.Access.{CallerIdentity, seat_no_of}
use poker_arena.Api.Replay.{
  payload, payload-injective, is_seat, hand_includes_seat, is_showdown_hand, without_cards,
  apply_replay_visibility, redact_folded_seat_hole_cards, folded_seats, parse_redact_hole_cards,
  HandReplayResponse, build_hand_replay_response, handle_replay, handle_latest_replay,
  LatestTableReplayResponse, last_hand, visible_hands,
}

-- Cards are shown of this seat alone.
abbrev pub OnlyOf : ℕ → SeatCards → Type 0
OnlyOf n c = c.seat_no ≢ n → c.cards ≡ []

-- What a caller is shown of the cards of a seat, in a hand with or without a showdown.
abbrev pub shown : CallerIdentity → Bool → Bool → HandState → SeatCards → SeatCards
shown who showdown redact state c =
    if is_seat who && not showdown && not (c.seat_no == seat_no_of who)
      || redact && contains c.seat_no (folded_seats state.seats)
    then without_cards c
    else c

map-ext {ℓ κ} :
    {A : Type ℓ} {B : Type κ} (f g : A → B)
    → ((x : A) → f x ≡ g x)
    → (xs : List A) → map f xs ≡ map g xs
map-ext f g e [] = refl
map-ext {B = B} f g e (x ∷ xs) = cc (e x, map-ext f g e xs)

map_id {ℓ} : {A : Type ℓ} (f : A → A) → ((x : A) → f x ≡ x) → (xs : List A) → map f xs ≡ xs
map_id f e [] = refl
map_id f e (x ∷ xs) = cc (e x, map_id f e xs)

apply_replay_visibility-shown :
    (who : CallerIdentity) (hand : HandRecord) (state : HandState)
    → apply_replay_visibility who hand state ≡ record state {
      hole_cards = map (shown who (is_showdown_hand hand) false state) state.hole_cards;
    }
unfolding apply_replay_visibility
apply_replay_visibility-shown who hand state =
    let with_cards : List SeatCards → HandState = λ cards. record state { hole_cards = cards } in
    elim (Bool-cases (is_seat who)) [
      | inr other ↦
          rw (other, apply_replay_visibility)
            (ap with_cards (sym (map_id _ (λ c. rw other refl) state.hole_cards)))
      | inl seated ↦
          rw (seated, apply_replay_visibility)
            (ap with_cards (map-ext _ _ (λ c. rw seated (ground arith)) state.hole_cards))
    ]

-- In a replay a seat sees its own cards, and those of the others where an award of the hand has the
-- reason "showdown"; an administrator sees the cards of every seat; and on request the cards of the
-- seats that folded are hidden from both. The deck is left as it was, with
-- all the cards in the order in which they were dealt.
pub build_hand_replay_response-hole_cards :
    (r : Repository) (who : CallerIdentity) (hand : HandRecord) (redact : Bool)
    → let state = (build_hand_replay_response r who hand redact).final_state in
      (state.hole_cards
        ≡ map
            (shown who (is_showdown_hand hand) redact hand.final_state)
            hand.final_state.hole_cards)
      × (state.deck ≡ hand.final_state.deck)
unfolding build_hand_replay_response apply_replay_visibility redact_folded_seat_hole_cards
build_hand_replay_response-hole_cards r who hand false =
    let seen = apply_replay_visibility-shown who hand hand.final_state in
    (ap (λ s. s.hole_cards) seen, ap (λ s. s.deck) seen)
build_hand_replay_response-hole_cards r who hand true =
    let state = hand.final_state in
    let seen = apply_replay_visibility-shown who hand state in
    (
      ap (λ s. (redact_folded_seat_hole_cards s).hole_cards) seen
          ∙ map-map
              (λ c. if contains c.seat_no (folded_seats state.seats) then without_cards c else c)
              (shown who (is_showdown_hand hand) false state) state.hole_cards
          ∙ map-ext _ _ (λ c. ground arith) state.hole_cards,
      ap (λ s. s.deck) seen,
    )

All-of {ℓ κ} : {A : Type ℓ} {P : A → Type κ} → ((x : A) → P x) → (xs : List A) → All P xs
All-of h [] = tt
All-of h (x ∷ xs) = (h x, All-of h xs)

shown-OnlyOf :
    (who : CallerIdentity) (redact : Bool) (state : HandState) (c : SeatCards)
    → is_seat who ≡ true
    → OnlyOf (seat_no_of who) (shown who false redact state c)
shown-OnlyOf who redact state c seated differs = ground arith

-- What a seat's caller is shown of a hand without a showdown: its own cards at most.
pub build_hand_replay_response-OnlyOf :
    (r : Repository) (who : CallerIdentity) (hand : HandRecord) (redact : Bool)
    → is_seat who ≡ true
    → is_showdown_hand hand ≡ false
    → All
        (OnlyOf (seat_no_of who))
        (build_hand_replay_response r who hand redact).final_state.hole_cards
build_hand_replay_response-OnlyOf r who hand redact seated hidden =
    let state = hand.final_state in
    let (cards, deck) = build_hand_replay_response-hole_cards r who hand redact in
    rw cards (
      rw hidden (
        All-map_of (OnlyOf (seat_no_of who)) (shown who false redact state) state.hole_cards
          (All-of (λ c. shown-OnlyOf who redact state c seated) state.hole_cards)))

-- What is left of the cards of a seat where only a request to hide those of folded seats counts.
abbrev pub unfolded : Bool → HandState → SeatCards → SeatCards
unfolded redact state c =
    if redact && contains c.seat_no (folded_seats state.seats) then without_cards c else c

build_hand_replay_response-unfolded :
    (r : Repository) (who : CallerIdentity) (hand : HandRecord) (redact : Bool)
    → is_showdown_hand hand ≡ true
    → (build_hand_replay_response r who hand redact).final_state.hole_cards
      ≡ map (unfolded redact hand.final_state) hand.final_state.hole_cards
build_hand_replay_response-unfolded r who hand redact open_hand =
    let (cards, deck) = build_hand_replay_response-hole_cards r who hand redact in
    cards ∙ map-ext _ _ (λ c. rw open_hand (ground arith)) hand.final_state.hole_cards

-- What a seat may see of a hand in a replay: of a hand with a showdown the cards of every seat, but for
-- those that it asks to hide, and of any other hand no cards but its own.
abbrev pub SeesOf : CallerIdentity → HandRecord → Bool → HandReplayResponse → Type 0
SeesOf who hand redact p =
    ((is_showdown_hand hand ≡ false) × All (OnlyOf (seat_no_of who)) p.final_state.hole_cards)
    ⊎ ((is_showdown_hand hand ≡ true)
        × (p.final_state.hole_cards
            ≡ map (unfolded redact hand.final_state) hand.final_state.hole_cards))

build_hand_replay_response-SeesOf :
    (r : Repository) (who : CallerIdentity) (hand : HandRecord) (redact : Bool)
    → is_seat who ≡ true
    → SeesOf who hand redact (build_hand_replay_response r who hand redact)
build_hand_replay_response-SeesOf r who hand redact seated =
    elim (Bool-cases (is_showdown_hand hand)) [
      | inl open_hand ↦
          inr (open_hand, build_hand_replay_response-unfolded r who hand redact open_hand)
      | inr hidden ↦ inl (hidden, build_hand_replay_response-OnlyOf r who hand redact seated hidden)
    ]

-- A seat that is answered with the replay of a hand took part in the hand. Where no award of the hand has
-- the reason "showdown" it is shown no hole cards but its own, and where one has it is shown those of
-- every seat, but for the folded seats where it asks to hide these.
pub handle_replay-seat :
    (r : Repository) (who : CallerIdentity) (hand_id raw : String) {p : HandReplayResponse}
    → is_seat who ≡ true
    → handle_replay r who hand_id raw ≡ payload p
    → (hand : HandRecord) × (redact : Bool) × (get_hand r hand_id ≡ some hand)
      × (parse_redact_hole_cards raw ≡ some redact)
      × (hand_includes_seat hand (seat_no_of who) ≡ true)
      × SeesOf who hand redact p
unfolding handle_replay
handle_replay-seat r who hand_id raw {p} seated e =
    elim (Option-cases (parse_redact_hole_cards raw)) [
      | inl bad ↦ absurd (cc (rw (bad, handle_replay) at e))
      | inr (redact, asked) ↦ elim (Option-cases (get_hand r hand_id)) [
        | inl missing ↦ absurd (cc (rw (asked, missing, handle_replay) at e))
        | inr (hand, found) ↦ elim (Bool-cases (hand_includes_seat hand (seat_no_of who))) [
          | inl there ↦
              let e' = rw (asked, found, seated, there, handle_replay) at e in
              (
                hand,
                redact,
                found,
                asked,
                there,
                subst (SeesOf who hand redact) (payload-injective e')
                    (build_hand_replay_response-SeesOf r who hand redact seated),
              )
          | inr absent ↦ absurd (cc (rw (asked, found, seated, absent, handle_replay) at e))
        ]
      ]
    ]

-- The latest replay of a table that a seat is answered with is of the last hand that it may see, and
-- shows it what it may see of the hand.
pub handle_latest_replay-seat :
    (r : Repository) (who : CallerIdentity) (table_id raw : String) {l : LatestTableReplayResponse}
    {p : HandReplayResponse}
    → is_seat who ≡ true
    → handle_latest_replay r who table_id raw ≡ payload l
    → l.replay ≡ some p
    → (hand : HandRecord) × (redact : Bool) × (last_hand (visible_hands who (list_hands r table_id))
        ≡ some hand)
      × SeesOf who hand redact p
unfolding handle_latest_replay
handle_latest_replay-seat r who table_id raw {l} {p} seated e shows =
    elim (Option-cases (get_table r table_id)) [
      | inl missing ↦ absurd (cc (rw (missing, handle_latest_replay) at e))
      | inr (table, there) ↦ elim (Option-cases (parse_redact_hole_cards raw)) [
        | inl bad ↦ absurd (cc (rw (there, bad, handle_latest_replay) at e))
        | inr (redact, asked) ↦
            elim (Option-cases (last_hand (visible_hands who (list_hands r table_id)))) [
              | inl nothing ↦
                  let e' = rw (there, asked, nothing, handle_latest_replay) at e in
                  absurd (cc (ap (λ q. q.replay) (payload-injective e') ∙ shows))
              | inr (hand, found) ↦
                  let e' = rw (there, asked, found, handle_latest_replay) at e in
                  (
                    hand,
                    redact,
                    found,
                    subst (SeesOf who hand redact)
                        (some-injective _ _ (ap (λ q. q.replay) (payload-injective e') ∙ shows))
                        (build_hand_replay_response-SeesOf r who hand redact seated),
                  )
            ]
      ]
    ]
