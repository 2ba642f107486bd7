-- ===== src/Domain.antt =====
-- domain/domain.go: cards, seats, table configuration and the state of a hand. The string
-- constants of an enumeration are constructors; where the code has a `default` branch for other
-- strings, so has the data type (`ActionKind.other`, `Street.other`).
pub mod Results
use Prim.Native.String.{String}
use poker_arena.Common.{
  ℕ, suc, Bool, true, false, not, ◌&&◌, ◌||◌, Option, none, some, List, [], ◌∷◌, ◌++◌, map, ltb,
  ◌==◌, if◌then◌else◌, length,
}

abbrev pub default_max_seats : ℕ
default_max_seats = 6

abbrev pub default_min_players_to_start : ℕ
default_min_players_to_start = 2

abbrev pub default_starting_stack : ℕ
default_starting_stack = 10_000

abbrev pub default_small_blind : ℕ
default_small_blind = 50

abbrev pub default_big_blind : ℕ
default_big_blind = 100

abbrev pub default_action_timeout_ms : ℕ
default_action_timeout_ms = 2_000

-- Every error that the engine's packages return; a formatted message keeps its arguments.
pub data Error : Type 0 where
  invalid_rank : ℕ → Error
  amount_required amount_not_allowed : Error
  invalid_seat_no : ℕ → ℕ → Error
  invalid_max_seats : ℕ → Error
  invalid_min_players_to_start invalid_blind_structure invalid_blind_amount duplicate_seat : Error
  too_few_active_seats : ℕ → ℕ → Error
  too_many_seats : ℕ → ℕ → Error
  missing_button_seat missing_acting_seat : ℕ → Error
  hand_id_failed shuffle_failed : Error
  bad_deck_size too_few_to_deal deck_exhausted : ℕ → Error
  no_next_street : Error
  bad_board_size missing_hole_cards : ℕ → Error
  illegal_action not_acting_seat insufficient_chips hand_already_complete : Error
  no_active_seats invalid_transition : Error
  action_limit_exceeded : ℕ → ℕ → Error
  runner_misconfigured context_cancelled invalid_hands_to_run : Error
  insufficient_active_seats : Error
  fallback_failed : Error → Error → Error

pub data Result {ℓ} (T : Type ℓ) : Type ℓ where
  err : Error → Result T
  ok : T → Result T

-- `if err != nil { return nil, err }`, with the value or, for a function that only fails, without.
infixl 5 ◌>>=◌
infixl 5 ◌>>◌
abbrev pub ◌>>=◌ {ℓ ℓ'} : {S : Type ℓ} → {T : Type ℓ'} → Result S → (S → Result T) → Result T
err problem >>= next = err problem
ok value >>= next = next value

abbrev pub ◌>>◌ {ℓ} : {T : Type ℓ} → Result (Unit {0}) → Result T → Result T
err problem >> next = err problem
ok done >> next = next

abbrev pub fail_if : Bool → Error → Result (Unit {0})
fail_if true e = err e
fail_if false e = ok tt

pub data Suit : Type 0 where
  clubs diamonds hearts spades : Suit

-- `NewRank`
pub new_rank : ℕ → Result ℕ
new_rank value = if ltb value 2 || ltb 14 value then err (invalid_rank value) else ok value

pub record Card : Type 0 where
  pub rank : ℕ  -- uint8
  pub suit : Suit

-- The inner loop, `for rank := 2; rank <= 14; rank++`.
ranks_from : ℕ → ℕ → List ℕ
ranks_from ℕ.zero rank = []
ranks_from (suc n) rank = rank ∷ ranks_from n (suc rank)

cards_of : Suit → List Card
unfolding ranks_from
cards_of suit = map (λ rank. record { rank = rank; suit = suit }) (ranks_from 13 2)

-- `Standard52Deck`
unfoldable pub standard52_deck : List Card
unfolding cards_of
standard52_deck = cards_of clubs ++ (cards_of diamonds ++ (cards_of hearts ++ cards_of spades))

pub data Street : Type 0 where
  preflop flop turn river : Street
  other : String → Street

pub data ActionKind : Type 0 where
  fold check call bet raise : ActionKind
  other : String → ActionKind

pub record Action : Type 0 where
  pub kind : ActionKind
  pub amount : Option ℕ  -- *uint32

abbrev pub needs_amount : ActionKind → Bool
needs_amount bet = true
needs_amount raise = true
needs_amount _ = false

abbrev pub is_some {ℓ} : {A : Type ℓ} → Option A → Bool
is_some none = false
is_some (some a) = true

-- `NewAction`
unfoldable pub new_action : ActionKind → Option ℕ → Result Action
new_action kind amount = do
  fail_if (needs_amount kind && not (is_some amount)) amount_required
  fail_if (not (needs_amount kind) && is_some amount) amount_not_allowed
  ok (record { kind = kind; amount = amount })

-- `NewSeatNo`
unfoldable pub new_seat_no : ℕ → ℕ → Result ℕ
new_seat_no value max_seats =
    if value == 0 || ltb max_seats value then err (invalid_seat_no max_seats value) else ok value

pub data SeatStatus : Type 0 where
  active sitting_out busted : SeatStatus

pub record SeatState : Type 0 where
  pub seat_no : ℕ  -- uint8
  pub stack : ℕ  -- uint32
  pub total_committed : ℕ  -- uint32
  pub committed_in_round : ℕ  -- uint32
  pub folded : Bool
  pub has_acted_this_round : Bool
  pub status : SeatStatus

abbrev pub new_seat_state : ℕ → ℕ → SeatState
new_seat_state seat_no stack = record {
  seat_no = seat_no;
  stack = stack;
  total_committed = 0;
  committed_in_round = 0;
  folded = false;
  has_acted_this_round = false;
  status = active;
}

-- `status == SeatStatusActive`
abbrev pub has_active_status : SeatStatus → Bool
has_active_status active = true
has_active_status _ = false

-- `SeatState.IsActive`
abbrev pub is_active : SeatState → Bool
is_active s = has_active_status s.status && not s.folded

pub record TableConfig : Type 0 where
  pub max_seats : ℕ  -- uint8
  pub min_players_to_start : ℕ  -- uint8
  pub starting_stack : ℕ  -- uint32
  pub small_blind : ℕ  -- uint32
  pub big_blind : ℕ  -- uint32
  pub action_timeout_ms : ℕ  -- uint64

abbrev pub default_v0_table_config : TableConfig
default_v0_table_config = record {
  max_seats = default_max_seats;
  min_players_to_start = default_min_players_to_start;
  starting_stack = default_starting_stack;
  small_blind = default_small_blind;
  big_blind = default_big_blind;
  action_timeout_ms = default_action_timeout_ms;
}

-- `TableConfig.Validate`
unfoldable pub validate : TableConfig → Result (Unit {0})
validate c = do
  fail_if (ltb c.max_seats 2 || ltb default_max_seats c.max_seats) (invalid_max_seats c.max_seats)
  fail_if (ltb c.min_players_to_start 2 || ltb c.max_seats c.min_players_to_start)
      invalid_min_players_to_start
  fail_if (ltb c.big_blind c.small_blind) invalid_blind_structure
  fail_if (c.small_blind == 0 || c.big_blind == 0) invalid_blind_amount

pub data HandPhase : Type 0 where
  dealing betting showdown complete : HandPhase

pub record SeatCards : Type 0 where
  pub seat_no : ℕ
  pub cards : List Card

pub record PotAward : Type 0 where
  pub amount : ℕ  -- uint32
  pub seats : List ℕ
  pub reason : String

pub record HandState : Type 0 where
  pub hand_id : String
  pub table_id : String
  pub hand_no : ℕ  -- uint64
  pub button_seat : ℕ
  pub small_blind : ℕ
  pub big_blind : ℕ
  pub acting_seat : ℕ
  pub action_order_start_seat : ℕ
  pub last_aggressor_seat : Option ℕ
  pub phase : HandPhase
  pub street : Street
  pub pot : ℕ
  pub current_bet : ℕ
  pub min_raise_to : ℕ
  pub last_full_raise : ℕ
  pub board : List Card
  pub deck : List Card
  pub next_card_index : ℕ
  pub hole_cards : List SeatCards
  pub showdown_awards : List PotAward
  pub seats : List SeatState

-- `_, exists := seenSeats[seatNo]`
abbrev pub contains : ℕ → List ℕ → Bool
contains n [] = false
contains n (m ∷ ms) = n == m || contains n ms

-- The loop over the seats: the number of active ones, and the seat numbers seen.
unfoldable pub survey_seats : List SeatState → ℕ → List ℕ → Result (ℕ × List ℕ)
survey_seats [] active_count seen = ok (active_count, seen)
survey_seats (seat ∷ seats) active_count seen = do
  fail_if (contains seat.seat_no seen) duplicate_seat
  survey_seats seats (if is_active seat then suc active_count else active_count)
      (seat.seat_no ∷ seen)

-- `newHandID`: the argument is the hexadecimal text of the random bytes, if they could be read.
pub new_hand_id : Option String → Result String
new_hand_id none = err hand_id_failed
new_hand_id (some id) = ok id

-- `NewHandState`; the first argument is what the system's random source gives.
unfoldable pub new_hand_state :
    Option String → String → ℕ → ℕ → ℕ → List SeatState → TableConfig → Result HandState
unfolding survey_seats new_hand_id
new_hand_state entropy table_id hand_no button_seat acting_seat seats config = do
  validate config
  (active_count, seen) ← survey_seats seats 0 []
  fail_if (ltb active_count config.min_players_to_start)
      (too_few_active_seats config.min_players_to_start active_count)
  fail_if (ltb config.max_seats (length seats)) (too_many_seats config.max_seats (length seats))
  fail_if (not (contains button_seat seen)) (missing_button_seat button_seat)
  fail_if (not (contains acting_seat seen)) (missing_acting_seat acting_seat)
  hand_id ← new_hand_id entropy
  ok (record {
    hand_id = hand_id;
    table_id = table_id;
    hand_no = hand_no;
    button_seat = button_seat;
    small_blind = config.small_blind;
    big_blind = config.big_blind;
    acting_seat = acting_seat;
    action_order_start_seat = acting_seat;
    last_aggressor_seat = none;
    phase = dealing;
    street = preflop;
    pot = 0;
    current_bet = 0;
    min_raise_to = config.big_blind;
    last_full_raise = 0;
    board = [];
    deck = [];
    next_card_index = 0;
    hole_cards = [];
    showdown_awards = [];
    seats = seats;
  })
