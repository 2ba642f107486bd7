-- ===== src/AgentClient/Protocol.antt =====
-- The protocol of client.go: what an agent is told, and which answers are taken.
use Prim.Native.String.{String}
use text.Mathlib.Text.{◌==◌ as same_text}
use poker_arena.Common.{
  ℕ, ◌-◌, Bool, true, false, ◌&&◌, ◌||◌, not, Option, none, some, List, [], ◌∷◌, map, length, ltb,
  ◌==◌, if◌then◌else◌, first_where, put, number_key,
}
use poker_arena.Domain.{
  Result, ok, err, Card, SeatState, SeatCards, HandState, Action, ActionKind, fold, check, call,
  bet, raise, new_action,
}
use poker_arena.AgentClient.Cards.{format_card_ascii}

-- The errors of the package, by the sentinel that each wraps.
pub data AgentError : Type 0 where
  endpoint_not_configured request_timeout network malformed_response : AgentError
  illegal_agent_action missing_hole_cards : AgentError

pub data Answered {ℓ} (T : Type ℓ) : Type ℓ where
  refused : AgentError → Answered T
  answered : T → Answered T

-- `protocolRequest`; the maps are by seat number, which Go writes out in decimal.
pub record ProtocolRequest : Type 0 where
  pub protocol_version : ℕ
  pub hand_id : String
  pub table_id : String
  pub seat : ℕ
  pub hole_cards : List String
  pub board : List String
  pub pot : ℕ
  pub to_call : ℕ
  pub min_raise_to : Option ℕ
  pub stacks : List (ℕ × ℕ)
  pub bets : List (ℕ × ℕ)
  pub legal_actions : List ActionKind
  pub action_deadline : ℕ

-- `protocolResponse`
pub record ProtocolResponse : Type 0 where
  pub action : ActionKind
  pub amount : Option ℕ

abbrev pub default_action_timeout : ℕ
default_action_timeout = 2_000

-- `deriveLegalActions`
unfoldable pub derive_legal_actions : HandState → SeatState → ℕ → List ActionKind
derive_legal_actions state acting to_call =
    if to_call == 0
    then fold ∷ check ∷ (if ltb 0 acting.stack && state.current_bet == 0 then bet ∷ [] else [])
    else fold
      ∷ call
      ∷ (if ltb 0 state.current_bet && ltb to_call acting.stack then raise ∷ [] else [])

abbrev pub same_kind : ActionKind → ActionKind → Bool
same_kind fold fold = true
same_kind check check = true
same_kind call call = true
same_kind bet bet = true
same_kind raise raise = true
same_kind (ActionKind.other a) (ActionKind.other b) = same_text a b
same_kind _ _ = false

-- `_, ok := legal[kind]`
abbrev pub offers : List ActionKind → ActionKind → Bool
offers [] kind = false
offers (k ∷ kinds) kind = same_kind k kind || offers kinds kind

-- `seatByNo`
unfoldable pub seat_by_no : List SeatState → ℕ → Option SeatState
seat_by_no seats seat_no = first_where (λ s. s.seat_no == seat_no) seats

-- `holeCardsForSeat`
unfoldable pub hole_cards_for_seat : List SeatCards → ℕ → Option SeatCards
hole_cards_for_seat cards seat_no = first_where (λ c. c.seat_no == seat_no) cards

-- The `toCall` of `buildProtocolRequest`.
abbrev pub amount_to_call : SeatState → ℕ → ℕ
amount_to_call acting current_bet =
    if ltb acting.committed_in_round current_bet then current_bet - acting.committed_in_round else 0

-- One number for each seat; a later seat with the same number counts.
abbrev pub by_seat : (SeatState → ℕ) → List SeatState → List (ℕ × ℕ) → List (ℕ × ℕ)
by_seat f [] found = found
by_seat f (s ∷ seats) found = by_seat f seats (put s.seat_no (f s) found)

-- The payload that `buildProtocolRequest` fills in, for a seat with these two cards.
unfoldable pub protocol_request : HandState → ℕ → ℕ → SeatState → List Card → ProtocolRequest
unfolding derive_legal_actions
protocol_request state acting_seat timeout acting hole =
    let to_call = amount_to_call acting state.current_bet in
    let legal = derive_legal_actions state acting to_call in
    record {
      protocol_version = 1;
      hand_id = state.hand_id;
      table_id = state.table_id;
      seat = acting_seat;
      hole_cards = map format_card_ascii hole;
      board = map format_card_ascii state.board;
      pot = state.pot;
      to_call = to_call;
      min_raise_to = if offers legal raise then some state.min_raise_to else none;
      stacks = by_seat (λ s. s.stack) state.seats [];
      bets = by_seat (λ s. s.committed_in_round) state.seats [];
      legal_actions = legal;
      action_deadline = timeout;
    }

-- `buildProtocolRequest`; the set of the legal actions is the list in the payload.
unfoldable pub build_protocol_request : HandState → ℕ → ℕ → Answered ProtocolRequest
unfolding seat_by_no hole_cards_for_seat protocol_request
build_protocol_request state acting_seat timeout = elim (seat_by_no state.seats acting_seat) [
  | none ↦ refused malformed_response
  | some acting ↦ elim (hole_cards_for_seat state.hole_cards acting_seat) [
    | none ↦ refused missing_hole_cards
    | some found ↦
        if not (length found.cards == 2)
        then refused missing_hole_cards
        else answered (protocol_request state acting_seat timeout acting found.cards)
  ]
]

-- An error of `NewAction` becomes `ErrIllegalAgentAction`.
abbrev pub or_illegal : Result Action → Answered Action
or_illegal (err e) = refused illegal_agent_action
or_illegal (ok action) = answered action

-- `dto.Amount == nil || *dto.Amount == 0`
abbrev pub not_positive : Option ℕ → Bool
not_positive none = true
not_positive (some n) = n == 0

abbrev pub is_set : Option ℕ → Bool
is_set none = false
is_set (some n) = true

-- The `switch` of `parseAndValidateProtocolResponse`.
abbrev pub parse_sized : ActionKind → Option ℕ → Answered Action
parse_sized kind amount =
    if not_positive amount
    then refused illegal_agent_action
    else or_illegal (new_action kind amount)

abbrev pub parse_unsized : ActionKind → Option ℕ → Answered Action
parse_unsized kind amount =
    if is_set amount then refused illegal_agent_action else or_illegal (new_action kind none)

abbrev pub parse_kind : ActionKind → Option ℕ → Answered Action
parse_kind bet amount = parse_sized bet amount
parse_kind raise amount = parse_sized raise amount
parse_kind kind amount = parse_unsized kind amount

-- `parseAndValidateProtocolResponse`
unfoldable pub parse_and_validate_protocol_response :
    ProtocolResponse → List ActionKind → Answered Action
parse_and_validate_protocol_response dto legal =
    if not (offers legal dto.action)
    then refused illegal_agent_action
    else parse_kind dto.action dto.amount
