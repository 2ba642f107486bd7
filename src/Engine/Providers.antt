-- ===== src/Engine/Providers.antt =====
-- The providers of the engine command, providers.go: the bot that checks or calls, the check of what
-- a player at the prompt may do, and the choice between the two by seat. The rendering of the table
-- and the reading of the prompt are left out; a player's provider is an argument.
pub mod Accepted
pub mod Bot
use poker_arena.Common.{
  ℕ, ◌-◌, Bool, true, false, ◌||◌, not, Option, none, some, List, ltb, leb, ◌==◌, if◌then◌else◌,
  first_where,
}
use poker_arena.Domain.{
  Result, ok, err, SeatState, HandState, Street, Action, ActionKind, fold, check, call, bet, raise,
  new_action, runner_misconfigured,
}

-- The loops that look for the acting seat: the first seat with its number.
unfoldable pub acting_seat_of : HandState → Option SeatState
acting_seat_of state = first_where (λ s. s.seat_no == state.acting_seat) state.seats

-- `deterministicProvider.NextAction`
unfoldable pub deterministic_action : HandState → Result Action
unfolding acting_seat_of
deterministic_action state = elim (acting_seat_of state) [
  | none ↦ err runner_misconfigured
  | some seat ↦
      if ltb seat.committed_in_round state.current_bet
      then new_action call none
      else new_action check none
]

-- `isActionAllowedForPrompt`
abbrev pub is_action_allowed_for_prompt : ActionKind → Bool → ℕ → Bool
is_action_allowed_for_prompt fold has_open_bet to_call = true
is_action_allowed_for_prompt check has_open_bet to_call = not has_open_bet || to_call == 0
is_action_allowed_for_prompt call has_open_bet to_call =
    if has_open_bet then ltb 0 to_call else false
is_action_allowed_for_prompt bet has_open_bet to_call = not has_open_bet
is_action_allowed_for_prompt raise has_open_bet to_call = has_open_bet
is_action_allowed_for_prompt (ActionKind.other name) has_open_bet to_call = false

-- The messages of `validateHumanAction`, with what they print.
pub data PromptError : Type 0 where
  acting_seat_not_found cannot_check : ℕ → PromptError
  cannot_call cannot_bet bet_requires_amount cannot_raise raise_requires_amount : PromptError
  bet_exceeds_stack below_min_raise not_above_committed raise_exceeds_stack : ℕ → ℕ → PromptError
  unsupported_kind : ActionKind → PromptError

-- `toCall`
abbrev pub owed : SeatState → ℕ → ℕ
owed acting current_bet =
    if ltb acting.committed_in_round current_bet then current_bet - acting.committed_in_round else 0

-- `action.Amount == nil || *action.Amount == 0` answers with the error, and else goes on.
abbrev pub with_positive : Option ℕ → PromptError → (ℕ → Option PromptError) → Option PromptError
with_positive none e next = some e
with_positive (some amount) e next = if amount == 0 then some e else next amount

-- The case of a raise.
unfoldable pub validate_raise : HandState → SeatState → ℕ → Option PromptError
validate_raise state acting amount =
    let required_delta = amount - acting.committed_in_round in
    if ltb amount state.min_raise_to
    then some (below_min_raise amount state.min_raise_to)
    else if leb amount acting.committed_in_round
    then some (not_above_committed amount acting.committed_in_round)
    else if ltb acting.stack required_delta
    then some (raise_exceeds_stack required_delta acting.stack)
    else none

-- The `switch` of `validateHumanAction`.
unfoldable pub validate_kind : HandState → SeatState → ActionKind → Option ℕ → Option PromptError
unfolding validate_raise
validate_kind state acting fold amount = none
validate_kind state acting check amount =
    let to_call = owed acting state.current_bet in
    if not (to_call == 0) then some (cannot_check to_call) else none
validate_kind state acting call amount =
    if owed acting state.current_bet == 0 then some cannot_call else none
validate_kind state acting bet amount =
    if not (owed acting state.current_bet == 0) || not (state.current_bet == 0)
    then some cannot_bet
    else with_positive amount bet_requires_amount
        (λ n. if ltb acting.stack n then some (bet_exceeds_stack n acting.stack) else none)
validate_kind state acting raise amount =
    if state.current_bet == 0
    then some cannot_raise
    else with_positive amount raise_requires_amount (validate_raise state acting)
validate_kind state acting (ActionKind.other name) amount =
    some (unsupported_kind (ActionKind.other name))

-- `validateHumanAction`: nothing where the action is fine.
unfoldable pub validate_human_action : HandState → Action → Option PromptError
unfolding acting_seat_of validate_kind
validate_human_action state action = elim (acting_seat_of state) [
  | none ↦ some (acting_seat_not_found state.acting_seat)
  | some acting ↦ validate_kind state acting action.kind action.amount
]

-- `actionEvent`, what the command records of an action.
pub record RecordedAction : Type 0 where
  pub hand_no : ℕ
  pub street : Street
  pub seat : ℕ
  pub kind : ActionKind
  pub amount : Option ℕ

abbrev pub recorded : HandState → Action → RecordedAction
recorded state action = record {
  hand_no = state.hand_no;
  street = state.street;
  seat = state.acting_seat;
  kind = action.kind;
  amount = action.amount;
}

-- `recordingProvider.NextAction`: the answer, and what was recorded of it.
unfoldable pub record_answer : HandState → Result Action → Result Action × Option RecordedAction
record_answer state (err e) = (err e, none)
record_answer state (ok action) = (ok action, some (recorded state action))

-- `seatProvider.NextAction`: the player's provider at the player's seat, and else the bot.
unfoldable pub seat_action :
    ℕ
    → (HandState → Result Action)
    → (HandState → Result Action)
    → HandState
    → Result Action × Option RecordedAction
unfolding record_answer
seat_action human_seat human bot state =
    if state.acting_seat == human_seat
    then record_answer state (human state)
    else record_answer state (bot state)
