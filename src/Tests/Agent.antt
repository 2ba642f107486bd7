-- ===== src/Tests/Agent.antt =====
-- The answers of an agent at the seat that acts.
use Prim.Native.String.{String}
use poker_arena.Common.{
  ◌≤◌, ◌≡◌, ◌↔◌, refl, false, some, [], ◌∷◌, arith, trim_space, sub32, sort_by, rotated,
}
use poker_arena.Domain.{ok, HandState, raise, standard52_deck, new_action}
use poker_arena.StateMachine.Seats.{
  seat_index, compute_to_call, is_betting_round_closed, mark_round_response_pending, next_seat,
}
use poker_arena.StateMachine.Action.{acting, apply_action, play_raise}
use poker_arena.StateMachine.Action.Valid.{IsValid}
use poker_arena.AgentClient.Protocol.{
  answered, ProtocolRequest, derive_legal_actions, offers, seat_by_no, hole_cards_for_seat,
  protocol_request, build_protocol_request, parse_and_validate_protocol_response,
}
use poker_arena.AgentClient.Client.{decoded, Exchange, responded, Request, next_action}
use poker_arena.AgentClient.Client.Answers.{
  SizedWell, next_action-apply_action, derive_legal_actions-raise_missing,
}
use poker_arena.Tests.Hands.{or_else, act, aces, sample, seat_after}

abbrev dealt : HandState
dealt = record sample { hole_cards = record { seat_no = 1; cards = aces } ∷ [] }

dealt-IsValid : IsValid dealt
unfolding acting seat_index standard52_deck
dealt-IsValid = record {
  distinct = omega arith;
  full_deck = refl;
  room = omega arith;
  board = refl;
  turn_ready = λ e. (0, seat_after 1 0, refl);
}

dealt-acting : acting dealt ≡ ok (0, seat_after 1 0)
unfolding acting seat_index
dealt-acting = refl

abbrev raising : String → ProtocolRequest → Exchange
raising url payload = responded 200 (decoded (record { action = raise; amount = some 300 }))

abbrev asked : Request
asked = record {
  endpoint_url = "http://agent";
  state = dealt;
  acting_seat = 1;
  action_timeout_ms = 0;
}

raising_answered : next_action raising asked ≡ answered (act raise (some 300))
unfolding next_action build_protocol_request protocol_request seat_by_no hole_cards_for_seat
    derive_legal_actions parse_and_validate_protocol_response new_action trim_space
raising_answered = refl

next_action-apply_action_example :
    SizedWell dealt (seat_after 1 0) raise (some 300)
    ↔ ((t : HandState) × (apply_action dealt (act raise (some 300)) ≡ ok t))
next_action-apply_action_example =
    next_action-apply_action raising asked 0 (seat_after 1 0) (act raise (some 300)) dealt-IsValid
      refl refl dealt-acting raising_answered

-- The others have called, and the big blind is to act.
abbrev option_hand : HandState
option_hand = record sample {
  acting_seat = 3;
  pot = 300;
  seats = seat_after 1 100 ∷ seat_after 2 100 ∷ seat_after 3 100 ∷ [];
}

option_hand-IsValid : IsValid option_hand
unfolding acting seat_index standard52_deck
option_hand-IsValid = record {
  distinct = omega arith;
  full_deck = refl;
  room = omega arith;
  board = refl;
  turn_ready = λ e. (2, seat_after 3 100, refl);
}

option_hand-acting : acting option_hand ≡ ok (2, seat_after 3 100)
unfolding acting seat_index
option_hand-acting = refl

abbrev raised : HandState
unfolding apply_action
raised = or_else option_hand (apply_action option_hand (act raise (some 300)))

raised_ok : apply_action option_hand (act raise (some 300)) ≡ ok raised
unfolding apply_action seat_index standard52_deck play_raise compute_to_call is_betting_round_closed
    mark_round_response_pending sub32 next_seat sort_by rotated
raised_ok = refl

derive_legal_actions-raise_missing_example :
    (offers (derive_legal_actions option_hand (seat_after 3 100) 0) raise ≡ false)
    ↔ ((raise ≡ raise) × (100 ≤ 100))
derive_legal_actions-raise_missing_example =
    derive_legal_actions-raise_missing option_hand (act raise (some 300)) 2 (seat_after 3 100)
      option_hand-IsValid refl option_hand-acting raised_ok
