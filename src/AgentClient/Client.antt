-- ===== src/AgentClient/Client.antt =====
-- `Client.NextAction` of client.go, and the providers that call it. The exchange over HTTP is an
-- argument: what becomes of a request, by the address and the payload.
pub mod Answers
use Prim.Native.String.{String}
use poker_arena.Common.{
  ℕ, Bool, true, false, ◌||◌, Option, none, some, List, ltb, leb, ◌==◌, if◌then◌else◌, trim_space,
  is_empty, find, number_key,
}
use poker_arena.Domain.{HandState, Action}
use poker_arena.AgentClient.Protocol.{
  AgentError, endpoint_not_configured, request_timeout, network, malformed_response, Answered,
  refused, answered, ProtocolRequest, ProtocolResponse, default_action_timeout,
  build_protocol_request, parse_and_validate_protocol_response,
}

-- What the body of a response decodes to.
pub data Body : Type 0 where
  undecodable trailing_data : Body
  decoded : ProtocolResponse → Body

-- What becomes of a request: it may not be built, the connection may fail, by a timeout or
-- otherwise, and else there is a status and a body.
pub data Exchange : Type 0 where
  not_marshalled not_built timed_out failed : Exchange
  responded : ℕ → Body → Exchange

-- `Request`
pub record Request : Type 0 where
  pub endpoint_url : String
  pub state : HandState
  pub acting_seat : ℕ
  pub action_timeout_ms : ℕ

-- `chooseActionTimeout`
abbrev pub choose_action_timeout : Request → ℕ
choose_action_timeout req =
    if ltb 0 req.action_timeout_ms then req.action_timeout_ms else default_action_timeout

abbrev pub read_body : Body → ProtocolRequest → Answered Action
read_body undecodable payload = refused malformed_response
read_body trailing_data payload = refused malformed_response
read_body (decoded dto) payload = parse_and_validate_protocol_response dto payload.legal_actions

abbrev pub read_exchange : Exchange → ProtocolRequest → Answered Action
read_exchange not_marshalled payload = refused malformed_response
read_exchange not_built payload = refused network
read_exchange timed_out payload = refused request_timeout
read_exchange failed payload = refused network
read_exchange (responded status body) payload =
    if ltb status 200 || leb 300 status then refused network else read_body body payload

-- `Client.NextAction`
unfoldable pub next_action : (String → ProtocolRequest → Exchange) → Request → Answered Action
next_action exchange req =
    if is_empty (trim_space req.endpoint_url)
    then refused endpoint_not_configured
    else elim (build_protocol_request req.state req.acting_seat (choose_action_timeout req)) [
      | refused e ↦ refused e
      | answered payload ↦ read_exchange (exchange req.endpoint_url payload) payload
    ]

-- `ActionProvider.NextAction` of provider.go; the provider of the addresses is an argument, nothing
-- for one that is missing, and for an address that it does not have.
unfoldable pub provider_next_action :
    Option (HandState → ℕ → Option String)
    → ℕ
    → (String → ProtocolRequest → Exchange)
    → HandState
    → Answered Action
unfolding next_action
provider_next_action endpoints default_timeout_ms exchange state = elim endpoints [
  | none ↦ refused endpoint_not_configured
  | some lookup ↦ elim (lookup state state.acting_seat) [
    | none ↦ refused endpoint_not_configured
    | some endpoint ↦
        if is_empty endpoint
        then refused endpoint_not_configured
        else next_action exchange (record {
          endpoint_url = endpoint;
          state = state;
          acting_seat = state.acting_seat;
          action_timeout_ms =
              if default_timeout_ms == 0 then default_action_timeout else default_timeout_ms;
        })
  ]
]

-- `tableSeatEndpointProvider.EndpointForSeat` of provider_factory.go.
unfoldable pub endpoint_for_seat : List (ℕ × String) → ℕ → Option String
endpoint_for_seat endpoints seat = elim (find seat endpoints) [
  | none ↦ none
  | some endpoint ↦ if is_empty (trim_space endpoint) then none else some endpoint
]

-- `seatTimeoutProvider.NextAction` of provider_factory.go.
unfoldable pub seat_next_action :
    List (ℕ × String)
    → ℕ
    → List (ℕ × ℕ)
    → (String → ProtocolRequest → Exchange)
    → HandState
    → Answered Action
unfolding endpoint_for_seat next_action
seat_next_action endpoints default_timeout seat_timeouts exchange state =
    elim (endpoint_for_seat endpoints state.acting_seat) [
      | none ↦ refused endpoint_not_configured
      | some endpoint ↦ next_action exchange (record {
        endpoint_url = endpoint;
        state = state;
        acting_seat = state.acting_seat;
        action_timeout_ms = elim (find state.acting_seat seat_timeouts) [
          | none ↦ default_timeout
          | some timeout ↦ timeout
        ];
      })
    ]
