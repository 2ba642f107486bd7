-- ===== src/Api/Start.antt =====
-- What a request to start a table is checked for, and the provider that it gets:
-- `hydrateStartRequest` and `validateStartRequest` of server.go, `newProviderFactory` of
-- cmd/controlplane/provider_factory.go. What `url.Parse` makes of a text is an argument.
pub mod SeatsChecked
pub mod Startable
use Prim.Native.String.{String}
use poker_arena.Common.{
  ℕ, ◌≡◌, ◌⊎◌, inl, inr, refl, suc, zero, Bool, true, false, not, ◌&&◌, ◌||◌, Option, none, some,
  List, [], ◌∷◌, map, if◌then◌else◌, is_empty, trim_space, ltb, ◌==◌, put, find, number_key,
}
use poker_arena.Domain.{
  Error, Result, ok, err, SeatState, SeatStatus, active, new_seat_state, new_seat_no, TableConfig,
  default_v0_table_config, default_action_timeout_ms, validate, contains,
}
use poker_arena.Persistence.Records.{SeatRecord, TableRecord}
use poker_arena.Persistence.Repository.{Repository, get_table, list_seats, get_agent_version}
use poker_arena.TableRunner.Table.{RunTableInput}
use poker_arena.Api.Access.{ServerConfig, includes, no_entries}
use poker_arena.Api.Replay.{Response, failed, payload}
use poker_arena.Api.Manage.{
  Url, is_web, RequestedStatus, blank, known, unknown, or_default, is_endpoint_allowed,
}

-- `StartSeat`
pub record StartSeat : Type 0 where
  pub seat_no : ℕ
  pub stack : ℕ
  pub status : RequestedStatus
  pub agent_endpoint : String
  pub agent_timeout_ms : Option ℕ

-- `StartRequest`; hands_to_run is 0 for every number that is not positive.
pub record StartRequest : Type 0 where
  pub hands_to_run : ℕ
  pub starting_hand : Option ℕ
  pub button_seat : Option ℕ
  pub table_config : Option TableConfig
  pub seats : List StartSeat

-- The loop of `hydrateStartRequest` over the seats of the table; nothing where a version is missing.
unfoldable pub hydrate_seats : Repository → List SeatRecord → Option (List StartSeat)
hydrate_seats r [] = some []
hydrate_seats r (x ∷ xs) = elim (get_agent_version r x.agent_version_id) [
  | none ↦ none
  | some v ↦ elim (hydrate_seats r xs) [
    | none ↦ none
    | some seats ↦ some (
        record {
          seat_no = x.seat_no;
          stack = x.stack;
          status = known x.status;
          agent_endpoint = v.endpoint_url;
          agent_timeout_ms = none;
        }
        ∷ seats)
  ]
]

abbrev pub no_seats {ℓ} : {A : Type ℓ} → List A → Bool
no_seats [] = true
no_seats (x ∷ xs) = false

abbrev pub or_table_config : Option TableConfig → TableRecord → TableConfig
or_table_config (some c) table = c
or_table_config none table = record default_v0_table_config {
  max_seats = table.max_seats;
  small_blind = table.small_blind;
  big_blind = table.big_blind;
}

-- `hydrateStartRequest`
unfoldable pub hydrate_start_request : Repository → String → StartRequest → Response StartRequest
unfolding hydrate_seats
hydrate_start_request r table_id req =
    if not (no_seats req.seats) then payload req else elim (get_table r table_id) [
      | none ↦ failed 404
      | some table ↦
          if no_seats (list_seats r table_id)
          then failed 400
          else elim (hydrate_seats r (list_seats r table_id)) [
            | none ↦ failed 400
            | some seats ↦ payload (record req {
              table_config = some (or_table_config req.table_config table);
              seats = seats;
            })
          ]
    ]

-- Why `validateStartRequest` refuses a request.
pub data StartError : Type 0 where
  from_domain : Error → StartError
  no_hands_to_run seats_empty : StartError
  duplicate_seat_number invalid_seat_status invalid_endpoint : ℕ → StartError

pub data Checked {ℓ} (T : Type ℓ) : Type ℓ where
  invalid : StartError → Checked T
  valid : T → Checked T

pub Checked-cases :
    {A : Type 0} (c : Checked A) → ((e : StartError) × (c ≡ invalid e)) ⊎ ((x : A) × (c ≡ valid x))
Checked-cases (invalid e) = inl (e, refl)
Checked-cases (valid x) = inr (x, refl)

-- The status of the seat: active where the request has none, nothing where it is refused.
abbrev pub seat_status : RequestedStatus → Option SeatStatus
seat_status blank = some active
seat_status (known s) = some s
seat_status (unknown s) = none

-- `isSeatActiveForStart`, and `isSeatActive` of provider_factory.go.
abbrev pub is_seat_active_for_start : RequestedStatus → Bool
is_seat_active_for_start blank = true
is_seat_active_for_start (known active) = true
is_seat_active_for_start (known s) = false
is_seat_active_for_start (unknown s) = false

-- One round of the loop over the seats, with the numbers seen so far.
unfoldable pub check_seat :
    ServerConfig → (String → Option Url) → ℕ → List ℕ → StartSeat → Checked SeatState
unfolding is_endpoint_allowed
check_seat server parse_url max_seats seen x = elim (new_seat_no x.seat_no max_seats) [
  | err e ↦ invalid (from_domain e)
  | ok n ↦ elim (contains n seen) [
    | true ↦ invalid (duplicate_seat_number n)
    | false ↦ elim (seat_status x.status) [
      | none ↦ invalid (invalid_seat_status n)
      | some status ↦
          elim (is_seat_active_for_start x.status
            && not (is_endpoint_allowed server (parse_url x.agent_endpoint))) [
              | true ↦ invalid (invalid_endpoint n)
              | false ↦ valid (record (new_seat_state n x.stack) { status = status })
            ]
    ]
  ]
]

-- The loop over the seats.
unfoldable pub check_seats :
    ServerConfig → (String → Option Url) → ℕ → List ℕ → List StartSeat → Checked (List SeatState)
unfolding check_seat
check_seats server parse_url max_seats seen [] = valid []
check_seats server parse_url max_seats seen (x ∷ xs) =
    elim (check_seat server parse_url max_seats seen x) [
      | invalid e ↦ invalid e
      | valid s ↦ elim (check_seats server parse_url max_seats (s.seat_no ∷ seen) xs) [
        | invalid e ↦ invalid e
        | valid seats ↦ valid (s ∷ seats)
      ]
    ]

abbrev pub config_of : StartRequest → TableConfig
config_of req = elim req.table_config [ none ↦ default_v0_table_config | some c ↦ c ]

-- `validateStartRequest`; what it returns beside the input are fields of the input.
unfoldable pub validate_start_request :
    ServerConfig → (String → Option Url) → String → StartRequest → Checked RunTableInput
unfolding check_seats
validate_start_request server parse_url table_id req = elim (validate (config_of req)) [
  | err e ↦ invalid (from_domain e)
  | ok done ↦
      if req.hands_to_run == 0
      then invalid no_hands_to_run
      else if no_seats req.seats
      then invalid seats_empty
      else elim (check_seats server parse_url (config_of req).max_seats [] req.seats) [
        | invalid e ↦ invalid e
        | valid seats ↦
            elim (new_seat_no (or_default 1 req.button_seat) (config_of req).max_seats) [
              | err e ↦ invalid (from_domain e)
              | ok button ↦ valid (record {
                table_id = table_id;
                starting_hand = or_default 1 req.starting_hand;
                hands_to_run = req.hands_to_run;
                button_seat = button;
                seats = seats;
                config = config_of req;
              })
            ]
      ]
]

-- What `newProviderFactory` collects: the address of each seat and the timeouts.
pub record Lookup : Type 0 where
  pub endpoints : List (ℕ × String)
  pub seat_timeouts : List (ℕ × ℕ)

abbrev pub with_timeout : ℕ → Option ℕ → List (ℕ × ℕ) → List (ℕ × ℕ)
with_timeout n none timeouts = timeouts
with_timeout n (some t) timeouts = if ltb 0 t then put n t timeouts else timeouts

-- The loop of `newProviderFactory`; nothing for an error.
unfoldable pub provider_lookup : ℕ → List StartSeat → Lookup → Option Lookup
provider_lookup max_seats [] l = some l
provider_lookup max_seats (x ∷ xs) l = elim (new_seat_no x.seat_no max_seats) [
  | err e ↦ none
  | ok n ↦ elim (is_seat_active_for_start x.status) [
    | true ↦ elim (is_empty (trim_space x.agent_endpoint)) [
      | true ↦ none
      | false ↦ provider_lookup max_seats xs (record {
        endpoints = put n (trim_space x.agent_endpoint) l.endpoints;
        seat_timeouts = with_timeout n x.agent_timeout_ms l.seat_timeouts;
      })
    ]
    | false ↦
        provider_lookup max_seats xs
          (record l { seat_timeouts = with_timeout n x.agent_timeout_ms l.seat_timeouts })
  ]
]

-- `newProviderFactory`: the maps of the provider, for a request.
unfoldable pub new_provider_factory : StartRequest → Option Lookup
unfolding provider_lookup
new_provider_factory req =
    provider_lookup (config_of req).max_seats req.seats
      (record { endpoints = []; seat_timeouts = [] })

-- The timeout of the seats without one of their own.
abbrev pub default_timeout : ℕ → ℕ
default_timeout configured = if configured == 0 then default_action_timeout_ms else configured
