-- ===== src/Tests/Server.antt =====
-- The server at the repository with two hands.
use Prim.Native.String.{String}
use poker_arena.Common.{
  ℕ, Bool, Bool-cases, inl, inr, ◌≤◌, ◌<◌, ◌≡◌, ◌↔◌, ◌⊎◌, refl, true, false, Option, none, some,
  List, [], ◌∷◌, map, All, find, put, number_key, string_key, if◌then◌else◌, is_empty, trim_space,
  trim_slashes, split_slash, strip_prefix,
}
use poker_arena.Domain.{
  Card, HandState, hearts, clubs, new_seat_state, Error, ok, flop, validate, survey_seats,
  new_seat_no, default_v0_table_config,
}
use poker_arena.TableRunner.Table.{RunTableInput}
use poker_arena.Persistence.Records.{HandRecord, AgentVersionRecord, TableRunRecord}
use poker_arena.Persistence.Repository.{
  Repository, upsert_table_run, get_hand, create_agent_version, version_taken,
}
use poker_arena.Api.Access.{
  CallerIdentity, seat, ServerConfig, HttpRequest, is_admin, authenticate, handle_cors,
  parse_bearer_token,
}
use poker_arena.Api.Routes.{
  replay, handled, serve_http, routed, remaining_route, hand_route, parse_hand_route,
  parse_table_route, parse_table_latest_replay_route, parse_agent_versions_route,
}
use poker_arena.Api.Routes.Allowed.{serve_http-handled, is_for_seats}
use poker_arena.Api.Analytics.{replay_analytics, replay_analytics-counts, count_at, street_key}
use poker_arena.Api.Replay.{
  payload, hand_includes_seat, parse_redact_hole_cards, build_hand_replay_response, handle_replay,
  HandReplayResponse, is_showdown_hand, apply_replay_visibility, redact_folded_seat_hole_cards,
}
use poker_arena.Api.Replay.Visible.{
  SeesOf, shown, build_hand_replay_response-hole_cards, handle_replay-seat,
}
use poker_arena.Api.Manage.{
  Url, blank, is_endpoint_allowed, allocate_version, CreateAgentVersionRequest,
  handle_create_agent_version,
}
use poker_arena.Api.Manage.Versions.{handle_create_agent_version-least}
use poker_arena.Api.Start.{
  StartSeat, StartRequest, no_seats, valid, check_seat, check_seats, hydrate_start_request,
  validate_start_request, Lookup, new_provider_factory,
}
use poker_arena.Api.Start.SeatsChecked.{InRange, Reachable, Seated}
use poker_arena.Api.Start.Startable.{
  Asked, validate_start_request-valid, validate_start_request-provider,
}
use poker_arena.Api.Run.{Control, decoded, launch, handle_start, fresh_status}
use poker_arena.Api.Run.Launched.{Begun}
use poker_arena.Api.Run.Ended.{Granted, handle_start-Begun}
use text.Mathlib.TextEquality.{eq_iff}
use text.Mathlib.Text.{◌==◌ as same_text}
use poker_arena.Tests.Hands.{sample, seat_after, aces, kings, card}
use poker_arena.Tests.Repository.{called_in, hand_numbered, filled}

abbrev guarded : ServerConfig
guarded = record {
  admin_bearer_tokens = "root" ∷ [];
  seat_bearer_tokens = ("one", 1) ∷ [];
  allowed_agent_hosts = [];
  allowed_cors_origins = [];
}

abbrev by_seat_one : HttpRequest
by_seat_one = record {
  method = "GET";
  path = "/hands/a/replay";
  authorization = "Bearer one";
  origin = "";
  access_control_request_method = "";
  redact_hole_cards = "";
}

abbrev seat_one : CallerIdentity
seat_one = record { role = seat; seat = some 1; token = "one" }

replay_reached : serve_http guarded by_seat_one ≡ handled seat_one (replay "a")
unfolding serve_http handle_cors authenticate parse_bearer_token strip_prefix trim_space find routed
    remaining_route hand_route parse_hand_route parse_table_route parse_table_latest_replay_route
    parse_agent_versions_route split_slash trim_slashes
replay_reached = refl

serve_http-handled_example :
    (authenticate guarded "Bearer one" ≡ some seat_one)
    × ((is_admin seat_one ≡ true) ⊎ (is_for_seats (replay "a") ≡ true))
serve_http-handled_example = serve_http-handled guarded by_seat_one replay_reached

replay_analytics-counts_example :
    let a = replay_analytics (called_in "a" ∷ []) in
    (a.total_actions ≡ 1)
    × (a.fallback_actions ≡ 0)
    × (count_at flop a.actions_by_street ≡ 1)
    × (count_at 1 a.actions_by_seat ≡ 1)
replay_analytics-counts_example = replay_analytics-counts (called_in "a" ∷ []) flop 1

abbrev queens : List Card
queens = card 12 hearts ∷ card 12 clubs ∷ []

-- A hand with cards for three seats, the third of which has folded.
abbrev dealt_state : HandState
dealt_state = record sample {
  hole_cards =
      record { seat_no = 1; cards = aces }
      ∷ record { seat_no = 2; cards = kings }
      ∷ record { seat_no = 3; cards = queens }
      ∷ [];
  seats = seat_after 1 0 ∷ seat_after 2 50 ∷ (record (seat_after 3 100) { folded = true }) ∷ [];
}

abbrev dealt_hand : String → HandRecord
dealt_hand reason = record (hand_numbered "a" 1) {
  final_state = dealt_state;
  winner_summary = record { amount = 150; seats = 1 ∷ []; reason = reason } ∷ [];
}

-- The repository with such a hand, its award for a reason.
abbrev with_hand : String → Repository
with_hand reason = record filled { hands = ("a", dealt_hand reason) ∷ [] }

abbrev replay_of : String → Bool → HandReplayResponse
replay_of reason redact =
    build_hand_replay_response (with_hand reason) seat_one (dealt_hand reason) redact

abbrev seen_cards : String → Bool → List (List Card)
seen_cards reason redact = map (λ c. c.cards) (replay_of reason redact).final_state.hole_cards

-- A seat sees the cards of the others where the reason is "showdown", those of folded seats too.
showdown_shows : seen_cards "showdown" false ≡ aces ∷ kings ∷ queens ∷ []
unfolding build_hand_replay_response apply_replay_visibility redact_folded_seat_hole_cards
showdown_shows = refl

folded_hidden : seen_cards "showdown" true ≡ aces ∷ kings ∷ [] ∷ []
unfolding build_hand_replay_response apply_replay_visibility redact_folded_seat_hole_cards
folded_hidden = refl

others_hidden : seen_cards "main_pot" false ≡ aces ∷ [] ∷ [] ∷ []
unfolding build_hand_replay_response apply_replay_visibility redact_folded_seat_hole_cards
others_hidden = refl

build_hand_replay_response-hole_cards_example :
    let state = (replay_of "showdown" true).final_state in
    (state.hole_cards
      ≡ map
          (shown seat_one (is_showdown_hand (dealt_hand "showdown")) true dealt_state)
          dealt_state.hole_cards)
    × (state.deck ≡ dealt_state.deck)
build_hand_replay_response-hole_cards_example =
    build_hand_replay_response-hole_cards (with_hand "showdown") seat_one (dealt_hand "showdown")
      true

replay_answered :
    handle_replay (with_hand "main_pot") seat_one "a" "" ≡ payload (replay_of "main_pot" false)
unfolding handle_replay parse_redact_hole_cards trim_space get_hand find
replay_answered = refl

handle_replay-seat_example :
    (hand : HandRecord) × (redact : Bool) × (get_hand (with_hand "main_pot") "a" ≡ some hand)
    × (parse_redact_hole_cards "" ≡ some redact)
    × (hand_includes_seat hand 1 ≡ true)
    × SeesOf seat_one hand redact (replay_of "main_pot" false)
handle_replay-seat_example =
    handle_replay-seat (with_hand "main_pot") seat_one "a" "" refl replay_answered

-- A reading of addresses that finds a host in one text.
abbrev parse_one : String → Option Url
parse_one s =
    if same_text s "http://agent" then some (record { host = "agent"; scheme = "http" }) else none

abbrev wanted : CreateAgentVersionRequest
wanted = record { endpoint_url = "http://agent"; config_json = [] }

abbrev second_version : AgentVersionRecord
second_version = record {
  id = "new";
  agent_id = "agent";
  version = 2;
  endpoint_url = "http://agent";
  config_json = b'{' ∷ b'}' ∷ [];
  created_at = 9;
}

second_created :
    handle_create_agent_version guarded parse_one filled (λ n. "new") (λ n. 9) "agent" (some wanted)
    ≡ (
      record filled { versions = put "new" second_version filled.versions },
      payload second_version,
    )
unfolding handle_create_agent_version allocate_version is_endpoint_allowed trim_space
    create_agent_version version_taken find put
second_created = refl

handle_create_agent_version-least_example :
    (record filled { versions = put "new" second_version filled.versions }
      ≡ record filled { versions = put "new" second_version filled.versions })
    × (second_version.agent_id ≡ "agent")
    × (second_version.endpoint_url ≡ trim_space "http://agent")
    × (1 ≤ 2)
    × (version_taken "agent" 2 filled.versions ≡ false)
    × ((n : ℕ) → 1 ≤ n → n < 2 → version_taken "agent" n filled.versions ≡ true)
handle_create_agent_version-least_example =
    handle_create_agent_version-least guarded parse_one filled
      (record filled { versions = put "new" second_version filled.versions }) (λ n. "new") (λ n. 9)
      "agent" wanted second_created

abbrev start_seat : ℕ → StartSeat
start_seat n = record {
  seat_no = n;
  stack = 1000;
  status = blank;
  agent_endpoint = "http://agent";
  agent_timeout_ms = none;
}

abbrev two_seats : StartRequest
two_seats = record {
  hands_to_run = 2;
  starting_hand = none;
  button_seat = none;
  table_config = none;
  seats = start_seat 1 ∷ start_seat 2 ∷ [];
}

abbrev run_input : RunTableInput
run_input = record {
  table_id = "table";
  starting_hand = 1;
  hands_to_run = 2;
  button_seat = 1;
  seats = new_seat_state 1 1000 ∷ new_seat_state 2 1000 ∷ [];
  config = default_v0_table_config;
}

two_seats_valid : validate_start_request guarded parse_one "table" two_seats ≡ valid run_input
unfolding validate_start_request check_seats check_seat is_endpoint_allowed validate new_seat_no
two_seats_valid = refl

validate_start_request-valid_example :
    Asked "table" two_seats run_input
    × Seated two_seats.seats run_input.seats
    × (no_seats two_seats.seats ≡ false)
    × (validate default_v0_table_config ≡ ok tt)
    × (0 < 2)
    × (1 ≤ 1)
    × (1 ≤ 6)
    × All (InRange guarded parse_one 6) run_input.seats
    × ((found : ℕ × List ℕ) × (survey_seats run_input.seats 0 [] ≡ ok found))
    × All (Reachable guarded parse_one 6) two_seats.seats
validate_start_request-valid_example =
    validate_start_request-valid guarded parse_one "table" two_seats two_seats_valid

parse_one_documented :
    (s : String) (u : Url)
    → parse_one s ≡ some u
    → is_empty u.host ≡ false
    → is_empty (trim_space s) ≡ false
unfolding trim_space
parse_one_documented s u parsed hosted = elim (Bool-cases (same_text s "http://agent")) [
  | inl same ↦ let e : s ≡ "http://agent" = (eq_iff s "http://agent").0 same in rw e refl
  | inr other ↦ absurd (cc (rw other at parsed))
]

validate_start_request-provider_example : (l : Lookup) × (new_provider_factory two_seats ≡ some l)
validate_start_request-provider_example =
    validate_start_request-provider guarded parse_one "table" two_seats parse_one_documented
      two_seats_valid

abbrev quiet : Control
quiet = record { repo = filled; runs = [] }

-- The request starts the run.
started_run : handle_start guarded parse_one (λ r. none) quiet 7 "table" (decoded two_seats) ≡ (
  record {
    repo = record filled { table_runs = ("table", fresh_status "table" 7 run_input) ∷ [] };
    runs = ("table", fresh_status "table" 7 run_input) ∷ [];
  },
  payload run_input,
)
unfolding handle_start launch hydrate_start_request validate_start_request check_seats check_seat
    is_endpoint_allowed validate new_seat_no upsert_table_run find put
started_run = refl

handle_start-Begun_example :
    Begun quiet "table" 7
      (handle_start guarded parse_one (λ r. none) quiet 7 "table" (decoded two_seats))
    × (((handle_start guarded parse_one (λ r. none) quiet 7 "table" (decoded two_seats)).1
          ≡ payload run_input)
        ↔ Granted guarded parse_one (λ r. none) quiet "table" (decoded two_seats) run_input)
handle_start-Begun_example =
    handle_start-Begun guarded parse_one (λ r. none) quiet 7 "table" (decoded two_seats) run_input

abbrev under_way : TableRunRecord
under_way = fresh_status "table" 7 run_input

abbrev no_error : Option Error
no_error = none

abbrev only_one : String → Option ℕ
only_one s = if same_text s "1" then some 1 else none

abbrev started_with : ServerConfig
started_with = record {
  admin_bearer_tokens = "root" ∷ [];
  seat_bearer_tokens = ("one", 1) ∷ [];
  allowed_agent_hosts = "agent" ∷ [];
  allowed_cors_origins = [];
}
