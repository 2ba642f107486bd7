-- ===== src/Api/Start/Startable.antt =====
-- What holds of a request that `validateStartRequest` lets pass.
use Prim.Native.String.{String}
use poker_arena.Common.{
  ℕ, ◌≤◌, ◌<◌, ◌≡◌, inl, inr, sym, ap, subst, false, Option, some, Bool-cases, List, [], All,
  is_empty, trim_space, ◌==◌, arith,
}
use poker_arena.Domain.{ok, new_seat_no, validate, survey_seats}
use poker_arena.TableRunner.Table.{RunTableInput}
use poker_arena.Api.Access.{ServerConfig}
use poker_arena.Api.Manage.{Url, or_default}
use poker_arena.Api.Start.{
  StartRequest, Checked-cases, valid, check_seats, config_of, validate_start_request, Lookup,
  new_provider_factory, no_seats,
}
use poker_arena.Api.Start.SeatsChecked.{
  valid-injective, Result-cases, new_seat_no-ok, InRange, Reachable, AllPassed,
  check_seats-AllPassed, AllPassed-InRange, Seated, AllPassed-Seated, AllPassed-Reachable,
  AllPassed-survey_seats, provider_lookup-some,
}

-- The run is of this table, and of the hands that the request asks for, with the first hand, the button
-- and the configuration of the request; what it leaves out is hand 1, seat 1 and the default.
abbrev pub Asked : String → StartRequest → RunTableInput → Type 0
Asked table_id req input = input ≡ record {
  table_id = table_id;
  starting_hand = or_default 1 req.starting_hand;
  hands_to_run = req.hands_to_run;
  button_seat = or_default 1 req.button_seat;
  seats = input.seats;
  config = config_of req;
}

-- What `validateStartRequest` has done where it lets a request pass.
record Run (server : ServerConfig) (parse_url : String → Option Url) (table_id : String)
    (req : StartRequest) (input : RunTableInput) : Type 0 where
  asked : Asked table_id req input
  validated : validate (config_of req) ≡ ok tt
  hands : 0 < input.hands_to_run
  seated : no_seats req.seats ≡ false
  seats : AllPassed server parse_url (config_of req).max_seats [] req.seats input.seats
  button : (1 ≤ input.button_seat) × (input.button_seat ≤ (config_of req).max_seats)

validate_start_request-Run :
    (server : ServerConfig) (parse_url : String → Option Url) (table_id : String)
    (req : StartRequest) {input : RunTableInput}
    → validate_start_request server parse_url table_id req ≡ valid input
    → Run server parse_url table_id req input
unfolding validate_start_request
validate_start_request-Run server parse_url table_id req {input} e =
    let config = config_of req in
    elim (Result-cases (validate config)) [
      | inl (why, bad) ↦ absurd (cc (rw (bad, validate_start_request) at e))
      | inr (done, good) ↦ elim (Bool-cases (req.hands_to_run == 0)) [
        | inl none_asked ↦ absurd (cc (rw (good, none_asked, validate_start_request) at e))
        | inr some_asked ↦ elim (Bool-cases (no_seats req.seats)) [
          | inl empty ↦ absurd (cc (rw (good, some_asked, empty, validate_start_request) at e))
          | inr seated ↦
              elim (Checked-cases (check_seats server parse_url config.max_seats [] req.seats)) [
                | inl (why, bad) ↦
                    absurd (cc (rw (good, some_asked, seated, bad, validate_start_request) at e))
                | inr (seats, fine) ↦
                    elim (Result-cases
                      (new_seat_no (or_default 1 req.button_seat) config.max_seats)) [
                        | inl (why, bad) ↦ absurd (
                            cc (
                              rw (good, some_asked, seated, fine, bad, validate_start_request) at
                                e))
                        | inr (button, placed) ↦
                            let (same, low, high) =
                              new_seat_no-ok (or_default 1 req.button_seat) config.max_seats
                                placed in
                            subst (Run server parse_url table_id req)
                              (valid-injective (
                                rw (good, some_asked, seated, fine, placed, validate_start_request)
                                  at e))
                              (record {
                                asked =
                                    ap
                                      (λ b. record {
                                        table_id = table_id;
                                        starting_hand = or_default 1 req.starting_hand;
                                        hands_to_run = req.hands_to_run;
                                        button_seat = b;
                                        seats = seats;
                                        config = config;
                                      })
                                      (sym same);
                                seated = seated;
                                validated = good;
                                hands = ground (arith, some_asked);
                                seats =
                                    check_seats-AllPassed server parse_url config.max_seats []
                                      req.seats fine;
                                button = (low, high);
                              })
                      ]
              ]
        ]
      ]
    ]

-- A request that `validateStartRequest` lets pass makes a run of the table, of the hands that it asks
-- for, at least one, from the first hand, with the button and the configuration of the request, or hand 1,
-- seat 1 and the default; and of its seats, at least one, in their order, with their numbers, stacks
-- and statuses. The configuration is valid, the button and every seat are from 1 to its maximum, and
-- no seat is there twice, as `NewHandState` demands it; and the address of each seat that will act is
-- one of http or https, with a host that is allowed.
pub validate_start_request-valid :
    (server : ServerConfig) (parse_url : String → Option Url) (table_id : String)
    (req : StartRequest) {input : RunTableInput}
    → validate_start_request server parse_url table_id req ≡ valid input
    → Asked table_id req input
      × Seated req.seats input.seats
      × (no_seats req.seats ≡ false)
      × (validate input.config ≡ ok tt)
      × (0 < input.hands_to_run)
      × (1 ≤ input.button_seat)
      × (input.button_seat ≤ input.config.max_seats)
      × All (InRange server parse_url input.config.max_seats) input.seats
      × ((found : ℕ × List ℕ) × (survey_seats input.seats 0 [] ≡ ok found))
      × All (Reachable server parse_url input.config.max_seats) req.seats
validate_start_request-valid server parse_url table_id req {input} e =
    let run = validate_start_request-Run server parse_url table_id req e in
    let max = (config_of req).max_seats in
    let config : input.config ≡ config_of req = ap (λ i. i.config) run.asked in
    (
      run.asked,
      AllPassed-Seated server parse_url max [] req.seats input.seats run.seats,
      run.seated,
      rw config run.validated,
      run.hands,
      run.button.0,
      rw config run.button.1,
      rw config (AllPassed-InRange server parse_url max [] req.seats input.seats run.seats),
      AllPassed-survey_seats server parse_url max [] req.seats input.seats 0 run.seats,
      AllPassed-Reachable server parse_url max [] req.seats input.seats run.seats,
    )

-- A request that `validateStartRequest` lets pass gets its provider, where `url.Parse` finds a host in
-- no text that is blank.
pub validate_start_request-provider :
    (server : ServerConfig) (parse_url : String → Option Url) (table_id : String)
    (req : StartRequest) {input : RunTableInput}
    → ((s : String) (u : Url)
        → parse_url s ≡ some u
        → is_empty u.host ≡ false
        → is_empty (trim_space s) ≡ false)
    → validate_start_request server parse_url table_id req ≡ valid input
    → (l : Lookup) × (new_provider_factory req ≡ some l)
unfolding new_provider_factory
validate_start_request-provider server parse_url table_id req {input} documented e =
    let run = validate_start_request-Run server parse_url table_id req e in
    provider_lookup-some server parse_url (config_of req).max_seats documented [] req.seats
      input.seats (record { endpoints = []; seat_timeouts = [] }) run.seats
