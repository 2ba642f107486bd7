-- ===== src/Api/Run/Ended.antt =====
-- How a run begins and ends: the table of the runs, and the status that is stored.
use Prim.Native.String.{String}
use poker_arena.Common.{ℕ, ◌∙◌, ◌≡◌, ◌↔◌, ◌⊎◌, inl, inr, refl, Option, none, find, ap, string_key}
use poker_arena.TableRunner.Table.{RunTableInput}
use poker_arena.Persistence.Records.{Time}
use poker_arena.Persistence.Repository.{upsert_table_run}
use poker_arena.Api.Access.{ServerConfig}
use poker_arena.Api.Replay.{Response, payload}
use poker_arena.Api.Manage.{Url}
use poker_arena.Api.Start.{
  StartRequest, Checked-cases, valid, hydrate_start_request, validate_start_request,
}
use poker_arena.Api.Run.Launched.{Begun, launch-Begun, launch-payload}
use poker_arena.Api.Run.{Control, StartBody, undecodable, too_large, decoded, launch, handle_start}

Response-cases {ℓ} :
    {A : Type ℓ} (r : Response A)
    → ((code : ℕ) × (r ≡ Response.failed code)) ⊎ ((x : A) × (r ≡ payload x))
Response-cases (Response.failed code) = inl (code, refl)
Response-cases (payload x) = inr (x, refl)

-- What must hold for a request to start a run: it can be read and resolved, it passes the checks, the
-- table is not running, and there is a provider.
abbrev pub Granted :
    ServerConfig
    → (String → Option Url)
    → (StartRequest → Option String)
    → Control
    → String
    → StartBody
    → RunTableInput
    → Type 0
Granted config parse_url factory c table_id body input =
    (req : StartRequest) × (resolved : StartRequest) × (body ≡ decoded req)
    × (hydrate_start_request c.repo table_id req ≡ payload resolved)
    × (validate_start_request config parse_url table_id resolved ≡ valid input)
    × (find table_id c.runs ≡ none)
    × (factory resolved ≡ none)

handle_start-Begun_only :
    (config : ServerConfig) (parse_url : String → Option Url)
    (factory : StartRequest → Option String) (c : Control) (now : Time) (table_id : String)
    (body : StartBody)
    → Begun c table_id now (handle_start config parse_url factory c now table_id body)
unfolding handle_start
handle_start-Begun_only config parse_url factory c now table_id undecodable = (refl, inl refl)
handle_start-Begun_only config parse_url factory c now table_id too_large = (refl, inl refl)
handle_start-Begun_only config parse_url factory c now table_id (decoded req) =
    elim (Response-cases (hydrate_start_request c.repo table_id req)) [
      | inl (code, bad) ↦ rw (bad, handle_start) (refl, inl refl)
      | inr (resolved, good) ↦
          elim (Checked-cases (validate_start_request config parse_url table_id resolved)) [
            | inl (why, bad) ↦ rw (good, handle_start, bad) (refl, inl refl)
            | inr (input, fine) ↦
                rw (good, handle_start, fine) (launch-Begun c table_id now input (factory resolved))
          ]
    ]

handle_start-Granted :
    (config : ServerConfig) (parse_url : String → Option Url)
    (factory : StartRequest → Option String) (c : Control) (now : Time) (table_id : String)
    (body : StartBody) {input : RunTableInput}
    → (handle_start config parse_url factory c now table_id body).1 ≡ payload input
    → Granted config parse_url factory c table_id body input
unfolding handle_start
handle_start-Granted config parse_url factory c now table_id undecodable e = absurd (cc e)
handle_start-Granted config parse_url factory c now table_id too_large e = absurd (cc e)
handle_start-Granted config parse_url factory c now table_id (decoded req) e =
    elim (Response-cases (hydrate_start_request c.repo table_id req)) [
      | inl (code, bad) ↦ absurd (cc (rw (bad, handle_start) at e))
      | inr (resolved, good) ↦
          elim (Checked-cases (validate_start_request config parse_url table_id resolved)) [
            | inl (why, bad) ↦ absurd (cc (rw (good, bad, handle_start) at e))
            | inr (input, fine) ↦
                let (same, idle, provided) =
                  launch-payload c table_id now input (factory resolved)
                    (rw (good, fine, handle_start) at e) in
                (req, resolved, refl, good, fine ∙ ap valid same, idle, provided)
          ]
    ]

Granted-payload :
    (config : ServerConfig) (parse_url : String → Option Url)
    (factory : StartRequest → Option String) (c : Control) (now : Time) (table_id : String)
    (body : StartBody) {input : RunTableInput}
    → Granted config parse_url factory c table_id body input
    → (handle_start config parse_url factory c now table_id body).1 ≡ payload input
unfolding handle_start launch upsert_table_run
Granted-payload config parse_url factory c now table_id body
      (req, resolved, same, good, fine, idle, provided) =
    rw same (rw (good, fine, idle, provided, handle_start, launch) refl)

-- A request to start a table succeeds exactly where it can be read and resolved, passes the checks, the
-- table is not running and there is a provider. Where it succeeds all that has changed is that the
-- table runs from then on, with a new status that is also stored. Where it fails the runs are left
-- exactly as they were, and the repository too, but that a table which was not running may have a
-- failed status of a run stored.
pub handle_start-Begun :
    (config : ServerConfig) (parse_url : String → Option Url)
    (factory : StartRequest → Option String) (c : Control) (now : Time) (table_id : String)
    (body : StartBody) (input : RunTableInput)
    → Begun c table_id now (handle_start config parse_url factory c now table_id body)
      × (((handle_start config parse_url factory c now table_id body).1 ≡ payload input)
          ↔ Granted config parse_url factory c table_id body input)
handle_start-Begun config parse_url factory c now table_id body input = (
  handle_start-Begun_only config parse_url factory c now table_id body,
  (
    handle_start-Granted config parse_url factory c now table_id body,
    Granted-payload config parse_url factory c now table_id body,
  ),
)
