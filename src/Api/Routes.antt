-- ===== src/Api/Routes.antt =====
-- `ServeHTTP`: the routes, and which handler a caller reaches.
pub mod Allowed
use Prim.Native.String.{String}
use poker_arena.Common.{
  ℕ, Bool, true, false, not, ◌&&◌, ◌||◌, Option, none, some, List, [], ◌∷◌, if◌then◌else◌, is_empty,
  trim_slashes, split_slash,
}
use text.Mathlib.Text.{◌==◌ as same_text}
use poker_arena.Api.Access.{
  CallerIdentity, ServerConfig, HttpRequest, is_admin, authenticate, handle_cors,
}

-- The parts of a path of a table or a hand: its id and the action.
abbrev pub parts_after : String → List String → Option (String × String)
parts_after kind (a ∷ b ∷ c ∷ []) =
    if not (same_text a kind) then none else if is_empty b || is_empty c then none else some (b, c)
parts_after kind _ = none

-- `parseTableRoute`
unfoldable pub parse_table_route : String → Option (String × String)
parse_table_route path = parts_after "tables" (split_slash (trim_slashes path))

-- `parseHandRoute`
unfoldable pub parse_hand_route : String → Option (String × String)
parse_hand_route path = parts_after "hands" (split_slash (trim_slashes path))

abbrev pub latest_replay_of : List String → Option String
latest_replay_of (a ∷ b ∷ c ∷ d ∷ []) =
    if not (same_text a "tables") || not (same_text c "replay") || not (same_text d "latest")
    then none
    else if is_empty b
    then none
    else some b
latest_replay_of _ = none

-- `parseTableLatestReplayRoute`
unfoldable pub parse_table_latest_replay_route : String → Option String
parse_table_latest_replay_route path = latest_replay_of (split_slash (trim_slashes path))

abbrev pub agent_versions_of : List String → Option String
agent_versions_of (a ∷ b ∷ c ∷ []) =
    if not (same_text a "agents") || not (same_text c "versions")
    then none
    else if is_empty b
    then none
    else some b
agent_versions_of _ = none

-- `parseAgentVersionsRoute`
unfoldable pub parse_agent_versions_route : String → Option String
parse_agent_versions_route path = agent_versions_of (split_slash (trim_slashes path))

-- The calls of the handlers, with the ids from the path.
pub data Handler : Type 0 where
  create_user create_agent create_table list_tables : Handler
  create_agent_version latest_replay start stop status state join hands actions replay :
      String → Handler

-- What `ServeHTTP` does: it answers a preflight, answers with an error of this status, or calls a
-- handler for the caller.
pub data Served : Type 0 where
  preflight : Served
  refused : ℕ → Served
  handled : CallerIdentity → Handler → Served

abbrev pub for_admin : CallerIdentity → Handler → Served
for_admin who h = if not (is_admin who) then refused 403 else handled who h

abbrev pub is_post : HttpRequest → Bool
is_post r = same_text r.method "POST"

abbrev pub is_get : HttpRequest → Bool
is_get r = same_text r.method "GET"

-- The `switch` for `/tables/<id>/<action>`.
unfoldable pub table_route : CallerIdentity → HttpRequest → String → String → Served
table_route who r id action =
    if is_post r && same_text action "start"
    then for_admin who (start id)
    else if is_post r && same_text action "stop"
    then for_admin who (stop id)
    else if is_get r && same_text action "status"
    then for_admin who (status id)
    else if is_get r && same_text action "state"
    then for_admin who (state id)
    else if is_post r && same_text action "join"
    then for_admin who (join id)
    else if is_get r && same_text action "hands"
    then handled who (hands id)
    else refused 405

-- The `switch` for `/hands/<id>/<action>`.
unfoldable pub hand_route : CallerIdentity → HttpRequest → String → String → Served
hand_route who r id action =
    if is_get r && same_text action "actions"
    then handled who (actions id)
    else if is_get r && same_text action "replay"
    then handled who (replay id)
    else refused 405

-- A route that only an administrator may post to.
abbrev pub posted_by_admin : CallerIdentity → HttpRequest → Handler → Served
posted_by_admin who r h = if not (is_post r) then refused 405 else for_admin who h

abbrev pub tables_route : CallerIdentity → HttpRequest → Served
tables_route who r =
    if not (is_admin who)
    then refused 403
    else if is_post r
    then handled who create_table
    else if is_get r
    then handled who list_tables
    else refused 405

-- The routes that are left after those of one fixed path and of the agents.
unfoldable pub remaining_route : CallerIdentity → HttpRequest → Served
unfolding parse_table_latest_replay_route parse_table_route parse_hand_route table_route hand_route
remaining_route who r = elim (parse_table_latest_replay_route r.path) [
  | some id ↦ if not (is_get r) then refused 405 else handled who (latest_replay id)
  | none ↦ elim (parse_table_route r.path) [
    | some found ↦ table_route who r found.0 found.1
    | none ↦ elim (parse_hand_route r.path) [
      | some found ↦ hand_route who r found.0 found.1
      | none ↦ refused 404
    ]
  ]
]

-- The routes, for a caller that is known.
unfoldable pub routed : CallerIdentity → HttpRequest → Served
unfolding remaining_route parse_agent_versions_route
routed who r =
    if same_text r.path "/users"
    then posted_by_admin who r create_user
    else if same_text r.path "/agents"
    then posted_by_admin who r create_agent
    else elim (parse_agent_versions_route r.path) [
      | some id ↦ posted_by_admin who r (create_agent_version id)
      | none ↦ if same_text r.path "/tables" then tables_route who r else remaining_route who r
    ]

-- `ServeHTTP`
unfoldable pub serve_http : ServerConfig → HttpRequest → Served
unfolding handle_cors authenticate routed
serve_http config r =
    if handle_cors config r
    then preflight
    else elim (authenticate config r.authorization) [ none ↦ refused 401 | some who ↦ routed who r ]
