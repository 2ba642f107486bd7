-- ===== src/Api/Routes/Allowed.antt =====
-- Which handlers a caller reaches.
use Prim.Native.String.{String}
use poker_arena.Common.{
  ◌≡◌, ◌⊎◌, inl, inr, refl, subst, ◌∙◌, ap, sym, Bool, true, false, some, Option-cases, Bool-cases,
  arith,
}
use poker_arena.Api.Access.{
  CallerIdentity, ServerConfig, HttpRequest, is_admin, authenticate, handle_cors,
}
use poker_arena.Api.Routes.{
  Handler, create_user, create_agent, create_agent_version, latest_replay, start, stop, status,
  state, join, hands, actions, replay, Served, preflight, refused, handled, for_admin,
  posted_by_admin, tables_route, table_route, hand_route, remaining_route, routed, serve_http,
  parse_table_route, parse_hand_route, parse_table_latest_replay_route, parse_agent_versions_route,
}

-- The handlers that a seat may reach read hands, and the others are the administrators'.
abbrev pub is_for_seats : Handler → Bool
is_for_seats (latest_replay id) = true
is_for_seats (hands id) = true
is_for_seats (actions id) = true
is_for_seats (replay id) = true
is_for_seats h = false

-- The caller is the one that is known, and may call the handler.
abbrev pub Allowed : CallerIdentity → Served → Type 0
Allowed who preflight = Unit
Allowed who (refused code) = Unit
Allowed who (handled caller h) = (caller ≡ who) × ((is_admin who ≡ true) ⊎ (is_for_seats h ≡ true))

for_admin-Allowed : (who : CallerIdentity) (h : Handler) → Allowed who (for_admin who h)
for_admin-Allowed who h = elim (Bool-cases (is_admin who)) [
  | inl yes_admin ↦ rw yes_admin (refl, inl yes_admin)
  | inr no_admin ↦ rw no_admin tt
]

table_route-Allowed :
    (who : CallerIdentity) (r : HttpRequest) (id action : String)
    → Allowed who (table_route who r id action)
unfolding table_route
table_route-Allowed who r id action = ground (
  arith,
  for_admin-Allowed who (start id),
  for_admin-Allowed who (stop id),
  for_admin-Allowed who (status id),
  for_admin-Allowed who (state id),
  for_admin-Allowed who (join id),
)

hand_route-Allowed :
    (who : CallerIdentity) (r : HttpRequest) (id action : String)
    → Allowed who (hand_route who r id action)
unfolding hand_route
hand_route-Allowed who r id action = ground arith

posted_by_admin-Allowed :
    (who : CallerIdentity) (r : HttpRequest) (h : Handler) → Allowed who (posted_by_admin who r h)
posted_by_admin-Allowed who r h = ground (arith, for_admin-Allowed who h)

tables_route-Allowed : (who : CallerIdentity) (r : HttpRequest) → Allowed who (tables_route who r)
tables_route-Allowed who r = ground arith

remaining_route-Allowed :
    (who : CallerIdentity) (r : HttpRequest) → Allowed who (remaining_route who r)
unfolding remaining_route
remaining_route-Allowed who r = elim (Option-cases (parse_table_latest_replay_route r.path)) [
  | inr (id, found) ↦ rw (found, remaining_route) (ground arith)
  | inl other ↦ elim (Option-cases (parse_table_route r.path)) [
    | inr (at, found) ↦ rw (other, found, remaining_route) (table_route-Allowed who r at.0 at.1)
    | inl other' ↦ elim (Option-cases (parse_hand_route r.path)) [
      | inr (at, found) ↦
          rw (other, other', found, remaining_route) (hand_route-Allowed who r at.0 at.1)
      | inl other'' ↦ rw (other, other', other'', remaining_route) tt
    ]
  ]
]

routed-Allowed : (who : CallerIdentity) (r : HttpRequest) → Allowed who (routed who r)
unfolding routed
routed-Allowed who r = elim (Option-cases (parse_agent_versions_route r.path)) [
  | inr (id, found) ↦ rw found (
      ground (
        arith,
        posted_by_admin-Allowed who r create_user,
        posted_by_admin-Allowed who r create_agent,
        posted_by_admin-Allowed who r (create_agent_version id),
      ))
  | inl other ↦ rw other (
      ground (
        arith,
        posted_by_admin-Allowed who r create_user,
        posted_by_admin-Allowed who r create_agent,
        tables_route-Allowed who r,
        remaining_route-Allowed who r,
      ))
]

-- Every handler is called for the caller that `authenticate` finds in the request, and a caller that
-- is not an administrator reaches only the handlers that read hands.
pub serve_http-handled :
    (config : ServerConfig) (r : HttpRequest) {who : CallerIdentity} {h : Handler}
    → serve_http config r ≡ handled who h
    → (authenticate config r.authorization ≡ some who)
      × ((is_admin who ≡ true) ⊎ (is_for_seats h ≡ true))
unfolding serve_http
serve_http-handled config r {who} {h} e = elim (Bool-cases (handle_cors config r)) [
  | inl answered ↦ absurd (cc (rw (answered, serve_http) at e))
  | inr further ↦
      let e' = rw (further, serve_http) at e in
      elim (Option-cases (authenticate config r.authorization)) [
        | inl unknown ↦ absurd (cc (rw unknown at e'))
        | inr (caller, known) ↦
            let (same, may) =
              subst (λ s. Allowed caller s) (rw known at e') (routed-Allowed caller r) in
            (
              known ∙ ap some (sym same),
              subst (λ w. (is_admin w ≡ true) ⊎ (is_for_seats h ≡ true)) (sym same) may,
            )
      ]
]
