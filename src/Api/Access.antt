-- ===== src/Api/Access.antt =====
-- Who calls: `authenticate`, the tokens and the origins of the server's configuration.
use Prim.Native.String.{String}
use poker_arena.Common.{
  ℕ, Bool, true, false, not, ◌&&◌, ◌||◌, Option, none, some, List, [], ◌∷◌, find, string_key,
  if◌then◌else◌, is_empty, trim_space, strip_prefix,
}
use text.Mathlib.Text.{◌==◌ as same_text}

-- `CallerRole`
pub data CallerRole : Type 0 where
  admin seat : CallerRole

-- `CallerIdentity`
pub record CallerIdentity : Type 0 where
  pub role : CallerRole
  pub seat : Option ℕ
  pub token : String

-- `ServerConfig`, without the two timeouts; a set is the list of its elements.
pub record ServerConfig : Type 0 where
  pub admin_bearer_tokens : List String
  pub seat_bearer_tokens : List (String × ℕ)
  pub allowed_agent_hosts : List String
  pub allowed_cors_origins : List String

-- What the handlers read of a request, but for its body.
pub record HttpRequest : Type 0 where
  pub method : String
  pub path : String
  pub authorization : String
  pub origin : String
  pub access_control_request_method : String
  pub redact_hole_cards : String

-- `isAdmin`
abbrev pub is_admin : CallerIdentity → Bool
is_admin i = elim i.role [ admin ↦ true | seat ↦ false ]

-- `seatNo`
abbrev pub seat_no_of : CallerIdentity → ℕ
seat_no_of i = elim i.seat [ none ↦ 0 | some n ↦ n ]

-- `_, ok := set[key]`
abbrev pub includes : String → List String → Bool
includes key [] = false
includes key (k ∷ keys) = same_text k key || includes key keys

abbrev pub no_entries {ℓ} : {A : Type ℓ} → List A → Bool
no_entries [] = true
no_entries (x ∷ xs) = false

-- `parseBearerToken`
unfoldable pub parse_bearer_token : String → Option String
parse_bearer_token authorization = elim (strip_prefix "Bearer " (trim_space authorization)) [
  | none ↦ none
  | some rest ↦ if is_empty (trim_space rest) then none else some (trim_space rest)
]

-- `authenticate`
unfoldable pub authenticate : ServerConfig → String → Option CallerIdentity
unfolding parse_bearer_token
authenticate config authorization =
    if no_entries config.admin_bearer_tokens && no_entries config.seat_bearer_tokens
    then some (record { role = admin; seat = none; token = "" })
    else elim (parse_bearer_token authorization) [
      | none ↦ none
      | some token ↦
          if includes token config.admin_bearer_tokens
          then some (record { role = admin; seat = none; token = token })
          else elim (find token config.seat_bearer_tokens) [
            | none ↦ none
            | some n ↦ some (record { role = seat; seat = some n; token = token })
          ]
    ]

-- `isCORSOriginAllowed`
abbrev pub is_cors_origin_allowed : ServerConfig → String → Bool
is_cors_origin_allowed config origin =
    if no_entries config.allowed_cors_origins
    then false
    else includes "*" config.allowed_cors_origins || includes origin config.allowed_cors_origins

-- `handleCORS`: whether the request is answered as a preflight. The headers that it sets besides are
-- not modelled.
unfoldable pub handle_cors : ServerConfig → HttpRequest → Bool
handle_cors config r =
    let origin = trim_space r.origin in
    if is_empty origin
    then false
    else if not (is_cors_origin_allowed config origin)
    then false
    else if not (same_text r.method "OPTIONS")
    then false
    else not (is_empty (trim_space r.access_control_request_method))
