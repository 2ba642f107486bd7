-- ===== src/ControlPlane.antt =====
-- cmd/controlplane/main.go: the lists of tokens, hosts and origins that the server starts with. What
-- `strconv.ParseUint(_, 10, 8)` makes of a text is an argument, nothing for an error.
pub mod Seats
use Prim.Native.String.{String}
use poker_arena.Common.{
  ℕ, Bool, true, false, ◌||◌, Option, none, some, List, [], ◌∷◌, find, put, string_key,
  if◌then◌else◌, is_empty, trim_space, split_at, cut_at,
}
use poker_arena.Domain.{ok, err, default_max_seats, new_seat_no, contains}
use poker_arena.Api.Access.{includes, no_entries, ServerConfig}

-- The parts of a list that are not blank.
abbrev pub not_blank : List String → List String
not_blank [] = []
not_blank (part ∷ parts) =
    let rest = not_blank parts in
    if is_empty (trim_space part) then rest else trim_space part ∷ rest

-- `parseAllowlist`, and `parseCORSAllowedOrigins`, which is the same.
unfoldable pub parse_allowlist : String → List String
parse_allowlist raw = not_blank (split_at b',' raw)

unfoldable pub parse_cors_allowed_origins : String → List String
parse_cors_allowed_origins raw = not_blank (split_at b',' raw)

unfoldable pub admin_tokens_of : List String → Option (List String)
admin_tokens_of [] = some []
admin_tokens_of (part ∷ parts) = elim (is_empty (trim_space part)) [
  | true ↦ none
  | false ↦ elim (admin_tokens_of parts) [
    | none ↦ none
    | some tokens ↦ some (trim_space part ∷ tokens)
  ]
]

-- `parseAdminTokens`; nothing for an error.
unfoldable pub parse_admin_tokens : String → Option (List String)
unfolding admin_tokens_of
parse_admin_tokens raw = elim (admin_tokens_of (split_at b',' raw)) [
  | none ↦ none
  | some tokens ↦ if no_entries tokens then none else some tokens
]

abbrev pub has_entry : Option ℕ → Bool
has_entry none = false
has_entry (some n) = true

-- One entry of the list of `parseSeatTokens`: the token and the number of its seat.
unfoldable pub seat_token : (String → Option ℕ) → ℕ → String → Option (String × ℕ)
seat_token parse_uint8 max_seats part = elim (cut_at b':' (trim_space part)) [
  | none ↦ none
  | some pieces ↦ elim (is_empty (trim_space pieces.1)) [
    | true ↦ none
    | false ↦ elim (parse_uint8 (trim_space pieces.0)) [
      | none ↦ none
      | some n ↦ elim (new_seat_no n max_seats) [
        | err e ↦ none
        | ok seat_no ↦ some (trim_space pieces.1, seat_no)
      ]
    ]
  ]
]

-- The loop of `parseSeatTokens`, with the seats and the tokens so far.
unfoldable pub seat_tokens_of :
    (String → Option ℕ) → ℕ → List String → List ℕ → List (String × ℕ) → Option (List (String × ℕ))
unfolding seat_token
seat_tokens_of parse_uint8 max_seats [] used tokens = some tokens
seat_tokens_of parse_uint8 max_seats (part ∷ parts) used tokens =
    elim (seat_token parse_uint8 max_seats part) [
      | none ↦ none
      | some entry ↦ elim (contains entry.1 used) [
        | true ↦ none
        | false ↦ elim (has_entry (find entry.0 tokens)) [
          | true ↦ none
          | false ↦
              seat_tokens_of parse_uint8 max_seats parts (entry.1 ∷ used)
                (put entry.0 entry.1 tokens)
        ]
      ]
    ]

-- `parseSeatTokens`; nothing for an error.
unfoldable pub parse_seat_tokens : (String → Option ℕ) → String → ℕ → Option (List (String × ℕ))
unfolding seat_tokens_of
parse_seat_tokens parse_uint8 raw max_seats =
    if is_empty raw then some [] else seat_tokens_of parse_uint8 max_seats (split_at b',' raw) [] []

-- `hasTokenOverlap`
unfoldable pub has_token_overlap : List String → List (String × ℕ) → Bool
has_token_overlap admins [] = false
has_token_overlap admins ((token, n) ∷ tokens) =
    includes token admins || has_token_overlap admins tokens

-- The tokens and the hosts that `main` starts the server with, from its environment; nothing where it
-- exits.
unfoldable pub server_config :
    (String → Option ℕ) → String → String → String → String → Option ServerConfig
unfolding parse_admin_tokens parse_seat_tokens has_token_overlap parse_allowlist
server_config parse_uint8 admin_raw seat_raw allowlist_raw cors_raw =
    elim (is_empty (trim_space admin_raw)) [
      | true ↦ none
      | false ↦ elim (parse_admin_tokens (trim_space admin_raw)) [
        | none ↦ none
        | some admins ↦
            elim (parse_seat_tokens parse_uint8 (trim_space seat_raw) default_max_seats) [
              | none ↦ none
              | some seats ↦ elim (has_token_overlap admins seats) [
                | true ↦ none
                | false ↦
                    elim (is_empty (trim_space allowlist_raw)
                      || no_entries (parse_allowlist (trim_space allowlist_raw))) [
                        | true ↦ none
                        | false ↦ some (record {
                          admin_bearer_tokens = admins;
                          seat_bearer_tokens = seats;
                          allowed_agent_hosts = parse_allowlist (trim_space allowlist_raw);
                          allowed_cors_origins = parse_cors_allowed_origins (trim_space cors_raw);
                        })
                      ]
              ]
            ]
      ]
    ]
