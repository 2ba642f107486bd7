-- ===== src/ControlPlane/Seats.antt =====
-- Whom the tokens that the server starts with stand for.
use Prim.Native.String.{String}
use text.Mathlib.Text.{◌==◌ as same_text}
use poker_arena.Common.{◌≡◌, false, Option, string_key}
use poker_arena.Api.Access.{ServerConfig, no_entries}
use poker_arena.ControlPlane.{has_token_overlap}

-- What `main` has made sure of.
record Started (config : ServerConfig) : Type 0 where
  administered : no_entries config.admin_bearer_tokens ≡ false
  apart : has_token_overlap config.admin_bearer_tokens config.seat_bearer_tokens ≡ false
