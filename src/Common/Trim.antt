-- ===== src/Common/Trim.antt =====
-- What the code uses of Go's package strings.
use Prim.Native.Nat.{ℕ}
use Prim.Native.Char.{Char, code}
use Prim.Native.String.{String}
use mathlib.Core.Path.{◌≡◌, refl}
use mathlib.Core.Bool.{Bool, true, false, ◌&&◌, ◌||◌}
use mathlib.Core.Option.{Option, none, some}
use mathlib.Core.List.{List, [], ◌∷◌}
use poker_arena.Common.Tests.{leb, ◌==◌, if◌then◌else◌}

-- `unicode.IsSpace`
abbrev pub is_space : ℕ → Bool
is_space c =
    leb 9 c && leb c 13
    || c == 32
    || c == 133
    || c == 160
    || c == 5760
    || leb 8192 c && leb c 8202
    || c == 8232
    || c == 8233
    || c == 8239
    || c == 8287
    || c == 12288

abbrev pub is_empty : String → Bool
is_empty String.[] = true
is_empty (String.◌∷◌ c s) = false

trim_left : (ℕ → Bool) → String → String
trim_left p String.[] = ""
trim_left p (String.◌∷◌ c s) =
    let rest = trim_left p s in if p (code c) then rest else String.◌∷◌ c s

trim_right : (ℕ → Bool) → String → String
trim_right p String.[] = ""
trim_right p (String.◌∷◌ c s) =
    let rest = trim_right p s in if is_empty rest && p (code c) then "" else String.◌∷◌ c rest

-- `strings.TrimSpace`
unfoldable pub trim_space : String → String
unfolding trim_left trim_right
trim_space s = trim_right is_space (trim_left is_space s)

-- `strings.Trim(s, "/")`
unfoldable pub trim_slashes : String → String
unfolding trim_left trim_right
trim_slashes s = trim_right (λ c. c == b'/') (trim_left (λ c. c == b'/') s)

abbrev after_char : Char → List String → List String
after_char c [] = String.◌∷◌ c "" ∷ []
after_char c (part ∷ parts) = String.◌∷◌ c part ∷ parts

-- `strings.Split` at one character.
unfoldable pub split_at : ℕ → String → List String
split_at at String.[] = "" ∷ []
split_at at (String.◌∷◌ c s) =
    let parts = split_at at s in if code c == at then "" ∷ parts else after_char c parts

-- `strings.Split(s, "/")`
unfoldable pub split_slash : String → List String
unfolding split_at
split_slash s = split_at b'/' s

-- `strings.SplitN(s, sep, 2)` at one character: what stands before and after it, if it is there.
unfoldable pub cut_at : ℕ → String → Option (String × String)
cut_at at String.[] = none
cut_at at (String.◌∷◌ c s) = elim (code c == at) [
  | true ↦ some ("", s)
  | false ↦ elim (cut_at at s) [ none ↦ none | some p ↦ some (String.◌∷◌ c p.0, p.1) ]
]

-- `strings.HasPrefix` and `strings.TrimPrefix`: what follows the prefix, if it is there.
unfoldable pub strip_prefix : String → String → Option String
strip_prefix String.[] s = some s
strip_prefix (String.◌∷◌ c p) String.[] = none
strip_prefix (String.◌∷◌ c p) (String.◌∷◌ d s) =
    let rest = strip_prefix p s in if code c == code d then rest else none

trimmed : trim_space " a b\n" ≡ "a b"
unfolding trim_space
trimmed = refl

split_up : split_slash (trim_slashes "/tables/7//start/") ≡ "tables" ∷ "7" ∷ "" ∷ "start" ∷ []
unfolding split_slash split_at trim_slashes
split_up = refl
