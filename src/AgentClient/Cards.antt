-- ===== src/AgentClient/Cards.antt =====
-- How client.go writes a card for an agent: its rank and its suit, "Ah" or "10c" as "Tc".
use Prim.Native.String
use Prim.Native.String.{String}
use poker_arena.Common.{ℕ, ◌≡◌, refl, ◌==◌, if◌then◌else◌, decimal}
use poker_arena.Domain.{Card, Suit, clubs, diamonds, hearts, spades}

-- `formatRankASCII`
unfoldable pub format_rank_ascii : ℕ → String
unfolding decimal
format_rank_ascii rank =
    if rank == 14
    then "A"
    else if rank == 13
    then "K"
    else if rank == 12
    then "Q"
    else if rank == 11
    then "J"
    else if rank == 10
    then "T"
    else decimal rank

-- `formatSuitASCII`
abbrev pub format_suit_ascii : Suit → String
format_suit_ascii clubs = "c"
format_suit_ascii diamonds = "d"
format_suit_ascii hearts = "h"
format_suit_ascii spades = "s"

-- `formatCardASCII`
unfoldable pub format_card_ascii : Card → String
unfolding format_rank_ascii
format_card_ascii card = String.◌++◌ (format_rank_ascii card.rank) (format_suit_ascii card.suit)

ten : format_card_ascii (record { rank = 10; suit = clubs }) ≡ "Tc"
unfolding format_card_ascii
ten = refl
