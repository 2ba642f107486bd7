-- ===== src/StateMachine/Action/Legal.antt =====
-- When the `switch` of `ApplyAction` accepts an action, and with which effect.
use Prim.Native.Nat.{min}
use poker_arena.Common.{refl, ℕ, ◌+◌, ◌-◌, ◌≤◌, ◌<◌, ◌≡◌, Option, none, some, arith, add32, modify}
use poker_arena.Domain.{ok, SeatState, HandState, ActionKind, fold, check, call, bet, raise}
use poker_arena.StateMachine.Seats.{acted, compute_to_call}
use poker_arena.StateMachine.Action.{
  open_bet, play_action, play_fold, play_check, play_call, play_bet, play_raise, commit,
}

module _ (s : HandState) (i : ℕ) (x : SeatState) where
  abbrev pub LegalBet : ℕ → Type 0
  LegalBet n = (s.current_bet ≡ 0) × (0 < n) × (n ≤ x.stack)

  abbrev pub LegalRaise : ℕ → Type 0
  LegalRaise n =
      (0 < s.current_bet)
      × (s.current_bet < n)
      × (s.min_raise_to ≤ n)
      × (x.committed_in_round < n)
      × (n ≤ x.committed_in_round + x.stack)

  pub play_bet-eq_ok :
      (n : ℕ) {t : HandState}
      → play_bet s i x (some n) ≡ ok t
      → LegalBet n × (open_bet s i x n (add32 x.committed_in_round n) n ≡ t)
  unfolding play_bet
  play_bet-eq_ok n e = ground arith

  pub play_raise-eq_ok :
      (n : ℕ) {t : HandState}
      → play_raise s i x (some n) ≡ ok t
      → LegalRaise n × (open_bet s i x (n - x.committed_in_round) n (n - s.current_bet) ≡ t)
  unfolding play_raise
  play_raise-eq_ok n e = ground arith

  pub play_bet_legal :
      (n : ℕ)
      → LegalBet n
      → play_bet s i x (some n) ≡ ok (open_bet s i x n (add32 x.committed_in_round n) n)
  unfolding play_bet
  play_bet_legal n l = ground arith

  pub play_raise_legal :
      (n : ℕ)
      → LegalRaise n
      → play_raise s i x (some n)
        ≡ ok (open_bet s i x (n - x.committed_in_round) n (n - s.current_bet))
  unfolding play_raise
  play_raise_legal n l = ground arith

  pub play_check_legal :
      s.current_bet ≤ x.committed_in_round → (t : HandState) × (play_check s i x ≡ ok t)
  unfolding play_check compute_to_call
  play_check_legal l = (record s { seats = modify s.seats i acted }, ground arith)

  pub play_call_legal :
      x.committed_in_round < s.current_bet → (t : HandState) × (play_call s i x ≡ ok t)
  unfolding play_call compute_to_call
  play_call_legal l =
      let paid = min (compute_to_call x s.current_bet) x.stack in
      (
        record s { seats = modify s.seats i (λ y. acted (commit paid y)); pot = add32 s.pot paid },
        ground arith,
      )

-- The rules of betting, for the acting seat `x`.
abbrev pub Legal : HandState → SeatState → ActionKind → Option ℕ → Type 0
Legal s x fold amount = Unit
Legal s x check amount = s.current_bet ≤ x.committed_in_round
Legal s x call amount = x.committed_in_round < s.current_bet
Legal s x bet none = ⊥
Legal s x bet (some n) = LegalBet s 0 x n
Legal s x raise none = ⊥
Legal s x raise (some n) = LegalRaise s 0 x n
Legal s x (ActionKind.other name) amount = ⊥

-- The `switch` accepts what the rules allow, and nothing else.
pub play_action_succeeds :
    (s : HandState) (i : ℕ) (x : SeatState) (kind : ActionKind) (amount : Option ℕ)
    → Legal s x kind amount
    → (t : HandState) × (play_action s i x kind amount ≡ ok t)
unfolding play_action
play_action_succeeds s i x fold amount l = (play_fold s i, refl)
play_action_succeeds s i x check amount l = play_check_legal s i x l
play_action_succeeds s i x call amount l = play_call_legal s i x l
play_action_succeeds s i x bet none l = elim l [ ]
play_action_succeeds s i x bet (some n) l =
    (open_bet s i x n (add32 x.committed_in_round n) n, play_bet_legal s i x n l)
play_action_succeeds s i x raise none l = elim l [ ]
play_action_succeeds s i x raise (some n) l =
    (open_bet s i x (n - x.committed_in_round) n (n - s.current_bet), play_raise_legal s i x n l)
play_action_succeeds s i x (ActionKind.other name) amount l = elim l [ ]

pub play_action-Legal :
    (s : HandState) (i : ℕ) (x : SeatState) (kind : ActionKind) (amount : Option ℕ) {t : HandState}
    → play_action s i x kind amount ≡ ok t
    → Legal s x kind amount
unfolding play_action play_check play_call play_bet play_raise compute_to_call
play_action-Legal s i x fold amount e = tt
play_action-Legal s i x check amount e = ground arith
play_action-Legal s i x call amount e = ground arith
play_action-Legal s i x bet none e = absurd (cc e)
play_action-Legal s i x bet (some n) e = (play_bet-eq_ok s i x n e).0
play_action-Legal s i x raise none e = absurd (cc e)
play_action-Legal s i x raise (some n) e = (play_raise-eq_ok s i x n e).0
play_action-Legal s i x (ActionKind.other name) amount e = absurd (cc e)
