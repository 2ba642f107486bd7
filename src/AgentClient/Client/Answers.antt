-- ===== src/AgentClient/Client/Answers.antt =====
-- The answers that `Client.NextAction` takes, against the rules of `ApplyAction`.
use Prim.Native.String.{String}
use poker_arena.Common.{
  ℕ, ◌+◌, ◌≤◌, ◌<◌, ◌≡◌, ◌↔◌, ◌⊎◌, refl, sym, inl, inr, true, false, Option, none, some,
  Option-cases, Bool-cases, ap, length, ◌==◌, arith, is_empty, trim_space,
}
use poker_arena.Domain.{
  ok, SeatState, HandState, betting, Action, ActionKind, fold, check, call, bet, raise, new_action,
}
use poker_arena.StateMachine.Action.{acting, apply_action}
use poker_arena.StateMachine.Action.Legal.{Legal}
use poker_arena.StateMachine.Action.Valid.{IsValid}
use poker_arena.StateMachine.Action.Apply.{apply_action-ok_iff}
use poker_arena.Engine.Providers.{acting_seat_of}
use poker_arena.Engine.Providers.Accepted.{acting-acting_seat_of}
use poker_arena.AgentClient.Protocol.{
  hole_cards_for_seat, parse_kind, AgentError, Answered, refused, answered, ProtocolRequest,
  ProtocolResponse, derive_legal_actions, offers, seat_by_no, amount_to_call, protocol_request,
  build_protocol_request, parse_and_validate_protocol_response,
}
use poker_arena.AgentClient.Client.{
  decoded, undecodable, trailing_data, Exchange, responded, not_marshalled, not_built, timed_out,
  failed, Request, read_exchange, choose_action_timeout, next_action,
}

-- The chips that an answer of a bet or a raise may name.
abbrev pub SizedWell : HandState → SeatState → ActionKind → Option ℕ → Type 0
SizedWell s x bet (some n) = n ≤ x.stack
SizedWell s x raise (some n) =
    (s.current_bet < n)
    × (s.min_raise_to ≤ n)
    × (x.committed_in_round < n)
    × (n ≤ x.committed_in_round + x.stack)
SizedWell s x kind amount = Unit

answered-injective : {A : Type 0} {x y : A} → answered x ≡ answered y → x ≡ y
answered-injective e = cc e

Answered-cases :
    {A : Type 0} (r : Answered A)
    → ((why : AgentError) × (r ≡ refused why)) ⊎ ((x : A) × (r ≡ answered x))
Answered-cases (refused why) = inl (why, refl)
Answered-cases (answered x) = inr (x, refl)

-- What has become of the amount where an answer passes.
abbrev Passed : ActionKind → Option ℕ → Type 0
Passed bet (some n) = 0 < n
Passed raise (some n) = 0 < n
Passed bet none = ⊥
Passed raise none = ⊥
Passed kind amount = amount ≡ none

parse_kind-answered :
    (kind : ActionKind) (amount : Option ℕ) {a : Action}
    → parse_kind kind amount ≡ answered a
    → (record { kind = kind; amount = amount } ≡ a) × Passed kind amount
unfolding new_action
parse_kind-answered fold none e = ground arith
parse_kind-answered fold (some n) e = ground arith
parse_kind-answered check none e = ground arith
parse_kind-answered check (some n) e = ground arith
parse_kind-answered call none e = ground arith
parse_kind-answered call (some n) e = ground arith
parse_kind-answered bet none e = ground arith
parse_kind-answered bet (some n) e = ground arith
parse_kind-answered raise none e = ground arith
parse_kind-answered raise (some n) e = ground arith
parse_kind-answered (ActionKind.other name) none e = ground arith
parse_kind-answered (ActionKind.other name) (some n) e = ground arith

Passed-Legal :
    (s : HandState) (x : SeatState) (kind : ActionKind) (amount : Option ℕ)
    → offers (derive_legal_actions s x (amount_to_call x s.current_bet)) kind ≡ true
    → Passed kind amount
    → SizedWell s x kind amount ↔ Legal s x kind amount
unfolding derive_legal_actions
Passed-Legal s x fold none offered p = ((λ w. tt), (λ l. tt))
Passed-Legal s x check none offered p = ((λ w. ground arith), (λ l. tt))
Passed-Legal s x call none offered p = ((λ w. ground arith), (λ l. tt))
Passed-Legal s x bet (some n) offered p = ((λ w. ground arith), (λ l. ground arith))
Passed-Legal s x raise (some n) offered p = ((λ w. ground arith), (λ l. ground arith))
Passed-Legal s x fold (some n) offered p = ground arith
Passed-Legal s x check (some n) offered p = ground arith
Passed-Legal s x call (some n) offered p = ground arith
Passed-Legal s x bet none offered p = absurd p
Passed-Legal s x raise none offered p = absurd p
Passed-Legal s x (ActionKind.other name) amount offered p = ground arith

read_exchange-answered :
    (exchange : Exchange) (payload : ProtocolRequest) {a : Action}
    → read_exchange exchange payload ≡ answered a
    → (dto : ProtocolResponse) × (parse_and_validate_protocol_response dto payload.legal_actions
        ≡ answered a)
read_exchange-answered not_marshalled payload e = absurd (cc e)
read_exchange-answered not_built payload e = absurd (cc e)
read_exchange-answered timed_out payload e = absurd (cc e)
read_exchange-answered failed payload e = absurd (cc e)
read_exchange-answered (responded status undecodable) payload e = ground arith
read_exchange-answered (responded status trailing_data) payload e = ground arith
read_exchange-answered (responded status (decoded dto)) payload e = (dto, ground arith)

build_protocol_request-answered :
    (s : HandState) (seat_no timeout : ℕ) (x : SeatState) {payload : ProtocolRequest}
    → seat_by_no s.seats seat_no ≡ some x
    → build_protocol_request s seat_no timeout ≡ answered payload
    → payload.legal_actions ≡ derive_legal_actions s x (amount_to_call x s.current_bet)
unfolding build_protocol_request protocol_request
build_protocol_request-answered s seat_no timeout x {payload} found e =
    let e' = rw (found, build_protocol_request) at e in
    elim (Option-cases (hole_cards_for_seat s.hole_cards seat_no)) [
      | inl missing ↦ absurd (cc (rw missing at e'))
      | inr (c, has) ↦ elim (Bool-cases (length c.cards == 2)) [
        | inl two ↦
            let e'' = rw two at (rw has at e') in
            sym (ap (λ p. p.legal_actions) (answered-injective e''))
        | inr other ↦ absurd (cc (rw other at (rw has at e')))
      ]
    ]

-- What an answer was read from, when one is taken.
next_action-answered :
    (exchange : String → ProtocolRequest → Exchange) (req : Request) (x : SeatState) {a : Action}
    → seat_by_no req.state.seats req.acting_seat ≡ some x
    → next_action exchange req ≡ answered a
    → (dto : ProtocolResponse) × (parse_and_validate_protocol_response dto
          (derive_legal_actions req.state x (amount_to_call x req.state.current_bet))
        ≡ answered a)
unfolding next_action
next_action-answered exchange req x {a} found e =
    elim (Bool-cases (is_empty (trim_space req.endpoint_url))) [
      | inl blank ↦ absurd (cc (rw (blank, next_action) at e))
      | inr there ↦
          let e' = rw (there, next_action) at e in
          let built =
            build_protocol_request req.state req.acting_seat (choose_action_timeout req) in
          elim (Answered-cases built) [
            | inl (why, refusal) ↦ absurd (cc (rw refusal at e'))
            | inr (payload, done) ↦
                let (dto, parsed) =
                  read_exchange-answered (exchange req.endpoint_url payload) payload
                    (rw done at e') in
                let legal =
                  build_protocol_request-answered req.state req.acting_seat
                    (choose_action_timeout req) x found done in
                (dto, rw (sym legal) parsed)
          ]
    ]

-- For a request on the seat that acts in the betting phase of a valid hand, each answer that
-- `Client.NextAction` returns is one that `ApplyAction` accepts exactly when its amount is right: an
-- answer of a fold, a check or a call always, of a bet up to the stack, and of a raise from the least
-- raise, above the current bet and what the seat has committed, up to all its chips.
pub next_action-apply_action :
    (exchange : String → ProtocolRequest → Exchange) (req : Request) (i : ℕ) (x : SeatState)
    (a : Action)
    → IsValid req.state
    → req.state.phase ≡ betting
    → req.acting_seat ≡ req.state.acting_seat
    → acting req.state ≡ ok (i, x)
    → next_action exchange req ≡ answered a
    → SizedWell req.state x a.kind a.amount ↔ ((t : HandState) × (apply_action req.state a ≡ ok t))
unfolding parse_and_validate_protocol_response acting_seat_of seat_by_no
next_action-apply_action exchange req i x a v phase same turn e =
    let found = acting-acting_seat_of req.state i x turn in
    let (dto, parsed) = next_action-answered exchange req x (rw same found) e in
    elim (Bool-cases (
      offers (derive_legal_actions req.state x (amount_to_call x req.state.current_bet))
        dto.action)) [
          | inl offered ↦
              let (read, passed) =
                parse_kind-answered dto.action dto.amount (rw offered at parsed) in
              let legal = Passed-Legal req.state x dto.action dto.amount offered passed in
              let applied = apply_action-ok_iff req.state a i x v phase turn in
              let sized : SizedWell req.state x a.kind a.amount
                  ↔ Legal req.state x a.kind a.amount =
                rw (sym read) legal in
              ((λ w. applied.1 (sized.0 w)), (λ t. sized.1 (applied.0 t)))
          | inr hidden ↦ absurd (cc (rw hidden at parsed))
        ]

Legal-offers :
    (s : HandState) (x : SeatState) (kind : ActionKind) (amount : Option ℕ)
    → Legal s x kind amount
    → (offers (derive_legal_actions s x (amount_to_call x s.current_bet)) kind ≡ false)
      ↔ ((kind ≡ raise) × (s.current_bet ≤ x.committed_in_round))
unfolding derive_legal_actions
Legal-offers s x fold amount l = ((λ h. ground arith), (λ h. ground arith))
Legal-offers s x check amount l = ((λ h. ground arith), (λ h. ground arith))
Legal-offers s x call amount l = ((λ h. ground arith), (λ h. ground arith))
Legal-offers s x bet none l = ((λ h. ground arith), (λ h. ground arith))
Legal-offers s x bet (some n) l = ((λ h. ground arith), (λ h. ground arith))
Legal-offers s x raise none l = ((λ h. ground arith), (λ h. ground arith))
Legal-offers s x raise (some n) l = ((λ h. ground arith), (λ h. ground arith))
Legal-offers s x (ActionKind.other name) amount l = ((λ h. ground arith), (λ h. ground arith))

-- In the betting phase of a valid hand, the kind of an action that `ApplyAction` accepts is missing
-- from what the agent may answer exactly where it is a raise by a seat that owes nothing, as by the
-- big blind when the others have called.
pub derive_legal_actions-raise_missing :
    (s : HandState) (a : Action) (i : ℕ) (x : SeatState) {t : HandState}
    → IsValid s
    → s.phase ≡ betting
    → acting s ≡ ok (i, x)
    → apply_action s a ≡ ok t
    → (offers (derive_legal_actions s x (amount_to_call x s.current_bet)) a.kind ≡ false)
      ↔ ((a.kind ≡ raise) × (s.current_bet ≤ x.committed_in_round))
derive_legal_actions-raise_missing s a i x {t} v phase turn e =
    Legal-offers s x a.kind a.amount ((apply_action-ok_iff s a i x v phase turn).0 (t, e))
