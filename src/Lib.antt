-- ===== src/Lib.antt =====
-- The poker engine of the repository: what decides who may act in a hand of no-limit hold'em, what
-- an action does, who wins the pot, how many hands a run plays, what is stored of them, and who may
-- see it.
--
-- The parts, from the inside out, each with the code it models:
--
--   Domain            services/engine/internal/domain: cards, seats, the state of a hand, actions,
--                     the events of a run, the table's configuration, and their constructors and
--                     checks. Every error of the engine is a constructor of `Error`, and a function
--                     that returns `(T, error)` returns `Result T`.
--   Rules             services/engine/internal/rules: `Dealer` (dealer.go: the shuffle, the hole
--                     cards, the board), `Evaluator` and `HandCategory` (evaluator.go: the rank of
--                     five cards and the best of seven), `Payout` (payout.go: the
--                     uncontested pot, side pots, the winners of each, odd chips).
--   StateMachine      services/engine/internal/statemachine: `Start` is StartNewHand, `Action` is
--                     ApplyAction with advanceStreet, `Seats` the helpers they share.
--   TableRunner       services/engine/internal/tablerunner: `Hand` is RunHand with the provider's
--                     failures and the fallback action, `Table` is RunTable, `Seating` what it does
--                     with the seats and the button between two hands.
--   Engine            services/engine/cmd/engine: `Providers` is the part of providers.go that decides
--                     actions: the bot, the check of a player's action, the choice by seat.
--   AgentClient       services/engine/internal/agentclient: `Protocol` is what client.go tells an agent
--                     and which answers it takes, `Client` its NextAction, with the providers of
--                     provider.go and cmd/controlplane/provider_factory.go, `Cards` the texts of cards.
--   Persistence       services/engine/internal/persistence: `Repository` is the in-memory repository of
--                     repository.go, `Records` its records and errors.
--   Api               services/engine/internal/api/server.go: `Access` is authenticate, `Routes` is
--                     ServeHTTP, `Replay` the handlers that read hands, with `Analytics`, `Manage`
--                     those that create users, agents, tables and seats, `Status` those that tell of
--                     a table, `Start` the checks of a request to start a table, with newProviderFactory
--                     of cmd/controlplane/provider_factory.go, `Run` a run from handleStart to the end
--                     of runTable, with the callbacks that record it.
--   ControlPlane      services/engine/cmd/controlplane/main.go: the lists of tokens, hosts and origins
--                     that the server starts with.
--   Common            what the parts share: 32-bit words, stable sorting, cyclic order, lists,
--                     maps, texts, the decimal digits of a number.
--   Tests             concrete hands.
--
-- `run_table` calls `run_hand` once per hand, `run_hand` calls `start_new_hand`, then in a loop
-- `apply_action` (or the fallback) until the hand is complete, with `resolve_pots` at a showdown;
-- `apply_action` deals the next street by `deal_flop_turn_river` and pays an uncontested pot by
-- `award_uncontested`.
--
-- How the code is modelled:
--   * A uint32 is a natural number, and the arithmetic of the code on it is add32, sub32 and mul32,
--     which wrap around at 2 ^ 32. Where the code has just tested that a difference is not negative
--     it is the difference of naturals. An `int` (an index, a count) is a natural number.
--   * A pointer that may be nil is an Option, a slice a List, and a slice index that is out of range
--     is none. The string types with named constants are data types, with a constructor for any
--     other string where the code takes one. The reason of an award is a String.
--   * The copies that cloneState and cloneHandState make are the values themselves. A state
--     returned beside an error is dropped, but for ResolvePots, which changes the seats in place.
--   * sort.Slice is a stable insertion sort: the keys of the slices that are sorted tell their
--     elements apart, or elements with the same key are the same for the code that follows.
--   * What the code reads from outside is an argument: the bytes of the hand's id and the shuffle
--     (`Chance`), the answers of the action provider and the cancellation of the context (`World`,
--     `TableWorld`). The callbacks of a runner become the list of events of its result.
--   * A map of Go is a list of entries, one for each key, and a range over it may visit the entries in
--     any order. A time is a natural number. The HTTP exchange with an agent is an argument, from the
--     address and the payload to what came of it; encoding and decoding JSON is part of it.
--   * A handler is a function of the repository that returns the changed repository and a `Response`,
--     an error by its status or what is encoded. The bodies of requests come decoded, and new ids, the
--     time, what url.Parse reads of an address and the texts of the runner's errors are arguments.
--   * A server's handlers and callbacks are steps that do not overlap: its locks, and that a run's
--     callbacks are called by one goroutine, see to it. `on_hand` is the sequence of the callbacks of
--     one hand. handleStop is told the repository that there is when the run has ended.
--   * The loop of handleCreateAgentVersion has 10,000 rounds, as the code has.
--   * The for loop of RunHand has no bound of its own. `run_rounds` has fuel, and MaxActionsPerHand
--     and one is enough: every round that goes on adds an action, and the loop ends with an error
--     when the actions exceed the limit.
--
-- Not modelled: the encoding of requests and responses, their headers and the texts of errors in them;
-- the PostgreSQL repository, the rest of the start-up of the commands and the migrations, which are
-- about transport and storage; the prompt, the rendering of the table and the report of the engine
-- command, which are text; the web client.
pub mod AgentClient
pub mod Api
pub mod Common
pub mod ControlPlane
pub mod Domain
pub mod Engine
pub mod Persistence
pub mod Rules
pub mod StateMachine
pub mod TableRunner
mod Tests
