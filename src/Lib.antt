-- ===== src/Lib.antt =====
-- The verification library of the trading bot, a program that trades binary prediction markets.
--
-- The parts that are modelled, each in the module that is named like it:
--
-- * Ledger (src/ledger): what the bot owns. Ledger.Cash is the balance in available and reserved
--   cash, Ledger.Lifecycle the states of an order, Ledger.Orders the orders by local id with a copy
--   of each under its exchange id, Ledger.Positions the positions that confirmed fills update.
--   Ledger itself is src/ledger/mod.rs: process_fill drives all three by one fill, and
--   apply_server_cancel the orders and the cash. Ledger.Positions.Marking is the block of
--   src/orchestrator/heartbeat.rs that marks positions.
-- * State.OrderBook (src/state/order_book.rs): the books by token, which messages change, with
--   State.OrderBook.Snapshot for what is read off them.
-- * Strategy (src/strategy): what the bot wants. Strategy.MarketPair is market_pair.rs, which tokens
--   are complements; Strategy.Traits is traits.rs, the intents and the interface of a strategy;
--   Strategy.Router is router.rs, which passes events to the strategies and resolves the conflicts
--   between their intents; Strategy.EdgeCalculator is edge_calculator.rs; Strategy.MathArb is
--   arbitrage.rs and Strategy.Contrarian contrarian.rs, two strategies that fill the interface.
-- * Execution (src/execution): how an intent becomes an order. Execution.Policy is policy.rs, which
--   chooses price and type, Execution.Executor is executor.rs, which sends single intents, batches
--   and groups and unwinds what a group has filled unequally, Execution.OrderTracker indexes the
--   resting orders, Execution.Cancellation is cancellation.rs, and Execution.StateMachine is
--   state_machine.rs, the checks of the ledger as a whole.
-- * Risk (src/risk): the guards. Risk.CircuitBreaker stops trading after failures, Risk.RateLimiter
--   counts requests in two windows, both of which the executor asks before it sends; Risk.Limits
--   checks an order against the ledger and the market pairs, and Risk.Reconciliation compares the
--   orders of the ledger with those of the exchange.
-- * Orchestrator.Intents (src/orchestrator/execution.rs): what becomes of the intents that the router
--   returns, as simulated fills of the ledger on paper, or live as orders of the executor.
--
-- The correspondence. A struct is a record with the fields of the struct, an enum a data type with
-- its variants, in snake_case; a method is the function of its name, which takes the state and
-- returns the new one, with the result beside it where there is one. `open` is `open_with` and the
-- method `new` of an order, a position or an intent is `new_order`, `new_position` or `new_intent`.
-- A method that runs under its lock is one step; between the steps of several tasks any order is
-- possible, which the sequences of calls in the theorems stand for. A batch of the executor asks the
-- guards for all its orders before the first answer comes, as the joined futures do.
--
-- * Prelude has the shared notation: Boolean tests on the native numbers, list functions, signed
--   integers (Prelude.Int) and association lists (Prelude.Dict) for `DashMap`, `HashMap` and, with a
--   unit value left out, `HashSet`.
-- * Decimal stands for `rust_decimal::Decimal`, as a whole number of units of 10^-28. Comparisons
--   and signs are those of the value. Sum, difference, product, quotient and rounding are the crate's
--   and so a parameter, DecimalOps, with the laws that a theorem needs as a named hypothesis:
--   IsExact (sums and differences are exact, as they are for all amounts below 28 digits), HasSigns,
--   Commutes, HasLots, HasRates and HasTicks. Decimal.Exact and Decimal.Lots have operations for which they
--   hold; the examples run on these.
-- * Ids, tokens and texts are only compared and hashed, so they are numbers (Types.Key). Times are
--   numbers, and a time that the code reads from a clock is the argument `now`.
-- * Counters keep the wrap-around of their width, `u32` and `u64`.
-- * Clocks of the guards count seconds and PARTIAL_FILL_UNWIND_MS is half a second, so the time that
--   is left for the unwinds of a group is an argument, `budget`, which any number stands for. All
--   unwinds of a group share one deadline, at which the one that is on its way is cut off.
-- * What the exchange answers, the parsing of a decimal (`parse`), its conversion (`to_u32`), drawn
--   ids and formatted texts are parameters.
--
-- Loops are recursions on lists, save two: the divisor of the executor is a recursion on the
-- accessibility of its second number, and the loop over the pages of a reconciliation one on fuel,
-- since the exchange decides when it ends; as much fuel as there are pages is enough. The cap of the
-- fill history, 10000, and the limits of src/constants.rs are the code's.
--
-- Not modelled: requests, sockets and signing (src/api, src/websocket, src/feeds, src/claim), the
-- other tasks of src/orchestrator and those of src/sync, configuration, the kill switch, logging and metrics, which
-- are glue to other services, and the other strategies of src/strategy, which are left to a later
-- extension.
pub mod Prelude
pub mod Decimal
pub mod Types
pub mod Ledger
pub mod Risk
pub mod Strategy
pub mod Execution
pub mod State
pub mod Orchestrator
