-- ===== src/Lib.antt =====
-- supabot: a trading bot that places orders at Korean exchanges and keeps track of them.
--
-- The program's parts, and where they are modelled:
-- - Base: numbers, lists, dictionaries and an interface of floating-point numbers (Base.Float). No law
--   of arithmetic is assumed of a float, so what is stated of any numbers holds of rounded numbers too.
--   Whole numbers meet the interface, with quotients rounded down, and with nothing to round to decimals:
--   the tests use them, and so do the statements on sums of money and on shares, which say so. They say
--   nothing of volumes in fractions of a coin, which the program rounds to four decimals.
-- - Tokens: the confirmation tokens, src/core/manual_order_tokens.py, strategy_tokens.py,
--   list_view_tokens.py and ticker_disambiguation.py. A function of the source is a function of the
--   same name that takes the table and the time and gives the result, the new table and the events.
--   The loop that looks for a new token has as many steps as the table has entries, and one more
--   (see Tokens.Minting).
-- - Orders: `OrderManager` of src/core/order_manager.py. The dictionaries of the orders are on a heap,
--   and the list and the index hold their addresses, as the source shares them. A method gives the
--   requests to the database with the new state, and Orders.Mirror runs them on a table.
-- - Sync: src/core/order_sync.py, the run that brings the tracked orders in line with the exchanges. A
--   handler is a function on a `Bot` (the order book, the caches of the module, the trades and messages
--   so far, and a world), and may raise. The exchanges, the signal engine, the clock and the settings
--   are a record of functions, `Adapter`, of which nothing is assumed. One run is one sequence of
--   calls: what other coroutines do in between is not modelled. A message is taken to arrive.
-- - Gate: src/core/trading_gate.py, the stop of trading and the rules for a new order, with the caps
--   of src/core/parsers.py. What the database answers is an argument of each call.
-- - Execution: src/core/order_execution.py, the loop that places the legs of a strategy, and the legs
--   of a grid and of the RSI strategies, on the same bot and adapter as Sync.
-- - Dca: src/core/dca_manager.py, the schedules of regular purchases. The dates of the standard library
--   are a record of functions, `Calendar`; what is assumed of it in one place is `IsOrdered` of
--   Dca.Later. The search of a week has eight steps, as in the source. The execution of due schedules
--   (Dca.Due, Dca.Place, Dca.Execute) is a function on a `Run`: the order book of Orders, the schedules,
--   the state of Gate, a world, the requests and messages, and the one local variable that outlives a
--   turn of its loop. What it asks of the exchanges, the users and the database is a record of
--   functions, `Desk`, of which nothing is assumed. The analysis of the cash is Dca.Cash, with the
--   answers for balances and prices as arguments, and Dca.Alerts says which reports are told.
-- - Signal: src/core/signal_engine.py, the search of a price for a target of the RSI, and the alerts with
--   their snoozes. The indicators of the library are functions and values that are given, and the RSI is
--   taken to be computed without an exception. The loops have at most 15 and 16 rounds, as in the
--   source. A scan takes the tickers one after the other.
-- - Budget: manager/backend/services/budget_manager.py, the budget of a strategy and its ledger. A
--   function of the source takes and gives a `Book`: the budget fields of a template's `params`, and
--   the ledger, newest row first. `insert`, an argument, is what the table holds after the attempt to
--   add a row. The rows of orders and trades are arguments, none where a query fails; the dates of the
--   standard library are a record of functions, `Dates`.
-- - Planner: manager/backend/services/order_planner.py, the reserved orders of a grid and of an RSI
--   strategy, and the ticks of the adapters: those of src/core/exchanges/base.py for Upbit and Bithumb,
--   and those of src/core/exchanges/common.py, which kis.py and toss.py there use.
-- - Daily: `step_single_day` of manager/backend/services/progression_manager.py, the day of the ranking
--   strategy: the sales of what has left the range, and the purchases in turn. The purchases take at
--   most 50 rounds, which is the source's own bound. Daily.Reconcile is the part of the batch around it
--   that settles the purchases of the batch before, by the operations of Budget.
--
-- The parts meet in the order book: the handlers of Sync and the batches of Execution change it only by
-- the methods of Orders. Sync reads the stop of trading as an answer of its adapter; Gate models how
-- that answer comes about; the execution of schedules calls Gate itself. Budget, Planner and Daily
-- belong to the manager, another process, which shares the rows of orders and trades with the bot through the database.
--
-- Not modelled: the clients of the exchanges, the database and its queue of writes, the Telegram
-- dialogues, the routes and reports of the web manager, the rest of the batch around the daily step, the backtest,
-- the natural language part, and the indicators; they are I/O, texts, or parameters of what is modelled.
pub mod Base
pub mod Tokens
pub mod Orders
pub mod Sync
pub mod Gate
pub mod Dca
pub mod Execution
pub mod Signal
pub mod Budget
pub mod Planner
pub mod Daily
