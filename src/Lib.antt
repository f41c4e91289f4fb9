-- ===== src/Lib.antt =====
-- The research platform: virtual orders that follow trading signals.
--
-- A signal names an entry zone, a stop and one or two targets for a ticker. A virtual order
-- replays the minute bars of the market against it, one bar at a time, and records what happens as
-- events. This library models the pure core that decides what happens, as it stands in the
-- repository, with theorems about it.
--
-- The parts, and the files that model them:
--   src/core/domain/calendar.py      Calendar.antt
--     The sessions of the exchange and the minutes in which a bar is expected. `Session` and
--     `SessionCalendar` are records, their constructors `make_session` and `make_calendar`. Every
--     query raises `CalendarRangeError` outside of the loaded range: an `err calendar_range`.
--   src/core/domain/models.py        Domain/Signal.antt, Domain/Order.antt, Domain/Values.antt
--     Bars, signals, the fill configuration, the context and the state of an order, its events.
--     `__post_init__` is the function `make_…` or `check_…` that builds the value or raises.
--   src/core/fills/v1/engine.py      Fills/Moves.antt, Exit.antt, Entry.antt, Engine.antt
--     The rules of the fill model, version 1: `_fill`, `_close`, `_exit_phase`, `_entry_phase`,
--     `step`, `run_bars`, and the commands `flag_review`, `cancel`, `freeze`,
--     `apply_validity_end` and `apply_dividend`. A `StepResult` is an `Outcome`, the new state
--     with the events that led to it.
--   src/core/fills/v1/mirror.py      Fills/Mirror.antt
--     Orders on the SHORT side run through the LONG rules on negated prices.
--   src/core/domain/validation.py    Domain/Validation.antt
--     The checks of a signal's levels, as the list of problems that they report.
--   src/core/domain/position.py      Domain/Position.antt
--   src/core/fills/v1/engine.py      Fills/Creation.antt
--     `new_order_state`, whose payload names the digests of the gating and of the calendar window;
--     `sha256_hex` is a parameter.
--   src/core/actionability.py        Actionability.antt
--     The decision whether a user may still open an order, and the order. The fill model is a
--     record of the two operations that are called, as the module is a parameter in the code.
--   src/core/dataquality.py          Quality.antt
--     Coverage of the sessions, gaps, reviews of missing bars, cross-checks.
--   src/virtual_orders/ledger/events.py   Ledger.antt
--     Which events are inserted into the append-only log of an order. The rows of one order are a
--     list, the newest first; the statements that select and insert them are list operations.
--   src/virtual_orders/research/models.py         Research/Candle.antt
--   src/virtual_orders/research/candlesticks.py   Research/Geometry.antt, Patterns.antt, Detect.antt
--     Candles, their geometry, and the detectors of candlestick patterns up to `detect_at`.
--   src/virtual_orders/research/labels.py         Research/Labels.antt, Labels/Barrier.antt
--   src/virtual_orders/research/levels.py         Research/Levels.antt, Levels/Propose.antt
--   src/virtual_orders/research/scoring.py        Research/Scoring.antt
--   src/virtual_orders/research/setups.py         Research/Setups.antt
--   src/virtual_orders/research/promotion.py      Research/Promotion.antt, Promotion/Row.antt
--     What happened after a signal, the levels of a trade, the score, the candidate, and the gate
--     between research and signals. `record_candidate` of repository.py is `row_of`.
--   src/virtual_orders/research/indicators.py     Research/Indicators.antt
--   src/virtual_orders/research/market_structure.py   Research/Structure.antt, Swings.antt,
--                                                 Trend.antt, Context.antt
--   src/virtual_orders/research/features.py       Research/Features.antt (the record)
--   src/virtual_orders/research/timeframes.py     Research/Timeframes.antt
--   src/virtual_orders/research/backtest.py       Research/Splits.antt
--     Candles out of minute bars, series over candles, the context at a candle, and the splits of a backtest.
--   src/virtual_orders/alerts/outbox.py           Alerts/Outbox.antt, Alerts/Scan.antt
--   src/virtual_orders/alerts/rules.py            Alerts/Rules.antt
--   src/virtual_orders/alerts/watchlist.py        Alerts/Watchlist.antt (`parse_rule_body`)
--   src/virtual_orders/analytics/pressure.py      Analytics/Pressure.antt
--     The rules of the owner, the bars they answer to, and the estimate of pressure they read.
--     The outbox of alerts: three tables as lists, the enqueue steps and the delivery run. The
--     sink and the monotonic clock are functions of the turn of the loop.
--
-- How they interact: `step` asks the calendar whether the bar is expected, sends the bar to the
-- entry or the exit rules, and asks the calendar for the last minute of the validity to end it.
-- A manual order is decided by a run of that `step` over the bars that are complete. The data
-- quality checks walk the expected minutes of the calendar. The events go to the ledger, and from there
-- to the outbox of alerts. Research reads candles only; its levels are checked by `validate_signal`
-- before a candidate may become a signal.
--
-- Conventions. Result.antt is the type of calls that may raise; the errors are the exceptions that
-- the code raises or lets through. Decimal.antt is the standard library's `decimal` under the
-- context of the engine (28 digits, half even), for finite values. An aware `datetime` is the
-- number of microseconds of its UTC instant. A Python `sorted` with a key is the stable `sort_by`.
-- Prelude.antt and its children are the shared helpers.
--
-- Fuel. `minutes_from` models the `while` of `expected_minutes` on as much fuel as the range has
-- microseconds, and one more. Each turn moves on by at least a minute, so the fuel is enough.
-- `chunks` cuts the minutes of a session on as much fuel as there are minutes, and each turn takes
-- at least one. Every other loop is structural.
--
-- Not modelled: what asks a database, a network or a file system (the evaluator, the worker, the
-- rest of the ledger, the read models, the HTTP API and the dashboard), the SHA-256 digests, and
-- statistics over floats.
-- Decimals that overflow the exponent range are not modelled, and 0 / 0 raises the error of any
-- division by zero.
pub mod Prelude
pub mod Result
pub mod Decimal
pub mod Calendar
pub mod Domain
pub mod Fills
pub mod Actionability
pub mod Quality
pub mod Ledger
pub mod Alerts
pub mod Analytics
pub mod Research
pub mod Tests
