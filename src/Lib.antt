-- ===== src/Lib.antt =====
-- Models of the order path of the trading framework, with the theorems that make them correct.
--
-- The engine (src/engine/trading_engine.cpp) owns the components below and calls them from one
-- consumer thread: an order request passes the risk manager, is stored by the order manager under a
-- new reference and is sent by a gateway; the gateway's reports and fills come back to the order
-- manager and to the position manager, whose volumes the next risk check reads.
--
-- Files, and the code that they model:
--   Common       shared names: tests, lists, `int` as ℤ, C strings, hash maps as association lists
--   Types        src/common/types.h: enumerations and plain records
--   Double       the operations on `double`, a parameter of what computes with prices; Double.Fixed
--                is a concrete instance for tests
--   Orders       src/order/order_manager.cpp: Book (state, counter), Methods (operations), Counting
--                and Exact (the counter against the orders), History (runs), Fills, Refs
--   Positions    src/position/position_manager.cpp: Book (state, operations), Keys, Balance and Fills
--                (one position), Net (the table)
--   Risk         src/risk/risk_manager.cpp: State, Sessions (trading hours), Window (sliding windows),
--                Checks (the checks of an order), Methods (operations), Settings (parameters), Accepts
--                and Refusals (what an answer means), Limits (the order rate over a history)
--   Conditional  src/order/conditional_order_manager.cpp: State, Bounds (the filter on prices), Methods
--                (adding and cancelling), Ticks (the three phases of check_tick), Filter, Groups and
--                Adding (what they guarantee)
--   Algo         src/order/algo_order_manager.cpp: Methods (operations), Slices (one order), History,
--                Parts, Rounds and Even (the volumes of the slices)
--   Close        src/order/close_manager.cpp: State, Methods (sections under the lock), Recovery (timeouts,
--                restarts, operations that call back), Sections and Runs (interleavings), Sends
--   Codec        src/common/binary_io.h (Varint), crc32.h (Crc), wal_writer.h and wal_reader.h (Log);
--                RoundTrip, Linear (the checksum), Replay, Entries and Recovery (what
--                a log replays to)
--   Bars         src/engine/kline_manager.cpp: State (bars, calendar), Update (ticks, queries), Aggregate
--                (imports), Store (the file); Reload, Reading and RoundTrip (the file read back), Grouping,
--                Merging, Volume, Ticks and Days (what bars hold)
--   Engine       src/engine/trading_engine.cpp, account_context.h and account_manager.cpp: State,
--                Sending and Cancelling (orders), Handling (reports and fills), Reconnect (snapshots, trade
--                states), Closing, Sends, Fills, Waiting and Stuck
--   Session      src/engine/session_manager.cpp: Monitor (operations, the engine's checks), Hours (the trading
--                hours of the risk manager), Watch (sequences of checks)
--   Config       src/common/config.cpp: Ini (sections and lookups), Order (what is written first), File
--                (load and save); Lines and RoundTrip (the file read back)
--   Paper        src/engine/paper_trading.cpp: Methods, Effects (what an order does to the account)
--   Market       src/market/order_book.h (Book), order_book_manager.h (Books)
--   Gateway      src/gateway/dual_md_gateway.cpp (Market), dual_trade_gateway.cpp (Trade); Failover
--   Queue        src/common/spsc_queue.h: the ring, and the list that it stands for
--
-- Conventions. A method that changes its object takes the state last and returns the new one. A mutex
-- that covers a whole method makes it one step. Log lines are left out. An `int` is an unbounded ℤ:
-- its overflow is undefined in the source. A `char[N]` is the list of its bytes before the first NUL,
-- and a copy into it keeps N - 1 of them. A `std::unordered_map` is an association list whose keys
-- stand once, a `std::map` one in the order of its keys.
--
-- Not modelled: the gateways to the exchanges (bindings of vendor libraries), the web server, the
-- metrics server, the watchdog process, the embedded Python strategies, the configuration store and the
-- recorder of market data, all of them input and output; the engine's start and stop, its threads and
-- its statistics; the import of bars from CSV and their catalogue; the queue in shared memory; the
-- checks of the configuration and the settings of accounts and strategies. Risk.Settings.Config is the
-- interface through which the risk manager reads the configuration.
--
-- A loop is a recursion on a list or a text, or on smaller numbers (write_varuint); only the replay of a
-- log takes fuel, one more than the bytes of the file, which is enough as every round but the last takes a byte.
pub mod Common
pub mod Types
pub mod Double
pub mod Orders
pub mod Positions
pub mod Risk
pub mod Conditional
pub mod Algo
pub mod Queue
pub mod Close
pub mod Codec
pub mod Bars
pub mod Session
pub mod Config
pub mod Market
pub mod Engine
pub mod Paper
pub mod Gateway
