-- ===== src/Lib.antt =====
-- The qtrade client: adapters of trading venues, clients of three gRPC services, and the bridges that a trading
-- engine uses in place of those services.
--
-- The parts, with paths from the repository's root:
--   MockTrader   src/adapters/mock/trader: a trader that keeps its orders in memory and can fill them at once.
--                The record MockTraderApi is the object's members; each operation takes it and returns it.
--                Orders models SendOrder and CancelOrder, Queries the four queries. The table of orders is an
--                association list (Common/Dict), whose order no theorem depends on. Callbacks run outside
--                the lock and may call the trader back: they are functions of the trader and of a world
--                outside it (Handlers). Steps gives the critical sections as a step relation, so that a
--                sequence of steps is any interleaving of calls and callbacks; Consistency has the invariant
--                over it (Entries: one order and its trades), Finality one order along it, Numbering its
--                counters. Effect is what SendOrder leaves, field by field, Exceptions its way through callbacks
--                that act on the trader meanwhile; handlers are functions, so a callback that never returns, or
--                sends orders without end, is not modelled. Threads has two threads in SendOrder, whose counters
--                are not guarded. Desk is what the trader promises a client (Calls), with the table as a
--                function; Serving and Promise relate the two, and Balance sets trades against orders.
--   Client       src/client: Account, Config and AccountRisk. A channel and a stub are known by the
--                address that they were made for; a remote procedure is a parameter from the address,
--                the deadline and the request to a status and a response.
--   Bridge       src/bridge and src/common/proto. Convert and Strategy are the conversions (the messages in
--                Convert/Messages); Account, AccountRisk and Config the bridges, each with the contract that it
--                refines. Races has several threads in a query of a bridge with a cache, whose remote call runs
--                outside the mutex: the call with its return is one event, the critical section another. Account
--                and AccountRisk (in their modules Races) take part through the interface CachedQuery. Answers is
--                what the operations on reservations owe, Served the operations against it.
--   MockQuote    src/adapters/mock/quote: quotes from a thread of their own. The record MockQuoteApi is the
--                object's members, the thread with the place where it stands among them. Ticks is
--                GenerateMockTicks, a move at a time; System puts the user's thread beside it, so that a list
--                of events is any interleaving; a field that the source does not guard is read and written at
--                once. A call returns, waits, waits for its own thread, or throws (Outcome).
--   Emt          src/adapters/emt: Quote, Trader, the requests that do nothing in Requests below each adapter (also
--                below the two mocks), and Factory with the factory of the mock adapters
--                (src/adapters/mock/mock_adapter_factory).
--   Bootstrap    src/bootstrap: the parser of the process's configuration over an interface of the JSON library,
--                LoadBootstrapConfig over a function that reads a file, and LoadStrategies, StartEngine and
--                RunUntilShutdown over an engine that is a parameter.
--   Main         src/main.cpp: Adapters is ConnectAndTake and BuildAdapters, over the sum of the adapters that the
--                factories make; Startup is main, a chain of parts that go on or end the process with their
--                report (Exit, in Parts). The engine is a record of operations on its own state and on the
--                bridges that it was given, so that it may change those.
--   Sdk          what the source uses of the installed headers of qtrade.
--   Common       tests on numbers and texts, integers, lists, association lists.
-- Modules whose names end in Tests hold runs and the theorems at concrete inputs, Examples their data.
--
-- How they interact: a bridge owns a client and calls it; main connects the bridges to the engine and makes the
-- adapters from the configuration and the credential.
--
-- Numbers: ids and counters of the trader are uint64 and wrap at 2 ^ 64; volumes are integers without bounds,
-- since the source adds them without a test (Positions/Bounds says how large they become). Prices are
-- values of an arbitrary type with the operations of Sdk.
-- The decimal text of a uint64 is made with a fuel of 20 digits, which is enough since 2 ^ 64 has 20. No other
-- definition runs on fuel: loops over lists are structural, and the loop of the tick thread is a state machine.
--
-- Not modelled: signals, notification, logging and gRPC itself; destructors but that of the mock quotes:
-- ~EmtQuoteApi is its Disconnect and the others do nothing but end a session; a Shutdown of a client in the
-- middle of a remote call, whose stub it destroys; GetApiLastError, whose structure is of the SDK and never
-- written. The time that the tick thread sleeps is not modelled: it may move at any moment. Headers of the
-- installed qtrade libraries are not in the repository:
-- default values that they choose are parameters (Sdk, QuoteSdk, ResultDefaults, Services).
pub mod Common
pub mod Sdk
pub mod MockTrader
pub mod Client
pub mod Bridge
pub mod Emt
pub mod MockQuote
pub mod Main
pub mod Bootstrap
