-- ===== src/Lib.antt =====
-- bundle-broadcaster: a server that takes bundles of signed Ethereum transactions from bots over a
-- WebSocket and sends each to many block builders at once.
--
-- The parts and their files (paths from the repository's root):
--
-- - strategies/types.go, client/types.go: Bundle (IncomingBundle, the interface RelayStrategy).
-- - strategies/relays, strategies/registry.go: Relays. Relays/Payload has the statements that the
--   BuildRequest methods are made of, Relays/Builders one function for each relay, Relays/Registry the
--   map that register.go fills, Relays/Support the table of supported fields; Relays/Requests and
--   Relays/Registered compare the two.
-- - config.go: Config. signer.go: Signer, with the header in Signer/Header.
-- - relay_client.go: Relay. Relay/Transport is the retry loop, Relay/Response parseBundleHash,
--   Relay/Client the method Broadcast, Relay/Warmup the method WarmConnections. Transaction has
--   computeLastTxHash and decodeTxDetails, Transaction/Hashes their agreement.
-- - relay_manager.go: Manager. Manager/Build is NewRelayManager, Manager/Refund applyRefundDefaults,
--   Manager/Fanout what Broadcast does before its goroutines run, Manager/Life WarmConnections and
--   Shutdown.
-- - tracker.go: Tracker. Tracker/Loop has the variables of the goroutine `run` and a function for each
--   case of its select, Tracker/Process the channels and the methods of Tracker. Tracker/Found,
--   Tracker/Fates and the modules below it follow one hash event to its line, and each line back to its
--   event. `lines` is what the process's own calls of Write have added, whatever a file held before.
-- - simulator.go: Simulator. Simulator/Run is SimulateAsync and callBundle, Simulator/Amounts
--   weiHexToEth, Simulator/Tenderly buildTenderlyURL.
-- - auth.go, metrics_handler.go: Auth and Metrics. Auth/Guard has the methods of authGuard,
--   Auth/Handler the handler of the metrics page, Metrics/Parse the function parseMetrics.
-- - ws_server.go: Server. Server/State has the state and what one goroutine does to it, Server/Steps
--   the interleavings. Server/Panics follows the bundles that a panic loses.
-- - client/client.go: Client, the library for bots. Client/Send is one call of sendBytes, with the other
--   goroutines as a function, Client/Threads any number of calls in atomic steps.
-- - metrics.go: Counters.
-- - main.go: Startup. Startup/Begin goes from the environment to the parts of the running server,
--   Startup/Messages has the level and the messages of the log, Startup/Routes the HTTP routes and
--   Startup/Site what they show. Startup/Exit is main from the signal to its return, while the rest runs.
-- - The whole server: System. System/State has one call of Broadcast in atomic steps, System/Interleaving
--   the steps of workers and calls in any order; System/Accounts, System/Load and System/Skips follow
--   the counters, the calls in flight and the pauses. System/Recording adds the tracker.
-- - Common: names of the libraries, and lists, maps, numbers and texts as Go has them. Samples: values
--   that the tests share. The modules called Tests evaluate the code on concrete input.
--
-- How they meet: a bundle is read by a connection of Server, queued, and given to Manager by a worker.
-- Manager fills in the refund defaults, hands the bundle to Simulator and runs the client of each
-- relay (Relay), which builds its request by Relays, signs it by Signer and posts it. Answers and
-- simulation results go to the channels of Tracker, which joins them and writes them to files.
--
-- State is passed explicitly. Where goroutines share state (Server, System, Tracker/Process,
-- Client/Threads) a relation has a step for each atomic action, and the steps come in
-- any order; Client/Send takes the others' calls as a function. A locked method is one step.
--
-- Numbers are natural numbers. A uint64 is one below 2 ^ 64; `int` is the type ℤ; an int64 of
-- nanoseconds is its bit pattern. Times are nanoseconds, read from the arguments; each reading is an
-- argument of its own. Hexadecimal text is written with sixteen rounds, enough for a uint64, and
-- decimal text with eighty, enough for 256 bits. The retry loops run on three rounds, as in the code.
--
-- What is not in the repository is a parameter: go-ethereum (Ethereum, Crypto), encoding/json, net/http
-- and the operating system (Services, SimServices, Environment, Disk, Network), crypto/md5,
-- crypto/rand, the formatting of big.Float and of times, and float64 (Floats). Nothing is assumed of
-- them but their types, that the order in which a Go map is walked is some order of its entries, and what
-- a theorem names as its hypothesis. The answers of the file system may change from one call to the next,
-- and a Write that fails may leave a part of the line. A handler's panic is recovered by net/http: its
-- connection ends, and the server goes on. The clock may go back.
--
-- Not modelled: the listener of main.go, the HTML of metrics_handler.go,
-- newSharedHTTPClient, and what is logged, save for the dropped bundles of the server and the entries
-- of the simulator.
pub mod Common
pub mod Bundle
pub mod Relays
pub mod Config
pub mod Transaction
pub mod Signer
pub mod Tracker
pub mod Relay
pub mod Manager
pub mod Auth
pub mod Server
pub mod Simulator
pub mod Client
pub mod Samples
pub mod Metrics
pub mod Startup
pub mod Counters
pub mod System
