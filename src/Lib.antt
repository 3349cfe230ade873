-- ===== src/Lib.antt =====
-- SoroProbe, a tool that reports on the health of smart contracts on the Stellar network.
--
-- The program reads ledger entries over RPC and says how long they will live (inspect), simulates
-- calls, and combines both into a pass or fail (check), for one contract or for a batch. This
-- library models the packages below internal/ that decide these answers:
--
-- - Health: internal/health/health.go. The classification of an entry by its last live ledger,
--   thresholds with their overrides, the worst of several statuses, and durations.
-- - Scval: internal/scval/encode.go, decode.go and scval.go. The literals `type:value` and the
--   values of the Soroban XDR union: Scval.Literal reads numbers, Scval.Words splits an integer into
--   64-bit words, Scval.Encode and Scval.Decode are the two directions, and Scval.Registry finds
--   the encoder of a spec or infers one.
-- - Stellar: internal/stellar/keys.go, tx.go and client.go. Ledger keys, the extension envelope
--   and the interface of the RPC client.
-- - Errors: the errors of internal/stellar and internal/probe, one constructor for each message.
-- - Probe: internal/probe. Probe.Report holds the request and report of an inspection,
--   Probe.Prober the prober and the state it keeps, Probe.Exec the operations that change that state
--   and may fail. Probe.LedgerTime is ledger_time.go, Probe.Plan, Probe.Extend and Probe.Inspect
--   are inspect.go, Probe.Cache is inspect_cache.go with Prober.Inspect, Probe.Check is check.go,
--   Probe.Batch is batch.go and Probe.Ready is ready.go.
--   Probe.Cost is the comparison of costs in simulate.go, Probe.Spread is spread.go, and
--   Probe.Simulate is the rest of simulate.go, with Probe.Simulate.Run and Probe.Simulate.Batch for
--   its operations.
-- - Config: internal/config/config.go. Config.Apply holds what a file, a profile and the environment
--   override, Config.Load the search for the file and the profile, Config.Validate the validation.
-- - Abi: internal/abi. Abi holds the types of abi.go, Abi.Annotate the typing of arguments, Abi.Wasm
--   the search for a section in chain.go, and Abi.Chain the rest of that file.
-- - Api: internal/api. Api.Auth is auth.go, and Api.RateLimit the buckets of api.go.
-- - Prelude: bytes and texts, integers, Go maps and outcomes, which all parts share.
-- - Tests: the operations at concrete inputs.
--
-- A check inspects and perhaps simulates; a batch plans the inspections of its checks, reads all
-- their entries ahead and runs each check on a client that answers from what was read. A function
-- of the program is a definition of the same name in snake case, and its pieces stand right above.
-- An operation of the prober takes a session (the state of everything outside the program, the
-- measured ledger time and the cache) and returns a result or an error, with a new session. Go's
-- errors are values; a text that is rendered from a format is a constructor with its arguments.
--
-- The Stellar SDK (strkeys, XDR, transactions), the RPC endpoint, the clock, the context and
-- `time.ParseDuration` are parameters, and for the configuration the environment, the files and
-- their decoders; floating-point arithmetic is a parameter of the percentages and of the rate
-- limit. So are `Prober.Simulate`, in a check, whose request and result are the fields that a
-- check uses, the concurrent way of running a batch, and the literals of vectors and maps. A
-- uint32 or uint64 is a number that wraps where the program computes with it; an int64 is an
-- integer that wraps at 2 ^ 63. The loops on fuel are Probe.Batch.Fetch.fetch_from, which takes at
-- least one key in each round and has one unit for each key, and those of Abi.Wasm and Abi.Chain
-- over the bytes of a module, which have one unit for each byte. A Go map is a list of entries
-- whose order is the order of a `range` loop.
--
-- Not modelled: the mutexes, since one operation is one step here; the routes and handlers of
-- internal/api, the HTTP request of internal/abi/sorovault.go and internal/scval/collections.go;
-- the transport of internal/stellar, the command line in cmd/soroprobe, and the test doubles.
pub mod Prelude
pub mod Health
pub mod Scval
pub mod Config
pub mod Abi
pub mod Api
pub mod Errors
pub mod Stellar
pub mod Probe
pub mod Tests
