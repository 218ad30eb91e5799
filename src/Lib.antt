-- ===== src/Lib.antt =====
-- supersim runs a local network of chains: an L1 and its L2s, each an anvil process, with a proxy in
-- front of each L2. This library models the Go code that is supersim's own.
--
-- The parts and their files:
--   * Prelude: Go's results (a value, an error value or a panic), 64-bit words and signed integers,
--     dictionaries, text, the loop of a goroutine, actions that record their calls, and sorting.
--   * Interop (interop/): a message between L2s. Interop/Message is message.go and derive.go (the
--     fields of a SentMessage log, the hash, the payload of a log); Interop/Store is store.go (the
--     lifecycle of a message and the store of the entries); Interop/Indexer is indexer.go
--     (processEventLog, the goroutine of a chain, and the subscriptions by key);
--     Interop/Relayer is relayer.go (the goroutine of a destination and its retries);
--     Interop/Applier is applier.go (the calls that configure a chain). The logs of the chains reach
--     the store of the indexer; the entries it publishes under a destination's key are what that
--     destination's relayer receives, which Interop/Pipeline puts together, at the handler that
--     createSubscription gives the event bus.
--   * OpSimulator (opsimulator/): the proxy. OpSimulator/Check is checkInteropInvariants,
--     OpSimulator/Json is json.go, OpSimulator/Handler is the HTTP handler with forwardRPCRequest,
--     OpSimulator/Deposits is deposits.go, OpSimulator/DepositTask is the task of the deposits with
--     the goroutine of its subscription, OpSimulator/Loggers the tasks that log token events, and
--     OpSimulator/Server is Start, Stop and the CORS handler.
--   * EndToEnd: the way of a message from the indexer's entry through the relayer's call to the
--     proxy's check, and in EndToEnd/Gate to its handler.
--   * Config (config/): the types of chain.go, the superchain look-ups of superchain.go, and
--     (*CLIConfig).Check with validateHost of cli.go; Config/Flags is the flags and ReadCLIConfig;
--     Config/Default is the default network.
--   * Anvil (anvil/): the walk over call frames of SimulatedLogs, whose logs the proxy checks;
--     Anvil/Args is the arguments of the process, Anvil/Port the port that it prints,
--     Anvil/Process is New, Start and Stop, and Anvil/Rpc the setters and the endpoint.
--   * Admin (admin/): the RPC methods of the admin server; Admin/Server is its routes, Start and Stop.
--   * Orchestrator (orchestrator/): Orchestrator/Fork is fork.go; of orchestrator.go,
--     Orchestrator/Network is NewOrchestrator, Orchestrator/Lifecycle is Start, Orchestrator/Shutdown
--     is Stop, and Orchestrator/Describe is Endpoint and ConfigAsString.
--   * Genesis (genesis/): Genesis/Deployment is deployment.go; of worldgen/, Genesis/DevKeys is
--     devkeys.go, Genesis/World is worldgen.go, Genesis/Periphery is periphery.go and
--     Genesis/CliConfig is config.go; Genesis/Command is cmd/main.go, the generator of the files.
--   * App is NewSupersim of supersim.go, which makes a network configuration of the command line and
--     an orchestrator of that, with Start, Stop and ConfigAsString in App/Lifecycle; Main is
--     SupersimMain of cmd/main.go with the test of anvil's version, and formatVersion.
--
-- How the code is rendered. A struct is a record, a Go map a dictionary (or a list of pairs where its
-- order is walked), a nil pointer that the code reads is `none`, and a nil dereference or an index out
-- of range is the result `panic`. A hash or an address is the number that its bytes spell. A
-- `uint64` is a natural number whose arithmetic that may wrap has `% 2 ^ 64`; `big.NewInt(int64(x))`
-- is `of_int64`, which turns the upper half of the words negative. A method that changes an object
-- passes the object's state on, also where it returns an error. A goroutine's `for` over a `select`
-- takes the list of what the selects receive; the goroutines of several chains share the store under
-- its lock, so that a run of them is one list of logs in the order in which they get to it. Publish
-- calls the handlers itself, and one of them can wait for ever: Interop/Indexer/Turns has the chains
-- whose goroutines do, which take no further log. A goroutine that is started and not waited for is
-- recorded as started only. Two
-- goroutines that meet at a channel without a buffer are one state with a step to each event, and a
-- run is the list of the events in their order.
--
-- Outside: keccak, the ABI packing, the parsed event ids, encoding/json, the clients of the chains,
-- the registry of chains, the environment, the operating system, net.ParseIP, time.Parse, url.Parse,
-- the parser of the command line, sort.Slice, the order in which a map is walked where it is put in
-- order again, the embedded files, the downloads, forge scripts and op-chain-ops are parameters, in
-- records (Ethlib, Decoder, Backend, Client, Simulator, Registry, RpcClient, Outside, Setup, Os, Net,
-- Clock, Context, Files, Printed, Paths, Outcome, Forge). Two have laws. Ethlib: the bytes of a hash
-- are 32 and distinct, an address crops a hash, and the three event ids differ. Printed, as Orders
-- says: a walk and a sort lose and add nothing, and a sort leaves no item before a lesser one. The
-- test modules have an instance of each but Files and Forge.
--
-- Fuel: the walk over call frames has the number of frames as its fuel, which is shown to be enough.
-- The rounds of a retry are counted down from the number of retries, and the digits of `decimal` from
-- the number itself; every other loop is by recursion on a list.
--
-- Not modelled: logging, the usage texts and the lists that are only printed; the HTTP servers
-- themselves; the bindings, which are generated, but for the two structs of the inbox; the mocks of
-- the Go tests; and the two functions main, which set up and start the parser of the command line.
pub mod Prelude
pub mod Interop
pub mod OpSimulator
pub mod Config
pub mod Anvil
pub mod Admin
pub mod EndToEnd
pub mod App
pub mod Main
pub mod Genesis
pub mod Orchestrator
