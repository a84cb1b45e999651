-- ===== src/Lib.antt =====
-- Single-decree Paxos over gRPC, with its nodes, their stores, the injection of faults, and a test
-- cluster. A value is a `uint64`, here a number; an `int` or `time.Duration` is a 64-bit integer
-- with its wrap-around (Prelude/Int).
--
-- The parts and the files that model them:
--   Proposal, Messages   pkg/paxos/proposal.go, messages.go: proposal numbers and the four messages.
--   Store                pkg/paxos/store.go: the interface, as operations and laws (`IsDurable`);
--                        Store/Memory is `MemoryStore`, Store/Bolt is `BoltStore` of
--                        pkg/storage/bolt.go over a database and an encoder that are parameters.
--   Acceptor             pkg/paxos/acceptor.go: `Prepare`, `Accept` and `NewAcceptor` over any store.
--   Proposer             pkg/paxos/proposer.go, prepare.go, accept.go, attempt.go, outcome.go,
--                        config.go and util.go: `Propose` (`propose`, and its two halves
--                        `after_prepare` and `after_accept`), the counting loops (Proposer/Tally)
--                        and `Campaign` (Proposer/Campaign). What peers answer, why the context has
--                        ended and what random numbers come are arguments.
--   Quorum               `len(peers)/2 + 1`, and why two quorums meet.
--   Harness              pkg/paxostest/harness.go: nodes that crash and restart, and the ledger;
--                        Harness/Check is `Chosen` and `AssertAgreement`, which System/Checked
--                        compares with what is chosen, and System/Setup is `New`.
--   System               the cluster as a step relation: `Propose` is cut where it waits, a call of a
--                        node is one step, and the network loses, delays, repeats and reorders.
--                        System/Handlers cuts `Prepare`, `Accept` and `Restart` of the harness into
--                        their critical sections, between which nodes crash and restart. System/Safety is the invariant; System/Schedule runs a list of
--                        actions; System/Revival adds the proposer that `Node.Revive` makes anew.
--   Node                 pkg/node/node.go: `Revive`, `Kill`, `TriggerCampaign`, `campaign`, `SetChaos`,
--                        `chaosLoop`, `Reset`, `Run`.
--   Transport            pkg/transport/convert.go, server.go, client.go, over the messages of
--                        proto/paxos/v1/paxos.proto.
--   Events               pkg/events/recorder.go: the ring of the last events, its subscribers
--                        (Events/Followers) and the fields of a record (Events/Attributes).
--   Fault                pkg/fault/fault.go: the settings of the controller, and its gate.
--   Peers                pkg/cluster/peer.go: the peers that a command line names.
--   Ui                   pkg/ui/server.go: the requests that a node's interface handles.
--   Console              pkg/console: the status that the console makes of the nodes' (cluster.go), the
--                        client (Client), the calls to all nodes and the wait for convergence
--                        (Cluster), the scenarios (Scenario, Scenarios), the scenario that runs
--                        (Runs, of server.go) and the following of logs (Tail).
--   Commands             cmd/node/cli.go, cmd/console/cli.go and the formats of pkg/logging/logging.go:
--                        what the commands make of their flags.
--   Examples             runs and states to which the theorems apply.
--
-- How they interact: a proposer's peers are acceptors (in a test cluster through Harness, in a node
-- through Transport and Fault); an acceptor saves before it answers; a node makes an acceptor over
-- its file and a proposer with that acceptor as its first peer. A console's client reaches a node
-- through a world of operations (`World`, HTTP and the clock), and in a world that is served
-- (`IsServed`) its requests are those that Ui handles.
--
-- Bounds: a proposer's round is a 64-bit counter. The theorems about runs of a cluster assume at most
-- 2^63 - 1 calls of `Propose`, which keeps every round below the point where it wraps. `Campaign`
-- runs over a list of turns, one for each round that the outside lets happen, so it needs no fuel.
-- `WaitConverged` and the scenarios' loops for a time have fuel for as many turns as the time has
-- nanoseconds, and two (`turns`): its ticks are 300 ms apart, and the body of a loop takes time.
--
-- Not modelled: log handlers, the pages and event streams of the web interfaces (the rest of
-- pkg/console/server.go, pkg/ui/server.go, and pkg/console/view.go, pkg/ui/helpers.go), signals, HTTP and
-- gRPC themselves, and generated code. Opening and closing of files, databases and connections
-- appears as an error that may come or not. The goroutines that a call of the console makes run one
-- after the other.
pub mod Prelude
pub mod Quorum
pub mod Proposal
pub mod Messages
pub mod Store
pub mod Acceptor
pub mod Proposer
pub mod Harness
pub mod System
pub mod Transport
pub mod Ui
pub mod Node
pub mod Events
pub mod Fault
pub mod Console
pub mod Peers
pub mod Commands
pub mod Examples
