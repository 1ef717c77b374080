-- ===== src/Lib.antt =====
-- llm-agent-flow: a model of the two versions of the flow engine, flow and v2/flow, of the typed builder
-- of graphs in v2/flow/graph, and of the store and the daemon that serve flows.
--
-- A flow is a graph of nodes. Edges and mappings carry values from the output ports of one node to the
-- input ports of another. `Compile` validates the graph and puts the nodes in layers. A run executes
-- the layers one after another, the nodes of a layer concurrently, and after each layer fires the edges
-- and mappings out of it, which activates the nodes that will run. A node can interrupt the run for a
-- human: the run is suspended with a checkpoint in a store, and `Resume` goes on from the checkpoint.
--
-- Base: the library names that all modules share, tests on numbers and texts, lists, maps, results.
-- V2.Ir: the types of v2/flow/ir.go.
-- V2.Arcs, V2.Layers: the graph and the layering of `Compile` (v2/flow/engine.go). The loop runs on
--   fuel, one more than there are arcs: each layer after the first takes away the last predecessor of
--   some node.
-- V2.Cycle: `findCycle` of v2/flow/validate.go. Its recursion runs on fuel, the number of nodes and
--   targets: each call turns one of them gray.
-- V2.Validate: `Validate`. The issues are values; the source formats them.
-- V2.Value, V2.Mapping: values as far as the engine looks into them, the port table (`portValues`), and
--   v2/flow/mapping.go. Maps are values: the sharing of nested maps is not modelled.
-- V2.Errors: the errors of a run, with the parts of their texts as fields. A store's error that wraps
--   `ErrCheckpointNotFound` is that error.
-- V2.Nodes: the registry of v2/flow/node.go. A node is a function of the State and of its input ports to
--   an outcome and the State that it staged last.
-- V2.State: the State cell, its barrier and its options (v2/flow/state.go).
-- V2.Codec: the registry of codecs and the tagged texts (v2/flow/codec.go, v2/flow/statecodec.go).
-- V2.Engine: `Compile`. The hashes of the flow and of its structure are parameters. V2.Structure:
--   `structuralHash` (v2/flow/structhash.go), up to the JSON text of its descriptor and the SHA-256 sum.
-- V2.Fire: the closures `fireLayerEdges` and `fireLayerMappings` of `runCore`.
-- V2.Checkpoint: the checkpoint and the in-memory store (v2/flow/checkpoint.go), without creation times.
-- V2.Tasks: the task of one node, the events (v2/flow/event.go), and the loop over the results.
-- V2.Run, with Core, Snapshot, Start: `runCore`, `snapshotCheckpoint`, and the methods `Run`,
--   `RunWithState`, `RunStream`, `RunResumable` and `RunResumableWithState`.
-- V2.Resume: `Resume` and `ResumeWithState` (v2/flow/resume.go).
-- V2.Sqlite: the table of checkpoints of v2/flow/store/sqlite/checkpoint.go.
-- V2.RoundRobin: the round-robin merge of v2/flow/graph/combinators.go, and the fold of its frames for
--   each source (v2/flow/graph/merge.go). Its fuel is enough if it is above the number of frames and
--   sources.
-- V1.Ir, V1.Validate, V1.Compile, V1.Run: the first version, flow/ir.go, flow/validate.go,
--   flow/node.go, flow/engine.go and flow/event.go. The loops that both versions write alike are the
--   functions of V2: those of `Validate` over nodes, edges and references, `findCycle`, and those of
--   `Compile` over edges and layers. V1.Compile.Upgrade takes a flow, a node and an engine of the first
--   version over into the second.
-- Graph.Types: the rules of v2/flow/graph/typecheck.go. A Go type is its identity as a text, a nil
--   `reflect.Type` is none, and what the code asks of `reflect` is a parameter.
-- Graph.Adapters: the node kinds of graph.go, branch.go, copy.go, parallel.go and merge.go, by value.
-- Graph.Builder, with FanOut and Components: the state of the builder and its operations (graph.go,
--   typecheck.go, branch.go, copy.go, parallel.go, merge.go, component.go). Reaches: the graphs that
--   calls of them make, each with references that the graph gave out.
-- Graph.Compile: `Compile` of runnable.go up to the engine, and `lower` of lower.go. The formatted names
--   of the synthetic node types are a parameter.
-- Graph.Chain: `buildLinearPipeline` of runnable.go. The walk runs on fuel, one more than there are
--   edges: each node that it leaves is the source of another edge.
-- Graph.Streams, with Linear: the concatenators and readers of stream.go and `runLinearStream` of
--   runnable.go. Streams are numbered in the order in which they are opened, and what one gives and whether
--   it is closed are a part of the state. The chat model is a parameter, by the node's id.
-- Store: the records of flow/store/store.go and the tables of flow/store/sqlite, with Flows (flows.go),
--   Runs (runs.go) and Events (events.go): a call is a function on the tables, and an argument gives the
--   errors of the statements that the database refuses. Store.Steps: these calls in any order.
--   Store.Listings: `ListFlows` and `ListRuns`.
-- Server.Lru: the cache of cmd/flowd/server/lru.go, with Recency, the list of entries that it stands for.
-- Server.Flows: the handlers of cmd/flowd/server/server.go that change flows, `engineFor` and
--   `engineForV2`, on the tables and the two caches. Server.Requests: requests one after the other.
-- Server.Runs: `runWithStore`, with the engine's stream as a list of events. Server.Resumes:
--   `runResumableV2` and `handleResumeRun`, on the tables, the caches and a checkpoint store.
-- Tests: a flow, with its runs and its resumption, and the properties at work on it.
--
-- The closures of `runCore` share maps that they change; here that state is passed on explicitly: the
-- wiring (`activated` and `portValues`), the cursor (`edgeStates`), the State cell and the events. The
-- mutexes make each access of a task one step. `fanout.Run` of the module llm-agent, which runs the
-- tasks of a layer, is a parameter, and so are the context's error before and after each layer, the
-- JSON package and the reflection on types, the compiled conditions, and the store. The events of a run
-- are the calls of `emit`; `run_stream` drops those whose send a cancelled context cuts off. A value is a
-- tree: nested maps that the source shares between ports are not shared here. A map whose order Go
-- leaves open is a list in some order.
--
-- The server and the store meet in the tables: the handlers call the functions of Store.Flows, and the
-- engines in the caches are compared with the rows. The decoding of JSON, the compilation of a stored
-- flow and the runs of a compiled engine are parameters of the server, and the request that another one
-- overtakes is not among its steps. The builder and the engine meet in the flow that `Compile` makes of a
-- graph, and in the registry of its adapters.
--
-- Not modelled: the loading and printing of flows, the hash of a whole flow, the stream plans of
-- v2/flow/graph for graphs that are no chain, whose goroutines hand a stream to several readers, and the
-- choice of `Stream` among the plans, the frames that the daemon streams to a client and its
-- authentication, the command line in cmd, the listings of stored checkpoints in SQLite, the setup of a
-- database, and the CEL conditions.
pub mod Base
pub mod V1
pub mod V2
pub mod Graph
pub mod Store
pub mod Server
pub mod Tests
