-- ===== src/Lib.antt =====
-- Astrolabe: a server that keeps a graph of the resources of a Kubernetes cluster in memory, from the
-- events of informers, and answers queries about it over HTTP.
--
-- The parts and how they interact. Informers (pkg/informers) watch the cluster and pass each event to
-- the registry of processors (pkg/processors/registry.go), which gives it to the processor of the
-- object's kind. A processor turns the object into a node and calls the operations of the graph
-- (pkg/graph/types.go): it adds or removes the node, adds edges to the nodes that the object names,
-- and leaves a pending edge where such a node does not exist yet. The graph keeps three indexes and the
-- pending edges up to date. A persistent graph (pkg/graph/persistent.go) takes the place of the plain one
-- and writes its changes to a backend as well, which is Redis (pkg/storage/redis.go). The HTTP handlers (pkg/api) read the graph.
--
-- Where what is modelled:
--   Graph/Types       the data of pkg/graph/types.go
--   Graph/Indexes     addToIndexes, removeFromIndexes and their helpers
--   Graph/Pending     processPendingEdgesForNode, AddPendingEdge, AddReversePendingEdge
--   Graph/Store       NewGraph, AddNode, RemoveNode, AddEdge, RemoveEdge, labelsEqual
--   Graph/Queries     GetNode, GetNodesBy..., GetAll...
--   Processors/Base   NewNodeFromObject and pkg/processors/base.go
--   Processors/Core, CoreNodes   pkg/processors/core.go: the processors, and the nodes they make
--   Processors/Workloads         pkg/processors/workloads.go
--   Processors/Networking        pkg/processors/networking.go
--   Processors/Registry          pkg/processors/registry.go
--   Processors/Informers         the watched kinds with their informers, the handlers and their
--                                registration, of pkg/informers
--   Processors/Objects           the fields of Kubernetes objects that the processors read
--   Processors/Interface         GraphInterface of pkg/graph/types.go, and the graph as one
--   Api/Filtering                expandRelatedNodes of pkg/api/filtering.go
--   Api/Volumes                  includePersistentVolumes of pkg/api/filtering.go
--   Api/Handlers                 the nodes that handleResources and handleGraph of pkg/api/server.go answer
--                                with
--   Api/Responses                pkg/api/responses.go
--   Api/Replies                  the handlers of pkg/api/server.go
--   Persistence/Backend          PersistenceBackend and writeOp of pkg/graph/persistent.go
--   Persistence/Writer           PersistentGraph of pkg/graph/persistent.go
--   Settings                     the environment and the configuration of cmd/astrolabe/main.go
--   Storage/Client               the Redis commands and the JSON encoding that pkg/storage/redis.go uses
--   Storage/Layout               the keys of pkg/storage/redis.go and what stands under them
--   Storage/Redis                the operations of RedisStore of pkg/storage/redis.go
--   Storage/Shutdown             loading at the start and the snapshot at the end of cmd/astrolabe/main.go
-- The names are those of the source in snake case: AddNode is add_node, PodProcessor.Process is
-- process_pod. The other modules hold proofs. Common holds what the parts share; Tests runs the
-- definitions and applies the theorems to concrete data.
--
-- How the code is represented. The graph is a record of its maps; an operation takes it and returns the
-- next. Each operation of the source holds the lock from beginning to end, so it is one step, and a
-- run of several goroutines is a sequence of steps; a processor makes several calls, and what holds of
-- any sequence of calls holds whatever other goroutines call in between. A map is a list of entries
-- with a decidable equality of keys; the order in which `range` visits a map is the order of the
-- entries, and the theorems hold for every list. A node of the source is an object that the main map
-- and the indexes point at, and its two edge maps are shared by every version of the node: an update
-- hands them to the new object. So the main map holds the node with its edges, and an index holds the
-- version of the fields that it points at. A new node comes with edge maps of its own, which is what
-- NewNodeFromObject makes. The processors are written over an interface of the graph's operations, with
-- any state, as in the source. Numbers of 32 bits are integers that are only compared and printed; the
-- only sum, of restart counts, is an int of 64 bits and far from its bounds. A time counts seconds. The
-- loops run over finite lists and are structural recursion, so they need no fuel, but for the scans of the
-- Redis store, below, and the queue of expandRelatedNodes: its fuel is the length of the base plus the number of nodes, which is enough, since
-- each round takes a node from the queue and only a node that was not seen before goes in.
--
-- The goroutine that writes to the backend is a few steps: it receives one write, or flushes its batch on
-- a tick; these and the calls may follow one another in any order. The backend is a parameter, any
-- functions on what it holds, with errors that are logged. `Close` stops the writer, whose batch and then
-- the rest of the channel are written. The Redis store is such a backend, over any client of the Redis
-- commands and any JSON encoding; its theorems take as hypotheses what these document: a value that was
-- set is read back, a full SCAN lists each key that is there all the while, and what is marshalled
-- unmarshals to the same value. The number of pages of a scan is a parameter, a number for each
-- state, and the hypothesis says that it is enough. A query runs on one state of the graph.
--
-- What is not modelled: logging; the Go type in an error message; the shared informers, the Kubernetes
-- client and the objects' other fields, which are code of others; opening and closing the connection to
-- Redis and its statistics (pkg/storage/redis.go); what the sets hold that the Redis store keeps as indexes,
-- since nothing reads them back; requests, routing and JSON in the HTTP server (pkg/api/server.go); and the
-- flags, signals, periodic snapshots and wiring in cmd/astrolabe/main.go. The tombstone of a
-- deletion that the watch missed is `Object.tombstone`, with the object that it carries, and an object of
-- an API type that the program does not read is `Object.other`. Of the informers of client-go only the API
-- types that they watch are kept. Kinds are lowered letter by letter, for the ASCII letters.
pub mod Api
pub mod Common
pub mod Graph
pub mod Persistence
pub mod Processors
pub mod Settings
pub mod Storage
pub mod Tests
