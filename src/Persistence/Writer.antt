-- ===== src/Persistence/Writer.antt =====
-- `PersistentGraph` of pkg/graph/persistent.go: its calls, the steps of its writer, and its end.
use astrolabe_server.Common.{
  ℕ, length, ltb, leb, Bool, true, false, Option, none, some, List, [], ◌∷◌, ◌++◌, if◌then◌else◌,
  String, inl, inr,
}
use astrolabe_server.Graph.Types.{Uid, Node, Edge, Graph}
use astrolabe_server.Graph.Store
use astrolabe_server.Graph.Queries
use astrolabe_server.Graph.Pending
use astrolabe_server.Processors.Interface.{GraphInterface}
use astrolabe_server.Persistence.Backend.{
  Backend, WriteOp, save_node_op, delete_node_op, save_edge_op, delete_edge_op, execute_write_op,
  execute_batch,
}

-- `channel` is what waits in `writeChan`, `batch` what the writer has received and not yet written,
-- and `stored` what the backend holds.
pub record PersistentGraph (T : Type 0) : Type 0 where
  pub graph : Graph
  pub enabled : Bool
  pub async_writes : Bool
  pub channel : List WriteOp
  pub batch : List WriteOp
  pub stored : T

-- The capacity of `writeChan`, and `batchSize`.
abbrev pub capacity : ℕ
capacity = 1000

abbrev pub batch_size : ℕ
batch_size = 100

-- `NewPersistentGraph`, with a backend if there is one.
abbrev pub new_persistent_graph : {T : Type 0} → Bool → Bool → T → PersistentGraph T
new_persistent_graph enabled async_writes stored = record {
  graph = Store.new_graph;
  enabled = enabled;
  async_writes = async_writes;
  channel = [];
  batch = [];
  stored = stored;
}

module _ {T : Type 0} (b : Backend T) where
  -- The end that all the calls share: a full channel drops the write.
  unfoldable pub persist : WriteOp → PersistentGraph T → PersistentGraph T
  unfolding execute_write_op
  persist op s =
      if s.enabled
      then if s.async_writes
        then if ltb (length s.channel) capacity
          then record s { channel = s.channel ++ (op ∷ []) }
          else s
        else record s { stored = execute_write_op b op s.stored }
      else s

  unfoldable pub add_node : Node → PersistentGraph T → PersistentGraph T
  unfolding persist
  add_node n s = persist (save_node_op n.fields) (record s { graph = Store.add_node n s.graph })

  unfoldable pub remove_node : Uid → PersistentGraph T → PersistentGraph T
  unfolding persist
  remove_node uid s =
      persist (delete_node_op uid) (record s { graph = Store.remove_node uid s.graph })

  unfoldable pub add_edge : Edge → PersistentGraph T → PersistentGraph T × Bool
  unfolding persist
  add_edge e s =
      let (g, success) = Store.add_edge e s.graph in
      let added = record s { graph = g } in
      if success then (persist (save_edge_op e) added, true) else (added, false)

  unfoldable pub remove_edge : Uid → Uid → PersistentGraph T → PersistentGraph T
  unfolding persist
  remove_edge from to s =
      persist (delete_edge_op from to) (record s { graph = Store.remove_edge from to s.graph })

  -- The writer receives one write, and executes a full batch.
  unfoldable pub receive : PersistentGraph T → PersistentGraph T
  unfolding execute_batch
  receive s = elim s.channel [
    | [] ↦ s
    | op ∷ rest ↦
        let batch = s.batch ++ (op ∷ []) in
        if leb batch_size (length batch)
        then record s { channel = rest; batch = []; stored = execute_batch b batch s.stored }
        else record s { channel = rest; batch = batch }
  ]

  -- The periodic flush, and the final one: the batch is empty, or executed and cleared.
  unfoldable pub flush : PersistentGraph T → PersistentGraph T
  unfolding execute_batch
  flush s = elim s.batch [
    | [] ↦ s
    | op ∷ ops ↦ record s { batch = []; stored = execute_batch b (op ∷ ops) s.stored }
  ]

  -- `Close`, up to the end of the backend itself: the writer flushes its batch and stops, and what
  -- is left in the channel follows.
  unfoldable pub close : PersistentGraph T → PersistentGraph T
  unfolding flush execute_batch
  close s =
      let flushed = flush s in
      if s.enabled
      then if s.async_writes
        then record flushed {
          channel = [];
          stored = execute_batch b flushed.channel flushed.stored;
        }
        else s
      else s

  -- `LoadFromBackend` and `Snapshot`, with their errors.
  unfoldable pub load_from_backend : PersistentGraph T → PersistentGraph T × Option String
  load_from_backend s =
      if s.enabled
      then elim (b.load_graph s.stored) [
        | inl e ↦ (s, some e)
        | inr g ↦ (record s { graph = g }, none)
      ]
      else (s, none)

  unfoldable pub snapshot : PersistentGraph T → PersistentGraph T × Option String
  snapshot s =
      let (t, e) = b.save_graph s.graph s.stored in
      if s.enabled then (record s { stored = t }, e) else (s, none)

  -- The persistent graph as the graph of the processors. What it does not define itself is the
  -- embedded graph's: nothing is written for a pending edge.
  abbrev pub persistent : GraphInterface (PersistentGraph T)
  persistent = record {
    get_node = λ uid s. Queries.get_node uid s.graph;
    get_all_nodes = λ s. Queries.get_all_nodes s.graph;
    get_nodes_by_namespace_kind =
        λ namespace kind s. Queries.get_nodes_by_namespace_kind namespace kind s.graph;
    get_nodes_by_helm_release = λ release s. Queries.get_nodes_by_helm_release release s.graph;
    get_all_helm_releases = λ s. Queries.get_all_helm_releases s.graph;
    get_all_helm_charts = λ s. Queries.get_all_helm_charts s.graph;
    add_node = add_node;
    remove_node = remove_node;
    add_edge = add_edge;
    remove_edge = remove_edge;
    add_pending_edge =
        λ from ref type s. record s { graph = Pending.add_pending_edge from ref type s.graph };
    add_reverse_pending_edge =
        λ to ref type s. record s { graph = Pending.add_reverse_pending_edge to ref type s.graph };
  }
