-- ===== src/Persistence/Events.antt =====
-- The processors on a persistent graph of pkg/graph/persistent.go.
use astrolabe_server.Common.{◌≡◌, refl, arith, Bool-cases, inl, inr, String, subst, sym}
use astrolabe_server.Graph.Types.{Edge}
use astrolabe_server.Graph.Store
use astrolabe_server.Graph.Steps.{
  IsConsistent, Step-IsConsistent, add_node_step, remove_node_step, add_edge_step, add_pending_step,
  add_reverse_step,
}
use astrolabe_server.Processors.Keeps.{Keeps}
use astrolabe_server.Processors.Objects.{Object, EventType}
use astrolabe_server.Processors.Registry.{process}
use astrolabe_server.Processors.Runs.{process-Keeps}
use astrolabe_server.Persistence.Backend.{
  Backend, WriteOp, save_node_op, delete_node_op, save_edge_op,
}
use astrolabe_server.Persistence.Writer
use astrolabe_server.Persistence.Writer.{
  PersistentGraph, capacity, batch_size, persist, receive, flush, close, persistent,
}
use astrolabe_server.Persistence.Bounds.{changed}

module _ {T : Type 0} (b : Backend T) where
  persist-graph : (op : WriteOp) (s : PersistentGraph T) → (persist b op s).graph ≡ s.graph
  unfolding persist
  persist-graph op s = ground arith

  add_edge-graph :
      (e : Edge) (s : PersistentGraph T)
      → (Writer.add_edge b e s).0.graph ≡ (Store.add_edge e s.graph).0
  unfolding Writer.add_edge
  add_edge-graph e s = elim (Bool-cases (Store.add_edge e s.graph).1) [
    | inl yes' ↦ rw yes' (persist-graph (save_edge_op e) (changed (λ g. (Store.add_edge e g).0) s))
    | inr no' ↦ rw no' refl
  ]

  persistent-Keeps : Keeps (persistent b) (λ s. IsConsistent s.graph)
  unfolding Writer.add_node Writer.remove_node
  persistent-Keeps = record {
    add_node = λ n s fresh c.
        subst IsConsistent
          (sym (persist-graph (save_node_op n.fields) (changed (Store.add_node n) s)))
          (Step-IsConsistent (add_node_step n fresh) c);
    remove_node = λ uid s c.
        subst IsConsistent
          (sym (persist-graph (delete_node_op uid) (changed (Store.remove_node uid) s)))
          (Step-IsConsistent (remove_node_step uid) c);
    add_edge = λ e s c.
        subst IsConsistent (sym (add_edge-graph e s)) (Step-IsConsistent (add_edge_step e) c);
    add_pending_edge = λ from ref type s c. Step-IsConsistent (add_pending_step from ref type) c;
    add_reverse_pending_edge =
        λ to ref type s c. Step-IsConsistent (add_reverse_step to ref type) c;
  }

  -- On a persistent graph over any backend, an event keeps the graph in memory consistent, whether
  -- writes are enabled, asynchronous or dropped.
  pub process-IsConsistent :
      (obj : Object) (kind : String) (event : EventType) (s : PersistentGraph T)
      → IsConsistent s.graph
      → IsConsistent (process (persistent b) obj kind event s).0.graph
  process-IsConsistent = process-Keeps (persistent b) (λ s. IsConsistent s.graph) persistent-Keeps
