-- ===== src/Persistence/Backend.antt =====
-- `PersistenceBackend` of pkg/graph/persistent.go, over the type of what a backend holds, with the
-- operations that the persistent graph calls, and the operations that it writes.
use astrolabe_server.Common.{String, Option, List, [], ◌∷◌, ◌⊎◌}
use astrolabe_server.Graph.Types.{Uid, NodeData, Edge, Graph}

-- An error is its text. A backend reads only the fields of a node, which no one changes after the
-- node is added.
pub record Backend (T : Type 0) : Type 0 where
  pub save_node : NodeData → T → T × Option String
  pub delete_node : Uid → T → T × Option String
  pub save_edge : Edge → T → T × Option String
  pub delete_edge : Uid → Uid → T → T × Option String
  pub load_graph : T → String ⊎ Graph
  pub save_graph : Graph → T → T × Option String

pub data WriteOp : Type 0 where
  save_node_op : NodeData → WriteOp
  delete_node_op : Uid → WriteOp
  save_edge_op : Edge → WriteOp
  delete_edge_op : (from to : Uid) → WriteOp

module _ {T : Type 0} (b : Backend T) where
  -- `executeWriteOp`: an error is logged, and the writes go on.
  unfoldable pub execute_write_op : WriteOp → T → T
  execute_write_op (save_node_op n) t = (b.save_node n t).0
  execute_write_op (delete_node_op uid) t = (b.delete_node uid t).0
  execute_write_op (save_edge_op e) t = (b.save_edge e t).0
  execute_write_op (delete_edge_op from to) t = (b.delete_edge from to t).0

  -- `executeBatch`
  unfoldable pub execute_batch : List WriteOp → T → T
  unfolding execute_write_op
  execute_batch [] t = t
  execute_batch (op ∷ ops) t = execute_batch ops (execute_write_op op t)
