-- ===== src/Graph/Steps.antt =====
-- The graph of pkg/graph/types.go under its operations: a step is one call, under the write lock,
-- by whichever goroutine holds it, and a graph is reachable if some sequence of calls leads to it.
use astrolabe_server.Common.{string_key, refl}
use astrolabe_server.Common.Dict.{get}
use astrolabe_server.Graph.Types.{Uid, Node, Graph, Edge, EdgeType, RefKey}
use astrolabe_server.Graph.Pending.{add_pending_edge, add_reverse_pending_edge}
use astrolabe_server.Graph.Store.{new_graph, add_node, remove_node, add_edge, remove_edge}
use astrolabe_server.Graph.Linked.{IsLinked}
use astrolabe_server.Graph.Additions.{IsFresh, add_node-IsLinked}
use astrolabe_server.Graph.Edges.{remove_node-IsLinked, add_edge-IsLinked, remove_edge-IsLinked}
use astrolabe_server.Graph.Indexed.{
  IsIndexed, add_node-IsIndexed, remove_node-IsIndexed, add_edge-IsIndexed, remove_edge-IsIndexed,
}

pub data Step (g : Graph) : Graph → Type 0 where
  add_node_step : (node : Node) → IsFresh node → Step g (add_node node g)
  remove_node_step : (uid : Uid) → Step g (remove_node uid g)
  add_edge_step : (e : Edge) → Step g (add_edge e g).0
  remove_edge_step : (from to : Uid) → Step g (remove_edge from to g)
  add_pending_step :
      (from : Uid) (ref : RefKey) (type : EdgeType) → Step g (add_pending_edge from ref type g)
  add_reverse_step :
      (to : Uid) (ref : RefKey) (type : EdgeType) → Step g (add_reverse_pending_edge to ref type g)

pub data Reach (g : Graph) : Graph → Type 0 where
  here : Reach g g
  next : {h k : Graph} → Reach g h → Step h k → Reach g k

pub record IsConsistent (g : Graph) : Type 0 where
  pub linked : IsLinked g.nodes
  pub indexed : IsIndexed g

pub new_graph-IsConsistent : IsConsistent new_graph
unfolding get
new_graph-IsConsistent = record {
  linked = record { mirrored = λ a b. refl; labelled = λ a b e h. cc; keyed = λ a n h. cc };
  indexed = record { by_kind = λ k j u. refl; by_release = λ r u. refl };
}

pub Step-IsConsistent : {g h : Graph} → Step g h → IsConsistent g → IsConsistent h
unfolding add_pending_edge add_reverse_pending_edge
Step-IsConsistent {g} (add_node_step node fresh) c = record {
  linked = add_node-IsLinked node g fresh c.linked;
  indexed = add_node-IsIndexed node g c.linked c.indexed;
}
Step-IsConsistent {g} (remove_node_step uid) c = record {
  linked = remove_node-IsLinked uid g c.linked;
  indexed = remove_node-IsIndexed uid g c.linked c.indexed;
}
Step-IsConsistent {g} (add_edge_step e) c = record {
  linked = add_edge-IsLinked e g c.linked;
  indexed = add_edge-IsIndexed e g c.indexed;
}
Step-IsConsistent {g} (remove_edge_step from to) c = record {
  linked = remove_edge-IsLinked from to g c.linked;
  indexed = remove_edge-IsIndexed from to g c.indexed;
}
Step-IsConsistent {g} (add_pending_step from ref type) c = record {
  linked = c.linked;
  indexed = record { by_kind = c.indexed.by_kind; by_release = c.indexed.by_release };
}
Step-IsConsistent {g} (add_reverse_step to ref type) c = record {
  linked = c.linked;
  indexed = record { by_kind = c.indexed.by_kind; by_release = c.indexed.by_release };
}

-- Whatever calls of the six operations are made, each new node without edges, a consistent graph
-- stays consistent.
pub Reach-IsConsistent : {g h : Graph} → Reach g h → IsConsistent g → IsConsistent h
Reach-IsConsistent here c = c
Reach-IsConsistent (next r s) c = Step-IsConsistent s (Reach-IsConsistent r c)
