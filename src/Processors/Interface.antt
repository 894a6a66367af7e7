-- ===== src/Processors/Interface.antt =====
-- `GraphInterface` of pkg/graph/types.go: what the processors and the API server use of a graph,
-- over any type of state, and the in-memory graph as one.
use astrolabe_server.Common.{String, Bool, Option, List}
use astrolabe_server.Graph.Types.{Uid, Node, NodeData, Edge, EdgeType, RefKey, Graph}
use astrolabe_server.Graph.Store
use astrolabe_server.Graph.Queries
use astrolabe_server.Graph.Pending

pub record GraphInterface (S : Type 0) : Type 0 where
  pub get_node : Uid → S → Option Node
  pub get_all_nodes : S → List Node
  pub get_nodes_by_namespace_kind : String → String → S → List Node
  pub get_nodes_by_helm_release : String → S → List NodeData
  pub get_all_helm_releases : S → List String
  pub get_all_helm_charts : S → List String
  pub add_node : Node → S → S
  pub remove_node : Uid → S → S
  pub add_edge : Edge → S → S × Bool
  pub remove_edge : Uid → Uid → S → S
  pub add_pending_edge : Uid → RefKey → EdgeType → S → S
  pub add_reverse_pending_edge : Uid → RefKey → EdgeType → S → S

abbrev pub memory : GraphInterface Graph
memory = record {
  get_node = Queries.get_node;
  get_all_nodes = Queries.get_all_nodes;
  get_nodes_by_namespace_kind = Queries.get_nodes_by_namespace_kind;
  get_nodes_by_helm_release = Queries.get_nodes_by_helm_release;
  get_all_helm_releases = Queries.get_all_helm_releases;
  get_all_helm_charts = Queries.get_all_helm_charts;
  add_node = Store.add_node;
  remove_node = Store.remove_node;
  add_edge = Store.add_edge;
  remove_edge = Store.remove_edge;
  add_pending_edge = Pending.add_pending_edge;
  add_reverse_pending_edge = Pending.add_reverse_pending_edge;
}
