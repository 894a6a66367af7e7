-- ===== src/Tests.antt =====
-- The concrete data of the tests: a pod that uses a config map, the events of the two, and the graphs
-- that they make. The child modules run the definitions on it and apply the theorems to it.
mod Api
mod Graphs
mod Processing
mod Persistence
mod Globs
mod Storage
use astrolabe_server.Common.{
  String, str_dec, string_key, ℕ_discrete, none, some, List, [], ◌∷◌, refl,
}
use astrolabe_server.Common.Dict.{get, put, delete}
use astrolabe_server.Graph.Types.{
  Uid, Node, Graph, RefKey-discrete, GroupVersionKind-discrete, edge_config_map_ref,
}
use astrolabe_server.Graph.Indexes.{ns_key}
use astrolabe_server.Graph.Pending.{
  new_edge, ref_matches, add_pending_edge, add_reverse_pending_edge,
}
use astrolabe_server.Graph.Store.{
  new_graph, add_node, remove_node, add_edge, remove_edge, needs_reindex,
}
use astrolabe_server.Graph.Queries.{
  get_nodes_by_namespace_kind, get_nodes_by_helm_release, get_all_helm_releases,
}
use astrolabe_server.Graph.Additions.{IsFresh}
use astrolabe_server.Graph.Steps.{
  Reach, here, next, add_node_step, add_edge_step, IsConsistent, new_graph-IsConsistent,
  Step-IsConsistent,
}
use astrolabe_server.Processors.Interface.{memory}
use astrolabe_server.Processors.Objects.{Object, ObjectMeta, event_add}
use astrolabe_server.Processors.Base.{
  new_node_from_object, create_edge_or_pending, create_reverse_edge_or_pending,
}
use astrolabe_server.Processors.Core.{process_pod, process_config_map}
use astrolabe_server.Processors.Registry.{processors, process}
use astrolabe_server.Processors.Runs.{Event}

program : Unit {0}
unfolding str_dec ℕ_discrete RefKey-discrete GroupVersionKind-discrete get put delete ns_key
    ref_matches add_pending_edge add_reverse_pending_edge add_node remove_node add_edge remove_edge
    needs_reindex get_nodes_by_namespace_kind get_nodes_by_helm_release get_all_helm_releases
    create_edge_or_pending create_reverse_edge_or_pending new_node_from_object process processors
    process_pod process_config_map
program = tt

abbrev meta : Uid → String → ObjectMeta
meta uid name = record {
  uid = uid;
  name = name;
  namespace = "prod";
  resource_version = "1";
  labels = [];
  annotations = ("meta.helm.sh/release-name", "shop") ∷ [];
  creation_timestamp = 0;
  owner_references = [];
}

abbrev pod_object : Object
pod_object = Object.pod (record {
  meta = meta "p" "web";
  spec = record {
    node_name = "n1";
    containers = [];
    volumes =
        record { persistent_volume_claim = none; config_map = some "settings"; secret = none } ∷ [];
    service_account_name = "";
  };
  phase = "Running";
  container_statuses = [];
})

abbrev config_map_object : Object
config_map_object = Object.config_map (meta "c" "settings")

-- The pod comes before the config map that it uses.
abbrev events : List Event
events = (pod_object, "Pod", event_add) ∷ (config_map_object, "ConfigMap", event_add) ∷ []

abbrev web_node : Node
unfolding new_node_from_object
web_node = new_node_from_object (meta "p" "web") "Pod" "v1"

abbrev settings_node : Node
unfolding new_node_from_object
settings_node = new_node_from_object (meta "c" "settings") "ConfigMap" "v1"

abbrev pod_graph : Graph
pod_graph = add_node web_node new_graph

abbrev both_graph : Graph
both_graph = add_node settings_node pod_graph

IsFresh-pod : IsFresh web_node
unfolding program
IsFresh-pod = record { no_outgoing = refl; no_incoming = refl }

IsFresh-settings : IsFresh settings_node
unfolding program
IsFresh-settings = record { no_outgoing = refl; no_incoming = refl }

pod_graph-IsConsistent : IsConsistent pod_graph
pod_graph-IsConsistent =
    Step-IsConsistent (add_node_step web_node IsFresh-pod) new_graph-IsConsistent

both_graph-IsConsistent : IsConsistent both_graph
both_graph-IsConsistent =
    Step-IsConsistent (add_node_step settings_node IsFresh-settings) pod_graph-IsConsistent

abbrev pending_graph : Graph
pending_graph =
    create_edge_or_pending memory "p" "prod" "ConfigMap" "settings" edge_config_map_ref pod_graph

-- The pod with an edge to its config map.
abbrev linked_graph : Graph
linked_graph = (add_edge (new_edge edge_config_map_ref "p" "c") both_graph).0

linked_graph-Reach : Reach new_graph linked_graph
linked_graph-Reach =
    next
      (next (next here (add_node_step web_node IsFresh-pod))
        (add_node_step settings_node IsFresh-settings))
      (add_edge_step (new_edge edge_config_map_ref "p" "c"))

linked_graph-IsConsistent : IsConsistent linked_graph
linked_graph-IsConsistent =
    Step-IsConsistent (add_edge_step (new_edge edge_config_map_ref "p" "c")) both_graph-IsConsistent
