-- ===== src/Tests/Processing.antt =====
-- The theorems about pkg/processors and pkg/informers at concrete objects and events.
use astrolabe_server.Common.{string_key, none, some, [], ◌∷◌, ◌≡◌, ◌≢◌, ◌↔◌, refl, true, false}
use astrolabe_server.Common.Dict.{get}
use astrolabe_server.Common.Int.{pos, positive}
use astrolabe_server.Graph.Types.{
  Node, Graph, Edge, edge_config_map_ref, edge_service_selector, edge_pod_volume, status_ready,
  status_error,
}
use astrolabe_server.Graph.Indexes.{ns_key}
use astrolabe_server.Graph.Pending.{new_edge}
use astrolabe_server.Graph.Store.{new_graph, add_node}
use astrolabe_server.Graph.Views.{out_edge}
use astrolabe_server.Graph.Additions.{IsFresh}
use astrolabe_server.Graph.Steps.{here, IsConsistent, new_graph-IsConsistent}
use astrolabe_server.Processors.Interface.{memory}
use astrolabe_server.Processors.Objects.{
  Object, event_add, event_delete, ContainerStatus, ReplicaWorkload,
}
use astrolabe_server.Processors.Base.{
  new_node_from_object, find_node_by_namespace_kind_name, create_edge_or_pending,
  create_reverse_edge_or_pending,
}
use astrolabe_server.Processors.CoreNodes.{running_status}
use astrolabe_server.Processors.Workloads.{get_deployment_status, get_int32_value}
use astrolabe_server.Processors.Registry.{process}
use astrolabe_server.Processors.Runs.{process_all, process_all-IsConsistent}
use astrolabe_server.Processors.References.{
  find_node_sound, find_node_complete, create_edge_or_pending_found,
  create_reverse_edge_or_pending_found, create_edge_or_pending_later,
  create_reverse_edge_or_pending_later,
}
use astrolabe_server.Processors.Deletions.{deletion, process_delete_exact}
use astrolabe_server.Processors.Status.{
  get_deployment_status-exact, running_status-exact, any_blocks,
}
use astrolabe_server.Tests.{
  program, meta, pod_object, config_map_object, events, web_node, settings_node, pod_graph,
  both_graph, IsFresh-settings, both_graph-IsConsistent, pending_graph,
}

events_link :
    out_edge "p" "c" (process_all events new_graph).nodes
    ≡ some (new_edge edge_config_map_ref "p" "c")
unfolding program
events_link = refl

events_swapped_link :
    out_edge "p" "c"
      (process_all
        ((config_map_object, "ConfigMap", event_add) ∷ (pod_object, "Pod", event_add) ∷ [])
        new_graph).nodes
    ≡ some (new_edge edge_config_map_ref "p" "c")
unfolding program
events_swapped_link = refl

abbrev shop_deployment : ReplicaWorkload
shop_deployment = record {
  meta = meta "d" "shop";
  spec_replicas = some (pos 12);
  template = record { node_name = ""; containers = []; volumes = []; service_account_name = "" };
  replicas = pos 12;
  ready_replicas = pos 10;
  available_replicas = pos 10;
}

deployment_words : (get_deployment_status shop_deployment).1 ≡ "Partially ready (10/12)"
unfolding get_deployment_status
deployment_words = refl

process_all-IsConsistent_example : IsConsistent (process_all events new_graph)
process_all-IsConsistent_example = process_all-IsConsistent events new_graph new_graph-IsConsistent

create_edge_or_pending_later_example :
    (e : Edge) × (out_edge "p" "c" (add_node settings_node pending_graph).nodes ≡ some e)
unfolding program
create_edge_or_pending_later_example =
    create_edge_or_pending_later pod_graph pending_graph "prod" "ConfigMap" "settings"
      edge_config_map_ref refl "p" settings_node web_node IsFresh-settings refl refl refl refl refl
      here refl

find_node_sound_example :
    (get "c" both_graph.nodes ≡ some settings_node)
    × (ns_key "prod" ≡ ns_key "prod")
    × (settings_node.kind ≡ "ConfigMap")
    × (settings_node.name ≡ "settings")
unfolding program
find_node_sound_example =
    find_node_sound both_graph both_graph-IsConsistent "prod" "ConfigMap" "settings" settings_node
      refl

find_node_complete_example :
    find_node_by_namespace_kind_name memory "prod" "Pod" "web" both_graph ≢ none
unfolding program
find_node_complete_example =
    find_node_complete both_graph both_graph-IsConsistent "prod" "Pod" "web" "p" web_node refl refl
      refl refl

abbrev reverse_graph : Graph
reverse_graph =
    create_reverse_edge_or_pending memory "p" "prod" "Service" "shop" edge_service_selector
      pod_graph

abbrev shop_node : Node
unfolding new_node_from_object
shop_node = new_node_from_object (meta "s" "shop") "Service" "v1"

IsFresh-shop : IsFresh shop_node
unfolding program
IsFresh-shop = record { no_outgoing = refl; no_incoming = refl }

create_reverse_edge_or_pending_later_example :
    (e : Edge) × (out_edge "s" "p" (add_node shop_node reverse_graph).nodes ≡ some e)
unfolding program
create_reverse_edge_or_pending_later_example =
    create_reverse_edge_or_pending_later pod_graph reverse_graph "prod" "Service" "shop"
      edge_service_selector refl "p" shop_node web_node IsFresh-shop refl refl refl refl refl here
      refl

create_edge_or_pending_found_example :
    (out_edge "p" "c"
        (create_edge_or_pending memory "p" "prod" "ConfigMap" "settings" edge_config_map_ref
          both_graph).nodes
      ≡ some (new_edge edge_config_map_ref "p" "c"))
    × ((create_edge_or_pending memory "p" "prod" "ConfigMap" "settings" edge_config_map_ref
          both_graph).pending_edges
        ≡ both_graph.pending_edges)
unfolding program
create_edge_or_pending_found_example =
    create_edge_or_pending_found both_graph both_graph-IsConsistent "prod" "ConfigMap" "settings"
      edge_config_map_ref settings_node refl "p" web_node refl

create_reverse_edge_or_pending_found_example :
    (out_edge "c" "p"
        (create_reverse_edge_or_pending memory "p" "prod" "ConfigMap" "settings" edge_pod_volume
          both_graph).nodes
      ≡ some (new_edge edge_pod_volume "c" "p"))
    × ((create_reverse_edge_or_pending memory "p" "prod" "ConfigMap" "settings" edge_pod_volume
          both_graph).reverse_pending_edges
        ≡ both_graph.reverse_pending_edges)
unfolding program
create_reverse_edge_or_pending_found_example =
    create_reverse_edge_or_pending_found both_graph both_graph-IsConsistent "prod" "ConfigMap"
      "settings" edge_pod_volume settings_node refl "p" web_node refl

-- A deletion that the watch missed: the pod stays in the graph.
process_delete_exact_example :
    process memory (Object.tombstone "prod/web" pod_object) "Pod" event_delete pod_graph
    ≡ deletion memory "Pod" (Object.tombstone "prod/web" pod_object) pod_graph
process_delete_exact_example =
    process_delete_exact memory (Object.tombstone "prod/web" pod_object) "Pod" pod_graph

missed_deletion :
    (process memory (Object.tombstone "prod/web" pod_object) "Pod" event_delete pod_graph).0
    ≡ pod_graph
unfolding program
missed_deletion = refl

get_deployment_status-exact_example :
    (((get_deployment_status shop_deployment).0 ≡ status_ready)
      ↔ (pos 10 ≡ get_int32_value (some (pos 12)) (pos 1)))
    × (((get_deployment_status shop_deployment).0 ≡ status_error)
        ↔ ((pos 10 ≡ pos 0) × (positive (get_int32_value (some (pos 12)) (pos 1)) ≡ true)))
get_deployment_status-exact_example = get_deployment_status-exact shop_deployment

abbrev ready_container : ContainerStatus
ready_container = record { ready = true; waiting = none; terminated = none; restart_count = pos 0 }

running_status-exact_example :
    ((running_status (ready_container ∷ [])).0 ≡ status_ready)
    ↔ (any_blocks (ready_container ∷ []) ≡ false)
running_status-exact_example = running_status-exact (ready_container ∷ [])
