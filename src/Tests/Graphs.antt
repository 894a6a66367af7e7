-- ===== src/Tests/Graphs.antt =====
-- The theorems about pkg/graph/types.go at concrete graphs.
use astrolabe_server.Common.{
  String, str_dec, string_key, none, some, [], ◌∷◌, ◌≡◌, ◌≢◌, length, refl, true, false, ite,
  if◌then◌else◌, ◌++◌,
}
use astrolabe_server.Common.Dict.{Dict, get}
use astrolabe_server.Graph.Types.{ref_key, Node, Graph, Edge, edge_pod_volume, status_error}
use astrolabe_server.Graph.Indexes.{ns_key}
use astrolabe_server.Graph.Pending.{new_edge, ref_matches}
use astrolabe_server.Graph.Store.{
  new_graph, add_node, remove_node, add_edge, remove_edge, labels_equal,
}
use astrolabe_server.Graph.Queries.{get_nodes_by_namespace_kind, get_nodes_by_helm_release}
use astrolabe_server.Graph.Views.{fields_of, out_edge, in_edge, if_live}
use astrolabe_server.Graph.Additions.{resolved, edges-add_node_new, fields_of-add_node}
use astrolabe_server.Graph.Edges.{edges-remove_node, edges-remove_edge, edges-add_edge}
use astrolabe_server.Graph.Matching.{last_edge, overlay}
use astrolabe_server.Graph.Buckets.{count_uid}
use astrolabe_server.Graph.Indexed.{at_kind, at_release}
use astrolabe_server.Graph.Steps.{here, next, remove_node_step, Reach-IsConsistent, IsConsistent}
use astrolabe_server.Graph.Patience.{get-pending_edges-add_node}
use astrolabe_server.Graph.Lookup.{
  All, uids_of, IsLive, get_nodes_by_namespace_kind-exact, get_nodes_by_helm_release-exact,
  get_nodes_by_helm_release_stale,
}
use astrolabe_server.Graph.Labels.{labels_equal_sound, by_label_stale}
use astrolabe_server.Processors.Base.{ref_key_of}
use astrolabe_server.Tests.{
  program, web_node, settings_node, both_graph, IsFresh-settings, both_graph-IsConsistent,
  pending_graph, linked_graph, linked_graph-IsConsistent,
}

get_nodes_by_namespace_kind-exact_example :
    All (IsLive both_graph) (get_nodes_by_namespace_kind "prod" "Pod" both_graph)
    × (count_uid "p" (uids_of (get_nodes_by_namespace_kind "prod" "Pod" both_graph))
        ≡ at_kind (ns_key "prod") "Pod" (fields_of "p" both_graph.nodes))
get_nodes_by_namespace_kind-exact_example =
    get_nodes_by_namespace_kind-exact both_graph both_graph-IsConsistent "prod" "Pod" "p"

get_nodes_by_helm_release-exact_example :
    count_uid "p" (get_nodes_by_helm_release "shop" both_graph)
    ≡ at_release "shop" (fields_of "p" both_graph.nodes)
get_nodes_by_helm_release-exact_example =
    get_nodes_by_helm_release-exact both_graph both_graph-IsConsistent "shop" "p"

Reach-IsConsistent_example : IsConsistent (remove_node "c" linked_graph)
Reach-IsConsistent_example =
    Reach-IsConsistent (next here (remove_node_step "c")) linked_graph-IsConsistent

edges-remove_node_example :
    (out_edge "p" "c" (remove_node "c" linked_graph).nodes
      ≡ ite
          (str_dec "c" "p")
          none
          (ite (str_dec "c" "c") none (out_edge "p" "c" linked_graph.nodes)))
    × (in_edge "p" "c" (remove_node "c" linked_graph).nodes
        ≡ ite
            (str_dec "c" "p")
            none
            (ite (str_dec "c" "c") none (in_edge "p" "c" linked_graph.nodes)))
edges-remove_node_example =
    edges-remove_node "c" linked_graph linked_graph-IsConsistent.linked "p" "c"

edges-remove_edge_example :
    (out_edge "p" "c" (remove_edge "p" "c" linked_graph).nodes
      ≡ ite
          (str_dec "p" "p")
          (ite (str_dec "c" "c") none (out_edge "p" "c" linked_graph.nodes))
          (out_edge "p" "c" linked_graph.nodes))
    × (in_edge "p" "c" (remove_edge "p" "c" linked_graph).nodes
        ≡ ite
            (str_dec "p" "p")
            (ite (str_dec "c" "c") none (in_edge "p" "c" linked_graph.nodes))
            (in_edge "p" "c" linked_graph.nodes))
edges-remove_edge_example = edges-remove_edge "p" "c" linked_graph "p" "c"

abbrev volume_edge : Edge
volume_edge = new_edge edge_pod_volume "p" "c"

edges-add_edge_example :
    (out_edge "p" "c" (add_edge volume_edge linked_graph).0.nodes
      ≡ overlay "p" "c"
          (last_edge "p" "c" (volume_edge ∷ []))
          linked_graph.nodes
          (out_edge "p" "c" linked_graph.nodes))
    × (in_edge "p" "c" (add_edge volume_edge linked_graph).0.nodes
        ≡ overlay "p" "c"
            (last_edge "p" "c" (volume_edge ∷ []))
            linked_graph.nodes
            (in_edge "p" "c" linked_graph.nodes))
    × ((add_edge volume_edge linked_graph).1
        ≡ if_live "p" linked_graph.nodes (if_live "c" linked_graph.nodes true false) false)
edges-add_edge_example = edges-add_edge volume_edge linked_graph "p" "c"

edges-add_node_new_example :
    (out_edge "p" "c" (add_node settings_node pending_graph).nodes
      ≡ resolved "p" "c" settings_node.fields pending_graph
          (add_node settings_node pending_graph).nodes
          (out_edge "p" "c" pending_graph.nodes))
    × (in_edge "p" "c" (add_node settings_node pending_graph).nodes
        ≡ resolved "p" "c" settings_node.fields pending_graph
            (add_node settings_node pending_graph).nodes
            (in_edge "p" "c" pending_graph.nodes))
unfolding program
edges-add_node_new_example =
    edges-add_node_new settings_node pending_graph refl IsFresh-settings "p" "c"

fields_of-add_node_example :
    fields_of "p" (add_node settings_node pending_graph).nodes
    ≡ ite
        (str_dec settings_node.uid "p")
        (some settings_node.fields)
        (fields_of "p" pending_graph.nodes)
fields_of-add_node_example = fields_of-add_node settings_node pending_graph "p"

get-pending_edges-add_node_example :
    (get
        (ref_key_of "prod" "ConfigMap" "settings")
        (add_node settings_node pending_graph).pending_edges
      ≡ if_live settings_node.uid pending_graph.nodes
          (get (ref_key_of "prod" "ConfigMap" "settings") pending_graph.pending_edges)
          (if ref_matches (ref_key_of "prod" "ConfigMap" "settings") settings_node.fields
            then none
            else get (ref_key_of "prod" "ConfigMap" "settings") pending_graph.pending_edges))
    × (get
          (ref_key_of "prod" "ConfigMap" "settings")
          (add_node settings_node pending_graph).reverse_pending_edges
        ≡ if_live settings_node.uid pending_graph.nodes
            (get (ref_key_of "prod" "ConfigMap" "settings") pending_graph.reverse_pending_edges)
            (if ref_matches (ref_key_of "prod" "ConfigMap" "settings") settings_node.fields
              then none
              else get
                  (ref_key_of "prod" "ConfigMap" "settings")
                  pending_graph.reverse_pending_edges))
get-pending_edges-add_node_example =
    get-pending_edges-add_node settings_node pending_graph
      (ref_key_of "prod" "ConfigMap" "settings")

-- The pod after its status has changed.
abbrev failed_node : Node
failed_node = record web_node { fields = record web_node.fields { status = status_error } }

shop_named : ◌≢◌ {A = String} "shop" ""
shop_named = cc

get_nodes_by_helm_release_stale_example :
    (fields_of "p" (add_node failed_node (add_node web_node new_graph)).nodes
      ≡ some failed_node.fields)
    × (get_nodes_by_helm_release "shop" (add_node failed_node (add_node web_node new_graph))
        ≡ get_nodes_by_helm_release "shop" new_graph ++ (web_node.fields ∷ []))
unfolding program
get_nodes_by_helm_release_stale_example =
    get_nodes_by_helm_release_stale web_node failed_node new_graph refl shop_named refl refl refl
      refl refl

differ : ◌≢◌ {A = String} "web" ""
differ = cc

abbrev web_label : Dict String String
web_label = ("app", "web") ∷ []

labels_equal_sound_example :
    (get "app" web_label ≡ some "web") × (length web_label ≡ length web_label)
unfolding program
labels_equal_sound_example = labels_equal_sound web_label web_label "app" "web" refl refl differ

-- A node with one label, of no value, and the same node with another such label.
abbrev canary_node : Node
canary_node = record web_node { fields = record web_node.fields { labels = ("canary", "") ∷ [] } }

abbrev stable_node : Node
stable_node = record web_node { fields = record web_node.fields { labels = ("stable", "") ∷ [] } }

abbrev canary_graph : Graph
canary_graph = add_node canary_node new_graph

by_label_stale_example :
    (labels_equal canary_node.labels stable_node.labels ≡ true)
    × ((add_node stable_node canary_graph).by_label ≡ canary_graph.by_label)
unfolding program
by_label_stale_example =
    by_label_stale "canary" "stable" stable_node canary_node canary_graph refl refl refl refl refl
      refl
