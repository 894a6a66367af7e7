-- ===== src/Tests/Api.antt =====
-- What pkg/api computes from small graphs, and its theorems there.
use astrolabe_server.Common.{
  ℕ, ◌-◌, map, ◌↔◌, String, string_key, some, List, [], ◌∷◌, ◌≡◌, ◌≢◌, refl, true,
}
use astrolabe_server.Graph.Types.{Node, Edge, ref_key, edge_config_map_ref}
use astrolabe_server.Graph.Pending.{new_edge}
use astrolabe_server.Graph.Store.{new_graph, add_node}
use astrolabe_server.Graph.Queries.{get_all_nodes}
use astrolabe_server.Processors.Base.{new_node_from_object, set_metadata, no_metadata}
use astrolabe_server.Api.Filtering.{expand_related_nodes}
use astrolabe_server.Api.Expansion.{IsExpansion, expand_related_nodes-IsExpansion}
use astrolabe_server.Api.Filtering.{has}
use astrolabe_server.Api.Related.{uids}
use astrolabe_server.Api.Volumes.{include_persistent_volumes}
use astrolabe_server.Api.Inclusion.{IsInclusion, include_persistent_volumes-IsInclusion}
use astrolabe_server.Api.Handlers.{graph_nodes}
use astrolabe_server.Api.Answers.{graph_nodes_complete}
use astrolabe_server.Common.Int.{ℤ, pos, negsuc}
use astrolabe_server.Common.Format.{decimal}
use astrolabe_server.Graph.Queries.{get_node}
use astrolabe_server.Api.Related.{In}
use astrolabe_server.Api.Responses.{
  format_age, resource_of, nodes_to_resources, EdgeResponse, GraphResponse,
}
use astrolabe_server.Api.Cached.{nodes_to_resources_direct}
use astrolabe_server.Api.Replies.{handle_graph, handle_charts}
use astrolabe_server.Api.Shown.{IsShown, handle_graph_exact}
use astrolabe_server.Api.Charts.{HasChart, handle_charts_exact}
use astrolabe_server.Tests.{
  meta, web_node, settings_node, linked_graph, linked_graph-Reach, linked_graph-IsConsistent,
  program,
}

abbrev web_edge : Edge
web_edge = new_edge edge_config_map_ref "p" "c"

abbrev linked_web : Node
linked_web = record web_node { outgoing_edges = ("c", web_edge) ∷ [] }

abbrev linked_settings : Node
linked_settings = record settings_node { incoming_edges = ("p", web_edge) ∷ [] }

-- The config map of the release, found from its pod.
expand_links :
    expand_related_nodes linked_graph (linked_web ∷ []) "prod" "shop"
    ≡ some (linked_web ∷ linked_settings ∷ [])
unfolding program expand_related_nodes
expand_links = refl

expand_related_nodes-IsExpansion_example :
    (found : List Node) × (expand_related_nodes linked_graph (linked_web ∷ []) "prod" "shop"
      ≡ some found)
    × IsExpansion linked_graph "prod" "shop" (linked_web ∷ []) found
expand_related_nodes-IsExpansion_example =
    expand_related_nodes-IsExpansion linked_graph (linked_web ∷ []) "prod" "shop"

-- A claim whose volume has no edge yet, and the volume.
abbrev claim_node : Node
unfolding new_node_from_object
claim_node =
    set_metadata (some (record no_metadata { volume_name = "disk" }))
      (new_node_from_object (meta "k" "data") "PersistentVolumeClaim" "v1")

abbrev volume_node : Node
unfolding new_node_from_object
volume_node = new_node_from_object (meta "v" "disk") "PersistentVolume" "v1"

include_by_name :
    include_persistent_volumes (add_node volume_node new_graph) (claim_node ∷ []) "shop"
    ≡ claim_node ∷ volume_node ∷ []
unfolding program include_persistent_volumes get_all_nodes
include_by_name = refl

include_persistent_volumes-IsInclusion_example :
    IsInclusion
      (add_node volume_node new_graph)
      (claim_node ∷ [])
      "shop"
      (include_persistent_volumes (add_node volume_node new_graph) (claim_node ∷ []) "shop")
include_persistent_volumes-IsInclusion_example =
    include_persistent_volumes-IsInclusion (add_node volume_node new_graph) (claim_node ∷ []) "shop"

shop_differs : ◌≢◌ {A = String} "shop" ""
shop_differs = cc

graph_nodes_complete_example :
    (found : List Node) × (graph_nodes linked_graph "shop" "" ≡ some found)
    × (has "p" (uids found) ≡ true)
unfolding program
graph_nodes_complete_example =
    graph_nodes_complete linked_graph linked_graph-IsConsistent "shop" "p" linked_web refl refl
      shop_differs

abbrev since : ℕ → ℤ
since t = pos (90000000000 - t)

abbrev rfc3339 : ℕ → String
rfc3339 t = decimal t

-- The pod with its config map, through the cache.
resources_of_links :
    map (λ r. r.used_config_maps) (nodes_to_resources since rfc3339 linked_graph (linked_web ∷ []))
    ≡ ("settings" ∷ []) ∷ []
unfolding program nodes_to_resources resource_of
resources_of_links = refl

ages :
    (format_age (pos 59999999999) ≡ "59s")
    × (format_age (pos 60000000000) ≡ "1m")
    × (format_age (pos 86400000000000) ≡ "1d")
    × (format_age (negsuc 1999999999) ≡ "-2s")
    × (format_age (negsuc 5) ≡ "0s")
unfolding format_age
ages = (refl, refl, refl, refl, refl)

nodes_to_resources_direct_example :
    nodes_to_resources since rfc3339 linked_graph (linked_web ∷ linked_settings ∷ [])
    ≡ map
        (resource_of since rfc3339 (λ u. get_node u linked_graph))
        (linked_web ∷ linked_settings ∷ [])
nodes_to_resources_direct_example =
    nodes_to_resources_direct since rfc3339 linked_graph (linked_web ∷ linked_settings ∷ [])

handle_graph_exact_example :
    (answer : GraphResponse) × (handle_graph linked_graph "shop" "prod" ≡ some answer)
    × ((r : EdgeResponse) → In r answer.edges ↔ IsShown linked_graph.nodes answer r)
handle_graph_exact_example = handle_graph_exact linked_graph linked_graph-Reach "shop" "prod"

prod_differs : ◌≢◌ {A = String} "prod" ""
prod_differs = cc

handle_charts_exact_example :
    In "web" (handle_charts linked_graph "prod")
    ↔ (◌≢◌ {A = String} "web" "" × HasChart "prod" "web" (get_all_nodes linked_graph))
handle_charts_exact_example = handle_charts_exact linked_graph "prod" "web" prod_differs
