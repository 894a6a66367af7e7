-- ===== src/Api/Handlers.antt =====
-- pkg/api/server.go: the nodes that the handlers of /resources and /graph answer with.
use astrolabe_server.Common.{
  String, string_key, ◌||◌, Option, none, some, List, [], ◌∷◌, map, if◌then◌else◌, ◌==◌,
}
use astrolabe_server.Common.Dict.{get}
use astrolabe_server.Graph.Types.{Node, NodeData, Graph}
use astrolabe_server.Graph.Queries.{get_all_nodes, get_nodes_by_helm_release}
use astrolabe_server.Api.Filtering.{expand_related_nodes}
use astrolabe_server.Api.Volumes.{include_persistent_volumes}

-- The object that an index points at: its version of the fields, with the edge maps that it shares
-- with the node in the main map.
unfoldable pub indexed_node : Graph → NodeData → Node
indexed_node g n = elim (get n.uid g.nodes) [
  | none ↦ record { fields = n; outgoing_edges = []; incoming_edges = [] }
  | some live ↦ record live { fields = n }
]

unfoldable pub release_objects : String → Graph → List Node
unfolding get_nodes_by_helm_release indexed_node
release_objects release g = map (indexed_node g) (get_nodes_by_helm_release release g)

-- The filter by namespace, which keeps the cluster-scoped nodes too.
unfoldable pub in_namespace : String → List Node → List Node
in_namespace namespace [] = []
in_namespace namespace (n ∷ nodes) =
    let rest = in_namespace namespace nodes in
    if n.namespace == namespace || n.namespace == "" then n ∷ rest else rest

abbrev pub filter_namespace : String → List Node → List Node
filter_namespace namespace nodes = if namespace == "" then nodes else in_namespace namespace nodes

-- The nodes of `handleResources`.
unfoldable pub resources_nodes : Graph → String → String → List Node
unfolding release_objects get_all_nodes in_namespace include_persistent_volumes
resources_nodes g release namespace =
    if release == ""
    then include_persistent_volumes g (filter_namespace namespace (get_all_nodes g)) ""
    else include_persistent_volumes g (filter_namespace namespace (release_objects release g))
        release

-- The nodes of `handleGraph`: `none` if the search does not end.
unfoldable pub graph_nodes : Graph → String → String → Option (List Node)
unfolding release_objects get_all_nodes in_namespace include_persistent_volumes expand_related_nodes
graph_nodes g release namespace =
    if release == ""
    then some (include_persistent_volumes g (filter_namespace namespace (get_all_nodes g)) "")
    else elim (expand_related_nodes g (filter_namespace namespace (release_objects release g))
        namespace release) [
          | none ↦ none
          | some found ↦ some (include_persistent_volumes g found release)
        ]
