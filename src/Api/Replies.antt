-- ===== src/Api/Replies.antt =====
-- The handlers of pkg/api/server.go: what each answers with, as a function of the graph and the query,
-- before it is encoded as JSON.
use astrolabe_server.Common.{
  ℕ, String, string_key, Bool, true, false, not, ◌&&◌, ◌||◌, length, Option, none, some, List, [],
  ◌∷◌, map, if◌then◌else◌, ◌==◌,
}
use astrolabe_server.Common.Dict.{Dict, put, get_or}
use astrolabe_server.Common.Int.{ℤ}
use astrolabe_server.Graph.Types.{Node, NodeData, Graph}
use astrolabe_server.Graph.Queries.{
  get_all_nodes, get_nodes_by_helm_release, get_all_helm_releases, get_all_helm_charts,
}
use astrolabe_server.Api.Responses.{
  Resource, GraphResponse, nodes_to_resources, build_graph_response,
}
use astrolabe_server.Api.Handlers.{resources_nodes, graph_nodes}

-- `handleHealth`: the number under "nodes".
unfoldable pub handle_health : Graph → ℕ
unfolding get_all_nodes
handle_health g = length (get_all_nodes g)

-- The loop that fills in the release.
unfoldable pub fill_release : String → List Resource → List Resource
fill_release release [] = []
fill_release release (r ∷ resources) =
    (if r.release == "" then record r { release = release } else r) ∷ fill_release release resources

-- `handleResources`
unfoldable pub handle_resources : (ℕ → ℤ) → (ℕ → String) → Graph → String → String → List Resource
unfolding resources_nodes nodes_to_resources fill_release
handle_resources since rfc3339 g release namespace =
    let resources = nodes_to_resources since rfc3339 g (resources_nodes g release namespace) in
    if release == "" then resources else fill_release release resources

-- The inner loop of `handleReleases`, and the outer one.
unfoldable pub any_in_namespace : String → List NodeData → Bool
any_in_namespace namespace [] = false
any_in_namespace namespace (n ∷ nodes) =
    n.namespace == namespace || any_in_namespace namespace nodes

unfoldable pub releases_in : Graph → String → List String → List String
unfolding any_in_namespace get_nodes_by_helm_release
releases_in g namespace [] = []
releases_in g namespace (release ∷ releases) =
    let rest = releases_in g namespace releases in
    if any_in_namespace namespace (get_nodes_by_helm_release release g)
    then release ∷ rest
    else rest

-- `handleReleases`
unfoldable pub handle_releases : Graph → String → List String
unfolding releases_in get_all_helm_releases
handle_releases g namespace =
    let releases = get_all_helm_releases g in
    if namespace == "" then releases else releases_in g namespace releases

-- The loop of `handleCharts`, with `chartSet`.
unfoldable pub charts_in : String → List Node → Dict String Bool → List String
charts_in namespace [] charts = []
charts_in namespace (n ∷ nodes) charts =
    elim (n.namespace == namespace
      && not (n.helm_chart == "")
      && not (get_or n.helm_chart false charts)) [
        | true ↦ n.helm_chart ∷ charts_in namespace nodes (put n.helm_chart true charts)
        | false ↦ charts_in namespace nodes charts
      ]

-- `handleCharts`
unfoldable pub handle_charts : Graph → String → List String
unfolding charts_in get_all_helm_charts get_all_nodes
handle_charts g namespace =
    if namespace == "" then get_all_helm_charts g else charts_in namespace (get_all_nodes g) []

-- The set of `handleNamespaces`, and its keys.
unfoldable pub namespace_set : List Node → Dict String Bool → Dict String Bool
namespace_set [] namespaces = namespaces
namespace_set (n ∷ nodes) namespaces =
    namespace_set nodes (if n.namespace == "" then namespaces else put n.namespace true namespaces)

unfoldable pub handle_namespaces : Graph → List String
unfolding namespace_set get_all_nodes
handle_namespaces g = map (λ entry. entry.0) (namespace_set (get_all_nodes g) [])

-- `handleGraph`: `none` if the search does not end.
unfoldable pub handle_graph : Graph → String → String → Option GraphResponse
unfolding graph_nodes build_graph_response
handle_graph g release namespace = elim (graph_nodes g release namespace) [
  | none ↦ none
  | some nodes ↦ some (build_graph_response nodes)
]
