-- ===== src/Graph/Queries.antt =====
-- pkg/graph/types.go: the operations of `Graph` that read it.
use astrolabe_server.Common.{
  String, str_dec, string_key, Bool, true, Option, none, some, List, [], ◌∷◌, if◌then◌else◌, ◌==◌,
  ite, map,
}
use astrolabe_server.Common.Dict.{Dict, get, put}
use astrolabe_server.Graph.Types.{Uid, Node, NodeData, Graph}
use astrolabe_server.Graph.Indexes.{ns_key, intersect_nodes}

-- `GetNode`
abbrev pub get_node : Uid → Graph → Option Node
get_node uid g = get uid g.nodes

-- The loop of `GetNodesByNamespaceKind`: an indexed node is looked up again in the main map.
unfoldable pub live_nodes : List NodeData → Dict Uid Node → List Node
live_nodes [] nodes = []
live_nodes (n ∷ ns) nodes = elim (get n.uid nodes) [
  | none ↦ live_nodes ns nodes
  | some actual ↦ actual ∷ live_nodes ns nodes
]

-- `GetNodesByNamespaceKind`; `nil` and the empty slice are one list.
unfoldable pub get_nodes_by_namespace_kind : String → String → Graph → List Node
unfolding ns_key live_nodes
get_nodes_by_namespace_kind namespace kind g = elim (get (ns_key namespace) g.by_namespace_kind) [
  | none ↦ []
  | some kinds ↦ elim (get kind kinds) [ none ↦ [] | some ns ↦ live_nodes ns g.nodes ]
]

-- `GetNodesByHelmRelease`: the nodes as the index points at them.
unfoldable pub get_nodes_by_helm_release : String → Graph → List NodeData
get_nodes_by_helm_release release g = elim (get release g.by_helm_release) [
  | none ↦ []
  | some ns ↦ ns
]

-- The loop of `GetNodesByLabelSelector` after the first label.
unfoldable pub narrow_by_labels :
    List NodeData
    → List (String × String)
    → Dict String (Dict String (List NodeData))
    → List NodeData
unfolding intersect_nodes
narrow_by_labels candidates [] index = candidates
narrow_by_labels candidates ((k, v) ∷ selector) index = elim (get k index) [
  | none ↦ []
  | some values ↦ elim (get v values) [
    | none ↦ []
    | some ns ↦ narrow_by_labels (intersect_nodes candidates ns) selector index
  ]
]

-- `GetNodesByLabelSelector`
unfoldable pub get_nodes_by_label_selector : List (String × String) → Graph → List NodeData
unfolding narrow_by_labels
get_nodes_by_label_selector [] g = []
get_nodes_by_label_selector ((k, v) ∷ selector) g = elim (get k g.by_label) [
  | none ↦ []
  | some values ↦ elim (get v values) [
    | none ↦ []
    | some ns ↦ narrow_by_labels ns selector g.by_label
  ]
]

-- `GetAllNodes`
unfoldable pub get_all_nodes : Graph → List Node
get_all_nodes g = map (λ entry. entry.1) g.nodes

unfoldable pub nonempty_keys : {V : Type 0} → List (String × V) → List String
nonempty_keys [] = []
nonempty_keys ((k, _) ∷ m) = ite (str_dec k "") (nonempty_keys m) (k ∷ nonempty_keys m)

-- `GetAllHelmReleases`
unfoldable pub get_all_helm_releases : Graph → List String
unfolding nonempty_keys
get_all_helm_releases g = nonempty_keys g.by_helm_release

-- The set `charts` of `GetAllHelmCharts`, and its keys.
unfoldable pub chart_set : List (Uid × Node) → Dict String Bool → Dict String Bool
chart_set [] charts = charts
chart_set ((_, n) ∷ nodes) charts =
    chart_set nodes (if n.helm_chart == "" then charts else put n.helm_chart true charts)

unfoldable pub get_all_helm_charts : Graph → List String
unfolding chart_set
get_all_helm_charts g = map (λ entry. entry.0) (chart_set g.nodes [])
