-- ===== src/Api/Volumes.antt =====
-- pkg/api/filtering.go: the volumes that belong to the claims of a set of nodes.
use astrolabe_server.Common.{
  String, string_key, Bool, true, false, ◌&&◌, ◌||◌, none, some, List, [], ◌∷◌, ◌++◌, map,
  if◌then◌else◌, ◌==◌,
}
use astrolabe_server.Common.Dict.{Dict, get, put}
use astrolabe_server.Graph.Types.{Uid, Edge, EdgeType, edge_pvc_binding, Node, Graph}
use astrolabe_server.Graph.Queries.{get_node, get_all_nodes}
use astrolabe_server.Api.Filtering.{lower_codes, same_codes, has}

-- `strings.ToLower(node.Kind) == kind`, for a kind in lower case.
abbrev pub of_kind : String → Node → Bool
of_kind kind n = same_codes (lower_codes kind) (lower_codes n.kind)

-- `nodes`, as it grows, and `seen`.
pub record Collected : Type 0 where
  pub nodes : List Node
  pub seen : List Uid

-- `addPV`
unfoldable pub add_pv : Node → Collected → Collected
unfolding has
add_pv pv s =
    if has pv.uid s.seen
    then s
    else record { nodes = s.nodes ++ (pv ∷ []); seen = s.seen ++ (pv.uid ∷ []) }

abbrev pub binds : EdgeType → Bool
binds edge_pvc_binding = true
binds _ = false

-- The loop over the edges of a claim.
unfoldable pub add_bound : Graph → List (Uid × Edge) → Collected → Collected
unfolding add_pv
add_bound g [] s = s
add_bound g ((_, e) ∷ es) s =
    add_bound g es
      (if binds e.type then elim (get_node e.to_uid g) [ none ↦ s | some pv ↦ add_pv pv s ] else s)

-- `pvByName`, which is made when it is first needed and does not change: a later volume of the same
-- name replaces an earlier one.
unfoldable pub pv_by_name : List Node → Dict String Node → Dict String Node
pv_by_name [] m = m
pv_by_name (n ∷ nodes) m =
    pv_by_name nodes (if of_kind "persistentvolume" n then put n.name n m else m)

-- The name of a claim's volume: "" without metadata.
abbrev pub volume_name : Node → String
volume_name n = elim n.metadata [ none ↦ "" | some m ↦ m.volume_name ]

-- The claims that the loop does not skip.
abbrev pub wanted : String → Node → Bool
wanted release n = of_kind "persistentvolumeclaim" n && (release == "" || n.helm_release == release)

-- What the loop does with one claim: first the edges, then the name.
unfoldable pub add_claim : Graph → Node → Collected → Collected
unfolding add_bound add_pv pv_by_name
add_claim g n s =
    let bound = add_bound g n.outgoing_edges s in
    if volume_name n == ""
    then bound
    else elim (get (volume_name n) (pv_by_name (get_all_nodes g) [])) [
      | none ↦ bound
      | some pv ↦ add_pv pv bound
    ]

unfoldable pub add_claims : Graph → String → List Node → Collected → Collected
unfolding add_claim
add_claims g release [] s = s
add_claims g release (n ∷ nodes) s =
    add_claims g release nodes (if wanted release n then add_claim g n s else s)

-- `includePersistentVolumes`
unfoldable pub include_persistent_volumes : Graph → List Node → String → List Node
unfolding add_claims
include_persistent_volumes g nodes release =
    (add_claims g release nodes (record { nodes = nodes; seen = map (λ n. n.uid) nodes })).nodes
