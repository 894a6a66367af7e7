-- ===== src/Api/Answers.antt =====
-- The nodes that pkg/api/server.go answers a query for a release with.
use mathlib.Core.List.{map-append}
use astrolabe_server.Common.{
  ◌<◌, String, str_dec, string_key, true, some, List, [], ◌∷◌, ◌++◌, ◌≡◌, arith, map, sym, subst,
  ap, ◌≢◌, ◌∙◌,
}
use astrolabe_server.Common.Dict.{get}
use astrolabe_server.Graph.Types.{Uid, Node, NodeData, Graph}
use astrolabe_server.Graph.Queries.{get_nodes_by_helm_release}
use astrolabe_server.Graph.Buckets.{count_uid}
use astrolabe_server.Graph.Steps.{IsConsistent}
use astrolabe_server.Graph.Lookup.{All, get_nodes_by_helm_release-exact}
use astrolabe_server.Api.Filtering.{has}
use astrolabe_server.Api.Ends.{has-append}
use astrolabe_server.Api.Related.{uids}
use astrolabe_server.Api.Expansion.{expand_related_nodes-IsExpansion}
use astrolabe_server.Api.Volumes.{include_persistent_volumes}
use astrolabe_server.Api.Inclusion.{include_persistent_volumes-IsInclusion}
use astrolabe_server.Api.Handlers.{indexed_node, release_objects, graph_nodes}

has-objects :
    (g : Graph) (u : Uid) (ns : List NodeData)
    → 0 < count_uid u ns
    → has u (uids (map (indexed_node g) ns)) ≡ true
unfolding has indexed_node
has-objects g u [] h = absurd (omega arith)
has-objects g u (n ∷ ns) h = ground (arith, has-objects g u ns)

has_of_All :
    (u : Uid) (ns : List Node) (us : List Uid)
    → All (λ n. has n.uid us ≡ true) ns
    → has u (uids ns) ≡ true
    → has u us ≡ true
unfolding has
has_of_All u [] us a h = cc
has_of_All u (n ∷ ns) us a h = elim (str_dec n.uid u) [
  | yes p ↦ subst (λ (x : Uid). has x us ≡ true) p a.0
  | no p ↦ has_of_All u ns us a.1 (ground arith)
]

has-include :
    (g : Graph) (u : Uid) (ns : List Node) (release : String)
    → has u (uids ns) ≡ true
    → has u (uids (include_persistent_volumes g ns release)) ≡ true
has-include g u ns release h =
    let i = include_persistent_volumes-IsInclusion g ns release in
    let parted : uids (include_persistent_volumes g ns release) ≡ uids ns ++ uids i.extra =
      ap uids i.grown ∙ map-append (λ n. n.uid) ns i.extra in
    subst (λ us. has u us ≡ true) (sym parted)
      (ground (arith, has-append u (uids ns) (uids i.extra)))

-- In a consistent graph, a query of `handleGraph` for a non-empty release, without a namespace, is
-- answered, and the nodes of the answer have the UID of each live node of the release among them.
pub graph_nodes_complete :
    (g : Graph)
    → IsConsistent g
    → (release : String) (u : Uid) (n : Node) → get u g.nodes ≡ some n
    → n.helm_release ≡ release
    → release ≢ ""
    → (found : List Node) × (graph_nodes g release "" ≡ some found) × (has u (uids found) ≡ true)
unfolding graph_nodes release_objects
graph_nodes_complete g c release u n live named nonempty =
    let base = release_objects release g in
    let (found, ends, e) = expand_related_nodes-IsExpansion g base "" release in
    let counted : 0 < count_uid u (get_nodes_by_helm_release release g) =
      ground (arith, get_nodes_by_helm_release-exact g c release u) in
    let based : has u (uids found) ≡ true =
      has_of_All u base (uids found) e.based
        (has-objects g u (get_nodes_by_helm_release release g) counted) in
    (
      include_persistent_volumes g found release,
      ground (arith, ends),
      has-include g u found release based,
    )
