-- ===== src/Graph/Store.antt =====
-- pkg/graph/types.go: the operations of `Graph` that change it. Each runs under the write lock from
-- beginning to end, and so is one step from a graph to the next.
use astrolabe_server.Common.{
  String, string_key, Bool, true, false, ◌||◌, not, none, some, List, [], ◌∷◌, if◌then◌else◌, ◌==◌,
  length, ℕ_discrete, ite,
}
use astrolabe_server.Common.Dict.{Dict, get, put, delete, get_or}
use astrolabe_server.Graph.Types.{Uid, Edge, Node, NodeData, Graph}
use astrolabe_server.Graph.Indexes.{add_to_indexes, remove_from_indexes}
use astrolabe_server.Graph.Pending.{update_node, link, process_pending_edges_for_node}

-- `NewGraph`
abbrev pub new_graph : Graph
new_graph = record {
  nodes = [];
  by_namespace_kind = [];
  by_helm_release = [];
  by_label = [];
  pending_edges = [];
  reverse_pending_edges = [];
}

-- The loop of `labelsEqual`: a missing label of `b` reads as "".
unfoldable pub labels_agree : List (String × String) → Dict String String → Bool
labels_agree [] b = true
labels_agree ((k, v) ∷ a) b = if get_or k "" b == v then labels_agree a b else false

-- `labelsEqual`
unfoldable pub labels_equal : Dict String String → Dict String String → Bool
unfolding labels_agree
labels_equal a b = ite (ℕ_discrete (length a) (length b)) (labels_agree a b) false

-- The test `needsReindex` of `AddNode`.
unfoldable pub needs_reindex : NodeData → NodeData → Bool
unfolding labels_equal
needs_reindex old n =
    not (old.namespace == n.namespace)
    || not (old.kind == n.kind)
    || not (old.helm_release == n.helm_release)
    || not (labels_equal old.labels n.labels)

-- `AddNode`. The maps of a new node are those that it comes with; a `nil` map is an empty one.
unfoldable pub add_node : Node → Graph → Graph
unfolding needs_reindex add_to_indexes remove_from_indexes process_pending_edges_for_node
add_node node g = elim (get node.uid g.nodes) [
  | some old ↦
      let kept = record node {
        outgoing_edges = old.outgoing_edges;
        incoming_edges = old.incoming_edges;
      } in
      if needs_reindex old.fields node.fields
      then add_to_indexes node.fields (
          let g' = remove_from_indexes old.fields g in
          record g' { nodes = put node.uid kept g'.nodes })
      else record g { nodes = put node.uid kept g.nodes }
  | none ↦
      process_pending_edges_for_node node.fields
        (add_to_indexes node.fields (record g { nodes = put node.uid node g.nodes }))
]

-- `delete(nodes[uid].IncomingEdges, k)`
unfoldable pub unset_incoming : Uid → Uid → Dict Uid Node → Dict Uid Node
unset_incoming uid k =
    update_node uid (λ n. record n { incoming_edges = delete k n.incoming_edges })

-- `delete(nodes[uid].OutgoingEdges, k)`
unfoldable pub unset_outgoing : Uid → Uid → Dict Uid Node → Dict Uid Node
unset_outgoing uid k =
    update_node uid (λ n. record n { outgoing_edges = delete k n.outgoing_edges })

-- The two loops of `RemoveNode` over the edge maps of the node.
unfoldable pub unlink_targets : Uid → List (Uid × Edge) → Dict Uid Node → Dict Uid Node
unfolding update_node unset_incoming
unlink_targets uid [] nodes = nodes
unlink_targets uid ((_, e) ∷ es) nodes = unlink_targets uid es (unset_incoming e.to_uid uid nodes)

unfoldable pub unlink_sources : Uid → List (Uid × Edge) → Dict Uid Node → Dict Uid Node
unfolding update_node unset_outgoing
unlink_sources uid [] nodes = nodes
unlink_sources uid ((_, e) ∷ es) nodes = unlink_sources uid es (unset_outgoing e.from_uid uid nodes)

-- The entries of the node's incoming edges when the second loop starts: the first loop changes
-- them if the node has an edge to itself.
unfoldable pub incoming_of : Uid → Dict Uid Node → List (Uid × Edge)
incoming_of uid nodes = elim (get uid nodes) [ none ↦ [] | some n ↦ n.incoming_edges ]

-- `RemoveNode`
unfoldable pub remove_node : Uid → Graph → Graph
unfolding remove_from_indexes unlink_targets unlink_sources incoming_of
remove_node uid g = elim (get uid g.nodes) [
  | none ↦ g
  | some node ↦
      let unlinked = unlink_targets uid node.outgoing_edges g.nodes in
      let isolated = unlink_sources uid (incoming_of uid unlinked) unlinked in
      let g' = remove_from_indexes node.fields (record g { nodes = isolated }) in
      record g' { nodes = delete uid g'.nodes }
]

-- `AddEdge`: false, and no change, if an end is missing.
unfoldable pub add_edge : Edge → Graph → Graph × Bool
unfolding link
add_edge e g = elim (get e.from_uid g.nodes) [
  | none ↦ (g, false)
  | some _ ↦ elim (get e.to_uid g.nodes) [
    | none ↦ (g, false)
    | some _ ↦ (record g { nodes = link e g.nodes }, true)
  ]
]

-- `RemoveEdge`
unfoldable pub remove_edge : Uid → Uid → Graph → Graph
unfolding update_node unset_outgoing unset_incoming
remove_edge from to g = record g { nodes = unset_incoming to from (unset_outgoing from to g.nodes) }
