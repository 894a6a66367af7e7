-- ===== src/Graph/Pending.antt =====
-- pkg/graph/types.go: edges between live nodes, and the pending edges, which wait for one of
-- their ends.
use astrolabe_server.Common.{
  string_key, Bool, ◌&&◌, none, some, List, [], ◌∷◌, ◌++◌, if◌then◌else◌, ◌==◌,
}
use astrolabe_server.Common.Dict.{Dict, get, put, delete, get_or}
use astrolabe_server.Graph.Types.{
  Uid, EdgeType, Edge, Node, NodeData, RefKey, ref_key, PendingEdge, ReversePendingEdge, Graph,
}

-- A write to the object that the map holds at `uid`, where there is one.
unfoldable pub update_node : Uid → (Node → Node) → Dict Uid Node → Dict Uid Node
update_node uid f nodes = elim (get uid nodes) [ none ↦ nodes | some n ↦ put uid (f n) nodes ]

-- `nodes[uid].OutgoingEdges[k] = edge`
unfoldable pub set_outgoing : Uid → Uid → Edge → Dict Uid Node → Dict Uid Node
set_outgoing uid k e = update_node uid (λ n. record n { outgoing_edges = put k e n.outgoing_edges })

-- `nodes[uid].IncomingEdges[k] = edge`
unfoldable pub set_incoming : Uid → Uid → Edge → Dict Uid Node → Dict Uid Node
set_incoming uid k e = update_node uid (λ n. record n { incoming_edges = put k e n.incoming_edges })

-- The edge, written at both of its ends.
unfoldable pub link : Edge → Dict Uid Node → Dict Uid Node
unfolding update_node set_outgoing set_incoming
link e nodes = set_incoming e.to_uid e.from_uid e (set_outgoing e.from_uid e.to_uid e nodes)

abbrev pub new_edge : EdgeType → Uid → Uid → Edge
new_edge type from to = record { type = type; from_uid = from; to_uid = to; metadata = [] }

-- A reference matches by namespace, kind and name; the group and the version are ignored.
unfoldable pub ref_matches : RefKey → NodeData → Bool
ref_matches ref n = ref.namespace == n.namespace && ref.gvk.kind == n.kind && ref.name == n.name

-- The inner loops of `processPendingEdgesForNode`: an edge whose other end is gone is skipped.
unfoldable pub link_pending : Uid → List PendingEdge → Dict Uid Node → Dict Uid Node
unfolding link
link_pending uid [] nodes = nodes
link_pending uid (p ∷ ps) nodes = link_pending uid ps (elim (get p.from_uid nodes) [
  | none ↦ nodes
  | some _ ↦ link (new_edge p.edge_type p.from_uid uid) nodes
])

unfoldable pub link_reverse : Uid → List ReversePendingEdge → Dict Uid Node → Dict Uid Node
unfolding link
link_reverse uid [] nodes = nodes
link_reverse uid (p ∷ ps) nodes = link_reverse uid ps (elim (get p.to_uid nodes) [
  | none ↦ nodes
  | some _ ↦ link (new_edge p.edge_type uid p.to_uid) nodes
])

-- The outer loops, over the entries of the two maps.
unfoldable pub link_matching :
    NodeData → List (RefKey × List PendingEdge) → Dict Uid Node → Dict Uid Node
unfolding ref_matches link_pending
link_matching n [] nodes = nodes
link_matching n ((ref, ps) ∷ entries) nodes =
    link_matching n entries (if ref_matches ref n then link_pending n.uid ps nodes else nodes)

unfoldable pub link_matching_reverse :
    NodeData → List (RefKey × List ReversePendingEdge) → Dict Uid Node → Dict Uid Node
unfolding ref_matches link_reverse
link_matching_reverse n [] nodes = nodes
link_matching_reverse n ((ref, ps) ∷ entries) nodes =
    link_matching_reverse n entries
      (if ref_matches ref n then link_reverse n.uid ps nodes else nodes)

-- `matchedPendingKeys` and `matchedReverseKeys`, and the loops that delete these keys.
unfoldable pub matched_keys : {P : Type 0} → NodeData → List (RefKey × P) → List RefKey
unfolding ref_matches
matched_keys n [] = []
matched_keys n ((ref, _) ∷ entries) =
    if ref_matches ref n then ref ∷ matched_keys n entries else matched_keys n entries

unfoldable pub delete_keys : {P : Type 0} → List RefKey → Dict RefKey P → Dict RefKey P
delete_keys [] m = m
delete_keys (ref ∷ refs) m = delete_keys refs (delete ref m)

-- `processPendingEdgesForNode`, for a node that the main map already holds.
unfoldable pub process_pending_edges_for_node : NodeData → Graph → Graph
unfolding link_matching link_matching_reverse matched_keys delete_keys
process_pending_edges_for_node n g = record g {
  nodes = link_matching_reverse n g.reverse_pending_edges (link_matching n g.pending_edges g.nodes);
  pending_edges = delete_keys (matched_keys n g.pending_edges) g.pending_edges;
  reverse_pending_edges =
      delete_keys (matched_keys n g.reverse_pending_edges) g.reverse_pending_edges;
}

-- `AddPendingEdge`
unfoldable pub add_pending_edge : Uid → RefKey → EdgeType → Graph → Graph
add_pending_edge from ref type g =
    let pending : PendingEdge = record { from_uid = from; target_ref = ref; edge_type = type } in
    record g {
      pending_edges = put ref (get_or ref [] g.pending_edges ++ (pending ∷ [])) g.pending_edges;
    }

-- `AddReversePendingEdge`
unfoldable pub add_reverse_pending_edge : Uid → RefKey → EdgeType → Graph → Graph
add_reverse_pending_edge to ref type g =
    let pending : ReversePendingEdge = record { to_uid = to; source_ref = ref; edge_type = type } in
    record g {
      reverse_pending_edges =
          put ref (get_or ref [] g.reverse_pending_edges ++ (pending ∷ [])) g.reverse_pending_edges;
    }
