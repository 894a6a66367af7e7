-- ===== src/Graph/Once.antt =====
-- The main map of pkg/graph/types.go and the edge maps in it have each key once, whatever calls are
-- made: the lists that stand for maps stay maps.
use astrolabe_server.Common.{
  str_dec, string_key, some, List, [], ◌∷◌, ◌≡◌, arith, sym, Option-cases, inl, inr, Bool-cases,
  subst,
}
use astrolabe_server.Common.Dict.{Dict, get, put, delete, get-put, get-delete}
use astrolabe_server.Graph.Types.{
  Uid, Edge, Node, NodeData, Graph, RefKey, PendingEdge, ReversePendingEdge,
}
use astrolabe_server.Graph.Pending.{
  update_node, set_outgoing, set_incoming, link, new_edge, ref_matches, link_pending, link_reverse,
  link_matching, link_matching_reverse, process_pending_edges_for_node, add_pending_edge,
  add_reverse_pending_edge,
}
use astrolabe_server.Graph.Indexes.{add_to_indexes, remove_from_indexes}
use astrolabe_server.Graph.Store.{
  new_graph, add_node, remove_node, add_edge, remove_edge, unset_outgoing, unset_incoming,
  unlink_targets, unlink_sources, incoming_of,
}
use astrolabe_server.Graph.Additions.{IsFresh, nodes-add_node_update}
use astrolabe_server.Graph.Entries.{Distinct, delete-Distinct, put-Distinct}
use astrolabe_server.Graph.Steps.{
  Step, Reach, here, next, add_node_step, remove_node_step, add_edge_step, remove_edge_step,
  add_pending_step, add_reverse_step,
}

pub record IsOnce (ns : Dict Uid Node) : Type 0 where
  pub nodes : Distinct ns
  pub edges : (u : Uid) (n : Node) → get u ns ≡ some n → Distinct n.outgoing_edges

put-IsOnce :
    (u : Uid) (n : Node) (ns : Dict Uid Node)
    → Distinct n.outgoing_edges
    → IsOnce ns
    → IsOnce (put u n ns)
put-IsOnce u n ns d h = record {
  nodes = put-Distinct u n ns h.nodes;
  edges = λ v m q. elim (str_dec u v) [
    | yes p ↦
        let same : n ≡ m = ground (arith, get-put v u n ns) in
        subst (λ x. Distinct x.outgoing_edges) same d
    | no p ↦ h.edges v m (ground (arith, get-put v u n ns))
  ];
}

delete-IsOnce : (u : Uid) (ns : Dict Uid Node) → IsOnce ns → IsOnce (delete u ns)
delete-IsOnce u ns h = record {
  nodes = delete-Distinct u ns h.nodes;
  edges = λ v m q. h.edges v m (ground (arith, get-delete v u ns));
}

update_node-IsOnce :
    (u : Uid) (f : Node → Node) (ns : Dict Uid Node)
    → ((n : Node) → Distinct n.outgoing_edges → Distinct (f n).outgoing_edges)
    → IsOnce ns
    → IsOnce (update_node u f ns)
unfolding update_node
update_node-IsOnce u f ns keep h = elim (Option-cases (get u ns)) [
  | inl p ↦ rw (p, update_node) h
  | inr (n, p) ↦ rw (p, update_node) (put-IsOnce u (f n) ns (keep n (h.edges u n p)) h)
]

link-IsOnce : (e : Edge) (ns : Dict Uid Node) → IsOnce ns → IsOnce (link e ns)
unfolding link set_outgoing set_incoming
link-IsOnce e ns h =
    update_node-IsOnce e.to_uid _ (set_outgoing e.from_uid e.to_uid e ns) (λ n d. d)
      (update_node-IsOnce e.from_uid _ ns (λ n d. put-Distinct e.to_uid e n.outgoing_edges d) h)

-- The loops that link the pending edges of a node.
module _ (n : NodeData) where
  link_pending-IsOnce :
      (ps : List PendingEdge) (ns : Dict Uid Node) → IsOnce ns → IsOnce (link_pending n.uid ps ns)
  unfolding link_pending
  link_pending-IsOnce [] ns h = h
  link_pending-IsOnce (p ∷ ps) ns h = elim (Option-cases (get p.from_uid ns)) [
    | inl dead ↦ rw (dead, link_pending) (link_pending-IsOnce ps ns h)
    | inr (m, live) ↦
        rw (live, link_pending)
          (link_pending-IsOnce ps (link (new_edge p.edge_type p.from_uid n.uid) ns)
            (link-IsOnce (new_edge p.edge_type p.from_uid n.uid) ns h))
  ]

  link_reverse-IsOnce :
      (ps : List ReversePendingEdge) (ns : Dict Uid Node)
      → IsOnce ns
      → IsOnce (link_reverse n.uid ps ns)
  unfolding link_reverse
  link_reverse-IsOnce [] ns h = h
  link_reverse-IsOnce (p ∷ ps) ns h = elim (Option-cases (get p.to_uid ns)) [
    | inl dead ↦ rw (dead, link_reverse) (link_reverse-IsOnce ps ns h)
    | inr (m, live) ↦
        rw (live, link_reverse)
          (link_reverse-IsOnce ps (link (new_edge p.edge_type n.uid p.to_uid) ns)
            (link-IsOnce (new_edge p.edge_type n.uid p.to_uid) ns h))
  ]

  link_matching-IsOnce :
      (entries : List (RefKey × List PendingEdge)) (ns : Dict Uid Node)
      → IsOnce ns
      → IsOnce (link_matching n entries ns)
  unfolding link_matching
  link_matching-IsOnce [] ns h = h
  link_matching-IsOnce ((ref, ps) ∷ entries) ns h = elim (Bool-cases (ref_matches ref n)) [
    | inl hit ↦
        rw (hit, link_matching)
          (link_matching-IsOnce entries (link_pending n.uid ps ns) (link_pending-IsOnce ps ns h))
    | inr miss ↦ rw (miss, link_matching) (link_matching-IsOnce entries ns h)
  ]

  link_matching_reverse-IsOnce :
      (entries : List (RefKey × List ReversePendingEdge)) (ns : Dict Uid Node)
      → IsOnce ns
      → IsOnce (link_matching_reverse n entries ns)
  unfolding link_matching_reverse
  link_matching_reverse-IsOnce [] ns h = h
  link_matching_reverse-IsOnce ((ref, ps) ∷ entries) ns h = elim (Bool-cases (ref_matches ref n)) [
    | inl hit ↦
        rw (hit, link_matching_reverse)
          (link_matching_reverse-IsOnce entries (link_reverse n.uid ps ns)
            (link_reverse-IsOnce ps ns h))
    | inr miss ↦ rw (miss, link_matching_reverse) (link_matching_reverse-IsOnce entries ns h)
  ]

unlink_targets-IsOnce :
    (u : Uid) (es : List (Uid × Edge)) (ns : Dict Uid Node)
    → IsOnce ns
    → IsOnce (unlink_targets u es ns)
unfolding unlink_targets unset_incoming
unlink_targets-IsOnce u [] ns h = h
unlink_targets-IsOnce u ((_, e) ∷ es) ns h =
    unlink_targets-IsOnce u es (unset_incoming e.to_uid u ns)
      (update_node-IsOnce e.to_uid _ ns (λ n d. d) h)

unlink_sources-IsOnce :
    (u : Uid) (es : List (Uid × Edge)) (ns : Dict Uid Node)
    → IsOnce ns
    → IsOnce (unlink_sources u es ns)
unfolding unlink_sources unset_outgoing
unlink_sources-IsOnce u [] ns h = h
unlink_sources-IsOnce u ((_, e) ∷ es) ns h =
    unlink_sources-IsOnce u es (unset_outgoing e.from_uid u ns)
      (update_node-IsOnce e.from_uid _ ns (λ n d. delete-Distinct u n.outgoing_edges d) h)

add_node-IsOnce : (n : Node) (g : Graph) → IsFresh n → IsOnce g.nodes → IsOnce (add_node n g).nodes
unfolding add_node process_pending_edges_for_node add_to_indexes
add_node-IsOnce n g fresh h = elim (Option-cases (get n.uid g.nodes)) [
  | inr (old, live) ↦
      rw (nodes-add_node_update n g old live)
        (put-IsOnce n.uid _ g.nodes (h.edges n.uid old live) h)
  | inl dead ↦
      let empty : Distinct n.outgoing_edges = subst Distinct (sym fresh.no_outgoing) tt in
      rw (dead, add_node)
        (link_matching_reverse-IsOnce n.fields g.reverse_pending_edges
          (link_matching n.fields g.pending_edges (put n.uid n g.nodes))
          (link_matching-IsOnce n.fields g.pending_edges (put n.uid n g.nodes)
            (put-IsOnce n.uid n g.nodes empty h)))
]

remove_node-IsOnce : (u : Uid) (g : Graph) → IsOnce g.nodes → IsOnce (remove_node u g).nodes
unfolding remove_node remove_from_indexes
remove_node-IsOnce u g h = elim (Option-cases (get u g.nodes)) [
  | inl dead ↦ rw (dead, remove_node) h
  | inr (n, live) ↦
      let unlinked = unlink_targets u n.outgoing_edges g.nodes in
      rw (live, remove_node)
        (delete-IsOnce u (unlink_sources u (incoming_of u unlinked) unlinked) (
          unlink_sources-IsOnce u (incoming_of u unlinked) unlinked
            (unlink_targets-IsOnce u n.outgoing_edges g.nodes h)))
]

add_edge-IsOnce : (e : Edge) (g : Graph) → IsOnce g.nodes → IsOnce (add_edge e g).0.nodes
unfolding add_edge
add_edge-IsOnce e g h = elim (Option-cases (get e.from_uid g.nodes)) [
  | inl p ↦ rw (p, add_edge) h
  | inr (n, p) ↦ elim (Option-cases (get e.to_uid g.nodes)) [
    | inl q ↦ rw (p, add_edge, q) h
    | inr (m, q) ↦ rw (p, add_edge, q) (link-IsOnce e g.nodes h)
  ]
]

remove_edge-IsOnce : (a b : Uid) (g : Graph) → IsOnce g.nodes → IsOnce (remove_edge a b g).nodes
unfolding remove_edge unset_outgoing unset_incoming
remove_edge-IsOnce a b g h =
    update_node-IsOnce b _ (unset_outgoing a b g.nodes) (λ n d. d)
      (update_node-IsOnce a _ g.nodes (λ n d. delete-Distinct b n.outgoing_edges d) h)

Step-IsOnce : {g h : Graph} → Step g h → IsOnce g.nodes → IsOnce h.nodes
unfolding add_pending_edge add_reverse_pending_edge
Step-IsOnce {g} (add_node_step n fresh) o = add_node-IsOnce n g fresh o
Step-IsOnce {g} (remove_node_step u) o = remove_node-IsOnce u g o
Step-IsOnce {g} (add_edge_step e) o = add_edge-IsOnce e g o
Step-IsOnce {g} (remove_edge_step a b) o = remove_edge-IsOnce a b g o
Step-IsOnce {g} (add_pending_step from ref type) o = o
Step-IsOnce {g} (add_reverse_step to ref type) o = o

Reach-IsOnce : {g h : Graph} → Reach g h → IsOnce g.nodes → IsOnce h.nodes
Reach-IsOnce here o = o
Reach-IsOnce (next r s) o = Step-IsOnce s (Reach-IsOnce r o)

-- A graph that calls make of the empty one.
pub new_graph-IsOnce : {g : Graph} → Reach new_graph g → IsOnce g.nodes
unfolding get
new_graph-IsOnce r = Reach-IsOnce r (record { nodes = tt; edges = λ u n q. cc })
