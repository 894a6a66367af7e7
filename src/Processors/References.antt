-- ===== src/Processors/References.antt =====
-- References by namespace, kind and name (pkg/processors/base.go), on the in-memory graph.
use astrolabe_server.Common.{
  ◌<◌, String, str_dec, string_key, none, some, List, [], ◌∷◌, ◌≡◌, arith, ◌≢◌, true, subst,
}
use astrolabe_server.Common.Dict.{get}
use astrolabe_server.Graph.Types.{Uid, Node, NodeData, Graph, Edge, EdgeType}
use astrolabe_server.Graph.Indexes.{ns_key}
use astrolabe_server.Graph.Pending.{new_edge, ref_matches}
use astrolabe_server.Graph.Store.{add_node, add_edge}
use astrolabe_server.Graph.Queries.{get_nodes_by_namespace_kind}
use astrolabe_server.Graph.Views.{out_edge}
use astrolabe_server.Graph.Additions.{IsFresh}
use astrolabe_server.Graph.Edges.{out_edge-add_edge}
use astrolabe_server.Graph.Buckets.{count_uid}
use astrolabe_server.Graph.Steps.{IsConsistent, Reach}
use astrolabe_server.Graph.Waiting.{Waits, ReverseWaits}
use astrolabe_server.Graph.Patience.{
  quiet, add_pending_edge-Waits, add_reverse_pending_edge-ReverseWaits, Waits-resolved_later,
  ReverseWaits-resolved_later,
}
use astrolabe_server.Graph.Lookup.{All, uids_of, IsLive, get_nodes_by_namespace_kind-exact}
use astrolabe_server.Processors.Interface.{memory}
use astrolabe_server.Processors.Base.{
  find_name, find_node_by_namespace_kind_name, create_edge_or_pending,
  create_reverse_edge_or_pending, ref_key_of,
}

module _ (g : Graph) (name : String) where
  find_name_sound :
      (l : List Node) (t : Node)
      → All (IsLive g) l
      → find_name name l ≡ some t
      → (get t.uid g.nodes ≡ some t) × (t.name ≡ name) × (0 < count_uid t.uid (uids_of l))
  unfolding find_name
  find_name_sound [] t a h = cc
  find_name_sound (n ∷ l) t a h = elim (str_dec n.name name) [
    | yes p ↦
        let q : some n ≡ some t = ground arith in
        let e : n ≡ t = cc q in
        subst
          (λ (x : Node).
            (get x.uid g.nodes ≡ some x)
            × (x.name ≡ name)
            × (0 < count_uid x.uid (uids_of (n ∷ l))))
          e (a.0, p, ground arith)
    | no p ↦ ground (arith, find_name_sound l t)
  ]

  find_name_complete :
      (l : List Node) (u : Uid) (n : Node)
      → All (IsLive g) l
      → get u g.nodes ≡ some n
      → n.name ≡ name
      → 0 < count_uid u (uids_of l)
      → find_name name l ≢ none
  unfolding find_name
  find_name_complete [] u n a live e c = absurd (omega arith)
  find_name_complete (m ∷ l) u n a live e c = elim (str_dec m.uid u) [
    | yes p ↦ ground (arith, a.0)
    | no p ↦ ground (arith, find_name_complete l u n)
  ]

module _ (g : Graph) (c : IsConsistent g) (namespace kind name : String) where
  -- In a consistent graph, what `findNodeByNamespaceKindName` finds is a live node, as it is now,
  -- of that namespace, kind and name.
  pub find_node_sound :
      (t : Node)
      → find_node_by_namespace_kind_name memory namespace kind name g ≡ some t
      → (get t.uid g.nodes ≡ some t)
        × (ns_key t.namespace ≡ ns_key namespace)
        × (t.kind ≡ kind)
        × (t.name ≡ name)
  unfolding find_node_by_namespace_kind_name
  find_node_sound t h =
      let (lives, counts) = get_nodes_by_namespace_kind-exact g c namespace kind t.uid in
      let (live, named, counted) =
        find_name_sound g name (get_nodes_by_namespace_kind namespace kind g) t lives h in
      ground arith

  -- In a consistent graph `findNodeByNamespaceKindName` finds a node whenever a live one has that
  -- namespace, kind and name.
  pub find_node_complete :
      (u : Uid) (n : Node)
      → get u g.nodes ≡ some n
      → ns_key n.namespace ≡ ns_key namespace
      → n.kind ≡ kind
      → n.name ≡ name
      → find_node_by_namespace_kind_name memory namespace kind name g ≢ none
  unfolding find_node_by_namespace_kind_name
  find_node_complete u n live k j m =
      let (lives, counts) = get_nodes_by_namespace_kind-exact g c namespace kind u in
      find_name_complete g name (get_nodes_by_namespace_kind namespace kind g) u n lives live m
        (ground arith)

  module _ (type : EdgeType) (t : Node)
      (found : find_node_by_namespace_kind_name memory namespace kind name g ≡ some t) (u : Uid)
      (n : Node) (live : get u g.nodes ≡ some n) where
    -- In a consistent graph where `createEdgeOrPending` finds its target, a live source gets the
    -- edge of the given type to it at once, and the pending edges are unchanged.
    pub create_edge_or_pending_found :
        (out_edge u t.uid (create_edge_or_pending memory u namespace kind name type g).nodes
          ≡ some (new_edge type u t.uid))
        × ((create_edge_or_pending memory u namespace kind name type g).pending_edges
            ≡ g.pending_edges)
    unfolding create_edge_or_pending add_edge
    create_edge_or_pending_found =
        ground (arith, find_node_sound t found, out_edge-add_edge (new_edge type u t.uid) g u t.uid)

    -- In a consistent graph where `createReverseEdgeOrPending` finds its source, it gets the edge
    -- of the given type to a live target at once, and the reverse pending edges are unchanged.
    pub create_reverse_edge_or_pending_found :
        (out_edge t.uid u (create_reverse_edge_or_pending memory u namespace kind name type g).nodes
          ≡ some (new_edge type t.uid u))
        × ((create_reverse_edge_or_pending memory u namespace kind name type
              g).reverse_pending_edges
            ≡ g.reverse_pending_edges)
    unfolding create_reverse_edge_or_pending add_edge
    create_reverse_edge_or_pending_found =
        ground (arith, find_node_sound t found, out_edge-add_edge (new_edge type t.uid u) g t.uid u)

-- A node has the namespace, the kind and the name of a reference.
ref_matches_of :
    (namespace kind name : String) (n : NodeData)
    → n.namespace ≡ namespace
    → n.kind ≡ kind
    → n.name ≡ name
    → ref_matches (ref_key_of namespace kind name) n ≡ true
unfolding ref_matches
ref_matches_of namespace kind name n p q r = ground arith

module _ (g h : Graph) (namespace kind name : String) (type : EdgeType)
    (missing : find_node_by_namespace_kind_name memory namespace kind name g ≡ none) (u : Uid)
    (node n : Node) (fresh : IsFresh node) (p : node.namespace ≡ namespace) (q : node.kind ≡ kind)
    (r : node.name ≡ name) (dead : get node.uid h.nodes ≡ none)
    (live : get u h.nodes ≡ some n) where
  waits :
      Waits u
        (ref_key_of namespace kind name)
        (create_edge_or_pending memory u namespace kind name type g)
  unfolding create_edge_or_pending
  waits =
      rw (missing, create_edge_or_pending)
        (add_pending_edge-Waits u (ref_key_of namespace kind name) type g)

  reverse_waits :
      ReverseWaits u
        (ref_key_of namespace kind name)
        (create_reverse_edge_or_pending memory u namespace kind name type g)
  unfolding create_reverse_edge_or_pending
  reverse_waits =
      rw (missing, create_reverse_edge_or_pending)
        (add_reverse_pending_edge-ReverseWaits u (ref_key_of namespace kind name) type g)

  -- If `createEdgeOrPending` finds no target, then after any calls that add no node of that
  -- namespace, kind and name, adding the first such node, fresh and not yet in the graph, gives it
  -- an edge from the source, if the source is live then.
  pub create_edge_or_pending_later :
      (run : Reach (create_edge_or_pending memory u namespace kind name type g) h)
      → quiet (ref_key_of namespace kind name) run ≡ true
      → (e : Edge) × (out_edge u node.uid (add_node node h).nodes ≡ some e)
  create_edge_or_pending_later run calm =
      Waits-resolved_later u (ref_key_of namespace kind name) _ h node n fresh
        (ref_matches_of namespace kind name node.fields p q r) dead live run calm waits

  -- If `createReverseEdgeOrPending` finds no source, then after any calls that add no node of that
  -- namespace, kind and name, adding the first such node, fresh and not yet in the graph, gives it
  -- an edge to the target, if the target is live then.
  pub create_reverse_edge_or_pending_later :
      (run : Reach (create_reverse_edge_or_pending memory u namespace kind name type g) h)
      → quiet (ref_key_of namespace kind name) run ≡ true
      → (e : Edge) × (out_edge node.uid u (add_node node h).nodes ≡ some e)
  create_reverse_edge_or_pending_later run calm =
      ReverseWaits-resolved_later u (ref_key_of namespace kind name) _ h node n fresh
        (ref_matches_of namespace kind name node.fields p q r) dead live run calm reverse_waits
