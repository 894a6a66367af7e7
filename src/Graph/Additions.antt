-- ===== src/Graph/Additions.antt =====
-- The fields and the edges that a reader finds after `AddNode` of pkg/graph/types.go, for an update
-- and for a new node.
use astrolabe_server.Common.{
  str_dec, string_key, Option, none, some, [], ite, ◌≡◌, arith, sym, ap, Option-cases, inl, inr,
  Bool-cases, ◌∙◌,
}
use astrolabe_server.Common.Dict.{Dict, get, put, get-put}
use astrolabe_server.Graph.Types.{Uid, Edge, Node, NodeData, Graph}
use astrolabe_server.Graph.Store.{add_node, needs_reindex}
use astrolabe_server.Graph.Views.{fields_of, out_edge, in_edge}
use astrolabe_server.Graph.Linked.{IsLinked}
use astrolabe_server.Graph.Matching.{
  last_edge, overlay, link_all, waiting_to, waiting_from, link_all-IsLinked, fields_of-link_all,
  out_edge-link_all, in_edge-link_all, link_matching-link_all, link_matching_reverse-link_all,
}

-- A node as `NewNodeFromObject` makes it: without edges.
pub record IsFresh (node : Node) : Type 0 where
  pub no_outgoing : node.outgoing_edges ≡ []
  pub no_incoming : node.incoming_edges ≡ []

-- The edges between `a` and `b` that wait for a node, the later ones over the earlier.
abbrev pub resolved : Uid → Uid → NodeData → Graph → Dict Uid Node → Option Edge → Option Edge
resolved a b n g ns old =
    overlay a b (last_edge a b (waiting_from n g.reverse_pending_edges)) ns
      (overlay a b (last_edge a b (waiting_to n g.pending_edges)) ns old)

module _ (node : Node) (g : Graph) where
  abbrev stored : Dict Uid Node
  stored = put node.uid node g.nodes

  module _ (old : Node) (live : get node.uid g.nodes ≡ some old) where
    abbrev pub kept : Node
    kept = record node { outgoing_edges = old.outgoing_edges; incoming_edges = old.incoming_edges }

    pub nodes-add_node_update : (add_node node g).nodes ≡ put node.uid kept g.nodes
    unfolding add_node
    nodes-add_node_update = elim (Bool-cases (needs_reindex old.fields node.fields)) [
      | inl yes' ↦ rw (live, add_node, yes')
      | inr no' ↦ rw (live, add_node, no')
    ]

    fields_of-add_node_update :
        (a : Uid)
        → fields_of a (add_node node g).nodes
          ≡ ite (str_dec node.uid a) (some node.fields) (fields_of a g.nodes)
    fields_of-add_node_update a =
        rw nodes-add_node_update (ground (arith, get-put a node.uid kept g.nodes))

    pub out_edge-add_node_update :
        (a b : Uid) → out_edge a b (add_node node g).nodes ≡ out_edge a b g.nodes
    out_edge-add_node_update a b =
        rw nodes-add_node_update (ground (arith, get-put a node.uid kept g.nodes))

    in_edge-add_node_update :
        (a b : Uid) → in_edge a b (add_node node g).nodes ≡ in_edge a b g.nodes
    in_edge-add_node_update a b =
        rw nodes-add_node_update (ground (arith, get-put b node.uid kept g.nodes))

    add_node_update-IsLinked : IsLinked g.nodes → IsLinked (add_node node g).nodes
    add_node_update-IsLinked h = record {
      mirrored =
          λ a b. out_edge-add_node_update a b ∙ h.mirrored a b ∙ sym (in_edge-add_node_update a b);
      labelled = λ a b e q. h.labelled a b e (sym (out_edge-add_node_update a b) ∙ q);
      keyed = λ a n q. ground (arith, fields_of-add_node_update a, h.keyed a n);
    }

  module _ (dead : get node.uid g.nodes ≡ none) where
    fields_of-stored :
        (a : Uid)
        → fields_of a stored ≡ ite (str_dec node.uid a) (some node.fields) (fields_of a g.nodes)
    fields_of-stored a = ground (arith, get-put a node.uid node g.nodes)

    abbrev half : Dict Uid Node
    half = link_all (waiting_to node.fields g.pending_edges) stored

    nodes-add_node_new :
        (add_node node g).nodes ≡ link_all (waiting_from node.fields g.reverse_pending_edges) half
    unfolding add_node
    nodes-add_node_new =
        let here : fields_of node.uid stored ≡ some node.fields =
          ground (arith, fields_of-stored node.uid) in
        rw (dead, add_node)
          (ground (
            arith,
            link_matching-link_all node.fields node.fields g.pending_edges stored,
            link_matching_reverse-link_all node.fields node.fields g.reverse_pending_edges half,
            fields_of-link_all (waiting_to node.fields g.pending_edges) stored node.uid,
          ))

    fields_of-add_node_new :
        (a : Uid)
        → fields_of a (add_node node g).nodes
          ≡ ite (str_dec node.uid a) (some node.fields) (fields_of a g.nodes)
    fields_of-add_node_new a =
        ap (fields_of a) nodes-add_node_new
        ∙ fields_of-link_all (waiting_from node.fields g.reverse_pending_edges) half a
        ∙ fields_of-link_all (waiting_to node.fields g.pending_edges) stored a
        ∙ fields_of-stored a

    module _ (fresh : IsFresh node) where
      out_edge-stored : (a b : Uid) → out_edge a b stored ≡ out_edge a b g.nodes
      unfolding get
      out_edge-stored a b = ground (arith, get-put a node.uid node g.nodes)

      in_edge-stored : (a b : Uid) → in_edge a b stored ≡ in_edge a b g.nodes
      unfolding get
      in_edge-stored a b = ground (arith, get-put b node.uid node g.nodes)

      stored-IsLinked : IsLinked g.nodes → IsLinked stored
      stored-IsLinked h = record {
        mirrored = λ a b. out_edge-stored a b ∙ h.mirrored a b ∙ sym (in_edge-stored a b);
        labelled = λ a b e q. h.labelled a b e (sym (out_edge-stored a b) ∙ q);
        keyed = λ a n q. ground (arith, fields_of-stored a, h.keyed a n);
      }

      add_node_new-IsLinked : IsLinked g.nodes → IsLinked (add_node node g).nodes
      add_node_new-IsLinked h = rw nodes-add_node_new (
          link_all-IsLinked (waiting_from node.fields g.reverse_pending_edges) half
            (link_all-IsLinked (waiting_to node.fields g.pending_edges) stored (stored-IsLinked h)))

      pub out_edge-add_node_new :
          (a b : Uid)
          → out_edge a b (add_node node g).nodes
            ≡ resolved a b node.fields g (add_node node g).nodes (out_edge a b g.nodes)
      out_edge-add_node_new a b = ground (
        arith,
        ap (out_edge a b) nodes-add_node_new,
        ap (fields_of a) nodes-add_node_new,
        ap (fields_of b) nodes-add_node_new,
        out_edge-link_all (waiting_from node.fields g.reverse_pending_edges) half a b,
        out_edge-link_all (waiting_to node.fields g.pending_edges) stored a b,
        out_edge-stored a b,
        fields_of-link_all (waiting_from node.fields g.reverse_pending_edges) half a,
        fields_of-link_all (waiting_from node.fields g.reverse_pending_edges) half b,
        fields_of-link_all (waiting_to node.fields g.pending_edges) stored a,
        fields_of-link_all (waiting_to node.fields g.pending_edges) stored b,
      )

      in_edge-add_node_new :
          (a b : Uid)
          → in_edge a b (add_node node g).nodes
            ≡ resolved a b node.fields g (add_node node g).nodes (in_edge a b g.nodes)
      in_edge-add_node_new a b = ground (
        arith,
        ap (in_edge a b) nodes-add_node_new,
        ap (fields_of a) nodes-add_node_new,
        ap (fields_of b) nodes-add_node_new,
        in_edge-link_all (waiting_from node.fields g.reverse_pending_edges) half a b,
        in_edge-link_all (waiting_to node.fields g.pending_edges) stored a b,
        in_edge-stored a b,
        fields_of-link_all (waiting_from node.fields g.reverse_pending_edges) half a,
        fields_of-link_all (waiting_from node.fields g.reverse_pending_edges) half b,
        fields_of-link_all (waiting_to node.fields g.pending_edges) stored a,
        fields_of-link_all (waiting_to node.fields g.pending_edges) stored b,
      )

      -- The edges after a fresh node that is not yet in the graph is added, in the outgoing edges
      -- of one end and in the incoming edges of the other: those from before, replaced by the last
      -- pending edge between the two ends that the node resolves, where both ends are live.
      pub edges-add_node_new :
          (a b : Uid)
          → (out_edge a b (add_node node g).nodes
              ≡ resolved a b node.fields g (add_node node g).nodes (out_edge a b g.nodes))
            × (in_edge a b (add_node node g).nodes
                ≡ resolved a b node.fields g (add_node node g).nodes (in_edge a b g.nodes))
      edges-add_node_new a b = (out_edge-add_node_new a b, in_edge-add_node_new a b)

  -- After `AddNode` the node has its new fields, and every other node keeps its fields.
  pub fields_of-add_node :
      (a : Uid)
      → fields_of a (add_node node g).nodes
        ≡ ite (str_dec node.uid a) (some node.fields) (fields_of a g.nodes)
  fields_of-add_node a = elim (Option-cases (get node.uid g.nodes)) [
    | inl dead ↦ fields_of-add_node_new dead a
    | inr (old, live) ↦ fields_of-add_node_update old live a
  ]

  pub add_node-IsLinked : IsFresh node → IsLinked g.nodes → IsLinked (add_node node g).nodes
  add_node-IsLinked fresh h = elim (Option-cases (get node.uid g.nodes)) [
    | inl dead ↦ add_node_new-IsLinked dead fresh h
    | inr (old, live) ↦ add_node_update-IsLinked old live h
  ]
