-- ===== src/Graph/Patience.antt =====
-- Pending edges of pkg/graph/types.go over sequences of calls.
use astrolabe_server.Common.{
  string_key, none, some, [], ◌∷◌, ◌++◌, ◌≡◌, arith, Bool, true, false, ◌&&◌, not, if◌then◌else◌,
}
use astrolabe_server.Common.Dict.{get, get_or, get-put}
use astrolabe_server.Graph.Types.{Uid, Edge, EdgeType, Node, Graph, RefKey, ref_key}
use astrolabe_server.Graph.Indexes.{add_to_indexes, remove_from_indexes}
use astrolabe_server.Graph.Pending.{
  ref_matches, process_pending_edges_for_node, add_pending_edge, add_reverse_pending_edge,
}
use astrolabe_server.Graph.Store.{add_node, remove_node, add_edge, remove_edge}
use astrolabe_server.Graph.Views.{out_edge, if_live}
use astrolabe_server.Graph.Additions.{IsFresh}
use astrolabe_server.Graph.Steps.{
  Step, Reach, add_node_step, remove_node_step, add_edge_step, remove_edge_step, add_pending_step,
  add_reverse_step, here, next,
}
use astrolabe_server.Graph.Waiting.{
  get-unmatched, waits_in-append, reverse_waits_in-append, Waits, ReverseWaits, Waits-resolved,
  ReverseWaits-resolved,
}

module _ (node : Node) (g : Graph) (r : RefKey) where
  -- Adding a new node takes away both kinds of pending entries under the references that it
  -- matches, and no others; an update takes away none.
  pub get-pending_edges-add_node :
      (get r (add_node node g).pending_edges
        ≡ if_live node.uid g.nodes
            (get r g.pending_edges)
            (if ref_matches r node.fields then none else get r g.pending_edges))
      × (get r (add_node node g).reverse_pending_edges
          ≡ if_live node.uid g.nodes
              (get r g.reverse_pending_edges)
              (if ref_matches r node.fields then none else get r g.reverse_pending_edges))
  unfolding add_node process_pending_edges_for_node add_to_indexes remove_from_indexes
  get-pending_edges-add_node = ground (
    arith,
    get-unmatched node.fields r g.pending_edges,
    get-unmatched node.fields r g.reverse_pending_edges,
  )

-- The step adds a node that the reference matches.
abbrev adds_match : {g h : Graph} → RefKey → Step g h → Bool
adds_match ref (add_node_step node _) = ref_matches ref node.fields
adds_match ref (remove_node_step _) = false
adds_match ref (add_edge_step _) = false
adds_match ref (remove_edge_step _ _) = false
adds_match ref (add_pending_step _ _ _) = false
adds_match ref (add_reverse_step _ _ _) = false

-- No step of the run does.
abbrev pub quiet : {g h : Graph} → RefKey → Reach g h → Bool
quiet ref here = true
quiet ref (next r s) = quiet ref r && not (adds_match ref s)

module _ (a : Uid) (ref : RefKey) where
  Step-Waits :
      {g h : Graph} (s : Step g h) → adds_match ref s ≡ false → Waits a ref g → Waits a ref h
  unfolding add_pending_edge add_reverse_pending_edge add_edge remove_edge remove_node
      remove_from_indexes
  Step-Waits {g} (add_node_step node fresh) q w =
      ground (arith, get-pending_edges-add_node node g ref)
  Step-Waits {g} (remove_node_step uid) q w = ground arith
  Step-Waits {g} (add_edge_step e) q w = ground arith
  Step-Waits {g} (remove_edge_step from to) q w = w
  Step-Waits {g} (add_pending_step from r type) q w = ground (
    arith,
    get-put ref r
        (get_or r [] g.pending_edges
          ++ (record { from_uid = from; target_ref = r; edge_type = type } ∷ []))
        g.pending_edges,
    waits_in-append a (get_or r [] g.pending_edges)
        (record { from_uid = from; target_ref = r; edge_type = type } ∷ []),
  )
  Step-Waits {g} (add_reverse_step to r type) q w = w

  Step-ReverseWaits :
      {g h : Graph} (s : Step g h)
      → adds_match ref s ≡ false
      → ReverseWaits a ref g
      → ReverseWaits a ref h
  unfolding add_pending_edge add_reverse_pending_edge add_edge remove_edge remove_node
      remove_from_indexes
  Step-ReverseWaits {g} (add_node_step node fresh) q w =
      ground (arith, get-pending_edges-add_node node g ref)
  Step-ReverseWaits {g} (remove_node_step uid) q w = ground arith
  Step-ReverseWaits {g} (add_edge_step e) q w = ground arith
  Step-ReverseWaits {g} (remove_edge_step from to) q w = w
  Step-ReverseWaits {g} (add_pending_step from r type) q w = w
  Step-ReverseWaits {g} (add_reverse_step to r type) q w = ground (
    arith,
    get-put ref r
        (get_or r [] g.reverse_pending_edges
          ++ (record { to_uid = to; source_ref = r; edge_type = type } ∷ []))
        g.reverse_pending_edges,
    reverse_waits_in-append a (get_or r [] g.reverse_pending_edges)
        (record { to_uid = to; source_ref = r; edge_type = type } ∷ []),
  )

  Reach-Waits : {g h : Graph} (r : Reach g h) → quiet ref r ≡ true → Waits a ref g → Waits a ref h
  Reach-Waits here q w = w
  Reach-Waits (next r s) q w = Step-Waits s (ground arith) (Reach-Waits r (ground arith) w)

  Reach-ReverseWaits :
      {g h : Graph} (r : Reach g h)
      → quiet ref r ≡ true
      → ReverseWaits a ref g
      → ReverseWaits a ref h
  Reach-ReverseWaits here q w = w
  Reach-ReverseWaits (next r s) q w =
      Step-ReverseWaits s (ground arith) (Reach-ReverseWaits r (ground arith) w)

  pub add_pending_edge-Waits :
      (type : EdgeType) (g : Graph) → Waits a ref (add_pending_edge a ref type g)
  unfolding add_pending_edge
  add_pending_edge-Waits type g = ground (
    arith,
    get-put ref ref
        (get_or ref [] g.pending_edges
          ++ (record { from_uid = a; target_ref = ref; edge_type = type } ∷ []))
        g.pending_edges,
    waits_in-append a (get_or ref [] g.pending_edges)
        (record { from_uid = a; target_ref = ref; edge_type = type } ∷ []),
  )

  pub add_reverse_pending_edge-ReverseWaits :
      (type : EdgeType) (g : Graph) → ReverseWaits a ref (add_reverse_pending_edge a ref type g)
  unfolding add_reverse_pending_edge
  add_reverse_pending_edge-ReverseWaits type g = ground (
    arith,
    get-put ref ref
        (get_or ref [] g.reverse_pending_edges
          ++ (record { to_uid = a; source_ref = ref; edge_type = type } ∷ []))
        g.reverse_pending_edges,
    reverse_waits_in-append a (get_or ref [] g.reverse_pending_edges)
        (record { to_uid = a; source_ref = ref; edge_type = type } ∷ []),
  )

  module _ (g h : Graph) (node n : Node) (fresh : IsFresh node)
      (match : ref_matches ref node.fields ≡ true) (dead : get node.uid h.nodes ≡ none)
      (live : get a h.nodes ≡ some n) (r : Reach g h) (calm : quiet ref r ≡ true) where
    -- A waiting entry is served however many calls lie in between: if none of them adds a node that
    -- the reference matches, the first new node that it matches gets the edge from the source, if
    -- the source is live then.
    pub Waits-resolved_later :
        Waits a ref g → (e : Edge) × (out_edge a node.uid (add_node node h).nodes ≡ some e)
    Waits-resolved_later w =
        Waits-resolved node h fresh dead ref match a n live (Reach-Waits r calm w)

    pub ReverseWaits-resolved_later :
        ReverseWaits a ref g → (e : Edge) × (out_edge node.uid a (add_node node h).nodes ≡ some e)
    ReverseWaits-resolved_later w =
        ReverseWaits-resolved node h fresh dead ref match a n live (Reach-ReverseWaits r calm w)
