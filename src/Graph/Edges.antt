-- ===== src/Graph/Edges.antt =====
-- The fields and the edges that a reader finds after `RemoveNode`, `AddEdge` and `RemoveEdge` of
-- pkg/graph/types.go.
use astrolabe_server.Common.{
  str_dec, string_key, none, some, [], ◌∷◌, ite, ◌≡◌, arith, Option-cases, inl, inr, true, false,
}
use astrolabe_server.Common.Dict.{get}
use astrolabe_server.Graph.Types.{Uid, Edge, Node, Graph}
use astrolabe_server.Graph.Pending.{link}
use astrolabe_server.Graph.Store.{remove_node, add_edge, remove_edge}
use astrolabe_server.Graph.Views.{fields_of, out_edge, in_edge, if_live}
use astrolabe_server.Graph.Linked.{
  IsLinked, fields_of-link, out_edge-link, in_edge-link, link-IsLinked,
}
use astrolabe_server.Graph.Removal.{
  removed, fields_of-removed, out_edge-removed, in_edge-removed, removed-IsLinked, fields_of-cut,
  out_edge-cut, in_edge-cut, cut-IsLinked,
}
use astrolabe_server.Graph.Matching.{last_edge, overlay}

module _ (uid : Uid) (g : Graph) where
  -- A removed node is gone, and the others keep their fields.
  pub fields_of-remove_node :
      (a : Uid)
      → fields_of a (remove_node uid g).nodes ≡ ite (str_dec uid a) none (fields_of a g.nodes)
  unfolding remove_node
  fields_of-remove_node a = elim (Option-cases (get uid g.nodes)) [
    | inl dead ↦ ground arith
    | inr (node, live) ↦ ground (arith, fields_of-removed uid node g.nodes a)
  ]

  out_edge-remove_node :
      IsLinked g.nodes
      → (a b : Uid)
      → out_edge a b (remove_node uid g).nodes
        ≡ ite (str_dec uid a) none (ite (str_dec uid b) none (out_edge a b g.nodes))
  unfolding remove_node
  out_edge-remove_node h a b = elim (Option-cases (get uid g.nodes)) [
    | inl dead ↦ ground (arith, h.mirrored a b)
    | inr (node, live) ↦ ground (arith, out_edge-removed uid node g.nodes live h a b)
  ]

  in_edge-remove_node :
      IsLinked g.nodes
      → (a b : Uid)
      → in_edge a b (remove_node uid g).nodes
        ≡ ite (str_dec uid a) none (ite (str_dec uid b) none (in_edge a b g.nodes))
  unfolding remove_node
  in_edge-remove_node h a b = elim (Option-cases (get uid g.nodes)) [
    | inl dead ↦ ground (arith, h.mirrored a b)
    | inr (node, live) ↦ ground (arith, in_edge-removed uid node g.nodes live h a b)
  ]

  -- In a graph whose edges stand at both ends, `RemoveNode` leaves no edge from or to the node, in
  -- the outgoing edges of any node or in the incoming ones, and every other entry of both as it
  -- was.
  pub edges-remove_node :
      IsLinked g.nodes
      → (a b : Uid)
      → (out_edge a b (remove_node uid g).nodes
          ≡ ite (str_dec uid a) none (ite (str_dec uid b) none (out_edge a b g.nodes)))
        × (in_edge a b (remove_node uid g).nodes
            ≡ ite (str_dec uid a) none (ite (str_dec uid b) none (in_edge a b g.nodes)))
  edges-remove_node h a b = (out_edge-remove_node h a b, in_edge-remove_node h a b)

  nodes-remove_node_dead : get uid g.nodes ≡ none → remove_node uid g ≡ g
  unfolding remove_node
  nodes-remove_node_dead dead = rw (dead, remove_node)

  nodes-remove_node_live :
      (node : Node)
      → get uid g.nodes ≡ some node
      → (remove_node uid g).nodes ≡ removed uid node g.nodes
  unfolding remove_node
  nodes-remove_node_live node live = rw (live, remove_node)

  pub remove_node-IsLinked : IsLinked g.nodes → IsLinked (remove_node uid g).nodes
  remove_node-IsLinked h = elim (Option-cases (get uid g.nodes)) [
    | inl dead ↦ rw (nodes-remove_node_dead dead) h
    | inr (node, live) ↦
        rw (nodes-remove_node_live node live) (removed-IsLinked uid node g.nodes live h)
  ]

module _ (e : Edge) (g : Graph) where
  add_edge_live :
      (n m : Node)
      → get e.from_uid g.nodes ≡ some n
      → get e.to_uid g.nodes ≡ some m
      → add_edge e g ≡ (record g { nodes = link e g.nodes }, true)
  unfolding add_edge
  add_edge_live n m from to = rw (from, add_edge, to)

  add_edge_no_source : get e.from_uid g.nodes ≡ none → add_edge e g ≡ (g, false)
  unfolding add_edge
  add_edge_no_source from = rw (from, add_edge)

  add_edge_no_target : get e.to_uid g.nodes ≡ none → add_edge e g ≡ (g, false)
  unfolding add_edge
  add_edge_no_target to = ground arith

  pub fields_of-add_edge : (a : Uid) → fields_of a (add_edge e g).0.nodes ≡ fields_of a g.nodes
  unfolding add_edge
  fields_of-add_edge a = ground (arith, fields_of-link e g.nodes a)

  pub out_edge-add_edge :
      (a b : Uid)
      → out_edge a b (add_edge e g).0.nodes
        ≡ overlay a b (last_edge a b (e ∷ [])) g.nodes (out_edge a b g.nodes)
  out_edge-add_edge a b = elim (Option-cases (get e.from_uid g.nodes)) [
    | inl p ↦ ground (arith, add_edge_no_source p)
    | inr (n, p) ↦ elim (Option-cases (get e.to_uid g.nodes)) [
      | inl q ↦ ground (arith, add_edge_no_target q)
      | inr (m, q) ↦ ground (arith, add_edge_live n m p q, out_edge-link e g.nodes n m p q a b)
    ]
  ]

  in_edge-add_edge :
      (a b : Uid)
      → in_edge a b (add_edge e g).0.nodes
        ≡ overlay a b (last_edge a b (e ∷ [])) g.nodes (in_edge a b g.nodes)
  in_edge-add_edge a b = elim (Option-cases (get e.from_uid g.nodes)) [
    | inl p ↦ ground (arith, add_edge_no_source p)
    | inr (n, p) ↦ elim (Option-cases (get e.to_uid g.nodes)) [
      | inl q ↦ ground (arith, add_edge_no_target q)
      | inr (m, q) ↦ ground (arith, add_edge_live n m p q, in_edge-link e g.nodes n m p q a b)
    ]
  ]

  add_edge_reports :
      (add_edge e g).1 ≡ if_live e.from_uid g.nodes (if_live e.to_uid g.nodes true false) false
  unfolding add_edge
  add_edge_reports = ground arith

  -- `AddEdge` reports whether both ends are live. If so the edge replaces any edge between the two,
  -- in the outgoing edges of the one and in the incoming edges of the other, and no other entry
  -- changes; if not no entry changes.
  pub edges-add_edge :
      (a b : Uid)
      → (out_edge a b (add_edge e g).0.nodes
          ≡ overlay a b (last_edge a b (e ∷ [])) g.nodes (out_edge a b g.nodes))
        × (in_edge a b (add_edge e g).0.nodes
            ≡ overlay a b (last_edge a b (e ∷ [])) g.nodes (in_edge a b g.nodes))
        × ((add_edge e g).1
            ≡ if_live e.from_uid g.nodes (if_live e.to_uid g.nodes true false) false)
  edges-add_edge a b = (out_edge-add_edge a b, in_edge-add_edge a b, add_edge_reports)

  pub add_edge-IsLinked : IsLinked g.nodes → IsLinked (add_edge e g).0.nodes
  add_edge-IsLinked h = elim (Option-cases (get e.from_uid g.nodes)) [
    | inl p ↦ rw (add_edge_no_source p) h
    | inr (n, p) ↦ elim (Option-cases (get e.to_uid g.nodes)) [
      | inl q ↦ rw (add_edge_no_target q) h
      | inr (m, q) ↦ rw (add_edge_live n m p q) (link-IsLinked e g.nodes n m p q h)
    ]
  ]

module _ (from to : Uid) (g : Graph) where
  pub fields_of-remove_edge :
      (a : Uid) → fields_of a (remove_edge from to g).nodes ≡ fields_of a g.nodes
  unfolding remove_edge
  fields_of-remove_edge = fields_of-cut from to g.nodes

  -- `RemoveEdge` removes the edge between the two nodes from the outgoing edges of the one and from
  -- the incoming edges of the other, and no other entry of either kind.
  pub edges-remove_edge :
      (a b : Uid)
      → (out_edge a b (remove_edge from to g).nodes
          ≡ ite
              (str_dec from a)
              (ite (str_dec to b) none (out_edge a b g.nodes))
              (out_edge a b g.nodes))
        × (in_edge a b (remove_edge from to g).nodes
            ≡ ite
                (str_dec from a)
                (ite (str_dec to b) none (in_edge a b g.nodes))
                (in_edge a b g.nodes))
  unfolding remove_edge
  edges-remove_edge a b =
      (out_edge-cut from to g.nodes a b, ground (arith, in_edge-cut from to g.nodes a b))

  pub remove_edge-IsLinked : IsLinked g.nodes → IsLinked (remove_edge from to g).nodes
  unfolding remove_edge
  remove_edge-IsLinked = cut-IsLinked from to g.nodes
