-- ===== src/Api/Edges.antt =====
-- The answer of `buildGraphResponse` of pkg/api/responses.go: the edges between the nodes of the answer.
use astrolabe_server.Common.{
  String, string_key, Bool, true, none, some, List, [], ◌≡◌, ◌↔◌, inl, inr, refl, arith,
  Option-cases, ap, sym, ◌∙◌, subst,
}
use astrolabe_server.Common.Dict.{Dict, get}
use astrolabe_server.Graph.Types.{Uid, Edge, Node}
use astrolabe_server.Graph.Views.{out_edge}
use astrolabe_server.Graph.Linked.{IsLinked}
use astrolabe_server.Graph.Lookup.{All}
use astrolabe_server.Api.Related.{In, uids}
use astrolabe_server.Api.Responses.{
  type_text, EdgeResponse, edge_response, node_map, all_edges_within, build_graph_response,
}
use astrolabe_server.Api.Drawn.{
  marked, node_map-In, In-node_map, get-In, In-get, edges_within-In, In-edges_within,
  all_edges_within-In, In-all_edges_within, In-uids, uids-In, In-All,
}
use astrolabe_server.Graph.Entries.{Distinct}

-- The edge map of a UID in the main map, which each version of the node shares.
abbrev pub edges_of : Uid → Dict Uid Node → Dict Uid Edge
edges_of u ns = elim (get u ns) [ none ↦ [] | some n ↦ n.outgoing_edges ]

abbrev pub IsCurrent : Dict Uid Node → Node → Type 0
IsCurrent ns n = n.outgoing_edges ≡ edges_of n.uid ns

-- An edge of the main map between two of the nodes, with its type as a text.
abbrev pub IsBetween : Dict Uid Node → List Node → EdgeResponse → Type 0
IsBetween ns nodes r =
    In r.from (uids nodes)
    × In r.to (uids nodes)
    × ((e : Edge) × (out_edge r.from r.to ns ≡ some e) × (type_text e.type ≡ r.type))

module _ (ns : Dict Uid Node) (linked : IsLinked ns)
    (distinct : (u : Uid) (n : Node) → get u ns ≡ some n → Distinct n.outgoing_edges)
    (nodes : List Node) (current : All (IsCurrent ns) nodes) where
  edges_of-Distinct : (u : Uid) → Distinct (edges_of u ns)
  edges_of-Distinct u = elim (Option-cases (get u ns)) [
    | inl p ↦ subst (λ x. Distinct (elim x [ none ↦ [] | some n ↦ n.outgoing_edges ])) (sym p) tt
    | inr (n, p) ↦
        subst (λ x. Distinct (elim x [ none ↦ [] | some n ↦ n.outgoing_edges ])) (sym p)
          (distinct u n p)
  ]

  out_edge-edges_of : (a b : Uid) → out_edge a b ns ≡ get b (edges_of a ns)
  unfolding get
  out_edge-edges_of a b = ground (arith)

  abbrev marks : Dict String Bool
  marks = node_map nodes []

  from_marks : (u : Uid) → marked u marks ≡ true → In u (uids nodes)
  unfolding get
  from_marks u h = elim (In-node_map nodes [] u h) [ inl i ↦ i | inr q ↦ absurd (ground (arith)) ]

  shown_sound : (r : EdgeResponse) → In r (all_edges_within marks nodes) → IsBetween ns nodes r
  shown_sound r i =
      let (n, n_in, here) = In-all_edges_within marks nodes r i in
      let (k, e, e_in, hit, same) = In-edges_within marks n.outgoing_edges r here in
      let shared : n.outgoing_edges ≡ edges_of n.uid ns =
        In-All (IsCurrent ns) n nodes current n_in in
      let found : out_edge n.uid k ns ≡ some e =
        out_edge-edges_of n.uid k
        ∙ In-get k e (edges_of n.uid ns) (edges_of-Distinct n.uid)
            (subst (In (k, e)) shared e_in) in
      let (from, to) = linked.labelled n.uid k e found in
      subst (IsBetween ns nodes) (sym same) (
        subst (λ u. In u (uids nodes)) (sym from) (uids-In nodes n n_in),
        from_marks e.to_uid hit,
        (e, (λ i. out_edge (from i) (to i) ns) ∙ found, refl),
      )

  shown_complete : (r : EdgeResponse) → IsBetween ns nodes r → In r (all_edges_within marks nodes)
  shown_complete r (from_in, to_in, (e, found, type)) =
      let (n, n_in, same) = In-uids nodes r.from from_in in
      let (from, to) = linked.labelled r.from r.to e found in
      let shared : n.outgoing_edges ≡ edges_of n.uid ns =
        In-All (IsCurrent ns) n nodes current n_in in
      let entry : In (r.to, e) n.outgoing_edges =
        subst (In (r.to, e)) (sym (shared ∙ ap (λ u. edges_of u ns) same))
          (get-In r.to e (edges_of r.from ns) (sym (out_edge-edges_of r.from r.to) ∙ found)) in
      let hit : marked e.to_uid marks ≡ true =
        ap (λ u. marked u marks) to ∙ node_map-In nodes [] r.to (inl to_in) in
      let whole : edge_response e ≡ r = λ i. record { type = type i; from = from i; to = to i } in
      subst (λ x. In x (all_edges_within marks nodes)) whole
        (all_edges_within-In marks nodes n (edge_response e) n_in
          (edges_within-In marks n.outgoing_edges r.to e entry hit))

  --
  pub build_graph_response_exact :
      (r : EdgeResponse) → In r (build_graph_response nodes).edges ↔ IsBetween ns nodes r
  unfolding build_graph_response
  build_graph_response_exact r = (shown_sound r, shown_complete r)
