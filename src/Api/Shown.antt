-- ===== src/Api/Shown.antt =====
-- The answer of `handleGraph` of pkg/api/server.go: nodes, and the edges between them.
use astrolabe_server.Common.{
  String, string_key, some, List, [], ◌∷◌, map, ◌≡◌, ◌↔◌, refl, arith, ap, sym, subst,
}
use astrolabe_server.Common.Dict.{Dict}
use astrolabe_server.Graph.Types.{Uid, Edge, Node, Graph}
use astrolabe_server.Graph.Views.{out_edge}
use astrolabe_server.Graph.Steps.{IsConsistent, Reach, Reach-IsConsistent, new_graph-IsConsistent}
use astrolabe_server.Graph.Store.{new_graph}
use astrolabe_server.Graph.Once.{new_graph-IsOnce}
use astrolabe_server.Api.Related.{In, uids}
use astrolabe_server.Api.Responses.{
  type_text, EdgeResponse, GraphResponse, node_response, build_graph_response,
}
use astrolabe_server.Api.Replies.{handle_graph}
use astrolabe_server.Api.Edges.{IsBetween, build_graph_response_exact}
use astrolabe_server.Api.Current.{graph_nodes-All}

-- An edge of the main map, with its type as a text, whose two ends are among the nodes of the answer.
abbrev pub IsShown : Dict Uid Node → GraphResponse → EdgeResponse → Type 0
IsShown ns answer r =
    In r.from (map (λ n. n.uid) answer.nodes)
    × In r.to (map (λ n. n.uid) answer.nodes)
    × ((e : Edge) × (out_edge r.from r.to ns ≡ some e) × (type_text e.type ≡ r.type))

uids-node_response : (nodes : List Node) → map (λ n. n.uid) (map node_response nodes) ≡ uids nodes
uids-node_response [] = refl
uids-node_response (n ∷ nodes) = ap (λ us. n.uid ∷ us) (uids-node_response nodes)

module _ (g : Graph) (reach : Reach new_graph g) where
  abbrev c : IsConsistent g
  c = Reach-IsConsistent reach new_graph-IsConsistent

  answer_edges :
      (nodes : List Node) (r : EdgeResponse)
      → (In r (build_graph_response nodes).edges ↔ IsBetween g.nodes nodes r)
      → (In r (build_graph_response nodes).edges ↔ IsShown g.nodes (build_graph_response nodes) r)
  unfolding build_graph_response
  answer_edges nodes r h =
      subst
        (λ us. In r (build_graph_response nodes).edges ↔ (
          In r.from us
          × In r.to us
          × ((e : Edge) × (out_edge r.from r.to g.nodes ≡ some e) × (type_text e.type ≡ r.type))))
        (sym (uids-node_response nodes)) h

  -- In any graph that calls of the graph's operations make of the empty one, `handleGraph` answers
  -- every query, and an edge stands in the answer exactly if its two ends are among the nodes of
  -- the answer and the main map has an edge of its type between them.
  pub handle_graph_exact :
      (release namespace : String)
      → (answer : GraphResponse) × (handle_graph g release namespace ≡ some answer)
        × ((r : EdgeResponse) → In r answer.edges ↔ IsShown g.nodes answer r)
  unfolding handle_graph
  handle_graph_exact release namespace =
      let once = new_graph-IsOnce reach in
      let (nodes, found, current) = graph_nodes-All g c.linked once.nodes release namespace in
      (
        build_graph_response nodes,
        ground (arith, found),
        λ r.
            answer_edges nodes r
              (build_graph_response_exact g.nodes c.linked once.edges nodes current r),
      )
