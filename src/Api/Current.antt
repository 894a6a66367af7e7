-- ===== src/Api/Current.antt =====
-- The nodes that `handleGraph` of pkg/api/server.go answers with share their edge maps with the main
-- map, those that an index points at too.
use astrolabe_server.Common.{
  String, string_key, ◌||◌, some, List, [], ◌∷◌, map, ◌≡◌, inl, inr, arith, Option-cases,
  Bool-cases, ap, sym, ◌∙◌, subst, ◌==◌,
}
use astrolabe_server.Common.Dict.{Dict, get}
use astrolabe_server.Graph.Types.{Uid, Edge, Node, NodeData, Graph}
use astrolabe_server.Graph.Queries.{get_all_nodes, get_nodes_by_helm_release}
use astrolabe_server.Graph.Linked.{IsLinked}
use astrolabe_server.Graph.Lookup.{All}
use astrolabe_server.Api.Filtering.{targets, sources, neighbours}
use astrolabe_server.Api.Ends.{All-append}
use astrolabe_server.Api.Related.{All-map, Related, in_base, by_edge}
use astrolabe_server.Api.Included.{ComesFrom-IsStored}
use astrolabe_server.Api.Claims.{ComesFrom}
use astrolabe_server.Api.Inclusion.{include_persistent_volumes-IsInclusion}
use astrolabe_server.Api.Volumes.{include_persistent_volumes}
use astrolabe_server.Api.Expansion.{expand_related_nodes-IsExpansion}
use astrolabe_server.Api.Handlers.{
  indexed_node, release_objects, in_namespace, filter_namespace, graph_nodes,
}
use astrolabe_server.Api.Drawn.{In-All}
use astrolabe_server.Api.Edges.{edges_of, IsCurrent}
use astrolabe_server.Graph.Entries.{Distinct, All-entries}

in_namespace-All :
    (P : Node → Type 0) (namespace : String) (nodes : List Node)
    → All P nodes
    → All P (in_namespace namespace nodes)
unfolding in_namespace
in_namespace-All P namespace [] h = tt
in_namespace-All P namespace (n ∷ nodes) h =
    elim (Bool-cases (n.namespace == namespace || n.namespace == "")) [
      | inl p ↦ rw (p, in_namespace) (h.0, in_namespace-All P namespace nodes h.1)
      | inr p ↦ rw (p, in_namespace) (in_namespace-All P namespace nodes h.1)
    ]

filter_namespace-All :
    (P : Node → Type 0) (namespace : String) (nodes : List Node)
    → All P nodes
    → All P (filter_namespace namespace nodes)
filter_namespace-All P namespace nodes h = elim (Bool-cases (namespace == "")) [
  | inl p ↦ rw p h
  | inr p ↦ rw p (in_namespace-All P namespace nodes h)
]

All-values :
    (P : Node → Type 0) (m : Dict Uid Node)
    → All (λ entry. P entry.1) m
    → All P (map (λ entry. entry.1) m)
All-values P [] h = tt
All-values P (x ∷ m) h = (h.0, All-values P m h.1)

module _ (g : Graph) (linked : IsLinked g.nodes) (distinct : Distinct g.nodes) where
  live-IsCurrent : (u : Uid) (n : Node) → get u g.nodes ≡ some n → IsCurrent g.nodes n
  live-IsCurrent u n h =
      let same : n.uid ≡ u = linked.keyed u n.fields (ground (arith)) in
      sym (ap (λ v. edges_of v g.nodes) same ∙ ground (arith))

  indexed_node-IsCurrent : (n : NodeData) → IsCurrent g.nodes (indexed_node g n)
  unfolding indexed_node
  indexed_node-IsCurrent n = elim (Option-cases (get n.uid g.nodes)) [
    | inl p ↦ ground (arith)
    | inr (m, p) ↦ ground (arith)
  ]

  release_objects-All : (ns : List NodeData) → All (IsCurrent g.nodes) (map (indexed_node g) ns)
  release_objects-All [] = tt
  release_objects-All (n ∷ ns) = (indexed_node-IsCurrent n, release_objects-All ns)

  get_all_nodes-All : All (IsCurrent g.nodes) (get_all_nodes g)
  unfolding get_all_nodes
  get_all_nodes-All =
      All-values (IsCurrent g.nodes) g.nodes
        (All-entries (λ k n. IsCurrent g.nodes n) g.nodes distinct live-IsCurrent)

  targets-All : (es : List (Uid × Edge)) → All (IsCurrent g.nodes) (targets g es)
  unfolding targets
  targets-All [] = tt
  targets-All ((_, e) ∷ es) = elim (Option-cases (get e.to_uid g.nodes)) [
    | inl p ↦ rw (p, targets) (targets-All es)
    | inr (n, p) ↦ rw (p, targets) (live-IsCurrent e.to_uid n p, targets-All es)
  ]

  sources-All : (es : List (Uid × Edge)) → All (IsCurrent g.nodes) (sources g es)
  unfolding sources
  sources-All [] = tt
  sources-All ((_, e) ∷ es) = elim (Option-cases (get e.from_uid g.nodes)) [
    | inl p ↦ rw (p, sources) (sources-All es)
    | inr (n, p) ↦ rw (p, sources) (live-IsCurrent e.from_uid n p, sources-All es)
  ]

  neighbours-All : (n : Node) → All (IsCurrent g.nodes) (neighbours g n)
  unfolding neighbours
  neighbours-All n =
      All-append (IsCurrent g.nodes) (targets g n.outgoing_edges) (sources g n.incoming_edges)
        (targets-All n.outgoing_edges) (sources-All n.incoming_edges)

  Related-IsCurrent :
      (namespace release : String) (base : List Node)
      → All (IsCurrent g.nodes) base
      → (n : Node) → Related g namespace release base n
      → IsCurrent g.nodes n
  Related-IsCurrent namespace release base h _ (in_base n i) = In-All (IsCurrent g.nodes) n base h i
  Related-IsCurrent namespace release base h _ (by_edge c n r i ok) =
      In-All (IsCurrent g.nodes) n (neighbours g c) (neighbours-All c) i

  include_persistent_volumes-All :
      (nodes : List Node) (release : String)
      → All (IsCurrent g.nodes) nodes
      → All (IsCurrent g.nodes) (include_persistent_volumes g nodes release)
  include_persistent_volumes-All nodes release h =
      let i = include_persistent_volumes-IsInclusion g nodes release in
      subst (All (IsCurrent g.nodes)) (sym i.grown) (
        All-append (IsCurrent g.nodes) nodes i.extra h (
          All-map (ComesFrom g release nodes) (IsCurrent g.nodes) i.extra
            (λ n from.
              In-All (IsCurrent g.nodes) n (get_all_nodes g) get_all_nodes-All
                (ComesFrom-IsStored g release nodes n from))
            i.sound))

  pub graph_nodes-All :
      (release namespace : String)
      → (nodes : List Node) × (graph_nodes g release namespace ≡ some nodes)
        × All (IsCurrent g.nodes) nodes
  unfolding graph_nodes release_objects
  graph_nodes-All release namespace = elim (Bool-cases (release == "")) [
    | inl p ↦
        let base = filter_namespace namespace (get_all_nodes g) in
        (
          include_persistent_volumes g base "",
          ground (arith),
          include_persistent_volumes-All base "" (
              filter_namespace-All (IsCurrent g.nodes) namespace (get_all_nodes g)
                get_all_nodes-All),
        )
    | inr p ↦
        let base = filter_namespace namespace (release_objects release g) in
        let (found, ends, e) = expand_related_nodes-IsExpansion g base namespace release in
        let current =
          filter_namespace-All (IsCurrent g.nodes) namespace (release_objects release g)
            (release_objects-All (get_nodes_by_helm_release release g)) in
        (
          include_persistent_volumes g found release,
          ground (arith, ends),
          include_persistent_volumes-All found release (
              All-map (Related g namespace release base) (IsCurrent g.nodes) found
                (Related-IsCurrent namespace release base current) e.related),
        )
  ]
