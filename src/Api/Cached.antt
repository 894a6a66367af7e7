-- ===== src/Api/Cached.antt =====
-- The cache of `nodesToResources` of pkg/api/responses.go against lookups in the graph.
use astrolabe_server.Common.{
  ℕ, String, string_key, Option, some, List, [], ◌∷◌, ◌≡◌, map, refl, arith, Option-cases, inl, inr,
}
use astrolabe_server.Common.Dict.{Dict, get, get-put}
use astrolabe_server.Common.Int.{ℤ}
use astrolabe_server.Graph.Types.{
  Uid, Edge, EdgeType, Node, Graph, edge_service_selector, edge_pod_volume, edge_config_map_ref,
  edge_secret_ref,
}
use astrolabe_server.Graph.Queries.{get_node}
use astrolabe_server.Graph.Lookup.{All}
use astrolabe_server.Api.Related.{All-map}
use astrolabe_server.Api.Responses.{
  cache_node, cache_sources, cache_targets, uid_cache, related_node_names, owner_references,
  service_account_name, resource_of, nodes_to_resources,
}

-- A cache holds nodes of the graph; it is right at a UID if it answers as the graph does.
abbrev IsCache : Graph → Dict Uid Node → Type 0
IsCache g cache = (u : Uid) (n : Node) → get u cache ≡ some n → get u g.nodes ≡ some n

abbrev IsRight : Graph → Dict Uid Node → Uid → Type 0
IsRight g cache u = get u cache ≡ get u g.nodes

module _ (g : Graph) where
  cache_node-IsCache :
      (u : Uid) (cache : Dict Uid Node) → IsCache g cache → IsCache g (cache_node g u cache)
  unfolding cache_node
  cache_node-IsCache u cache h v n q = elim (Option-cases (get u cache)) [
    | inl p ↦ elim (Option-cases (get u g.nodes)) [
      | inl d ↦ ground (arith, h v n)
      | inr (m, l) ↦ ground (arith, h v n, get-put v u m cache)
    ]
    | inr (m, p) ↦ ground (arith, h v n)
  ]

  cache_node-IsRight :
      (u : Uid) (cache : Dict Uid Node) (v : Uid)
      → IsRight g cache v
      → IsRight g (cache_node g u cache) v
  unfolding cache_node
  cache_node-IsRight u cache v h = elim (Option-cases (get u cache)) [
    | inl p ↦ elim (Option-cases (get u g.nodes)) [
      | inl d ↦ ground (arith)
      | inr (m, l) ↦ ground (arith, get-put v u m cache)
    ]
    | inr (m, p) ↦ ground (arith)
  ]

  cached-IsRight :
      (u : Uid) (cache : Dict Uid Node) → IsCache g cache → IsRight g (cache_node g u cache) u
  unfolding cache_node
  cached-IsRight u cache h = elim (Option-cases (get u cache)) [
    | inl p ↦ elim (Option-cases (get u g.nodes)) [
      | inl d ↦ ground (arith)
      | inr (m, l) ↦ ground (arith, get-put u u m cache)
    ]
    | inr (m, p) ↦ ground (arith, h u m p)
  ]

  -- What every step of the cache keeps, the loops keep.
  module _ (P : Dict Uid Node → Type 0)
      (step : (u : Uid) (cache : Dict Uid Node) → P cache → P (cache_node g u cache)) where
    cache_sources_keeps :
        (es : List (Uid × Edge)) (cache : Dict Uid Node) → P cache → P (cache_sources g es cache)
    unfolding cache_sources
    cache_sources_keeps [] cache h = h
    cache_sources_keeps ((_, e) ∷ es) cache h =
        cache_sources_keeps es (cache_node g e.from_uid cache) (step e.from_uid cache h)

    cache_targets_keeps :
        (es : List (Uid × Edge)) (cache : Dict Uid Node) → P cache → P (cache_targets g es cache)
    unfolding cache_targets
    cache_targets_keeps [] cache h = h
    cache_targets_keeps ((_, e) ∷ es) cache h =
        cache_targets_keeps es (cache_node g e.to_uid cache) (step e.to_uid cache h)

    uid_cache_keeps :
        (nodes : List Node) (cache : Dict Uid Node) → P cache → P (uid_cache g nodes cache)
    unfolding uid_cache
    uid_cache_keeps [] cache h = h
    uid_cache_keeps (n ∷ nodes) cache h =
        uid_cache_keeps nodes
          (cache_targets g n.outgoing_edges (cache_sources g n.incoming_edges cache))
          (cache_targets_keeps n.outgoing_edges (cache_sources g n.incoming_edges cache)
            (cache_sources_keeps n.incoming_edges cache h))

  cache_sources-All :
      (es : List (Uid × Edge)) (cache : Dict Uid Node)
      → IsCache g cache
      → All (λ entry. IsRight g (cache_sources g es cache) entry.1.from_uid) es
  unfolding cache_sources
  cache_sources-All [] cache h = tt
  cache_sources-All ((_, e) ∷ es) cache h =
      let next = cache_node g e.from_uid cache in
      (
        cache_sources_keeps (λ c. IsRight g c e.from_uid) (λ u c. cache_node-IsRight u c e.from_uid)
            es next (cached-IsRight e.from_uid cache h),
        cache_sources-All es next (cache_node-IsCache e.from_uid cache h),
      )

  cache_targets-All :
      (es : List (Uid × Edge)) (cache : Dict Uid Node)
      → IsCache g cache
      → All (λ entry. IsRight g (cache_targets g es cache) entry.1.to_uid) es
  unfolding cache_targets
  cache_targets-All [] cache h = tt
  cache_targets-All ((_, e) ∷ es) cache h =
      let next = cache_node g e.to_uid cache in
      (
        cache_targets_keeps (λ c. IsRight g c e.to_uid) (λ u c. cache_node-IsRight u c e.to_uid) es
            next (cached-IsRight e.to_uid cache h),
        cache_targets-All es next (cache_node-IsCache e.to_uid cache h),
      )

  abbrev IsCovered : Dict Uid Node → Node → Type 0
  IsCovered cache n =
      All (λ entry. IsRight g cache entry.1.from_uid) n.incoming_edges
      × All (λ entry. IsRight g cache entry.1.to_uid) n.outgoing_edges

  cache_node-IsCovered :
      (n : Node) (u : Uid) (cache : Dict Uid Node)
      → IsCovered cache n
      → IsCovered (cache_node g u cache) n
  cache_node-IsCovered n u cache h = (
    All-map (λ entry. IsRight g cache entry.1.from_uid)
        (λ entry. IsRight g (cache_node g u cache) entry.1.from_uid) n.incoming_edges
        (λ entry. cache_node-IsRight u cache entry.1.from_uid) h.0,
    All-map (λ entry. IsRight g cache entry.1.to_uid)
        (λ entry. IsRight g (cache_node g u cache) entry.1.to_uid) n.outgoing_edges
        (λ entry. cache_node-IsRight u cache entry.1.to_uid) h.1,
  )

  node-IsCovered :
      (n : Node) (cache : Dict Uid Node)
      → IsCache g cache
      → IsCovered (cache_targets g n.outgoing_edges (cache_sources g n.incoming_edges cache)) n
  node-IsCovered n cache h =
      let mid = cache_sources g n.incoming_edges cache in
      (
        cache_targets_keeps (λ c. All (λ entry. IsRight g c entry.1.from_uid) n.incoming_edges)
            (λ u c.
              All-map (λ entry. IsRight g c entry.1.from_uid)
                (λ entry. IsRight g (cache_node g u c) entry.1.from_uid) n.incoming_edges
                (λ entry. cache_node-IsRight u c entry.1.from_uid))
            n.outgoing_edges mid (cache_sources-All n.incoming_edges cache h),
        cache_targets-All n.outgoing_edges mid
            (cache_sources_keeps (IsCache g) cache_node-IsCache n.incoming_edges cache h),
      )

  uid_cache-All :
      (nodes : List Node) (cache : Dict Uid Node)
      → IsCache g cache
      → All (IsCovered (uid_cache g nodes cache)) nodes
  unfolding uid_cache
  uid_cache-All [] cache h = tt
  uid_cache-All (n ∷ nodes) cache h =
      let next = cache_targets g n.outgoing_edges (cache_sources g n.incoming_edges cache) in
      (
        uid_cache_keeps (λ c. IsCovered c n) (cache_node-IsCovered n) nodes next
            (node-IsCovered n cache h),
        uid_cache-All nodes next (
            cache_targets_keeps (IsCache g) cache_node-IsCache n.outgoing_edges
              (cache_sources g n.incoming_edges cache)
              (cache_sources_keeps (IsCache g) cache_node-IsCache n.incoming_edges cache h)),
      )

-- Two lookups that agree at the ends of the edges give the same names.
module _ (p q : Uid → Option Node) where
  related_node_names-same :
      (es : List (Uid × Edge)) (type : EdgeType)
      → All (λ entry. p entry.1.to_uid ≡ q entry.1.to_uid) es
      → related_node_names es type p ≡ related_node_names es type q
  unfolding related_node_names
  related_node_names-same [] type h = refl
  related_node_names-same ((_, e) ∷ es) type h =
      ground (arith, h.0, related_node_names-same es type h.1)

  owner_references-same :
      (es : List (Uid × Edge))
      → All (λ entry. p entry.1.from_uid ≡ q entry.1.from_uid) es
      → owner_references es p ≡ owner_references es q
  unfolding owner_references
  owner_references-same [] h = refl
  owner_references-same ((_, e) ∷ es) h = ground (arith, h.0, owner_references-same es h.1)

  service_account_name-same :
      (es : List (Uid × Edge))
      → All (λ entry. p entry.1.to_uid ≡ q entry.1.to_uid) es
      → service_account_name es p ≡ service_account_name es q
  unfolding service_account_name
  service_account_name-same [] h = refl
  service_account_name-same ((_, e) ∷ es) h = ground (arith, h.0, service_account_name-same es h.1)

module _ (since : ℕ → ℤ) (rfc3339 : ℕ → String) (g : Graph) where
  resource_of-same :
      (cache : Dict Uid Node) (n : Node)
      → IsCovered g cache n
      → resource_of since rfc3339 (λ u. get u cache) n
        ≡ resource_of since rfc3339 (λ u. get_node u g) n
  unfolding resource_of
  resource_of-same cache n h =
      let p = λ (u : Uid). get u cache in
      let q = λ (u : Uid). get u g.nodes in
      rw
        (
          owner_references-same p q n.incoming_edges h.0,
          related_node_names-same p q n.outgoing_edges edge_service_selector h.1,
          related_node_names-same p q n.outgoing_edges edge_pod_volume h.1,
          related_node_names-same p q n.outgoing_edges edge_config_map_ref h.1,
          related_node_names-same p q n.outgoing_edges edge_secret_ref h.1,
          service_account_name-same p q n.outgoing_edges h.1,
        )
        refl

  map_same :
      (cache : Dict Uid Node) (nodes : List Node)
      → All (IsCovered g cache) nodes
      → map (resource_of since rfc3339 (λ u. get u cache)) nodes
        ≡ map (resource_of since rfc3339 (λ u. get_node u g)) nodes
  map_same cache [] h = refl
  map_same cache (n ∷ nodes) h = λ i. resource_of-same cache n h.0 i ∷ map_same cache nodes h.1 i

  empty-IsCache : IsCache g []
  unfolding get
  empty-IsCache u n q = cc

  -- `nodesToResources`, with its cache of nodes, returns what it returns if each lookup asks the
  -- graph.
  pub nodes_to_resources_direct :
      (nodes : List Node)
      → nodes_to_resources since rfc3339 g nodes
        ≡ map (resource_of since rfc3339 (λ u. get_node u g)) nodes
  unfolding nodes_to_resources
  nodes_to_resources_direct nodes =
      map_same (uid_cache g nodes []) nodes (uid_cache-All g nodes [] empty-IsCache)
