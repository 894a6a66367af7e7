-- ===== src/Storage/Snapshot.antt =====
-- The store of pkg/storage/redis.go after `SaveGraph`.
use astrolabe_server.Common.{
  ℕ, string_key, false, none, some, List, [], ◌∷◌, ◌≡◌, inl, inr, ◌==◌, if◌then◌else◌, refl, arith,
  Option-cases, ◌∙◌, map,
}
use astrolabe_server.Common.Dict.{Dict, get}
use astrolabe_server.Graph.Types.{Uid, Edge, Node, Graph}
use astrolabe_server.Graph.Queries.{get_all_nodes}
use astrolabe_server.Graph.Views.{fields_of, out_edge}
use astrolabe_server.Graph.Linked.{IsLinked}
use astrolabe_server.Graph.Lookup.{All}
use astrolabe_server.Graph.Entries.{Distinct, All-entries}
use astrolabe_server.Storage.Client.{Client, Codec, IsRedis, IsCodec}
use astrolabe_server.Storage.Redis.{
  save_nodes, save_edges, save_all_edges, save_graph, save_node, save_edge,
}
use astrolabe_server.Storage.Keys.{has_colon}
use astrolabe_server.Storage.Saving.{
  node_at, edge_of, node_at-save_node, edge_of-save_node, edge_of-save_edge, node_at-save_edge,
}

-- The maps of a graph as the source has them, and UIDs without colons.
pub record IsPlain (nodes : Dict Uid Node) : Type 0 where
  pub distinct : Distinct nodes
  pub distinct_edges : (u : Uid) (n : Node) → get u nodes ≡ some n → Distinct n.outgoing_edges
  pub uids : (u : Uid) (n : Node) → get u nodes ≡ some n → has_colon u ≡ false

-- An edge map of the node `k`: its edges go from `k`, and stand under their targets.
abbrev pub IsEdgeMap : Uid → Dict Uid Edge → Type 0
IsEdgeMap k es =
    Distinct es
    × All
        (λ entry.
          (entry.1.from_uid ≡ k)
          × (entry.1.to_uid ≡ entry.0)
          × (has_colon k ≡ false)
          × (has_colon entry.0 ≡ false))
        es

pub IsLinked-keyed :
    (ns : Dict Uid Node) → IsLinked ns → IsPlain ns → All (λ entry. entry.1.uid ≡ entry.0) ns
IsLinked-keyed ns linked plain =
    All-entries (λ k n. n.uid ≡ k) ns plain.distinct
      (λ k n h. linked.keyed k n.fields (ground arith))

-- The target of an edge is live.
mirrored_live :
    (a b : Uid) (e : Edge) (ns : Dict Uid Node)
    → IsLinked ns
    → out_edge a b ns ≡ some e
    → (m : Node) × (get b ns ≡ some m)
mirrored_live a b e ns linked h = elim (Option-cases (get b ns)) [
  | inl dead ↦ absurd (ground (arith, linked.mirrored a b))
  | inr (m, live) ↦ (m, live)
]

module _ (ns : Dict Uid Node) (linked : IsLinked ns) (plain : IsPlain ns) where
  edge_map_entry :
      (k : Uid) (n : Node)
      → get k ns ≡ some n
      → (b : Uid) (e : Edge) → get b n.outgoing_edges ≡ some e
      → (e.from_uid ≡ k) × (e.to_uid ≡ b) × (has_colon k ≡ false) × (has_colon b ≡ false)
  edge_map_entry k n h b e q =
      let (from, to) = linked.labelled k b e (ground arith) in
      let (m, target) = mirrored_live k b e ns linked (ground arith) in
      (from, to, plain.uids k n h, plain.uids b m target)

pub IsLinked-IsEdgeMap :
    (ns : Dict Uid Node)
    → IsLinked ns
    → IsPlain ns
    → All (λ entry. IsEdgeMap entry.0 entry.1.outgoing_edges) ns
IsLinked-IsEdgeMap ns linked plain =
    All-entries (λ k n. IsEdgeMap k n.outgoing_edges) ns plain.distinct
      (λ k n h. (
        plain.distinct_edges k n h,
        All-entries
            (λ b e.
              (e.from_uid ≡ k) × (e.to_uid ≡ b) × (has_colon k ≡ false) × (has_colon b ≡ false))
            n.outgoing_edges (plain.distinct_edges k n h) (edge_map_entry ns linked plain k n h),
      ))

module _ {R D : Type 0} (client : Client R D) (codec : Codec D) (rounds : R → ℕ)
    (redis : IsRedis rounds client) (json : IsCodec codec) where
  node_at-save_nodes :
      (m : Dict Uid Node) (r : R) (u : Uid)
      → Distinct m
      → All (λ entry. entry.1.uid ≡ entry.0) m
      → node_at client codec rounds u (save_nodes client codec rounds (map (λ entry. entry.1) m) r)
        ≡ elim (get u m) [ none ↦ node_at client codec rounds u r | some n ↦ some n.fields ]
  unfolding save_nodes get
  node_at-save_nodes [] r u d a = refl
  node_at-save_nodes ((k, n) ∷ m) r u d a =
      let r' = (save_node client codec rounds n.fields r).0 in
      ground (
        arith,
        node_at-save_nodes m r' u d.1 a.1,
        node_at-save_node client codec rounds redis json n.fields r u,
        a.0,
        d.0,
      )

  edge_of-save_nodes :
      (ns : List Node) (r : R) (a b : Uid)
      → edge_of client codec rounds a b (save_nodes client codec rounds ns r)
        ≡ edge_of client codec rounds a b r
  unfolding save_nodes
  edge_of-save_nodes [] r a b = refl
  edge_of-save_nodes (n ∷ ns) r a b =
      edge_of-save_nodes ns (save_node client codec rounds n.fields r).0 a b
      ∙ edge_of-save_node client codec rounds redis json n.fields r a b

  edge_of-save_edges :
      (k : Uid) (es : Dict Uid Edge) (r : R) (a b : Uid)
      → IsEdgeMap k es
      → edge_of client codec rounds a b (save_edges client codec rounds es r) ≡ (
          if k == a
          then elim (get b es) [ none ↦ edge_of client codec rounds a b r | some e ↦ some e ]
          else edge_of client codec rounds a b r)
  unfolding save_edges get
  edge_of-save_edges k [] r a b h = ground arith
  edge_of-save_edges k ((j, e) ∷ es) r a b h =
      let r' = (save_edge client codec rounds e r).0 in
      let (from, to, plain_from, plain_to) = h.1.0 in
      ground (
        arith,
        edge_of-save_edges k es r' a b (h.0.1, h.1.1),
        edge_of-save_edge client codec rounds redis json e r a b (ground arith) (ground arith),
        h.0.0,
      )

  node_at-save_edges :
      (es : List (Uid × Edge)) (r : R) (u : Uid)
      → node_at client codec rounds u (save_edges client codec rounds es r)
        ≡ node_at client codec rounds u r
  unfolding save_edges
  node_at-save_edges [] r u = refl
  node_at-save_edges ((_, e) ∷ es) r u =
      node_at-save_edges es (save_edge client codec rounds e r).0 u
      ∙ node_at-save_edge client codec rounds redis json e r u

  edge_of-save_all_edges :
      (m : Dict Uid Node) (r : R) (a b : Uid)
      → Distinct m
      → All (λ entry. IsEdgeMap entry.0 entry.1.outgoing_edges) m
      → edge_of client codec rounds a b
          (save_all_edges client codec rounds (map (λ entry. entry.1) m) r)
        ≡ elim (out_edge a b m) [ none ↦ edge_of client codec rounds a b r | some e ↦ some e ]
  unfolding save_all_edges get
  edge_of-save_all_edges [] r a b d h = refl
  edge_of-save_all_edges ((k, n) ∷ m) r a b d h =
      let r' = save_edges client codec rounds n.outgoing_edges r in
      ground (
        arith,
        edge_of-save_all_edges m r' a b d.1 h.1,
        edge_of-save_edges k n.outgoing_edges r a b h.0,
        d.0,
      )

  node_at-save_all_edges :
      (ns : List Node) (r : R) (u : Uid)
      → node_at client codec rounds u (save_all_edges client codec rounds ns r)
        ≡ node_at client codec rounds u r
  unfolding save_all_edges
  node_at-save_all_edges [] r u = refl
  node_at-save_all_edges (n ∷ ns) r u =
      node_at-save_all_edges ns (save_edges client codec rounds n.outgoing_edges r) u
      ∙ node_at-save_edges n.outgoing_edges r u

  pub save_graph-stores :
      (g : Graph) (r : R)
      → (save_graph client codec rounds g r).0
        ≡ save_all_edges client codec rounds
            (map (λ entry. entry.1) g.nodes)
            (save_nodes client codec rounds (map (λ entry. entry.1) g.nodes) r)
  unfolding save_graph get_all_nodes
  save_graph-stores g r = refl

  -- After `SaveGraph` a node that is in the graph has its fields in the store, and any other node is
  -- as it was.
  pub node_at-save_graph :
      (g : Graph) (r : R) (u : Uid)
      → IsLinked g.nodes
      → IsPlain g.nodes
      → node_at client codec rounds u (save_graph client codec rounds g r).0
        ≡ elim (fields_of u g.nodes) [ none ↦ node_at client codec rounds u r | some n ↦ some n ]
  node_at-save_graph g r u linked plain =
      let saved = save_nodes client codec rounds (map (λ entry. entry.1) g.nodes) r in
      ground (
        arith,
        save_graph-stores g r,
        node_at-save_all_edges (map (λ entry. entry.1) g.nodes) saved u,
        node_at-save_nodes g.nodes r u plain.distinct (IsLinked-keyed g.nodes linked plain),
      )

  -- After `SaveGraph` an edge that is in the graph is in the store, and any other edge is as it was.
  pub edge_of-save_graph :
      (g : Graph) (r : R) (a b : Uid)
      → IsLinked g.nodes
      → IsPlain g.nodes
      → edge_of client codec rounds a b (save_graph client codec rounds g r).0
        ≡ elim (out_edge a b g.nodes) [ none ↦ edge_of client codec rounds a b r | some e ↦ some e ]
  edge_of-save_graph g r a b linked plain =
      let saved = save_nodes client codec rounds (map (λ entry. entry.1) g.nodes) r in
      ground (
        arith,
        save_graph-stores g r,
        edge_of-save_all_edges g.nodes saved a b plain.distinct
            (IsLinked-IsEdgeMap g.nodes linked plain),
        edge_of-save_nodes (map (λ entry. entry.1) g.nodes) r a b,
      )
