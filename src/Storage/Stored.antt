-- ===== src/Storage/Stored.antt =====
-- What pkg/storage/redis.go keeps true of its keys: each node stands under its own UID, and each edge
-- under its own ends, the UIDs of which have no colon.
use text.Mathlib.Text.{starts_with}
use text.Mathlib.TextEquality.{starts_with_iff}
use text.Mathlib.TextLemmas.{append_inj}
use astrolabe_server.Common.{
  ℕ, String, str_dec, string_key, true, false, none, some, List, [], ◌∷◌, ◌≡◌, ◌≢◌, refl, arith, ap,
  sym, ◌∙◌, subst, map,
}
use astrolabe_server.Common.Dict.{Dict}
use astrolabe_server.Graph.Types.{Uid, Edge, Node, NodeData, Graph}
use astrolabe_server.Graph.Linked.{IsLinked}
use astrolabe_server.Graph.Lookup.{All}
use astrolabe_server.Storage.Client.{Client, Codec, IsRedis, IsCodec, value}
use astrolabe_server.Storage.Layout.{node_key, edge_key, edge_key_prefix}
use astrolabe_server.Storage.Redis.{
  save_nodes, save_edges, save_all_edges, save_graph, save_node, save_edge,
}
use astrolabe_server.Storage.Keys.{has_colon, node-ne-edge_prefix}
use astrolabe_server.Storage.Saving.{
  node_at, edge_of_text, node_at-save_node, node_at-save_edge, value-save_node, value-save_edge,
}
use astrolabe_server.Storage.Snapshot.{IsPlain, IsEdgeMap, IsLinked-IsEdgeMap, save_graph-stores}

node_key-starts_with-edge : (u : Uid) → starts_with (node_key u) edge_key_prefix ≢ true
node_key-starts_with-edge u h =
    let (rest, e) = (starts_with_iff (node_key u) edge_key_prefix).0 h in
    node-ne-edge_prefix (append_inj (sym e) refl).0

module _ {R D : Type 0} (client : Client R D) (codec : Codec D) (rounds : R → ℕ) where
  abbrev pub IsEdgeAt : String → Edge → Type 0
  IsEdgeAt k e =
      (k ≡ edge_key e.from_uid e.to_uid)
      × (has_colon e.from_uid ≡ false)
      × (has_colon e.to_uid ≡ false)

  pub record IsStored (r : R) : Type 0 where
    pub nodes_keyed :
        (u : Uid) (n : NodeData) → node_at client codec rounds u r ≡ some n → n.uid ≡ u
    pub edges_keyed :
        (k : String) (e : Edge)
        → starts_with k edge_key_prefix ≡ true
        → edge_of_text codec (value client k r) ≡ some e
        → IsEdgeAt k e

  module _ (redis : IsRedis rounds client) (json : IsCodec codec) where
    pub save_node-IsStored :
        (n : NodeData) (r : R) → IsStored r → IsStored (save_node client codec rounds n r).0
    save_node-IsStored n r h = record {
      nodes_keyed = λ u m q.
          ground (arith, node_at-save_node client codec rounds redis json n r u, h.nodes_keyed u m);
      edges_keyed = λ k e p q. ground (
        arith,
        value-save_node client codec rounds redis json n r k,
        node_key-starts_with-edge n.uid,
        ap (λ (j : String). starts_with j edge_key_prefix),
        h.edges_keyed k e,
      );
    }

    pub save_edge-IsStored :
        (e : Edge) (r : R)
        → has_colon e.from_uid ≡ false
        → has_colon e.to_uid ≡ false
        → IsStored r
        → IsStored (save_edge client codec rounds e r).0
    save_edge-IsStored e r p q h = record {
      nodes_keyed = λ u m x.
          ground (arith, node_at-save_edge client codec rounds redis json e r u, h.nodes_keyed u m);
      edges_keyed = λ k f s x. elim (str_dec (edge_key e.from_uid e.to_uid) k) [
        | yes same ↦
            let f-is-e : f ≡ e = ground (
              arith,
              value-save_edge client codec rounds redis json e r k,
              json.unmarshal_edge-edge_text e,
            ) in
            subst (IsEdgeAt k) (sym f-is-e) (sym same, p, q)
        | no other ↦
            h.edges_keyed k f s
              (ground (arith, value-save_edge client codec rounds redis json e r k))
      ];
    }

    save_nodes-IsStored :
        (ns : List Node) (r : R) → IsStored r → IsStored (save_nodes client codec rounds ns r)
    unfolding save_nodes
    save_nodes-IsStored [] r h = h
    save_nodes-IsStored (n ∷ ns) r h =
        save_nodes-IsStored ns (save_node client codec rounds n.fields r).0
          (save_node-IsStored n.fields r h)

    save_edges-IsStored :
        (k : Uid) (es : Dict Uid Edge) (r : R)
        → IsEdgeMap k es
        → IsStored r
        → IsStored (save_edges client codec rounds es r)
    unfolding save_edges
    save_edges-IsStored k [] r m h = h
    save_edges-IsStored k ((j, e) ∷ es) r m h =
        let (from, to, plain_from, plain_to) = m.1.0 in
        save_edges-IsStored k es (save_edge client codec rounds e r).0 (m.0.1, m.1.1)
          (save_edge-IsStored e r (ap has_colon from ∙ plain_from) (ap has_colon to ∙ plain_to) h)

    save_all_edges-IsStored :
        (ns : Dict Uid Node) (r : R)
        → All (λ entry. IsEdgeMap entry.0 entry.1.outgoing_edges) ns
        → IsStored r
        → IsStored (save_all_edges client codec rounds (map (λ entry. entry.1) ns) r)
    unfolding save_all_edges
    save_all_edges-IsStored [] r m h = h
    save_all_edges-IsStored ((k, n) ∷ ns) r m h =
        save_all_edges-IsStored ns (save_edges client codec rounds n.outgoing_edges r) m.1
          (save_edges-IsStored k n.outgoing_edges r m.0 h)

    pub save_graph-IsStored :
        (g : Graph) (r : R)
        → IsLinked g.nodes
        → IsPlain g.nodes
        → IsStored r
        → IsStored (save_graph client codec rounds g r).0
    save_graph-IsStored g r linked plain h =
        let nodes = map (λ entry. entry.1) g.nodes in
        subst IsStored (sym (save_graph-stores client codec rounds redis json g r)) (
          save_all_edges-IsStored g.nodes (save_nodes client codec rounds nodes r)
            (IsLinked-IsEdgeMap g.nodes linked plain) (save_nodes-IsStored nodes r h))

    -- An empty server.
    pub empty-IsStored : (r : R) → ((k : String) → value client k r ≡ none) → IsStored r
    empty-IsStored r empty = record {
      nodes_keyed = λ u n q. ground (arith, empty (node_key u));
      edges_keyed = λ k e p q. absurd (ground (arith, empty k));
    }
