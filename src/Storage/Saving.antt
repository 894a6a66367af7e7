-- ===== src/Storage/Saving.antt =====
-- The nodes and the edges in the store of pkg/storage/redis.go, as they are read back, after each is
-- saved.
use astrolabe_server.Common.{
  ℕ, String, str_dec, string_key, false, ◌&&◌, Option, none, some, List, [], ◌∷◌, ◌≡◌, ◌⊎◌, inl,
  inr, ◌==◌, if◌then◌else◌, refl, arith, Option-cases, ap, ◌∙◌,
}
use astrolabe_server.Common.Format.{◌<>◌}
use astrolabe_server.Graph.Types.{Uid, Edge, Node, NodeData}
use astrolabe_server.Graph.Additions.{IsFresh}
use astrolabe_server.Storage.Client.{
  Client, Codec, Reply, found, missing, failed, IsRedis, IsCodec, value,
}
use astrolabe_server.Storage.Layout.{node_key, edge_key, index_keys, serialize, deserialize}
use astrolabe_server.Storage.Redis.{add_to_sets, save_node, get_node, save_edge, edge_at}
use astrolabe_server.Storage.Keys.{has_colon, node_key-ne-edge_key, node_key_inj, edge_key_inj}

Reply-cases :
    {D : Type 0} (x : Reply D)
    → ((v : D) × (x ≡ found v)) ⊎ ((x ≡ missing) ⊎ ((e : String) × (x ≡ failed e)))
Reply-cases (found v) = inl (v, refl)
Reply-cases missing = inr (inl refl)
Reply-cases (failed e) = inr (inr (e, refl))

pub Sum-cases : {A B : Type 0} (x : A ⊎ B) → ((a : A) × (x ≡ inl a)) ⊎ ((b : B) × (x ≡ inr b))
Sum-cases (inl a) = inl (a, refl)
Sum-cases (inr b) = inr (b, refl)

-- What a text holds, if it can be read.
abbrev pub node_of_text : {D : Type 0} → Codec D → Option D → Option NodeData
node_of_text codec none = none
node_of_text codec (some text) = elim (codec.unmarshal_node text) [
  | inl _ ↦ none
  | inr s ↦ some (deserialize s).fields
]

abbrev pub edge_of_text : {D : Type 0} → Codec D → Option D → Option Edge
edge_of_text codec none = none
edge_of_text codec (some text) = elim (codec.unmarshal_edge text) [ inl _ ↦ none | inr e ↦ some e ]

module _ {R D : Type 0} (client : Client R D) (codec : Codec D) (rounds : R → ℕ) where
  -- The fields that `GetNode` reads, and the edge of a pair of UIDs.
  abbrev pub node_at : Uid → R → Option NodeData
  node_at u r = node_of_text codec (value client (node_key u) r)

  abbrev pub edge_of : Uid → Uid → R → Option Edge
  edge_of a b r = edge_of_text codec (value client (edge_key a b) r)

  -- `GetNode` fails, or finds the node with its fields and no edges.
  pub get_node-cases :
      (u : Uid) (r : R)
      → ((e : String) × (get_node client codec rounds u r ≡ inl e) × (node_at u r ≡ none))
        ⊎ ((n : Node) × (get_node client codec rounds u r ≡ inr n)
            × (node_at u r ≡ some n.fields)
            × IsFresh n)
  unfolding get_node
  get_node-cases u r = elim (Reply-cases (client.get (node_key u) r)) [
    | inl (text, p) ↦ elim (Sum-cases (codec.unmarshal_node text)) [
      | inl (e, q) ↦ inl ("failed to unmarshal node: " <> e, ground arith, ground arith)
      | inr (n, q) ↦ inr (
        deserialize n,
        ground arith,
        ground arith,
        record { no_outgoing = refl; no_incoming = refl },
      )
    ]
    | inr (inl p) ↦ inl ("node not found: " <> u, ground arith, ground arith)
    | inr (inr (e, p)) ↦ inl ("failed to get node from Redis: " <> e, ground arith, ground arith)
  ]

  pub edge_at-value :
      (k : String) (r : R) → edge_at client codec rounds k r ≡ edge_of_text codec (value client k r)
  unfolding edge_at
  edge_at-value k r = elim (Reply-cases (client.get k r)) [
    | inl (text, p) ↦ ground arith
    | inr (inl p) ↦ ground arith
    | inr (inr (e, p)) ↦ ground arith
  ]

  module _ (redis : IsRedis rounds client) (json : IsCodec codec) where
    value-add_to_sets :
        (ks : List String) (u : Uid) (r : R) (j : String)
        → value client j (add_to_sets client codec rounds ks u r).0 ≡ value client j r
    unfolding add_to_sets
    value-add_to_sets [] u r j = refl
    value-add_to_sets (k ∷ ks) u r j = elim (Option-cases (client.s_add k u r).1) [
      | inl p ↦
          rw (p, add_to_sets)
            (value-add_to_sets ks u (client.s_add k u r).0 j ∙ redis.value-s_add k u r j)
      | inr (cause, p) ↦ rw (p, add_to_sets) (redis.value-s_add k u r j)
    ]

    pub value-save_node :
        (n : NodeData) (r : R) (j : String)
        → value client j (save_node client codec rounds n r).0
          ≡ (if node_key n.uid == j then some (json.node_text (serialize n)) else value client j r)
    unfolding save_node
    value-save_node n r j =
        rw
          (
            json.marshal_node-node_text (serialize n),
            save_node,
            redis.set_ok (node_key n.uid) (json.node_text (serialize n)) r,
          )
          (value-add_to_sets (index_keys n) n.uid
              (client.set (node_key n.uid) (json.node_text (serialize n)) r).0 j
            ∙ redis.value-set (node_key n.uid) (json.node_text (serialize n)) r j)

    pub value-save_edge :
        (e : Edge) (r : R) (j : String)
        → value client j (save_edge client codec rounds e r).0 ≡ (
            if edge_key e.from_uid e.to_uid == j then some (json.edge_text e) else value client j r)
    unfolding save_edge
    value-save_edge e r j =
        rw
          (
            json.marshal_edge-edge_text e,
            save_edge,
            redis.set_ok (edge_key e.from_uid e.to_uid) (json.edge_text e) r,
          )
          (redis.value-set (edge_key e.from_uid e.to_uid) (json.edge_text e) r j)

    -- A saved node is read back, with the same fields; the other nodes and the edges are as before.
    pub node_at-save_node :
        (n : NodeData) (r : R) (u : Uid)
        → node_at u (save_node client codec rounds n r).0
          ≡ (if n.uid == u then some n else node_at u r)
    node_at-save_node n r u = elim (str_dec n.uid u) [
      | yes p ↦ ground (
        arith,
        value-save_node n r (node_key u),
        ap node_key p,
        json.unmarshal_node-node_text (serialize n),
      )
      | no p ↦ ground (arith, value-save_node n r (node_key u), node_key_inj n.uid u)
    ]

    pub edge_of-save_node :
        (n : NodeData) (r : R) (a b : Uid)
        → edge_of a b (save_node client codec rounds n r).0 ≡ edge_of a b r
    edge_of-save_node n r a b =
        ground (arith, value-save_node n r (edge_key a b), node_key-ne-edge_key n.uid a b)

    pub edge_of-save_edge :
        (e : Edge) (r : R) (a b : Uid)
        → has_colon e.from_uid ≡ false
        → has_colon e.to_uid ≡ false
        → edge_of a b (save_edge client codec rounds e r).0
          ≡ (if e.from_uid == a && e.to_uid == b then some e else edge_of a b r)
    edge_of-save_edge e r a b p q = ground (
      arith,
      value-save_edge e r (edge_key a b),
      edge_key_inj a b e.from_uid e.to_uid p q,
      json.unmarshal_edge-edge_text e,
    )

    pub node_at-save_edge :
        (e : Edge) (r : R) (u : Uid) → node_at u (save_edge client codec rounds e r).0 ≡ node_at u r
    node_at-save_edge e r u =
        ground (arith, value-save_edge e r (node_key u), node_key-ne-edge_key u e.from_uid e.to_uid)
