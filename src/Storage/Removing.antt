-- ===== src/Storage/Removing.antt =====
-- The nodes and the edges in the store of pkg/storage/redis.go after `DeleteEdge` and `DeleteNode`.
use astrolabe_server.Common.{
  ℕ, String, string_key, true, false, ◌||◌, ◌&&◌, none, some, [], ◌∷◌, ◌≡◌, ◌⊎◌, inl, inr, ◌==◌,
  if◌then◌else◌, arith, Option-cases, ap,
}
use astrolabe_server.Graph.Types.{Uid, NodeData}
use astrolabe_server.Storage.Client.{Client, Codec, IsDeleting, value, is_literal}
use astrolabe_server.Storage.Layout.{node_key, edge_key, index_keys}
use astrolabe_server.Storage.Redis.{
  delete_keys_by_pattern, delete_edge, delete_node, delete_node_edges, remove_from_sets,
}
use astrolabe_server.Storage.Keys.{has_colon, node_key_inj, node_key-ne-edge_key, edge_key_inj}
use astrolabe_server.Storage.Saving.{node_at, edge_of, get_node-cases}
use astrolabe_server.Storage.Stored.{IsStored}
use astrolabe_server.Storage.Patterns.{
  from_pattern, to_pattern, from_pattern-matches, from_pattern-edge_key, to_pattern-matches,
  to_pattern-edge_key, from_pattern-node_key, to_pattern-node_key,
}
use astrolabe_server.Storage.Deleting.{
  value-delete_keys_by_pattern, value-delete_edge, value-remove_from_sets,
}

edge_key_same : (a b x y : Uid) → a ≡ x → b ≡ y → edge_key a b ≡ edge_key x y
edge_key_same a b x y p q i = edge_key (p i) (q i)

module _ {R D : Type 0} (client : Client R D) (codec : Codec D) (rounds : R → ℕ)
    (deletes : IsDeleting rounds client) where
  -- `DeleteEdge` removes the edge and nothing else.
  pub edge_of-delete_edge :
      (from to : Uid) (r : R) (a b : Uid)
      → has_colon a ≡ false
      → has_colon b ≡ false
      → edge_of client codec rounds a b (delete_edge client codec rounds from to r).0
        ≡ (if from == a && to == b then none else edge_of client codec rounds a b r)
  edge_of-delete_edge from to r a b p q = ground (
    arith,
    value-delete_edge client codec rounds deletes from to r (edge_key a b),
    edge_key_inj from to a b p q,
    edge_key_same from to a b,
  )

  pub node_at-delete_edge :
      (from to : Uid) (r : R) (u : Uid)
      → node_at client codec rounds u (delete_edge client codec rounds from to r).0
        ≡ node_at client codec rounds u r
  node_at-delete_edge from to r u = ground (
    arith,
    value-delete_edge client codec rounds deletes from to r (node_key u),
    node_key-ne-edge_key u from to,
  )

  value-delete_node_edges :
      (uid : Uid) (r : R) (j : String)
      → value client j (delete_node_edges client codec rounds uid r).0 ≡ (
          if deletes.matches (to_pattern uid) j
          then none
          else if deletes.matches (from_pattern uid) j
          then none
          else value client j r)
  unfolding delete_node_edges
  value-delete_node_edges uid r j =
      let first = value-delete_keys_by_pattern client codec rounds deletes (from_pattern uid) r j in
      let r' = (delete_keys_by_pattern client codec rounds (from_pattern uid) r).0 in
      let second = value-delete_keys_by_pattern client codec rounds deletes (to_pattern uid) r' j in
      ground (arith, first, second)

  value-delete_node :
      (uid : Uid) (n : NodeData) (r : R) (j : String)
      → node_at client codec rounds uid r ≡ some n
      → value client j (delete_node client codec rounds uid r).0 ≡ (
          if deletes.matches (to_pattern uid) j || deletes.matches (from_pattern uid) j
          then none
          else if node_key uid == j
          then none
          else value client j r)
  unfolding delete_node
  value-delete_node uid n r j h = elim (get_node-cases client codec rounds uid r) [
    | inl (e, p, q) ↦ absurd (ground (arith))
    | inr (x, p, q, _) ↦
        let r' = (client.del (node_key uid ∷ []) r).0 in
        let r'' = remove_from_sets client codec rounds (index_keys x.fields) x.uid r' in
        ground (
          arith,
          deletes.del_ok (node_key uid ∷ []) r,
          deletes.value-del (node_key uid ∷ []) r j,
          value-remove_from_sets client codec rounds deletes (index_keys x.fields) x.uid r' j,
          value-delete_node_edges uid r'' j,
        )
  ]

  delete_node_absent :
      (uid : Uid) (r : R)
      → node_at client codec rounds uid r ≡ none
      → delete_node client codec rounds uid r ≡ (r, none)
  unfolding delete_node
  delete_node_absent uid r h = elim (get_node-cases client codec rounds uid r) [
    | inl (e, p, _) ↦ ground (arith)
    | inr (x, p, q, _) ↦ absurd (ground (arith))
  ]

  module _ (uid : Uid) (plain : is_literal uid ≡ true) (r : R) where
    pub node_at-delete_node :
        (u : Uid)
        → node_at client codec rounds u (delete_node client codec rounds uid r).0
          ≡ (if uid == u then none else node_at client codec rounds u r)
    node_at-delete_node u = elim (Option-cases (node_at client codec rounds uid r)) [
      | inl absent ↦ ground (
        arith,
        delete_node_absent uid r absent,
        ap (λ (v : Uid). node_at client codec rounds v r) {x = uid} {y = u},
      )
      | inr (n, h) ↦ ground (
        arith,
        value-delete_node uid n r (node_key u) h,
        from_pattern-node_key client rounds deletes uid plain u,
        to_pattern-node_key client rounds deletes uid plain u,
        node_key_inj uid u,
        ap node_key {x = uid} {y = u},
      )
    ]

    pub edge_of-delete_node :
        (a b : Uid)
        → has_colon a ≡ false
        → has_colon b ≡ false
        → edge_of client codec rounds a b (delete_node client codec rounds uid r).0
          ≡ elim (node_at client codec rounds uid r) [
            | none ↦ edge_of client codec rounds a b r
            | some _ ↦ if uid == a || uid == b then none else edge_of client codec rounds a b r
          ]
    edge_of-delete_node a b p q = elim (Option-cases (node_at client codec rounds uid r)) [
      | inl absent ↦ ground (arith, delete_node_absent uid r absent)
      | inr (n, h) ↦ ground (
        arith,
        value-delete_node uid n r (edge_key a b) h,
        from_pattern-matches client rounds deletes uid plain a b p q,
        to_pattern-matches client rounds deletes uid plain a b p q,
        from_pattern-edge_key client rounds deletes uid plain b,
        to_pattern-edge_key client rounds deletes uid plain a,
        ap (λ (v : Uid). deletes.matches (from_pattern uid) (edge_key v b)) {x = uid} {y = a},
        ap (λ (v : Uid). deletes.matches (to_pattern uid) (edge_key a v)) {x = uid} {y = b},
        node_key-ne-edge_key uid a b,
      )
    ]

    -- On a server that deletes as documented, let a UID have no glob character. `DeleteNode`
    -- removes its node and no other; of the edges between UIDs without colons it removes those from
    -- and to the UID, if the node could be read, and no other.
    pub delete_node_exact :
        (u a b : Uid)
        → has_colon a ≡ false
        → has_colon b ≡ false
        → (node_at client codec rounds u (delete_node client codec rounds uid r).0
            ≡ (if uid == u then none else node_at client codec rounds u r))
          × (edge_of client codec rounds a b (delete_node client codec rounds uid r).0
              ≡ elim (node_at client codec rounds uid r) [
                | none ↦ edge_of client codec rounds a b r
                | some _ ↦ if uid == a || uid == b then none else edge_of client codec rounds a b r
              ])
    delete_node_exact u a b p q = (node_at-delete_node u, edge_of-delete_node a b p q)

  -- Deletions remove texts and change none.
  abbrev IsLess : R → R → Type 0
  IsLess r' r = (j : String) → (value client j r' ≡ none) ⊎ (value client j r' ≡ value client j r)

  IsLess-IsStored :
      (r' r : R) → IsLess r' r → IsStored client codec rounds r → IsStored client codec rounds r'
  IsLess-IsStored r' r less h = record {
    nodes_keyed = λ u n q. ground (arith, less (node_key u), h.nodes_keyed u n);
    edges_keyed = λ k e p q. h.edges_keyed k e p (ground (arith, less k));
  }

  pub delete_edge-IsStored :
      (from to : Uid) (r : R)
      → IsStored client codec rounds r
      → IsStored client codec rounds (delete_edge client codec rounds from to r).0
  delete_edge-IsStored from to r =
      IsLess-IsStored (delete_edge client codec rounds from to r).0 r
        (λ j. ground (arith, value-delete_edge client codec rounds deletes from to r j))

  pub delete_node-IsStored :
      (uid : Uid) (r : R)
      → IsStored client codec rounds r
      → IsStored client codec rounds (delete_node client codec rounds uid r).0
  delete_node-IsStored uid r = elim (Option-cases (node_at client codec rounds uid r)) [
    | inl absent ↦
        IsLess-IsStored (delete_node client codec rounds uid r).0 r
          (λ j. ground (arith, delete_node_absent uid r absent))
    | inr (n, there) ↦
        IsLess-IsStored (delete_node client codec rounds uid r).0 r
          (λ j. ground (arith, value-delete_node uid n r j there))
  ]
