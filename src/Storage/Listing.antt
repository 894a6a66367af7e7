-- ===== src/Storage/Listing.antt =====
-- What the scans of `GetAllNodes` and `GetAllEdges` of pkg/storage/redis.go list: every node and every
-- edge that can be read, and no other.
use astrolabe_server.Common.{
  ℕ, zero, suc, ℕ_discrete, String, string_key, some, List, [], ◌∷◌, ◌++◌, ◌≡◌, inl, inr, refl,
  arith, Option-cases,
}
use astrolabe_server.Common.Format.{◌<>◌}
use astrolabe_server.Graph.Types.{Uid, Edge, NodeData}
use astrolabe_server.Api.Related.{In}
use astrolabe_server.Storage.Client.{Client, Codec, IsRedis, scan_pages}
use astrolabe_server.Storage.Layout.{node_key, edge_key, node_key_prefix, edge_key_prefix}
use astrolabe_server.Storage.Redis.{
  nodes_of_keys, nodes_from, edges_of_keys, edges_from, get_all_nodes, get_all_edges,
}
use astrolabe_server.Storage.Keys.{starts_with-node_key, starts_with-edge_key}
use astrolabe_server.Storage.Saving.{node_at, edge_of, Sum-cases}

module _ {R D : Type 0} (client : Client R D) (codec : Codec D) (rounds : R → ℕ) where
  nodes_of_keys-append :
      (ks js : List String) (r : R)
      → nodes_of_keys client codec rounds (ks ++ js) r
        ≡ nodes_of_keys client codec rounds ks r ++ nodes_of_keys client codec rounds js r
  unfolding nodes_of_keys
  nodes_of_keys-append [] js r = refl
  nodes_of_keys-append (k ∷ ks) js r = ground (arith, nodes_of_keys-append ks js r)

  edges_of_keys-append :
      (ks js : List String) (r : R)
      → edges_of_keys client codec rounds (ks ++ js) r
        ≡ edges_of_keys client codec rounds ks r ++ edges_of_keys client codec rounds js r
  unfolding edges_of_keys
  edges_of_keys-append [] js r = refl
  edges_of_keys-append (k ∷ ks) js r = ground (arith, edges_of_keys-append ks js r)

  -- The loops read the keys of all pages.
  nodes_from-scan_pages :
      (fuel cursor : ℕ) (r : R) (keys : List String)
      → scan_pages client fuel cursor (node_key_prefix <> "*") r ≡ some keys
      → nodes_from client codec rounds fuel cursor r
        ≡ inr (nodes_of_keys client codec rounds keys r)
  unfolding nodes_from
  nodes_from-scan_pages zero cursor r keys h = absurd (ground (arith))
  nodes_from-scan_pages (suc fuel) cursor r keys h =
      elim (Sum-cases (client.scan cursor (node_key_prefix <> "*") r)) [
        | inl (e, p) ↦ absurd (ground (arith))
        | inr ((page, zero), p) ↦ ground (arith)
        | inr ((page, suc n), p) ↦
            elim (Option-cases (scan_pages client fuel (suc n) (node_key_prefix <> "*") r)) [
              | inl q ↦ absurd (ground (arith))
              | inr (more, q) ↦ ground (
                arith,
                nodes_from-scan_pages fuel (suc n) r more q,
                nodes_of_keys-append page more r,
              )
            ]
      ]

  edges_from-scan_pages :
      (fuel cursor : ℕ) (r : R) (keys : List String)
      → scan_pages client fuel cursor (edge_key_prefix <> "*") r ≡ some keys
      → edges_from client codec rounds fuel cursor r
        ≡ inr (edges_of_keys client codec rounds keys r)
  unfolding edges_from
  edges_from-scan_pages zero cursor r keys h = absurd (ground (arith))
  edges_from-scan_pages (suc fuel) cursor r keys h =
      elim (Sum-cases (client.scan cursor (edge_key_prefix <> "*") r)) [
        | inl (e, p) ↦ absurd (ground (arith))
        | inr ((page, zero), p) ↦ ground (arith)
        | inr ((page, suc n), p) ↦
            elim (Option-cases (scan_pages client fuel (suc n) (edge_key_prefix <> "*") r)) [
              | inl q ↦ absurd (ground (arith))
              | inr (more, q) ↦ ground (
                arith,
                edges_from-scan_pages fuel (suc n) r more q,
                edges_of_keys-append page more r,
              )
            ]
      ]

  module _ (redis : IsRedis rounds client) where
    pub get_all_nodes-scan_keys :
        (r : R)
        → get_all_nodes client codec rounds r
          ≡ inr (nodes_of_keys client codec rounds (redis.scan_keys node_key_prefix r) r)
    unfolding ℕ_discrete
    get_all_nodes-scan_keys r =
        nodes_from-scan_pages (rounds r) 0 r (redis.scan_keys node_key_prefix r)
          (redis.scan_pages-scan_keys node_key_prefix r refl)

    pub get_all_edges-scan_keys :
        (r : R)
        → get_all_edges client codec rounds r
          ≡ inr (edges_of_keys client codec rounds (redis.scan_keys edge_key_prefix r) r)
    unfolding ℕ_discrete
    get_all_edges-scan_keys r =
        edges_from-scan_pages (rounds r) 0 r (redis.scan_keys edge_key_prefix r)
          (redis.scan_pages-scan_keys edge_key_prefix r refl)

    -- The keys of the nodes and the edges that can be read are among those of the scan.
    pub node_key-In :
        (u : Uid) (n : NodeData) (r : R)
        → node_at client codec rounds u r ≡ some n
        → In (node_key u) (redis.scan_keys node_key_prefix r)
    node_key-In u n r h =
        redis.scan_keys_complete node_key_prefix r (node_key u) (starts_with-node_key u)
          (λ e. ground (arith))

    pub edge_key-In :
        (a b : Uid) (e : Edge) (r : R)
        → edge_of client codec rounds a b r ≡ some e
        → In (edge_key a b) (redis.scan_keys edge_key_prefix r)
    edge_key-In a b e r h =
        redis.scan_keys_complete edge_key_prefix r (edge_key a b) (starts_with-edge_key a b)
          (λ q. ground (arith))
