-- ===== src/Storage/Redis.antt =====
-- `RedisStore` of pkg/storage/redis.go, over any client and any encoding. `rounds` bounds the pages of
-- a scan that starts in a state; a scan that goes on after them is the error `unfinished`, which the
-- source does not have.
use astrolabe_server.Common.{
  ℕ, zero, suc, String, string_key, Option, none, some, List, [], ◌∷◌, ◌++◌, ◌⊎◌, inl, inr,
  if◌then◌else◌,
}
use astrolabe_server.Common.Format.{◌<>◌}
use astrolabe_server.Graph.Types.{Uid, Edge, Node, NodeData, Graph}
use astrolabe_server.Graph.Indexes.{is_empty}
use astrolabe_server.Graph.Store.{new_graph, add_node, add_edge}
use astrolabe_server.Graph.Queries
use astrolabe_server.Storage.Client.{Client, Codec, found, missing, failed}
use astrolabe_server.Storage.Layout.{
  node_key_prefix, edge_key_prefix, node_key, uid_of_key, edge_key, serialize, deserialize,
  index_keys,
}
use astrolabe_server.Persistence.Backend.{Backend}

abbrev pub unfinished : String
unfinished = "the scan goes on"

module _ {R D : Type 0} (client : Client R D) (codec : Codec D) (rounds : R → ℕ) where
  -- `updateIndexes` stops at the first error; `removeFromIndexes` does not look at them.
  unfoldable pub add_to_sets : List String → Uid → R → R × Option String
  add_to_sets [] uid r = (r, none)
  add_to_sets (k ∷ ks) uid r =
      let (r', e) = client.s_add k uid r in
      let rest = add_to_sets ks uid r' in elim e [ none ↦ rest | some cause ↦ (r', some cause) ]

  unfoldable pub remove_from_sets : List String → Uid → R → R
  remove_from_sets [] uid r = r
  remove_from_sets (k ∷ ks) uid r = remove_from_sets ks uid (client.s_rem k uid r).0

  abbrev pub update_indexes : NodeData → R → R × Option String
  update_indexes n = add_to_sets (index_keys n) n.uid

  abbrev pub remove_from_indexes : NodeData → R → R
  remove_from_indexes n = remove_from_sets (index_keys n) n.uid

  -- `SaveNode`; an error of the indexes is logged.
  unfoldable pub save_node : NodeData → R → R × Option String
  unfolding add_to_sets index_keys
  save_node n r = elim (codec.marshal_node (serialize n)) [
    | inl e ↦ (r, some ("failed to marshal node: " <> e))
    | inr text ↦
        let (r', e) = client.set (node_key n.uid) text r in
        elim e [
          | some cause ↦ (r', some ("failed to save node to Redis: " <> cause))
          | none ↦ ((update_indexes n r').0, none)
        ]
  ]

  -- `GetNode`
  unfoldable pub get_node : Uid → R → String ⊎ Node
  get_node uid r = elim (client.get (node_key uid) r) [
    | missing ↦ inl ("node not found: " <> uid)
    | failed e ↦ inl ("failed to get node from Redis: " <> e)
    | found text ↦ elim (codec.unmarshal_node text) [
      | inl e ↦ inl ("failed to unmarshal node: " <> e)
      | inr s ↦ inr (deserialize s)
    ]
  ]

  -- One page of `GetAllNodes`: a node that cannot be read is logged and left out.
  unfoldable pub nodes_of_keys : List String → R → List Node
  unfolding get_node
  nodes_of_keys [] r = []
  nodes_of_keys (key ∷ keys) r =
      let rest = nodes_of_keys keys r in
      elim (get_node (uid_of_key key) r) [ inl _ ↦ rest | inr n ↦ n ∷ rest ]

  -- The loop of `GetAllNodes` from a cursor on.
  unfoldable pub nodes_from : ℕ → ℕ → R → String ⊎ List Node
  unfolding nodes_of_keys
  nodes_from zero cursor r = inl unfinished
  nodes_from (suc fuel) cursor r = elim (client.scan cursor (node_key_prefix <> "*") r) [
    | inl e ↦ inl ("failed to scan nodes: " <> e)
    | inr (keys, next) ↦ elim next [
      | zero ↦ inr (nodes_of_keys keys r)
      | suc n ↦ elim (nodes_from fuel (suc n) r) [
        | inl e ↦ inl e
        | inr more ↦ inr (nodes_of_keys keys r ++ more)
      ]
    ]
  ]

  abbrev pub get_all_nodes : R → String ⊎ List Node
  get_all_nodes r = nodes_from (rounds r) 0 r

  -- `SaveEdge` and `DeleteEdge`
  unfoldable pub save_edge : Edge → R → R × Option String
  save_edge e r = elim (codec.marshal_edge e) [
    | inl cause ↦ (r, some ("failed to marshal edge: " <> cause))
    | inr text ↦
        let (r', e') = client.set (edge_key e.from_uid e.to_uid) text r in
        elim e' [
          | some cause ↦ (r', some ("failed to save edge to Redis: " <> cause))
          | none ↦ (r', none)
        ]
  ]

  unfoldable pub delete_edge : Uid → Uid → R → R × Option String
  delete_edge from to r =
      let (r', e) = client.del (edge_key from to ∷ []) r in
      elim e [
        | some cause ↦ (r', some ("failed to delete edge from Redis: " <> cause))
        | none ↦ (r', none)
      ]

  -- The edge at a key that `GetAllEdges` reads; one that cannot be read is logged and left out.
  unfoldable pub edge_at : String → R → Option Edge
  edge_at key r = elim (client.get key r) [
    | missing ↦ none
    | failed _ ↦ none
    | found text ↦ elim (codec.unmarshal_edge text) [ inl _ ↦ none | inr e ↦ some e ]
  ]

  unfoldable pub edges_of_keys : List String → R → List Edge
  unfolding edge_at
  edges_of_keys [] r = []
  edges_of_keys (key ∷ keys) r =
      let rest = edges_of_keys keys r in elim (edge_at key r) [ none ↦ rest | some e ↦ e ∷ rest ]

  unfoldable pub edges_from : ℕ → ℕ → R → String ⊎ List Edge
  unfolding edges_of_keys
  edges_from zero cursor r = inl unfinished
  edges_from (suc fuel) cursor r = elim (client.scan cursor (edge_key_prefix <> "*") r) [
    | inl e ↦ inl ("failed to scan edges: " <> e)
    | inr (keys, next) ↦ elim next [
      | zero ↦ inr (edges_of_keys keys r)
      | suc n ↦ elim (edges_from fuel (suc n) r) [
        | inl e ↦ inl e
        | inr more ↦ inr (edges_of_keys keys r ++ more)
      ]
    ]
  ]

  abbrev pub get_all_edges : R → String ⊎ List Edge
  get_all_edges r = edges_from (rounds r) 0 r

  -- `deleteKeysByPattern`, which stops at the first error.
  unfoldable pub delete_from : ℕ → ℕ → String → R → R × Option String
  delete_from zero cursor pattern r = (r, some unfinished)
  delete_from (suc fuel) cursor pattern r = elim (client.scan cursor pattern r) [
    | inl e ↦ (r, some e)
    | inr (keys, next) ↦
        let (r', e) = if is_empty keys then (r, none) else client.del keys r in
        elim e [
          | some cause ↦ (r', some cause)
          | none ↦ elim next [ zero ↦ (r', none) | suc n ↦ delete_from fuel (suc n) pattern r' ]
        ]
  ]

  abbrev pub delete_keys_by_pattern : String → R → R × Option String
  delete_keys_by_pattern pattern r = delete_from (rounds r) 0 pattern r

  -- `deleteNodeEdges`
  unfoldable pub delete_node_edges : Uid → R → R × Option String
  unfolding delete_from
  delete_node_edges uid r =
      let (r', e) = delete_keys_by_pattern (edge_key_prefix <> uid <> ":*") r in
      elim e [
        | some cause ↦ (r', some cause)
        | none ↦ delete_keys_by_pattern (edge_key_prefix <> "*:" <> uid) r'
      ]

  -- `DeleteNode`: a node that cannot be read is left; the error of the edges is logged.
  unfoldable pub delete_node : Uid → R → R × Option String
  unfolding get_node remove_from_sets index_keys delete_node_edges
  delete_node uid r = elim (get_node uid r) [
    | inl _ ↦ (r, none)
    | inr n ↦
        let (r', e) = client.del (node_key uid ∷ []) r in
        elim e [
          | some cause ↦ (r', some ("failed to delete node from Redis: " <> cause))
          | none ↦ ((delete_node_edges uid (remove_from_indexes n.fields r')).0, none)
        ]
  ]

  -- The loops of `LoadGraph`, and the whole of it.
  unfoldable pub load_nodes : List Node → Graph → Graph
  load_nodes [] g = g
  load_nodes (n ∷ ns) g = load_nodes ns (add_node n g)

  unfoldable pub load_edges : List Edge → Graph → Graph
  load_edges [] g = g
  load_edges (e ∷ es) g = load_edges es (add_edge e g).0

  unfoldable pub load_graph : R → String ⊎ Graph
  unfolding nodes_from edges_from load_nodes load_edges
  load_graph r = elim (get_all_nodes r) [
    | inl e ↦ inl ("failed to load nodes: " <> e)
    | inr nodes ↦
        let loaded = load_nodes nodes new_graph in
        elim (get_all_edges r) [
          | inl e ↦ inl ("failed to load edges: " <> e)
          | inr edges ↦ inr (load_edges edges loaded)
        ]
  ]

  -- The loops of `SaveGraph`, and the whole of it: the errors are logged.
  unfoldable pub save_nodes : List Node → R → R
  unfolding save_node
  save_nodes [] r = r
  save_nodes (n ∷ ns) r = save_nodes ns (save_node n.fields r).0

  unfoldable pub save_edges : List (Uid × Edge) → R → R
  unfolding save_edge
  save_edges [] r = r
  save_edges ((_, e) ∷ es) r = save_edges es (save_edge e r).0

  unfoldable pub save_all_edges : List Node → R → R
  unfolding save_edges
  save_all_edges [] r = r
  save_all_edges (n ∷ ns) r = save_all_edges ns (save_edges n.outgoing_edges r)

  unfoldable pub save_graph : Graph → R → R × Option String
  unfolding save_nodes save_all_edges Queries.get_all_nodes
  save_graph g r =
      let nodes = Queries.get_all_nodes g in (save_all_edges nodes (save_nodes nodes r), none)

  -- The store as a backend of the persistent graph.
  abbrev pub redis_store : Backend R
  redis_store = record {
    save_node = save_node;
    delete_node = delete_node;
    save_edge = save_edge;
    delete_edge = delete_edge;
    load_graph = load_graph;
    save_graph = save_graph;
  }
