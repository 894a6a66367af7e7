-- ===== src/Storage/Restart.antt =====
-- A restart of the server of cmd/astrolabe/main.go with Redis: the snapshot of `SaveGraph` at the
-- shutdown, and `LoadGraph` at the start, of pkg/storage/redis.go.
use astrolabe_server.Common.{
  false, ℕ, String, string_key, Option, none, some, ◌≡◌, inr, arith, sym, ◌∙◌,
}
use astrolabe_server.Graph.Types.{Node, Uid, Graph}
use astrolabe_server.Graph.Views.{fields_of, out_edge, in_edge, if_live}
use astrolabe_server.Graph.Steps.{IsConsistent, Reach, Reach-IsConsistent, new_graph-IsConsistent}
use astrolabe_server.Graph.Store.{new_graph}
use astrolabe_server.Graph.Once.{new_graph-IsOnce}
use astrolabe_server.Common.Dict.{get}
use astrolabe_server.Storage.Keys.{has_colon}
use astrolabe_server.Storage.Client.{Client, Codec, IsRedis, IsCodec, value}
use astrolabe_server.Storage.Layout.{node_key, edge_key}
use astrolabe_server.Storage.Redis.{load_graph, save_graph}
use astrolabe_server.Storage.Saving.{node_at, edge_of}
use astrolabe_server.Storage.Stored.{IsStored, empty-IsStored, save_graph-IsStored}
use astrolabe_server.Storage.Snapshot.{IsPlain, node_at-save_graph, edge_of-save_graph}
use astrolabe_server.Storage.Loaded.{IsLoaded, load_graph_exact}

-- Two graphs with the same nodes and the same edges; which objects hold them, and in which order, is
-- forgotten.
pub record IsSame (h g : Graph) : Type 0 where
  pub nodes : (u : Uid) → fields_of u h.nodes ≡ fields_of u g.nodes
  pub outgoing : (a b : Uid) → out_edge a b h.nodes ≡ out_edge a b g.nodes
  pub incoming : (a b : Uid) → in_edge a b h.nodes ≡ in_edge a b g.nodes

-- What was in the store, where the graph has nothing.
abbrev pub left_over : {A : Type 0} → Option A → Option A → Option A
left_over current old = elim current [ none ↦ old | some x ↦ some x ]

module _ {R D : Type 0} (client : Client R D) (codec : Codec D) (rounds : R → ℕ)
    (redis : IsRedis rounds client) (json : IsCodec codec) (g : Graph) (reach : Reach new_graph g)
    (uids : (u : Uid) (n : Node) → get u g.nodes ≡ some n → has_colon u ≡ false) (r : R) where
  abbrev c : IsConsistent g
  c = Reach-IsConsistent reach new_graph-IsConsistent

  abbrev plain : IsPlain g.nodes
  plain =
      let once = new_graph-IsOnce reach in
      record { distinct = once.nodes; distinct_edges = once.edges; uids = uids }

  abbrev saved : R
  saved = (save_graph client codec rounds g r).0

  module _ (empty : (k : String) → value client k r ≡ none) where
    module _ (h : Graph) (loaded : IsLoaded client codec rounds saved h) where
      same_nodes : (u : Uid) → fields_of u h.nodes ≡ fields_of u g.nodes
      same_nodes u =
          loaded.nodes u
          ∙ node_at-save_graph client codec rounds redis json g r u c.linked plain
          ∙ ground (arith, empty (node_key u))

      same_edges : (a b : Uid) → out_edge a b h.nodes ≡ out_edge a b g.nodes
      same_edges a b = ground (
        arith,
        loaded.edges a b,
        node_at-save_graph client codec rounds redis json g r a c.linked plain,
        node_at-save_graph client codec rounds redis json g r b c.linked plain,
        edge_of-save_graph client codec rounds redis json g r a b c.linked plain,
        c.linked.mirrored a b,
        empty (node_key a),
        empty (node_key b),
        empty (edge_key a b),
      )

      loaded-IsSame : IsSame h g
      loaded-IsSame = record {
        nodes = same_nodes;
        outgoing = same_edges;
        incoming = λ a b.
            sym ((Reach-IsConsistent loaded.reached new_graph-IsConsistent).linked.mirrored a b)
            ∙ same_edges a b
            ∙ c.linked.mirrored a b;
      }

    -- Take any graph that calls of the graph's operations make of the empty one, whose UIDs have no
    -- colon, and save it on an empty server that answers as the Redis commands are documented, with
    -- an encoding that decodes what it encodes. `LoadGraph` then succeeds, with the same nodes and
    -- the same edges at both ends, in a graph that such calls make too.
    pub load_graph-save_graph :
        (h : Graph) × (load_graph client codec rounds saved ≡ inr h)
        × IsSame h g
        × Reach new_graph h
    load_graph-save_graph =
        let stored =
          save_graph-IsStored client codec rounds redis json g r c.linked plain
            (empty-IsStored client codec rounds redis json r empty) in
        let (h, ok, loaded) = load_graph_exact client codec rounds redis saved stored in
        (h, ok, loaded-IsSame h loaded, loaded.reached)

  -- Take any graph that calls of the graph's operations make of the empty one, whose UIDs have no
  -- colon, and save it over a server that answers as documented and holds each node under its own
  -- UID and each edge under its own ends, the UIDs of which have no colon, with an encoding that
  -- decodes what it encodes. `LoadGraph` then returns the graph's nodes and, where the graph has
  -- none, those that the server had; likewise with the edges that nodes have among their outgoing
  -- ones, as far as both ends are loaded.
  pub load_graph-save_graph_stale :
      IsStored client codec rounds r
      → (h : Graph) × (load_graph client codec rounds saved ≡ inr h)
        × ((u : Uid)
            → fields_of u h.nodes
              ≡ left_over (fields_of u g.nodes) (node_at client codec rounds u r))
        × ((a b : Uid)
            → out_edge a b h.nodes
              ≡ if_live a h.nodes
                  (if_live b h.nodes
                    (left_over (out_edge a b g.nodes) (edge_of client codec rounds a b r))
                    none)
                  none)
  load_graph-save_graph_stale stored =
      let (h, ok, loaded) =
        load_graph_exact client codec rounds redis saved
          (save_graph-IsStored client codec rounds redis json g r c.linked plain stored) in
      (
        h,
        ok,
        λ u.
            loaded.nodes u ∙ node_at-save_graph client codec rounds redis json g r u c.linked plain,
        λ a b. ground (
          arith,
          loaded.edges a b,
          loaded.nodes a,
          loaded.nodes b,
          edge_of-save_graph client codec rounds redis json g r a b c.linked plain,
        ),
      )
