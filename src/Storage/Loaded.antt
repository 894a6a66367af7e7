-- ===== src/Storage/Loaded.antt =====
-- What `LoadGraph` of pkg/storage/redis.go returns, and the graph that it makes of a saved one.
use text.Mathlib.Text.{starts_with}
use astrolabe_server.Common.{
  true, ℕ, String, string_key, none, ◌≡◌, inl, inr, refl, arith, Option-cases, sym, ◌∙◌,
}
use astrolabe_server.Common.Dict.{get}
use astrolabe_server.Graph.Types.{Uid, Graph}
use astrolabe_server.Graph.Store.{new_graph}
use astrolabe_server.Graph.Views.{fields_of, out_edge}
use astrolabe_server.Graph.Steps.{
  Reach, here, next, add_node_step, add_edge_step, IsConsistent, new_graph-IsConsistent,
  Reach-IsConsistent,
}
use astrolabe_server.Graph.Edges.{fields_of-add_edge}
use astrolabe_server.Api.Related.{In}
use astrolabe_server.Storage.Client.{Client, Codec, IsRedis}
use astrolabe_server.Storage.Layout.{node_key_prefix, edge_key_prefix}
use astrolabe_server.Storage.Redis.{load_graph}
use astrolabe_server.Storage.Saving.{node_at, edge_of}
use astrolabe_server.Storage.Stored.{IsStored}
use astrolabe_server.Storage.Listing.{
  get_all_nodes-scan_keys, get_all_edges-scan_keys, node_key-In, edge_key-In,
}
use astrolabe_server.Storage.Loading.{
  IsQuiet, add_node-IsQuiet, out_edge-add_node_quiet, Agrees, add_node-Agrees, after_nodes,
  after_edges, after_nodes_keeps, after_nodes_complete,
}
use astrolabe_server.Storage.Joining.{
  edge_between, AgreesAt, add_edge-AgreesAt, after_edges_keeps, after_edges_complete,
}

-- A graph that only nodes were added to.
record IsEdgeless (g : Graph) : Type 0 where
  pub reach : Reach new_graph g
  pub quiet : IsQuiet g
  pub no_edges : (a b : Uid) → out_edge a b g.nodes ≡ none

new_graph-IsEdgeless : IsEdgeless new_graph
unfolding get
new_graph-IsEdgeless = record {
  reach = here;
  quiet = record { no_pending = refl; no_reverse = refl };
  no_edges = λ a b. refl;
}

module _ {R D : Type 0} (client : Client R D) (codec : Codec D) (rounds : R → ℕ) where
  -- The graph holds each node of the store, and each edge of the store whose two ends are nodes of the
  -- store.
  pub record IsLoaded (r : R) (h : Graph) : Type 0 where
    pub nodes : (u : Uid) → fields_of u h.nodes ≡ node_at client codec rounds u r
    pub edges : (a b : Uid) → out_edge a b h.nodes ≡ edge_between client codec rounds r a b
    pub reached : Reach new_graph h

  module _ (redis : IsRedis rounds client) (r : R) (stored : IsStored client codec rounds r) where
    abbrev first_loop : Graph
    first_loop = after_nodes client codec rounds r (redis.scan_keys node_key_prefix r) new_graph

    abbrev second_loop : Graph
    second_loop = after_edges client codec rounds r (redis.scan_keys edge_key_prefix r) first_loop

    load_graph-loops : load_graph client codec rounds r ≡ inr second_loop
    unfolding load_graph
    load_graph-loops = ground (
      arith,
      get_all_nodes-scan_keys client codec rounds redis r,
      get_all_edges-scan_keys client codec rounds redis r,
    )

    first_loop-IsEdgeless : IsEdgeless first_loop
    first_loop-IsEdgeless =
        after_nodes_keeps client codec rounds r stored IsEdgeless
          (λ n g listed s. record {
            reach = next s.reach (add_node_step n listed.0);
            quiet = add_node-IsQuiet n g s.quiet;
            no_edges = λ a b. out_edge-add_node_quiet n g a b listed.0 s.quiet ∙ s.no_edges a b;
          })
          (redis.scan_keys node_key_prefix r) new_graph new_graph-IsEdgeless

    first_loop-Agrees : (u : Uid) → fields_of u first_loop.nodes ≡ node_at client codec rounds u r
    unfolding get
    first_loop-Agrees u = elim (Option-cases (node_at client codec rounds u r)) [
      | inl p ↦
          after_nodes_keeps client codec rounds r stored (Agrees client codec rounds r u)
            (add_node-Agrees client codec rounds r stored u) (redis.scan_keys node_key_prefix r)
            new_graph (sym p)
      | inr (n, p) ↦
          after_nodes_complete client codec rounds r stored u n (redis.scan_keys node_key_prefix r)
            new_graph p (node_key-In client codec rounds redis u n r p)
    ]

    edge_keys_prefixed :
        (k : String)
        → In k (redis.scan_keys edge_key_prefix r)
        → starts_with k edge_key_prefix ≡ true
    edge_keys_prefixed = redis.scan_keys_sound edge_key_prefix r

    abbrev first_loop-IsConsistent : IsConsistent first_loop
    first_loop-IsConsistent = Reach-IsConsistent first_loop-IsEdgeless.reach new_graph-IsConsistent

    second_loop-fields : (u : Uid) → fields_of u second_loop.nodes ≡ node_at client codec rounds u r
    second_loop-fields u =
        after_edges_keeps client codec rounds r stored (Agrees client codec rounds r u)
          (λ e g listed h. fields_of-add_edge e g u ∙ h) (redis.scan_keys edge_key_prefix r)
          first_loop edge_keys_prefixed (first_loop-Agrees u)

    second_loop-AgreesAt : (a b : Uid) → AgreesAt client codec rounds r a b second_loop
    second_loop-AgreesAt a b = elim (Option-cases (edge_of client codec rounds a b r)) [
      | inl p ↦
          after_edges_keeps client codec rounds r stored (AgreesAt client codec rounds r a b)
            (add_edge-AgreesAt client codec rounds r stored a b) (redis.scan_keys edge_key_prefix r)
            first_loop edge_keys_prefixed
            (
              first_loop-Agrees a,
              first_loop-Agrees b,
              first_loop-IsEdgeless.no_edges a b ∙ ground (arith),
            )
      | inr (e, p) ↦ (
        second_loop-fields a,
        second_loop-fields b,
        after_edges_complete client codec rounds r stored a b e (redis.scan_keys edge_key_prefix r)
            first_loop edge_keys_prefixed p (edge_key-In client codec rounds redis a b e r p)
            first_loop-IsConsistent.linked (first_loop-Agrees a) (first_loop-Agrees b),
      )
    ]

    second_loop-Reach : Reach new_graph second_loop
    second_loop-Reach =
        after_edges_keeps client codec rounds r stored (Reach new_graph)
          (λ e g listed reach. next reach (add_edge_step e)) (redis.scan_keys edge_key_prefix r)
          first_loop edge_keys_prefixed first_loop-IsEdgeless.reach

    -- On a server that answers as documented and holds each node under its own UID and each edge
    -- under its own ends, the UIDs of which have no colon, `LoadGraph` succeeds with a graph that
    -- calls of the graph's operations make of the empty one: its nodes are those that can be read,
    -- and its edges those that can be read between two such nodes.
    pub load_graph_exact : (h : Graph) × (load_graph client codec rounds r ≡ inr h) × IsLoaded r h
    load_graph_exact = (
      second_loop,
      load_graph-loops,
      record {
        nodes = second_loop-fields;
        edges = λ a b. (second_loop-AgreesAt a b).2;
        reached = second_loop-Reach;
      },
    )
