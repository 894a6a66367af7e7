-- ===== src/Graph/Lookup.antt =====
-- What the queries of pkg/graph/types.go find in a consistent graph.
use astrolabe_server.Common.{
  subst, String, string_key, none, some, List, [], ◌∷◌, ◌≡◌, arith, sym, Option-cases, inl, inr,
  map, ◌++◌, ◌≢◌, true,
}
use astrolabe_server.Common.Dict.{Dict, get, get_or, get-put}
use astrolabe_server.Graph.Types.{Uid, Node, NodeData, Graph}
use astrolabe_server.Graph.Indexes.{ns_key, append_at, add_to_indexes}
use text.Mathlib.TextEquality.{eq_iff}
use astrolabe_server.Graph.Pending.{process_pending_edges_for_node}
use astrolabe_server.Graph.Store.{add_node, needs_reindex, labels_equal}
use astrolabe_server.Graph.Queries.{
  live_nodes, get_nodes_by_namespace_kind, get_nodes_by_helm_release,
}
use astrolabe_server.Graph.Views.{fields_of}
use astrolabe_server.Graph.Linked.{IsLinked}
use astrolabe_server.Graph.Additions.{fields_of-add_node}
use astrolabe_server.Graph.Buckets.{count_uid, inner_bucket}
use astrolabe_server.Graph.Indexed.{at_kind, at_release}
use astrolabe_server.Graph.Steps.{IsConsistent}

abbrev pub All {ℓ κ} : {A : Type ℓ} → (A → Type κ) → List A → Type κ
All P [] = Unit
All P (x ∷ xs) = P x × All P xs

abbrev pub uids_of : List Node → List NodeData
uids_of = map (λ n. n.fields)

abbrev pub IsLive : Graph → Node → Type 0
IsLive g n = get n.uid g.nodes ≡ some n

module _ (nodes : Dict Uid Node) (linked : IsLinked nodes) where
  count_uid-live_nodes :
      (u : Uid) (ns : List NodeData)
      → count_uid u (uids_of (live_nodes ns nodes))
        ≡ elim (get u nodes) [ none ↦ 0 | some _ ↦ count_uid u ns ]
  unfolding live_nodes
  count_uid-live_nodes u [] = ground arith
  count_uid-live_nodes u (m ∷ ns) = elim (Option-cases (get m.uid nodes)) [
    | inl dead ↦ ground (arith, count_uid-live_nodes u ns)
    | inr (n, live) ↦ ground (arith, count_uid-live_nodes u ns, linked.keyed m.uid n.fields)
  ]

  live_nodes-All : (ns : List NodeData) → All (λ n. get n.uid nodes ≡ some n) (live_nodes ns nodes)
  unfolding live_nodes
  live_nodes-All [] = tt
  live_nodes-All (m ∷ ns) = elim (Option-cases (get m.uid nodes)) [
    | inl dead ↦ rw (dead, live_nodes) (live_nodes-All ns)
    | inr (n, live) ↦
        rw (live, live_nodes)
          (
            subst (λ k. get k nodes ≡ some n) (sym (linked.keyed m.uid n.fields (ground arith)))
                live,
            live_nodes-All ns,
          )
  ]

module _ (g : Graph) (c : IsConsistent g) (namespace kind : String) where
  bucket-get_nodes :
      get_nodes_by_namespace_kind namespace kind g
      ≡ live_nodes (inner_bucket (ns_key namespace) kind g.by_namespace_kind) g.nodes
  unfolding get_nodes_by_namespace_kind live_nodes get
  bucket-get_nodes = ground arith

  -- In a consistent graph `GetNodesByNamespaceKind` returns the live nodes of the namespace and
  -- kind, as they are now, each once, and no other node.
  pub get_nodes_by_namespace_kind-exact :
      (u : Uid)
      → All (IsLive g) (get_nodes_by_namespace_kind namespace kind g)
        × (count_uid u (uids_of (get_nodes_by_namespace_kind namespace kind g))
            ≡ at_kind (ns_key namespace) kind (fields_of u g.nodes))
  get_nodes_by_namespace_kind-exact u = (
    rw bucket-get_nodes (live_nodes-All g.nodes c.linked _),
    rw bucket-get_nodes (
        ground (
          arith,
          count_uid-live_nodes g.nodes c.linked u
              (inner_bucket (ns_key namespace) kind g.by_namespace_kind),
          c.indexed.by_kind (ns_key namespace) kind u,
        )),
  )

-- In a consistent graph the slice of `GetNodesByHelmRelease` has the UID of each live node of the
-- release once, and no other UID.
pub get_nodes_by_helm_release-exact :
    (g : Graph)
    → IsConsistent g
    → (release : String) (u : Uid)
    → count_uid u (get_nodes_by_helm_release release g) ≡ at_release release (fields_of u g.nodes)
unfolding get_nodes_by_helm_release
get_nodes_by_helm_release-exact g c release u = ground (arith, c.indexed.by_release release u)

module _ (first second : Node) (g : Graph) where
  -- A new node of a release stands at the end of the release's slice.
  get_nodes_by_helm_release-add_node_new :
      get first.uid g.nodes ≡ none
      → first.helm_release ≢ ""
      → get_nodes_by_helm_release first.helm_release (add_node first g)
        ≡ get_nodes_by_helm_release first.helm_release g ++ (first.fields ∷ [])
  unfolding get_nodes_by_helm_release add_node process_pending_edges_for_node add_to_indexes
      append_at
  get_nodes_by_helm_release-add_node_new dead named = ground (
    arith,
    eq_iff first.helm_release "",
    get-put first.helm_release first.helm_release
        (get_or first.helm_release [] g.by_helm_release ++ (first.fields ∷ [])) g.by_helm_release,
  )

  by_helm_release-add_node_alike :
      (m : Node) (h : Graph)
      → get second.uid h.nodes ≡ some m
      → m.namespace ≡ second.namespace
      → m.kind ≡ second.kind
      → m.helm_release ≡ second.helm_release
      → labels_equal m.labels second.labels ≡ true
      → (add_node second h).by_helm_release ≡ h.by_helm_release
  unfolding add_node needs_reindex
  by_helm_release-add_node_alike m h live p q r same = ground arith

  -- A node of a release, whose UID is new, is added, and then updated to a version with the same
  -- namespace, kind and release and labels that `labelsEqual` takes for the same. The main map then
  -- has the fields of the second version, and `GetNodesByHelmRelease` returns the first version
  -- after the nodes that the release had.
  pub get_nodes_by_helm_release_stale :
      get first.uid g.nodes ≡ none
      → first.helm_release ≢ ""
      → second.uid ≡ first.uid
      → first.namespace ≡ second.namespace
      → first.kind ≡ second.kind
      → first.helm_release ≡ second.helm_release
      → labels_equal first.labels second.labels ≡ true
      → (fields_of first.uid (add_node second (add_node first g)).nodes ≡ some second.fields)
        × (get_nodes_by_helm_release first.helm_release (add_node second (add_node first g))
            ≡ get_nodes_by_helm_release first.helm_release g ++ (first.fields ∷ []))
  unfolding get_nodes_by_helm_release
  get_nodes_by_helm_release_stale dead named same_uid p q r same =
      elim (Option-cases (get second.uid (add_node first g).nodes)) [
        | inl missing ↦ absurd (ground (arith, fields_of-add_node first g first.uid))
        | inr (m, live) ↦ (
          ground (arith, fields_of-add_node second (add_node first g) first.uid),
          ground (
            arith,
            fields_of-add_node first g first.uid,
            by_helm_release-add_node_alike m (add_node first g) live,
            get_nodes_by_helm_release-add_node_new dead named,
          ),
        )
      ]
