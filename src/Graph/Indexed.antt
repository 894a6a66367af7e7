-- ===== src/Graph/Indexed.antt =====
-- The namespace/kind index and the release index of pkg/graph/types.go against the main map, across
-- the operations.
use astrolabe_server.Common.{
  ℕ, String, str_dec, string_key, Option, none, some, ite, ◌≡◌, arith, Option-cases, inl, inr, true,
  false, Bool-cases,
}
use astrolabe_server.Common.Dict.{get}
use astrolabe_server.Graph.Types.{Uid, Node, NodeData, Graph, Edge}
use astrolabe_server.Graph.Indexes.{
  ns_key, remove_at, index_add, index_remove, add_to_indexes, remove_from_indexes,
}
use astrolabe_server.Graph.Pending.{process_pending_edges_for_node}
use astrolabe_server.Graph.Store.{add_node, remove_node, add_edge, remove_edge, needs_reindex}
use astrolabe_server.Graph.Views.{fields_of}
use astrolabe_server.Graph.Linked.{IsLinked}
use astrolabe_server.Graph.Additions.{fields_of-add_node}
use astrolabe_server.Graph.Edges.{fields_of-remove_node, fields_of-add_edge, fields_of-remove_edge}
use astrolabe_server.Graph.Buckets.{
  count_uid, bucket, inner_bucket, count_uid-append_at, count_uid-remove_at, count_uid-index_add,
  count_uid-index_remove,
}

-- How often a node with these fields belongs into a bucket.
abbrev pub at_kind : String → String → Option NodeData → ℕ
at_kind k j none = 0
at_kind k j (some n) = ite (str_dec (ns_key n.namespace) k) (ite (str_dec n.kind j) 1 0) 0

abbrev pub at_release : String → Option NodeData → ℕ
at_release r none = 0
at_release r (some n) = ite (str_dec n.helm_release r) (ite (str_dec r "") 0 1) 0

pub record IsIndexed (g : Graph) : Type 0 where
  pub by_kind :
      (k j : String) (u : Uid)
      → count_uid u (inner_bucket k j g.by_namespace_kind) ≡ at_kind k j (fields_of u g.nodes)
  pub by_release :
      (r : String) (u : Uid)
      → count_uid u (bucket r g.by_helm_release) ≡ at_release r (fields_of u g.nodes)

-- Without the need to index the node again its index keys are those of its old version.
same_keys :
    (old n : NodeData)
    → needs_reindex old n ≡ false
    → (old.namespace ≡ n.namespace) × (old.kind ≡ n.kind) × (old.helm_release ≡ n.helm_release)
unfolding needs_reindex
same_keys old n h = ground arith

module _ (node : Node) (g : Graph) (old : Node) (live : get node.uid g.nodes ≡ some old) where
  kind_index_moved :
      needs_reindex old.fields node.fields ≡ true
      → (add_node node g).by_namespace_kind
        ≡ index_add
            (ns_key node.namespace)
            node.kind
            node.fields
            (index_remove (ns_key old.namespace) old.kind old.uid g.by_namespace_kind)
  unfolding add_node add_to_indexes remove_from_indexes
  kind_index_moved moved = rw (live, add_node, moved)

  kind_index_in_place :
      needs_reindex old.fields node.fields ≡ false
      → (add_node node g).by_namespace_kind ≡ g.by_namespace_kind
  unfolding add_node
  kind_index_in_place in_place = rw (live, add_node, in_place)

module _ (node : Node) (g : Graph) (linked : IsLinked g.nodes) (h : IsIndexed g) (u : Uid) where
  at_kind-add_node :
      (k j : String)
      → count_uid u (inner_bucket k j (add_node node g).by_namespace_kind)
        ≡ at_kind k j (fields_of u (add_node node g).nodes)
  unfolding add_node process_pending_edges_for_node add_to_indexes
  at_kind-add_node k j = elim (Option-cases (get node.uid g.nodes)) [
    | inl dead ↦ ground (
      arith,
      fields_of-add_node node g u,
      h.by_kind k j u,
      count_uid-index_add u k j (ns_key node.namespace) node.kind g.by_namespace_kind node.fields,
    )
    | inr (old, live) ↦ elim (Bool-cases (needs_reindex old.fields node.fields)) [
      | inl moved ↦ ground (
        arith,
        kind_index_moved node g old live moved,
        fields_of-add_node node g u,
        h.by_kind k j u,
        linked.keyed node.uid old.fields,
        count_uid-index_remove u k j (ns_key old.namespace) old.kind g.by_namespace_kind old.uid,
        count_uid-index_add u k j (ns_key node.namespace) node.kind
            (index_remove (ns_key old.namespace) old.kind old.uid g.by_namespace_kind) node.fields,
      )
      | inr in_place ↦ ground (
        arith,
        kind_index_in_place node g old live in_place,
        fields_of-add_node node g u,
        h.by_kind k j u,
        same_keys old.fields node.fields in_place,
      )
    ]
  ]

  at_release-add_node :
      (r : String)
      → count_uid u (bucket r (add_node node g).by_helm_release)
        ≡ at_release r (fields_of u (add_node node g).nodes)
  unfolding add_node process_pending_edges_for_node add_to_indexes remove_from_indexes
  at_release-add_node r = elim (Option-cases (get node.uid g.nodes)) [
    | inl dead ↦ ground (
      arith,
      fields_of-add_node node g u,
      h.by_release r u,
      count_uid-append_at u r node.helm_release g.by_helm_release node.fields,
    )
    | inr (old, live) ↦ ground (
      arith,
      fields_of-add_node node g u,
      h.by_release r u,
      same_keys old.fields node.fields,
      linked.keyed node.uid old.fields,
      count_uid-remove_at u r old.helm_release g.by_helm_release old.uid,
      count_uid-append_at u r node.helm_release g.by_helm_release node.fields,
      count_uid-append_at u r node.helm_release
          (remove_at old.helm_release old.uid g.by_helm_release) node.fields,
    )
  ]

module _ (uid : Uid) (g : Graph) (linked : IsLinked g.nodes) (h : IsIndexed g) (u : Uid) where
  at_kind-remove_node :
      (k j : String)
      → count_uid u (inner_bucket k j (remove_node uid g).by_namespace_kind)
        ≡ at_kind k j (fields_of u (remove_node uid g).nodes)
  unfolding remove_node remove_from_indexes
  at_kind-remove_node k j = elim (Option-cases (get uid g.nodes)) [
    | inl dead ↦ ground (arith, fields_of-remove_node uid g u, h.by_kind k j u)
    | inr (old, live) ↦ ground (
      arith,
      fields_of-remove_node uid g u,
      h.by_kind k j u,
      linked.keyed uid old.fields,
      count_uid-index_remove u k j (ns_key old.namespace) old.kind g.by_namespace_kind old.uid,
    )
  ]

  at_release-remove_node :
      (r : String)
      → count_uid u (bucket r (remove_node uid g).by_helm_release)
        ≡ at_release r (fields_of u (remove_node uid g).nodes)
  unfolding remove_node remove_from_indexes
  at_release-remove_node r = elim (Option-cases (get uid g.nodes)) [
    | inl dead ↦ ground (arith, fields_of-remove_node uid g u, h.by_release r u)
    | inr (old, live) ↦ ground (
      arith,
      fields_of-remove_node uid g u,
      h.by_release r u,
      linked.keyed uid old.fields,
      count_uid-remove_at u r old.helm_release g.by_helm_release old.uid,
    )
  ]

pub add_node-IsIndexed :
    (node : Node) (g : Graph) → IsLinked g.nodes → IsIndexed g → IsIndexed (add_node node g)
add_node-IsIndexed node g linked h = record {
  by_kind = λ k j u. at_kind-add_node node g linked h u k j;
  by_release = λ r u. at_release-add_node node g linked h u r;
}

pub remove_node-IsIndexed :
    (uid : Uid) (g : Graph) → IsLinked g.nodes → IsIndexed g → IsIndexed (remove_node uid g)
remove_node-IsIndexed uid g linked h = record {
  by_kind = λ k j u. at_kind-remove_node uid g linked h u k j;
  by_release = λ r u. at_release-remove_node uid g linked h u r;
}

pub add_edge-IsIndexed : (e : Edge) (g : Graph) → IsIndexed g → IsIndexed (add_edge e g).0
unfolding add_edge
add_edge-IsIndexed e g h = record {
  by_kind = λ k j u. ground (arith, h.by_kind k j u, fields_of-add_edge e g u);
  by_release = λ r u. ground (arith, h.by_release r u, fields_of-add_edge e g u);
}

pub remove_edge-IsIndexed :
    (from to : Uid) (g : Graph) → IsIndexed g → IsIndexed (remove_edge from to g)
unfolding remove_edge
remove_edge-IsIndexed from to g h = record {
  by_kind = λ k j u. ground (arith, h.by_kind k j u, fields_of-remove_edge from to g u);
  by_release = λ r u. ground (arith, h.by_release r u, fields_of-remove_edge from to g u);
}
