-- ===== src/Storage/Loading.antt =====
-- `LoadGraph` of pkg/storage/redis.go: the graph that its two loops make of what the store holds.
use astrolabe_server.Common.{
  ℕ, String, str_dec, string_key, none, some, List, [], ◌∷◌, ◌≡◌, ◌⊎◌, inl, inr, refl, arith,
  Option-cases, ap, sym, ◌∙◌, subst,
}
use astrolabe_server.Common.Dict.{get}
use astrolabe_server.Graph.Types.{Uid, Node, NodeData, Graph}
use astrolabe_server.Graph.Pending.{process_pending_edges_for_node}
use astrolabe_server.Graph.Indexes.{add_to_indexes, remove_from_indexes}
use astrolabe_server.Graph.Store.{add_node}
use astrolabe_server.Graph.Views.{fields_of, out_edge}
use astrolabe_server.Graph.Additions.{
  IsFresh, fields_of-add_node, out_edge-add_node_new, out_edge-add_node_update,
}
use astrolabe_server.Api.Related.{In}
use astrolabe_server.Storage.Client.{Client, Codec}
use astrolabe_server.Storage.Layout.{node_key, uid_of_key}
use astrolabe_server.Storage.Redis.{nodes_of_keys, edges_of_keys, load_nodes, load_edges}
use astrolabe_server.Storage.Keys.{uid_of_key-node_key}
use astrolabe_server.Storage.Saving.{node_at, get_node-cases}
use astrolabe_server.Storage.Stored.{IsStored}

-- Nothing waits for a node.
pub record IsQuiet (g : Graph) : Type 0 where
  pub no_pending : g.pending_edges ≡ []
  pub no_reverse : g.reverse_pending_edges ≡ []

pub add_node-IsQuiet : (n : Node) (g : Graph) → IsQuiet g → IsQuiet (add_node n g)
unfolding add_node process_pending_edges_for_node add_to_indexes remove_from_indexes
add_node-IsQuiet n g q = record {
  no_pending = ground (arith, q.no_pending);
  no_reverse = ground (arith, q.no_reverse);
}

-- A fresh node changes no edge while nothing waits.
pub out_edge-add_node_quiet :
    (n : Node) (g : Graph) (a b : Uid)
    → IsFresh n
    → IsQuiet g
    → out_edge a b (add_node n g).nodes ≡ out_edge a b g.nodes
out_edge-add_node_quiet n g a b fresh q = elim (Option-cases (get n.uid g.nodes)) [
  | inl dead ↦ out_edge-add_node_new n g dead fresh a b ∙ rw (q.no_pending, q.no_reverse) refl
  | inr (old, live) ↦ out_edge-add_node_update n g old live a b
]

some-ne-none : {x : NodeData} → some x ≡ none → ⊥
some-ne-none h = cc

module _ {R D : Type 0} (client : Client R D) (codec : Codec D) (rounds : R → ℕ) (r : R) where
  abbrev pub after_nodes : List String → Graph → Graph
  after_nodes keys g = load_nodes client codec rounds (nodes_of_keys client codec rounds keys r) g

  abbrev pub after_edges : List String → Graph → Graph
  after_edges keys g = load_edges client codec rounds (edges_of_keys client codec rounds keys r) g

  abbrev pub IsListed : Node → Type 0
  IsListed n = IsFresh n × (node_at client codec rounds n.uid r ≡ some n.fields)

  abbrev pub Agrees : Uid → Graph → Type 0
  Agrees u g = fields_of u g.nodes ≡ node_at client codec rounds u r

  module _ (stored : IsStored client codec rounds r) where
    -- The next key holds a node that is read, or is left out.
    after_nodes_next :
        (key : String) (keys : List String) (g : Graph)
        → ((n : Node) × IsListed n
            × (n.uid ≡ uid_of_key key)
            × (after_nodes (key ∷ keys) g ≡ after_nodes keys (add_node n g)))
          ⊎ ((node_at client codec rounds (uid_of_key key) r ≡ none)
              × (after_nodes (key ∷ keys) g ≡ after_nodes keys g))
    unfolding nodes_of_keys load_nodes
    after_nodes_next key keys g = elim (get_node-cases client codec rounds (uid_of_key key) r) [
      | inl (e, p, q) ↦ inr (q, ground (arith))
      | inr (n, p, q, fresh) ↦
          let same = stored.nodes_keyed (uid_of_key key) n.fields q in
          inl (n, (fresh, ap (λ u. node_at client codec rounds u r) same ∙ q), same, ground (arith))
    ]

    -- What each listed node keeps, the loop keeps.
    pub after_nodes_keeps :
        (P : Graph → Type 0)
        → ((n : Node) (g : Graph) → IsListed n → P g → P (add_node n g))
        → (keys : List String) (g : Graph) → P g
        → P (after_nodes keys g)
    unfolding nodes_of_keys load_nodes
    after_nodes_keeps P step [] g p = p
    after_nodes_keeps P step (key ∷ keys) g p = elim (after_nodes_next key keys g) [
      | inl (n, listed, _, e) ↦
          subst P (sym e) (after_nodes_keeps P step keys (add_node n g) (step n g listed p))
      | inr (_, e) ↦ subst P (sym e) (after_nodes_keeps P step keys g p)
    ]

    pub add_node-Agrees :
        (u : Uid) (n : Node) (g : Graph) → IsListed n → Agrees u g → Agrees u (add_node n g)
    add_node-Agrees u n g listed h = elim (str_dec n.uid u) [
      | yes p ↦ ground (
        arith,
        fields_of-add_node n g u,
        listed.1,
        ap (λ (v : Uid). node_at client codec rounds v r) p,
      )
      | no p ↦ ground (arith, fields_of-add_node n g u)
    ]

    listed-Agrees :
        (u : Uid) (n : Node) (g : Graph) → IsListed n → n.uid ≡ u → Agrees u (add_node n g)
    listed-Agrees u n g listed p = ground (
      arith,
      fields_of-add_node n g u,
      listed.1,
      ap (λ (v : Uid). node_at client codec rounds v r) p,
    )

    -- A node whose key is listed is loaded.
    pub after_nodes_complete :
        (u : Uid) (x : NodeData) (keys : List String) (g : Graph)
        → node_at client codec rounds u r ≡ some x
        → In (node_key u) keys
        → Agrees u (after_nodes keys g)
    after_nodes_complete u x [] g h nowhere = elim nowhere [ ]
    after_nodes_complete u x (key ∷ keys) g h (inl first) =
        let uid : uid_of_key key ≡ u = ap uid_of_key first ∙ uid_of_key-node_key u in
        elim (after_nodes_next key keys g) [
          | inl (n, listed, same, e) ↦ subst (Agrees u) (sym e) (
              after_nodes_keeps (Agrees u) (add_node-Agrees u) keys (add_node n g)
                (listed-Agrees u n g listed (same ∙ uid)))
          | inr (q, _) ↦
              absurd
                (some-ne-none (sym h ∙ ap (λ v. node_at client codec rounds v r) (sym uid) ∙ q))
        ]
    after_nodes_complete u x (key ∷ keys) g h (inr later) = elim (after_nodes_next key keys g) [
      | inl (n, _, _, e) ↦
          subst (Agrees u) (sym e) (after_nodes_complete u x keys (add_node n g) h later)
      | inr (_, e) ↦ subst (Agrees u) (sym e) (after_nodes_complete u x keys g h later)
    ]
