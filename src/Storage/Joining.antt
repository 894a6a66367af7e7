-- ===== src/Storage/Joining.antt =====
-- The loop of `LoadGraph` of pkg/storage/redis.go that adds the edges.
use text.Mathlib.Text.{starts_with}
use astrolabe_server.Common.{
  ℕ, String, str_dec, string_key, true, false, Option, none, some, List, [], ◌∷◌, ◌≡◌, ◌⊎◌, inl,
  inr, refl, arith, Option-cases, ap, sym, ◌∙◌, subst,
}
use astrolabe_server.Graph.Types.{Uid, Edge, Graph}
use astrolabe_server.Graph.Store.{add_edge}
use astrolabe_server.Graph.Views.{out_edge}
use astrolabe_server.Graph.Linked.{IsLinked}
use astrolabe_server.Graph.Edges.{fields_of-add_edge, out_edge-add_edge, add_edge-IsLinked}
use astrolabe_server.Api.Related.{In}
use astrolabe_server.Storage.Client.{Client, Codec, value}
use astrolabe_server.Storage.Layout.{edge_key, edge_key_prefix}
use astrolabe_server.Storage.Redis.{edges_of_keys, edge_at, load_edges}
use astrolabe_server.Storage.Keys.{has_colon, edge_key_inj}
use astrolabe_server.Storage.Saving.{node_at, edge_of, edge_of_text, edge_at-value}
use astrolabe_server.Storage.Stored.{IsStored}
use astrolabe_server.Storage.Loading.{Agrees, after_edges}

module _ {R D : Type 0} (client : Client R D) (codec : Codec D) (rounds : R → ℕ) (r : R) where
  abbrev pub IsListedEdge : Edge → Type 0
  IsListedEdge e = edge_of client codec rounds e.from_uid e.to_uid r ≡ some e

  abbrev pub IsEdgeKey : String → Type 0
  IsEdgeKey key = starts_with key edge_key_prefix ≡ true

  -- The edge of the store between two nodes that are both in the store.
  abbrev pub edge_between : Uid → Uid → Option Edge
  edge_between a b = elim (node_at client codec rounds a r) [
    | none ↦ none
    | some _ ↦ elim (node_at client codec rounds b r) [
      | none ↦ none
      | some _ ↦ edge_of client codec rounds a b r
    ]
  ]

  abbrev pub AgreesAt : Uid → Uid → Graph → Type 0
  AgreesAt a b g =
      Agrees client codec rounds r a g
      × Agrees client codec rounds r b g
      × (out_edge a b g.nodes ≡ edge_between a b)

  module _ (stored : IsStored client codec rounds r) where
    after_edges_next :
        (key : String) (keys : List String) (g : Graph)
        → IsEdgeKey key
        → ((e : Edge) × IsListedEdge e
            × (key ≡ edge_key e.from_uid e.to_uid)
            × (has_colon e.from_uid ≡ false)
            × (has_colon e.to_uid ≡ false)
            × (after_edges client codec rounds r (key ∷ keys) g
                ≡ after_edges client codec rounds r keys (add_edge e g).0))
          ⊎ ((edge_of_text codec (value client key r) ≡ none)
              × (after_edges client codec rounds r (key ∷ keys) g
                  ≡ after_edges client codec rounds r keys g))
    unfolding edges_of_keys load_edges
    after_edges_next key keys g prefix = elim (Option-cases (edge_at client codec rounds key r)) [
      | inl p ↦ inr (sym (edge_at-value client codec rounds key r) ∙ p, ground (arith))
      | inr (e, p) ↦
          let read = sym (edge_at-value client codec rounds key r) ∙ p in
          let (same, from, to) = stored.edges_keyed key e prefix read in
          inl (
            e,
            ap (λ k. edge_of_text codec (value client k r)) (sym same) ∙ read,
            same,
            from,
            to,
            ground (arith),
          )
    ]

    pub after_edges_keeps :
        (P : Graph → Type 0)
        → ((e : Edge) (g : Graph) → IsListedEdge e → P g → P (add_edge e g).0)
        → (keys : List String) (g : Graph) → ((k : String) → In k keys → IsEdgeKey k)
        → P g
        → P (after_edges client codec rounds r keys g)
    unfolding edges_of_keys load_edges
    after_edges_keeps P step [] g prefix p = p
    after_edges_keeps P step (key ∷ keys) g prefix p =
        let rest = λ (k : String) (i : In k keys). prefix k (inr i) in
        elim (after_edges_next key keys g (prefix key (inl refl))) [
          | inl (e, listed, _, _, _, same) ↦
              subst P (sym same)
                (after_edges_keeps P step keys (add_edge e g).0 rest (step e g listed p))
          | inr (_, same) ↦ subst P (sym same) (after_edges_keeps P step keys g rest p)
        ]

    pub add_edge-AgreesAt :
        (a b : Uid) (e : Edge) (g : Graph)
        → IsListedEdge e
        → AgreesAt a b g
        → AgreesAt a b (add_edge e g).0
    add_edge-AgreesAt a b e g listed h = (
      fields_of-add_edge e g a ∙ h.0,
      fields_of-add_edge e g b ∙ h.1,
      elim (str_dec e.from_uid a) [
        | no p ↦ ground (arith, out_edge-add_edge e g a b, h.2)
        | yes p ↦ elim (str_dec e.to_uid b) [
          | no q ↦ ground (arith, out_edge-add_edge e g a b, h.2)
          | yes q ↦
              let found : edge_of client codec rounds a b r ≡ some e =
                (λ i. edge_of client codec rounds (sym p i) (sym q i) r) ∙ listed in
              ground (arith, out_edge-add_edge e g a b, h.0, h.1, h.2, found)
        ]
      ],
    )

    listed_edge-AgreesAt :
        (a b : Uid) (e : Edge) (g : Graph)
        → IsListedEdge e
        → a ≡ e.from_uid
        → b ≡ e.to_uid
        → IsLinked g.nodes
        → Agrees client codec rounds r a g
        → Agrees client codec rounds r b g
        → AgreesAt a b (add_edge e g).0
    listed_edge-AgreesAt a b e g listed p q linked from to =
        let found : edge_of client codec rounds a b r ≡ some e =
          (λ i. edge_of client codec rounds (p i) (q i) r) ∙ listed in
        (
          fields_of-add_edge e g a ∙ from,
          fields_of-add_edge e g b ∙ to,
          ground (arith, out_edge-add_edge e g a b, found, linked.mirrored a b, from, to),
        )

    -- An edge whose key is listed is loaded, if both ends are live.
    pub after_edges_complete :
        (a b : Uid) (x : Edge) (keys : List String) (g : Graph)
        → ((k : String) → In k keys → IsEdgeKey k)
        → edge_of client codec rounds a b r ≡ some x
        → In (edge_key a b) keys
        → IsLinked g.nodes
        → Agrees client codec rounds r a g
        → Agrees client codec rounds r b g
        → out_edge a b (after_edges client codec rounds r keys g).nodes ≡ edge_between a b
    after_edges_complete a b x [] g prefix h nowhere linked from to = elim nowhere [ ]
    after_edges_complete a b x (key ∷ keys) g prefix h (inl first) linked from to =
        let rest = λ (k : String) (i : In k keys). prefix k (inr i) in
        elim (after_edges_next key keys g (prefix key (inl refl))) [
          | inl (e, listed, same, plain_from, plain_to, step) ↦
              let (p, q) =
                edge_key_inj a b e.from_uid e.to_uid plain_from plain_to (sym first ∙ same) in
              subst (λ k. out_edge a b k.nodes ≡ edge_between a b) (sym step)
                (after_edges_keeps (AgreesAt a b) (add_edge-AgreesAt a b) keys (add_edge e g).0 rest
                  (listed_edge-AgreesAt a b e g listed p q linked from to)).2
          | inr (q, _) ↦ absurd (
              ground
                (arith, sym h ∙ ap (λ k. edge_of_text codec (value client k r)) (sym first) ∙ q))
        ]
    after_edges_complete a b x (key ∷ keys) g prefix h (inr later) linked from to =
        let rest = λ (k : String) (i : In k keys). prefix k (inr i) in
        elim (after_edges_next key keys g (prefix key (inl refl))) [
          | inl (e, _, _, _, _, step) ↦
              subst (λ k. out_edge a b k.nodes ≡ edge_between a b) (sym step)
                (after_edges_complete a b x keys (add_edge e g).0 rest h later
                  (add_edge-IsLinked e g linked) (fields_of-add_edge e g a ∙ from)
                  (fields_of-add_edge e g b ∙ to))
          | inr (_, step) ↦
              subst (λ k. out_edge a b k.nodes ≡ edge_between a b) (sym step)
                (after_edges_complete a b x keys g rest h later linked from to)
        ]
