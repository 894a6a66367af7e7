-- ===== src/Graph/Views.antt =====
-- What a reader of the main map sees: the fields of a live node, and the edges at each of its
-- ends. The laws say what each write of pkg/graph/types.go changes in these views.
use astrolabe_server.Common.{
  str_dec, string_key, Option, none, some, ite, ◌≡◌, arith, Option-cases, inl, inr,
}
use mathlib.Core.Option
use astrolabe_server.Common.Dict.{Dict, get, put, delete, get-put, get-delete}
use astrolabe_server.Graph.Types.{Uid, Edge, Node, NodeData}
use astrolabe_server.Graph.Pending.{update_node, set_outgoing, set_incoming}
use astrolabe_server.Graph.Store.{unset_outgoing, unset_incoming}

abbrev pub fields_of : Uid → Dict Uid Node → Option NodeData
fields_of a ns = elim (get a ns) [ none ↦ none | some n ↦ some n.fields ]

abbrev pub out_edge : Uid → Uid → Dict Uid Node → Option Edge
out_edge a b ns = elim (get a ns) [ none ↦ none | some n ↦ get b n.outgoing_edges ]

-- The edge from `a` to `b`, as `b` records it.
abbrev pub in_edge : Uid → Uid → Dict Uid Node → Option Edge
in_edge a b ns = elim (get b ns) [ none ↦ none | some n ↦ get a n.incoming_edges ]

abbrev pub if_live {ℓ} : {A : Type ℓ} → Uid → Dict Uid Node → A → A → A
if_live u ns x y = elim (get u ns) [ none ↦ y | some _ ↦ x ]

module _ (u : Uid) (f : Node → Node) (ns : Dict Uid Node) where
  pub get-update_node :
      (a : Uid)
      → get a (update_node u f ns) ≡ ite (str_dec u a) (Option.map f (get u ns)) (get a ns)
  unfolding update_node
  get-update_node a = elim (Option-cases (get u ns)) [
    | inl dead ↦ ground arith
    | inr (n, live) ↦ ground (arith, get-put a u (f n) ns)
  ]

  -- What `f` keeps of each object, the write keeps of the map.
  pub fields_of-update_node :
      ((n : Node) → (f n).fields ≡ n.fields)
      → (a : Uid) → fields_of a (update_node u f ns) ≡ fields_of a ns
  fields_of-update_node keep a = elim (Option-cases (get u ns)) [
    | inl dead ↦ ground (arith, get-update_node a)
    | inr (n, live) ↦ ground (arith, get-update_node a, keep n)
  ]

  pub out_edge-update_node :
      ((n : Node) → (f n).outgoing_edges ≡ n.outgoing_edges)
      → (a b : Uid) → out_edge a b (update_node u f ns) ≡ out_edge a b ns
  out_edge-update_node keep a b = elim (Option-cases (get u ns)) [
    | inl dead ↦ ground (arith, get-update_node a)
    | inr (n, live) ↦ ground (arith, get-update_node a, keep n)
  ]

  pub in_edge-update_node :
      ((n : Node) → (f n).incoming_edges ≡ n.incoming_edges)
      → (a b : Uid) → in_edge a b (update_node u f ns) ≡ in_edge a b ns
  in_edge-update_node keep a b = elim (Option-cases (get u ns)) [
    | inl dead ↦ ground (arith, get-update_node b)
    | inr (n, live) ↦ ground (arith, get-update_node b, keep n)
  ]

module _ (u k : Uid) (e : Edge) (ns : Dict Uid Node) where
  pub out_edge-set_outgoing :
      (a b : Uid)
      → out_edge a b (set_outgoing u k e ns)
        ≡ ite
            (str_dec u a)
            (ite (str_dec k b) (if_live u ns (some e) none) (out_edge a b ns))
            (out_edge a b ns)
  unfolding set_outgoing
  out_edge-set_outgoing a b =
      let f : Node → Node = λ n. record n { outgoing_edges = put k e n.outgoing_edges } in
      elim (Option-cases (get u ns)) [
        | inl dead ↦ ground (arith, get-update_node u f ns a)
        | inr (n, live) ↦ ground (arith, get-update_node u f ns a, get-put b k e n.outgoing_edges)
      ]

  pub in_edge-set_incoming :
      (a b : Uid)
      → in_edge a b (set_incoming u k e ns)
        ≡ ite
            (str_dec u b)
            (ite (str_dec k a) (if_live u ns (some e) none) (in_edge a b ns))
            (in_edge a b ns)
  unfolding set_incoming
  in_edge-set_incoming a b =
      let f : Node → Node = λ n. record n { incoming_edges = put k e n.incoming_edges } in
      elim (Option-cases (get u ns)) [
        | inl dead ↦ ground (arith, get-update_node u f ns b)
        | inr (n, live) ↦ ground (arith, get-update_node u f ns b, get-put a k e n.incoming_edges)
      ]

module _ (u k : Uid) (ns : Dict Uid Node) where
  pub out_edge-unset_outgoing :
      (a b : Uid)
      → out_edge a b (unset_outgoing u k ns)
        ≡ ite (str_dec u a) (ite (str_dec k b) (none) (out_edge a b ns)) (out_edge a b ns)
  unfolding unset_outgoing
  out_edge-unset_outgoing a b =
      let f : Node → Node = λ n. record n { outgoing_edges = delete k n.outgoing_edges } in
      elim (Option-cases (get u ns)) [
        | inl dead ↦ ground (arith, get-update_node u f ns a)
        | inr (n, live) ↦ ground (arith, get-update_node u f ns a, get-delete b k n.outgoing_edges)
      ]

  pub in_edge-unset_incoming :
      (a b : Uid)
      → in_edge a b (unset_incoming u k ns)
        ≡ ite (str_dec u b) (ite (str_dec k a) (none) (in_edge a b ns)) (in_edge a b ns)
  unfolding unset_incoming
  in_edge-unset_incoming a b =
      let f : Node → Node = λ n. record n { incoming_edges = delete k n.incoming_edges } in
      elim (Option-cases (get u ns)) [
        | inl dead ↦ ground (arith, get-update_node u f ns b)
        | inr (n, live) ↦ ground (arith, get-update_node u f ns b, get-delete a k n.incoming_edges)
      ]
