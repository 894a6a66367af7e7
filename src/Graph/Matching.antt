-- ===== src/Graph/Matching.antt =====
-- The edges that `processPendingEdgesForNode` of pkg/graph/types.go links, in order.
use astrolabe_server.Common.{
  str_dec, string_key, Option, none, some, List, [], ◌∷◌, ◌++◌, ite, ◌⊎◌, ◌≡◌, arith, refl,
  Option-cases, inl, inr, Bool-cases, ◌∙◌, map, if◌then◌else◌,
}
use astrolabe_server.Common.Dict.{Dict, get}
use astrolabe_server.Graph.Types.{
  Uid, Edge, Node, NodeData, RefKey, PendingEdge, ReversePendingEdge,
}
use astrolabe_server.Graph.Pending.{
  link, new_edge, ref_matches, link_pending, link_reverse, link_matching, link_matching_reverse,
}
use astrolabe_server.Graph.Views.{fields_of, out_edge, in_edge, if_live}
use astrolabe_server.Graph.Linked.{
  IsLinked, fields_of-link, out_edge-link, in_edge-link, link-IsLinked,
}

link_live : Edge → Dict Uid Node → Dict Uid Node
link_live e ns = if_live e.from_uid ns (if_live e.to_uid ns (link e ns) ns) ns

pub link_all : List Edge → Dict Uid Node → Dict Uid Node
unfolding link_live
link_all [] ns = ns
link_all (e ∷ es) ns = link_all es (link_live e ns)

-- The last edge of the list from `a` to `b`.
abbrev pub last_edge : Uid → Uid → List Edge → Option Edge
last_edge a b [] = none
last_edge a b (e ∷ es) = elim (last_edge a b es) [
  | some f ↦ some f
  | none ↦ ite (str_dec e.from_uid a) (ite (str_dec e.to_uid b) (some e) none) none
]

fields_of-link_live :
    (e : Edge) (ns : Dict Uid Node) (a : Uid) → fields_of a (link_live e ns) ≡ fields_of a ns
unfolding link_live
fields_of-link_live e ns a = ground (arith, fields_of-link e ns a)

pub fields_of-link_all :
    (es : List Edge) (ns : Dict Uid Node) (a : Uid) → fields_of a (link_all es ns) ≡ fields_of a ns
unfolding link_all
fields_of-link_all [] ns a = refl
fields_of-link_all (e ∷ es) ns a =
    fields_of-link_all es (link_live e ns) a ∙ fields_of-link_live e ns a

link_live_live :
    (e : Edge) (ns : Dict Uid Node) (n m : Node)
    → get e.from_uid ns ≡ some n
    → get e.to_uid ns ≡ some m
    → link_live e ns ≡ link e ns
unfolding link_live
link_live_live e ns n m p q = ground arith

link_live_dead :
    (e : Edge) (ns : Dict Uid Node)
    → ((get e.from_uid ns ≡ none) ⊎ (get e.to_uid ns ≡ none))
    → link_live e ns ≡ ns
unfolding link_live
link_live_dead e ns h = ground arith

link_live-IsLinked : (e : Edge) (ns : Dict Uid Node) → IsLinked ns → IsLinked (link_live e ns)
link_live-IsLinked e ns h = elim (Option-cases (get e.from_uid ns)) [
  | inl p ↦ rw (link_live_dead e ns (inl p)) h
  | inr (n, p) ↦ elim (Option-cases (get e.to_uid ns)) [
    | inl q ↦ rw (link_live_dead e ns (inr q)) h
    | inr (m, q) ↦ rw (link_live_live e ns n m p q) (link-IsLinked e ns n m p q h)
  ]
]

pub link_all-IsLinked :
    (es : List Edge) (ns : Dict Uid Node) → IsLinked ns → IsLinked (link_all es ns)
unfolding link_all
link_all-IsLinked [] ns h = h
link_all-IsLinked (e ∷ es) ns h = link_all-IsLinked es (link_live e ns) (link_live-IsLinked e ns h)

abbrev pub overlay : Uid → Uid → Option Edge → Dict Uid Node → Option Edge → Option Edge
overlay a b last ns old = elim last [
  | none ↦ old
  | some e ↦ if_live a ns (if_live b ns (some e) old) old
]

out_edge-link_live :
    (e : Edge) (ns : Dict Uid Node) (a b : Uid)
    → out_edge a b (link_live e ns) ≡ overlay a b (last_edge a b (e ∷ [])) ns (out_edge a b ns)
unfolding link_live
out_edge-link_live e ns a b = elim (Option-cases (get e.from_uid ns)) [
  | inl p ↦ ground arith
  | inr (n, p) ↦ elim (Option-cases (get e.to_uid ns)) [
    | inl q ↦ ground arith
    | inr (m, q) ↦ ground (arith, out_edge-link e ns n m p q a b)
  ]
]

pub out_edge-link_all :
    (es : List Edge) (ns : Dict Uid Node) (a b : Uid)
    → out_edge a b (link_all es ns) ≡ overlay a b (last_edge a b es) ns (out_edge a b ns)
unfolding link_all
out_edge-link_all [] ns a b = refl
out_edge-link_all (e ∷ es) ns a b = ground (
  arith,
  out_edge-link_all es (link_live e ns) a b,
  out_edge-link_live e ns a b,
  fields_of-link_live e ns a,
  fields_of-link_live e ns b,
)

in_edge-link_live :
    (e : Edge) (ns : Dict Uid Node) (a b : Uid)
    → in_edge a b (link_live e ns) ≡ overlay a b (last_edge a b (e ∷ [])) ns (in_edge a b ns)
unfolding link_live
in_edge-link_live e ns a b = elim (Option-cases (get e.from_uid ns)) [
  | inl p ↦ ground arith
  | inr (n, p) ↦ elim (Option-cases (get e.to_uid ns)) [
    | inl q ↦ ground arith
    | inr (m, q) ↦ ground (arith, in_edge-link e ns n m p q a b)
  ]
]

pub in_edge-link_all :
    (es : List Edge) (ns : Dict Uid Node) (a b : Uid)
    → in_edge a b (link_all es ns) ≡ overlay a b (last_edge a b es) ns (in_edge a b ns)
unfolding link_all
in_edge-link_all [] ns a b = refl
in_edge-link_all (e ∷ es) ns a b = ground (
  arith,
  in_edge-link_all es (link_live e ns) a b,
  in_edge-link_live e ns a b,
  fields_of-link_live e ns a,
  fields_of-link_live e ns b,
)

-- The edges that wait for a node, in the order of the loops.
abbrev edges_to : Uid → List PendingEdge → List Edge
edges_to uid = map (λ p. new_edge p.edge_type p.from_uid uid)

abbrev edges_from : Uid → List ReversePendingEdge → List Edge
edges_from uid = map (λ p. new_edge p.edge_type uid p.to_uid)

abbrev pub waiting_to : NodeData → List (RefKey × List PendingEdge) → List Edge
waiting_to n [] = []
waiting_to n ((ref, ps) ∷ entries) =
    (if ref_matches ref n then edges_to n.uid ps else []) ++ waiting_to n entries

abbrev pub waiting_from : NodeData → List (RefKey × List ReversePendingEdge) → List Edge
waiting_from n [] = []
waiting_from n ((ref, ps) ∷ entries) =
    (if ref_matches ref n then edges_from n.uid ps else []) ++ waiting_from n entries

link_all-append :
    (es fs : List Edge) (ns : Dict Uid Node) → link_all (es ++ fs) ns ≡ link_all fs (link_all es ns)
unfolding link_all
link_all-append [] fs ns = refl
link_all-append (e ∷ es) fs ns = link_all-append es fs (link_live e ns)

module _ (n x : NodeData) where
  link_pending-link_all :
      (ps : List PendingEdge) (ns : Dict Uid Node)
      → fields_of n.uid ns ≡ some x
      → link_pending n.uid ps ns ≡ link_all (edges_to n.uid ps) ns
  unfolding link_pending link_all link_live
  link_pending-link_all [] ns h = refl
  link_pending-link_all (p ∷ ps) ns h = ground (
    arith,
    link_pending-link_all ps (link_live (new_edge p.edge_type p.from_uid n.uid) ns),
    fields_of-link_live (new_edge p.edge_type p.from_uid n.uid) ns n.uid,
  )

  link_reverse-link_all :
      (ps : List ReversePendingEdge) (ns : Dict Uid Node)
      → fields_of n.uid ns ≡ some x
      → link_reverse n.uid ps ns ≡ link_all (edges_from n.uid ps) ns
  unfolding link_reverse link_all link_live
  link_reverse-link_all [] ns h = refl
  link_reverse-link_all (p ∷ ps) ns h = ground (
    arith,
    link_reverse-link_all ps (link_live (new_edge p.edge_type n.uid p.to_uid) ns),
    fields_of-link_live (new_edge p.edge_type n.uid p.to_uid) ns n.uid,
  )

  pub link_matching-link_all :
      (entries : List (RefKey × List PendingEdge)) (ns : Dict Uid Node)
      → fields_of n.uid ns ≡ some x
      → link_matching n entries ns ≡ link_all (waiting_to n entries) ns
  unfolding link_matching link_all
  link_matching-link_all [] ns h = refl
  link_matching-link_all ((ref, ps) ∷ entries) ns h = elim (Bool-cases (ref_matches ref n)) [
    | inl hit ↦
        rw (hit, link_pending-link_all ps ns h, link_all-append)
          (link_matching-link_all entries (link_all (edges_to n.uid ps) ns)
            (fields_of-link_all (edges_to n.uid ps) ns n.uid ∙ h))
    | inr miss ↦ rw miss (link_matching-link_all entries ns h)
  ]

  pub link_matching_reverse-link_all :
      (entries : List (RefKey × List ReversePendingEdge)) (ns : Dict Uid Node)
      → fields_of n.uid ns ≡ some x
      → link_matching_reverse n entries ns ≡ link_all (waiting_from n entries) ns
  unfolding link_matching_reverse link_all
  link_matching_reverse-link_all [] ns h = refl
  link_matching_reverse-link_all ((ref, ps) ∷ entries) ns h =
      elim (Bool-cases (ref_matches ref n)) [
        | inl hit ↦
            rw (hit, link_reverse-link_all ps ns h, link_all-append)
              (link_matching_reverse-link_all entries (link_all (edges_from n.uid ps) ns)
                (fields_of-link_all (edges_from n.uid ps) ns n.uid ∙ h))
        | inr miss ↦ rw miss (link_matching_reverse-link_all entries ns h)
      ]
