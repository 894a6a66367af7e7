-- ===== src/Graph/Removal.antt =====
-- The edges of the main map across `RemoveNode` and `RemoveEdge` of pkg/graph/types.go.
use astrolabe_server.Common.{
  str_dec, string_key, none, some, List, [], ◌∷◌, ite, ◌≡◌, arith, sym, ◌≢◌, Option-cases, inl, inr,
  true, ◌∙◌,
}
use astrolabe_server.Common.Dict.{Dict, get, delete, get-delete}
use astrolabe_server.Graph.Types.{Uid, Edge, Node}
use astrolabe_server.Graph.Store.{
  unset_outgoing, unset_incoming, unlink_targets, unlink_sources, incoming_of,
}
use astrolabe_server.Graph.Views.{
  fields_of, out_edge, in_edge, out_edge-unset_outgoing, in_edge-unset_incoming,
}
use astrolabe_server.Graph.Linked.{
  IsLinked, to_uids_have, from_uids_have, fields_of-unlink_targets, out_edge-unlink_targets,
  in_edge-unlink_targets, fields_of-unlink_sources, in_edge-unlink_sources, out_edge-unlink_sources,
  fields_of-unset_incoming, fields_of-unset_outgoing, out_edge-unset_incoming,
  in_edge-unset_outgoing,
}

to_uids_have_of_get :
    (b : Uid) (es : List (Uid × Edge)) (e : Edge)
    → get b es ≡ some e
    → e.to_uid ≡ b
    → to_uids_have b es ≡ true
unfolding get
to_uids_have_of_get b [] e h p = cc
to_uids_have_of_get b ((k, f) ∷ es) e h p = ground (arith, to_uids_have_of_get b es e)

from_uids_have_of_get :
    (a : Uid) (es : List (Uid × Edge)) (e : Edge)
    → get a es ≡ some e
    → e.from_uid ≡ a
    → from_uids_have a es ≡ true
unfolding get
from_uids_have_of_get a [] e h p = cc
from_uids_have_of_get a ((k, f) ∷ es) e h p = ground (arith, from_uids_have_of_get a es e)

module _ (uid : Uid) (node : Node) (ns : Dict Uid Node) where
  abbrev unlinked : Dict Uid Node
  unlinked = unlink_targets uid node.outgoing_edges ns

  abbrev isolated : Dict Uid Node
  isolated = unlink_sources uid (incoming_of uid unlinked) unlinked

  -- The main map after `RemoveNode`.
  abbrev pub removed : Dict Uid Node
  removed = delete uid isolated

  pub fields_of-removed :
      (a : Uid) → fields_of a removed ≡ ite (str_dec uid a) none (fields_of a ns)
  fields_of-removed a = ground (
    arith,
    get-delete a uid isolated,
    fields_of-unlink_sources uid (incoming_of uid unlinked) unlinked a,
    fields_of-unlink_targets uid node.outgoing_edges ns a,
  )

  module _ (live : get uid ns ≡ some node) (h : IsLinked ns) where
    -- An edge from `uid` is among the edges that the first loop visits, so its target forgets it.
    in_edge-unlinked :
        (a b : Uid) → in_edge a b unlinked ≡ ite (str_dec uid a) none (in_edge a b ns)
    in_edge-unlinked a b = elim (Option-cases (out_edge a b ns)) [
      | inl none_out ↦
          ground (arith, in_edge-unlink_targets uid node.outgoing_edges ns a b, h.mirrored a b)
      | inr (e, out) ↦ ground (
        arith,
        in_edge-unlink_targets uid node.outgoing_edges ns a b,
        h.mirrored a b,
        h.labelled a b e out,
        to_uids_have_of_get b node.outgoing_edges e,
      )
    ]

    out_edge-unlinked : (a b : Uid) → out_edge a b unlinked ≡ out_edge a b ns
    out_edge-unlinked a b = out_edge-unlink_targets uid node.outgoing_edges ns a b

    in_edge-isolated :
        (a b : Uid) → in_edge a b isolated ≡ ite (str_dec uid a) none (in_edge a b ns)
    in_edge-isolated a b =
        in_edge-unlink_sources uid (incoming_of uid unlinked) unlinked a b ∙ in_edge-unlinked a b

    -- An edge to `uid` from another node is among those that the second loop visits.
    out_edge-isolated :
        (a b : Uid) → a ≢ uid → out_edge a b isolated ≡ ite (str_dec uid b) none (out_edge a b ns)
    unfolding incoming_of
    out_edge-isolated a b ne = elim (Option-cases (out_edge a b ns)) [
      | inl none_out ↦ ground (
        arith,
        out_edge-unlink_sources uid (incoming_of uid unlinked) unlinked a b,
        out_edge-unlinked a b,
      )
      | inr (e, out) ↦ ground (
        arith,
        out_edge-unlink_sources uid (incoming_of uid unlinked) unlinked a b,
        out_edge-unlinked a b,
        in_edge-unlinked a b,
        h.mirrored a b,
        h.labelled a b e out,
        from_uids_have_of_get a (incoming_of uid unlinked) e,
      )
    ]

    pub out_edge-removed :
        (a b : Uid)
        → out_edge a b removed
          ≡ ite (str_dec uid a) none (ite (str_dec uid b) none (out_edge a b ns))
    out_edge-removed a b = elim (str_dec uid a) [
      | yes p ↦ ground (arith, get-delete a uid isolated)
      | no p ↦ ground (arith, get-delete a uid isolated, out_edge-isolated a b (λ q. p (sym q)))
    ]

    pub in_edge-removed :
        (a b : Uid)
        → in_edge a b removed ≡ ite (str_dec uid a) none (ite (str_dec uid b) none (in_edge a b ns))
    in_edge-removed a b = ground (arith, get-delete b uid isolated, in_edge-isolated a b)

    pub removed-IsLinked : IsLinked removed
    removed-IsLinked = record {
      mirrored = λ a b. ground (arith, out_edge-removed a b, in_edge-removed a b, h.mirrored a b);
      labelled = λ a b e q. ground (arith, out_edge-removed a b, h.labelled a b e);
      keyed = λ a n q. ground (arith, fields_of-removed a, h.keyed a n);
    }

-- The main map after `RemoveEdge`.
module _ (from to : Uid) (ns : Dict Uid Node) where
  abbrev pub cut : Dict Uid Node
  cut = unset_incoming to from (unset_outgoing from to ns)

  pub fields_of-cut : (a : Uid) → fields_of a cut ≡ fields_of a ns
  fields_of-cut a =
      fields_of-unset_incoming from to a (unset_outgoing from to ns)
      ∙ fields_of-unset_outgoing to from a ns

  pub out_edge-cut :
      (a b : Uid)
      → out_edge a b cut
        ≡ ite (str_dec from a) (ite (str_dec to b) none (out_edge a b ns)) (out_edge a b ns)
  out_edge-cut a b =
      out_edge-unset_incoming from to a b (unset_outgoing from to ns)
      ∙ out_edge-unset_outgoing from to ns a b

  pub in_edge-cut :
      (a b : Uid)
      → in_edge a b cut
        ≡ ite (str_dec to b) (ite (str_dec from a) none (in_edge a b ns)) (in_edge a b ns)
  in_edge-cut a b = ground (
    arith,
    in_edge-unset_incoming to from (unset_outgoing from to ns) a b,
    in_edge-unset_outgoing to from a b ns,
  )

  pub cut-IsLinked : IsLinked ns → IsLinked cut
  cut-IsLinked h = record {
    mirrored = λ a b. ground (arith, out_edge-cut a b, in_edge-cut a b, h.mirrored a b);
    labelled = λ a b e q. ground (arith, out_edge-cut a b, h.labelled a b e);
    keyed = λ a n q. h.keyed a n (sym (fields_of-cut a) ∙ q);
  }
