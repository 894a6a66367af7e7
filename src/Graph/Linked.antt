-- ===== src/Graph/Linked.antt =====
-- The edges of the main map of pkg/graph/types.go at their two ends, across its writes.
use astrolabe_server.Common.{
  str_dec, string_key, Option, none, some, List, [], ◌∷◌, ite, ◌≡◌, arith, refl, sym, Bool, true,
  false, ◌||◌, ◌==◌, ◌∙◌,
}
use astrolabe_server.Common.Dict.{Dict, get}
use astrolabe_server.Graph.Types.{Uid, Edge, Node, NodeData}
use astrolabe_server.Graph.Pending.{set_outgoing, set_incoming, link}
use astrolabe_server.Graph.Store.{unset_outgoing, unset_incoming, unlink_targets, unlink_sources}
use astrolabe_server.Graph.Views.{
  fields_of, out_edge, in_edge, fields_of-update_node, out_edge-update_node, in_edge-update_node,
  out_edge-set_outgoing, in_edge-set_incoming, out_edge-unset_outgoing, in_edge-unset_incoming,
}

pub record IsLinked (ns : Dict Uid Node) : Type 0 where
  pub mirrored : (a b : Uid) → out_edge a b ns ≡ in_edge a b ns
  pub labelled :
      (a b : Uid) (e : Edge) → out_edge a b ns ≡ some e → (e.from_uid ≡ a) × (e.to_uid ≡ b)
  pub keyed : (a : Uid) (n : NodeData) → fields_of a ns ≡ some n → n.uid ≡ a

-- The three views of a map after `link`.
module _ (e : Edge) (ns : Dict Uid Node) where
  pub fields_of-link : (a : Uid) → fields_of a (link e ns) ≡ fields_of a ns
  unfolding link set_outgoing set_incoming
  fields_of-link a =
      fields_of-update_node e.to_uid _ (set_outgoing e.from_uid e.to_uid e ns) (λ n. refl) a
      ∙ fields_of-update_node e.from_uid _ ns (λ n. refl) a

  out_edge-set_incoming :
      (a b : Uid) (ms : Dict Uid Node)
      → out_edge a b (set_incoming e.to_uid e.from_uid e ms) ≡ out_edge a b ms
  unfolding set_incoming
  out_edge-set_incoming a b ms = out_edge-update_node e.to_uid _ ms (λ n. refl) a b

  in_edge-set_outgoing :
      (a b : Uid) → in_edge a b (set_outgoing e.from_uid e.to_uid e ns) ≡ in_edge a b ns
  unfolding set_outgoing
  in_edge-set_outgoing a b = in_edge-update_node e.from_uid _ ns (λ n. refl) a b

  fields_of-set_outgoing :
      (a : Uid) → fields_of a (set_outgoing e.from_uid e.to_uid e ns) ≡ fields_of a ns
  unfolding set_outgoing
  fields_of-set_outgoing a = fields_of-update_node e.from_uid _ ns (λ n. refl) a

  -- The edge, if both ends are live; any other edge is as before.
  abbrev linked : Uid → Uid → Option Edge → Option Edge
  linked a b old = ite (str_dec e.from_uid a) (ite (str_dec e.to_uid b) (some e) old) old

  module _ (n m : Node) (from : get e.from_uid ns ≡ some n) (to : get e.to_uid ns ≡ some m) where
    pub out_edge-link : (a b : Uid) → out_edge a b (link e ns) ≡ linked a b (out_edge a b ns)
    unfolding link
    out_edge-link a b = ground (
      arith,
      out_edge-set_incoming a b (set_outgoing e.from_uid e.to_uid e ns),
      out_edge-set_outgoing e.from_uid e.to_uid e ns a b,
    )

    pub in_edge-link : (a b : Uid) → in_edge a b (link e ns) ≡ linked a b (in_edge a b ns)
    unfolding link
    in_edge-link a b = ground (
      arith,
      in_edge-set_incoming e.to_uid e.from_uid e (set_outgoing e.from_uid e.to_uid e ns) a b,
      in_edge-set_outgoing a b,
      fields_of-set_outgoing e.to_uid,
    )

    pub link-IsLinked : IsLinked ns → IsLinked (link e ns)
    link-IsLinked h = record {
      mirrored = λ a b. ground (arith, out_edge-link a b, in_edge-link a b, h.mirrored a b);
      labelled = λ a b f q. ground (arith, out_edge-link a b, h.labelled a b f);
      keyed = λ a x q. h.keyed a x (sym (fields_of-link a) ∙ q);
    }

-- The loops of `RemoveNode`.
abbrev pub to_uids_have : Uid → List (Uid × Edge) → Bool
to_uids_have b [] = false
to_uids_have b ((_, e) ∷ es) = e.to_uid == b || to_uids_have b es

abbrev pub from_uids_have : Uid → List (Uid × Edge) → Bool
from_uids_have a [] = false
from_uids_have a ((_, e) ∷ es) = e.from_uid == a || from_uids_have a es

module _ (uid : Uid) where
  pub fields_of-unset_incoming :
      (u a : Uid) (ns : Dict Uid Node) → fields_of a (unset_incoming u uid ns) ≡ fields_of a ns
  unfolding unset_incoming
  fields_of-unset_incoming u a ns = fields_of-update_node u _ ns (λ n. refl) a

  pub out_edge-unset_incoming :
      (u a b : Uid) (ns : Dict Uid Node) → out_edge a b (unset_incoming u uid ns) ≡ out_edge a b ns
  unfolding unset_incoming
  out_edge-unset_incoming u a b ns = out_edge-update_node u _ ns (λ n. refl) a b

  pub fields_of-unset_outgoing :
      (u a : Uid) (ns : Dict Uid Node) → fields_of a (unset_outgoing u uid ns) ≡ fields_of a ns
  unfolding unset_outgoing
  fields_of-unset_outgoing u a ns = fields_of-update_node u _ ns (λ n. refl) a

  pub in_edge-unset_outgoing :
      (u a b : Uid) (ns : Dict Uid Node) → in_edge a b (unset_outgoing u uid ns) ≡ in_edge a b ns
  unfolding unset_outgoing
  in_edge-unset_outgoing u a b ns = in_edge-update_node u _ ns (λ n. refl) a b

  pub fields_of-unlink_targets :
      (es : List (Uid × Edge)) (ns : Dict Uid Node) (a : Uid)
      → fields_of a (unlink_targets uid es ns) ≡ fields_of a ns
  unfolding unlink_targets
  fields_of-unlink_targets [] ns a = refl
  fields_of-unlink_targets ((_, e) ∷ es) ns a =
      fields_of-unlink_targets es (unset_incoming e.to_uid uid ns) a
      ∙ fields_of-unset_incoming e.to_uid a ns

  pub out_edge-unlink_targets :
      (es : List (Uid × Edge)) (ns : Dict Uid Node) (a b : Uid)
      → out_edge a b (unlink_targets uid es ns) ≡ out_edge a b ns
  unfolding unlink_targets
  out_edge-unlink_targets [] ns a b = refl
  out_edge-unlink_targets ((_, e) ∷ es) ns a b =
      out_edge-unlink_targets es (unset_incoming e.to_uid uid ns) a b
      ∙ out_edge-unset_incoming e.to_uid a b ns

  pub in_edge-unlink_targets :
      (es : List (Uid × Edge)) (ns : Dict Uid Node) (a b : Uid)
      → in_edge a b (unlink_targets uid es ns)
        ≡ ite
            (str_dec uid a)
            (elim (to_uids_have b es) [ true ↦ none | false ↦ in_edge a b ns ])
            (in_edge a b ns)
  unfolding unlink_targets
  in_edge-unlink_targets [] ns a b = ground arith
  in_edge-unlink_targets ((_, e) ∷ es) ns a b = ground (
    arith,
    in_edge-unlink_targets es (unset_incoming e.to_uid uid ns) a b,
    in_edge-unset_incoming e.to_uid uid ns a b,
  )

  pub fields_of-unlink_sources :
      (es : List (Uid × Edge)) (ns : Dict Uid Node) (a : Uid)
      → fields_of a (unlink_sources uid es ns) ≡ fields_of a ns
  unfolding unlink_sources
  fields_of-unlink_sources [] ns a = refl
  fields_of-unlink_sources ((_, e) ∷ es) ns a =
      fields_of-unlink_sources es (unset_outgoing e.from_uid uid ns) a
      ∙ fields_of-unset_outgoing e.from_uid a ns

  pub in_edge-unlink_sources :
      (es : List (Uid × Edge)) (ns : Dict Uid Node) (a b : Uid)
      → in_edge a b (unlink_sources uid es ns) ≡ in_edge a b ns
  unfolding unlink_sources
  in_edge-unlink_sources [] ns a b = refl
  in_edge-unlink_sources ((_, e) ∷ es) ns a b =
      in_edge-unlink_sources es (unset_outgoing e.from_uid uid ns) a b
      ∙ in_edge-unset_outgoing e.from_uid a b ns

  pub out_edge-unlink_sources :
      (es : List (Uid × Edge)) (ns : Dict Uid Node) (a b : Uid)
      → out_edge a b (unlink_sources uid es ns)
        ≡ ite
            (str_dec uid b)
            (elim (from_uids_have a es) [ true ↦ none | false ↦ out_edge a b ns ])
            (out_edge a b ns)
  unfolding unlink_sources
  out_edge-unlink_sources [] ns a b = ground arith
  out_edge-unlink_sources ((_, e) ∷ es) ns a b = ground (
    arith,
    out_edge-unlink_sources es (unset_outgoing e.from_uid uid ns) a b,
    out_edge-unset_outgoing e.from_uid uid ns a b,
  )
