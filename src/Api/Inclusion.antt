-- ===== src/Api/Inclusion.antt =====
-- Which volumes `includePersistentVolumes` of pkg/api/filtering.go does not miss, and the whole of
-- what it returns.
use mathlib.Core.List.{append-nil}
use astrolabe_server.Common.{
  ◌≤◌, String, string_key, true, false, none, some, List, [], ◌∷◌, ◌++◌, ◌≡◌, refl, arith,
  Option-cases, Bool-cases, inl, inr, if◌then◌else◌, ◌==◌, sym, subst, ◌≢◌, ap,
}
use astrolabe_server.Common.Dict.{get}
use astrolabe_server.Graph.Types.{Uid, Edge, edge_pvc_binding, Node, Graph}
use astrolabe_server.Graph.Queries.{get_all_nodes}
use astrolabe_server.Graph.Lookup.{All}
use astrolabe_server.Api.Filtering.{has}
use astrolabe_server.Api.Ends.{has-append}
use astrolabe_server.Api.Related.{uids, times, All-map}
use astrolabe_server.Api.Volumes.{
  Collected, add_pv, binds, add_bound, pv_by_name, volume_name, wanted, add_claim, add_claims,
  include_persistent_volumes,
}
use astrolabe_server.Api.Included.{IsGrown, add_claims-IsGrown}
use astrolabe_server.Api.Claims.{
  IsClaim, IsVolume, ComesFrom, IsClaim-wanted, pv_by_name-IsVolume, pv_by_name_complete,
}

module _ (g : Graph) where
  add_pv_grows :
      (pv : Node) (s : Collected) (u : Uid) → has u s.seen ≡ true → has u (add_pv pv s).seen ≡ true
  unfolding add_pv
  add_pv_grows pv s u h = ground (arith, has-append u s.seen (pv.uid ∷ []))

  add_pv_covers : (pv : Node) (s : Collected) → has pv.uid (add_pv pv s).seen ≡ true
  unfolding add_pv has
  add_pv_covers pv s = ground (arith, has-append pv.uid s.seen (pv.uid ∷ []))

  -- What the loop does with one edge.
  abbrev with_edge : Edge → Collected → Collected
  with_edge e s =
      if binds e.type then elim (get e.to_uid g.nodes) [ none ↦ s | some pv ↦ add_pv pv s ] else s

  with_edge_grows :
      (e : Edge) (s : Collected) (u : Uid) → has u s.seen ≡ true → has u (with_edge e s).seen ≡ true
  with_edge_grows e s u h = elim (Option-cases (get e.to_uid g.nodes)) [
    | inl dead ↦ ground arith
    | inr (pv, live) ↦ ground (arith, add_pv_grows pv s u)
  ]

  with_edge_covers :
      (e : Edge) (s : Collected) (pv : Node)
      → binds e.type ≡ true
      → get e.to_uid g.nodes ≡ some pv
      → has pv.uid (with_edge e s).seen ≡ true
  with_edge_covers e s pv b live = ground (arith, add_pv_covers pv s)

  add_bound_grows :
      (es : List (Uid × Edge)) (s : Collected) (u : Uid)
      → has u s.seen ≡ true
      → has u (add_bound g es s).seen ≡ true
  unfolding add_bound
  add_bound_grows [] s u h = h
  add_bound_grows ((_, e) ∷ es) s u h =
      add_bound_grows es (with_edge e s) u (with_edge_grows e s u h)

  -- The volumes at the binding edges of a claim, and the volume of its name, have been seen.
  abbrev pub BoundSeen : List Uid → Node → Type 0
  BoundSeen seen n =
      All
        (λ entry.
          (pv : Node)
          → binds entry.1.type ≡ true
          → get entry.1.to_uid g.nodes ≡ some pv
          → has pv.uid seen ≡ true)
        n.outgoing_edges

  abbrev pub NamedSeen : List Uid → Node → Type 0
  NamedSeen seen n =
      (pv : Node)
      → (volume_name n == "") ≡ false
      → get (volume_name n) (pv_by_name (get_all_nodes g) []) ≡ some pv
      → has pv.uid seen ≡ true

  add_bound_covers :
      (es : List (Uid × Edge)) (s : Collected)
      → All
          (λ entry.
            (pv : Node)
            → binds entry.1.type ≡ true
            → get entry.1.to_uid g.nodes ≡ some pv
            → has pv.uid (add_bound g es s).seen ≡ true)
          es
  unfolding add_bound
  add_bound_covers [] s = tt
  add_bound_covers ((_, e) ∷ es) s = (
    (λ pv b live. add_bound_grows es (with_edge e s) pv.uid (with_edge_covers e s pv b live)),
    add_bound_covers es (with_edge e s),
  )

  add_claim_grows :
      (n : Node) (s : Collected) (u : Uid)
      → has u (add_bound g n.outgoing_edges s).seen ≡ true
      → has u (add_claim g n s).seen ≡ true
  unfolding add_claim
  add_claim_grows n s u h =
      elim (Option-cases (get (volume_name n) (pv_by_name (get_all_nodes g) []))) [
        | inl missing ↦ ground arith
        | inr (pv, found) ↦ ground (arith, add_pv_grows pv (add_bound g n.outgoing_edges s) u)
      ]

  add_claim_named : (n : Node) (s : Collected) → NamedSeen (add_claim g n s).seen n
  unfolding add_claim
  add_claim_named n s pv named found =
      ground (arith, add_pv_covers pv (add_bound g n.outgoing_edges s))

  module _ (release : String) where
    abbrev with_node : Node → Collected → Collected
    with_node n s = if wanted release n then add_claim g n s else s

    with_node_grows :
        (n : Node) (s : Collected) (u : Uid)
        → has u s.seen ≡ true
        → has u (with_node n s).seen ≡ true
    with_node_grows n s u h = elim (Bool-cases (wanted release n)) [
      | inl yes' ↦ rw yes' (add_claim_grows n s u (add_bound_grows n.outgoing_edges s u h))
      | inr no' ↦ rw no' h
    ]

    add_claims_grows :
        (ns : List Node) (s : Collected) (u : Uid)
        → has u s.seen ≡ true
        → has u (add_claims g release ns s).seen ≡ true
    unfolding add_claims
    add_claims_grows [] s u h = h
    add_claims_grows (n ∷ ns) s u h =
        add_claims_grows ns (with_node n s) u (with_node_grows n s u h)

    with_node_bound :
        (n : Node) (s : Collected) → wanted release n ≡ true → BoundSeen (with_node n s).seen n
    with_node_bound n s w = rw w (
        All-map _ _ n.outgoing_edges (λ entry k pv b live. add_claim_grows n s pv.uid (k pv b live))
          (add_bound_covers n.outgoing_edges s))

    with_node_named :
        (n : Node) (s : Collected) → wanted release n ≡ true → NamedSeen (with_node n s).seen n
    with_node_named n s w = rw w (add_claim_named n s)

    abbrev pub AllSeen : List Uid → List Node → Type 0
    AllSeen seen = All (λ n. wanted release n ≡ true → BoundSeen seen n × NamedSeen seen n)

    add_claims-AllSeen :
        (ns : List Node) (s : Collected) → AllSeen (add_claims g release ns s).seen ns
    unfolding add_claims
    add_claims-AllSeen [] s = tt
    add_claims-AllSeen (n ∷ ns) s = (
      (λ w. (
        All-map _ _ n.outgoing_edges
            (λ entry k pv b live. add_claims_grows ns (with_node n s) pv.uid (k pv b live))
            (with_node_bound n s w),
        (λ pv named found.
            add_claims_grows ns (with_node n s) pv.uid (with_node_named n s w pv named found)),
      )),
      add_claims-AllSeen ns (with_node n s),
    )

-- What the result has to have for each claim among the given nodes.
module _ (g : Graph) (release : String) where
  -- Each live node at a binding edge of the claim.
  abbrev HasBound : List Uid → Node → Type 0
  HasBound seen n =
      All
        (λ entry.
          (pv : Node)
          → entry.1.type ≡ edge_pvc_binding
          → get entry.1.to_uid g.nodes ≡ some pv
          → has pv.uid seen ≡ true)
        n.outgoing_edges

  -- A stored volume of the name that the claim gives, if there is one.
  abbrev HasNamed : List Uid → Node → Type 0
  HasNamed seen n =
      (candidate : Node)
      → volume_name n ≢ ""
      → IsVolume g (volume_name n) candidate
      → (pv : Node) × IsVolume g (volume_name n) pv × (has pv.uid seen ≡ true)

  abbrev pub HasVolumes : List Uid → Node → Type 0
  HasVolumes seen n = IsClaim release n → HasBound seen n × HasNamed seen n

  BoundSeen-HasBound : (seen : List Uid) (n : Node) → BoundSeen g seen n → HasBound seen n
  BoundSeen-HasBound seen n =
      All-map _ _ n.outgoing_edges (λ entry k pv binding live. k pv (ap binds binding) live)

  NamedSeen-HasNamed : (seen : List Uid) (n : Node) → NamedSeen g seen n → HasNamed seen n
  unfolding get
  NamedSeen-HasNamed seen n k candidate named volume =
      let (pv, at) = pv_by_name_complete (get_all_nodes g) [] candidate volume.0 volume.1 in
      let found : get (volume_name n) (pv_by_name (get_all_nodes g) []) ≡ some pv =
        subst (λ name. get name (pv_by_name (get_all_nodes g) []) ≡ some pv) volume.2 at in
      (
        pv,
        pv_by_name-IsVolume g (get_all_nodes g) [] (volume_name n) pv (λ x i. i)
            (λ x e. absurd (ground (arith, e))) found,
        k pv (ground arith) found,
      )

  AllSeen-HasVolumes :
      (seen : List Uid) (nodes : List Node)
      → AllSeen g release seen nodes
      → All (HasVolumes seen) nodes
  AllSeen-HasVolumes seen nodes = All-map _ _ nodes (λ n k claim.
      let (bound, named) = k (IsClaim-wanted release n claim) in
      (BoundSeen-HasBound seen n bound, NamedSeen-HasNamed seen n named))

-- The nodes, and after them the volumes of their claims, of new UIDs that stand once; and for each
-- claim its volumes.
pub record IsInclusion (g : Graph) (nodes : List Node) (release : String) (result : List Node)
    : Type 0 where
  pub extra : List Node
  pub grown : result ≡ nodes ++ extra
  pub sound : All (ComesFrom g release nodes) extra
  pub fresh : (u : Uid) → times u (uids extra) ≤ (if has u (uids nodes) then 0 else 1)
  pub complete : All (HasVolumes g release (uids result)) nodes

-- `includePersistentVolumes` returns the given nodes and after them nodes with new UIDs, each once.
-- Each of these is a live node at a binding edge of a claim of the release among the given nodes,
-- or a stored volume of the name that such a claim gives; every claim counts where no release is
-- given. For each such claim the result has the UID of every live node at a binding edge of the
-- claim and, if there are stored volumes of the name that the claim gives, that of one of them.
pub include_persistent_volumes-IsInclusion :
    (g : Graph) (nodes : List Node) (release : String)
    → IsInclusion g nodes release (include_persistent_volumes g nodes release)
unfolding include_persistent_volumes
include_persistent_volumes-IsInclusion g nodes release =
    let start : Collected = record { nodes = nodes; seen = uids nodes } in
    let begun : IsGrown g nodes release start = record {
      extra = [];
      grown = sym (append-nil nodes);
      listed = refl;
      sound = tt;
      fresh = λ u. ground arith;
    } in
    let h = add_claims-IsGrown g nodes release nodes start (λ x i. i) begun in
    record {
      extra = h.extra;
      grown = h.grown;
      sound = h.sound;
      fresh = h.fresh;
      complete =
          subst (λ seen. All (HasVolumes g release seen) nodes) h.listed
            (AllSeen-HasVolumes g release _ nodes (add_claims-AllSeen g release nodes start));
    }
