-- ===== src/Api/Included.antt =====
-- What `includePersistentVolumes` of pkg/api/filtering.go adds.
use mathlib.Core.List.{append_assoc, map-append}
use astrolabe_server.Common.{
  ◌≤◌, String, str_dec, string_key, true, false, some, List, [], ◌∷◌, ◌++◌, ◌≡◌, refl, arith,
  Option-cases, Bool-cases, inl, inr, if◌then◌else◌, ◌==◌, map, sym, subst, ap, ◌∙◌,
}
use astrolabe_server.Common.Dict.{Dict, get}
use astrolabe_server.Graph.Types.{Uid, Edge, EdgeType, edge_pvc_binding, Node, Graph}
use astrolabe_server.Graph.Queries.{get_all_nodes}
use astrolabe_server.Graph.Lookup.{All}
use astrolabe_server.Api.Filtering.{has}
use astrolabe_server.Api.Ends.{All-append, has-append}
use astrolabe_server.Api.Related.{In, uids, times, times-append, times_of_not_has}
use astrolabe_server.Api.Claims.{IsClaim, ComesFrom, wanted-IsClaim, pv_by_name-IsVolume}
use astrolabe_server.Api.Volumes.{
  Collected, add_pv, binds, add_bound, pv_by_name, volume_name, wanted, add_claim, add_claims,
}

-- A node that the main map holds.
abbrev pub IsStored : Graph → Node → Type 0
IsStored g n = In n (get_all_nodes g)

In-get_all_nodes :
    (k : Uid) (n : Node) (nodes : Dict Uid Node)
    → get k nodes ≡ some n
    → In n (map (λ entry. entry.1) nodes)
unfolding get
In-get_all_nodes k n [] h = absurd (ground arith)
In-get_all_nodes k n ((j, m) ∷ nodes) h = elim (str_dec j k) [
  | yes p ↦ inl (ground arith)
  | no p ↦ inr (In-get_all_nodes k n nodes (ground arith))
]

-- A volume of a claim is a stored node.
pub ComesFrom-IsStored :
    (g : Graph) (release : String) (nodes : List Node) (pv : Node)
    → ComesFrom g release nodes pv
    → IsStored g pv
unfolding get_all_nodes
ComesFrom-IsStored g release nodes pv (n, among, claim, volume) = elim volume [
  | inl (entry, at, binding, live) ↦ In-get_all_nodes entry.1.to_uid pv g.nodes live
  | inr (named, there) ↦ there.0
]

binds-eq : (t : EdgeType) → binds t ≡ true → t ≡ edge_pvc_binding
binds-eq t h = ground arith

module _ (g : Graph) (nodes : List Node) (release : String) where
  pub record IsGrown (s : Collected) : Type 0 where
    pub extra : List Node
    pub grown : s.nodes ≡ nodes ++ extra
    pub listed : s.seen ≡ uids s.nodes
    pub sound : All (ComesFrom g release nodes) extra
    pub fresh : (u : Uid) → times u (uids extra) ≤ (if has u (uids nodes) then 0 else 1)

  add_pv-IsGrown :
      (pv : Node) (s : Collected) → ComesFrom g release nodes pv → IsGrown s → IsGrown (add_pv pv s)
  unfolding add_pv
  add_pv-IsGrown pv s i h = elim (Bool-cases (has pv.uid s.seen)) [
    | inl yes' ↦ rw (yes', add_pv) h
    | inr no' ↦
        let unseen : has pv.uid (uids nodes ++ uids h.extra) ≡ false =
          subst (λ seen. has pv.uid seen ≡ false)
            (h.listed ∙ ap uids h.grown ∙ map-append (λ n. n.uid) nodes h.extra) no' in
        rw (no', add_pv)
          (record {
            extra = h.extra ++ (pv ∷ []);
            grown = ap (λ l. l ++ (pv ∷ [])) h.grown ∙ append_assoc nodes h.extra (pv ∷ []);
            listed =
                ap (λ l. l ++ (pv.uid ∷ [])) h.listed
                ∙ sym (map-append (λ n. n.uid) s.nodes (pv ∷ []));
            sound = All-append (ComesFrom g release nodes) h.extra (pv ∷ []) h.sound (i, tt);
            fresh = λ u.
                subst (λ l. times u l ≤ (if has u (uids nodes) then 0 else 1))
                  (sym (map-append (λ n. n.uid) h.extra (pv ∷ [])))
                  (ground (
                    arith,
                    times-append u (uids h.extra) (pv.uid ∷ []),
                    h.fresh u,
                    has-append pv.uid (uids nodes) (uids h.extra),
                    times_of_not_has u (uids h.extra),
                  ));
          })
  ]

  module _ (n : Node) (among : In n nodes) (claim : IsClaim release n) where
    add_bound-IsGrown :
        (es : List (Uid × Edge)) (s : Collected)
        → ((entry : Uid × Edge) → In entry es → In entry n.outgoing_edges)
        → IsGrown s
        → IsGrown (add_bound g es s)
    unfolding add_bound
    add_bound-IsGrown [] s sub h = h
    add_bound-IsGrown ((k, e) ∷ es) s sub h = elim (Bool-cases (binds e.type)) [
      | inl yes' ↦ elim (Option-cases (get e.to_uid g.nodes)) [
        | inl dead ↦ rw (yes', add_bound, dead) (add_bound-IsGrown es s (λ x i. sub x (inr i)) h)
        | inr (pv, live) ↦
            let from : ComesFrom g release nodes pv =
              (n, among, claim, inl ((k, e), sub (k, e) (inl refl), binds-eq e.type yes', live)) in
            rw (yes', add_bound, live)
              (add_bound-IsGrown es (add_pv pv s) (λ x i. sub x (inr i))
                (add_pv-IsGrown pv s from h))
      ]
      | inr no' ↦ rw (no', add_bound) (add_bound-IsGrown es s (λ x i. sub x (inr i)) h)
    ]

    add_claim-IsGrown : (s : Collected) → IsGrown s → IsGrown (add_claim g n s)
    unfolding add_claim get
    add_claim-IsGrown s h =
        let bound = add_bound-IsGrown n.outgoing_edges s (λ x i. i) h in
        elim (str_dec (volume_name n) "") [
          | yes unnamed ↦
              let p : (volume_name n == "") ≡ true = ground arith in rw (p, add_claim) bound
          | no named ↦
              let p : (volume_name n == "") ≡ false = ground arith in
              elim (Option-cases (get (volume_name n) (pv_by_name (get_all_nodes g) []))) [
                | inl missing ↦ rw (p, add_claim, missing) bound
                | inr (pv, found) ↦
                    let volume =
                      pv_by_name-IsVolume g (get_all_nodes g) [] (volume_name n) pv (λ x i. i)
                        (λ x e. absurd (ground (arith, e))) found in
                    rw (p, add_claim, found)
                      (add_pv-IsGrown pv (add_bound g n.outgoing_edges s)
                        (n, among, claim, inr (named, volume)) bound)
              ]
        ]

  pub add_claims-IsGrown :
      (ns : List Node) (s : Collected)
      → ((n : Node) → In n ns → In n nodes)
      → IsGrown s
      → IsGrown (add_claims g release ns s)
  unfolding add_claims
  add_claims-IsGrown [] s sub h = h
  add_claims-IsGrown (n ∷ ns) s sub h = elim (Bool-cases (wanted release n)) [
    | inl yes' ↦
        rw (yes', add_claims)
          (add_claims-IsGrown ns (add_claim g n s) (λ x i. sub x (inr i))
            (add_claim-IsGrown n (sub n (inl refl)) (wanted-IsClaim release n yes') s h))
    | inr no' ↦ rw (no', add_claims) (add_claims-IsGrown ns s (λ x i. sub x (inr i)) h)
  ]
