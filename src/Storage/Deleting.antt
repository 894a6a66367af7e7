-- ===== src/Storage/Deleting.antt =====
-- `deleteKeysByPattern`, `DeleteEdge` and `DeleteNode` of pkg/storage/redis.go: which keys they remove.
use astrolabe_server.Common.{
  ℕ, zero, suc, String, string_key, false, none, some, List, [], ◌∷◌, ◌≡◌, ◌≢◌, inl, inr, ◌==◌,
  if◌then◌else◌, refl, arith, Option-cases, Bool-cases, ap, sym, ◌∙◌, subst,
}
use astrolabe_server.Graph.Types.{Uid}
use astrolabe_server.Graph.Lookup.{All}
use astrolabe_server.Storage.Client.{
  Client, Codec, IsDeleting, value, sweep, deleting, listed, member,
}
use astrolabe_server.Storage.Layout.{edge_key}
use astrolabe_server.Storage.Redis.{
  delete_from, delete_keys_by_pattern, delete_edge, remove_from_sets,
}
use astrolabe_server.Storage.Saving.{Sum-cases}

pub some-ne-none : {A : Type 0} {x : A} → some x ≡ none → ⊥
some-ne-none h = cc

module _ {R D : Type 0} (client : Client R D) (codec : Codec D) (rounds : R → ℕ)
    (deletes : IsDeleting rounds client) where
  -- The state after the pages.
  abbrev swept : R → List (R × List String) → R
  swept r [] = r
  swept r ((_, keys) ∷ pages) = swept (deleting client keys r) pages

  value-deleting :
      (keys : List String) (r : R) (j : String)
      → value client j (deleting client keys r) ≡ (if member j keys then none else value client j r)
  value-deleting [] r j = refl
  value-deleting (k ∷ ks) r j = deletes.value-del (k ∷ ks) r j

  value-swept :
      (pages : List (R × List String)) (r : R) (j : String)
      → value client j (swept r pages) ≡ (if listed j pages then none else value client j r)
  value-swept [] r j = refl
  value-swept ((_, keys) ∷ pages) r j =
      ground (arith, value-swept pages (deleting client keys r) j, value-deleting keys r j)

  delete_from-sweep :
      (fuel cursor : ℕ) (pattern : String) (r : R) (pages : List (R × List String))
      → sweep client fuel cursor pattern r ≡ some pages
      → delete_from client codec rounds fuel cursor pattern r ≡ (swept r pages, none)
  unfolding delete_from
  delete_from-sweep zero cursor pattern r pages h = absurd (ground (arith))
  delete_from-sweep (suc fuel) cursor pattern r pages h =
      elim (Sum-cases (client.scan cursor pattern r)) [
        | inl (e, p) ↦ absurd (ground (arith))
        | inr (([], zero), p) ↦ ground (arith)
        | inr ((k ∷ ks, zero), p) ↦ ground (arith, deletes.del_ok (k ∷ ks) r)
        | inr (([], suc n), p) ↦ elim (Option-cases (sweep client fuel (suc n) pattern r)) [
          | inl q ↦ absurd (ground (arith))
          | inr (more, q) ↦ ground (arith, delete_from-sweep fuel (suc n) pattern r more q)
        ]
        | inr ((k ∷ ks, suc n), p) ↦
            elim (Option-cases (sweep client fuel (suc n) pattern (client.del (k ∷ ks) r).0)) [
              | inl q ↦ absurd (ground (arith))
              | inr (more, q) ↦ ground (
                arith,
                delete_from-sweep fuel (suc n) pattern (client.del (k ∷ ks) r).0 more q,
                deletes.del_ok (k ∷ ks) r,
              )
            ]
      ]

  -- A key that no page lists has its text all the while.
  kept_throughout :
      (fuel cursor : ℕ) (pattern : String) (r : R) (pages : List (R × List String)) (j : String)
      → sweep client fuel cursor pattern r ≡ some pages
      → listed j pages ≡ false
      → value client j r ≢ none
      → All (λ page. value client j page.0 ≢ none) pages
  kept_throughout zero cursor pattern r pages j h out v = absurd (ground (arith))
  kept_throughout (suc fuel) cursor pattern r pages j h out v =
      elim (Sum-cases (client.scan cursor pattern r)) [
        | inl (e, p) ↦ absurd (ground (arith))
        | inr ((keys, zero), p) ↦
            let one : pages ≡ ((r, keys) ∷ []) = ground (arith) in
            subst (All (λ page. value client j page.0 ≢ none)) (sym one) (v, tt)
        | inr ((keys, suc n), p) ↦
            elim (Option-cases (sweep client fuel (suc n) pattern (deleting client keys r))) [
              | inl q ↦ absurd (ground (arith))
              | inr (more, q) ↦
                  let whole : pages ≡ ((r, keys) ∷ more) = ground (arith) in
                  let rest : listed j ((r, keys) ∷ more) ≡ false =
                    ap (listed j) (sym whole) ∙ out in
                  subst (All (λ page. value client j page.0 ≢ none)) (sym whole) (
                    v,
                    kept_throughout fuel (suc n) pattern (deleting client keys r) more j q
                        (ground (arith)) (λ e. v (ground (arith, value-deleting keys r j))),
                  )
            ]
      ]

  -- `deleteKeysByPattern` removes the keys that match, and no other.
  pub value-delete_keys_by_pattern :
      (pattern : String) (r : R) (j : String)
      → ((delete_keys_by_pattern client codec rounds pattern r).1 ≡ none)
        × (value client j (delete_keys_by_pattern client codec rounds pattern r).0
            ≡ (if deletes.matches pattern j then none else value client j r))
  value-delete_keys_by_pattern pattern r j =
      let (pages, h) = deletes.sweep_ends pattern r in
      let run = delete_from-sweep (rounds r) 0 pattern r pages h in
      (
        ap (λ x. x.1) run,
        ap (λ x. value client j x.0) run
            ∙ value-swept pages r j
            ∙ elim (Bool-cases (listed j pages)) [
              | inl yes' ↦ ground (arith, deletes.sweep_sound pattern r pages j h yes')
              | inr no' ↦ elim (Option-cases (value client j r)) [
                | inl gone ↦ ground (arith)
                | inr (d, there) ↦
                    let stay =
                      kept_throughout (rounds r) 0 pattern r pages j h no'
                        (λ e. some-ne-none (sym there ∙ e)) in
                    elim (Bool-cases (deletes.matches pattern j)) [
                      | inl m ↦
                          absurd (ground (arith, deletes.sweep_complete pattern r pages j h m stay))
                      | inr m ↦ ground (arith)
                    ]
              ]
            ],
      )

  pub value-remove_from_sets :
      (ks : List String) (u : Uid) (r : R) (j : String)
      → value client j (remove_from_sets client codec rounds ks u r) ≡ value client j r
  unfolding remove_from_sets
  value-remove_from_sets [] u r j = refl
  value-remove_from_sets (k ∷ ks) u r j =
      value-remove_from_sets ks u (client.s_rem k u r).0 j ∙ deletes.value-s_rem k u r j

  pub value-delete_edge :
      (a b : Uid) (r : R) (j : String)
      → value client j (delete_edge client codec rounds a b r).0
        ≡ (if edge_key a b == j then none else value client j r)
  unfolding delete_edge
  value-delete_edge a b r j =
      ground
        (arith, deletes.del_ok (edge_key a b ∷ []) r, deletes.value-del (edge_key a b ∷ []) r j)
