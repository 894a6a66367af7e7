-- ===== src/Api/Expansion.antt =====
-- What `expandRelatedNodes` of pkg/api/filtering.go returns.
use mathlib.Core.List.{append-nil}
use astrolabe_server.Common.{
  ℕ, ◌+◌, ◌≤◌, length, String, string_key, true, some, List, [], ◌∷◌, ◌++◌, ◌≡◌, refl, arith,
  Option-cases, inl, inr, sym, subst, ap, ◌∙◌,
}
use astrolabe_server.Graph.Types.{Uid, Node, Graph}
use astrolabe_server.Graph.Lookup.{All}
use astrolabe_server.Api.Filtering.{
  has, release_nodes, neighbours, Search, start_from, loop, no_search, expand_related_nodes,
}
use astrolabe_server.Api.Ends.{expand_related_nodes_ends}
use astrolabe_server.Api.Related.{uids, times, All-map, Related}
use astrolabe_server.Api.Rounds.{
  Covered, Frame, start_from-Frame, loop_ends-Closed, start_from_covers, loop_grows,
}

-- What a search is to return: the base and what it is to find from there, all of it, each node
-- once.
pub record IsExpansion (g : Graph) (namespace release : String) (base found : List Node)
    : Type 0 where
  pub related : All (Related g namespace release base) found
  pub based : All (λ n. has n.uid (uids found) ≡ true) base
  pub closed : All (λ c. Covered g namespace release base c (uids found) (neighbours g c)) found
  pub distinct : (u : Uid) → times u (uids found) ≤ 1

searched :
    (g : Graph) (namespace release : String) (base : List Node) (fuel : ℕ) (t : Search)
    → loop g namespace release (release_nodes release base) fuel (start_from base no_search)
      ≡ some t
    → IsExpansion g namespace release base t.ordered
searched g namespace release base fuel t h =
    let begun : Frame g namespace release base [] no_search = record {
      split = refl;
      listed = refl;
      related = tt;
      distinct = λ u. omega arith;
    } in
    let (all, f, d, empty) =
      loop_ends-Closed g namespace release base fuel [] (start_from base no_search) t
        (start_from-Frame g namespace release base base no_search (λ n i. i) begun) tt h in
    let whole : t.ordered ≡ all = f.split ∙ ap (λ q. all ++ q) empty ∙ append-nil all in
    record {
      related = f.related;
      based =
          subst (λ seen. All (λ n. has n.uid seen ≡ true) base) f.listed
            (All-map _ _ base
              (λ n k.
                loop_grows g namespace release base fuel (start_from base no_search) t n.uid k h)
              (start_from_covers g namespace release base base no_search));
      closed =
          subst
            (λ seen. All (λ c. Covered g namespace release base c seen (neighbours g c)) t.ordered)
            f.listed
            (subst (All (λ c. Covered g namespace release base c t.seen (neighbours g c)))
              (sym whole) d);
      distinct = λ u. subst (λ seen. times u seen ≤ 1) f.listed (f.distinct u);
    }

-- The loop of `expandRelatedNodes` ends, and what it returns has every node of the base, is closed
-- under the edges to the nodes that it admits, has no node that these edges do not lead to from the
-- base, and no UID twice.
pub expand_related_nodes-IsExpansion :
    (g : Graph) (base : List Node) (namespace release : String)
    → (found : List Node) × (expand_related_nodes g base namespace release ≡ some found)
      × IsExpansion g namespace release base found
unfolding expand_related_nodes
expand_related_nodes-IsExpansion g [] namespace release =
    ([], refl, record { related = tt; based = tt; closed = tt; distinct = λ u. omega arith })
expand_related_nodes-IsExpansion g (n ∷ ns) namespace release =
    let base = n ∷ ns in
    let fuel = length base + length g.nodes in
    let start = start_from base no_search in
    elim (Option-cases (loop g namespace release (release_nodes release base) fuel start)) [
      | inl stuck ↦
          let (found, ends) = expand_related_nodes_ends g base namespace release in
          absurd (ground arith)
      | inr (t, h) ↦
          (t.ordered, rw (h, expand_related_nodes), searched g namespace release base fuel t h)
    ]
