-- ===== src/Api/Rounds.antt =====
-- The rounds of the search of pkg/api/filtering.go: what its loops keep.
use mathlib.Core.List.{append_assoc, map-append}
use astrolabe_server.Common.{
  ℕ, zero, suc, ◌≤◌, String, string_key, Bool, true, false, some, List, [], ◌∷◌, ◌++◌, ◌≡◌, refl,
  arith, Bool-cases, List-cases, inl, inr, if◌then◌else◌, sym, subst, ap, ◌∙◌,
}
use astrolabe_server.Graph.Types.{Uid, Node, Graph}
use astrolabe_server.Graph.Lookup.{All}
use astrolabe_server.Api.Filtering.{
  has, admits, release_nodes, neighbours, Search, push, start_from, visit, loop,
}
use astrolabe_server.Api.Ends.{All-append, has-append}
use astrolabe_server.Api.Related.{
  In, uids, times, times-append, times_of_not_has, All-map, All-middle, Related, in_base, by_edge,
}

module _ (g : Graph) (namespace release : String) (base : List Node) where
  abbrev pub may : Node → Node → Bool
  may = admits namespace release (release_nodes release base)

  -- The nodes of `finished` are those whose round is over or under way.
  pub record Frame (finished : List Node) (s : Search) : Type 0 where
    pub split : s.ordered ≡ finished ++ s.queue
    pub listed : s.seen ≡ uids s.ordered
    pub related : All (Related g namespace release base) s.ordered
    pub distinct : (u : Uid) → times u s.seen ≤ 1

  push-Frame :
      (n : Node) (finished : List Node) (s : Search)
      → has n.uid s.seen ≡ false
      → Related g namespace release base n
      → Frame finished s
      → Frame finished (push n s)
  unfolding push
  push-Frame n finished s fresh r f = record {
    split = ap (λ l. l ++ (n ∷ [])) f.split ∙ append_assoc finished s.queue (n ∷ []);
    listed =
        ap (λ l. l ++ (n.uid ∷ [])) f.listed ∙ sym (map-append (λ m. m.uid) s.ordered (n ∷ []));
    related = All-append (Related g namespace release base) s.ordered (n ∷ []) f.related (r, tt);
    distinct = λ u.
        ground (arith, times-append u s.seen (n.uid ∷ []), f.distinct u, times_of_not_has u s.seen);
  }

  pub start_from-Frame :
      (ns : List Node) (s : Search)
      → ((n : Node) → In n ns → In n base)
      → Frame [] s
      → Frame [] (start_from ns s)
  unfolding start_from
  start_from-Frame [] s sub f = f
  start_from-Frame (n ∷ ns) s sub f = elim (Bool-cases (has n.uid s.seen)) [
    | inl yes' ↦ rw (yes', start_from) (start_from-Frame ns s (λ m i. sub m (inr i)) f)
    | inr no' ↦
        rw (no', start_from)
          (start_from-Frame ns (push n s) (λ m i. sub m (inr i))
            (push-Frame n [] s no' (in_base n (sub n (inl refl))) f))
  ]

  module _ (c : Node) where
    -- The neighbours of `c` that the search admits have been seen.
    abbrev pub Covered : List Uid → List Node → Type 0
    Covered seen = All (λ n. may c n ≡ true → has n.uid seen ≡ true)

    -- What the loop does with one neighbour.
    abbrev next : Node → Search → Search
    next n s = if has n.uid s.seen then s else if may c n then push n s else s

    next_grows :
        (n : Node) (s : Search) (u : Uid) → has u s.seen ≡ true → has u (next n s).seen ≡ true
    unfolding push
    next_grows n s u h = ground (arith, has-append u s.seen (n.uid ∷ []))

    next_covers : (n : Node) (s : Search) → may c n ≡ true → has n.uid (next n s).seen ≡ true
    unfolding push has
    next_covers n s h = ground (arith, has-append n.uid s.seen (n.uid ∷ []))

    next-Frame :
        (n : Node) (finished : List Node) (s : Search)
        → In n (neighbours g c)
        → Related g namespace release base c
        → Frame finished s
        → Frame finished (next n s)
    next-Frame n finished s i r f = elim (Bool-cases (has n.uid s.seen)) [
      | inl yes' ↦ rw yes' f
      | inr no' ↦ elim (Bool-cases (may c n)) [
        | inl yes'' ↦ rw (no', yes'') (push-Frame n finished s no' (by_edge c n r i yes'') f)
        | inr no'' ↦ rw (no', no'') f
      ]
    ]

    abbrev visited : List Node → Search → Search
    visited = visit g namespace release (release_nodes release base) c

    visit_grows :
        (ns : List Node) (s : Search) (u : Uid)
        → has u s.seen ≡ true
        → has u (visited ns s).seen ≡ true
    unfolding visit
    visit_grows [] s u h = h
    visit_grows (n ∷ ns) s u h = visit_grows ns (next n s) u (next_grows n s u h)

    visit-Covered : (ns : List Node) (s : Search) → Covered (visited ns s).seen ns
    unfolding visit
    visit-Covered [] s = tt
    visit-Covered (n ∷ ns) s =
        ((λ h. visit_grows ns (next n s) n.uid (next_covers n s h)), visit-Covered ns (next n s))

    visit-Frame :
        (ns : List Node) (finished : List Node) (s : Search)
        → ((n : Node) → In n ns → In n (neighbours g c))
        → Related g namespace release base c
        → Frame finished s
        → Frame finished (visited ns s)
    unfolding visit
    visit-Frame [] finished s sub r f = f
    visit-Frame (n ∷ ns) finished s sub r f =
        visit-Frame ns finished (next n s) (λ m i. sub m (inr i)) r
          (next-Frame n finished s (sub n (inl refl)) r f)

    pop-Frame :
        (finished rest : List Node) (s : Search)
        → s.queue ≡ c ∷ rest
        → Frame finished s
        → Frame (finished ++ (c ∷ [])) (record s { queue = rest })
    pop-Frame finished rest s e f = record {
      split = f.split ∙ ap (λ q. finished ++ q) e ∙ sym (append_assoc finished (c ∷ []) rest);
      listed = f.listed;
      related = f.related;
      distinct = f.distinct;
    }

    queued-Related :
        (finished rest : List Node) (s : Search)
        → s.queue ≡ c ∷ rest
        → Frame finished s
        → Related g namespace release base c
    queued-Related finished rest s e f =
        All-middle (Related g namespace release base) finished c rest (
          subst (All (Related g namespace release base)) (f.split ∙ ap (λ q. finished ++ q) e)
            f.related)

  abbrev pub Closed : List Uid → List Node → Type 0
  Closed seen = All (λ c. Covered c seen (neighbours g c))

  -- One round of the loop.
  round : Node → List Node → Search → Search
  round c rest s = visited c (neighbours g c) (record s { queue = rest })

  round-Frame :
      (c : Node) (finished rest : List Node) (s : Search)
      → s.queue ≡ c ∷ rest
      → Frame finished s
      → Frame (finished ++ (c ∷ [])) (round c rest s)
  unfolding round
  round-Frame c finished rest s e f =
      visit-Frame c (neighbours g c) (finished ++ (c ∷ [])) (record s { queue = rest }) (λ n i. i)
        (queued-Related c finished rest s e f) (pop-Frame c finished rest s e f)

  round-Closed :
      (c : Node) (finished rest : List Node) (s : Search)
      → Closed s.seen finished
      → Closed (round c rest s).seen (finished ++ (c ∷ []))
  unfolding round
  round-Closed c finished rest s d =
      All-append (λ b. Covered b (round c rest s).seen (neighbours g b)) finished (c ∷ [])
        (All-map _ _ finished
          (λ b.
            All-map _ _ (neighbours g b)
              (λ n k h. visit_grows c (neighbours g c) (record s { queue = rest }) n.uid (k h)))
          d)
        (visit-Covered c (neighbours g c) (record s { queue = rest }), tt)

  abbrev pub Ended : Search → Type 0
  Ended t = (all : List Node) × Frame all t × Closed t.seen all × (t.queue ≡ [])

  pub loop_ends-Closed :
      (fuel : ℕ) (finished : List Node) (s t : Search)
      → Frame finished s
      → Closed s.seen finished
      → loop g namespace release (release_nodes release base) fuel s ≡ some t
      → Ended t
  unfolding loop round
  loop_ends-Closed zero finished s t f d h = elim (List-cases s.queue) [
    | inl empty ↦ subst Ended (ground arith) (finished, f, d, empty)
    | inr (c, rest, e) ↦ absurd (ground arith)
  ]
  loop_ends-Closed (suc fuel) finished s t f d h = elim (List-cases s.queue) [
    | inl empty ↦ subst Ended (ground arith) (finished, f, d, empty)
    | inr (c, rest, e) ↦
        loop_ends-Closed fuel (finished ++ (c ∷ [])) (round c rest s) t
          (round-Frame c finished rest s e f) (round-Closed c finished rest s d) (rw (e, loop) at h)
  ]

  pub start_from_grows :
      (ns : List Node) (s : Search) (u : Uid)
      → has u s.seen ≡ true
      → has u (start_from ns s).seen ≡ true
  unfolding start_from push
  start_from_grows [] s u h = h
  start_from_grows (n ∷ ns) s u h =
      start_from_grows ns (if has n.uid s.seen then s else push n s) u
        (ground (arith, has-append u s.seen (n.uid ∷ [])))

  pub start_from_covers :
      (ns : List Node) (s : Search) → All (λ n. has n.uid (start_from ns s).seen ≡ true) ns
  unfolding start_from push has
  start_from_covers [] s = tt
  start_from_covers (n ∷ ns) s =
      let after : Search = if has n.uid s.seen then s else push n s in
      (
        start_from_grows ns after n.uid (ground (arith, has-append n.uid s.seen (n.uid ∷ []))),
        start_from_covers ns after,
      )

  pub loop_grows :
      (fuel : ℕ) (s t : Search) (u : Uid)
      → has u s.seen ≡ true
      → loop g namespace release (release_nodes release base) fuel s ≡ some t
      → has u t.seen ≡ true
  unfolding loop
  loop_grows zero s t u k h = elim (List-cases s.queue) [
    | inl empty ↦ ground arith
    | inr (c, rest, e) ↦ absurd (ground arith)
  ]
  loop_grows (suc fuel) s t u k h = elim (List-cases s.queue) [
    | inl empty ↦ ground arith
    | inr (c, rest, e) ↦
        loop_grows fuel (visited c (neighbours g c) (record s { queue = rest })) t u
          (visit_grows c (neighbours g c) (record s { queue = rest }) u k) (rw (e, loop) at h)
  ]
