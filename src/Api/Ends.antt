-- ===== src/Api/Ends.antt =====
-- The work that is left to the search of pkg/api/filtering.go, round by round.
use astrolabe_server.Common.{
  ℕ, zero, suc, ◌+◌, ◌≤◌, ◌<◌, length, length-append, String, str_dec, string_key, Bool, true,
  false, ◌||◌, some, List, [], ◌∷◌, ◌++◌, ◌≡◌, refl, arith, Option-cases, Bool-cases, List-cases,
  inl, inr, if◌then◌else◌, ◌==◌,
}
use astrolabe_server.Common.Dict.{Dict, get}
use astrolabe_server.Graph.Types.{Uid, Edge, Node, Graph}
use astrolabe_server.Graph.Lookup.{All}
use astrolabe_server.Api.Filtering.{
  has, admits, release_nodes, targets, sources, neighbours, Search, push, start_from, visit, loop,
  no_search, expand_related_nodes,
}

pub All-append {ℓ κ} :
    {A : Type ℓ} (P : A → Type κ) (xs ys : List A) → All P xs → All P ys → All P (xs ++ ys)
All-append P [] ys a b = b
All-append P (x ∷ xs) ys a b = (a.0, All-append P xs ys a.1 b)

pub has-append : (u : Uid) (us vs : List Uid) → has u (us ++ vs) ≡ (has u us || has u vs)
unfolding has
has-append u [] vs = refl
has-append u (w ∷ us) vs = ground (arith, has-append u us vs)

-- How many entries of the main map have not been seen, and whether one has this UID.
remaining : List Uid → Dict Uid Node → ℕ
remaining seen [] = 0
remaining seen ((_, n) ∷ nodes) =
    let rest = remaining seen nodes in if has n.uid seen then rest else suc rest

holds : Uid → Dict Uid Node → Bool
holds u [] = false
holds u ((_, n) ∷ nodes) = n.uid == u || holds u nodes

remaining-le : (seen : List Uid) (nodes : Dict Uid Node) → remaining seen nodes ≤ length nodes
unfolding remaining
remaining-le seen [] = omega arith
remaining-le seen ((_, n) ∷ nodes) = ground (arith, remaining-le seen nodes)

remaining-append_le :
    (u : Uid) (seen : List Uid) (nodes : Dict Uid Node)
    → remaining (seen ++ (u ∷ [])) nodes ≤ remaining seen nodes
unfolding remaining has
remaining-append_le u seen [] = omega arith
remaining-append_le u seen ((_, n) ∷ nodes) =
    ground (arith, remaining-append_le u seen nodes, has-append n.uid seen (u ∷ []))

remaining-append :
    (u : Uid) (seen : List Uid) (nodes : Dict Uid Node)
    → has u seen ≡ false
    → holds u nodes ≡ true
    → remaining (seen ++ (u ∷ [])) nodes < remaining seen nodes
unfolding remaining has holds
remaining-append u seen [] h k = cc
remaining-append u seen ((_, n) ∷ nodes) h k = ground (
  arith,
  remaining-append_le u seen nodes,
  remaining-append u seen nodes,
  has-append n.uid seen (u ∷ []),
)

holds-get :
    (k : Uid) (n : Node) (nodes : Dict Uid Node) → get k nodes ≡ some n → holds n.uid nodes ≡ true
unfolding holds get
holds-get k n [] h = cc
holds-get k n ((j, m) ∷ nodes) h = elim (str_dec j k) [
  | yes p ↦ ground arith
  | no p ↦ ground (arith, holds-get k n nodes)
]

module _ (g : Graph) where
  -- A node that stands in the graph, under whatever key.
  abbrev Held : Node → Type 0
  Held n = holds n.uid g.nodes ≡ true

  targets-Held : (es : List (Uid × Edge)) → All Held (targets g es)
  unfolding targets
  targets-Held [] = tt
  targets-Held ((_, e) ∷ es) = elim (Option-cases (get e.to_uid g.nodes)) [
    | inl dead ↦ rw (dead, targets) (targets-Held es)
    | inr (n, live) ↦ rw (live, targets) (holds-get e.to_uid n g.nodes live, targets-Held es)
  ]

  sources-Held : (es : List (Uid × Edge)) → All Held (sources g es)
  unfolding sources
  sources-Held [] = tt
  sources-Held ((_, e) ∷ es) = elim (Option-cases (get e.from_uid g.nodes)) [
    | inl dead ↦ rw (dead, sources) (sources-Held es)
    | inr (n, live) ↦ rw (live, sources) (holds-get e.from_uid n g.nodes live, sources-Held es)
  ]

  neighbours-Held : (n : Node) → All Held (neighbours g n)
  unfolding neighbours
  neighbours-Held n =
      All-append Held (targets g n.outgoing_edges) (sources g n.incoming_edges)
        (targets-Held n.outgoing_edges) (sources-Held n.incoming_edges)

  work : Search → ℕ
  work s = remaining s.seen g.nodes + length s.queue

  work-push : (n : Node) (s : Search) → Held n → has n.uid s.seen ≡ false → work (push n s) ≤ work s
  unfolding work push
  work-push n s h fresh =
      omega (arith, remaining-append n.uid s.seen g.nodes fresh h, length-append s.queue (n ∷ []))

  module _ (namespace release : String) (released : List Uid) where
    work-visit :
        (current : Node) (ns : List Node) (s : Search)
        → All Held ns
        → work (visit g namespace release released current ns s) ≤ work s
    unfolding visit
    work-visit current [] s a = omega arith
    work-visit current (n ∷ ns) s a = elim (Bool-cases (has n.uid s.seen)) [
      | inl yes' ↦ rw (yes', visit) (work-visit current ns s a.1)
      | inr no' ↦ elim (Bool-cases (admits namespace release released current n)) [
        | inl yes'' ↦
            rw (no', visit, yes'')
              (omega (arith, work-visit current ns (push n s) a.1, work-push n s a.0 no'))
        | inr no'' ↦ rw (no', visit, no'') (work-visit current ns s a.1)
      ]
    ]

    loop_ends :
        (fuel : ℕ) (s : Search)
        → work s ≤ fuel
        → (t : Search) × (loop g namespace release released fuel s ≡ some t)
    unfolding loop work
    loop_ends zero s h = elim (List-cases s.queue) [
      | inl empty ↦ (s, simp (empty, loop))
      | inr (n, rest, e) ↦ absurd (ground arith)
    ]
    loop_ends (suc fuel) s h = elim (List-cases s.queue) [
      | inl empty ↦ (s, simp (empty, loop))
      | inr (n, rest, e) ↦
          let less =
            work-visit n (neighbours g n) (record s { queue = rest }) (neighbours-Held n) in
          let (t, ends) =
            loop_ends fuel
              (visit g namespace release released n (neighbours g n) (record s { queue = rest }))
              (ground arith) in
          (t, rw (e, loop) ends)
    ]

start_from-queue :
    (base : List Node) (s : Search)
    → length (start_from base s).queue ≤ length base + length s.queue
unfolding start_from push
start_from-queue [] s = omega arith
start_from-queue (n ∷ base) s = elim (Bool-cases (has n.uid s.seen)) [
  | inl yes' ↦ rw (yes', start_from) (omega (arith, start_from-queue base s))
  | inr no' ↦
      rw (no', start_from)
        (omega (arith, start_from-queue base (push n s), length-append s.queue (n ∷ [])))
]

-- `expandRelatedNodes` ends.
pub expand_related_nodes_ends :
    (g : Graph) (base : List Node) (namespace release : String)
    → (found : List Node) × (expand_related_nodes g base namespace release ≡ some found)
unfolding expand_related_nodes work
expand_related_nodes_ends g [] namespace release = ([], refl)
expand_related_nodes_ends g (n ∷ ns) namespace release =
    let (t, ends) =
      loop_ends g namespace release (release_nodes release (n ∷ ns))
        (length (n ∷ ns) + length g.nodes) (start_from (n ∷ ns) no_search)
        (omega (
          arith,
          start_from-queue (n ∷ ns) no_search,
          remaining-le (start_from (n ∷ ns) no_search).seen g.nodes,
        )) in
    (t.ordered, rw (ends, expand_related_nodes))
