-- ===== src/Api/Drawn.antt =====
-- The edges that `buildGraphResponse` of pkg/api/responses.go answers with.
use astrolabe_server.Common.{
  String, str_dec, string_key, Bool, true, false, some, List, [], ◌∷◌, ◌++◌, ◌≡◌, ◌⊎◌, inl, inr,
  refl, arith, Bool-cases, ap, sym, ◌∙◌, subst,
}
use astrolabe_server.Common.Dict.{Dict, get, put, get_or, get-put}
use astrolabe_server.Graph.Types.{Uid, Edge, Node}
use astrolabe_server.Graph.Lookup.{All}
use astrolabe_server.Api.Related.{In, uids}
use astrolabe_server.Api.Responses.{
  EdgeResponse, edge_response, node_map, edges_within, all_edges_within,
}
use astrolabe_server.Graph.Entries.{Distinct}

-- The nodes of the answer are those that stand in the map of `buildGraphResponse`.
abbrev pub marked : Uid → Dict String Bool → Bool
marked u m = get_or u false m

pub node_map-In :
    (nodes : List Node) (m : Dict String Bool) (u : Uid)
    → In u (uids nodes) ⊎ (marked u m ≡ true)
    → marked u (node_map nodes m) ≡ true
unfolding node_map
node_map-In [] m u (inl i) = elim i [ ]
node_map-In [] m u (inr h) = h
node_map-In (n ∷ nodes) m u h = elim (str_dec n.uid u) [
  | yes p ↦ node_map-In nodes (put n.uid true m) u (inr (ground (arith, get-put u n.uid true m)))
  | no p ↦ elim h [
    | inl (inl q) ↦ absurd (p q)
    | inl (inr i) ↦ node_map-In nodes (put n.uid true m) u (inl i)
    | inr q ↦ node_map-In nodes (put n.uid true m) u (inr (ground (arith, get-put u n.uid true m)))
  ]
]

pub In-node_map :
    (nodes : List Node) (m : Dict String Bool) (u : Uid)
    → marked u (node_map nodes m) ≡ true
    → In u (uids nodes) ⊎ (marked u m ≡ true)
unfolding node_map
In-node_map [] m u h = inr h
In-node_map (n ∷ nodes) m u h = elim (In-node_map nodes (put n.uid true m) u h) [
  | inl i ↦ inl (inr i)
  | inr q ↦ elim (str_dec n.uid u) [
    | yes p ↦ inl (inl p)
    | no p ↦ inr (ground (arith, get-put u n.uid true m))
  ]
]

-- In a map with each key once, an entry is what its key finds.
pub get-In : (k : Uid) (e : Edge) (es : Dict Uid Edge) → get k es ≡ some e → In (k, e) es
unfolding get
get-In k e [] h = absurd (ground (arith))
get-In k e ((j, f) ∷ es) h = elim (str_dec j k) [
  | yes p ↦ let same : f ≡ e = ground (arith) in inl (λ i. (p i, same i))
  | no p ↦ inr (get-In k e es (ground (arith)))
]

pub In-get :
    (k : Uid) (e : Edge) (es : Dict Uid Edge) → Distinct es → In (k, e) es → get k es ≡ some e
unfolding get
In-get k e [] d i = elim i [ ]
In-get k e ((j, f) ∷ es) d (inl p) =
    let key : j ≡ k = ap (λ x. x.0) p in let edge : f ≡ e = ap (λ x. x.1) p in ground (arith)
In-get k e ((j, f) ∷ es) d (inr i) =
    ground (arith, In-get k e es d.1 i, d.0, ap (λ (x : Uid). get x es) {x = j} {y = k})

-- The edges of one node whose targets are marked.
pub edges_within-In :
    (m : Dict String Bool) (es : List (Uid × Edge)) (k : Uid) (e : Edge)
    → In (k, e) es
    → marked e.to_uid m ≡ true
    → In (edge_response e) (edges_within m es)
unfolding edges_within
edges_within-In m [] k e i h = elim i [ ]
edges_within-In m ((j, f) ∷ es) k e (inl p) h =
    let same : f ≡ e = ap (λ x. x.1) p in
    let here : marked f.to_uid m ≡ true = ap (λ (x : Edge). marked x.to_uid m) same ∙ h in
    rw (here, edges_within) (inl (ap edge_response same))
edges_within-In m ((j, f) ∷ es) k e (inr i) h = elim (Bool-cases (marked f.to_uid m)) [
  | inl q ↦ rw (q, edges_within) (inr (edges_within-In m es k e i h))
  | inr q ↦ rw (q, edges_within) (edges_within-In m es k e i h)
]

abbrev pub IsFrom : Dict String Bool → List (Uid × Edge) → EdgeResponse → Type 0
IsFrom m es r =
    (k : Uid) × (e : Edge) × In (k, e) es × (marked e.to_uid m ≡ true) × (r ≡ edge_response e)

edges_within_hit :
    (m : Dict String Bool) (j : Uid) (f : Edge) (es : List (Uid × Edge))
    → marked f.to_uid m ≡ true
    → edges_within m ((j, f) ∷ es) ≡ (edge_response f ∷ edges_within m es)
unfolding edges_within
edges_within_hit m j f es q = ground (arith)

edges_within_miss :
    (m : Dict String Bool) (j : Uid) (f : Edge) (es : List (Uid × Edge))
    → marked f.to_uid m ≡ false
    → edges_within m ((j, f) ∷ es) ≡ edges_within m es
unfolding edges_within
edges_within_miss m j f es q = ground (arith)

IsFrom-later :
    (m : Dict String Bool) (x : Uid × Edge) (es : List (Uid × Edge)) (r : EdgeResponse)
    → IsFrom m es r
    → IsFrom m (x ∷ es) r
IsFrom-later m x es r (k, e, there, hit, same) = (k, e, inr there, hit, same)

pub In-edges_within :
    (m : Dict String Bool) (es : List (Uid × Edge)) (r : EdgeResponse)
    → In r (edges_within m es)
    → IsFrom m es r
unfolding edges_within
In-edges_within m [] r i = elim i [ ]
In-edges_within m ((j, f) ∷ es) r i = elim (Bool-cases (marked f.to_uid m)) [
  | inl q ↦
      let there : In r (edge_response f ∷ edges_within m es) =
        subst (In r) (edges_within_hit m j f es q) i in
      elim there [
        | inl p ↦ (j, f, inl refl, q, sym p)
        | inr l ↦ IsFrom-later m (j, f) es r (In-edges_within m es r l)
      ]
  | inr q ↦
      IsFrom-later m (j, f) es r
        (In-edges_within m es r (subst (In r) (edges_within_miss m j f es q) i))
]

pub In-append_left : {A : Type 0} (x : A) (xs ys : List A) → In x xs → In x (xs ++ ys)
In-append_left x [] ys i = elim i [ ]
In-append_left x (z ∷ xs) ys (inl p) = inl p
In-append_left x (z ∷ xs) ys (inr i) = inr (In-append_left x xs ys i)

pub In-append_right : {A : Type 0} (x : A) (xs ys : List A) → In x ys → In x (xs ++ ys)
In-append_right x [] ys i = i
In-append_right x (z ∷ xs) ys i = inr (In-append_right x xs ys i)

pub In-append : {A : Type 0} (x : A) (xs ys : List A) → In x (xs ++ ys) → In x xs ⊎ In x ys
In-append x [] ys i = inr i
In-append x (z ∷ xs) ys (inl p) = inl (inl p)
In-append x (z ∷ xs) ys (inr i) = elim (In-append x xs ys i) [ inl l ↦ inl (inr l) | inr r ↦ inr r ]

pub all_edges_within-In :
    (m : Dict String Bool) (nodes : List Node) (n : Node) (r : EdgeResponse)
    → In n nodes
    → In r (edges_within m n.outgoing_edges)
    → In r (all_edges_within m nodes)
unfolding all_edges_within
all_edges_within-In m [] n r i h = elim i [ ]
all_edges_within-In m (x ∷ nodes) n r (inl p) h =
    In-append_left r (edges_within m x.outgoing_edges) (all_edges_within m nodes)
      (subst (λ y. In r (edges_within m y.outgoing_edges)) (sym p) h)
all_edges_within-In m (x ∷ nodes) n r (inr i) h =
    In-append_right r (edges_within m x.outgoing_edges) (all_edges_within m nodes)
      (all_edges_within-In m nodes n r i h)

pub In-all_edges_within :
    (m : Dict String Bool) (nodes : List Node) (r : EdgeResponse)
    → In r (all_edges_within m nodes)
    → (n : Node) × In n nodes × In r (edges_within m n.outgoing_edges)
unfolding all_edges_within
In-all_edges_within m [] r i = elim i [ ]
In-all_edges_within m (x ∷ nodes) r i =
    elim (In-append r (edges_within m x.outgoing_edges) (all_edges_within m nodes) i) [
      | inl l ↦ (x, inl refl, l)
      | inr l ↦ let (n, there, h) = In-all_edges_within m nodes r l in (n, inr there, h)
    ]

pub In-uids :
    (nodes : List Node) (u : Uid) → In u (uids nodes) → (n : Node) × In n nodes × (n.uid ≡ u)
In-uids [] u i = elim i [ ]
In-uids (x ∷ nodes) u (inl p) = (x, inl refl, p)
In-uids (x ∷ nodes) u (inr i) = let (n, there, h) = In-uids nodes u i in (n, inr there, h)

pub uids-In : (nodes : List Node) (n : Node) → In n nodes → In n.uid (uids nodes)
uids-In [] n i = elim i [ ]
uids-In (x ∷ nodes) n (inl p) = inl (ap (λ y. y.uid) p)
uids-In (x ∷ nodes) n (inr i) = inr (uids-In nodes n i)

pub In-All : {A : Type 0} (P : A → Type 0) (x : A) (xs : List A) → All P xs → In x xs → P x
In-All P x [] a i = elim i [ ]
In-All P x (y ∷ ys) a (inl p) = subst P p a.0
In-All P x (y ∷ ys) a (inr i) = In-All P x ys a.1 i
