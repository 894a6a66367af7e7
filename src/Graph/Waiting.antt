-- ===== src/Graph/Waiting.antt =====
-- Pending edges of pkg/graph/types.go when a node is added that they match.
use astrolabe_server.Common.{
  string_key, none, some, List, [], ◌∷◌, ◌++◌, ◌≡◌, arith, refl, ◌≢◌, Option-cases, inl, inr, Bool,
  true, false, ◌||◌, ◌&&◌, ◌==◌, map, if◌then◌else◌,
}
use astrolabe_server.Common.Dict
use astrolabe_server.Common.Dict.{Dict, get, put, get_or, get-put, get-delete}
use astrolabe_server.Graph.Types.{
  Uid, Edge, Node, NodeData, Graph, RefKey, ref_key, PendingEdge, ReversePendingEdge,
}
use astrolabe_server.Graph.Pending.{new_edge, ref_matches, matched_keys, delete_keys}
use astrolabe_server.Graph.Store.{add_node}
use astrolabe_server.Graph.Views.{out_edge}
use astrolabe_server.Graph.Matching.{last_edge, waiting_to, waiting_from}
use astrolabe_server.Graph.Additions.{IsFresh, out_edge-add_node_new, fields_of-add_node}

-- What the matching keys are, and what is left without them.
key_in : {P : Type 0} → RefKey → List (RefKey × P) → Bool
key_in r [] = false
key_in r ((ref, _) ∷ m) = ref == r || key_in r m

get-delete_keys :
    {P : Type 0} (n : NodeData) (r : RefKey) (es m : List (RefKey × P))
    → get r (delete_keys (matched_keys n es) m)
      ≡ (if ref_matches r n && key_in r es then none else get r m)
unfolding matched_keys delete_keys key_in
get-delete_keys n r [] m = ground arith
get-delete_keys n r ((ref, p) ∷ es) m = ground (
  arith,
  get-delete_keys n r es m,
  get-delete_keys n r es (Dict.delete ref m),
  get-delete r ref m,
)

get_of_not_key_in :
    {P : Type 0} (r : RefKey) (m : List (RefKey × P)) → key_in r m ≡ false → get r m ≡ none
unfolding get key_in
get_of_not_key_in r [] h = refl
get_of_not_key_in r ((ref, p) ∷ m) h = ground (arith, get_of_not_key_in r m)

-- The entries under matching references go, the others stay.
pub get-unmatched :
    {P : Type 0} (n : NodeData) (r : RefKey) (m : List (RefKey × P))
    → get r (delete_keys (matched_keys n m) m) ≡ (if ref_matches r n then none else get r m)
get-unmatched n r m = ground (arith, get-delete_keys n r m m, get_of_not_key_in r m)

-- Some entry under `ref` waits to link the node `from` to its target; or the node `to`, to its
-- source.
abbrev pub waits_in : Uid → List PendingEdge → Bool
waits_in from [] = false
waits_in from (p ∷ ps) = p.from_uid == from || waits_in from ps

abbrev pub reverse_waits_in : Uid → List ReversePendingEdge → Bool
reverse_waits_in to [] = false
reverse_waits_in to (p ∷ ps) = p.to_uid == to || reverse_waits_in to ps

abbrev pub Waits : Uid → RefKey → Graph → Type 0
Waits from ref g = waits_in from (get_or ref [] g.pending_edges) ≡ true

abbrev pub ReverseWaits : Uid → RefKey → Graph → Type 0
ReverseWaits to ref g = reverse_waits_in to (get_or ref [] g.reverse_pending_edges) ≡ true

pub waits_in-append :
    (from : Uid) (ps qs : List PendingEdge)
    → waits_in from (ps ++ qs) ≡ (waits_in from ps || waits_in from qs)
waits_in-append from [] qs = refl
waits_in-append from (p ∷ ps) qs = ground (arith, waits_in-append from ps qs)

pub reverse_waits_in-append :
    (to : Uid) (ps qs : List ReversePendingEdge)
    → reverse_waits_in to (ps ++ qs) ≡ (reverse_waits_in to ps || reverse_waits_in to qs)
reverse_waits_in-append to [] qs = refl
reverse_waits_in-append to (p ∷ ps) qs = ground (arith, reverse_waits_in-append to ps qs)

-- A waiting entry gives an edge of the list that the new node's edges are linked from.
has_edge : Uid → Uid → List Edge → Bool
has_edge a b [] = false
has_edge a b (e ∷ es) = e.from_uid == a && e.to_uid == b || has_edge a b es

last_edge-ne-none : (a b : Uid) (es : List Edge) → has_edge a b es ≡ true → last_edge a b es ≢ none
unfolding has_edge
last_edge-ne-none a b [] h = cc
last_edge-ne-none a b (e ∷ es) h = ground (arith, last_edge-ne-none a b es)

last_edge_of_has_edge :
    (a b : Uid) (es : List Edge) → has_edge a b es ≡ true → (e : Edge) × (last_edge a b es ≡ some e)
last_edge_of_has_edge a b es h = elim (Option-cases (last_edge a b es)) [
  | inl p ↦ absurd (last_edge-ne-none a b es h p)
  | inr found ↦ found
]

has_edge-append :
    (a b : Uid) (es fs : List Edge) → has_edge a b (es ++ fs) ≡ (has_edge a b es || has_edge a b fs)
unfolding has_edge
has_edge-append a b [] fs = refl
has_edge-append a b (e ∷ es) fs = ground (arith, has_edge-append a b es fs)

has_edge_of_waits_in :
    (a uid : Uid) (ps : List PendingEdge)
    → has_edge a uid (map (λ p. new_edge p.edge_type p.from_uid uid) ps) ≡ waits_in a ps
unfolding has_edge
has_edge_of_waits_in a uid [] = refl
has_edge_of_waits_in a uid (p ∷ ps) = ground (arith, has_edge_of_waits_in a uid ps)

has_edge_of_reverse_waits_in :
    (b uid : Uid) (ps : List ReversePendingEdge)
    → has_edge uid b (map (λ p. new_edge p.edge_type uid p.to_uid) ps) ≡ reverse_waits_in b ps
unfolding has_edge
has_edge_of_reverse_waits_in b uid [] = refl
has_edge_of_reverse_waits_in b uid (p ∷ ps) = ground (arith, has_edge_of_reverse_waits_in b uid ps)

module _ (n : NodeData) (ref : RefKey) (match : ref_matches ref n ≡ true) (a : Uid) where
  has_edge-waiting_to :
      (m : List (RefKey × List PendingEdge))
      → waits_in a (get_or ref [] m) ≡ true
      → has_edge a n.uid (waiting_to n m) ≡ true
  unfolding get
  has_edge-waiting_to [] h = cc
  has_edge-waiting_to ((r, ps) ∷ m) h = ground (
    arith,
    has_edge-append a n.uid
        (if ref_matches r n then map (λ p. new_edge p.edge_type p.from_uid n.uid) ps else [])
        (waiting_to n m),
    has_edge_of_waits_in a n.uid ps,
    has_edge-waiting_to m,
  )

  has_edge-waiting_from :
      (m : List (RefKey × List ReversePendingEdge))
      → reverse_waits_in a (get_or ref [] m) ≡ true
      → has_edge n.uid a (waiting_from n m) ≡ true
  unfolding get
  has_edge-waiting_from [] h = cc
  has_edge-waiting_from ((r, ps) ∷ m) h = ground (
    arith,
    has_edge-append n.uid a
        (if ref_matches r n then map (λ p. new_edge p.edge_type n.uid p.to_uid) ps else [])
        (waiting_from n m),
    has_edge_of_reverse_waits_in a n.uid ps,
    has_edge-waiting_from m,
  )

module _ (node : Node) (g : Graph) (fresh : IsFresh node) (dead : get node.uid g.nodes ≡ none)
    (ref : RefKey) (match : ref_matches ref node.fields ≡ true) where
  -- A new node that matches the reference gets its edge from every live node that waits.
  pub Waits-resolved :
      (a : Uid) (n : Node)
      → get a g.nodes ≡ some n
      → Waits a ref g
      → (e : Edge) × (out_edge a node.uid (add_node node g).nodes ≡ some e)
  Waits-resolved a n live w =
      let (e, last) =
        last_edge_of_has_edge a node.uid (waiting_to node.fields g.pending_edges)
          (has_edge-waiting_to node.fields ref match a g.pending_edges w) in
      ground (
        arith,
        out_edge-add_node_new node g dead fresh a node.uid,
        fields_of-add_node node g a,
        fields_of-add_node node g node.uid,
      )

  pub ReverseWaits-resolved :
      (b : Uid) (n : Node)
      → get b g.nodes ≡ some n
      → ReverseWaits b ref g
      → (e : Edge) × (out_edge node.uid b (add_node node g).nodes ≡ some e)
  ReverseWaits-resolved b n live w =
      let (e, last) =
        last_edge_of_has_edge node.uid b (waiting_from node.fields g.reverse_pending_edges)
          (has_edge-waiting_from node.fields ref match b g.reverse_pending_edges w) in
      (
        e,
        ground (
          arith,
          out_edge-add_node_new node g dead fresh node.uid b,
          fields_of-add_node node g b,
          fields_of-add_node node g node.uid,
        ),
      )
