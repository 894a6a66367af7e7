-- ===== src/Api/Filtering.antt =====
-- pkg/api/filtering.go: the search that adds the related nodes of a release to its own.
use Prim.Native.Char.{code}
use astrolabe_server.Common.{
  ℕ, zero, suc, ◌+◌, leb, length, String, string_key, ℕ_discrete, Bool, true, false, ◌&&◌, ◌||◌,
  not, Option, none, some, List, [], ◌∷◌, ◌++◌, ite, if◌then◌else◌, ◌==◌,
}
use astrolabe_server.Graph.Types.{Uid, Edge, Node, Graph}
use astrolabe_server.Graph.Queries.{get_node}

-- `strings.ToLower`, character by character, for the ASCII letters.
abbrev pub lower : ℕ → ℕ
lower c = if leb 65 c && leb c 90 then c + 32 else c

abbrev pub lower_codes : String → List ℕ
lower_codes String.[] = []
lower_codes (String.◌∷◌ c s) = lower (code c) ∷ lower_codes s

abbrev pub same_codes : List ℕ → List ℕ → Bool
same_codes [] [] = true
same_codes (a ∷ s) (b ∷ t) = ite (ℕ_discrete a b) (same_codes s t) false
same_codes _ _ = false

-- `allowedKinds[strings.ToLower(kind)]`
abbrev pub allowed_kinds : List String
allowed_kinds =
    "pod" ∷ "replicaset" ∷ "endpointslice" ∷ "configmap" ∷ "secret" ∷ "serviceaccount" ∷ "service"
    ∷ "persistentvolume" ∷ "persistentvolumeclaim" ∷ "storageclass" ∷ []

unfoldable pub kind_in : List String → String → Bool
kind_in [] kind = false
kind_in (allowed ∷ kinds) kind =
    same_codes (lower_codes allowed) (lower_codes kind) || kind_in kinds kind

-- `withinNamespace`
unfoldable pub within_namespace : String → Node → Bool
within_namespace namespace n = namespace == "" || n.namespace == "" || n.namespace == namespace

-- `seen[uid]` and `releaseNodes[uid]`
unfoldable pub has : Uid → List Uid → Bool
has uid [] = false
has uid (u ∷ us) = u == uid || has uid us

unfoldable pub release_nodes : String → List Node → List Uid
release_nodes release [] = []
release_nodes release (n ∷ base) =
    let rest = release_nodes release base in
    if not (release == "") && n.helm_release == release then n.uid ∷ rest else rest

-- The tests that a neighbour of `current` passes, after the one that it was not seen before.
unfoldable pub admits : String → String → List Uid → Node → Node → Bool
unfolding within_namespace has kind_in
admits namespace release released current neighbour =
    if not (within_namespace namespace neighbour)
    then false
    else if not (release == "") && neighbour.helm_release == "" && not (has current.uid released)
    then false
    else if not (release == "")
        && not (neighbour.helm_release == "")
        && not (neighbour.helm_release == release)
    then false
    else kind_in allowed_kinds neighbour.kind

-- The live nodes at the other ends of the edges of a node.
unfoldable pub targets : Graph → List (Uid × Edge) → List Node
targets g [] = []
targets g ((_, e) ∷ es) = elim (get_node e.to_uid g) [
  | none ↦ targets g es
  | some n ↦ n ∷ targets g es
]

unfoldable pub sources : Graph → List (Uid × Edge) → List Node
sources g [] = []
sources g ((_, e) ∷ es) = elim (get_node e.from_uid g) [
  | none ↦ sources g es
  | some n ↦ n ∷ sources g es
]

unfoldable pub neighbours : Graph → Node → List Node
unfolding targets sources
neighbours g n = targets g n.outgoing_edges ++ sources g n.incoming_edges

-- `seen` by its keys, `queue` and `ordered`.
pub record Search : Type 0 where
  pub seen : List Uid
  pub queue : List Node
  pub ordered : List Node

unfoldable pub push : Node → Search → Search
push n s = record {
  seen = s.seen ++ (n.uid ∷ []);
  queue = s.queue ++ (n ∷ []);
  ordered = s.ordered ++ (n ∷ []);
}

-- The loop over `base`.
unfoldable pub start_from : List Node → Search → Search
unfolding push has
start_from [] s = s
start_from (n ∷ base) s = start_from base (if has n.uid s.seen then s else push n s)

module _ (g : Graph) (namespace release : String) (released : List Uid) where
  -- The loop over `neighbours`.
  unfoldable pub visit : Node → List Node → Search → Search
  unfolding push has admits
  visit current [] s = s
  visit current (n ∷ ns) s = visit current ns (
      if has n.uid s.seen
      then s
      else if admits namespace release released current n
      then push n s
      else s)

  -- The loop over the queue: `none` if it has not ended within the fuel.
  unfoldable pub loop : ℕ → Search → Option Search
  unfolding visit neighbours
  loop zero s = elim s.queue [ [] ↦ some s | _ ∷ _ ↦ none ]
  loop (suc fuel) s = elim s.queue [
    | [] ↦ some s
    | current ∷ rest ↦ loop fuel (visit current (neighbours g current) (record s { queue = rest }))
  ]

abbrev pub no_search : Search
no_search = record { seen = []; queue = []; ordered = [] }

-- `expandRelatedNodes`: each node of the base and each live node is in the queue once at most.
unfoldable pub expand_related_nodes : Graph → List Node → String → String → Option (List Node)
unfolding loop start_from release_nodes
expand_related_nodes g [] namespace release = some []
expand_related_nodes g (n ∷ ns) namespace release =
    let base = n ∷ ns in
    elim (loop g namespace release (release_nodes release base) (length base + length g.nodes)
      (start_from base no_search)) [ none ↦ none | some s ↦ some s.ordered ]
