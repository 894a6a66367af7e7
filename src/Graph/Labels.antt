-- ===== src/Graph/Labels.antt =====
-- `labelsEqual` of pkg/graph/types.go, by which `AddNode` decides whether the label index has to
-- change.
use astrolabe_server.Common.{String, string_key, some, List, [], ◌∷◌, ◌≡◌, arith, ◌≢◌, true, length}
use astrolabe_server.Common.Dict.{Dict, get, get_or}
use astrolabe_server.Graph.Types.{Node, Graph}
use astrolabe_server.Graph.Store.{labels_agree, labels_equal, needs_reindex, add_node}

labels_agree-get :
    (a : List (String × String)) (b : Dict String String) (k v : String)
    → labels_agree a b ≡ true
    → get k a ≡ some v
    → get_or k "" b ≡ v
unfolding labels_agree get
labels_agree-get [] b k v h e = cc
labels_agree-get ((j, w) ∷ a) b k v h e = ground (arith, labels_agree-get a b k v)

-- Two label maps that `labelsEqual` takes for equal have the same size, and every label of the
-- first with a value other than "" has that value in the second.
pub labels_equal_sound :
    (a b : Dict String String) (k v : String)
    → labels_equal a b ≡ true
    → get k a ≡ some v
    → v ≢ ""
    → (get k b ≡ some v) × (length a ≡ length b)
unfolding labels_equal
labels_equal_sound a b k v h e ne = ground (arith, labels_agree-get a b k v)

one_empty_label : (k j : String) → labels_equal ((k, "") ∷ []) ((j, "") ∷ []) ≡ true
unfolding labels_equal get
one_empty_label k j = ground arith

in_place :
    (node old : Node) (g : Graph)
    → get node.uid g.nodes ≡ some old
    → labels_equal old.labels node.labels ≡ true
    → old.namespace ≡ node.namespace
    → old.kind ≡ node.kind
    → old.helm_release ≡ node.helm_release
    → (add_node node g).by_label ≡ g.by_label
unfolding add_node needs_reindex
in_place node old g live same p q r = ground arith

-- A live node whose one label has the value "" and that gets another such label instead, with the
-- same namespace, kind and release: `labelsEqual` takes the maps for equal, and `AddNode` leaves
-- the label index as it was.
pub by_label_stale :
    (k j : String) (node old : Node) (g : Graph)
    → get node.uid g.nodes ≡ some old
    → old.labels ≡ (k, "") ∷ []
    → node.labels ≡ (j, "") ∷ []
    → old.namespace ≡ node.namespace
    → old.kind ≡ node.kind
    → old.helm_release ≡ node.helm_release
    → (labels_equal old.labels node.labels ≡ true) × ((add_node node g).by_label ≡ g.by_label)
by_label_stale k j node old g live was is p q r =
    let same : labels_equal old.labels node.labels ≡ true = rw (was, is) (one_empty_label k j) in
    (same, in_place node old g live same p q r)
