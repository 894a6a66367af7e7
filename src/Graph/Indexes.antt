-- ===== src/Graph/Indexes.antt =====
-- pkg/graph/types.go: the three indexes, with `addToIndexes`, `removeFromIndexes`,
-- `removeNodeFromSlice` and `intersectNodes`.
use astrolabe_server.Common.{
  String, str_dec, string_key, ◌==◌, Bool, ◌||◌, true, false, none, some, List, [], ◌∷◌, ◌++◌, ite,
  if◌then◌else◌,
}
use astrolabe_server.Common.Dict.{Dict, get, put, delete, get_or}
use astrolabe_server.Graph.Types.{Uid, NodeData, Graph}

-- `len(m) == 0`
abbrev pub is_empty {ℓ} : {A : Type ℓ} → List A → Bool
is_empty [] = true
is_empty (_ ∷ _) = false

-- The namespace under which a node is indexed: "_cluster" for cluster-scoped resources.
unfoldable pub ns_key : String → String
ns_key namespace = ite (str_dec namespace "") "_cluster" namespace

-- `removeNodeFromSlice`: the slice without the first node of this UID.
unfoldable pub remove_node_from_slice : List NodeData → Uid → List NodeData
remove_node_from_slice [] uid = []
remove_node_from_slice (n ∷ nodes) uid =
    ite (str_dec n.uid uid) nodes (n ∷ remove_node_from_slice nodes uid)

-- One level of an index: `m[k] = append(m[k], node)`.
unfoldable pub append_at :
    String → NodeData → Dict String (List NodeData) → Dict String (List NodeData)
append_at k n m = put k (get_or k [] m ++ (n ∷ [])) m

-- One level of an index: the slice at `k` loses the node, and an empty slice its key.
unfoldable pub remove_at : String → Uid → Dict String (List NodeData) → Dict String (List NodeData)
remove_at k uid m = elim (get k m) [
  | none ↦ m
  | some nodes ↦
      let rest = remove_node_from_slice nodes uid in
      if is_empty rest then delete k m else put k rest m
]

-- Both levels, for the namespace/kind index and the label index.
unfoldable pub index_add :
    String
    → String
    → NodeData
    → Dict String (Dict String (List NodeData))
    → Dict String (Dict String (List NodeData))
unfolding append_at
index_add k j n m = put k (append_at j n (get_or k [] m)) m

unfoldable pub index_remove :
    String
    → String
    → Uid
    → Dict String (Dict String (List NodeData))
    → Dict String (Dict String (List NodeData))
unfolding remove_at
index_remove k j uid m = elim (get k m) [
  | none ↦ m
  | some inner ↦
      let rest = remove_at j uid inner in if is_empty rest then delete k m else put k rest m
]

-- The loops over `node.Labels`.
unfoldable pub label_add :
    List (String × String)
    → NodeData
    → Dict String (Dict String (List NodeData))
    → Dict String (Dict String (List NodeData))
unfolding index_add
label_add [] n m = m
label_add ((k, v) ∷ labels) n m = label_add labels n (index_add k v n m)

unfoldable pub label_remove :
    List (String × String)
    → Uid
    → Dict String (Dict String (List NodeData))
    → Dict String (Dict String (List NodeData))
unfolding index_remove
label_remove [] uid m = m
label_remove ((k, v) ∷ labels) uid m = label_remove labels uid (index_remove k v uid m)

unfoldable pub add_to_indexes : NodeData → Graph → Graph
unfolding ns_key index_add append_at label_add
add_to_indexes n g = record g {
  by_namespace_kind = index_add (ns_key n.namespace) n.kind n g.by_namespace_kind;
  by_helm_release =
      if n.helm_release == ""
      then g.by_helm_release
      else append_at n.helm_release n g.by_helm_release;
  by_label = label_add n.labels n g.by_label;
}

unfoldable pub remove_from_indexes : NodeData → Graph → Graph
unfolding ns_key index_remove remove_at label_remove
remove_from_indexes n g = record g {
  by_namespace_kind = index_remove (ns_key n.namespace) n.kind n.uid g.by_namespace_kind;
  by_helm_release =
      if n.helm_release == ""
      then g.by_helm_release
      else remove_at n.helm_release n.uid g.by_helm_release;
  by_label = label_remove n.labels n.uid g.by_label;
}

-- `uidMap[uid]` in `intersectNodes`
unfoldable pub has_uid : Uid → List NodeData → Bool
has_uid uid [] = false
has_uid uid (n ∷ nodes) = n.uid == uid || has_uid uid nodes

unfoldable pub intersect_nodes : List NodeData → List NodeData → List NodeData
unfolding has_uid
intersect_nodes a [] = []
intersect_nodes a (n ∷ b) = if has_uid n.uid a then n ∷ intersect_nodes a b else intersect_nodes a b
