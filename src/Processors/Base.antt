-- ===== src/Processors/Base.antt =====
-- pkg/processors/base.go, with `createConfigMapSecretEdges` of pkg/processors/core.go and
-- `NewNodeFromObject` of pkg/graph/types.go: what the processors share. The logging is left out.
use astrolabe_server.Common.{
  String, str_dec, string_key, Bool, true, false, Option, none, some, List, [], ◌∷◌, if◌then◌else◌,
  ◌==◌, ite,
}
use astrolabe_server.Common.Dict.{Dict, get_or}
use astrolabe_server.Common.Int.{pos}
use astrolabe_server.Graph.Types.{
  Uid, Node, EdgeType, RefKey, ResourceMetadata, ResourceStatus, status_unknown, edge_ownership,
  edge_config_map_ref, edge_secret_ref, edge_service_account,
}
use astrolabe_server.Graph.Indexes.{is_empty}
use astrolabe_server.Graph.Pending.{new_edge}
use astrolabe_server.Processors.Interface.{GraphInterface}
use astrolabe_server.Processors.Objects.{
  ObjectMeta, OwnerReference, Container, EnvFrom, EnvSource, Volume, PodSpec, ProcessError,
}

-- `NewNodeFromObject`
unfoldable pub new_node_from_object : ObjectMeta → String → String → Node
new_node_from_object obj kind api_version = record {
  fields = record {
    uid = obj.uid;
    name = obj.name;
    namespace = obj.namespace;
    kind = kind;
    api_version = api_version;
    resource_version = obj.resource_version;
    labels = obj.labels;
    annotations = obj.annotations;
    creation_timestamp = obj.creation_timestamp;
    status = status_unknown;
    status_message = "";
    helm_chart = get_or "helm.sh/chart" "" obj.annotations;
    helm_release = get_or "meta.helm.sh/release-name" "" obj.annotations;
    metadata = none;
  };
  outgoing_edges = [];
  incoming_edges = [];
}

-- `node.Status, node.StatusMessage = …` and `node.Metadata = …`
unfoldable pub set_status : ResourceStatus × String → Node → Node
set_status (status, message) n = record n {
  fields = record n.fields { status = status; status_message = message };
}

unfoldable pub set_metadata : Option ResourceMetadata → Node → Node
set_metadata metadata n = record n { fields = record n.fields { metadata = metadata } }

-- `graph.ResourceMetadata{}`
abbrev pub no_metadata : ResourceMetadata
no_metadata = record {
  node_name = "";
  image = "";
  restart_count = pos 0;
  replicas = none;
  volume_name = "";
  claim_ref = none;
  cluster_ip = "";
  service_type = "";
  ingress_class = "";
  scale_target_ref = none;
  min_replicas = none;
  max_replicas = pos 0;
  current_replicas = pos 0;
  desired_replicas = pos 0;
}

-- A `range` loop over a state, and a body that runs where a pointer is not nil.
unfoldable pub for_each : {A S : Type 0} → (A → S → S) → List A → S → S
for_each f [] s = s
for_each f (x ∷ xs) s = for_each f xs (f x s)

unfoldable pub when_some : {A S : Type 0} → (A → S → S) → Option A → S → S
when_some f none s = s
when_some f (some x) s = f x s

-- `matchesSelector`: a missing label reads as "".
unfoldable pub matches_selector : Dict String String → List (String × String) → Bool
matches_selector labels [] = true
matches_selector labels ((k, v) ∷ selector) =
    if get_or k "" labels == v then matches_selector labels selector else false

-- The loop of `findNodeByNamespaceKindName`.
unfoldable pub find_name : String → List Node → Option Node
find_name name [] = none
find_name name (n ∷ nodes) = ite (str_dec n.name name) (some n) (find_name name nodes)

-- The loop of `findNodesByLabelSelector`.
unfoldable pub select_nodes : List (String × String) → List Node → List Node
unfolding matches_selector
select_nodes selector [] = []
select_nodes selector (n ∷ nodes) =
    if matches_selector n.labels selector
    then n ∷ select_nodes selector nodes
    else select_nodes selector nodes

-- The key of a pending edge has a kind, and no group or version.
abbrev pub ref_key_of : String → String → String → RefKey
ref_key_of namespace kind name = record {
  gvk = record { group = ""; version = ""; kind = kind };
  namespace = namespace;
  name = name;
}

module _ {S : Type 0} (g : GraphInterface S) where
  -- `handleDelete`, of an object with metadata
  unfoldable pub handle_delete : ObjectMeta → S → S × Option ProcessError
  handle_delete obj s = (g.remove_node obj.uid s, none)

  -- The body of the loop of `createOwnershipEdges`, and the loop.
  unfoldable pub create_ownership_edge : Uid → OwnerReference → S → S
  create_ownership_edge uid owner s = elim (g.get_node owner.uid s) [
    | none ↦ s
    | some _ ↦ (g.add_edge (new_edge edge_ownership owner.uid uid) s).0
  ]

  unfoldable pub create_ownership_edges : Uid → List OwnerReference → S → S
  unfolding create_ownership_edge for_each
  create_ownership_edges uid = for_each (create_ownership_edge uid)

  -- `findNodeByNamespaceKindName`
  unfoldable pub find_node_by_namespace_kind_name : String → String → String → S → Option Node
  unfolding find_name
  find_node_by_namespace_kind_name namespace kind name s =
      find_name name (g.get_nodes_by_namespace_kind namespace kind s)

  -- `findNodesByLabelSelector`
  unfoldable pub find_nodes_by_label_selector : String → String → Dict String String → S → List Node
  unfolding select_nodes
  find_nodes_by_label_selector namespace kind selector s =
      let nodes = g.get_nodes_by_namespace_kind namespace kind s in
      if is_empty selector then nodes else select_nodes selector nodes

  -- `createEdgeIfNodeExists`
  unfoldable pub create_edge_if_node_exists : Uid → Uid → EdgeType → S → S
  create_edge_if_node_exists from to type s = (g.add_edge (new_edge type from to) s).0

  -- `createEdgeOrPending`
  unfoldable pub create_edge_or_pending : Uid → String → String → String → EdgeType → S → S
  unfolding find_node_by_namespace_kind_name create_edge_if_node_exists
  create_edge_or_pending from namespace kind name type s =
      elim (find_node_by_namespace_kind_name namespace kind name s) [
        | some target ↦ create_edge_if_node_exists from target.uid type s
        | none ↦ g.add_pending_edge from (ref_key_of namespace kind name) type s
      ]

  -- `createReverseEdgeOrPending`
  unfoldable pub create_reverse_edge_or_pending : Uid → String → String → String → EdgeType → S → S
  unfolding find_node_by_namespace_kind_name create_edge_if_node_exists
  create_reverse_edge_or_pending to namespace kind name type s =
      elim (find_node_by_namespace_kind_name namespace kind name s) [
        | some source ↦ create_edge_if_node_exists source.uid to type s
        | none ↦ g.add_reverse_pending_edge to (ref_key_of namespace kind name) type s
      ]

  -- The bodies of the loops of `createConfigMapSecretEdges`, and the whole of it.
  module _ (uid : Uid) (namespace : String) where
    unfoldable pub config_map_edge : String → S → S
    unfolding create_edge_or_pending
    config_map_edge name = create_edge_or_pending uid namespace "ConfigMap" name edge_config_map_ref

    unfoldable pub secret_edge : String → S → S
    unfolding create_edge_or_pending
    secret_edge name = create_edge_or_pending uid namespace "Secret" name edge_secret_ref

    unfoldable pub volume_edges : Volume → S → S
    unfolding config_map_edge secret_edge when_some
    volume_edges v s = when_some secret_edge v.secret (when_some config_map_edge v.config_map s)

    unfoldable pub env_from_edges : EnvFrom → S → S
    unfolding config_map_edge secret_edge when_some
    env_from_edges e s =
        when_some secret_edge e.secret_ref (when_some config_map_edge e.config_map_ref s)

    unfoldable pub env_source_edges : EnvSource → S → S
    unfolding config_map_edge secret_edge when_some
    env_source_edges e s =
        when_some secret_edge e.secret_key_ref (when_some config_map_edge e.config_map_key_ref s)

    unfoldable pub container_edges : Container → S → S
    unfolding env_from_edges env_source_edges for_each when_some
    container_edges c s =
        for_each (when_some env_source_edges) c.env (for_each env_from_edges c.env_from s)

    unfoldable pub create_config_map_secret_edges : PodSpec → S → S
    unfolding volume_edges container_edges for_each
    create_config_map_secret_edges spec s =
        for_each container_edges spec.containers (for_each volume_edges spec.volumes s)

    -- `if spec.ServiceAccountName != "" { … }`, which the pods and the workloads share.
    unfoldable pub service_account_edge : String → S → S
    unfolding create_edge_or_pending
    service_account_edge name s =
        ite (str_dec name "") s
          (create_edge_or_pending uid namespace "ServiceAccount" name edge_service_account s)
