-- ===== src/Api/Responses.antt =====
-- pkg/api/responses.go: the form of the answers. `since` stands for `time.Since`, in nanoseconds, and
-- `rfc3339` for `Time.Format`.
use astrolabe_server.Common.{
  ℕ, zero, suc, ◌/◌, String, string_key, Bool, true, false, ltb, Option, none, some, List, [], ◌∷◌,
  ◌++◌, map, if◌then◌else◌, ◌==◌,
}
use astrolabe_server.Common.Dict.{Dict, get, put, get_or}
use astrolabe_server.Common.Int.{ℤ, pos, negsuc}
use astrolabe_server.Common.Format.{◌<>◌, decimal, signed_decimal}
use astrolabe_server.Graph.Types.{
  Uid, Edge, EdgeType, Node, Graph, ReplicaInfo, ObjectReference, ResourceMetadata, ResourceStatus,
  status_ready, status_error, status_pending, status_unknown, edge_ownership, edge_service_selector,
  edge_service_endpoint, edge_ingress_backend, edge_pod_volume, edge_pvc_binding,
  edge_config_map_ref, edge_secret_ref, edge_service_account, edge_hpa_target,
}
use astrolabe_server.Graph.Queries.{get_node}

-- `string(node.Status)` and `string(edge.Type)`
abbrev pub status_text : ResourceStatus → String
status_text status_ready = "Ready"
status_text status_error = "Error"
status_text status_pending = "Pending"
status_text status_unknown = "Unknown"

abbrev pub type_text : EdgeType → String
type_text edge_ownership = "owns"
type_text edge_service_selector = "selects"
type_text edge_service_endpoint = "endpoints"
type_text edge_ingress_backend = "routes-to"
type_text edge_pod_volume = "mounts"
type_text edge_pvc_binding = "binds"
type_text edge_config_map_ref = "uses-configmap"
type_text edge_secret_ref = "uses-secret"
type_text edge_service_account = "uses-sa"
type_text edge_hpa_target = "scales"

pub record OwnerReference : Type 0 where
  pub kind : String
  pub name : String

pub record Resource : Type 0 where
  pub name : String
  pub namespace : String
  pub kind : String
  pub api_version : String
  pub status : String
  pub message : String
  pub chart : String
  pub release : String
  pub age : String
  pub creation_timestamp : String
  pub image : String
  pub node_name : String
  pub restart_count : ℤ
  pub replicas : Option ReplicaInfo
  pub owner_references : List OwnerReference
  pub volume_name : String
  pub claim_ref : Option ObjectReference
  pub target_pods : List String
  pub mounted_pvcs : List String
  pub used_config_maps : List String
  pub used_secrets : List String
  pub service_account_name : String

pub record NodeResponse : Type 0 where
  pub uid : String
  pub name : String
  pub namespace : String
  pub kind : String
  pub status : String
  pub message : String
  pub chart : String
  pub release : String
  pub metadata : Option ResourceMetadata

pub record EdgeResponse : Type 0 where
  pub type : String
  pub from : String
  pub to : String

pub record GraphResponse : Type 0 where
  pub nodes : List NodeResponse
  pub edges : List EdgeResponse

abbrev second : ℕ
second = 1000000000

abbrev minute : ℕ
minute = 60000000000

abbrev hour : ℕ
hour = 3600000000000

abbrev day : ℕ
day = 86400000000000

-- `formatAge` of a duration. A conversion to `int` drops the fraction, towards 0; the division of
-- floats in the source may round up where less than a microsecond is left to a full day.
unfoldable pub format_age : ℤ → String
unfolding signed_decimal
format_age (negsuc n) = elim (suc n / second) [
  | zero ↦ "0s"
  | suc k ↦ signed_decimal (negsuc k) <> "s"
]
format_age (pos d) =
    if ltb d minute
    then decimal (d / second) <> "s"
    else if ltb d hour
    then decimal (d / minute) <> "m"
    else if ltb d day
    then decimal (d / hour) <> "h"
    else decimal (d / day) <> "d"

-- The cache of `nodesToResources`: a lookup that fails leaves no entry.
unfoldable pub cache_node : Graph → Uid → Dict Uid Node → Dict Uid Node
cache_node g u cache = elim (get u cache) [
  | some _ ↦ cache
  | none ↦ elim (get_node u g) [ none ↦ cache | some n ↦ put u n cache ]
]

unfoldable pub cache_sources : Graph → List (Uid × Edge) → Dict Uid Node → Dict Uid Node
unfolding cache_node
cache_sources g [] cache = cache
cache_sources g ((_, e) ∷ es) cache = cache_sources g es (cache_node g e.from_uid cache)

unfoldable pub cache_targets : Graph → List (Uid × Edge) → Dict Uid Node → Dict Uid Node
unfolding cache_node
cache_targets g [] cache = cache
cache_targets g ((_, e) ∷ es) cache = cache_targets g es (cache_node g e.to_uid cache)

unfoldable pub uid_cache : Graph → List Node → Dict Uid Node → Dict Uid Node
unfolding cache_sources cache_targets
uid_cache g [] cache = cache
uid_cache g (n ∷ nodes) cache =
    uid_cache g nodes (cache_targets g n.outgoing_edges (cache_sources g n.incoming_edges cache))

-- `getRelatedNodeNames`, over any lookup.
unfoldable pub related_node_names : List (Uid × Edge) → EdgeType → (Uid → Option Node) → List String
related_node_names [] type lookup = []
related_node_names ((_, e) ∷ es) type lookup =
    let rest = related_node_names es type lookup in
    if type_text e.type == type_text type
    then elim (lookup e.to_uid) [ none ↦ rest | some n ↦ n.name ∷ rest ]
    else rest

unfoldable pub owner_references : List (Uid × Edge) → (Uid → Option Node) → List OwnerReference
owner_references [] lookup = []
owner_references ((_, e) ∷ es) lookup =
    let rest = owner_references es lookup in
    if type_text e.type == "owns"
    then elim (lookup e.from_uid) [
      | none ↦ rest
      | some n ↦ record { kind = n.kind; name = n.name } ∷ rest
    ]
    else rest

-- The loop for the service account, which breaks at the first hit.
unfoldable pub service_account_name : List (Uid × Edge) → (Uid → Option Node) → String
service_account_name [] lookup = ""
service_account_name ((_, e) ∷ es) lookup =
    let rest = service_account_name es lookup in
    if type_text e.type == "uses-sa"
    then elim (lookup e.to_uid) [ none ↦ rest | some n ↦ n.name ]
    else rest

module _ (since : ℕ → ℤ) (rfc3339 : ℕ → String) where
  -- The body of the second loop of `nodesToResources`.
  unfoldable pub resource_of : (Uid → Option Node) → Node → Resource
  unfolding format_age related_node_names owner_references service_account_name
  resource_of lookup n = record {
    name = n.name;
    namespace = n.namespace;
    kind = n.kind;
    api_version = n.api_version;
    status = status_text n.status;
    message = n.status_message;
    chart = n.helm_chart;
    release = n.helm_release;
    age = format_age (since n.creation_timestamp);
    creation_timestamp = rfc3339 n.creation_timestamp;
    image = elim n.metadata [ none ↦ "" | some m ↦ m.image ];
    node_name = elim n.metadata [ none ↦ "" | some m ↦ m.node_name ];
    restart_count = elim n.metadata [ none ↦ pos 0 | some m ↦ m.restart_count ];
    replicas = elim n.metadata [ none ↦ none | some m ↦ m.replicas ];
    owner_references = owner_references n.incoming_edges lookup;
    volume_name = elim n.metadata [ none ↦ "" | some m ↦ m.volume_name ];
    claim_ref = elim n.metadata [ none ↦ none | some m ↦ m.claim_ref ];
    target_pods = related_node_names n.outgoing_edges edge_service_selector lookup;
    mounted_pvcs = related_node_names n.outgoing_edges edge_pod_volume lookup;
    used_config_maps = related_node_names n.outgoing_edges edge_config_map_ref lookup;
    used_secrets = related_node_names n.outgoing_edges edge_secret_ref lookup;
    service_account_name = service_account_name n.outgoing_edges lookup;
  }

  -- `nodesToResources`
  unfoldable pub nodes_to_resources : Graph → List Node → List Resource
  unfolding uid_cache resource_of
  nodes_to_resources g nodes =
      let cache = uid_cache g nodes [] in map (resource_of (λ u. get u cache)) nodes

-- `nodeMap` of `buildGraphResponse`
unfoldable pub node_map : List Node → Dict String Bool → Dict String Bool
node_map [] m = m
node_map (n ∷ nodes) m = node_map nodes (put n.uid true m)

abbrev pub node_response : Node → NodeResponse
node_response n = record {
  uid = n.uid;
  name = n.name;
  namespace = n.namespace;
  kind = n.kind;
  status = status_text n.status;
  message = n.status_message;
  chart = n.helm_chart;
  release = n.helm_release;
  metadata = n.metadata;
}

abbrev pub edge_response : Edge → EdgeResponse
edge_response e = record { type = type_text e.type; from = e.from_uid; to = e.to_uid }

-- The edges of one node, and of all.
unfoldable pub edges_within : Dict String Bool → List (Uid × Edge) → List EdgeResponse
edges_within m [] = []
edges_within m ((_, e) ∷ es) =
    let rest = edges_within m es in if get_or e.to_uid false m then edge_response e ∷ rest else rest

unfoldable pub all_edges_within : Dict String Bool → List Node → List EdgeResponse
unfolding edges_within
all_edges_within m [] = []
all_edges_within m (n ∷ nodes) = edges_within m n.outgoing_edges ++ all_edges_within m nodes

-- `buildGraphResponse`
unfoldable pub build_graph_response : List Node → GraphResponse
unfolding node_map all_edges_within
build_graph_response nodes = record {
  nodes = map node_response nodes;
  edges = all_edges_within (node_map nodes []) nodes;
}
