-- ===== src/Graph/Types.antt =====
-- pkg/graph/types.go: the data of the graph. A `Node` of the source is split in two. `NodeData` is
-- one version of its fields, as a pointer in an index sees them; `Node` is the object that the
-- main map holds, with the edge maps. When a node is updated in place, the new object takes over
-- the edge maps of the old one, so that all the versions of a node share the maps, and the indexes
-- go on pointing at an old version of the fields.
use astrolabe_server.Common.{ℕ, String, List, Option, Key, str_dec}
use astrolabe_server.Common.Dict.{Dict}
use astrolabe_server.Common.Int.{ℤ}

abbrev pub Uid : Type 0
Uid = String

pub data ResourceStatus : Type 0 where
  status_ready status_error status_pending status_unknown : ResourceStatus

pub data EdgeType : Type 0 where
  edge_ownership edge_service_selector edge_service_endpoint edge_ingress_backend : EdgeType
  edge_pod_volume edge_pvc_binding edge_config_map_ref edge_secret_ref : EdgeType
  edge_service_account edge_hpa_target : EdgeType

pub record ReplicaInfo : Type 0 where
  pub desired : ℤ
  pub current : ℤ
  pub ready : ℤ
  pub available : ℤ

pub record ObjectReference : Type 0 where
  pub kind : String
  pub namespace : String
  pub name : String
  pub uid : Uid

pub record ResourceMetadata : Type 0 where
  pub node_name : String
  pub image : String
  pub restart_count : ℤ
  pub replicas : Option ReplicaInfo
  pub volume_name : String
  pub claim_ref : Option ObjectReference
  pub cluster_ip : String
  pub service_type : String
  pub ingress_class : String
  pub scale_target_ref : Option ObjectReference
  pub min_replicas : Option ℤ
  pub max_replicas : ℤ
  pub current_replicas : ℤ
  pub desired_replicas : ℤ

pub record Edge : Type 0 where
  pub type : EdgeType
  pub from_uid : Uid
  pub to_uid : Uid
  pub metadata : Dict String String

-- `creation_timestamp` counts seconds.
pub record NodeData : Type 0 where
  pub uid : Uid
  pub name : String
  pub namespace : String
  pub kind : String
  pub api_version : String
  pub resource_version : String
  pub labels : Dict String String
  pub annotations : Dict String String
  pub creation_timestamp : ℕ
  pub status : ResourceStatus
  pub status_message : String
  pub helm_chart : String
  pub helm_release : String
  pub metadata : Option ResourceMetadata

pub record Node : Type 0 where
  pub fields : NodeData
  pub open fields use *
  pub outgoing_edges : Dict Uid Edge
  pub incoming_edges : Dict Uid Edge

pub record GroupVersionKind : Type 0 where
  pub group : String
  pub version : String
  pub kind : String

pub record RefKey : Type 0 where
  pub gvk : GroupVersionKind
  pub namespace : String
  pub name : String

unfoldable pub GroupVersionKind-discrete : Discrete GroupVersionKind
GroupVersionKind-discrete = hlevel str_dec

unfoldable pub RefKey-discrete : Discrete RefKey
unfolding GroupVersionKind-discrete str_dec
RefKey-discrete = hlevel (GroupVersionKind-discrete, str_dec)

instance abbrev pub ref_key : Key RefKey
ref_key = record { dec = RefKey-discrete }

pub record PendingEdge : Type 0 where
  pub from_uid : Uid
  pub target_ref : RefKey
  pub edge_type : EdgeType

pub record ReversePendingEdge : Type 0 where
  pub to_uid : Uid
  pub source_ref : RefKey
  pub edge_type : EdgeType

pub record Graph : Type 0 where
  pub nodes : Dict Uid Node
  pub by_namespace_kind : Dict String (Dict String (List NodeData))
  pub by_helm_release : Dict String (List NodeData)
  pub by_label : Dict String (Dict String (List NodeData))
  pub pending_edges : Dict RefKey (List PendingEdge)
  pub reverse_pending_edges : Dict RefKey (List ReversePendingEdge)
