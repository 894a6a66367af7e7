-- ===== src/Processors/Objects.antt =====
-- The Kubernetes objects that the processors of pkg/processors read, with the fields that they
-- read: the structs belong to k8s.io/api and k8s.io/apimachinery. A pointer or an interface that
-- may be nil is an `Option`; a nil map or slice is an empty one; a field of a nested struct that
-- only leads to one value, such as `volume.Secret.SecretName`, is that value.
use astrolabe_server.Common.{ℕ, String, Bool, Option, List}
use astrolabe_server.Common.Dict.{Dict}
use astrolabe_server.Graph.Types.{Uid}
use astrolabe_server.Common.Int.{ℤ}

pub data EventType : Type 0 where
  event_add event_update event_delete : EventType

pub record OwnerReference : Type 0 where
  pub uid : Uid
  pub kind : String
  pub name : String

pub record ObjectMeta : Type 0 where
  pub uid : Uid
  pub name : String
  pub namespace : String
  pub resource_version : String
  pub labels : Dict String String
  pub annotations : Dict String String
  pub creation_timestamp : ℕ
  pub owner_references : List OwnerReference

pub record EnvFrom : Type 0 where
  pub config_map_ref : Option String
  pub secret_ref : Option String

pub record EnvSource : Type 0 where
  pub config_map_key_ref : Option String
  pub secret_key_ref : Option String

pub record Container : Type 0 where
  pub image : String
  pub env_from : List EnvFrom
  -- `env.ValueFrom` of each variable
  pub env : List (Option EnvSource)

pub record Volume : Type 0 where
  pub persistent_volume_claim : Option String
  pub config_map : Option String
  pub secret : Option String

pub record PodSpec : Type 0 where
  pub node_name : String
  pub containers : List Container
  pub volumes : List Volume
  pub service_account_name : String

-- The reasons of the states waiting and terminated.
pub record ContainerStatus : Type 0 where
  pub ready : Bool
  pub waiting : Option String
  pub terminated : Option String
  pub restart_count : ℤ

pub record Pod : Type 0 where
  pub meta : ObjectMeta
  pub spec : PodSpec
  pub phase : String
  pub container_statuses : List ContainerStatus

pub record Service : Type 0 where
  pub meta : ObjectMeta
  pub cluster_ip : String
  pub service_type : String

pub record Secret : Type 0 where
  pub meta : ObjectMeta
  pub type : String

pub record PersistentVolumeClaim : Type 0 where
  pub meta : ObjectMeta
  pub volume_name : String
  pub phase : String

pub record ClaimRef : Type 0 where
  pub namespace : String
  pub name : String
  pub uid : Uid

pub record PersistentVolume : Type 0 where
  pub meta : ObjectMeta
  pub claim_ref : Option ClaimRef
  pub phase : String

pub record Namespace : Type 0 where
  pub meta : ObjectMeta
  pub phase : String

-- Deployments, StatefulSets and ReplicaSets.
pub record ReplicaWorkload : Type 0 where
  pub meta : ObjectMeta
  pub spec_replicas : Option ℤ
  pub template : PodSpec
  pub replicas : ℤ
  pub ready_replicas : ℤ
  pub available_replicas : ℤ

pub record DaemonSet : Type 0 where
  pub meta : ObjectMeta
  pub template : PodSpec
  pub desired_number_scheduled : ℤ
  pub current_number_scheduled : ℤ
  pub number_ready : ℤ
  pub number_available : ℤ

pub record Job : Type 0 where
  pub meta : ObjectMeta
  pub template : PodSpec
  pub succeeded : ℤ
  pub failed : ℤ
  pub active : ℤ

pub record CronJob : Type 0 where
  pub meta : ObjectMeta
  pub template : PodSpec
  -- `len(cronJob.Status.Active)`
  pub active : ℕ

pub record Ingress : Type 0 where
  pub meta : ObjectMeta
  -- `len(ingress.Status.LoadBalancer.Ingress)`
  pub load_balancers : ℕ
  pub ingress_class_name : Option String
  -- For each rule the backends of its HTTP paths: the name of a service, or another resource.
  pub rules : List (Option (List (Option String)))
  pub default_backend : Option (Option String)

pub record TargetRef : Type 0 where
  pub kind : String
  pub name : String

pub record Endpoint : Type 0 where
  pub ready : Option Bool
  pub target_ref : Option TargetRef

pub record EndpointSlice : Type 0 where
  pub meta : ObjectMeta
  pub endpoints : List Endpoint

pub record Condition : Type 0 where
  pub type : String
  pub status : String

pub record HorizontalPodAutoscaler : Type 0 where
  pub meta : ObjectMeta
  pub scale_target_ref : TargetRef
  pub min_replicas : Option ℤ
  pub max_replicas : ℤ
  pub current_replicas : ℤ
  pub desired_replicas : ℤ
  pub conditions : List Condition

pub record PodDisruptionBudget : Type 0 where
  pub meta : ObjectMeta
  pub current_healthy : ℤ
  pub desired_healthy : ℤ
  -- `MatchLabels` of the selector, if there is a selector
  pub selector : Option (Dict String String)

-- The dynamic type of an `obj interface{}`. `tombstone` is the `cache.DeletedFinalStateUnknown` with
-- the key and the last known state of an object whose deletion the watch missed; `other` is an
-- object of any other API type, of which only the metadata matters.
pub data Object : Type 0 where
  pod : Pod → Object
  service : Service → Object
  service_account config_map : ObjectMeta → Object
  secret : Secret → Object
  persistent_volume_claim : PersistentVolumeClaim → Object
  persistent_volume : PersistentVolume → Object
  namespace : Namespace → Object
  deployment stateful_set replica_set : ReplicaWorkload → Object
  daemon_set : DaemonSet → Object
  job : Job → Object
  cron_job : CronJob → Object
  ingress : Ingress → Object
  endpoint_slice : EndpointSlice → Object
  storage_class : ObjectMeta → Object
  horizontal_pod_autoscaler_v2 : HorizontalPodAutoscaler → Object
  pod_disruption_budget : PodDisruptionBudget → Object
  horizontal_pod_autoscaler_v1 : ObjectMeta → Object
  tombstone : String → Object → Object
  other : String → ObjectMeta → Object

-- `fmt.Errorf("expected …, got %T", obj)`
pub data ProcessError : Type 0 where
  expected : String → ProcessError
