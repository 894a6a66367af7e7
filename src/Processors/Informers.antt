-- ===== src/Processors/Informers.antt =====
-- pkg/informers: the kinds that the manager watches and with which informers, the events that their informers pass on, and the
-- registration of the handlers. A handler is added by client-go, over its state `W`.
use astrolabe_server.Common.{String, string_key, Option, none, some, List, [], ◌∷◌}
use astrolabe_server.Processors.Interface.{GraphInterface}
use astrolabe_server.Processors.Objects.{Object, EventType, event_add, event_update, event_delete}
use astrolabe_server.Processors.Registry.{process}

-- The informer `factory.Core().V1().Pods()`: the API group, the version and the resource it watches.
pub record Api : Type 0 where
  pub group : String
  pub version : String
  pub resource : String

abbrev pub api : String → String → String → Api
api group version resource = record { group = group; version = version; resource = resource }

-- The pairs of `registers`, in their order.
abbrev pub registers : List (String × Api)
registers =
    ("Pod", api "core" "v1" "pods")
    ∷ ("Service", api "core" "v1" "services")
    ∷ ("ServiceAccount", api "core" "v1" "serviceaccounts")
    ∷ ("ConfigMap", api "core" "v1" "configmaps")
    ∷ ("Secret", api "core" "v1" "secrets")
    ∷ ("PersistentVolumeClaim", api "core" "v1" "persistentvolumeclaims")
    ∷ ("Namespace", api "core" "v1" "namespaces")
    ∷ ("PersistentVolume", api "core" "v1" "persistentvolumes")
    ∷ ("StorageClass", api "storage" "v1" "storageclasses")
    ∷ ("HorizontalPodAutoscaler", api "autoscaling" "v1" "horizontalpodautoscalers")
    ∷ ("PodDisruptionBudget", api "policy" "v1" "poddisruptionbudgets")
    ∷ ("Deployment", api "apps" "v1" "deployments")
    ∷ ("StatefulSet", api "apps" "v1" "statefulsets")
    ∷ ("DaemonSet", api "apps" "v1" "daemonsets")
    ∷ ("ReplicaSet", api "apps" "v1" "replicasets")
    ∷ ("Job", api "batch" "v1" "jobs")
    ∷ ("CronJob", api "batch" "v1" "cronjobs")
    ∷ ("Ingress", api "networking" "v1" "ingresses")
    ∷ ("EndpointSlice", api "discovery" "v1" "endpointslices")
    ∷ []

-- What an informer tells its handler.
pub data Notification : Type 0 where
  added : Object → Notification
  updated : (old new : Object) → Notification
  deleted : Object → Notification

module _ {S : Type 0} (g : GraphInterface S) where
  -- `onEvent`
  abbrev pub on_event : Object → String → EventType → S → S
  on_event obj kind type s = (process g obj kind type s).0

  -- The handler that `register` makes.
  unfoldable pub handler : String → Notification → S → S
  handler kind (added obj) = on_event obj kind event_add
  handler kind (updated old new) = on_event new kind event_update
  handler kind (deleted obj) = on_event obj kind event_delete

module _ {W : Type 0} (add_event_handler : String → Api → W → W × Option String) where
  -- The loop of `registerInformers`, with the errors that it collects.
  unfoldable pub register_all : List (String × Api) → W → W × List String
  register_all [] w = (w, [])
  register_all ((kind, informer) ∷ pairs) w =
      let (w', e) = add_event_handler kind informer w in
      let (w'', errors) = register_all pairs w' in
      (w'', elim e [ none ↦ errors | some cause ↦ cause ∷ errors ])

  -- `registerInformers`, which fails if an error was collected.
  unfoldable pub register_informers : W → W × List String
  unfolding register_all
  register_informers = register_all registers
