-- ===== src/Processors/Registry.antt =====
-- pkg/processors/registry.go: the processors by kind.
use astrolabe_server.Common.{String, string_key, Option, none, some, [], ◌∷◌}
use astrolabe_server.Common.Dict.{Dict, get}
use astrolabe_server.Processors.Interface.{GraphInterface}
use astrolabe_server.Processors.Objects.{Object, ProcessError, EventType}
use astrolabe_server.Processors.Core.{
  process_pod, process_service, process_service_account, process_config_map, process_secret,
  process_pvc, process_pv, process_namespace,
}
use astrolabe_server.Processors.Workloads.{
  process_deployment, process_stateful_set, process_daemon_set, process_replica_set, process_job,
  process_cron_job,
}
use astrolabe_server.Processors.Networking.{
  process_ingress, process_endpoint_slice, process_storage_class, process_hpa, process_pdb,
}

abbrev pub Processor : Type 0 → Type 0
Processor S = Object → EventType → S → S × Option ProcessError

module _ {S : Type 0} (g : GraphInterface S) where
  -- `registerProcessors`
  unfoldable pub processors : Dict String (Processor S)
  processors =
      ("Pod", process_pod g)
      ∷ ("Service", process_service g)
      ∷ ("ServiceAccount", process_service_account g)
      ∷ ("ConfigMap", process_config_map g)
      ∷ ("Secret", process_secret g)
      ∷ ("PersistentVolumeClaim", process_pvc g)
      ∷ ("PersistentVolume", process_pv g)
      ∷ ("Namespace", process_namespace g)
      ∷ ("Deployment", process_deployment g)
      ∷ ("StatefulSet", process_stateful_set g)
      ∷ ("DaemonSet", process_daemon_set g)
      ∷ ("ReplicaSet", process_replica_set g)
      ∷ ("Job", process_job g)
      ∷ ("CronJob", process_cron_job g)
      ∷ ("Ingress", process_ingress g)
      ∷ ("EndpointSlice", process_endpoint_slice g)
      ∷ ("StorageClass", process_storage_class g)
      ∷ ("HorizontalPodAutoscaler", process_hpa g)
      ∷ ("PodDisruptionBudget", process_pdb g)
      ∷ []

  -- `Process` of the registry, with the error that it logs.
  unfoldable pub process : Object → String → EventType → S → S × Option ProcessError
  unfolding processors
  process obj kind event s = elim (get kind processors) [
    | none ↦ (s, none)
    | some processor ↦ processor obj event s
  ]
