-- ===== src/Processors/Deletions.antt =====
-- What the processors of pkg/processors make of the deletion of an object: of the type that they
-- expect, of another type, or wrapped in a tombstone.
use astrolabe_server.Common.{
  String, str_dec, string_key, Option, none, some, List, [], ◌∷◌, ◌≡◌, refl, Option-cases, inl, inr,
  Bool, false, ◌&&◌, ◌==◌, if◌then◌else◌, arith, if_pos, if_neg, subst,
}
use astrolabe_server.Common.Dict.{Dict, get}
use astrolabe_server.Processors.Interface.{GraphInterface}
use astrolabe_server.Processors.Objects.{Object, ObjectMeta, ProcessError, expected, event_delete}
use astrolabe_server.Processors.Core.{
  process_pod, process_service, process_service_account, process_config_map, process_secret,
  process_pvc, process_pv, process_namespace,
}
use astrolabe_server.Processors.Workloads.{
  process_deployment, process_stateful_set, process_daemon_set, process_replica_set, process_job,
  process_cron_job,
}
use astrolabe_server.Processors.Networking.{
  process_ingress, process_endpoint_slice, process_storage_class, process_hpa, process_pdb,
}
use astrolabe_server.Processors.Registry.{Processor, processors, process}
use astrolabe_server.Processors.Informers.{Api, api}

-- The API type of an object; a tombstone has none, whatever it carries.
abbrev pub api_of : Object → Option Api
api_of (Object.pod _) = some (api "core" "v1" "pods")
api_of (Object.service _) = some (api "core" "v1" "services")
api_of (Object.service_account _) = some (api "core" "v1" "serviceaccounts")
api_of (Object.config_map _) = some (api "core" "v1" "configmaps")
api_of (Object.secret _) = some (api "core" "v1" "secrets")
api_of (Object.persistent_volume_claim _) = some (api "core" "v1" "persistentvolumeclaims")
api_of (Object.persistent_volume _) = some (api "core" "v1" "persistentvolumes")
api_of (Object.namespace _) = some (api "core" "v1" "namespaces")
api_of (Object.deployment _) = some (api "apps" "v1" "deployments")
api_of (Object.stateful_set _) = some (api "apps" "v1" "statefulsets")
api_of (Object.daemon_set _) = some (api "apps" "v1" "daemonsets")
api_of (Object.replica_set _) = some (api "apps" "v1" "replicasets")
api_of (Object.job _) = some (api "batch" "v1" "jobs")
api_of (Object.cron_job _) = some (api "batch" "v1" "cronjobs")
api_of (Object.ingress _) = some (api "networking" "v1" "ingresses")
api_of (Object.endpoint_slice _) = some (api "discovery" "v1" "endpointslices")
api_of (Object.storage_class _) = some (api "storage" "v1" "storageclasses")
api_of (Object.horizontal_pod_autoscaler_v2 _) =
    some (api "autoscaling" "v2" "horizontalpodautoscalers")
api_of (Object.pod_disruption_budget _) = some (api "policy" "v1" "poddisruptionbudgets")
api_of (Object.horizontal_pod_autoscaler_v1 _) =
    some (api "autoscaling" "v1" "horizontalpodautoscalers")
api_of (Object.tombstone _ _) = none
api_of (Object.other _ _) = none

abbrev pub meta_of : Object → ObjectMeta
meta_of (Object.pod o) = o.meta
meta_of (Object.service o) = o.meta
meta_of (Object.service_account o) = o
meta_of (Object.config_map o) = o
meta_of (Object.secret o) = o.meta
meta_of (Object.persistent_volume_claim o) = o.meta
meta_of (Object.persistent_volume o) = o.meta
meta_of (Object.namespace o) = o.meta
meta_of (Object.deployment o) = o.meta
meta_of (Object.stateful_set o) = o.meta
meta_of (Object.daemon_set o) = o.meta
meta_of (Object.replica_set o) = o.meta
meta_of (Object.job o) = o.meta
meta_of (Object.cron_job o) = o.meta
meta_of (Object.ingress o) = o.meta
meta_of (Object.endpoint_slice o) = o.meta
meta_of (Object.storage_class o) = o
meta_of (Object.horizontal_pod_autoscaler_v2 o) = o.meta
meta_of (Object.pod_disruption_budget o) = o.meta
meta_of (Object.horizontal_pod_autoscaler_v1 o) = o
meta_of (Object.tombstone _ obj) = meta_of obj
meta_of (Object.other _ o) = o

-- The type that the processor of each kind expects.
abbrev pub expected_apis : Dict String Api
expected_apis =
    ("Pod", api "core" "v1" "pods")
    ∷ ("Service", api "core" "v1" "services")
    ∷ ("ServiceAccount", api "core" "v1" "serviceaccounts")
    ∷ ("ConfigMap", api "core" "v1" "configmaps")
    ∷ ("Secret", api "core" "v1" "secrets")
    ∷ ("PersistentVolumeClaim", api "core" "v1" "persistentvolumeclaims")
    ∷ ("PersistentVolume", api "core" "v1" "persistentvolumes")
    ∷ ("Namespace", api "core" "v1" "namespaces")
    ∷ ("Deployment", api "apps" "v1" "deployments")
    ∷ ("StatefulSet", api "apps" "v1" "statefulsets")
    ∷ ("DaemonSet", api "apps" "v1" "daemonsets")
    ∷ ("ReplicaSet", api "apps" "v1" "replicasets")
    ∷ ("Job", api "batch" "v1" "jobs")
    ∷ ("CronJob", api "batch" "v1" "cronjobs")
    ∷ ("Ingress", api "networking" "v1" "ingresses")
    ∷ ("EndpointSlice", api "discovery" "v1" "endpointslices")
    ∷ ("StorageClass", api "storage" "v1" "storageclasses")
    ∷ ("HorizontalPodAutoscaler", api "autoscaling" "v2" "horizontalpodautoscalers")
    ∷ ("PodDisruptionBudget", api "policy" "v1" "poddisruptionbudgets")
    ∷ []

abbrev pub is_api : Api → Option Api → Bool
is_api a none = false
is_api a (some b) = a.group == b.group && a.version == b.version && a.resource == b.resource

module _ {S : Type 0} (g : GraphInterface S) where
  -- What a deletion of `obj` under `kind` is to do.
  abbrev pub deletion : String → Object → S → S × Option ProcessError
  deletion kind obj s = elim (get kind expected_apis) [
    | none ↦ (s, none)
    | some a ↦
        if is_api a (api_of obj)
        then (g.remove_node (meta_of obj).uid s, none)
        else (s, some (expected kind))
  ]

  process_pod-delete :
      (obj : Object) (s : S) → process_pod g obj event_delete s ≡ deletion "Pod" obj s
  unfolding process_pod get str_dec
  process_pod-delete (Object.pod o) s = refl
  process_pod-delete _ s = refl

  process_service-delete :
      (obj : Object) (s : S) → process_service g obj event_delete s ≡ deletion "Service" obj s
  unfolding process_service get str_dec
  process_service-delete (Object.service o) s = refl
  process_service-delete _ s = refl

  process_service_account-delete :
      (obj : Object) (s : S)
      → process_service_account g obj event_delete s ≡ deletion "ServiceAccount" obj s
  unfolding process_service_account get str_dec
  process_service_account-delete (Object.service_account o) s = refl
  process_service_account-delete _ s = refl

  process_config_map-delete :
      (obj : Object) (s : S) → process_config_map g obj event_delete s ≡ deletion "ConfigMap" obj s
  unfolding process_config_map get str_dec
  process_config_map-delete (Object.config_map o) s = refl
  process_config_map-delete _ s = refl

  process_secret-delete :
      (obj : Object) (s : S) → process_secret g obj event_delete s ≡ deletion "Secret" obj s
  unfolding process_secret get str_dec
  process_secret-delete (Object.secret o) s = refl
  process_secret-delete _ s = refl

  process_pvc-delete :
      (obj : Object) (s : S)
      → process_pvc g obj event_delete s ≡ deletion "PersistentVolumeClaim" obj s
  unfolding process_pvc get str_dec
  process_pvc-delete (Object.persistent_volume_claim o) s = refl
  process_pvc-delete _ s = refl

  process_pv-delete :
      (obj : Object) (s : S) → process_pv g obj event_delete s ≡ deletion "PersistentVolume" obj s
  unfolding process_pv get str_dec
  process_pv-delete (Object.persistent_volume o) s = refl
  process_pv-delete _ s = refl

  process_namespace-delete :
      (obj : Object) (s : S) → process_namespace g obj event_delete s ≡ deletion "Namespace" obj s
  unfolding process_namespace get str_dec
  process_namespace-delete (Object.namespace o) s = refl
  process_namespace-delete _ s = refl

  process_deployment-delete :
      (obj : Object) (s : S) → process_deployment g obj event_delete s ≡ deletion "Deployment" obj s
  unfolding process_deployment get str_dec
  process_deployment-delete (Object.deployment o) s = refl
  process_deployment-delete _ s = refl

  process_stateful_set-delete :
      (obj : Object) (s : S)
      → process_stateful_set g obj event_delete s ≡ deletion "StatefulSet" obj s
  unfolding process_stateful_set get str_dec
  process_stateful_set-delete (Object.stateful_set o) s = refl
  process_stateful_set-delete _ s = refl

  process_daemon_set-delete :
      (obj : Object) (s : S) → process_daemon_set g obj event_delete s ≡ deletion "DaemonSet" obj s
  unfolding process_daemon_set get str_dec
  process_daemon_set-delete (Object.daemon_set o) s = refl
  process_daemon_set-delete _ s = refl

  process_replica_set-delete :
      (obj : Object) (s : S)
      → process_replica_set g obj event_delete s ≡ deletion "ReplicaSet" obj s
  unfolding process_replica_set get str_dec
  process_replica_set-delete (Object.replica_set o) s = refl
  process_replica_set-delete _ s = refl

  process_job-delete :
      (obj : Object) (s : S) → process_job g obj event_delete s ≡ deletion "Job" obj s
  unfolding process_job get str_dec
  process_job-delete (Object.job o) s = refl
  process_job-delete _ s = refl

  process_cron_job-delete :
      (obj : Object) (s : S) → process_cron_job g obj event_delete s ≡ deletion "CronJob" obj s
  unfolding process_cron_job get str_dec
  process_cron_job-delete (Object.cron_job o) s = refl
  process_cron_job-delete _ s = refl

  process_ingress-delete :
      (obj : Object) (s : S) → process_ingress g obj event_delete s ≡ deletion "Ingress" obj s
  unfolding process_ingress get str_dec
  process_ingress-delete (Object.ingress o) s = refl
  process_ingress-delete _ s = refl

  process_endpoint_slice-delete :
      (obj : Object) (s : S)
      → process_endpoint_slice g obj event_delete s ≡ deletion "EndpointSlice" obj s
  unfolding process_endpoint_slice get str_dec
  process_endpoint_slice-delete (Object.endpoint_slice o) s = refl
  process_endpoint_slice-delete _ s = refl

  process_storage_class-delete :
      (obj : Object) (s : S)
      → process_storage_class g obj event_delete s ≡ deletion "StorageClass" obj s
  unfolding process_storage_class get str_dec
  process_storage_class-delete (Object.storage_class o) s = refl
  process_storage_class-delete _ s = refl

  process_hpa-delete :
      (obj : Object) (s : S)
      → process_hpa g obj event_delete s ≡ deletion "HorizontalPodAutoscaler" obj s
  unfolding process_hpa get str_dec
  process_hpa-delete (Object.horizontal_pod_autoscaler_v2 o) s = refl
  process_hpa-delete _ s = refl

  process_pdb-delete :
      (obj : Object) (s : S)
      → process_pdb g obj event_delete s ≡ deletion "PodDisruptionBudget" obj s
  unfolding process_pdb get str_dec
  process_pdb-delete (Object.pod_disruption_budget o) s = refl
  process_pdb-delete _ s = refl

  abbrev Deletes : String → Processor S → Type 0
  Deletes kind f = (obj : Object) (s : S) → f obj event_delete s ≡ deletion kind obj s

  abbrev AllDelete : List (String × Processor S) → Type 0
  AllDelete [] = Unit
  AllDelete ((kind, f) ∷ table) = Deletes kind f × AllDelete table

  abbrev FoundDeletes : String → Option (Processor S) → Type 0
  FoundDeletes kind none = Unit
  FoundDeletes kind (some f) = Deletes kind f

  get-AllDelete :
      (kind : String) (table : List (String × Processor S))
      → AllDelete table
      → FoundDeletes kind (get kind table)
  unfolding get
  get-AllDelete kind [] a = tt
  get-AllDelete kind ((j, h) ∷ table) a = elim (str_dec j kind) [
    | yes p ↦ rw (if_pos _ p) (subst (λ k. Deletes k h) p a.0)
    | no p ↦ rw (if_neg _ p) (get-AllDelete kind table a.1)
  ]

  processors-AllDelete : AllDelete (processors g)
  unfolding processors
  processors-AllDelete = (
    process_pod-delete,
    (
      process_service-delete,
      (
        process_service_account-delete,
        (
          process_config_map-delete,
          (
            process_secret-delete,
            (
              process_pvc-delete,
              (
                process_pv-delete,
                (
                  process_namespace-delete,
                  (
                    process_deployment-delete,
                    (
                      process_stateful_set-delete,
                      (
                        process_daemon_set-delete,
                        (
                          process_replica_set-delete,
                          (
                            process_job-delete,
                            (
                              process_cron_job-delete,
                              (
                                process_ingress-delete,
                                (
                                  process_endpoint_slice-delete,
                                  (
                                    process_storage_class-delete,
                                    (process_hpa-delete, (process_pdb-delete, tt)),
                                  ),
                                ),
                              ),
                            ),
                          ),
                        ),
                      ),
                    ),
                  ),
                ),
              ),
            ),
          ),
        ),
      ),
    ),
  )

  expected_apis-none :
      (kind : String) → get kind (processors g) ≡ none → get kind expected_apis ≡ none
  unfolding processors get
  expected_apis-none kind h = ground arith

  -- A deletion that is passed on under a kind: if the registry has a processor for the kind and the
  -- object is of the API type that the processor expects, the node with its UID is removed and
  -- there is no error. Any other object, a tombstone that carries an object of that type included,
  -- changes nothing and is an error, and under a kind without a processor nothing happens.
  pub process_delete_exact :
      (obj : Object) (kind : String) (s : S)
      → process g obj kind event_delete s ≡ deletion kind obj s
  unfolding process
  process_delete_exact obj kind s = elim (Option-cases (get kind (processors g))) [
    | inl p ↦ rw (p, process, expected_apis-none kind p, deletion)
    | inr (f, p) ↦
        rw (p, process)
          (subst (FoundDeletes kind) p (get-AllDelete kind (processors g) processors-AllDelete) obj
            s)
  ]
