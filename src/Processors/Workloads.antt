-- ===== src/Processors/Workloads.antt =====
-- pkg/processors/workloads.go: the processors of the workloads.
use astrolabe_server.Common.{
  zero, suc, String, string_key, Option, none, some, List, [], ◌∷◌, if◌then◌else◌, ◌&&◌,
}
use astrolabe_server.Common.Int.{ℤ, pos, eq_ℤ, positive}
use astrolabe_server.Common.Format.{◌<>◌, decimal, signed_decimal}
use astrolabe_server.Graph.Types.{
  Node, ResourceMetadata, ResourceStatus, status_ready, status_error, status_pending,
}
use astrolabe_server.Processors.Interface.{GraphInterface}
use astrolabe_server.Processors.Objects.{
  ObjectMeta, Container, PodSpec, ReplicaWorkload, DaemonSet, Job, CronJob, Object, ProcessError,
  EventType,
}
use astrolabe_server.Processors.CoreNodes.{first_image}
use astrolabe_server.Processors.Base.{
  new_node_from_object, set_status, set_metadata, no_metadata, create_config_map_secret_edges,
  service_account_edge,
}
use astrolabe_server.Processors.Core.{dispatch, add_owned}

-- `getInt32Value`
unfoldable pub get_int32_value : Option ℤ → ℤ → ℤ
get_int32_value none default = default
get_int32_value (some n) default = n

abbrev of_total : ℤ → ℤ → String
of_total ready desired = signed_decimal ready <> "/" <> signed_decimal desired <> ")"

-- The ladder that the four status functions share, up to their words.
unfoldable pub replica_status : String → String → String → ℤ → ℤ → ResourceStatus × String
unfolding signed_decimal
replica_status nothing all none_ready desired ready =
    if eq_ℤ desired (pos 0) && eq_ℤ ready (pos 0)
    then (status_ready, nothing)
    else if eq_ℤ ready desired
    then (status_ready, all <> of_total ready desired)
    else if eq_ℤ ready (pos 0) && positive desired
    then (status_error, none_ready <> signed_decimal desired <> ")")
    else (status_pending, "Partially ready (" <> of_total ready desired)

-- `getDeploymentStatus`
unfoldable pub get_deployment_status : ReplicaWorkload → ResourceStatus × String
unfolding replica_status get_int32_value
get_deployment_status o =
    replica_status "Scaled to zero (0/0)" "All replicas ready (" "No replicas ready (0/"
      (get_int32_value o.spec_replicas (pos 1)) o.ready_replicas

-- `getStatefulSetStatus`
unfoldable pub get_stateful_set_status : ReplicaWorkload → ResourceStatus × String
unfolding replica_status get_int32_value
get_stateful_set_status o =
    replica_status "Scaled to zero (0/0)" "All replicas ready (" "No replicas ready (0/"
      (get_int32_value o.spec_replicas (pos 1)) o.ready_replicas

-- `getDaemonSetStatus`
unfoldable pub get_daemon_set_status : DaemonSet → ResourceStatus × String
unfolding replica_status
get_daemon_set_status o =
    replica_status "No nodes to schedule (0/0)" "All pods ready (" "No pods ready (0/"
      o.desired_number_scheduled o.number_ready

-- `getReplicaSetStatus`
unfoldable pub get_replica_set_status : ReplicaWorkload → ResourceStatus × String
unfolding replica_status get_int32_value
get_replica_set_status o =
    replica_status "Scaled to zero (0/0)" "All replicas ready (" "No replicas ready (0/"
      (get_int32_value o.spec_replicas (pos 1)) o.ready_replicas

-- `getJobStatus`
unfoldable pub get_job_status : Job → ResourceStatus × String
unfolding signed_decimal
get_job_status o =
    if positive o.succeeded
    then (status_ready, "Job completed successfully")
    else if positive o.failed
    then (status_error, "Job failed (" <> signed_decimal o.failed <> " failures)")
    else if positive o.active
    then (status_pending, "Job is running")
    else (status_pending, "Job is pending")

-- The status of a cron job, which its processor sets in place.
unfoldable pub cron_job_status : CronJob → ResourceStatus × String
unfolding decimal
cron_job_status o = elim o.active [
  | zero ↦ (status_ready, "CronJob scheduled")
  | suc n ↦ (status_pending, decimal (suc n) <> " active job(s)")
]

-- The metadata of a workload with replicas, and of one that has an image at most.
unfoldable pub replica_metadata : ℤ → ℤ → ℤ → ℤ → PodSpec → Option ResourceMetadata
replica_metadata desired current ready available template = some (record no_metadata {
  replicas =
      some (record { desired = desired; current = current; ready = ready; available = available });
  image = first_image template.containers;
})

unfoldable pub image_metadata : List Container → Option ResourceMetadata
image_metadata [] = none
image_metadata (c ∷ _) = some (record no_metadata { image = c.image })

unfoldable pub replica_workload_metadata : ReplicaWorkload → Option ResourceMetadata
unfolding replica_metadata get_int32_value
replica_workload_metadata o =
    replica_metadata (get_int32_value o.spec_replicas (pos 1)) o.replicas o.ready_replicas
      o.available_replicas o.template

abbrev pub as_deployment : Object → Option ReplicaWorkload
as_deployment (Object.deployment o) = some o
as_deployment _ = none

abbrev pub as_stateful_set : Object → Option ReplicaWorkload
as_stateful_set (Object.stateful_set o) = some o
as_stateful_set _ = none

abbrev pub as_replica_set : Object → Option ReplicaWorkload
as_replica_set (Object.replica_set o) = some o
as_replica_set _ = none

abbrev pub as_daemon_set : Object → Option DaemonSet
as_daemon_set (Object.daemon_set o) = some o
as_daemon_set _ = none

abbrev pub as_job : Object → Option Job
as_job (Object.job o) = some o
as_job _ = none

abbrev pub as_cron_job : Object → Option CronJob
as_cron_job (Object.cron_job o) = some o
as_cron_job _ = none

-- `NewNodeFromObject`, the status and the metadata, in the order of the source.
abbrev workload_node :
    ObjectMeta → String → String → ResourceStatus × String → Option ResourceMetadata → Node
workload_node meta kind api status metadata =
    set_metadata metadata (set_status status (new_node_from_object meta kind api))

module _ {S : Type 0} (g : GraphInterface S) where
  -- What every workload does with its node: the ownership edges, the edges to what its pod
  -- template uses, and the edge to its service account.
  unfoldable pub add_workload : Node → ObjectMeta → PodSpec → S → S
  unfolding add_owned create_config_map_secret_edges service_account_edge
  add_workload n meta template s =
      let added = add_owned g n meta s in
      let configured = create_config_map_secret_edges g n.uid n.namespace template added in
      service_account_edge g n.uid meta.namespace template.service_account_name configured

  unfoldable pub process_deployment : Object → EventType → S → S × Option ProcessError
  unfolding dispatch add_workload get_deployment_status replica_workload_metadata
      new_node_from_object set_status set_metadata
  process_deployment obj =
      dispatch g "Deployment" (λ o. o.meta)
        (λ o.
          add_workload
            (workload_node o.meta "Deployment" "apps/v1" (get_deployment_status o)
              (replica_workload_metadata o))
            o.meta o.template)
        (as_deployment obj)

  unfoldable pub process_stateful_set : Object → EventType → S → S × Option ProcessError
  unfolding dispatch add_workload get_stateful_set_status replica_workload_metadata
      new_node_from_object set_status set_metadata
  process_stateful_set obj =
      dispatch g "StatefulSet" (λ o. o.meta)
        (λ o.
          add_workload
            (workload_node o.meta "StatefulSet" "apps/v1" (get_stateful_set_status o)
              (replica_workload_metadata o))
            o.meta o.template)
        (as_stateful_set obj)

  unfoldable pub process_daemon_set : Object → EventType → S → S × Option ProcessError
  unfolding dispatch add_workload get_daemon_set_status replica_metadata new_node_from_object
      set_status set_metadata
  process_daemon_set obj =
      dispatch g "DaemonSet" (λ o. o.meta)
        (λ o.
          add_workload
            (workload_node o.meta "DaemonSet" "apps/v1" (get_daemon_set_status o) (
              replica_metadata o.desired_number_scheduled o.current_number_scheduled o.number_ready
                o.number_available o.template))
            o.meta o.template)
        (as_daemon_set obj)

  -- A replica set without replicas is skipped: an inactive, old version.
  unfoldable pub apply_replica_set : ReplicaWorkload → S → S
  unfolding add_workload get_replica_set_status replica_workload_metadata new_node_from_object
      set_status set_metadata
  apply_replica_set o s =
      if eq_ℤ o.replicas (pos 0) && eq_ℤ o.ready_replicas (pos 0)
      then s
      else add_workload
          (workload_node o.meta "ReplicaSet" "apps/v1" (get_replica_set_status o)
            (replica_workload_metadata o))
          o.meta o.template s

  unfoldable pub process_replica_set : Object → EventType → S → S × Option ProcessError
  unfolding dispatch apply_replica_set
  process_replica_set obj =
      dispatch g "ReplicaSet" (λ o. o.meta) apply_replica_set (as_replica_set obj)

  unfoldable pub process_job : Object → EventType → S → S × Option ProcessError
  unfolding dispatch add_workload get_job_status image_metadata new_node_from_object set_status
      set_metadata
  process_job obj =
      dispatch g "Job" (λ o. o.meta)
        (λ o.
          add_workload
            (workload_node o.meta "Job" "batch/v1" (get_job_status o)
              (image_metadata o.template.containers))
            o.meta o.template)
        (as_job obj)

  unfoldable pub process_cron_job : Object → EventType → S → S × Option ProcessError
  unfolding dispatch add_workload cron_job_status image_metadata new_node_from_object set_status
      set_metadata
  process_cron_job obj =
      dispatch g "CronJob" (λ o. o.meta)
        (λ o.
          add_workload
            (workload_node o.meta "CronJob" "batch/v1" (cron_job_status o)
              (image_metadata o.template.containers))
            o.meta o.template)
        (as_cron_job obj)
