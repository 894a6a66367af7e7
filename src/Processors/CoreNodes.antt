-- ===== src/Processors/CoreNodes.antt =====
-- pkg/processors/core.go: the status of each core resource, and the node that its processor puts
-- together.
use astrolabe_server.Common.{String, string_key, none, some, List, [], ◌∷◌, if◌then◌else◌, ◌==◌}
use astrolabe_server.Common.Int.{ℤ, pos, ◌+ℤ◌}
use astrolabe_server.Common.Format.{◌<>◌}
use astrolabe_server.Graph.Types.{
  Node, ResourceStatus, status_ready, status_error, status_pending, status_unknown,
}
use astrolabe_server.Processors.Objects.{
  ContainerStatus, Container, Pod, Service, PersistentVolumeClaim, PersistentVolume, Namespace,
}
use astrolabe_server.Processors.Base.{new_node_from_object, set_status, set_metadata, no_metadata}

-- The loop of `getPodStatus` over the containers of a running pod.
unfoldable pub running_status : List ContainerStatus → ResourceStatus × String
running_status [] = (status_ready, "Pod is running")
running_status (c ∷ cs) =
    let rest = running_status cs in
    if c.ready then rest else elim c.waiting [
      | some reason ↦ (status_pending, "Container not ready: " <> reason)
      | none ↦ elim c.terminated [
        | some reason ↦ (status_error, "Container terminated: " <> reason)
        | none ↦ rest
      ]
    ]

-- `getPodStatus`
unfoldable pub get_pod_status : Pod → ResourceStatus × String
unfolding running_status
get_pod_status o =
    if o.phase == "Running"
    then running_status o.container_statuses
    else if o.phase == "Pending"
    then (status_pending, "Pod is pending")
    else if o.phase == "Succeeded"
    then (status_ready, "Pod succeeded")
    else if o.phase == "Failed"
    then (status_error, "Pod failed")
    else if o.phase == "Unknown"
    then (status_unknown, "Pod status unknown")
    else (status_unknown, "Unknown phase: " <> o.phase)

-- `getTotalRestartCount`, whose sum of int32 counts is far from the bounds of an int.
unfoldable pub total_restarts : ℤ → List ContainerStatus → ℤ
total_restarts total [] = total
total_restarts total (c ∷ cs) = total_restarts (total +ℤ c.restart_count) cs

abbrev pub first_image : List Container → String
first_image [] = ""
first_image (c ∷ _) = c.image

-- `getPVCStatus`
unfoldable pub get_pvc_status : PersistentVolumeClaim → ResourceStatus × String
get_pvc_status o =
    if o.phase == "Bound"
    then (status_ready, "Bound")
    else if o.phase == "Pending"
    then (status_pending, "Pending")
    else if o.phase == "Lost"
    then (status_error, "Lost")
    else (status_unknown, "Phase: " <> o.phase)

-- `getPVStatus`
unfoldable pub get_pv_status : PersistentVolume → ResourceStatus × String
get_pv_status o =
    if o.phase == "Bound"
    then (status_ready, "Bound")
    else if o.phase == "Available"
    then (status_ready, "Available")
    else if o.phase == "Released"
    then (status_pending, "Released")
    else if o.phase == "Failed"
    then (status_error, "Failed")
    else (status_unknown, "Phase: " <> o.phase)

-- The `switch` of the namespace processor.
unfoldable pub namespace_status : Namespace → ResourceStatus × String
namespace_status o =
    if o.phase == "Active"
    then (status_ready, "Active")
    else if o.phase == "Terminating"
    then (status_pending, "Terminating")
    else (status_unknown, "Phase: " <> o.phase)

-- The nodes that the processors put together.
unfoldable pub pod_node : Pod → Node
unfolding get_pod_status total_restarts new_node_from_object set_status set_metadata
pod_node o =
    set_metadata
      (some (record no_metadata {
        node_name = o.spec.node_name;
        restart_count = total_restarts (pos 0) o.container_statuses;
        image = first_image o.spec.containers;
      }))
      (set_status (get_pod_status o) (new_node_from_object o.meta "Pod" "v1"))

unfoldable pub service_node : Service → Node
unfolding new_node_from_object set_status set_metadata
service_node o =
    set_metadata
      (some (record no_metadata { cluster_ip = o.cluster_ip; service_type = o.service_type }))
      (set_status (status_ready, "Service is active") (new_node_from_object o.meta "Service" "v1"))

unfoldable pub pvc_node : PersistentVolumeClaim → Node
unfolding get_pvc_status new_node_from_object set_status set_metadata
pvc_node o =
    set_metadata (some (record no_metadata { volume_name = o.volume_name }))
      (set_status (get_pvc_status o) (new_node_from_object o.meta "PersistentVolumeClaim" "v1"))

unfoldable pub pv_node : PersistentVolume → Node
unfolding get_pv_status new_node_from_object set_status set_metadata
pv_node o =
    let n = set_status (get_pv_status o) (new_node_from_object o.meta "PersistentVolume" "v1") in
    elim o.claim_ref [
      | none ↦ n
      | some ref ↦
          set_metadata
            (some (record no_metadata {
              claim_ref = some (record {
                kind = "PersistentVolumeClaim";
                namespace = ref.namespace;
                name = ref.name;
                uid = ref.uid;
              });
            }))
            n
    ]
