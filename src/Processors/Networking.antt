-- ===== src/Processors/Networking.antt =====
-- pkg/processors/networking.go: the processors of the networking, storage, autoscaling and policy
-- resources.
use astrolabe_server.Common.{
  ℕ, zero, suc, String, string_key, Bool, false, Option, none, some, List, [], ◌∷◌, if◌then◌else◌,
  ◌==◌, ◌&&◌, ◌||◌,
}
use astrolabe_server.Common.Dict.{get}
use astrolabe_server.Common.Int.{le_ℤ}
use astrolabe_server.Common.Format.{◌<>◌, decimal, signed_decimal}
use astrolabe_server.Graph.Types.{
  Uid, Node, ResourceStatus, status_ready, status_pending, edge_ingress_backend,
  edge_service_endpoint, edge_service_selector, edge_hpa_target,
}
use astrolabe_server.Processors.Interface.{GraphInterface}
use astrolabe_server.Processors.Objects.{
  ObjectMeta, Ingress, Endpoint, EndpointSlice, TargetRef, Condition, HorizontalPodAutoscaler,
  PodDisruptionBudget, Object, ProcessError, EventType,
}
use astrolabe_server.Processors.Base.{
  new_node_from_object, set_status, set_metadata, no_metadata, for_each, when_some,
  create_edge_or_pending, create_reverse_edge_or_pending, find_nodes_by_label_selector,
}
use astrolabe_server.Processors.Core.{dispatch, add_owned}

-- The status of an ingress, of an endpoint slice, of an autoscaler and of a disruption budget.
unfoldable pub ingress_status : Ingress → ResourceStatus × String
ingress_status o = elim o.load_balancers [
  | zero ↦ (status_pending, "Waiting for load balancer")
  | suc _ ↦ (status_ready, "Ingress has load balancer")
]

unfoldable pub ready_count : List Endpoint → ℕ
ready_count [] = 0
ready_count (e ∷ es) = elim e.ready [
  | none ↦ ready_count es
  | some ready ↦ if ready then suc (ready_count es) else ready_count es
]

unfoldable pub endpoint_slice_status : ℕ → ResourceStatus × String
unfolding decimal
endpoint_slice_status zero = (status_pending, "No ready endpoints")
endpoint_slice_status (suc n) = (status_ready, decimal (suc n) <> " ready endpoint(s)")

unfoldable pub able_to_scale : List Condition → Bool
able_to_scale [] = false
able_to_scale (c ∷ cs) = c.type == "AbleToScale" && c.status == "True" || able_to_scale cs

unfoldable pub hpa_status : HorizontalPodAutoscaler → ResourceStatus × String
unfolding able_to_scale signed_decimal
hpa_status o =
    if able_to_scale o.conditions
    then (
      status_ready,
      "Scaling: "
          <> signed_decimal o.current_replicas
          <> "/"
          <> signed_decimal o.desired_replicas
          <> " replicas",
    )
    else (status_pending, "Unable to scale")

unfoldable pub pdb_status : PodDisruptionBudget → ResourceStatus × String
unfolding signed_decimal
pdb_status o =
    let counts = signed_decimal o.current_healthy <> "/" <> signed_decimal o.desired_healthy in
    if le_ℤ o.desired_healthy o.current_healthy
    then (status_ready, "Healthy: " <> counts)
    else (status_pending, "Unhealthy: " <> counts)

-- The nodes.
unfoldable pub ingress_node : Ingress → Node
unfolding ingress_status new_node_from_object set_status set_metadata
ingress_node o =
    let n =
      set_status (ingress_status o)
        (new_node_from_object o.meta "Ingress" "networking.k8s.io/v1") in
    elim o.ingress_class_name [
      | none ↦ n
      | some class ↦ set_metadata (some (record no_metadata { ingress_class = class })) n
    ]

unfoldable pub endpoint_slice_node : EndpointSlice → Node
unfolding ready_count endpoint_slice_status new_node_from_object set_status
endpoint_slice_node o =
    set_status (endpoint_slice_status (ready_count o.endpoints))
      (new_node_from_object o.meta "EndpointSlice" "discovery.k8s.io/v1")

unfoldable pub hpa_node : HorizontalPodAutoscaler → Node
unfolding hpa_status new_node_from_object set_status set_metadata
hpa_node o =
    set_metadata
      (some (record no_metadata {
        scale_target_ref = some (record {
          kind = o.scale_target_ref.kind;
          namespace = "";
          name = o.scale_target_ref.name;
          uid = "";
        });
        min_replicas = o.min_replicas;
        max_replicas = o.max_replicas;
        current_replicas = o.current_replicas;
        desired_replicas = o.desired_replicas;
      }))
      (set_status (hpa_status o)
        (new_node_from_object o.meta "HorizontalPodAutoscaler" "autoscaling/v2"))

unfoldable pub pdb_node : PodDisruptionBudget → Node
unfolding pdb_status new_node_from_object set_status
pdb_node o =
    set_status (pdb_status o) (new_node_from_object o.meta "PodDisruptionBudget" "policy/v1")

abbrev pub as_ingress : Object → Option Ingress
as_ingress (Object.ingress o) = some o
as_ingress _ = none

abbrev pub as_endpoint_slice : Object → Option EndpointSlice
as_endpoint_slice (Object.endpoint_slice o) = some o
as_endpoint_slice _ = none

abbrev pub as_storage_class : Object → Option ObjectMeta
as_storage_class (Object.storage_class o) = some o
as_storage_class _ = none

abbrev pub as_hpa : Object → Option HorizontalPodAutoscaler
as_hpa (Object.horizontal_pod_autoscaler_v2 o) = some o
as_hpa _ = none

abbrev pub as_pdb : Object → Option PodDisruptionBudget
as_pdb (Object.pod_disruption_budget o) = some o
as_pdb _ = none

module _ {S : Type 0} (g : GraphInterface S) where
  -- The edge from an ingress to the service of one backend.
  unfoldable pub backend_edge : ObjectMeta → String → S → S
  unfolding create_edge_or_pending
  backend_edge meta service =
      create_edge_or_pending g meta.uid meta.namespace "Service" service edge_ingress_backend

  unfoldable pub apply_ingress : Ingress → S → S
  unfolding ingress_node add_owned for_each when_some backend_edge
  apply_ingress o s =
      let added = add_owned g (ingress_node o) o.meta s in
      let routed =
        for_each (when_some (for_each (when_some (backend_edge o.meta)))) o.rules added in
      when_some (when_some (backend_edge o.meta)) o.default_backend routed

  unfoldable pub process_ingress : Object → EventType → S → S × Option ProcessError
  unfolding dispatch apply_ingress
  process_ingress obj = dispatch g "Ingress" (λ o. o.meta) apply_ingress (as_ingress obj)

  -- The edge from an endpoint slice to the pod of one endpoint.
  unfoldable pub target_edge : ObjectMeta → TargetRef → S → S
  unfolding create_edge_or_pending
  target_edge meta target s =
      if target.kind == "Pod"
      then create_edge_or_pending g meta.uid meta.namespace "Pod" target.name edge_service_selector
          s
      else s

  unfoldable pub apply_endpoint_slice : EndpointSlice → S → S
  unfolding endpoint_slice_node add_owned for_each when_some target_edge
      create_reverse_edge_or_pending
  apply_endpoint_slice o s =
      let added = add_owned g (endpoint_slice_node o) o.meta s in
      let served =
        when_some
          (λ service.
            create_reverse_edge_or_pending g o.meta.uid o.meta.namespace "Service" service
              edge_service_endpoint)
          (get "kubernetes.io/service-name" o.meta.labels) added in
      for_each (λ e. when_some (target_edge o.meta) e.target_ref) o.endpoints served

  unfoldable pub process_endpoint_slice : Object → EventType → S → S × Option ProcessError
  unfolding dispatch apply_endpoint_slice
  process_endpoint_slice obj =
      dispatch g "EndpointSlice" (λ o. o.meta) apply_endpoint_slice (as_endpoint_slice obj)

  unfoldable pub process_storage_class : Object → EventType → S → S × Option ProcessError
  unfolding dispatch new_node_from_object set_status
  process_storage_class obj =
      dispatch g "StorageClass" (λ o. o)
        (λ o. g.add_node (
          set_status (status_ready, "StorageClass exists")
            (new_node_from_object o "StorageClass" "storage.k8s.io/v1")))
        (as_storage_class obj)

  unfoldable pub apply_hpa : HorizontalPodAutoscaler → S → S
  unfolding hpa_node add_owned create_edge_or_pending
  apply_hpa o s =
      create_edge_or_pending g o.meta.uid o.meta.namespace o.scale_target_ref.kind
        o.scale_target_ref.name edge_hpa_target (add_owned g (hpa_node o) o.meta s)

  unfoldable pub process_hpa : Object → EventType → S → S × Option ProcessError
  unfolding dispatch apply_hpa
  process_hpa obj = dispatch g "HorizontalPodAutoscaler" (λ o. o.meta) apply_hpa (as_hpa obj)

  -- The edge from a disruption budget to one of the pods that it selects.
  unfoldable pub selected_edge : Uid → Node → S → S
  unfolding create_edge_or_pending
  selected_edge uid pod =
      create_edge_or_pending g uid pod.namespace "Pod" pod.name edge_service_selector

  unfoldable pub apply_pdb : PodDisruptionBudget → S → S
  unfolding pdb_node add_owned for_each when_some find_nodes_by_label_selector selected_edge
  apply_pdb o s =
      let added = add_owned g (pdb_node o) o.meta s in
      when_some
        (λ selector s'.
          for_each (selected_edge o.meta.uid)
            (find_nodes_by_label_selector g o.meta.namespace "Pod" selector s') s')
        o.selector added

  unfoldable pub process_pdb : Object → EventType → S → S × Option ProcessError
  unfolding dispatch apply_pdb
  process_pdb obj = dispatch g "PodDisruptionBudget" (λ o. o.meta) apply_pdb (as_pdb obj)
