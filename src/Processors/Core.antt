-- ===== src/Processors/Core.antt =====
-- pkg/processors/core.go: the processors of the core resources. `Process` of each takes an object
-- of any type and an event, and returns the new graph with the error, if there is one.
use astrolabe_server.Common.{String, str_dec, string_key, Option, none, some, ite}
use astrolabe_server.Graph.Types.{Node, status_ready, edge_pod_volume, edge_pvc_binding}
use astrolabe_server.Processors.Interface.{GraphInterface}
use astrolabe_server.Processors.Objects.{
  ObjectMeta, Pod, Volume, Service, Secret, PersistentVolumeClaim, PersistentVolume, Namespace,
  Object, ProcessError, expected, EventType, event_delete,
}
use astrolabe_server.Processors.CoreNodes.{
  namespace_status, pod_node, service_node, pvc_node, pv_node,
}
use astrolabe_server.Processors.Base.{
  new_node_from_object, set_status, for_each, when_some, handle_delete, create_ownership_edges,
  create_edge_or_pending, create_config_map_secret_edges, service_account_edge,
}

-- The type assertions `obj.(*corev1.Pod)`, and so on.
abbrev pub as_pod : Object → Option Pod
as_pod (Object.pod o) = some o
as_pod _ = none

abbrev pub as_service : Object → Option Service
as_service (Object.service o) = some o
as_service _ = none

abbrev pub as_service_account : Object → Option ObjectMeta
as_service_account (Object.service_account o) = some o
as_service_account _ = none

abbrev pub as_config_map : Object → Option ObjectMeta
as_config_map (Object.config_map o) = some o
as_config_map _ = none

abbrev pub as_secret : Object → Option Secret
as_secret (Object.secret o) = some o
as_secret _ = none

abbrev pub as_pvc : Object → Option PersistentVolumeClaim
as_pvc (Object.persistent_volume_claim o) = some o
as_pvc _ = none

abbrev pub as_pv : Object → Option PersistentVolume
as_pv (Object.persistent_volume o) = some o
as_pv _ = none

abbrev pub as_namespace : Object → Option Namespace
as_namespace (Object.namespace o) = some o
as_namespace _ = none

module _ {S : Type 0} (g : GraphInterface S) where
  -- What all the processors begin with: an object of another type is an error, a deletion removes
  -- the node, and any other event goes on.
  unfoldable pub dispatch :
      {O : Type 0}
      → String
      → (O → ObjectMeta)
      → (O → S → S)
      → Option O
      → EventType
      → S
      → S × Option ProcessError
  unfolding handle_delete
  dispatch kind meta apply none event s = (s, some (expected kind))
  dispatch kind meta apply (some o) event s = elim event [
    | event_delete ↦ handle_delete g (meta o) s
    | _ ↦ (apply o s, none)
  ]

  -- `AddNode`, then `createOwnershipEdges`.
  unfoldable pub add_owned : Node → ObjectMeta → S → S
  unfolding create_ownership_edges
  add_owned n meta s = create_ownership_edges g n.uid meta.owner_references (g.add_node n s)

  unfoldable pub pvc_edge : Pod → Volume → S → S
  unfolding when_some create_edge_or_pending
  pvc_edge o v =
      when_some
        (λ claim.
          create_edge_or_pending g o.meta.uid o.meta.namespace "PersistentVolumeClaim" claim
            edge_pod_volume)
        v.persistent_volume_claim

  unfoldable pub apply_pod : Pod → S → S
  unfolding pod_node add_owned pvc_edge for_each create_config_map_secret_edges service_account_edge
  apply_pod o s =
      let added = add_owned (pod_node o) o.meta s in
      let mounted = for_each (pvc_edge o) o.spec.volumes added in
      let configured =
        create_config_map_secret_edges g o.meta.uid o.meta.namespace o.spec mounted in
      service_account_edge g o.meta.uid o.meta.namespace o.spec.service_account_name configured

  unfoldable pub process_pod : Object → EventType → S → S × Option ProcessError
  unfolding dispatch apply_pod
  process_pod obj = dispatch "Pod" (λ o. o.meta) apply_pod (as_pod obj)

  unfoldable pub process_service : Object → EventType → S → S × Option ProcessError
  unfolding dispatch service_node add_owned
  process_service obj =
      dispatch "Service" (λ o. o.meta) (λ o. add_owned (service_node o) o.meta) (as_service obj)

  unfoldable pub process_service_account : Object → EventType → S → S × Option ProcessError
  unfolding dispatch add_owned new_node_from_object set_status
  process_service_account obj =
      dispatch "ServiceAccount" (λ o. o)
        (λ o.
          add_owned
            (set_status (status_ready, "ServiceAccount exists")
              (new_node_from_object o "ServiceAccount" "v1"))
            o)
        (as_service_account obj)

  unfoldable pub process_config_map : Object → EventType → S → S × Option ProcessError
  unfolding dispatch add_owned new_node_from_object set_status
  process_config_map obj =
      dispatch "ConfigMap" (λ o. o)
        (λ o.
          add_owned
            (set_status (status_ready, "ConfigMap exists")
              (new_node_from_object o "ConfigMap" "v1"))
            o)
        (as_config_map obj)

  -- The test for a secret of a Helm release only logs.
  unfoldable pub process_secret : Object → EventType → S → S × Option ProcessError
  unfolding dispatch add_owned new_node_from_object set_status
  process_secret obj =
      dispatch "Secret" (λ o. o.meta)
        (λ o.
          add_owned
            (set_status (status_ready, "Secret exists") (new_node_from_object o.meta "Secret" "v1"))
            o.meta)
        (as_secret obj)

  unfoldable pub apply_pvc : PersistentVolumeClaim → S → S
  unfolding pvc_node add_owned create_edge_or_pending
  apply_pvc o s =
      let added = add_owned (pvc_node o) o.meta s in
      ite (str_dec o.volume_name "") added (
        create_edge_or_pending g o.meta.uid "" "PersistentVolume" o.volume_name edge_pvc_binding
          added)

  unfoldable pub process_pvc : Object → EventType → S → S × Option ProcessError
  unfolding dispatch apply_pvc
  process_pvc obj = dispatch "PersistentVolumeClaim" (λ o. o.meta) apply_pvc (as_pvc obj)

  unfoldable pub process_pv : Object → EventType → S → S × Option ProcessError
  unfolding dispatch pv_node add_owned
  process_pv obj =
      dispatch "PersistentVolume" (λ o. o.meta) (λ o. add_owned (pv_node o) o.meta) (as_pv obj)

  unfoldable pub process_namespace : Object → EventType → S → S × Option ProcessError
  unfolding dispatch namespace_status new_node_from_object set_status
  process_namespace obj =
      dispatch "Namespace" (λ o. o.meta)
        (λ o.
          g.add_node
            (set_status (namespace_status o) (new_node_from_object o.meta "Namespace" "v1")))
        (as_namespace obj)
