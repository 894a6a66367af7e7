-- ===== src/Processors/Events.antt =====
-- What each processor of pkg/processors does with an object, against a predicate that the operations
-- of a graph keep.
use astrolabe_server.Common.{
  ◌==◌, str_dec, string_key, inl, inr, Bool-cases, arith, ◌&&◌, ◌==◌, if_pos, if_neg,
}
use astrolabe_server.Common.Dict.{get}
use astrolabe_server.Common.Int.{pos, eq_ℤ}
use astrolabe_server.Graph.Additions.{IsFresh}
use astrolabe_server.Processors.Interface.{GraphInterface}
use astrolabe_server.Processors.Objects.{
  ObjectMeta, Pod, TargetRef, ReplicaWorkload, PersistentVolumeClaim, PersistentVolume, Ingress,
  EndpointSlice, HorizontalPodAutoscaler, PodDisruptionBudget,
}
use astrolabe_server.Processors.Base.{find_nodes_by_label_selector}
use astrolabe_server.Processors.CoreNodes.{pod_node, pvc_node, pv_node}
use astrolabe_server.Processors.Core.{pvc_edge, apply_pod, apply_pvc}
use astrolabe_server.Processors.Workloads.{apply_replica_set}
use astrolabe_server.Processors.Networking.{
  ingress_node, endpoint_slice_node, hpa_node, pdb_node, backend_edge, apply_ingress, target_edge,
  apply_endpoint_slice, apply_hpa, selected_edge, apply_pdb,
}
use astrolabe_server.Processors.Keeps.{
  Keeps, IsFresh-set, IsFresh-set_status, for_each-Keeps, when_some-Keeps, edge_or_pending-Keeps,
  reverse_edge_or_pending-Keeps, config_map_secret-Keeps, service_account-Keeps, add_owned-Keeps,
  add_workload-Keeps,
}

pub IsFresh-pv_node : (o : PersistentVolume) → IsFresh (pv_node o)
unfolding pv_node
IsFresh-pv_node o = ground (arith)

pub IsFresh-ingress_node : (o : Ingress) → IsFresh (ingress_node o)
unfolding ingress_node
IsFresh-ingress_node o = ground (arith)

module _ {S : Type 0} (g : GraphInterface S) (P : S → Type 0) (k : Keeps g P) where
  pub apply_pod-Keeps : (o : Pod) (s : S) → P s → P (apply_pod g o s)
  unfolding apply_pod pvc_edge
  apply_pod-Keeps o s h =
      service_account-Keeps g P k o.meta.uid o.meta.namespace o.spec.service_account_name _ (
        config_map_secret-Keeps g P k o.meta.uid o.meta.namespace o.spec _ (
          for_each-Keeps P (pvc_edge g o)
            (λ v.
              when_some-Keeps P _
                (λ claim.
                  edge_or_pending-Keeps g P k o.meta.uid o.meta.namespace "PersistentVolumeClaim"
                    claim _)
                v.persistent_volume_claim)
            o.spec.volumes _
            (add_owned-Keeps g P k (pod_node o) o.meta s (IsFresh-set o.meta _ _ _ _) h)))

  pub apply_pvc-Keeps : (o : PersistentVolumeClaim) (s : S) → P s → P (apply_pvc g o s)
  unfolding apply_pvc
  apply_pvc-Keeps o s h =
      let added = add_owned-Keeps g P k (pvc_node o) o.meta s (IsFresh-set o.meta _ _ _ _) h in
      elim (str_dec o.volume_name "") [
        | yes p ↦ rw (if_pos _ p) added
        | no p ↦
            rw (if_neg _ p)
              (edge_or_pending-Keeps g P k o.meta.uid "" "PersistentVolume" o.volume_name _ _ added)
      ]

  pub apply_replica_set-Keeps : (o : ReplicaWorkload) (s : S) → P s → P (apply_replica_set g o s)
  unfolding apply_replica_set
  apply_replica_set-Keeps o s h =
      elim (Bool-cases (eq_ℤ o.replicas (pos 0) && eq_ℤ o.ready_replicas (pos 0))) [
        | inl idle ↦ rw (idle, apply_replica_set) h
        | inr active ↦
            rw (active, apply_replica_set)
              (add_workload-Keeps g P k _ o.meta o.template s (IsFresh-set o.meta _ _ _ _) h)
      ]

  pub apply_ingress-Keeps : (o : Ingress) (s : S) → P s → P (apply_ingress g o s)
  unfolding apply_ingress backend_edge
  apply_ingress-Keeps o s h =
      let backend =
        when_some-Keeps P (backend_edge g o.meta) (λ service.
          edge_or_pending-Keeps g P k o.meta.uid o.meta.namespace "Service" service _) in
      when_some-Keeps P _ backend o.default_backend _ (
        for_each-Keeps P _ (when_some-Keeps P _ (for_each-Keeps P _ backend)) o.rules _
          (add_owned-Keeps g P k (ingress_node o) o.meta s (IsFresh-ingress_node o) h))

  pub target_edge-Keeps :
      (meta : ObjectMeta) (target : TargetRef) (s : S) → P s → P (target_edge g meta target s)
  unfolding target_edge
  target_edge-Keeps meta target s h = elim (Bool-cases (target.kind == "Pod")) [
    | inl p ↦
        rw (p, target_edge)
          (edge_or_pending-Keeps g P k meta.uid meta.namespace "Pod" target.name _ s h)
    | inr p ↦ rw (p, target_edge) h
  ]

  pub apply_endpoint_slice-Keeps :
      (o : EndpointSlice) (s : S) → P s → P (apply_endpoint_slice g o s)
  unfolding apply_endpoint_slice
  apply_endpoint_slice-Keeps o s h =
      for_each-Keeps P _ (λ e. when_some-Keeps P _ (target_edge-Keeps o.meta) e.target_ref)
        o.endpoints _
        (when_some-Keeps P _
          (λ service.
            reverse_edge_or_pending-Keeps g P k o.meta.uid o.meta.namespace "Service" service _)
          (get "kubernetes.io/service-name" o.meta.labels) _
          (add_owned-Keeps g P k (endpoint_slice_node o) o.meta s (IsFresh-set_status o.meta _ _ _)
            h))

  pub apply_hpa-Keeps : (o : HorizontalPodAutoscaler) (s : S) → P s → P (apply_hpa g o s)
  unfolding apply_hpa
  apply_hpa-Keeps o s h =
      edge_or_pending-Keeps g P k _ _ _ _ _ _
        (add_owned-Keeps g P k (hpa_node o) o.meta s (IsFresh-set o.meta _ _ _ _) h)

  pub apply_pdb-Keeps : (o : PodDisruptionBudget) (s : S) → P s → P (apply_pdb g o s)
  unfolding apply_pdb selected_edge
  apply_pdb-Keeps o s h =
      when_some-Keeps P _
        (λ selector s' h'.
          for_each-Keeps P (selected_edge g o.meta.uid)
            (λ pod. edge_or_pending-Keeps g P k o.meta.uid pod.namespace "Pod" pod.name _)
            (find_nodes_by_label_selector g o.meta.namespace "Pod" selector s') s' h')
        o.selector _
        (add_owned-Keeps g P k (pdb_node o) o.meta s (IsFresh-set_status o.meta _ _ _) h)
