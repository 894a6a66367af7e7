-- ===== src/Processors/Runs.antt =====
-- Sequences of events through the registry of pkg/processors/registry.go.
use astrolabe_server.Common.{
  String, str_dec, string_key, Option, none, some, List, [], ◌∷◌, Option-cases, inl, inr, subst,
  if_pos, if_neg,
}
use astrolabe_server.Common.Dict.{get}
use astrolabe_server.Graph.Types.{Graph}
use astrolabe_server.Graph.Steps.{
  Reach, here, next, add_node_step, remove_node_step, add_edge_step, add_pending_step,
  add_reverse_step, IsConsistent, Reach-IsConsistent,
}
use astrolabe_server.Processors.Interface.{GraphInterface, memory}
use astrolabe_server.Processors.Objects.{Object, EventType}
use astrolabe_server.Processors.CoreNodes.{service_node, pv_node}
use astrolabe_server.Processors.Core.{
  process_pod, process_service, process_service_account, process_config_map, process_secret,
  process_pvc, process_pv, process_namespace, as_pod, as_service, as_service_account, as_config_map,
  as_secret, as_pvc, as_pv, as_namespace,
}
use astrolabe_server.Processors.Workloads.{
  process_deployment, process_stateful_set, process_daemon_set, process_replica_set, process_job,
  process_cron_job, as_deployment, as_stateful_set, as_daemon_set, as_replica_set, as_job,
  as_cron_job,
}
use astrolabe_server.Processors.Networking.{
  process_ingress, process_endpoint_slice, process_storage_class, process_hpa, process_pdb,
  as_ingress, as_endpoint_slice, as_storage_class, as_hpa, as_pdb,
}
use astrolabe_server.Processors.Events.{
  IsFresh-pv_node, apply_pod-Keeps, apply_pvc-Keeps, apply_replica_set-Keeps, apply_ingress-Keeps,
  apply_endpoint_slice-Keeps, apply_hpa-Keeps, apply_pdb-Keeps,
}
use astrolabe_server.Processors.Registry.{Processor, processors, process}
use astrolabe_server.Processors.Keeps.{
  Keeps, IsFresh-set, IsFresh-set_status, add_owned-Keeps, add_workload-Keeps, dispatch-Keeps,
}

module _ {S : Type 0} (g : GraphInterface S) (P : S → Type 0) (k : Keeps g P) where
  -- One processor of the table.
  abbrev ProcessorKeeps : Processor S → Type 0
  ProcessorKeeps f = (obj : Object) (event : EventType) (s : S) → P s → P (f obj event s).0

  abbrev AllKeep : List (String × Processor S) → Type 0
  AllKeep [] = Unit
  AllKeep ((_, f) ∷ table) = ProcessorKeeps f × AllKeep table

  abbrev FoundKeeps : Option (Processor S) → Type 0
  FoundKeeps none = Unit
  FoundKeeps (some f) = ProcessorKeeps f

  get-AllKeep :
      (kind : String) (table : List (String × Processor S))
      → AllKeep table
      → FoundKeeps (get kind table)
  unfolding get
  get-AllKeep kind [] a = tt
  get-AllKeep kind ((j, h) ∷ table) a = elim (str_dec j kind) [
    | yes p ↦ rw (if_pos _ p) a.0
    | no p ↦ rw (if_neg _ p) (get-AllKeep kind table a.1)
  ]

  processors-Keep : AllKeep (processors g)
  unfolding processors process_pod process_service process_service_account process_config_map
      process_secret process_pvc process_pv process_namespace process_deployment
      process_stateful_set process_daemon_set process_replica_set process_job process_cron_job
      process_ingress process_endpoint_slice process_storage_class process_hpa process_pdb
  processors-Keep = (
    λ obj. dispatch-Keeps g P k "Pod" (λ o. o.meta) _ (apply_pod-Keeps g P k) (as_pod obj),
    (
      λ obj.
          dispatch-Keeps g P k "Service" (λ o. o.meta) _
            (λ o s. add_owned-Keeps g P k (service_node o) o.meta s (IsFresh-set o.meta _ _ _ _))
            (as_service obj),
      (
        λ obj.
            dispatch-Keeps g P k "ServiceAccount" (λ o. o) _
              (λ o s. add_owned-Keeps g P k _ o s (IsFresh-set_status o _ _ _))
              (as_service_account obj),
        (
          λ obj.
              dispatch-Keeps g P k "ConfigMap" (λ o. o) _
                (λ o s. add_owned-Keeps g P k _ o s (IsFresh-set_status o _ _ _))
                (as_config_map obj),
          (
            λ obj.
                dispatch-Keeps g P k "Secret" (λ o. o.meta) _
                  (λ o s. add_owned-Keeps g P k _ o.meta s (IsFresh-set_status o.meta _ _ _))
                  (as_secret obj),
            (
              λ obj.
                  dispatch-Keeps g P k "PersistentVolumeClaim" (λ o. o.meta) _
                    (apply_pvc-Keeps g P k) (as_pvc obj),
              (
                λ obj.
                    dispatch-Keeps g P k "PersistentVolume" (λ o. o.meta) _
                      (λ o s. add_owned-Keeps g P k (pv_node o) o.meta s (IsFresh-pv_node o))
                      (as_pv obj),
                (
                  λ obj.
                      dispatch-Keeps g P k "Namespace" (λ o. o.meta) _
                        (λ o s. k.add_node _ s (IsFresh-set_status o.meta _ _ _))
                        (as_namespace obj),
                  (
                    λ obj.
                        dispatch-Keeps g P k "Deployment" (λ o. o.meta) _
                          (λ o s.
                            add_workload-Keeps g P k _ o.meta o.template s
                              (IsFresh-set o.meta _ _ _ _))
                          (as_deployment obj),
                    (
                      λ obj.
                          dispatch-Keeps g P k "StatefulSet" (λ o. o.meta) _
                            (λ o s.
                              add_workload-Keeps g P k _ o.meta o.template s
                                (IsFresh-set o.meta _ _ _ _))
                            (as_stateful_set obj),
                      (
                        λ obj.
                            dispatch-Keeps g P k "DaemonSet" (λ o. o.meta) _
                              (λ o s.
                                add_workload-Keeps g P k _ o.meta o.template s
                                  (IsFresh-set o.meta _ _ _ _))
                              (as_daemon_set obj),
                        (
                          λ obj.
                              dispatch-Keeps g P k "ReplicaSet" (λ o. o.meta) _
                                (apply_replica_set-Keeps g P k) (as_replica_set obj),
                          (
                            λ obj.
                                dispatch-Keeps g P k "Job" (λ o. o.meta) _
                                  (λ o s.
                                    add_workload-Keeps g P k _ o.meta o.template s
                                      (IsFresh-set o.meta _ _ _ _))
                                  (as_job obj),
                            (
                              λ obj.
                                  dispatch-Keeps g P k "CronJob" (λ o. o.meta) _
                                    (λ o s.
                                      add_workload-Keeps g P k _ o.meta o.template s
                                        (IsFresh-set o.meta _ _ _ _))
                                    (as_cron_job obj),
                              (
                                λ obj.
                                    dispatch-Keeps g P k "Ingress" (λ o. o.meta) _
                                      (apply_ingress-Keeps g P k) (as_ingress obj),
                                (
                                  λ obj.
                                      dispatch-Keeps g P k "EndpointSlice" (λ o. o.meta) _
                                        (apply_endpoint_slice-Keeps g P k) (as_endpoint_slice obj),
                                  (
                                    λ obj.
                                        dispatch-Keeps g P k "StorageClass" (λ o. o) _
                                          (λ o s. k.add_node _ s (IsFresh-set_status o _ _ _))
                                          (as_storage_class obj),
                                    (
                                      λ obj.
                                          dispatch-Keeps g P k "HorizontalPodAutoscaler"
                                            (λ o. o.meta) _ (apply_hpa-Keeps g P k) (as_hpa obj),
                                      (
                                        λ obj.
                                            dispatch-Keeps g P k "PodDisruptionBudget" (λ o. o.meta)
                                              _ (apply_pdb-Keeps g P k) (as_pdb obj),
                                        tt,
                                      ),
                                    ),
                                  ),
                                ),
                              ),
                            ),
                          ),
                        ),
                      ),
                    ),
                  ),
                ),
              ),
            ),
          ),
        ),
      ),
    ),
  )

  -- What the operations of a graph keep, every event of every kind keeps.
  pub process-Keeps :
      (obj : Object) (kind : String) (event : EventType) (s : S)
      → P s
      → P (process g obj kind event s).0
  unfolding process
  process-Keeps obj kind event s h = elim (Option-cases (get kind (processors g))) [
    | inl p ↦ rw (p, process) h
    | inr (f, p) ↦
        rw (p, process)
          (subst FoundKeeps p (get-AllKeep kind (processors g) processors-Keep) obj event s h)
  ]

-- On the in-memory graph what a processor does is a run of the graph's operations.
memory-Keeps : (g : Graph) → Keeps memory (Reach g)
memory-Keeps g = record {
  add_node = λ node s fresh r. next r (add_node_step node fresh);
  remove_node = λ uid s r. next r (remove_node_step uid);
  add_edge = λ e s r. next r (add_edge_step e);
  add_pending_edge = λ from ref type s r. next r (add_pending_step from ref type);
  add_reverse_pending_edge = λ to ref type s r. next r (add_reverse_step to ref type);
}

-- An informer's event: the object, the kind it is registered under and what happened.
abbrev pub Event : Type 0
Event = Object × String × EventType

-- The graph after a sequence of events.
abbrev pub process_all : List Event → Graph → Graph
process_all [] g = g
process_all ((obj, kind, event) ∷ events) g = process_all events (process memory obj kind event g).0

pub process_all-Reach :
    (events : List Event) (g h : Graph) → Reach g h → Reach g (process_all events h)
process_all-Reach [] g h r = r
process_all-Reach ((obj, kind, event) ∷ events) g h r =
    process_all-Reach events g _
      (process-Keeps memory (Reach g) (memory-Keeps g) obj kind event h r)

-- If a graph is consistent, it is consistent after any sequence of events, of whatever kinds and in
-- whatever order: every edge stands at both of its ends, every node stands under its own UID, and
-- each live node stands exactly once in the right slice of the namespace/kind index and of the
-- release index.
pub process_all-IsConsistent :
    (events : List Event) (g : Graph) → IsConsistent g → IsConsistent (process_all events g)
process_all-IsConsistent events g c = Reach-IsConsistent (process_all-Reach events g g here) c
