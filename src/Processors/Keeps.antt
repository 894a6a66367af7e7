-- ===== src/Processors/Keeps.antt =====
-- The processors of pkg/processors change a graph by the operations of its interface only: predicates
-- that these operations keep.
use astrolabe_server.Common.{
  String, str_dec, string_key, Option, none, some, List, [], ◌∷◌, refl, Option-cases, inl, inr,
  if_pos, if_neg,
}
use astrolabe_server.Graph.Types.{
  Uid, Node, Edge, EdgeType, RefKey, ResourceMetadata, ResourceStatus,
}
use astrolabe_server.Graph.Additions.{IsFresh}
use astrolabe_server.Processors.Interface.{GraphInterface}
use astrolabe_server.Processors.Objects.{
  ObjectMeta, OwnerReference, Container, PodSpec, EventType, event_add, event_update, event_delete,
}
use astrolabe_server.Processors.Base.{
  new_node_from_object, set_status, set_metadata, for_each, when_some, create_ownership_edge,
  find_node_by_namespace_kind_name, create_edge_or_pending, create_reverse_edge_or_pending,
  create_config_map_secret_edges, config_map_edge, secret_edge, volume_edges, env_from_edges,
  env_source_edges, container_edges, service_account_edge,
}
use astrolabe_server.Processors.Core.{dispatch, add_owned}
use astrolabe_server.Processors.Workloads.{add_workload}

pub record Keeps {S : Type 0} (g : GraphInterface S) (P : S → Type 0) : Type 0 where
  pub add_node : (node : Node) (s : S) → IsFresh node → P s → P (g.add_node node s)
  pub remove_node : (uid : Uid) (s : S) → P s → P (g.remove_node uid s)
  pub add_edge : (e : Edge) (s : S) → P s → P (g.add_edge e s).0
  pub add_pending_edge :
      (from : Uid) (ref : RefKey) (type : EdgeType) (s : S)
      → P s
      → P (g.add_pending_edge from ref type s)
  pub add_reverse_pending_edge :
      (to : Uid) (ref : RefKey) (type : EdgeType) (s : S)
      → P s
      → P (g.add_reverse_pending_edge to ref type s)

-- Every node that a processor adds is fresh.
pub IsFresh-set :
    (meta : ObjectMeta) (kind api : String) (status : ResourceStatus × String)
    (metadata : Option ResourceMetadata)
    → IsFresh (set_metadata metadata (set_status status (new_node_from_object meta kind api)))
unfolding set_metadata set_status new_node_from_object
IsFresh-set meta kind api status metadata = record { no_outgoing = refl; no_incoming = refl }

pub IsFresh-set_status :
    (meta : ObjectMeta) (kind api : String) (status : ResourceStatus × String)
    → IsFresh (set_status status (new_node_from_object meta kind api))
unfolding set_status new_node_from_object
IsFresh-set_status meta kind api status = record { no_outgoing = refl; no_incoming = refl }

module _ {S : Type 0} (P : S → Type 0) where
  pub for_each-Keeps :
      {A : Type 0} (f : A → S → S)
      → ((x : A) (s : S) → P s → P (f x s))
      → (xs : List A) (s : S) → P s
      → P (for_each f xs s)
  unfolding for_each
  for_each-Keeps f k [] s h = h
  for_each-Keeps f k (x ∷ xs) s h = for_each-Keeps f k xs (f x s) (k x s h)

  pub when_some-Keeps :
      {A : Type 0} (f : A → S → S)
      → ((x : A) (s : S) → P s → P (f x s))
      → (o : Option A) (s : S) → P s
      → P (when_some f o s)
  unfolding when_some
  when_some-Keeps f k none s h = h
  when_some-Keeps f k (some x) s h = k x s h

module _ {S : Type 0} (g : GraphInterface S) (P : S → Type 0) (k : Keeps g P) where
  ownership-Keeps :
      (uid : Uid) (owner : OwnerReference) (s : S) → P s → P (create_ownership_edge g uid owner s)
  unfolding create_ownership_edge
  ownership-Keeps uid owner s h = elim (Option-cases (g.get_node owner.uid s)) [
    | inl p ↦ rw (p, create_ownership_edge) h
    | inr (n, p) ↦ rw (p, create_ownership_edge) (k.add_edge _ s h)
  ]

  pub edge_or_pending-Keeps :
      (from : Uid) (namespace kind name : String) (type : EdgeType) (s : S)
      → P s
      → P (create_edge_or_pending g from namespace kind name type s)
  unfolding create_edge_or_pending
  edge_or_pending-Keeps from namespace kind name type s h =
      elim (Option-cases (find_node_by_namespace_kind_name g namespace kind name s)) [
        | inl p ↦ rw (p, create_edge_or_pending) (k.add_pending_edge _ _ _ s h)
        | inr (n, p) ↦ rw (p, create_edge_or_pending) (k.add_edge _ s h)
      ]

  pub reverse_edge_or_pending-Keeps :
      (to : Uid) (namespace kind name : String) (type : EdgeType) (s : S)
      → P s
      → P (create_reverse_edge_or_pending g to namespace kind name type s)
  unfolding create_reverse_edge_or_pending
  reverse_edge_or_pending-Keeps to namespace kind name type s h =
      elim (Option-cases (find_node_by_namespace_kind_name g namespace kind name s)) [
        | inl p ↦ rw (p, create_reverse_edge_or_pending) (k.add_reverse_pending_edge _ _ _ s h)
        | inr (n, p) ↦ rw (p, create_reverse_edge_or_pending) (k.add_edge _ s h)
      ]

  module _ (uid : Uid) (namespace : String) where
    config_map-Keeps : (name : String) (s : S) → P s → P (config_map_edge g uid namespace name s)
    unfolding config_map_edge
    config_map-Keeps name = edge_or_pending-Keeps uid namespace "ConfigMap" name _

    secret-Keeps : (name : String) (s : S) → P s → P (secret_edge g uid namespace name s)
    unfolding secret_edge
    secret-Keeps name = edge_or_pending-Keeps uid namespace "Secret" name _

    both_edges-Keeps :
        (c d : Option String) (s : S)
        → P s
        → P (
            when_some
              (secret_edge g uid namespace)
              d
              (when_some (config_map_edge g uid namespace) c s))
    both_edges-Keeps c d s h =
        when_some-Keeps P _ secret-Keeps d _ (when_some-Keeps P _ config_map-Keeps c s h)

    container-Keeps : (c : Container) (s : S) → P s → P (container_edges g uid namespace c s)
    unfolding container_edges
    container-Keeps c s h =
        for_each-Keeps P _
          (when_some-Keeps P (env_source_edges g uid namespace)
            (λ e. both_edges-Keeps e.config_map_key_ref e.secret_key_ref))
          c.env _
          (for_each-Keeps P (env_from_edges g uid namespace)
            (λ e. both_edges-Keeps e.config_map_ref e.secret_ref) c.env_from s h)

    pub config_map_secret-Keeps :
        (spec : PodSpec) (s : S) → P s → P (create_config_map_secret_edges g uid namespace spec s)
    unfolding create_config_map_secret_edges
    config_map_secret-Keeps spec s h = for_each-Keeps P _ container-Keeps spec.containers _ (
        for_each-Keeps P (volume_edges g uid namespace)
          (λ v. both_edges-Keeps v.config_map v.secret) spec.volumes s h)

    pub service_account-Keeps :
        (name : String) (s : S) → P s → P (service_account_edge g uid namespace name s)
    unfolding service_account_edge
    service_account-Keeps name s h = elim (str_dec name "") [
      | yes p ↦ rw (if_pos _ p) h
      | no p ↦ rw (if_neg _ p) (edge_or_pending-Keeps uid namespace "ServiceAccount" name _ s h)
    ]

  pub add_owned-Keeps :
      (n : Node) (meta : ObjectMeta) (s : S) → IsFresh n → P s → P (add_owned g n meta s)
  unfolding add_owned
  add_owned-Keeps n meta s fresh h =
      for_each-Keeps P _ (ownership-Keeps n.uid) meta.owner_references _ (k.add_node n s fresh h)

  pub add_workload-Keeps :
      (n : Node) (meta : ObjectMeta) (template : PodSpec) (s : S)
      → IsFresh n
      → P s
      → P (add_workload g n meta template s)
  unfolding add_workload
  add_workload-Keeps n meta template s fresh h =
      service_account-Keeps n.uid meta.namespace template.service_account_name _
        (config_map_secret-Keeps n.uid n.namespace template _ (add_owned-Keeps n meta s fresh h))

  -- A deletion is `RemoveNode`, an object of another type changes nothing.
  pub dispatch-Keeps :
      {O : Type 0} (kind : String) (meta : O → ObjectMeta) (apply : O → S → S)
      → ((o : O) (s : S) → P s → P (apply o s))
      → (o : Option O) (event : EventType) (s : S) → P s
      → P (dispatch g kind meta apply o event s).0
  unfolding dispatch
  dispatch-Keeps kind meta apply ka none event s h = h
  dispatch-Keeps kind meta apply ka (some o) event_add s h = ka o s h
  dispatch-Keeps kind meta apply ka (some o) event_update s h = ka o s h
  dispatch-Keeps kind meta apply ka (some o) event_delete s h = k.remove_node (meta o).uid s h
