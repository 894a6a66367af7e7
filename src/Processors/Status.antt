-- ===== src/Processors/Status.antt =====
-- The status that the processors of pkg/processors/core.go and pkg/processors/workloads.go compute,
-- against a description by cases.
use astrolabe_server.Common.{
  String, Bool, true, false, not, ◌&&◌, ◌||◌, none, some, List, [], ◌∷◌, ◌≡◌, ◌↔◌, arith,
}
use astrolabe_server.Common.Int.{ℤ, pos, negsuc, eq_ℤ, positive}
use astrolabe_server.Graph.Types.{ResourceStatus, status_ready, status_error}
use astrolabe_server.Processors.Objects.{ContainerStatus, ReplicaWorkload}
use astrolabe_server.Processors.CoreNodes.{running_status}
use astrolabe_server.Processors.Workloads.{replica_status, get_deployment_status, get_int32_value}

eq_ℤ_sound : (a b : ℤ) → eq_ℤ a b ≡ true → a ≡ b
eq_ℤ_sound (pos a) (pos b) h = ground arith
eq_ℤ_sound (pos a) (negsuc b) h = ground arith
eq_ℤ_sound (negsuc a) (pos b) h = ground arith
eq_ℤ_sound (negsuc a) (negsuc b) h = ground arith

eq_ℤ_refl : (a : ℤ) → eq_ℤ a a ≡ true
eq_ℤ_refl (pos a) = ground arith
eq_ℤ_refl (negsuc a) = ground arith

not-positive_zero : (a : ℤ) → a ≡ pos 0 → positive a ≡ false
not-positive_zero a h = rw h

module _ (nothing all none_ready : String) (desired ready : ℤ) where
  status : ResourceStatus
  status = (replica_status nothing all none_ready desired ready).0

  ready_iff : (status ≡ status_ready) ↔ (ready ≡ desired)
  unfolding status replica_status
  ready_iff = ground (
    arith,
    eq_ℤ_sound ready desired,
    eq_ℤ_refl desired,
    eq_ℤ_sound ready (pos 0),
    eq_ℤ_sound desired (pos 0),
  )

  error_iff : (status ≡ status_error) ↔ ((ready ≡ pos 0) × (positive desired ≡ true))
  unfolding status replica_status
  error_iff = ground (
    arith,
    eq_ℤ_sound ready desired,
    eq_ℤ_refl ready,
    eq_ℤ_sound ready (pos 0),
    eq_ℤ_sound desired (pos 0),
    not-positive_zero desired,
  )

-- A deployment, which wants one replica without a count in its spec, is `Ready` exactly if as many
-- replicas are ready as it wants, and `Error` exactly if it wants some and none is ready.
pub get_deployment_status-exact :
    (o : ReplicaWorkload)
    → (((get_deployment_status o).0 ≡ status_ready)
        ↔ (o.ready_replicas ≡ get_int32_value o.spec_replicas (pos 1)))
      × (((get_deployment_status o).0 ≡ status_error) ↔ (
          (o.ready_replicas ≡ pos 0) × (positive (get_int32_value o.spec_replicas (pos 1)) ≡ true)))
unfolding get_deployment_status status
get_deployment_status-exact o =
    (ready_iff _ _ _ _ o.ready_replicas, error_iff _ _ _ _ o.ready_replicas)

-- What stands in the way of a running pod: a container that is not ready, and that waits or has
-- terminated.
abbrev pub blocks : ContainerStatus → Bool
blocks c =
    not c.ready
    && elim c.waiting [ some _ ↦ true | none ↦ elim c.terminated [ some _ ↦ true | none ↦ false ] ]

abbrev pub any_blocks : List ContainerStatus → Bool
any_blocks [] = false
any_blocks (c ∷ cs) = blocks c || any_blocks cs

-- A running pod is `Ready` exactly if no container that is not ready waits or has terminated.
pub running_status-exact :
    (cs : List ContainerStatus) → ((running_status cs).0 ≡ status_ready) ↔ (any_blocks cs ≡ false)
unfolding running_status
running_status-exact [] = ground arith
running_status-exact (c ∷ cs) = ground (arith, running_status-exact cs)
