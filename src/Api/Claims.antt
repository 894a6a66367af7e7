-- ===== src/Api/Claims.antt =====
-- The volumes that `includePersistentVolumes` of pkg/api/filtering.go is to add, described without
-- its loops, and its map `pvByName` against that description.
use astrolabe_server.Common.{
  String, str_dec, string_key, true, some, List, [], ◌∷◌, ◌≡◌, ◌≢◌, ◌⊎◌, refl, arith, Bool-cases,
  inl, inr, if◌then◌else◌, ap, subst,
}
use astrolabe_server.Common.Dict.{Dict, get, put, get-put}
use astrolabe_server.Graph.Types.{Uid, Edge, edge_pvc_binding, Node, Graph}
use astrolabe_server.Graph.Queries.{get_all_nodes}
use astrolabe_server.Api.Related.{In}
use astrolabe_server.Api.Volumes.{of_kind, volume_name, wanted, pv_by_name}

-- A claim of the release, or any claim where no release is given.
abbrev pub IsClaim : String → Node → Type 0
IsClaim release n =
    (of_kind "persistentvolumeclaim" n ≡ true) × ((release ≡ "") ⊎ (n.helm_release ≡ release))

pub IsClaim-wanted : (release : String) (n : Node) → IsClaim release n → wanted release n ≡ true
IsClaim-wanted release n c = ground arith

pub wanted-IsClaim : (release : String) (n : Node) → wanted release n ≡ true → IsClaim release n
wanted-IsClaim release n w = elim (str_dec release "") [
  | yes p ↦ (ground arith, inl p)
  | no p ↦ (ground arith, inr (ground arith))
]

module _ (g : Graph) where
  -- A live node at a binding edge of the claim.
  abbrev pub IsBound : Node → Node → Type 0
  IsBound n pv =
      (entry : Uid × Edge) × In entry n.outgoing_edges
      × (entry.1.type ≡ edge_pvc_binding)
      × (get entry.1.to_uid g.nodes ≡ some pv)

  -- A stored volume of this name.
  abbrev pub IsVolume : String → Node → Type 0
  IsVolume name pv =
      In pv (get_all_nodes g) × (of_kind "persistentvolume" pv ≡ true) × (pv.name ≡ name)

  abbrev pub IsVolumeOf : Node → Node → Type 0
  IsVolumeOf n pv = IsBound n pv ⊎ ((volume_name n ≢ "") × IsVolume (volume_name n) pv)

  -- A volume of a claim among the nodes.
  abbrev pub ComesFrom : String → List Node → Node → Type 0
  ComesFrom release nodes pv = (n : Node) × In n nodes × IsClaim release n × IsVolumeOf n pv

  -- What `pvByName` finds is a stored volume of the name.
  pub pv_by_name-IsVolume :
      (ns : List Node) (m : Dict String Node) (name : String) (pv : Node)
      → ((n : Node) → In n ns → In n (get_all_nodes g))
      → ((n : Node) → get name m ≡ some n → IsVolume name n)
      → get name (pv_by_name ns m) ≡ some pv
      → IsVolume name pv
  unfolding pv_by_name
  pv_by_name-IsVolume [] m name pv sub old h = old pv h
  pv_by_name-IsVolume (n ∷ ns) m name pv sub old h =
      pv_by_name-IsVolume ns (if of_kind "persistentvolume" n then put n.name n m else m) name pv
        (λ x i. sub x (inr i))
        (λ x e. elim (Bool-cases (of_kind "persistentvolume" n)) [
          | inl yes' ↦ elim (str_dec n.name name) [
            | yes p ↦
                subst (IsVolume name) (ground (arith, get-put name n.name n m))
                  (sub n (inl refl), yes', p)
            | no p ↦ old x (ground (arith, get-put name n.name n m))
          ]
          | inr no' ↦ old x (ground arith)
        ])
        h

pv_by_name_keeps :
    (ns : List Node) (m : Dict String Node) (name : String) (old : Node)
    → get name m ≡ some old
    → (pv : Node) × (get name (pv_by_name ns m) ≡ some pv)
unfolding pv_by_name
pv_by_name_keeps [] m name old h = (old, h)
pv_by_name_keeps (n ∷ ns) m name old h = elim (Bool-cases (of_kind "persistentvolume" n)) [
  | inl yes' ↦ elim (str_dec n.name name) [
    | yes p ↦
        rw yes'
          (pv_by_name_keeps ns (put n.name n m) name n (ground (arith, get-put name n.name n m)))
    | no p ↦
        rw yes'
          (pv_by_name_keeps ns (put n.name n m) name old (ground (arith, get-put name n.name n m)))
  ]
  | inr no' ↦ rw no' (pv_by_name_keeps ns m name old h)
]

-- `pvByName` finds a volume of the name of each volume that it was made of.
pub pv_by_name_complete :
    (ns : List Node) (m : Dict String Node) (c : Node)
    → In c ns
    → of_kind "persistentvolume" c ≡ true
    → (pv : Node) × (get c.name (pv_by_name ns m) ≡ some pv)
unfolding pv_by_name
pv_by_name_complete [] m c i k = absurd i
pv_by_name_complete (n ∷ ns) m c i k = elim i [
  | inl p ↦
      let here : of_kind "persistentvolume" n ≡ true = rw p k in
      rw here (
        pv_by_name_keeps ns (put n.name n m) c.name n
          (ground (arith, get-put c.name n.name n m, ap (λ (x : Node). x.name) p)))
  | inr j ↦
      pv_by_name_complete ns (if of_kind "persistentvolume" n then put n.name n m else m) c j k
]
