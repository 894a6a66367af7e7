-- ===== src/Api/Related.antt =====
-- What the search of pkg/api/filtering.go is to find, and lemmas on the lists that it builds.
use astrolabe_server.Common.{
  ℕ, suc, ◌+◌, String, string_key, true, false, List, [], ◌∷◌, ◌++◌, ◌≡◌, refl, arith,
  if◌then◌else◌, ◌==◌, ◌⊎◌, map,
}
use astrolabe_server.Graph.Types.{Uid, Node, Graph}
use astrolabe_server.Graph.Lookup.{All}
use astrolabe_server.Api.Filtering.{has, admits, release_nodes, neighbours}

abbrev pub In : {A : Type 0} → A → List A → Type 0
In x [] = ⊥
In x (y ∷ ys) = (y ≡ x) ⊎ In x ys

abbrev pub uids : List Node → List Uid
uids = map (λ n. n.uid)

abbrev pub times : Uid → List Uid → ℕ
times u [] = 0
times u (w ∷ us) = let rest = times u us in if w == u then suc rest else rest

pub times-append : (u : Uid) (us vs : List Uid) → times u (us ++ vs) ≡ times u us + times u vs
times-append u [] vs = omega arith
times-append u (w ∷ us) vs = ground (arith, times-append u us vs)

pub times_of_not_has : (u : Uid) (us : List Uid) → has u us ≡ false → times u us ≡ 0
unfolding has
times_of_not_has u [] h = refl
times_of_not_has u (w ∷ us) h = ground (arith, times_of_not_has u us)

pub All-map :
    {A : Type 0} (P Q : A → Type 0) (xs : List A) → ((x : A) → P x → Q x) → All P xs → All Q xs
All-map P Q [] f a = tt
All-map P Q (x ∷ xs) f a = (f x a.0, All-map P Q xs f a.1)

pub All-middle :
    {A : Type 0} (P : A → Type 0) (xs : List A) (y : A) (ys : List A) → All P (xs ++ (y ∷ ys)) → P y
All-middle P [] y ys a = a.0
All-middle P (x ∷ xs) y ys a = All-middle P xs y ys a.1

-- What the search is to find: the base, and what it admits next to a node that it is to find.
pub data Related (g : Graph) (namespace release : String) (base : List Node) : Node → Type 0 where
  in_base : (n : Node) → In n base → Related g namespace release base n
  by_edge :
      (c n : Node)
      → Related g namespace release base c
      → In n (neighbours g c)
      → admits namespace release (release_nodes release base) c n ≡ true
      → Related g namespace release base n
