-- ===== src/Graph/Entries.antt =====
-- The maps of pkg/graph/types.go, in which each key stands once.
use astrolabe_server.Common.{String, str_dec, string_key, none, some, [], ◌∷◌, ◌≡◌, arith}
use astrolabe_server.Common.Dict.{Dict, get, put, delete, get-delete}
use astrolabe_server.Graph.Lookup.{All}

-- Each key stands once, as in a map of the source.
abbrev pub Distinct : {V : Type 0} → Dict String V → Type 0
Distinct [] = Unit
Distinct ((k, _) ∷ m) = (get k m ≡ none) × Distinct m

-- What holds of every entry that a key finds holds of all entries.
pub All-entries :
    {V : Type 0} (P : String → V → Type 0) (m : Dict String V)
    → Distinct m
    → ((k : String) (v : V) → get k m ≡ some v → P k v)
    → All (λ entry. P entry.0 entry.1) m
unfolding get
All-entries P [] d f = tt
All-entries P ((j, w) ∷ m) d f =
    (f j w (ground arith), All-entries P m d.1 (λ k v h. f k v (ground (arith, d.0))))

pub delete-Distinct :
    {V : Type 0} (k : String) (m : Dict String V) → Distinct m → Distinct (delete k m)
unfolding delete
delete-Distinct k [] d = tt
delete-Distinct k ((j, v) ∷ m) d = elim (str_dec j k) [
  | yes p ↦ ground (arith, delete-Distinct k m d.1)
  | no p ↦ ground (arith, delete-Distinct k m d.1, get-delete j k m, d.0)
]

pub put-Distinct :
    {V : Type 0} (k : String) (v : V) (m : Dict String V) → Distinct m → Distinct (put k v m)
unfolding put
put-Distinct k v m d = (ground (arith, get-delete k k m), delete-Distinct k m d)
