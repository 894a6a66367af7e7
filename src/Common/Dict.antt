-- ===== src/Common/Dict.antt =====
-- Go's maps, as lists of entries in which each key stands once. The order of the entries is the
-- order in which a `range` loop visits them, which Go leaves open: the theorems hold for every
-- list of entries.
use mathlib.Core.Path.{◌≡◌}
use mathlib.Core.Logic.{ite}
use mathlib.Core.List.{List, [], ◌∷◌}
use mathlib.Core.Option.{Option, none, some}
use native.Mathlib.Omega.{arith}
use astrolabe_server.Common.Keys.{Key}

abbrev pub Dict {ℓ} : Type ℓ → Type ℓ → Type ℓ
Dict K V = List (K × V)

module _ {ℓ} {K V : Type ℓ} ⦃key : Key K⦄ where
  -- `v, exists := m[k]`
  unfoldable pub get : K → Dict K V → Option V
  get k [] = none
  get k ((j, v) ∷ m) = ite (key.dec j k) (some v) (get k m)

  -- `delete(m, k)`
  unfoldable pub delete : K → Dict K V → Dict K V
  delete k [] = []
  delete k ((j, v) ∷ m) = ite (key.dec j k) (delete k m) ((j, v) ∷ delete k m)

  -- `m[k] = v`
  unfoldable pub put : K → V → Dict K V → Dict K V
  put k v m = (k, v) ∷ delete k m

  pub get-delete : (j k : K) (m : Dict K V) → get j (delete k m) ≡ ite (key.dec k j) none (get j m)
  unfolding get delete
  get-delete j k [] = ground arith
  get-delete j k ((i, v) ∷ m) = ground (arith, get-delete j k m)

  pub get-put :
      (j k : K) (v : V) (m : Dict K V) → get j (put k v m) ≡ ite (key.dec k j) (some v) (get j m)
  unfolding get put
  get-put j k v m = ground (arith, get-delete j k m)

-- `m[k]` where the zero value `d` stands for a missing key.
abbrev pub get_or {ℓ} : {K V : Type ℓ} ⦃key : Key K⦄ → K → V → Dict K V → V
get_or k d m = elim (get k m) [ none ↦ d | some v ↦ v ]
