-- ===== src/Base/Assoc.antt =====
-- JavaScript's `Map` with number keys: entries in order of insertion.
use better_nodejs_vless_ws.Base.Lists.{length}
use better_nodejs_vless_ws.Base.Tests.{◌==◌, if◌then◌else◌}
use Prim.Native.Nat.{ℕ, ◌+◌, ◌≤◌}
use mathlib.Core.Path.{◌≡◌, refl}
use mathlib.Core.List.{List, [], ◌∷◌}
use mathlib.Core.Option.{Option, none, some}
use native.Mathlib.Omega.{arith}

module _ {ℓ} {V : Type ℓ} where
  -- `map.get(k)`.
  unfoldable pub map_get : ℕ → List (ℕ × V) → Option V
  map_get k [] = none
  map_get k ((j, v) ∷ m) = if j == k then some v else map_get k m

  -- `map.set(k, v)`: a key that is there keeps its place.
  unfoldable pub map_set : ℕ → V → List (ℕ × V) → List (ℕ × V)
  map_set k v [] = (k, v) ∷ []
  map_set k v ((j, w) ∷ m) = if j == k then (k, v) ∷ m else (j, w) ∷ map_set k v m

  -- `map.delete(k)`.
  unfoldable pub map_delete : ℕ → List (ℕ × V) → List (ℕ × V)
  map_delete k [] = []
  map_delete k ((j, v) ∷ m) = if j == k then m else (j, v) ∷ map_delete k m

  -- Every value satisfies the predicate.
  abbrev pub Values {κ} : (V → Type κ) → List (ℕ × V) → Type κ
  Values P [] = Unit {κ}
  Values P ((j, v) ∷ m) = P v × Values P m

  pub map_get-map_set :
      (k j : ℕ) (v : V) (m : List (ℕ × V))
      → map_get j (map_set k v m) ≡ (if k == j then some v else map_get j m)
  unfolding map_get map_set
  map_get-map_set k j v [] = refl
  map_get-map_set k j v ((i, w) ∷ m) = ground (arith, map_get-map_set k j v m)

  pub map_set-Values {κ} :
      (P : V → Type κ) (k : ℕ) (v : V) (m : List (ℕ × V))
      → P v
      → Values P m
      → Values P (map_set k v m)
  unfolding map_set
  map_set-Values P k v [] h p = (h, tt)
  map_set-Values P k v ((j, w) ∷ m) h p = ground (arith, map_set-Values P k v m h p.1)

  pub map_delete-Values {κ} :
      (P : V → Type κ) (k : ℕ) (m : List (ℕ × V)) → Values P m → Values P (map_delete k m)
  unfolding map_delete
  map_delete-Values P k [] p = p
  map_delete-Values P k ((j, w) ∷ m) p = ground (arith, map_delete-Values P k m p.1)

  pub map_get-Values {κ} :
      (P : V → Type κ) (k : ℕ) (m : List (ℕ × V)) (v : V) → Values P m → map_get k m ≡ some v → P v
  unfolding map_get
  map_get-Values P k [] v p e = cc
  map_get-Values P k ((j, w) ∷ m) v p e = ground (arith, map_get-Values P k m v p.1)

  pub length-map_set-le : (k : ℕ) (v : V) (m : List (ℕ × V)) → length (map_set k v m) ≤ length m + 1
  unfolding map_set
  length-map_set-le k v [] = omega arith
  length-map_set-le k v ((j, w) ∷ m) = ground (arith, length-map_set-le k v m)
