-- ===== src/Base/Tables.antt =====
-- Tables with number keys: dictionaries by session, and the rows of a database table by id.
use Prim.Native.Nat.{ℕ}
use mathlib.Core.Path.{◌≡◌, refl}
use mathlib.Core.List.{List, [], ◌∷◌}
use mathlib.Core.Option.{Option, none, some, map}
use native.Mathlib.Omega.{arith}
use kimi_proxy.Base.Tests.{◌==◌, if◌then◌else◌}

abbrev pub Table {ℓ} : Type ℓ → Type ℓ
Table V = List (ℕ × V)

module _ {ℓ} {V : Type ℓ} where
  unfoldable pub find : ℕ → Table V → Option V
  find k [] = none
  find k ((j, v) ∷ t) = if j == k then some v else find k t

  -- `d[k] = v`
  unfoldable pub set : ℕ → V → Table V → Table V
  set k v [] = (k, v) ∷ []
  set k v ((j, w) ∷ t) = if j == k then (j, v) ∷ t else (j, w) ∷ set k v t

  -- `d.pop(k, None)`
  unfoldable pub erase : ℕ → Table V → Table V
  erase k [] = []
  erase k ((j, w) ∷ t) = let rest = erase k t in if j == k then rest else (j, w) ∷ rest

  -- `UPDATE … WHERE id = k`
  unfoldable pub update : ℕ → (V → V) → Table V → Table V
  update k f [] = []
  update k f ((j, w) ∷ t) = (j, (if j == k then f w else w)) ∷ update k f t

  pub find-set :
      (k j : ℕ) (v : V) (t : Table V) → find j (set k v t) ≡ (if k == j then some v else find j t)
  unfolding find set
  find-set k j v [] = refl
  find-set k j v ((i, w) ∷ t) = ground (arith, find-set k j v t)

  pub find-erase :
      (k j : ℕ) (t : Table V) → find j (erase k t) ≡ (if k == j then none else find j t)
  unfolding find erase
  find-erase k j [] = ground arith
  find-erase k j ((i, w) ∷ t) = ground (arith, find-erase k j t)

  pub find-update :
      (k j : ℕ) (f : V → V) (t : Table V)
      → find j (update k f t) ≡ (if k == j then map f (find j t) else find j t)
  unfolding find update
  find-update k j f [] = ground arith
  find-update k j f ((i, w) ∷ t) = ground (arith, find-update k j f t)
