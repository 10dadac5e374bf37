-- ===== src/Base/Dicts.antt =====
-- Python dictionaries with text keys, in insertion order, and sets of texts.
use Prim.Native.String.{String}
use mathlib.Core.Path.{◌≡◌, refl}
use mathlib.Core.Bool.{Bool, false, ◌||◌}
use mathlib.Core.List.{List, [], ◌∷◌}
use mathlib.Core.Option.{Option, none, some}
use native.Mathlib.Omega.{arith}
use text.Mathlib.Text.{◌==◌}
use text.Mathlib.TextEquality.{eq_iff}
use kimi_proxy.Base.Tests.{if◌then◌else◌}

abbrev pub Dict {ℓ} : Type ℓ → Type ℓ
Dict V = List (String × V)

module _ {ℓ} {V : Type ℓ} where
  unfoldable pub lookup : String → Dict V → Option V
  lookup k [] = none
  lookup k ((j, v) ∷ d) = if j == k then some v else lookup k d

  -- `d[k] = v`: a key that is there keeps its place
  unfoldable pub assign : String → V → Dict V → Dict V
  assign k v [] = (k, v) ∷ []
  assign k v ((j, w) ∷ d) = if j == k then (j, v) ∷ d else (j, w) ∷ assign k v d

  unfoldable pub discard : String → Dict V → Dict V
  discard k [] = []
  discard k ((j, w) ∷ d) = let rest = discard k d in if j == k then rest else (j, w) ∷ rest

  pub lookup-assign :
      (k j : String) (v : V) (d : Dict V)
      → lookup j (assign k v d) ≡ (if k == j then some v else lookup j d)
  unfolding lookup assign
  lookup-assign k j v [] = refl
  lookup-assign k j v ((i, w) ∷ d) =
      ground (arith, eq_iff k j, eq_iff i k, eq_iff i j, lookup-assign k j v d)

  pub lookup-discard :
      (k j : String) (d : Dict V) → lookup j (discard k d) ≡ (if k == j then none else lookup j d)
  unfolding lookup discard
  lookup-discard k j [] = ground arith
  lookup-discard k j ((i, w) ∷ d) =
      ground (arith, eq_iff k j, eq_iff i k, eq_iff i j, lookup-discard k j d)

-- sets of texts, as lists of distinct elements
unfoldable pub elem : String → List String → Bool
elem k [] = false
elem k (j ∷ s) = (j == k) || elem k s

unfoldable pub add : String → List String → List String
unfolding elem
add k s = if elem k s then s else k ∷ s

unfoldable pub union : List String → List String → List String
unfolding add
union s [] = s
union s (k ∷ t) = union (add k s) t

pub elem-add : (j k : String) (s : List String) → elem j (add k s) ≡ ((k == j) || elem j s)
unfolding add elem
elem-add j k s = ground (arith, eq_iff k j)

pub elem-union : (j : String) (s t : List String) → elem j (union s t) ≡ (elem j s || elem j t)
unfolding union elem
elem-union j s [] = ground arith
elem-union j s (k ∷ t) = ground (arith, elem-union j (add k s) t, elem-add j k s)
