-- ===== src/Base/Sorting.antt =====
-- `list.sort(key=…)`, which is stable, and lists of distinct numbers that stand for sets.
use Prim.Native.Nat.{ℕ, suc, ◌≤◌}
use mathlib.Core.Path.{◌≡◌, refl}
use mathlib.Core.Bool.{Bool, false, ◌||◌}
use mathlib.Core.List.{List, [], ◌∷◌, ◌++◌}
use native.Mathlib.Omega.{arith}
use kimi_proxy.Base.Tests.{leb, ◌==◌, if◌then◌else◌}
use kimi_proxy.Base.Lists.{length, All}

module _ {ℓ} {A : Type ℓ} (before : A → A → Bool) where
  -- `x` comes from the left of `ys`, so it goes before what it does not have to follow
  unfoldable pub insert_by : A → List A → List A
  insert_by x [] = x ∷ []
  insert_by x (y ∷ ys) = if before x y then x ∷ y ∷ ys else y ∷ insert_by x ys

  unfoldable pub sort_by : List A → List A
  unfolding insert_by
  sort_by [] = []
  sort_by (x ∷ xs) = insert_by x (sort_by xs)

  length-insert_by : (x : A) (ys : List A) → length (insert_by x ys) ≡ suc (length ys)
  unfolding insert_by
  length-insert_by x [] = refl
  length-insert_by x (y ∷ ys) = ground (arith, length-insert_by x ys)

  pub length-sort_by : (xs : List A) → length (sort_by xs) ≡ length xs
  unfolding sort_by
  length-sort_by [] = refl
  length-sort_by (x ∷ xs) = omega (arith, length-insert_by x (sort_by xs), length-sort_by xs)

  module _ {κ} (P : A → Type κ) where
    pub All-insert_by : (x : A) (ys : List A) → P x → All P ys → All P (insert_by x ys)
    unfolding insert_by
    All-insert_by x [] p h = (p, tt)
    All-insert_by x (y ∷ ys) p h = ground (arith, All-insert_by x ys p h.1)

    pub All-sort_by : (xs : List A) → All P xs → All P (sort_by xs)
    unfolding sort_by
    All-sort_by [] h = tt
    All-sort_by (x ∷ xs) h = All-insert_by x (sort_by xs) h.0 (All-sort_by xs h.1)

    All-insert_by-conv : (x : A) (ys : List A) → All P (insert_by x ys) → P x × All P ys
    unfolding insert_by
    All-insert_by-conv x [] h = h
    All-insert_by-conv x (y ∷ ys) h = ground (arith, All-insert_by-conv x ys)

    pub All-sort_by-conv : (xs : List A) → All P (sort_by xs) → All P xs
    unfolding sort_by
    All-sort_by-conv [] h = tt
    All-sort_by-conv (x ∷ xs) h =
        let r = All-insert_by-conv x (sort_by xs) h in (r.0, All-sort_by-conv xs r.1)

-- `i in xs`
unfoldable pub elem_ℕ : ℕ → List ℕ → Bool
elem_ℕ i [] = false
elem_ℕ i (x ∷ xs) = (x == i) || elem_ℕ i xs

-- no number stands twice
abbrev pub IsDistinct : List ℕ → Type 0
IsDistinct [] = Unit
IsDistinct (x ∷ xs) = (elem_ℕ x xs ≡ false) × IsDistinct xs

-- strictly ascending from a lower bound: the sorted list of a set
abbrev pub IsAscending : ℕ → List ℕ → Type 0
IsAscending lo [] = Unit
IsAscending lo (x ∷ xs) = (lo ≤ x) × IsAscending (suc x) xs

pub elem_ℕ-append : (i : ℕ) (xs ys : List ℕ) → elem_ℕ i (xs ++ ys) ≡ (elem_ℕ i xs || elem_ℕ i ys)
unfolding elem_ℕ
elem_ℕ-append i [] ys = refl
elem_ℕ-append i (x ∷ xs) ys = ground (arith, elem_ℕ-append i xs ys)

pub elem_ℕ-sort_by : (i : ℕ) (xs : List ℕ) → elem_ℕ i (sort_by leb xs) ≡ elem_ℕ i xs
unfolding sort_by elem_ℕ
elem_ℕ-sort_by i [] = refl
elem_ℕ-sort_by i (x ∷ xs) =
    ground (arith, elem_ℕ-insert_by i x (sort_by leb xs), elem_ℕ-sort_by i xs)
  where
    elem_ℕ-insert_by :
        (i x : ℕ) (ys : List ℕ) → elem_ℕ i (insert_by leb x ys) ≡ ((x == i) || elem_ℕ i ys)
    elem_ℕ-insert_by i x [] = refl
    elem_ℕ-insert_by i x (y ∷ ys) = ground (arith, elem_ℕ-insert_by i x ys)

IsAscending-insert_by :
    (lo x : ℕ) (ys : List ℕ)
    → lo ≤ x
    → elem_ℕ x ys ≡ false
    → IsAscending lo ys
    → IsAscending lo (insert_by leb x ys)
unfolding insert_by elem_ℕ
IsAscending-insert_by lo x [] h e k = (h, tt)
IsAscending-insert_by lo x (y ∷ ys) h e k = ground (arith, IsAscending-insert_by (suc y) x ys)

-- sorting distinct numbers gives them in strictly ascending order
pub IsAscending-sort_by : (xs : List ℕ) → IsDistinct xs → IsAscending 0 (sort_by leb xs)
unfolding sort_by
IsAscending-sort_by [] h = tt
IsAscending-sort_by (x ∷ xs) h =
    IsAscending-insert_by 0 x (sort_by leb xs) (omega arith) (rw elem_ℕ-sort_by h.0)
      (IsAscending-sort_by xs h.1)
