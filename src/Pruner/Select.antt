-- ===== src/Pruner/Select.antt =====
-- `_select_doc_indices` (deepinfra_engine.py): the lines that are sent to the reranker. The set
-- `indices` is built from the front; its order does not matter before it is sorted.
use kimi_proxy.Base.{
  ℕ, zero, suc, ◌+◌, ◌-◌, ◌*◌, ◌≤◌, ◌<◌, min, max, ℤ, pos_part, ◌≡◌, refl, ap, false, List, [], ◌∷◌,
  length, take, arith, ltb, leb, ◌==◌, All, Bool-cases, inl, inr, if◌then◌else◌,
}
use kimi_proxy.Base.Sorting.{
  sort_by, elem_ℕ, length-sort_by, All-sort_by, IsDistinct, IsAscending, IsAscending-sort_by,
}
use kimi_proxy.Pruner.Target.{Rounding}

-- `range(i, i + n)`
unfoldable pub range : ℕ → ℕ → List ℕ
range i zero = []
range i (suc n) = i ∷ range (suc i) n

add_index : ℕ → List ℕ → List ℕ
add_index i indices = if elem_ℕ i indices then indices else i ∷ indices

module _ (fl : Rounding) where
  open fl use {round_div}

  -- the loop over `range(m)`, with `rounds` rounds left
  spread : ℕ → ℕ → ℕ → ℕ → List ℕ → List ℕ
  unfolding add_index
  spread n m j zero indices = indices
  spread n m j (suc rounds) indices =
      spread n m (suc j) rounds (add_index (min (n - 1) (round_div (j * (n - 1)) (m - 1))) indices)

  -- `while len(indices) < m and cursor < n`, with `left` values of the cursor left
  fill : ℕ → ℕ → ℕ → List ℕ → List ℕ
  unfolding add_index
  fill m cursor zero indices = indices
  fill m cursor (suc left) indices =
      let rest = fill m (suc cursor) left (add_index cursor indices) in
      if ltb (length indices) m then rest else indices

  unfoldable pub select_doc_indices : ℕ → ℤ → List ℕ
  unfolding range spread fill
  select_doc_indices zero max_docs = []
  select_doc_indices (suc n) max_docs =
      let m = max 1 (pos_part max_docs) in
      if leb (suc n) m
      then range 0 (suc n)
      else if m == 1
      then 0 ∷ []
      else take m (sort_by leb (fill m 0 (suc n) (spread (suc n) m 0 m [])))

-- how many of the numbers from `c` to `c + left - 1` are not in the list
missing : ℕ → ℕ → List ℕ → ℕ
missing c zero xs = 0
missing c (suc left) xs = (if elem_ℕ c xs then 0 else 1) + missing (suc c) left xs

missing-cons_below :
    (c left x : ℕ) (xs : List ℕ) → x < c → missing c left (x ∷ xs) ≡ missing c left xs
unfolding missing elem_ℕ
missing-cons_below c zero x xs h = refl
missing-cons_below c (suc left) x xs h =
    ground (arith, missing-cons_below (suc c) left x xs (omega arith))

missing-cons :
    (c left x : ℕ) (xs : List ℕ)
    → elem_ℕ x xs ≡ false
    → c ≤ x
    → x < c + left
    → missing c left (x ∷ xs) + 1 ≡ missing c left xs
unfolding missing elem_ℕ
missing-cons c zero x xs e l h = absurd (omega arith)
missing-cons c (suc left) x xs e l h = elim (Bool-cases (x == c)) [
  | inl p ↦ ground (arith, missing-cons_below (suc c) left x xs)
  | inr p ↦ ground (arith, missing-cons (suc c) left x xs e)
]

missing-nil : (c left : ℕ) → missing c left [] ≡ left
unfolding missing elem_ℕ
missing-nil c zero = refl
missing-nil c (suc left) = ground (arith, missing-nil (suc c) left)

-- distinct numbers below `n` and those that are missing make `n`
length+missing :
    (n : ℕ) (xs : List ℕ) → IsDistinct xs → All (λ x. x < n) xs → length xs + missing 0 n xs ≡ n
length+missing n [] d h = omega (arith, missing-nil 0 n)
length+missing n (x ∷ xs) d h =
    omega
      (arith, length+missing n xs d.1 h.1, missing-cons 0 n x xs d.0 (omega arith) (omega arith))

-- a set of numbers below `n`, at most `k` of them
record IsSample (n k : ℕ) (xs : List ℕ) : Type 0 where
  below : All (λ x. x < n) xs
  distinct : IsDistinct xs
  small : length xs ≤ k

add_index-IsSample :
    (n k i : ℕ) (xs : List ℕ) → i < n → IsSample n k xs → IsSample n (suc k) (add_index i xs)
unfolding add_index
add_index-IsSample n k i xs h p = ground (arith, p.below, p.distinct, p.small)

spread-IsSample :
    (fl : Rounding) (n m j rounds k : ℕ) (xs : List ℕ)
    → IsSample (suc n) k xs
    → IsSample (suc n) (k + rounds) (spread fl (suc n) m j rounds xs)
unfolding spread
spread-IsSample fl n m j zero k xs p = record {
  below = p.below;
  distinct = p.distinct;
  small = omega arith;
}
spread-IsSample fl n m j (suc rounds) k xs p =
    let i = min (suc n - 1) (fl.round_div (j * (suc n - 1)) (m - 1)) in
    let q =
      spread-IsSample fl n m (suc j) rounds (suc k) (add_index i xs)
        (add_index-IsSample (suc n) k i xs (omega arith) p) in
    record { below = q.below; distinct = q.distinct; small = omega arith }

add_index-room :
    (n m c left : ℕ) (xs : List ℕ)
    → c < n
    → length xs < m
    → IsSample n m xs
    → m ≤ length xs + missing c (suc left) xs
    → IsSample n m (add_index c xs)
      × (m ≤ length (add_index c xs) + missing (suc c) left (add_index c xs))
unfolding add_index missing
add_index-room n m c left xs l room p h =
    ground (arith, p.below, p.distinct, p.small, missing-cons_below (suc c) left c xs)

-- the cursor finds as many indices as are wanted
fill-full :
    (fl : Rounding) (n m c left : ℕ) (xs : List ℕ)
    → c + left ≡ n
    → IsSample n m xs
    → m ≤ length xs + missing c left xs
    → IsSample n m (fill fl m c left xs) × (length (fill fl m c left xs) ≡ m)
unfolding fill missing
fill-full fl n m c zero xs e p h = (p, ground (arith, p.small))
fill-full fl n m c (suc left) xs e p h = elim (Bool-cases (ltb (length xs) m)) [
  | inl t ↦
      let q = add_index-room n m c left xs (omega arith) (ground arith) p h in
      rw t (fill-full fl n m (suc c) left (add_index c xs) (omega arith) q.0 q.1)
  | inr t ↦ rw t (p, ground (arith, p.small))
]

take_of_length : (m : ℕ) (xs : List ℕ) → length xs ≡ m → take m xs ≡ xs
take_of_length zero [] h = refl
take_of_length zero (x ∷ xs) h = absurd (omega arith)
take_of_length (suc m) [] h = refl
take_of_length (suc m) (x ∷ xs) h = ap (◌∷◌ x) (take_of_length m xs (omega arith))

-- `k` line numbers of a text of `n` lines, in ascending order
pub record IsSelection (n k : ℕ) (out : List ℕ) : Type 0 where
  pub below : All (λ x. x < n) out
  pub ascending : IsAscending 0 out
  pub full : length out ≡ k

range-IsSelection :
    (i n k : ℕ) → i + n ≤ k → All (λ x. x < k) (range i n) × IsAscending i (range i n)
unfolding range
range-IsSelection i zero k h = (tt, tt)
range-IsSelection i (suc n) k h =
    let q = range-IsSelection (suc i) n k (omega arith) in ((omega arith, q.0), (omega arith, q.1))

length-range : (i n : ℕ) → length (range i n) ≡ n
unfolding range
length-range i zero = refl
length-range i (suc n) = ap suc (length-range (suc i) n)

module _ (fl : Rounding) (n m : ℕ) (fits : m ≤ suc n) where
  abbrev filled : List ℕ
  filled = fill fl m 0 (suc n) (spread fl (suc n) m 0 m [])

  filled-IsSample : IsSample (suc n) m filled × (length filled ≡ m)
  filled-IsSample =
      let q =
        spread-IsSample fl n m 0 m 0 []
          (record { below = tt; distinct = tt; small = omega arith }) in
      let xs = spread fl (suc n) m 0 m [] in
      fill-full fl (suc n) m 0 (suc n) xs (omega arith)
        (record { below = q.below; distinct = q.distinct; small = omega arith })
        (omega (arith, length+missing (suc n) xs q.distinct q.below))

  sorted-IsSelection : IsSelection (suc n) m (take m (sort_by leb filled))
  sorted-IsSelection =
      let q = filled-IsSample in
      rw (take_of_length m (sort_by leb filled) (omega (arith, length-sort_by leb filled)))
        (record {
          below = All-sort_by leb (λ x. x < suc n) filled q.0.below;
          ascending = IsAscending-sort_by filled q.0.distinct;
          full = omega (arith, length-sort_by leb filled);
        })

-- Whatever the rounding, the selection has exactly as many line numbers as the text has lines or
-- as `max_docs` (taken as at least 1) allows: numbers of lines, ascending, each once.
pub select_doc_indices-IsSelection :
    (fl : Rounding) (n : ℕ) (max_docs : ℤ)
    → IsSelection n (min n (max 1 (pos_part max_docs))) (select_doc_indices fl n max_docs)
unfolding select_doc_indices
select_doc_indices-IsSelection fl zero max_docs = record {
  below = tt;
  ascending = tt;
  full = omega arith;
}
select_doc_indices-IsSelection fl (suc n) max_docs =
    let m = max 1 (pos_part max_docs) in
    elim (Bool-cases (leb (suc n) m)) [
      | inl p ↦ rw p (
          let q = range-IsSelection 0 (suc n) (suc n) (omega arith) in
          record { below = q.0; ascending = q.1; full = ground (arith, length-range 0 (suc n)) })
      | inr p ↦ rw p (elim (Bool-cases (m == 1)) [
        | inl q ↦ rw q (record {
          below = (omega arith, tt);
          ascending = (omega arith, tt);
          full = ground arith;
        })
        | inr q ↦ rw q (
            let s = sorted-IsSelection fl n m (ground arith) in
            record { below = s.below; ascending = s.ascending; full = ground (arith, s.full) })
      ])
    ]
