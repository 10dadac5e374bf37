-- ===== src/Pruner/Thin.antt =====
-- What the thinning of layer 1 guarantees, whatever the rounding of its step.
use mathlib.Core.List.{append_assoc}
use kimi_proxy.Base.{
  ℕ, zero, suc, ◌+◌, ◌≤◌, ◌≡◌, refl, true, Option, none, some, List, [], ◌∷◌, length, get_elem?,
  arith, leb, All, Bool-cases, ◌<◌, ◌++◌, inl, inr,
}
use kimi_proxy.Base.Sorting.{
  sort_by, elem_ℕ, elem_ℕ-append, length-sort_by, All-sort_by, IsDistinct, IsAscending,
  IsAscending-sort_by,
}
use kimi_proxy.Pruner.Target
use kimi_proxy.Pruner.Target.{Rounding}

-- a set of at most `k` of the active lines
record IsPart (active : List ℕ) (k : ℕ) (s : List ℕ) : Type 0 where
  subset : All (λ x. elem_ℕ x active ≡ true) s
  distinct : IsDistinct s
  small : length s ≤ k

elem_ℕ-get_elem? :
    (active : List ℕ) (i x : ℕ) → get_elem? active i ≡ some x → elem_ℕ x active ≡ true
unfolding elem_ℕ
elem_ℕ-get_elem? [] i x h = cc
elem_ℕ-get_elem? (y ∷ ys) zero x h = ground arith
elem_ℕ-get_elem? (y ∷ ys) (suc i) x h = ground (arith, elem_ℕ-get_elem? ys i x)

module _ (fl : Rounding) (active : List ℕ) where
  add_ℕ-IsPart :
      (k x : ℕ) (s : List ℕ)
      → elem_ℕ x active ≡ true
      → IsPart active k s
      → IsPart active (suc k) (Target.add_ℕ fl x s)
  unfolding Target.add_ℕ
  add_ℕ-IsPart k x s h p = ground (arith, p.subset, p.distinct, p.small)

  add_found-IsPart :
      (k : ℕ) (o : Option ℕ) (s : List ℕ)
      → ((x : ℕ) → o ≡ some x → elem_ℕ x active ≡ true)
      → IsPart active k s
      → IsPart active (suc k) (Target.add_found fl o s)
  unfolding Target.add_found
  add_found-IsPart k none s h p = record {
    subset = p.subset;
    distinct = p.distinct;
    small = omega arith;
  }
  add_found-IsPart k (some x) s h p = add_ℕ-IsPart k x s (h x refl) p

  pick-IsPart :
      (t i rounds k : ℕ) (s : List ℕ)
      → IsPart active k s
      → IsPart active (k + rounds) (Target.pick fl active t i rounds s)
  unfolding Target.pick
  pick-IsPart t i zero k s p = record {
    subset = p.subset;
    distinct = p.distinct;
    small = omega arith;
  }
  pick-IsPart t i (suc rounds) k s p =
      let idx = fl.trunc_step i (length active) t in
      let step = Target.add_found fl (get_elem? active idx) s in
      let q =
        pick-IsPart t (suc i) rounds (suc k) step
          (add_found-IsPart k (get_elem? active idx) s (elem_ℕ-get_elem? active idx) p) in
      record { subset = q.subset; distinct = q.distinct; small = omega arith }

  add_end-IsPart :
      (k : ℕ) (o : Option ℕ) (s : List ℕ)
      → ((x : ℕ) → o ≡ some x → elem_ℕ x active ≡ true)
      → IsPart active k s
      → IsPart active k (Target.add_end fl k o s)
  unfolding Target.add_end Target.add_ℕ
  add_end-IsPart k none s h p = p
  add_end-IsPart k (some x) s h p = ground (arith, h x refl, p.subset, p.distinct, p.small)

elem_ℕ-last :
    (fl : Rounding) (active : List ℕ) (x : ℕ)
    → Target.last fl active ≡ some x
    → elem_ℕ x active ≡ true
unfolding Target.last elem_ℕ
elem_ℕ-last fl [] x h = cc
elem_ℕ-last fl (y ∷ []) x h = ground arith
elem_ℕ-last fl (y ∷ z ∷ ys) x h = ground (arith, elem_ℕ-last fl (z ∷ ys) x h)

elem_ℕ-self : (before xs : List ℕ) → All (λ x. elem_ℕ x (before ++ xs) ≡ true) xs
elem_ℕ-self before [] = tt
elem_ℕ-self before (x ∷ xs) = (
  unfold elem_ℕ in ground (arith, elem_ℕ-append x before (x ∷ xs)),
  rw (append_assoc before (x ∷ []) xs) at (elem_ℕ-self (before ++ x ∷ []) xs),
)

module _ (fl : Rounding) (active : List ℕ) (k : ℕ) (sorted : IsAscending 0 active) where
  -- what is picked, sorted
  thinned : List ℕ
  thinned = sort_by leb (
      Target.add_end fl k (Target.last fl active)
        (Target.add_end fl k (get_elem? active 0) (Target.pick fl active k 0 k [])))

  -- what the thinning of the active lines to `k` lines has to return
  pub record IsThinned (out : List ℕ) : Type 0 where
    pub subset : All (λ x. elem_ℕ x active ≡ true) out
    pub ascending : IsAscending 0 out
    pub small : length out ≤ k
    pub untouched : length active ≤ k → out ≡ active

  picked-IsPart : IsPart active k (Target.pick fl active k 0 k [])
  picked-IsPart =
      let p =
        pick-IsPart fl active k 0 k 0 []
          (record { subset = tt; distinct = tt; small = omega arith }) in
      record { subset = p.subset; distinct = p.distinct; small = omega arith }

  thinned-IsThinned : k < length active → IsThinned thinned
  unfolding thinned
  thinned-IsThinned h =
      let s = Target.add_end fl k (get_elem? active 0) (Target.pick fl active k 0 k []) in
      let p = add_end-IsPart fl active k (Target.last fl active) s (elem_ℕ-last fl active) (
        add_end-IsPart fl active k (get_elem? active 0) _ (elem_ℕ-get_elem? active 0)
          picked-IsPart) in
      let u = Target.add_end fl k (Target.last fl active) s in
      record {
        subset = All-sort_by leb (λ x. elem_ℕ x active ≡ true) u p.subset;
        ascending = IsAscending-sort_by u p.distinct;
        small = omega (arith, length-sort_by leb u);
        untouched = λ g. absurd (omega arith);
      }

  active-IsThinned : length active ≤ k → IsThinned active
  active-IsThinned h = record {
    subset = elem_ℕ-self [] active;
    ascending = sorted;
    small = h;
    untouched = λ _. refl;
  }

  -- Whatever the rounding of the step, for active lines in ascending order the thinning returns
  -- active lines only, in ascending order and each once, at most as many as the target, and all
  -- of them if there are no more than that.
  pub compute_heuristic_keep_set-IsThinned :
      IsThinned (Target.compute_heuristic_keep_set fl active k)
  unfolding Target.compute_heuristic_keep_set
  compute_heuristic_keep_set-IsThinned = elim (Bool-cases (leb (length active) k)) [
    | inl p ↦ rw p (active-IsThinned (ground arith))
    | inr p ↦ rw p (elim (Bool-cases (leb k 0)) [
      | inl q ↦ rw q (record {
        subset = tt;
        ascending = tt;
        small = omega arith;
        untouched = λ g. absurd (ground arith);
      })
      | inr q ↦ rw q (unfold thinned in thinned-IsThinned (ground arith))
    ])
  ]
