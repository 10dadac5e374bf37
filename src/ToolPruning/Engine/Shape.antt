-- ===== src/ToolPruning/Engine/Shape.antt =====
-- What the pruning of a JSON value leaves as it is.
use kimi_proxy.Base.{
  ℕ, suc, max, ℤ, String, Bool, true, false, not, ◌≡◌, refl, ap, sym, ◌∙◌, arith, ◌=ₛ◌, eq_iff, leb,
  ltb, pos_part, count, Bool-cases, ◌⊎◌, inl, inr, ◌||◌,
}
use kimi_proxy.Json.{
  Value, Items, Fields, null, bool, int, real, str, arr, obj, nil, cons, end, field, get, put,
}
use kimi_proxy.ToolPruning.Engine.{prune_json_value, Config, PruneRequest, Answer, Run}
use kimi_proxy.ToolPruning.Engine

-- A value with its texts made empty: the keys, the order, the numbers and the nesting.
unfoldable mutual
  pub shape : Value → Value
  shape null = null
  shape (bool b) = bool b
  shape (int i) = int i
  shape (real x) = real x
  shape (str s) = str ""
  shape (arr xs) = arr (shape_items xs)
  shape (obj d) = obj (shape_fields d)

  pub shape_items : Items → Items
  shape_items nil = nil
  shape_items (cons v xs) = cons (shape v) (shape_items xs)

  pub shape_fields : Fields → Fields
  shape_fields end = end
  shape_fields (field k v d) = field k (shape v) (shape_fields d)

-- the value, the run and whether it changed, against the value before
IsKept : {X : Type 0} → (X → X) → X → X × (Run × Bool) → Type 0
IsKept f v w = (f w.0 ≡ f v) × ((w.1.1 ≡ true) ⊎ (w.0 ≡ v))

enter-IsKept :
    (cfg : Config) (v : Value) (depth : ℕ) (r : Run) (w : Value × (Run × Bool))
    → IsKept shape v w
    → IsKept shape v (Engine.enter cfg v depth r w)
unfolding Engine.enter IsKept
enter-IsKept cfg v depth r w h = elim (Bool-cases (leb (suc r.visited) (max 1 cfg.max_nodes))) [
  | inr p ↦ rw p (refl, inr refl)
  | inl p ↦ elim (Bool-cases (leb cfg.max_depth depth)) [
    | inl q ↦ rw (p, q) (refl, inr refl)
    | inr q ↦ rw (p, q) h
  ]
]

-- a value rebuilt from one part, and from two
changed_one :
    {X Y : Type 0} {b : Bool} {w v : X} (c : X → Y)
    → (b ≡ true) ⊎ (w ≡ v)
    → (b ≡ true) ⊎ (c w ≡ c v)
changed_one c (inl p) = inl p
changed_one c (inr p) = inr (ap c p)

changed_two :
    {X : Type 0} {w v : Value} {ys xs : X} (c : Value → X → X) (a b : Bool)
    → (a ≡ true) ⊎ (w ≡ v)
    → (b ≡ true) ⊎ (ys ≡ xs)
    → ((a || b) ≡ true) ⊎ (c w ys ≡ c v xs)
changed_two c a b (inl p) q = inl (ground arith)
changed_two c a b (inr p) (inl q) = inl (ground arith)
changed_two c a b (inr p) (inr q) = inr cc

module _ (cfg : Config) (pruner : ℕ → PruneRequest → Answer) (request_id : ℤ)
    (goal_hint source_type : String) where
  prune_leaf-IsKept :
      (s : String) (r : Run)
      → IsKept shape (str s) (Engine.prune_leaf cfg pruner request_id goal_hint source_type s r)
  unfolding Engine.prune_leaf IsKept shape
  prune_leaf-IsKept s r = elim (Bool-cases (ltb (count s) (pos_part cfg.min_chars))) [
    | inl p ↦ rw p (refl, inr refl)
    | inr p ↦ rw p (
      refl,
      elim (Bool-cases
          ((Engine.prune_plain_text cfg pruner request_id goal_hint source_type s r).0 =ₛ s)) [
            | inl q ↦ inr (ap str ((eq_iff _ _).0 q))
            | inr q ↦ inl (ap not q)
          ],
    )
  ]

  mutual
    unfolding Engine.prune_json_value Engine.prune_leaf Engine.tick IsKept shape

    value-IsKept :
        (v : Value) (depth : ℕ) (r : Run)
        → IsKept shape v
            (Engine.prune_json_value cfg pruner request_id goal_hint source_type v depth r)
    value-IsKept (str s) depth r =
        enter-IsKept cfg (str s) depth r _ (prune_leaf-IsKept s (Engine.tick r))
    value-IsKept (arr xs) depth r =
        enter-IsKept cfg (arr xs) depth r _
          (let h = items-IsKept xs (suc depth) (Engine.tick r) in (ap arr h.0, changed_one arr h.1))
    value-IsKept (obj d) depth r =
        enter-IsKept cfg (obj d) depth r _
          (let h = fields-IsKept d (suc depth) (Engine.tick r) in (ap obj h.0, changed_one obj h.1))
    value-IsKept null depth r = enter-IsKept cfg null depth r _ (refl, inr refl)
    value-IsKept (bool b) depth r = enter-IsKept cfg (bool b) depth r _ (refl, inr refl)
    value-IsKept (int i) depth r = enter-IsKept cfg (int i) depth r _ (refl, inr refl)
    value-IsKept (real x) depth r = enter-IsKept cfg (real x) depth r _ (refl, inr refl)

    items-IsKept :
        (v : Items) (depth : ℕ) (r : Run)
        → IsKept shape_items v
            (Engine.prune_json_items cfg pruner request_id goal_hint source_type v depth r)
    items-IsKept nil depth r = (refl, inr refl)
    items-IsKept (cons v xs) depth r =
        let h = value-IsKept v depth r in
        let r' =
          (Engine.prune_json_value cfg pruner request_id goal_hint source_type v depth r).1.0 in
        let k = items-IsKept xs depth r' in (cc, changed_two cons _ _ h.1 k.1)

    fields-IsKept :
        (v : Fields) (depth : ℕ) (r : Run)
        → IsKept shape_fields v
            (Engine.prune_json_fields cfg pruner request_id goal_hint source_type v depth r)
    fields-IsKept end depth r = (refl, inr refl)
    fields-IsKept (field k v d) depth r =
        let h = value-IsKept v depth r in
        let r' =
          (Engine.prune_json_value cfg pruner request_id goal_hint source_type v depth r).1.0 in
        let m = fields-IsKept d depth r' in (cc, changed_two (field k) _ _ h.1 m.1)

  -- Pruning a JSON value keeps its shape, and where it reports no change, the value is the same.
  pub prune_json_value-shape :
      (v : Value) (depth : ℕ) (r : Run)
      → (shape (prune_json_value cfg pruner request_id goal_hint source_type v depth r).0 ≡ shape v)
        × (((prune_json_value cfg pruner request_id goal_hint source_type v depth r).1.1 ≡ true)
            ⊎ ((prune_json_value cfg pruner request_id goal_hint source_type v depth r).0 ≡ v))
  unfolding IsKept
  prune_json_value-shape = value-IsKept

abbrev pub is_null : Value → Bool
is_null null = true
is_null _ = false

get-here : (k j : String) (w : Value) (d : Fields) → (j =ₛ k) ≡ true → get k (field j w d) ≡ w
unfolding get
get-here k j w d p = rw p refl

get-there :
    (k j : String) (w : Value) (d : Fields) → (j =ₛ k) ≡ false → get k (field j w d) ≡ get k d
unfolding get
get-there k j w d p = rw p refl

-- A key that is there is given a value of the same shape.
pub shape-put :
    (k : String) (v : Value) (d : Fields)
    → is_null (get k d) ≡ false
    → shape v ≡ shape (get k d)
    → shape_fields (put k v d) ≡ shape_fields d
unfolding put get shape
shape-put k v end h e = cc
shape-put k v (field j w d) h e = elim (Bool-cases (j =ₛ k)) [
  | inl p ↦ rw p (ap (λ x. field j x (shape_fields d)) (e ∙ ap shape (get-here k j w d p)))
  | inr p ↦ rw p (
      ap (field j (shape w)) (
        shape-put k v d (sym (ap is_null (get-there k j w d p)) ∙ h)
          (e ∙ ap shape (get-there k j w d p))))
]
