-- ===== src/Router/Choice.antt =====
-- The models that the router chooses by the size of their context.
use mathlib.Core.List.{Memᴰ}
use mathlib.Core.Option.{some_inj}
use mathlib.Core.Bool.{true≢false}
use kimi_proxy.Base.{◌↔◌, ◌<◌, ◌∙◌, or_else, eq_iff}
use kimi_proxy.Base.{
  ℕ, ◌≤◌, String, ◌≡◌, refl, sym, ap, subst, length, true, false, Option, none, some, List, [], ◌∷◌,
  Dict, lookup, leb, leb→le, arith, All, Bool-cases, inl, inr,
}
use kimi_proxy.Base.Sorting.{
  sort_by, length-sort_by, All-sort_by, All-sort_by-conv, insert_by, All-insert_by,
}
use kimi_proxy.Router
use kimi_proxy.Router.{
  Session, Model, fits, context, default_max_context, find_heavy_duty_model,
  get_max_context_for_session,
}

-- the first candidate is no larger than the others
IsHeaded : List (String × ℕ) → Type 0
IsHeaded [] = Unit
IsHeaded (x ∷ xs) = All (λ y. x.1 ≤ y.1) xs

All-le_trans :
    (a b : ℕ) (xs : List (String × ℕ)) → a ≤ b → All (λ y. b ≤ y.1) xs → All (λ y. a ≤ y.1) xs
All-le_trans a b [] h k = tt
All-le_trans a b (x ∷ xs) h k = (omega (arith, k.0), All-le_trans a b xs h k.1)

sort_by-IsHeaded : (xs : List (String × ℕ)) → IsHeaded (sort_by Router.by_context xs)
unfolding sort_by insert_by IsHeaded
sort_by-IsHeaded [] = tt
sort_by-IsHeaded (x ∷ xs) = insert_by-IsHeaded (sort_by Router.by_context xs) (sort_by-IsHeaded xs)
  where
    insert_by-IsHeaded :
        (ys : List (String × ℕ)) → IsHeaded ys → IsHeaded (insert_by Router.by_context x ys)
    insert_by-IsHeaded [] h = tt
    insert_by-IsHeaded (y ∷ ys) h = elim (Bool-cases (leb x.1 y.1)) [
      | inl p ↦ rw p (leb→le x.1 y.1 p, All-le_trans x.1 y.1 ys (leb→le x.1 y.1 p) h)
      | inr p ↦ rw p (All-insert_by Router.by_context (λ z. y.1 ≤ z.1) x ys (ground arith) h)
    ]

sort_by-nil : (xs : List (String × ℕ)) → sort_by Router.by_context xs ≡ [] → xs ≡ []
sort_by-nil [] h = refl
sort_by-nil (x ∷ xs) h = ground (arith, length-sort_by Router.by_context (x ∷ xs), ap length h)

module _ (key : String) (current required : ℕ) where
  -- a candidate is an entry of the table that fits
  IsCandidate : Dict Model → String × ℕ → Type 0
  IsCandidate models e =
      (m : Model) × Memᴰ (e.0, m) models
      × (fits key current required m ≡ true)
      × (e.1 ≡ context default_max_context m)

  IsCandidate-tail :
      (e : String × ℕ) (w : String × Model) (models : Dict Model)
      → IsCandidate models e
      → IsCandidate (w ∷ models) e
  unfolding IsCandidate
  IsCandidate-tail e w models (m, h, f, c) = (m, Memᴰ.tail h, f, c)

  All-IsCandidate-tail :
      (w : String × Model) (models : Dict Model) (es : List (String × ℕ))
      → All (IsCandidate models) es
      → All (IsCandidate (w ∷ models)) es
  All-IsCandidate-tail w models [] h = tt
  All-IsCandidate-tail w models (e ∷ es) h =
      (IsCandidate-tail e w models h.0, All-IsCandidate-tail w models es h.1)

  candidates-IsCandidate :
      (models : Dict Model)
      → All (IsCandidate models) (Router.candidates_in key current required models)
  unfolding Router.candidates_in IsCandidate
  candidates-IsCandidate [] = tt
  candidates-IsCandidate ((k, m) ∷ ms) =
      let rest =
        All-IsCandidate-tail (k, m) ms (Router.candidates_in key current required ms)
          (candidates-IsCandidate ms) in
      elim (Bool-cases (fits key current required m)) [
        | inl p ↦ rw p ((m, Memᴰ.head refl, p, refl), rest)
        | inr p ↦ rw p rest
      ]

  -- no entry that fits has a smaller context than `c`
  abbrev IsLowerBound : ℕ → Dict Model → Type 0
  IsLowerBound c =
      All (λ e. fits key current required e.1 ≡ true → c ≤ context default_max_context e.1)

  candidates-IsLowerBound :
      (c : ℕ) (models : Dict Model)
      → All (λ e. c ≤ e.1) (Router.candidates_in key current required models)
      → IsLowerBound c models
  unfolding Router.candidates_in
  candidates-IsLowerBound c [] h = tt
  candidates-IsLowerBound c ((k, m) ∷ ms) h = elim (Bool-cases (fits key current required m)) [
    | inl p ↦ ground (arith, candidates-IsLowerBound c ms)
    | inr p ↦ ground (arith, candidates-IsLowerBound c ms)
  ]

  abbrev Chosen : Dict Model → Option String → Type 0
  Chosen models none = All (λ e. fits key current required e.1 ≡ false) models
  Chosen models (some k) =
      (m : Model) × Memᴰ (k, m) models
      × (fits key current required m ≡ true)
      × IsLowerBound (context default_max_context m) models

  candidates-none :
      (models : Dict Model)
      → Router.candidates_in key current required models ≡ []
      → Chosen models none
  unfolding Router.candidates_in
  candidates-none [] h = tt
  candidates-none ((k, m) ∷ ms) h = ground (arith, candidates-none ms)

  first_key-Chosen :
      (models : Dict Model) (sorted : List (String × ℕ))
      → sort_by Router.by_context (Router.candidates_in key current required models) ≡ sorted
      → Chosen models (Router.first_key sorted)
  unfolding Router.first_key IsCandidate IsHeaded
  first_key-Chosen models [] h = candidates-none models (sort_by-nil _ h)
  first_key-Chosen models ((k, c) ∷ es) h =
      let found = Router.candidates_in key current required models in
      let headed = subst IsHeaded h (sort_by-IsHeaded found) in
      let (m, p, f, e) =
        (subst (All (IsCandidate models)) h (
          All-sort_by Router.by_context (IsCandidate models) found
            (candidates-IsCandidate models))).0 in
      let least =
        All-sort_by-conv Router.by_context (λ y. c ≤ y.1) found
          (subst (All (λ y. c ≤ y.1)) (sym h) (omega arith, headed)) in
      (m, p, f, subst (λ n. IsLowerBound n models) e (candidates-IsLowerBound c models least))

-- the context of a model, of 262144 tokens where the configuration gives none
abbrev pub window : Model → ℕ
window m = or_else m.max_context_size 262144

-- the context of the model of the session, where it is in the table
abbrev pub current_window : Option Model → ℕ
current_window none = 262144
current_window (some m) = window m

-- a model of the provider, larger than the current one and large enough
abbrev pub Suits : String → ℕ → ℕ → Model → Type 0
Suits key current required m =
    (m.provider ≡ some key) × (current < window m) × (required ≤ window m)

-- the answer is a model that suits and is the smallest of those, and `none` only if none suits
abbrev pub IsChoice : String → ℕ → ℕ → Dict Model → Option String → Type 0
IsChoice key current required models none = All (λ e. ¬ Suits key current required e.1) models
IsChoice key current required models (some k) =
    (m : Model) × Memᴰ (k, m) models
    × Suits key current required m
    × All (λ e. Suits key current required e.1 → window m ≤ window e.1) models

has_provider_iff :
    (key : String) (o : Option String) → (Router.has_provider key o ≡ true) ↔ (o ≡ some key)
unfolding Router.has_provider
has_provider_iff key none = (λ h. absurd cc, λ h. absurd cc)
has_provider_iff key (some p) =
    (λ h. ap some ((eq_iff p key).0 h), λ h. (eq_iff p key).1 (some_inj.0 h))

context_of_current_lem : (o : Option Model) → Router.context_of_current o ≡ current_window o
unfolding Router.context_of_current
context_of_current_lem none = refl
context_of_current_lem (some m) = refl

module _ (key : String) (current required : ℕ) where
  fits-Suits : (m : Model) → fits key current required m ≡ true → Suits key current required m
  unfolding fits
  fits-Suits m h = elim (Bool-cases (Router.has_provider key m.provider)) [
    | inl p ↦ ((has_provider_iff key m.provider).0 p, ground arith, ground arith)
    | inr p ↦ ground arith
  ]

  Suits-fits : (m : Model) → Suits key current required m → fits key current required m ≡ true
  unfolding fits
  Suits-fits m (a, b, c) = ground (arith, (has_provider_iff key m.provider).1 a)

  All-unfit :
      (models : Dict Model)
      → All (λ e. fits key current required e.1 ≡ false) models
      → All (λ e. ¬ Suits key current required e.1) models
  All-unfit [] h = tt
  All-unfit (e ∷ es) h = (λ s. true≢false (sym (Suits-fits e.1 s) ∙ h.0), All-unfit es h.1)

  All-least :
      (c : ℕ) (models : Dict Model)
      → IsLowerBound key current required c models
      → All (λ e. Suits key current required e.1 → c ≤ window e.1) models
  All-least c [] h = tt
  All-least c (e ∷ es) h = (λ s. h.0 (Suits-fits e.1 s), All-least c es h.1)

  Chosen-IsChoice :
      (models : Dict Model) (o : Option String)
      → Chosen key current required models o
      → IsChoice key current required models o
  Chosen-IsChoice models none h = All-unfit models h
  Chosen-IsChoice models (some k) (m, i, f, least) =
      (m, i, fits-Suits m f, All-least (window m) models least)

-- The model that is chosen for a request that is too large belongs to the provider, has a context
-- larger than the current one and at least the required one, and no other such model has a smaller
-- one; none is chosen only if there is no such model. A model without a size has 262144 tokens.
pub find_heavy_duty_model-IsChoice :
    (key current_model : String) (required : ℕ) (models : Dict Model)
    → IsChoice key
        (current_window (lookup current_model models))
        required
        models
        (find_heavy_duty_model key current_model required models)
unfolding find_heavy_duty_model
find_heavy_duty_model-IsChoice key current_model required models =
    let current = Router.context_of_current (lookup current_model models) in
    subst
      (λ c.
        IsChoice key c required models (find_heavy_duty_model key current_model required models))
      (context_of_current_lem (lookup current_model models))
      (Chosen-IsChoice key current required models _
        (first_key-Chosen key current required models _ refl))
