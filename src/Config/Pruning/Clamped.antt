-- ===== src/Config/Pruning/Clamped.antt =====
-- The limits that loaded settings keep.
use kimi_proxy.Base.{
  ℕ, ℤ, pos, leb_ℤ, String, true, false, Option, none, some, List, [], ◌∷◌, ◌>>=◌, ◌≡◌, refl, arith,
  elem, ◌=ₛ◌, ◌||◌, Bool-cases, inl, inr, ◌⊎◌, ◌≢◌,
}
use kimi_proxy.Base.Text.{strip}
use kimi_proxy.Json.{Value, Items, Fields, int, real, as_obj, as_arr, get, get_or}
use kimi_proxy.Config.Values.{
  Floats, zero_bits, one_bits, at_least, unit_clamped, int_at_least, clamp_ratio, distinct, list_or,
  texts,
}
use kimi_proxy.Config.Pruning.{
  ToolPruningConfig, ToolPruningOptions, get_mcp_tool_pruning_config, tool_pruning_defaults,
  ratio_bits,
}
use kimi_proxy.Config.Pruning

-- the comparisons of floats that the limits depend on
pub record Compares (F : Floats) : Type 0 where
  pub zero_zero : F.less zero_bits zero_bits ≡ false
  pub one_zero : F.less one_bits zero_bits ≡ false
  pub one_one : F.less one_bits one_bits ≡ false
  pub ratio_zero : F.less ratio_bits zero_bits ≡ false
  pub one_ratio : F.less one_bits ratio_bits ≡ false

-- texts that are not empty, each once and none of those in `seen`
unfoldable pub IsDistinct : List String → List String → Type 0
IsDistinct seen [] = Unit
IsDistinct seen (s ∷ t) = ((s =ₛ "") ≡ false) × (elem s seen ≡ false) × IsDistinct (s ∷ seen) t

distinct-IsDistinct : (seen raws : List String) → IsDistinct seen (distinct seen raws)
unfolding distinct IsDistinct
distinct-IsDistinct seen [] = tt
distinct-IsDistinct seen (raw ∷ raws) =
    elim (Bool-cases ((strip raw =ₛ "") || elem (strip raw) seen)) [
      | inl p ↦ rw p (distinct-IsDistinct seen raws)
      | inr p ↦ rw p (ground arith, ground arith, distinct-IsDistinct (strip raw ∷ seen) raws)
    ]

pub at_least_lem : (low i : ℤ) → leb_ℤ low (at_least low i) ≡ true
at_least_lem low i = ground arith

int_at_least_lem :
    (default low : ℤ) (v : Value)
    → leb_ℤ low default ≡ true
    → leb_ℤ low (int_at_least default low v) ≡ true
unfolding int_at_least
int_at_least_lem default low (int i) h = at_least_lem low i
int_at_least_lem default low _ h = h

-- between 0.0 and 1.0, as far as `<` tells
pub record IsUnit (F : Floats) (x : ℕ) : Type 0 where
  pub low : F.less x zero_bits ≡ false
  pub high : F.less one_bits x ≡ false

unit_clamped-IsUnit : (F : Floats) → Compares F → (x : ℕ) → IsUnit F (unit_clamped F x)
unit_clamped-IsUnit F c x = elim (Bool-cases (F.less x zero_bits)) [
  | inl p ↦ rw (p, c.one_zero) (record { low = c.zero_zero; high = c.one_zero })
  | inr p ↦ elim (Bool-cases (F.less one_bits x)) [
    | inl q ↦ rw (p, q) (record { low = c.one_zero; high = c.one_one })
    | inr q ↦ rw (p, q) (record { low = p; high = q })
  ]
]

-- a ratio, or the failure of `float(i)`
Ratio : Floats → Option ℕ → Type 0
Ratio F o = ((o ≡ none) × ((i : ℤ) × (F.of_int i ≡ none))) ⊎ ((x : ℕ) × (o ≡ some x) × IsUnit F x)

of_int-Ratio :
    (F : Floats)
    → Compares F
    → (i : ℤ) (o : Option ℕ) → F.of_int i ≡ o
    → Ratio F (o >>= (λ (x : ℕ). some (unit_clamped F x)))
unfolding Ratio
of_int-Ratio F c i none e = inl (refl, (i, e))
of_int-Ratio F c i (some x) e = inr (unit_clamped F x, refl, unit_clamped-IsUnit F c x)

clamp_ratio-Ratio : (F : Floats) → Compares F → (v : Value) → Ratio F (clamp_ratio F ratio_bits v)
unfolding clamp_ratio Ratio
clamp_ratio-Ratio F c (int i) = of_int-Ratio F c i (F.of_int i) refl
clamp_ratio-Ratio F c (real x) = inr (unit_clamped F x, refl, unit_clamped-IsUnit F c x)
clamp_ratio-Ratio F c _ = inr (ratio_bits, refl, record { low = c.ratio_zero; high = c.one_ratio })

-- the limits of a loaded section
pub record IsClamped (F : Floats) (c : ToolPruningConfig) : Type 0 where
  pub min_chars : leb_ℤ (pos 0) c.min_chars ≡ true
  pub timeout_ms : leb_ℤ (pos 1) c.timeout_ms ≡ true
  pub max_chars_fallback : leb_ℤ (pos 0) c.max_chars_fallback ≡ true
  pub excluded_dirs : IsDistinct [] c.excluded_dirs
  pub some_excluded : c.excluded_dirs ≢ []
  pub max_prune_ratio : IsUnit F c.options.max_prune_ratio
  pub min_keep_lines : leb_ℤ (pos 0) c.options.min_keep_lines ≡ true
  pub options_timeout_ms : leb_ℤ (pos 1) c.options.timeout_ms ≡ true

pub defaults-IsDistinct : IsDistinct [] tool_pruning_defaults.excluded_dirs
unfolding IsDistinct elem
defaults-IsDistinct = (refl, refl, (refl, refl, (refl, refl, (refl, refl, tt))))

pub cons_not_nil : (s : String) (t : List String) → (s ∷ t) ≢ []
cons_not_nil s t = ground arith

list_or-IsDistinct :
    (ss ts : List String) → IsDistinct [] ss → IsDistinct [] ts → IsDistinct [] (list_or ss ts)
list_or-IsDistinct [] ts h k = k
list_or-IsDistinct (s ∷ ss) ts h k = h

pub list_or_not_nil : (ss ts : List String) → ts ≢ [] → list_or ss ts ≢ []
list_or_not_nil [] ts k = k
list_or_not_nil (s ∷ ss) ts k = cons_not_nil s ss

excluded_dirs_of-IsDistinct :
    (o : Option Items)
    → IsDistinct [] (Pruning.excluded_dirs_of o) × (Pruning.excluded_dirs_of o ≢ [])
unfolding Pruning.excluded_dirs_of
excluded_dirs_of-IsDistinct none = (defaults-IsDistinct, cons_not_nil _ _)
excluded_dirs_of-IsDistinct (some xs) = (
  list_or-IsDistinct (distinct [] (texts xs)) _ (distinct-IsDistinct [] (texts xs))
      defaults-IsDistinct,
  list_or_not_nil (distinct [] (texts xs)) _ (cons_not_nil _ _),
)

module _ (F : Floats) (compares : Compares F) where
  Loaded : Option ToolPruningConfig → Type 0
  Loaded o =
      ((o ≡ none) × ((i : ℤ) × (F.of_int i ≡ none)))
      ⊎ ((c : ToolPruningConfig) × (o ≡ some c) × IsClamped F c)

  tool_section-Loaded : (o : Option Fields) → Loaded (Pruning.tool_section F o)
  unfolding Pruning.tool_section Pruning.tool_options Loaded Ratio
  tool_section-Loaded none = inr (
    tool_pruning_defaults,
    refl,
    record {
      min_chars = refl;
      timeout_ms = refl;
      max_chars_fallback = refl;
      excluded_dirs = defaults-IsDistinct;
      some_excluded = cons_not_nil _ _;
      max_prune_ratio = record { low = compares.ratio_zero; high = compares.one_ratio };
      min_keep_lines = refl;
      options_timeout_ms = refl;
    },
  )
  tool_section-Loaded (some d) =
      elim (clamp_ratio-Ratio F compares (
        get_or "max_prune_ratio" (real ratio_bits) (Pruning.or_empty (as_obj (get "options" d))))) [
          | inl (p, (i, q)) ↦ rw p (inl (refl, (i, q)))
          | inr (x, p, q) ↦ rw p (
              inr (
                _,
                refl,
                record {
                  min_chars =
                      int_at_least_lem (pos 4000) (pos 0) (get_or "min_chars" (int (pos 4000)) d)
                        refl;
                  timeout_ms =
                      int_at_least_lem (pos 1500) (pos 1) (get_or "timeout_ms" (int (pos 1500)) d)
                        refl;
                  max_chars_fallback =
                      int_at_least_lem (pos 0) (pos 0) (get_or "max_chars_fallback" (int (pos 0)) d)
                        refl;
                  excluded_dirs = (excluded_dirs_of-IsDistinct (as_arr (get "excluded_dirs" d))).0;
                  some_excluded = (excluded_dirs_of-IsDistinct (as_arr (get "excluded_dirs" d))).1;
                  max_prune_ratio = q;
                  min_keep_lines =
                      int_at_least_lem (pos 40) (pos 0)
                        (get_or "min_keep_lines" (int (pos 40))
                          (Pruning.or_empty (as_obj (get "options" d))))
                        refl;
                  options_timeout_ms =
                      int_at_least_lem (pos 1500) (pos 1)
                        (get_or "timeout_ms" (int (pos 1500))
                          (Pruning.or_empty (as_obj (get "options" d))))
                        refl;
                },
              ))
        ]

  -- Whatever the file holds, the section gives settings within their limits: a length and a mask
  -- that are not negative, positive timeouts, a ratio that is neither below 0.0 nor above 1.0, and
  -- at least one excluded directory, each given once and none empty. Else `float` has raised on an
  -- integer, and with it the loader.
  pub get_mcp_tool_pruning_config-IsClamped :
      (config : Fields)
      → ((get_mcp_tool_pruning_config F config ≡ none) × ((i : ℤ) × (F.of_int i ≡ none)))
        ⊎ ((c : ToolPruningConfig) × (get_mcp_tool_pruning_config F config ≡ some c)
            × IsClamped F c)
  unfolding get_mcp_tool_pruning_config Loaded
  get_mcp_tool_pruning_config-IsClamped config =
      tool_section-Loaded (as_obj (get "mcp_tool_pruning" config))
