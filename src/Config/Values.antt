-- ===== src/Config/Values.antt =====
-- How a value of the file becomes a setting: tests of types, defaults and limits.
use kimi_proxy.Base.{
  ℕ, zero, ℤ, pos, ltb_ℤ, String, Bool, true, false, not, ◌||◌, ◌&&◌, Option, some, List, [], ◌∷◌,
  ◌=ₛ◌, elem, if◌then◌else◌, ◌>>=◌, leb,
}
use kimi_proxy.Base.Text.{strip}
use kimi_proxy.Json.{Value, Items, null, bool, int, real, str, arr, obj, nil, cons, end, field}

-- Python's floats, by their bits: `<`, `float(i)` and `int(x)`, none where these raise, and
-- `float(s)`
pub record Floats : Type 0 where
  pub less : ℕ → ℕ → Bool
  pub of_int : ℤ → Option ℕ
  pub trunc : ℕ → Option ℤ
  pub parse : String → Option ℕ

-- the bits of 0.0 and of 1.0
abbrev pub zero_bits : ℕ
zero_bits = 0

abbrev pub one_bits : ℕ
one_bits = 4607182418800017408

-- `max(low, i)`
abbrev pub at_least : ℤ → ℤ → ℤ
at_least low i = if ltb_ℤ i low then low else i

-- `bool(v)`; -0.0 has the bits 2 ** 63
unfoldable pub truth : Value → Bool
truth null = false
truth (bool b) = b
truth (int (pos zero)) = false
truth (int i) = true
truth (real x) = not (leb x 0) && not (leb x 9223372036854775808 && leb 9223372036854775808 x)
truth (str s) = not (s =ₛ "")
truth (arr nil) = false
truth (arr (cons v xs)) = true
truth (obj end) = false
truth (obj (field k v d)) = true

-- an int no smaller than `low`, or the default
unfoldable pub int_at_least : ℤ → ℤ → Value → ℤ
int_at_least default low (int i) = at_least low i
int_at_least default low _ = default

-- `_clamp_int` after the tests of the type
between : ℤ → ℤ → ℤ → ℤ
between low high v = if ltb_ℤ v low then low else if ltb_ℤ high v then high else v

module _ (F : Floats) where
  -- `_clamp_int` of `get_mcp_pruner_backend_config`
  unfoldable pub clamp_int : ℤ → ℤ → ℤ → Value → Option ℤ
  unfolding between
  clamp_int default low high (int i) = some (between low high i)
  clamp_int default low high (real x) = F.trunc x >>= (λ (i : ℤ). some (between low high i))
  clamp_int default low high _ = some default

  -- `_clamp_int` of `get_mcp_gateway_config`
  unfoldable pub clamp_int_low : ℤ → ℤ → Value → Option ℤ
  clamp_int_low default low (int i) = some (at_least low i)
  clamp_int_low default low (real x) = F.trunc x >>= (λ (i : ℤ). some (at_least low i))
  clamp_int_low default low _ = some default

  abbrev pub unit_clamped : ℕ → ℕ
  unit_clamped x =
      let raised = if F.less x zero_bits then zero_bits else x in
      if F.less one_bits raised then one_bits else raised

  -- a number between 0.0 and 1.0, or the default
  unfoldable pub clamp_ratio : ℕ → Value → Option ℕ
  clamp_ratio default (int i) = F.of_int i >>= (λ (x : ℕ). some (unit_clamped x))
  clamp_ratio default (real x) = some (unit_clamped x)
  clamp_ratio default _ = some default

  -- `max(0.0, min(1.0, x))`
  unit_min_max : ℕ → ℕ
  unit_min_max x =
      let lowered = if F.less x one_bits then x else one_bits in
      if F.less zero_bits lowered then lowered else zero_bits

  -- `_clamp_float` of `get_mcp_gateway_config`
  unfoldable pub clamp_float : ℕ → Value → Option ℕ
  unfolding unit_min_max
  clamp_float default (int i) = F.of_int i >>= (λ (x : ℕ). some (unit_min_max x))
  clamp_float default (real x) = some (unit_min_max x)
  clamp_float default _ = some default

-- a text, or the default
unfoldable pub str_or : String → Value → String
str_or default (str s) = s
str_or default _ = default

-- the stripped texts, without the empty ones and those in `seen`
unfoldable pub distinct : List String → List String → List String
distinct seen [] = []
distinct seen (raw ∷ raws) =
    let item = strip raw in
    let known = (item =ₛ "") || elem item seen in
    let rest = distinct (if known then seen else item ∷ seen) raws in
    if known then rest else item ∷ rest

unfoldable pub texts : Items → List String
texts nil = []
texts (cons (str s) xs) = s ∷ texts xs
texts (cons v xs) = texts xs

-- `x or y` for lists
abbrev pub list_or : List String → List String → List String
list_or [] ys = ys
list_or (x ∷ xs) ys = x ∷ xs
