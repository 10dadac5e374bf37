-- ===== src/Router.antt =====
-- The routing of requests (src/kimi_proxy/proxy/router.py). The tables of providers and of models
-- are dictionaries of records, whose missing fields are `none`. A session is `none` where the code
-- gets an empty or no dict; context sizes are not negative.
pub mod Choice
pub mod Names
use kimi_proxy.Base.{
  ℕ, zero, suc, String, Bool, true, false, not, ◌&&◌, Option, none, some, or_else, List, [], ◌∷◌,
  Dict, lookup, leb, ltb, ◌=ₛ◌, is_some, if◌then◌else◌,
}
use kimi_proxy.Base.Text.{contains, rstrip_slash, after_slash}
use kimi_proxy.Base.Sorting.{sort_by}

pub record Session : Type 0 where
  pub provider : Option String
  pub model : Option String

pub record Provider : Type 0 where
  pub base_url : Option String

pub record Model : Type 0 where
  pub provider : Option String
  pub model : Option String
  pub max_context_size : Option ℕ

abbrev pub default_max_context : ℕ
default_max_context = 262144

abbrev pub default_provider : String
default_provider = "managed:kimi-code"

abbrev pub kimi_url : String
kimi_url = "https://api.kimi.com/coding/v1"

base_url_of : Option Provider → String
base_url_of none = ""
base_url_of (some p) = or_else p.base_url ""

unfoldable pub get_target_url_for_session : Option Session → Dict Provider → String
unfolding base_url_of
get_target_url_for_session none providers = kimi_url
get_target_url_for_session (some s) providers =
    let url = base_url_of (lookup (or_else s.provider default_provider) providers) in
    if not (url =ₛ "") && not (contains "127.0.0.1:8000" url) && not (contains "localhost:8000" url)
    then rstrip_slash url
    else kimi_url

-- `model_data.get("provider") == provider_key`
has_provider : String → Option String → Bool
has_provider key none = false
has_provider key (some p) = p =ₛ key

-- `model.get("max_context_size", default)`
abbrev pub context : ℕ → Model → ℕ
context default m = or_else m.max_context_size default

pub context_of_current : Option Model → ℕ
context_of_current none = default_max_context
context_of_current (some m) = context default_max_context m

-- the condition on a candidate
unfoldable pub fits : String → ℕ → ℕ → Model → Bool
unfolding has_provider
fits key current required m =
    has_provider key m.provider
    && ltb current (context default_max_context m)
    && leb required (context default_max_context m)

candidates_in : String → ℕ → ℕ → Dict Model → List (String × ℕ)
candidates_in key current required [] = []
candidates_in key current required ((k, m) ∷ ms) =
    let rest = candidates_in key current required ms in
    if fits key current required m then (k, context default_max_context m) ∷ rest else rest

abbrev by_context : String × ℕ → String × ℕ → Bool
by_context a b = leb a.1 b.1

first_key : List (String × ℕ) → Option String
first_key [] = none
first_key ((k, _) ∷ _) = some k

unfoldable pub find_heavy_duty_model : String → String → ℕ → Dict Model → Option String
unfolding candidates_in first_key context_of_current sort_by
find_heavy_duty_model key current_model required models = first_key (
    sort_by by_context
      (candidates_in key (context_of_current (lookup current_model models)) required models))

-- the loop of `get_max_context_for_session`, from the smallest context seen
least_context : String → ℕ → Dict Model → Option ℕ → Option ℕ
least_context key default [] least = least
least_context key default ((_, m) ∷ ms) least =
    least_context key default ms
      (if has_provider key m.provider then least_of (context default m) least else least)
  where
    least_of : ℕ → Option ℕ → Option ℕ
    least_of c none = some c
    least_of c (some l) = if ltb c l then some c else some l

-- `min_context if min_context else default`
nonzero_or : ℕ → Option ℕ → ℕ
nonzero_or default none = default
nonzero_or default (some zero) = default
nonzero_or default (some (suc n)) = suc n

-- `models[model_key]`, if `model_key and model_key in models`
named_model : Option String → Dict Model → Option Model
named_model none models = none
named_model (some k) models = if k =ₛ "" then none else lookup k models

context_or_least : String → Option Model → Dict Model → ℕ → ℕ
context_or_least key (some m) models default = context default m
context_or_least key none models default =
    nonzero_or default (least_context key default models none)

unfoldable pub get_max_context_for_session : Option Session → Dict Model → ℕ → ℕ
unfolding context_or_least named_model least_context nonzero_or has_provider
get_max_context_for_session none models default = default
get_max_context_for_session (some s) models default =
    context_or_least (or_else s.provider default_provider) (named_model s.model models) models
      default

-- whether some model has that upstream name
is_upstream : String → Dict Model → Bool
is_upstream name [] = false
is_upstream name ((_, m) ∷ ms) = if has_provider name m.model then true else is_upstream name ms

map_unknown : String → Dict Model → String
map_unknown name models = if is_upstream name models then name else or_else (after_slash name) name

map_found : String → Option Model → Dict Model → String
map_found name (some m) models = or_else m.model name
map_found name none models = map_unknown name models

unfoldable pub map_model_name : String → Dict Model → String
unfolding map_found map_unknown is_upstream has_provider
map_model_name client_model models = map_found client_model (lookup client_model models) models
