-- ===== src/Examples/Routes.antt =====
-- The router at concrete tables.
use kimi_proxy.Base.{ℕ, String, none, some, [], ◌∷◌, Dict, lookup}
use kimi_proxy.Router.{Session, Provider, Model, get_target_url_for_session, find_heavy_duty_model}
use kimi_proxy.Router.Names.{IsElsewhere, get_target_url_for_session-IsElsewhere}
use kimi_proxy.Router.Choice.{current_window, IsChoice, find_heavy_duty_model-IsChoice}

abbrev session : Session
session = record { provider = some "p"; model = none }

abbrev providers : Dict Provider
providers = ("p", record { base_url = some "https://localhost:8000/v1/" }) ∷ []

get_target_url_for_session-IsElsewhere_example :
    IsElsewhere (get_target_url_for_session (some session) providers)
get_target_url_for_session-IsElsewhere_example =
    get_target_url_for_session-IsElsewhere (some session) providers

abbrev model : String → ℕ → Model
model name context = record {
  provider = some "p";
  model = some name;
  max_context_size = some context;
}

abbrev models : Dict Model
models =
    ("p/s", model "small" 1000) ∷ ("p/l", model "large" 9000) ∷ ("p/m", model "medium" 5000) ∷ []

find_heavy_duty_model-IsChoice_example :
    IsChoice "p"
      (current_window (lookup "p/s" models))
      2000
      models
      (find_heavy_duty_model "p" "p/s" 2000 models)
find_heavy_duty_model-IsChoice_example = find_heavy_duty_model-IsChoice "p" "p/s" 2000 models
